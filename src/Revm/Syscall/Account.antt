-- ===== src/Revm/Syscall/Account.antt =====
-- crates/revm/src/syscall.rs: balances, code and the end of accounts, and block hashes.
use fluentbase.Prelude.{
  ℕ, zero, suc, ◌+◌, ◌-◌, ◌*◌, Bool, true, false, not, Option, none, some, List, [], ◌∷◌, ◌++◌,
  ◌&&◌, ltb, leb, ◌==◌, length, if◌then◌else◌, take, drop,
}
use fluentbase.Prelude.Bytes.{be_bytes, from_be_bytes}
use fluentbase.Types.ExitCode.{ExitCode}
use fluentbase.Types.Genesis.{precompile_evm_runtime}
use fluentbase.Revm.Engine.{Engine, AccountInfo}
use fluentbase.Revm.Metadata.{EthereumMetadata, read_from_bytes}
use fluentbase.Revm.Metadata as Metadata
use fluentbase.Revm.Interruption.{
  Interruption, Exit, result, Call, ◌>>=◌, ◌>>◌, exit, pure, assert_halt, load_or_halt, read_or_db,
  gets, charge_regular_gas, writable, input_exactly, from_le_bytes, le_bytes,
}
use fluentbase.Revm.Syscall.Calls.{min}

-- `KECCAK_EMPTY`
abbrev pub keccak_empty : ℕ
keccak_empty = 0xc5d2460186f7233c927e7db2dcc703c0e500b653ca82273b7bfad8045d85a470

-- `RWASM_MAX_CODE_SIZE`
abbrev pub ext_code_copy_max_copy_size : ℕ
ext_code_copy_max_copy_size = 12 * 1024 * 1024

unfoldable pub zeros : ℕ → List ℕ
zeros zero = []
zeros (suc n) = 0 ∷ zeros n

-- The code of an account as the three code calls see it: that of an EVM account with its metadata,
-- if these can be read, or the account's own.
pub data CodeView (C : Type 0) : Type 0 where
  evm : Option EthereumMetadata → CodeView C
  native : Option C → CodeView C

module _ {G W C S : Type 0} (rt : Engine G W C S) where
  -- `EthereumMetadata::read_from_bytes` of the host, which panics on metadata that do not decode.
  unfoldable pub read_metadata : Option (Option EthereumMetadata) → Call G W C (CodeView C)
  read_metadata none = pure (CodeView.evm none)
  read_metadata (some none) = exit Exit.abort
  read_metadata (some (some m)) = pure (CodeView.evm (some m))

  unfoldable pub view_owned : Option C → Option (ℕ × List ℕ) → Call G W C (CodeView C)
  unfolding read_metadata
  view_owned code none = pure (CodeView.native code)
  view_owned code (some (owner, metadata)) =
      if owner == precompile_evm_runtime
      then read_metadata (read_from_bytes rt.deserialize metadata)
      else pure (CodeView.native code)

  -- The `match` on the code of an account.
  unfoldable pub view_code : Option C → Call G W C (CodeView C)
  unfolding view_owned
  view_code none = pure (CodeView.native none)
  view_code (some code) = view_owned (some code) (rt.ownable_account code)

  code_len : CodeView C → ℕ
  code_len (CodeView.evm none) = 0
  code_len (CodeView.evm (some m)) = Metadata.code_size m
  code_len (CodeView.native none) = 0
  code_len (CodeView.native (some code)) = rt.code_len code

  -- The hash before the cases of precompiled contracts and of an account in deployment.
  viewed_hash : AccountInfo C → CodeView C → ℕ
  viewed_hash account (CodeView.evm none) = 0
  viewed_hash account (CodeView.evm (some m)) = Metadata.code_hash m
  viewed_hash account (CodeView.native code) = if account.is_empty then 0 else account.code_hash

  code_bytes : CodeView C → List ℕ
  code_bytes (CodeView.evm none) = []
  code_bytes (CodeView.evm (some m)) = Metadata.code_copy m
  code_bytes (CodeView.native none) = []
  code_bytes (CodeView.native (some code)) = rt.original_bytes code

  unfoldable pub size_of_code : ℕ → CodeView C → ℕ
  unfolding code_len
  size_of_code address view = if rt.is_precompile address then 0 else code_len view

  unfoldable pub hash_of_code : ℕ → AccountInfo C → CodeView C → ℕ
  unfolding viewed_hash
  hash_of_code address account view =
      if rt.is_precompile address
      then 0
      else if viewed_hash account view == 0 && not account.is_empty
      then keccak_empty
      else viewed_hash account view

  unfoldable pub bytes_of_code : ℕ → CodeView C → List ℕ
  unfolding code_bytes
  bytes_of_code address view = if rt.is_precompile address then [] else code_bytes view

  -- The load of an account's information, and the charge for it.
  unfoldable pub load_account_charged : ℕ → Bool → Call G W C (AccountInfo C)
  load_account_charged address with_code = do
    skip_cold ← gets λ f. ltb (rt.remaining f.gas) rt.cold_account_additional_cost
    (account, is_cold) ← load_or_halt (rt.load_account_info address with_code skip_cold)
    charge_regular_gas rt (if is_cold then rt.gas_cold_account_access else rt.gas_warm_storage_read)
    pure account

  -- A window of the code, with zeros behind its end.
  unfoldable pub padded_slice : ℕ → ℕ → List ℕ → List ℕ
  padded_slice offset size bytes =
      if leb (length bytes) offset
      then zeros size
      else let copied = min size (length bytes - offset) in
        take copied (drop offset bytes) ++ zeros (size - copied)

  module _ (i : Interruption) where
    unfoldable pub balance : Call G W C (Unit {0})
    balance = do
      input ← input_exactly i 20
      account ← load_account_charged (from_be_bytes input) false
      exit (result ExitCode.ok (le_bytes 32 account.balance))

    unfoldable pub self_balance : Call G W C (Unit {0})
    self_balance = do
      input ← input_exactly i 0
      (account, is_cold) ← read_or_db (rt.load_account i.target_address)
      charge_regular_gas rt rt.gas_low
      exit (result ExitCode.ok (le_bytes 32 account.balance))

    unfoldable pub code_size : Call G W C (Unit {0})
    code_size = do
      input ← input_exactly i 20
      account ← load_account_charged (from_be_bytes input) true
      view ← view_code account.code
      exit (result ExitCode.ok (le_bytes 32 (size_of_code (from_be_bytes input) view)))

    unfoldable pub code_hash : Call G W C (Unit {0})
    code_hash = do
      input ← input_exactly i 20
      account ← load_account_charged (from_be_bytes input) true
      view ← view_code account.code
      exit (result ExitCode.ok (be_bytes 32 (hash_of_code (from_be_bytes input) account view)))

    -- The part of `SYSCALL_ID_CODE_COPY` behind the early return for no bytes.
    unfoldable pub copy_code : ℕ → ℕ → ℕ → AccountInfo C → Call G W C (Unit {0})
    copy_code address offset size account = do
      view ← view_code account.code
      exit (result ExitCode.ok (padded_slice offset size (bytes_of_code address view)))

    unfoldable pub code_copy : Call G W C (Unit {0})
    code_copy = do
      input ← input_exactly i 36
      let address = from_be_bytes (take 20 input)
      let offset = from_le_bytes (take 8 (drop 20 input))
      let size = from_le_bytes (take 8 (drop 28 input))
      assert_halt (leb size ext_code_copy_max_copy_size) ExitCode.malformed_builtin_params
      charge_regular_gas rt (rt.extcodecopy size)
      account ← load_account_charged address true
      if size == 0 then exit (result ExitCode.ok []) else copy_code address offset size account

    unfoldable pub destroy_account : Call G W C (Unit {0})
    destroy_account = do
      input ← input_exactly i 20
      writable i
      let target = from_be_bytes input
      skip_cold ← gets λ f.
          ltb (rt.remaining f.gas) (rt.cold_account_additional_cost + rt.warm_storage_read_cost)
      (destroyed, is_cold) ← load_or_halt (rt.selfdestruct i.target_address target skip_cold)
      let target_exists = destroyed.target_exists && not (rt.is_precompile target)
      charge_regular_gas rt
          (5000 + rt.selfdestruct_cost (destroyed.had_value && not target_exists) is_cold)
      exit (result ExitCode.ok [])

    -- The hash of one of the last 256 blocks, or zero.
    unfoldable pub read_block_hash : ℕ → Call G W C ℕ
    read_block_hash requested =
        if ltb requested rt.block_number && leb (rt.block_number - requested) 256
        then read_or_db (rt.block_hash requested)
        else pure 0

    unfoldable pub block_hash : Call G W C (Unit {0})
    block_hash = do
      input ← input_exactly i 8
      charge_regular_gas rt rt.gas_blockhash
      hash ← read_block_hash (from_le_bytes input)
      exit (result ExitCode.ok (be_bytes 32 hash))
