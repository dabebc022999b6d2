-- ===== src/Revm/Syscall/Owned.antt =====
-- crates/revm/src/syscall.rs: the calls of a runtime on the metadata and the storage of the accounts
-- that it owns, and the two calls of the runtime upgrade contract.
use fluentbase.Prelude.{
  ℕ, ◌-◌, Bool, not, Option, none, some, List, [], ◌∷◌, ◌++◌, ◌&&◌, leb, ◌==◌, length,
  if◌then◌else◌, take, drop,
}
use fluentbase.Prelude.Bytes.{be_bytes, from_be_bytes}
use fluentbase.Types.ExitCode.{ExitCode}
use fluentbase.Types.Genesis.{precompile_evm_runtime, precompile_runtime_upgrade}
use fluentbase.Revm.Engine.{Engine, AccountInfo}
use fluentbase.Revm.Interruption.{
  Interruption, result, Call, ◌>>=◌, ◌>>◌, exit, assert_halt, some_or_halt, read_or_db, write,
  writable, input_exactly, input_at_least, input_from, from_le_bytes, le_bytes,
}
use fluentbase.Revm.Syscall.Storage.{sload_charged, sstore_gas}
use fluentbase.Revm.Syscall.Account.{keccak_empty}
use fluentbase.Revm.Syscall.Calls.{min}

-- `EVM_MAX_CODE_SIZE`
abbrev pub evm_max_code_size : ℕ
evm_max_code_size = 0x6000

module _ {G W C S : Type 0} (rt : Engine G W C S) where
  -- `calc_create_metadata_address`; an address is the low 20 bytes of the hash.
  unfoldable pub calc_create_metadata_address : ℕ → ℕ → ℕ
  calc_create_metadata_address owner salt =
      from_be_bytes
        (drop 12 (be_bytes 32 (rt.keccak (0x44 ∷ (be_bytes 20 owner ++ be_bytes 32 salt)))))

  -- The owner and the metadata of an account that is an `OwnableAccount`.
  unfoldable pub ownable : AccountInfo C → Option (ℕ × List ℕ)
  ownable account = elim account.code [ some code ↦ rt.ownable_account code | none ↦ none ]

  owned_part : ℕ → Option (ℕ × List ℕ) → Option (List ℕ)
  owned_part owner none = none
  owned_part owner (some (by, metadata)) = if by == owner then some metadata else none

  -- The metadata of an account of the given owner.
  unfoldable pub owned_metadata : ℕ → AccountInfo C → Option (List ℕ)
  unfolding owned_part
  owned_metadata owner account = owned_part owner (ownable account)

  module _ (i : Interruption) where
    -- `let Some(account_owner_address) = account_owner_address else { return_halt!(…) }`
    unfoldable pub owner_or_halt : Call G W C ℕ
    owner_or_halt = some_or_halt i.account_owner_address ExitCode.malformed_builtin_params

    abbrev flag : Bool → ℕ
    flag b = if b then 1 else 0

    unfoldable pub size_bytes : Option (List ℕ) → List ℕ
    size_bytes none = le_bytes 4 0 ++ (0 ∷ [])
    size_bytes (some metadata) = le_bytes 4 (length metadata) ++ (1 ∷ [])

    unfoldable pub metadata_size : Call G W C (Unit {0})
    metadata_size = do
      owner ← owner_or_halt
      input ← input_exactly i 20
      (account, is_cold) ← read_or_db (rt.load_account_with_code (from_be_bytes input))
      exit (
          result ExitCode.ok (
            size_bytes (owned_metadata owner account)
            ++ (flag is_cold ∷ (flag account.is_empty ∷ []))))

    owner_bytes : Option (ℕ × List ℕ) → List ℕ
    owner_bytes none = be_bytes 20 0
    owner_bytes (some (owner, metadata)) = be_bytes 20 owner

    unfoldable pub read_owner : ℕ → Call G W C (Unit {0})
    unfolding owner_bytes
    read_owner address = do
      (account, is_cold) ← read_or_db (rt.load_account_with_code address)
      exit (result ExitCode.ok (owner_bytes (ownable account)))

    unfoldable pub metadata_account_owner : Call G W C (Unit {0})
    metadata_account_owner = do
      owner ← owner_or_halt
      input ← input_exactly i 20
      if from_be_bytes input == i.target_address
          then exit (result ExitCode.ok (be_bytes 20 owner))
          else read_owner (from_be_bytes input)

    -- The creation of the derived account, once no account is in its place.
    unfoldable pub create_metadata : ℕ → ℕ → Call G W C (Unit {0})
    create_metadata owner address = do
      metadata ← input_from i 32
      write (rt.set_code address (rt.new_ownable_account owner metadata))
      exit (result ExitCode.ok [])

    unfoldable pub metadata_create : Call G W C (Unit {0})
    metadata_create = do
      owner ← owner_or_halt
      writable i
      input ← input_at_least i 32
      let address = calc_create_metadata_address owner (from_be_bytes input)
      (account, is_cold) ← read_or_db (rt.load_account_with_code address)
      if not (account.code_hash == keccak_empty && account.nonce == 0)
          then exit (result ExitCode.create_contract_collision [])
          else create_metadata owner address

    unfoldable pub metadata_write : Call G W C (Unit {0})
    metadata_write = do
      owner ← owner_or_halt
      writable i
      input ← input_at_least i 24
      let address = from_be_bytes (take 20 input)
      (account, is_cold) ← read_or_db (rt.load_account_with_code address)
      metadata ← some_or_halt (owned_metadata owner account) ExitCode.malformed_builtin_params
      new_metadata ← input_from i 24
      write (rt.set_code address (rt.new_ownable_account owner new_metadata))
      exit (result ExitCode.ok [])

    unfoldable pub window : ℕ → ℕ → List ℕ → List ℕ
    window offset size metadata =
        if leb (length metadata) offset
        then []
        else take (min size (length metadata - offset)) (drop offset metadata)

    unfoldable pub metadata_copy : Call G W C (Unit {0})
    metadata_copy = do
      owner ← owner_or_halt
      input ← input_exactly i 28
      let address = from_be_bytes (take 20 input)
      (account, is_cold) ← read_or_db (rt.load_account_with_code address)
      metadata ← some_or_halt (owned_metadata owner account) ExitCode.malformed_builtin_params
      exit (
          result ExitCode.ok (
            window (from_le_bytes (take 4 (drop 20 input))) (from_le_bytes (drop 24 input))
              metadata))

    unfoldable pub metadata_storage_read : Call G W C (Unit {0})
    metadata_storage_read = do
      owner ← owner_or_halt
      input ← input_exactly i 32
      sload_charged rt owner (from_le_bytes input)

    unfoldable pub metadata_storage_write : Call G W C (Unit {0})
    metadata_storage_write = do
      owner ← owner_or_halt
      writable i
      input ← input_exactly i 64
      sstore_gas rt owner (from_le_bytes (take 32 input)) (from_le_bytes (drop 32 input))
      write (rt.touch_account owner)
      exit (result ExitCode.ok [])

    -- The last steps of both upgrades: the account is loaded and gets the code.
    unfoldable pub install : ℕ → C → Call G W C (Unit {0})
    install target code = do
      (account, is_cold) ← read_or_db (rt.load_account_with_code target)
      write (rt.set_code target code)
      exit (result ExitCode.ok [])

    -- Only the runtime upgrade contract may make these calls.
    unfoldable pub upgrade_authorized : Call G W C (Unit {0})
    upgrade_authorized =
        assert_halt (i.target_address == precompile_runtime_upgrade)
          ExitCode.malformed_builtin_params

    unfoldable pub upgrade_wasm_runtime : Call G W C (Unit {0})
    upgrade_wasm_runtime = do
      writable i
      upgrade_authorized
      input ← input_at_least i 20
      binary ← input_from i 20
      code ← some_or_halt (rt.new_rwasm binary) ExitCode.malformed_builtin_params
      install (from_be_bytes input) code

    unfoldable pub upgrade_evm_runtime : Call G W C (Unit {0})
    upgrade_evm_runtime = do
      writable i
      upgrade_authorized
      input ← input_at_least i 20
      binary ← input_from i 20
      assert_halt (not (length binary == 0) && leb (length binary) evm_max_code_size)
          ExitCode.malformed_builtin_params
      install (from_be_bytes input)
          (rt.new_ownable_account precompile_evm_runtime (rt.analyzed_metadata binary))
