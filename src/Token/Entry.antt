-- ===== src/Token/Entry.antt =====
-- contracts/universal-token/src/lib.rs: the constructor, `deploy_entry` and `main_entry`.
pub mod Dispatch
use fluentbase.Prelude.{
  ℕ, ◌+◌, ◌-◌, ◌*◌, ◌^◌, Bool, true, false, not, Option, none, some, List, [], ◌∷◌, ◌++◌, ltb, leb,
  ◌==◌, ◌||◌, ◌&&◌, if◌then◌else◌, length, take, drop, replicate,
}
use Prim.Native.Nat.{min}
use fluentbase.Prelude.Bytes.{be_bytes, from_be_bytes}
use fluentbase.Types.ExitCode.{ExitCode}
use fluentbase.Sdk.Host.{Host}
use fluentbase.Sdk.State.{System}
use fluentbase.Sdk.System as Sys
use fluentbase.Sdk.Result.{
  M, Result, ok, err, ◌>>=◌, ◌>>◌, pure, gets, ok_or, fail_if, return_if, body,
}
use fluentbase.Sdk.Storage.{set_checked, write_storage_address, write_storage_short_string}
use fluentbase.Token.Consts.{
  name_storage_slot, symbol_storage_slot, decimals_storage_slot, total_supply_storage_slot,
  minter_storage_slot, pauser_storage_slot, wrapped_storage_slot, err_ust_not_mintable,
  sig_erc20_symbol, sig_erc20_name, sig_erc20_transfer, sig_erc20_transfer_from, sig_erc20_approve,
  sig_erc20_decimals, sig_erc20_allowance, sig_erc20_total_supply, sig_erc20_balance,
  sig_erc20_balance_of, sig_erc20_mint, sig_erc20_burn, sig_erc20_pause, sig_erc20_unpause,
  sig_erc20_permit, sig_erc20_nonces, sig_erc20_domain_separator, sig_erc20_deposit,
  sig_erc20_withdraw,
}
use fluentbase.Token.Settings.{
  InitialSettings, as_str, decode_with_prefix, encode_with_prefix, sig_len_bytes,
  initial_settings_v2_size, initial_settings_max_size,
}
use fluentbase.Token.Guards.{caller, when_non_payable, when_non_static, emit_transfer, balance_slot}
use fluentbase.Token.Erc20.{transfer, transfer_from, approve}
use fluentbase.Token.Supply.{mint, burn, deposit, withdraw}
use fluentbase.Token.Pause.{pause, unpause}
use fluentbase.Token.Permit.{permit}
use fluentbase.Token.Views.{
  symbol, name, decimals, total_supply, allowance, domain_separator, nonces, balance, balance_of,
  unknown_method,
}

abbrev pub code_deposit_gas_per_byte : ℕ
code_deposit_gas_per_byte = 200

abbrev pub fuel_denom_rate : ℕ
fuel_denom_rate = 20

-- `u64::saturating_mul`
abbrev pub saturating_mul : ℕ → ℕ → ℕ
saturating_mul a b = min (a * b) (2 ^ 64 - 1)

-- `wrapped.filter(|v| *v).is_some()`
abbrev pub is_wrapped : Option Bool → Bool
is_wrapped (some b) = b
is_wrapped none = false

-- `if initial_supply > 0 { events::Transfer { … }.emit(sdk)?; }`
unfoldable pub emit_initial : ℕ → ℕ → M (Unit {0})
emit_initial account supply s = elim (ltb 0 supply) [
  | true ↦ emit_transfer 0 account supply s
  | false ↦ (ok tt, s)
]

-- `if let Some(wrapped) = wrapped { … }`
unfoldable pub write_wrapped : Option Bool → ℕ → M (Unit {0})
write_wrapped wrapped minter s = elim wrapped [
  | some b ↦
      (do
        return_if (not (minter == 0)) err_ust_not_mintable
        Sys.write_storage wrapped_storage_slot (if b then 1 else 0))
        s
  | none ↦ (ok tt, s)
]

-- `write_evm_exit_message`: the selector of `Panic(uint256)` and the code as a word.
unfoldable pub evm_exit_message : ℕ → List ℕ
evm_exit_message code = 0x4e ∷ 0x48 ∷ 0x7b ∷ 0x71 ∷ replicate 28 0 ++ be_bytes 4 code

-- The end of both entries: an error of the contract is written out, and reverts the call.
unfoldable pub exit_with : ℕ → M (Unit {0})
unfolding Sys.write evm_exit_message
exit_with code s = elim (code == 0) [
  | true ↦ (ok tt, s)
  | false ↦ (do Sys.write (evm_exit_message code); λ t. (err ExitCode.panic, t)) s
]

module _ (host : Host) where
  unfoldable pub constructor : List ℕ → M ℕ
  constructor input = body do
    when_non_payable
    when_non_static
    settings ← ok_or (decode_with_prefix input) ExitCode.malformed_builtin_params
    let metadata = encode_with_prefix settings
    fail_if (ltb initial_settings_v2_size (length metadata)) ExitCode.create_contract_size_limit
    token_name ← ok_or (as_str host settings.token_name) ExitCode.malformed_builtin_params
    token_symbol ← ok_or (as_str host settings.token_symbol) ExitCode.malformed_builtin_params
    write_storage_short_string name_storage_slot token_name
    write_storage_short_string symbol_storage_slot token_symbol
    Sys.write_storage decimals_storage_slot settings.decimals
    sender ← caller
    return_if (is_wrapped settings.wrapped && not (settings.initial_supply == 0))
        err_ust_not_mintable
    set_checked (balance_slot host sender) settings.initial_supply
    Sys.write_storage total_supply_storage_slot settings.initial_supply
    emit_initial sender settings.initial_supply
    write_storage_address minter_storage_slot settings.minter
    write_storage_address pauser_storage_slot settings.pauser
    write_wrapped settings.wrapped settings.minter
    let fuel_for_metadata =
        saturating_mul (saturating_mul (length metadata) code_deposit_gas_per_byte) fuel_denom_rate
    fuel ← gets (λ s. s.fuel)
    fail_if (ltb fuel fuel_for_metadata) ExitCode.out_of_fuel
    Sys.charge_fuel fuel_for_metadata
    Sys.write_contract_metadata metadata
    pure 0

  unfoldable pub deploy_entry : M (Unit {0})
  unfolding constructor exit_with
  deploy_entry = do
    input ← gets (λ s. s.input)
    fail_if (ltb (length input) sig_len_bytes || ltb initial_settings_max_size (length input))
        ExitCode.malformed_builtin_params
    evm_exit_code ← constructor input
    exit_with evm_exit_code

  -- The `match sig { … }` of `main_entry`; `long` is the guard of the wrapper's two methods.
  unfoldable pub dispatch : ℕ → Bool → List ℕ → M ℕ
  dispatch sig long input s =
      if sig == sig_erc20_symbol
      then symbol host input s
      else if sig == sig_erc20_name
      then name host input s
      else if sig == sig_erc20_transfer
      then transfer host input s
      else if sig == sig_erc20_transfer_from
      then transfer_from host input s
      else if sig == sig_erc20_approve
      then approve host input s
      else if sig == sig_erc20_decimals
      then decimals input s
      else if sig == sig_erc20_allowance
      then allowance host input s
      else if sig == sig_erc20_total_supply
      then total_supply input s
      else if sig == sig_erc20_balance
      then balance host input s
      else if sig == sig_erc20_balance_of
      then balance_of host input s
      else if sig == sig_erc20_mint
      then mint host input s
      else if sig == sig_erc20_burn
      then burn host input s
      else if sig == sig_erc20_pause
      then pause input s
      else if sig == sig_erc20_unpause
      then unpause input s
      else if sig == sig_erc20_permit
      then permit host input s
      else if sig == sig_erc20_nonces
      then nonces host input s
      else if sig == sig_erc20_domain_separator
      then domain_separator host input s
      else if sig == sig_erc20_deposit && long
      then deposit host input s
      else if sig == sig_erc20_withdraw && long
      then withdraw host input s
      else unknown_method input s

  unfoldable pub main_entry : M (Unit {0})
  unfolding dispatch exit_with from_be_bytes
  main_entry = do
    input ← gets (λ s. s.input)
    fail_if (ltb (length input) sig_len_bytes) ExitCode.malformed_builtin_params
    metadata ← gets (λ s. s.contract_metadata)
    evm_exit_code ←
        dispatch (from_be_bytes (take sig_len_bytes input))
          (leb initial_settings_v2_size (length metadata)) (drop sig_len_bytes input)
    exit_with evm_exit_code
