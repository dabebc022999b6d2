-- ===== src/Token/Keys.antt =====
-- crates/sdk/src/universal_token/storage.rs: the slots that the host loads for a call, computed
-- from the calldata before the contract runs.
pub mod Loaded
pub mod Sound
pub mod Cover
use fluentbase.Prelude.{
  ℕ, Bool, true, false, not, Option, none, some, List, [], ◌∷◌, ◌++◌, ltb, ◌==◌, if◌then◌else◌,
  length, take, drop,
}
use fluentbase.Prelude.Bytes.{from_be_bytes}
use fluentbase.Codec.{◌>>=◌}
use fluentbase.Sdk.Host.{Host}
use fluentbase.Token.Command.{
  decode_transfer, decode_transfer_from, decode_balance_of, decode_allowance, decode_approve,
  decode_permit, decode_nonces, decode_mint, decode_burn, decode_withdraw,
}
use fluentbase.Token.Consts.{
  total_supply_storage_slot, contract_frozen_storage_slot, symbol_storage_slot, name_storage_slot,
  decimals_storage_slot, minter_storage_slot, pauser_storage_slot, wrapped_storage_slot,
  sig_erc20_symbol, sig_erc20_name, sig_erc20_transfer, sig_erc20_transfer_from, sig_erc20_approve,
  sig_erc20_decimals, sig_erc20_allowance, sig_erc20_total_supply, sig_erc20_balance,
  sig_erc20_balance_of, sig_erc20_mint, sig_erc20_burn, sig_erc20_pause, sig_erc20_unpause,
  sig_erc20_permit, sig_erc20_nonces, sig_erc20_domain_separator, sig_erc20_deposit,
  sig_erc20_withdraw,
}
use fluentbase.Token.Settings.{decode_with_prefix, sig_len_bytes}
use fluentbase.Token.Guards.{balance_slot, allowance_slot, nonce_slot}

-- `if c { result.push(slot); }`
abbrev pub push_if : Bool → ℕ → List ℕ
push_if c slot = if c then slot ∷ [] else []

abbrev pub is_some : Option Bool → Bool
is_some (some b) = true
is_some none = false

module _ (host : Host) where
  unfoldable pub erc20_compute_deploy_storage_keys : List ℕ → ℕ → Option (List ℕ)
  erc20_compute_deploy_storage_keys input caller =
      if ltb (length input) sig_len_bytes then none else (do
        settings ← decode_with_prefix input
        some (
            decimals_storage_slot
              ∷ name_storage_slot
              ∷ symbol_storage_slot
              ∷ total_supply_storage_slot
              ∷ push_if (not (settings.initial_supply == 0)) (balance_slot host caller)
            ++ (push_if (not (settings.minter == 0)) minter_storage_slot
                ++ (push_if (not (settings.pauser == 0)) pauser_storage_slot
                    ++ push_if (is_some settings.wrapped) wrapped_storage_slot))))

  -- The `match sig { … }` of `erc20_compute_main_storage_keys`.
  unfoldable pub main_keys : ℕ → List ℕ → ℕ → Option (List ℕ)
  main_keys sig input caller =
      if sig == sig_erc20_total_supply
      then some (total_supply_storage_slot ∷ [])
      else if sig == sig_erc20_transfer
      then (do
        c ← decode_transfer input
        some
            (contract_frozen_storage_slot ∷ balance_slot host caller ∷ balance_slot host c.to ∷ []))
      else if sig == sig_erc20_transfer_from
      then (do
        c ← decode_transfer_from input
        some (
            contract_frozen_storage_slot
            ∷ balance_slot host c.from
            ∷ balance_slot host c.to
            ∷ allowance_slot host c.from caller
            ∷ []))
      else if sig == sig_erc20_balance
      then some (balance_slot host caller ∷ [])
      else if sig == sig_erc20_balance_of
      then (do c ← decode_balance_of input; some (balance_slot host c.owner ∷ []))
      else if sig == sig_erc20_symbol
      then some (symbol_storage_slot ∷ [])
      else if sig == sig_erc20_name
      then some (name_storage_slot ∷ [])
      else if sig == sig_erc20_decimals
      then some (decimals_storage_slot ∷ [])
      else if sig == sig_erc20_allowance
      then (do c ← decode_allowance input; some (allowance_slot host c.owner c.spender ∷ []))
      else if sig == sig_erc20_approve
      then (do c ← decode_approve input; some (allowance_slot host caller c.spender ∷ []))
      else if sig == sig_erc20_permit
      then (do
        c ← decode_permit input
        some (
            allowance_slot host c.owner c.spender
            ∷ nonce_slot host c.owner
            ∷ name_storage_slot
            ∷ []))
      else if sig == sig_erc20_nonces
      then (do c ← decode_nonces input; some (nonce_slot host c.owner ∷ []))
      else if sig == sig_erc20_domain_separator
      then some (name_storage_slot ∷ [])
      else if sig == sig_erc20_mint
      then (do
        c ← decode_mint input
        some (
            contract_frozen_storage_slot
            ∷ balance_slot host c.to
            ∷ minter_storage_slot
            ∷ total_supply_storage_slot
            ∷ []))
      else if sig == sig_erc20_burn
      then (do
        c ← decode_burn input
        some (
            contract_frozen_storage_slot
            ∷ balance_slot host c.from
            ∷ minter_storage_slot
            ∷ total_supply_storage_slot
            ∷ []))
      else if sig == sig_erc20_pause
      then some (contract_frozen_storage_slot ∷ pauser_storage_slot ∷ [])
      else if sig == sig_erc20_unpause
      then some (contract_frozen_storage_slot ∷ pauser_storage_slot ∷ [])
      else if sig == sig_erc20_deposit
      then some (
          wrapped_storage_slot
          ∷ contract_frozen_storage_slot
          ∷ balance_slot host caller
          ∷ total_supply_storage_slot
          ∷ [])
      else if sig == sig_erc20_withdraw
      then (do
        c ← decode_withdraw input
        some (
            wrapped_storage_slot
            ∷ contract_frozen_storage_slot
            ∷ balance_slot host caller
            ∷ total_supply_storage_slot
            ∷ []))
      else some []

  unfoldable pub erc20_compute_main_storage_keys : List ℕ → ℕ → Option (List ℕ)
  unfolding main_keys from_be_bytes
  erc20_compute_main_storage_keys input caller =
      if ltb (length input) sig_len_bytes
      then none
      else main_keys (from_be_bytes (take sig_len_bytes input)) (drop sig_len_bytes input) caller

  unfoldable pub erc20_compute_storage_keys : List ℕ → ℕ → Bool → Option (List ℕ)
  unfolding erc20_compute_deploy_storage_keys erc20_compute_main_storage_keys
  erc20_compute_storage_keys input caller is_create =
      if is_create
      then erc20_compute_deploy_storage_keys input caller
      else erc20_compute_main_storage_keys input caller
