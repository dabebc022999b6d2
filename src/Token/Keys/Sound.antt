-- ===== src/Token/Keys/Sound.antt =====
-- The keys of crates/sdk/src/universal_token/storage.rs cover the reads of each method of
-- contracts/universal-token/src/lib.rs.
use fluentbase.Prelude.{
  ℕ, ◌≡◌, ◌≢◌, true, Option, none, some, List, All, arith, Option-cases, inl, inr,
}
use fluentbase.Types.ExitCode.{ExitCode}
use fluentbase.Sdk.Host.{Host}
use fluentbase.Sdk.State.{System}
use fluentbase.Sdk.System as Sys
use fluentbase.Sdk.Result.{Result, err, abort}
use fluentbase.Token.Command.{
  decode_transfer, decode_transfer_from, decode_balance_of, decode_allowance, decode_approve,
  decode_permit, decode_nonces, decode_mint, decode_burn, decode_withdraw,
}
use fluentbase.Token.Guards.{
  when_non_payable, when_non_static, emit_transfer, emit_approval, write_word, emit_deposit,
  emit_withdrawal, emit_paused, emit_unpaused,
}
use fluentbase.Sdk.Storage.{set_checked}
use fluentbase.Token.Permit.{nonce_set}
use fluentbase.Token.Views.{
  symbol, name, decimals, total_supply, allowance, domain_separator, nonces, balance, balance_of,
}
use fluentbase.Token.Erc20.{transfer, transfer_from, approve}
use fluentbase.Token.Supply.{mint, burn, deposit, withdraw}
use fluentbase.Token.Pause.{pause, unpause}
use fluentbase.Token.Permit.{permit}
use fluentbase.Token.Consts.{
  sig_erc20_symbol, sig_erc20_name, sig_erc20_transfer, sig_erc20_transfer_from, sig_erc20_approve,
  sig_erc20_decimals, sig_erc20_allowance, sig_erc20_total_supply, sig_erc20_balance,
  sig_erc20_balance_of, sig_erc20_mint, sig_erc20_burn, sig_erc20_pause, sig_erc20_unpause,
  sig_erc20_permit, sig_erc20_nonces, sig_erc20_domain_separator, sig_erc20_deposit,
  sig_erc20_withdraw,
}
use fluentbase.Token.Keys.{main_keys}
use fluentbase.Token.Keys.Loaded.{
  frozen_context, wrapped_context, address_context, get_context, loaded, storage-loaded, get-loaded,
  address-loaded, frozen-loaded, wrapped-loaded, pausable-loaded, spend-loaded, move-loaded,
  mint-loaded, burn-loaded, deposit-loaded, withdraw-loaded, nonce-loaded, text-loaded,
  separator-loaded, digest-loaded,
}

-- The keys can be computed and each of them has a value in the frame.
abbrev pub IsPreloaded : System → Option (List ℕ) → Type 0
IsPreloaded s none = ⊥
IsPreloaded s (some keys) = All (λ k. loaded s k ≡ true) keys

-- The result is neither the error of a slot that is not loaded nor a panic.
abbrev pub IsSound : Result ℕ × System → Type 0
IsSound r = (r.0 ≢ err ExitCode.missing_storage_slot) × (r.0 ≢ abort)

ruleset loads = (
  frozen_context, wrapped_context, address_context, get_context, storage-loaded, get-loaded,
  address-loaded, frozen-loaded, wrapped-loaded, pausable-loaded, spend-loaded, move-loaded,
  mint-loaded, burn-loaded, deposit-loaded, withdraw-loaded, nonce-loaded, text-loaded,
  separator-loaded, digest-loaded,
)

module _ (host : Host) (input : List ℕ) (s : System) where
  pub symbol-IsSound :
      IsPreloaded s (main_keys host sig_erc20_symbol input s.context.caller)
      → IsSound (symbol host input s)
  unfolding main_keys symbol when_non_payable Sys.write
  symbol-IsSound keys = (λ h. grind (arith, loads), λ h. grind (arith, loads))

  pub name-IsSound :
      IsPreloaded s (main_keys host sig_erc20_name input s.context.caller)
      → IsSound (name host input s)
  unfolding main_keys name when_non_payable Sys.write
  name-IsSound keys = (λ h. grind (arith, loads), λ h. grind (arith, loads))

  pub transfer-IsSound :
      IsPreloaded s (main_keys host sig_erc20_transfer input s.context.caller)
      → IsSound (transfer host input s)
  unfolding main_keys transfer when_non_payable emit_transfer write_word when_non_static
  transfer-IsSound keys = elim (Option-cases (decode_transfer input)) [
    | inl e ↦ absurd (rw e at keys)
    | inr (c, e) ↦ let held = rw e at keys in (λ h. grind (arith, loads), λ h. grind (arith, loads))
  ]

  pub transfer_from-IsSound :
      IsPreloaded s (main_keys host sig_erc20_transfer_from input s.context.caller)
      → IsSound (transfer_from host input s)
  unfolding main_keys transfer_from when_non_payable emit_transfer write_word when_non_static
  transfer_from-IsSound keys = elim (Option-cases (decode_transfer_from input)) [
    | inl e ↦ absurd (rw e at keys)
    | inr (c, e) ↦ let held = rw e at keys in (λ h. grind (arith, loads), λ h. grind (arith, loads))
  ]

  pub approve-IsSound :
      IsPreloaded s (main_keys host sig_erc20_approve input s.context.caller)
      → IsSound (approve host input s)
  unfolding main_keys approve when_non_payable emit_approval write_word when_non_static set_checked
  approve-IsSound keys = elim (Option-cases (decode_approve input)) [
    | inl e ↦ absurd (rw e at keys)
    | inr (c, e) ↦ let held = rw e at keys in (λ h. grind (arith, loads), λ h. grind (arith, loads))
  ]

  pub decimals-IsSound :
      IsPreloaded s (main_keys host sig_erc20_decimals input s.context.caller)
      → IsSound (decimals input s)
  unfolding main_keys decimals when_non_payable write_word
  decimals-IsSound keys = (λ h. grind (arith, loads), λ h. grind (arith, loads))

  pub allowance-IsSound :
      IsPreloaded s (main_keys host sig_erc20_allowance input s.context.caller)
      → IsSound (allowance host input s)
  unfolding main_keys allowance when_non_payable write_word
  allowance-IsSound keys = elim (Option-cases (decode_allowance input)) [
    | inl e ↦ absurd (rw e at keys)
    | inr (c, e) ↦ let held = rw e at keys in (λ h. grind (arith, loads), λ h. grind (arith, loads))
  ]

  pub total_supply-IsSound :
      IsPreloaded s (main_keys host sig_erc20_total_supply input s.context.caller)
      → IsSound (total_supply input s)
  unfolding main_keys total_supply when_non_payable write_word
  total_supply-IsSound keys = (λ h. grind (arith, loads), λ h. grind (arith, loads))

  pub balance-IsSound :
      IsPreloaded s (main_keys host sig_erc20_balance input s.context.caller)
      → IsSound (balance host input s)
  unfolding main_keys balance when_non_payable write_word
  balance-IsSound keys = (λ h. grind (arith, loads), λ h. grind (arith, loads))

  pub balance_of-IsSound :
      IsPreloaded s (main_keys host sig_erc20_balance_of input s.context.caller)
      → IsSound (balance_of host input s)
  unfolding main_keys balance_of when_non_payable write_word
  balance_of-IsSound keys = elim (Option-cases (decode_balance_of input)) [
    | inl e ↦ absurd (rw e at keys)
    | inr (c, e) ↦ let held = rw e at keys in (λ h. grind (arith, loads), λ h. grind (arith, loads))
  ]

  pub mint-IsSound :
      IsPreloaded s (main_keys host sig_erc20_mint input s.context.caller)
      → IsSound (mint host input s)
  unfolding main_keys mint when_non_payable emit_transfer write_word when_non_static
  mint-IsSound keys = elim (Option-cases (decode_mint input)) [
    | inl e ↦ absurd (rw e at keys)
    | inr (c, e) ↦ let held = rw e at keys in (λ h. grind (arith, loads), λ h. grind (arith, loads))
  ]

  pub burn-IsSound :
      IsPreloaded s (main_keys host sig_erc20_burn input s.context.caller)
      → IsSound (burn host input s)
  unfolding main_keys burn when_non_payable emit_transfer write_word when_non_static
  burn-IsSound keys = elim (Option-cases (decode_burn input)) [
    | inl e ↦ absurd (rw e at keys)
    | inr (c, e) ↦ let held = rw e at keys in (λ h. grind (arith, loads), λ h. grind (arith, loads))
  ]

  pub pause-IsSound :
      IsPreloaded s (main_keys host sig_erc20_pause input s.context.caller)
      → IsSound (pause input s)
  unfolding main_keys pause when_non_payable emit_paused write_word when_non_static
      Sys.write_storage
  pause-IsSound keys = (λ h. grind (arith, loads), λ h. grind (arith, loads))

  pub unpause-IsSound :
      IsPreloaded s (main_keys host sig_erc20_unpause input s.context.caller)
      → IsSound (unpause input s)
  unfolding main_keys unpause when_non_payable emit_unpaused write_word when_non_static
      Sys.write_storage
  unpause-IsSound keys = (λ h. grind (arith, loads), λ h. grind (arith, loads))

  pub permit-IsSound :
      IsPreloaded s (main_keys host sig_erc20_permit input s.context.caller)
      → IsSound (permit host input s)
  unfolding main_keys permit when_non_payable emit_approval set_checked nonce_set
  permit-IsSound keys = elim (Option-cases (decode_permit input)) [
    | inl e ↦ absurd (rw e at keys)
    | inr (c, e) ↦ let held = rw e at keys in (λ h. grind (arith, loads), λ h. grind (arith, loads))
  ]

  pub nonces-IsSound :
      IsPreloaded s (main_keys host sig_erc20_nonces input s.context.caller)
      → IsSound (nonces host input s)
  unfolding main_keys nonces when_non_payable write_word
  nonces-IsSound keys = elim (Option-cases (decode_nonces input)) [
    | inl e ↦ absurd (rw e at keys)
    | inr (c, e) ↦ let held = rw e at keys in (λ h. grind (arith, loads), λ h. grind (arith, loads))
  ]

  pub domain_separator-IsSound :
      IsPreloaded s (main_keys host sig_erc20_domain_separator input s.context.caller)
      → IsSound (domain_separator host input s)
  unfolding main_keys domain_separator when_non_payable write_word
  domain_separator-IsSound keys = (λ h. grind (arith, loads), λ h. grind (arith, loads))

  pub deposit-IsSound :
      IsPreloaded s (main_keys host sig_erc20_deposit input s.context.caller)
      → IsSound (deposit host input s)
  unfolding main_keys deposit emit_transfer emit_deposit when_non_static
  deposit-IsSound keys = (λ h. grind (arith, loads), λ h. grind (arith, loads))

  pub withdraw-IsSound :
      IsPreloaded s (main_keys host sig_erc20_withdraw input s.context.caller)
      → IsSound (withdraw host input s)
  unfolding main_keys withdraw when_non_payable emit_transfer emit_withdrawal when_non_static
      Sys.transfer_value_to
  withdraw-IsSound keys = elim (Option-cases (decode_withdraw input)) [
    | inl e ↦ absurd (rw e at keys)
    | inr (c, e) ↦ let held = rw e at keys in (λ h. grind (arith, loads), λ h. grind (arith, loads))
  ]
