-- ===== src/Token/Keys/Loaded.antt =====
-- Reads of contracts/universal-token/src/lib.rs on a frame whose storage was loaded: none of them fails.
use fluentbase.Prelude.{ℕ, ◌≡◌, ◌≢◌, Bool, true, false, none, some, arith}
use fluentbase.Types.ExitCode.{ExitCode}
use fluentbase.Types.Journal.{peek}
use fluentbase.Types.Journal.Overlay.{peek_laws}
use fluentbase.Sdk.Host.{Host}
use fluentbase.Sdk.State.{System}
use fluentbase.Sdk.System as Sys
use fluentbase.Sdk.Result.{Result, err, abort}
use fluentbase.Sdk.Storage.{get, get_checked, set_checked, storage_address, storage_short_string}
use fluentbase.Token.Consts.{
  contract_frozen_storage_slot, total_supply_storage_slot, pauser_storage_slot,
  wrapped_storage_slot, name_storage_slot,
}
use fluentbase.Token.Guards.{
  when_non_frozen, when_wrapped_enabled, when_pausable_enabled, nonce_slot,
}
use fluentbase.Token.Erc20.{move_balance, spend_allowance}
use fluentbase.Token.Supply.{mint_balance, burn_balance, deposit_balance, withdraw_balance}
use fluentbase.Token.Permit.{nonce_get, permit_digest, domain_separator_value}

-- Whether a slot has a value in the frame's journal.
unfoldable pub loaded : System → ℕ → Bool
loaded s k = elim (peek s.journal k) [ some v ↦ true | none ↦ false ]

-- The result is neither the error of a slot that is not loaded nor a panic.
abbrev pub IsSound {ℓ} : {A : Type ℓ} → Result A → Type ℓ
IsSound r = (r ≢ err ExitCode.missing_storage_slot) × (r ≢ abort)

pub storage-loaded :
    (i : ℕ) (s : System)
    → loaded s (i) ≡ true
    → ((Sys.storage i s).0 ≢ err ExitCode.missing_storage_slot)
      × ((Sys.storage i s).0 ≢ abort)
      × ((k : ℕ) → loaded s k ≡ true → loaded (Sys.storage i s).1 k ≡ true)
unfolding loaded Sys.storage
storage-loaded i s h0 =
    (λ e. grind (arith, peek_laws), λ e. grind (arith, peek_laws), λ k e. grind (arith, peek_laws))

pub get-loaded :
    (i : ℕ) (s : System)
    → loaded s (i) ≡ true
    → ((get_checked i s).0 ≢ err ExitCode.missing_storage_slot)
      × ((get_checked i s).0 ≢ abort)
      × ((k : ℕ) → loaded s k ≡ true → loaded (get_checked i s).1 k ≡ true)
unfolding loaded get_checked
get-loaded i s h0 =
    (λ e. grind (arith, peek_laws), λ e. grind (arith, peek_laws), λ k e. grind (arith, peek_laws))

pub address-loaded :
    (i : ℕ) (s : System)
    → loaded s (i) ≡ true
    → ((storage_address i s).0 ≢ err ExitCode.missing_storage_slot)
      × ((storage_address i s).0 ≢ abort)
      × ((k : ℕ) → loaded s k ≡ true → loaded (storage_address i s).1 k ≡ true)
unfolding loaded storage_address
address-loaded i s h0 =
    (λ e. grind (arith, peek_laws), λ e. grind (arith, peek_laws), λ k e. grind (arith, peek_laws))

pub frozen-loaded :
    (s : System)
    → loaded s (contract_frozen_storage_slot) ≡ true
    → ((when_non_frozen s).0 ≢ err ExitCode.missing_storage_slot)
      × ((when_non_frozen s).0 ≢ abort)
      × ((k : ℕ) → loaded s k ≡ true → loaded (when_non_frozen s).1 k ≡ true)
unfolding loaded when_non_frozen
frozen-loaded s h0 =
    (λ e. grind (arith, peek_laws), λ e. grind (arith, peek_laws), λ k e. grind (arith, peek_laws))

pub wrapped-loaded :
    (s : System)
    → loaded s (wrapped_storage_slot) ≡ true
    → ((when_wrapped_enabled s).0 ≢ err ExitCode.missing_storage_slot)
      × ((when_wrapped_enabled s).0 ≢ abort)
      × ((k : ℕ) → loaded s k ≡ true → loaded (when_wrapped_enabled s).1 k ≡ true)
unfolding loaded when_wrapped_enabled
wrapped-loaded s h0 =
    (λ e. grind (arith, peek_laws), λ e. grind (arith, peek_laws), λ k e. grind (arith, peek_laws))

pub pausable-loaded :
    (s : System)
    → loaded s (pauser_storage_slot) ≡ true
    → ((when_pausable_enabled s).0 ≢ err ExitCode.missing_storage_slot)
      × ((when_pausable_enabled s).0 ≢ abort)
      × ((k : ℕ) → loaded s k ≡ true → loaded (when_pausable_enabled s).1 k ≡ true)
unfolding loaded when_pausable_enabled
pausable-loaded s h0 =
    (λ e. grind (arith, peek_laws), λ e. grind (arith, peek_laws), λ k e. grind (arith, peek_laws))

pub spend-loaded :
    (slot allowance amount : ℕ) (s : System)
    → ((spend_allowance slot allowance amount s).0 ≢ err ExitCode.missing_storage_slot)
      × ((spend_allowance slot allowance amount s).0 ≢ abort)
      × ((k : ℕ) → loaded s k ≡ true → loaded (spend_allowance slot allowance amount s).1 k ≡ true)
unfolding loaded spend_allowance set_checked
spend-loaded slot allowance amount s =
    (λ e. grind (arith, peek_laws), λ e. grind (arith, peek_laws), λ k e. grind (arith, peek_laws))

pub move-loaded :
    (f t amount : ℕ) (s : System)
    → loaded s (f) ≡ true
    → loaded s (t) ≡ true
    → ((move_balance f t amount s).0 ≢ err ExitCode.missing_storage_slot)
      × ((move_balance f t amount s).0 ≢ abort)
unfolding loaded move_balance get_checked set_checked
move-loaded f t amount s h0 h1 = (λ e. grind (arith, peek_laws), λ e. grind (arith, peek_laws))

pub mint-loaded :
    (a amount : ℕ) (s : System)
    → loaded s (a) ≡ true
    → loaded s (total_supply_storage_slot) ≡ true
    → ((mint_balance a amount s).0 ≢ err ExitCode.missing_storage_slot)
      × ((mint_balance a amount s).0 ≢ abort)
unfolding loaded mint_balance get_checked set_checked
mint-loaded a amount s h0 h1 = (λ e. grind (arith, peek_laws), λ e. grind (arith, peek_laws))

pub burn-loaded :
    (a amount : ℕ) (s : System)
    → loaded s (a) ≡ true
    → loaded s (total_supply_storage_slot) ≡ true
    → ((burn_balance a amount s).0 ≢ err ExitCode.missing_storage_slot)
      × ((burn_balance a amount s).0 ≢ abort)
unfolding loaded burn_balance get_checked set_checked
burn-loaded a amount s h0 h1 = (λ e. grind (arith, peek_laws), λ e. grind (arith, peek_laws))

pub deposit-loaded :
    (a amount : ℕ) (s : System)
    → loaded s (a) ≡ true
    → loaded s (total_supply_storage_slot) ≡ true
    → ((deposit_balance a amount s).0 ≢ err ExitCode.missing_storage_slot)
      × ((deposit_balance a amount s).0 ≢ abort)
unfolding loaded deposit_balance get_checked set_checked
deposit-loaded a amount s h0 h1 = (λ e. grind (arith, peek_laws), λ e. grind (arith, peek_laws))

pub withdraw-loaded :
    (a amount : ℕ) (s : System)
    → loaded s (a) ≡ true
    → loaded s (total_supply_storage_slot) ≡ true
    → ((withdraw_balance a amount s).0 ≢ err ExitCode.missing_storage_slot)
      × ((withdraw_balance a amount s).0 ≢ abort)
unfolding loaded withdraw_balance get_checked set_checked
withdraw-loaded a amount s h0 h1 = (λ e. grind (arith, peek_laws), λ e. grind (arith, peek_laws))

pub frozen_context : (s : System) → (when_non_frozen s).1.context ≡ s.context
unfolding when_non_frozen
frozen_context s = grind arith

pub wrapped_context : (s : System) → (when_wrapped_enabled s).1.context ≡ s.context
unfolding when_wrapped_enabled
wrapped_context s = grind arith

pub address_context : (i : ℕ) (s : System) → (storage_address i s).1.context ≡ s.context
unfolding storage_address
address_context i s = grind arith

pub get_context : (i : ℕ) (s : System) → (get_checked i s).1.context ≡ s.context
unfolding get_checked
get_context i s = grind arith

module _ (host : Host) where
  pub nonce-loaded :
      (owner : ℕ) (s : System)
      → loaded s (nonce_slot host owner) ≡ true
      → ((nonce_get host owner s).0 ≢ err ExitCode.missing_storage_slot)
        × ((nonce_get host owner s).0 ≢ abort)
        × ((k : ℕ) → loaded s k ≡ true → loaded (nonce_get host owner s).1 k ≡ true)
  unfolding loaded nonce_get get
  nonce-loaded owner s h0 = (
    λ e. grind (arith, peek_laws),
    λ e. grind (arith, peek_laws),
    λ k e. grind (arith, peek_laws),
  )

  pub text-loaded :
      (i : ℕ) (s : System)
      → loaded s i ≡ true
      → ((storage_short_string host i s).0 ≢ err ExitCode.missing_storage_slot)
        × ((storage_short_string host i s).0 ≢ abort)
  unfolding loaded storage_short_string
  text-loaded i s h0 = (λ e. grind (arith, peek_laws), λ e. grind (arith, peek_laws))

  pub separator-loaded :
      (s : System)
      → loaded s name_storage_slot ≡ true
      → ((domain_separator_value host s).0 ≢ err ExitCode.missing_storage_slot)
        × ((domain_separator_value host s).0 ≢ abort)
  unfolding domain_separator_value
  separator-loaded s h0 = (λ e. grind (arith, text-loaded), λ e. grind (arith, text-loaded))

  pub digest-loaded :
      (owner spender value nonce deadline : ℕ) (s : System)
      → loaded s name_storage_slot ≡ true
      → let m = permit_digest host owner spender value nonce deadline s in
        (m.0 ≢ err ExitCode.missing_storage_slot) × (m.0 ≢ abort)
  unfolding permit_digest
  digest-loaded owner spender value nonce deadline s h0 =
      (λ e. grind (arith, separator-loaded), λ e. grind (arith, separator-loaded))
