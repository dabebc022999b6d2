-- ===== src/Token/Ledger.antt =====
-- The token's storage as numbers (contracts/universal-token/src/lib.rs): what the guards, the
-- events and the changes of balances do to it.
pub mod Phases
pub mod Emits
use fluentbase.Prelude.{
  ℕ, ◌+◌, ◌-◌, ◌%◌, ◌^◌, ◌≤◌, ◌<◌, ◌≡◌, ◌≢◌, refl, Bool, true, false, Option, none, some, List, ltb,
  ◌==◌, if◌then◌else◌, ◌&&◌, arith,
}
use fluentbase.Types.Journal.{peek}
use fluentbase.Types.Journal
use fluentbase.Types.Journal.Overlay.{peek_laws}
use fluentbase.Sdk.State.{System}
use fluentbase.Sdk.System as Sys
use fluentbase.Sdk.Result.{ok, ret}
use fluentbase.Sdk.Storage.{get_checked, set_checked, storage_address}
use fluentbase.Token.Consts.{
  contract_frozen_storage_slot, total_supply_storage_slot, pauser_storage_slot,
  wrapped_storage_slot,
}
use fluentbase.Token.Guards.{
  when_non_frozen, when_pausable_enabled, when_wrapped_enabled, emit_transfer, emit_approval,
  emit_paused, emit_unpaused, emit_deposit, emit_withdrawal, write_word,
}
use fluentbase.Token.Erc20.{move_balance, spend_allowance}
use fluentbase.Token.Supply.{mint_balance, burn_balance, deposit_balance, withdraw_balance}

-- The word in a slot; a slot that is not loaded counts as zero.
unfoldable pub slot_value : System → ℕ → ℕ
slot_value s k = elim (peek s.journal k) [ some v ↦ v | none ↦ 0 ]

-- What `move_balance` leaves in a slot: the debit first, then the credit.
abbrev pub moved : ℕ → ℕ → ℕ → (ℕ → ℕ) → ℕ → ℕ
moved f t amount b k =
    if t == k
    then (if f == t then b f - amount else b t) + amount
    else if f == k
    then b f - amount
    else b k

-- The spender's allowance: the greatest word stands for one that is never used up.
abbrev pub spent : ℕ → ℕ → (ℕ → ℕ) → ℕ → ℕ
spent slot amount b k = if slot == k && ltb (b slot) (2 ^ 256 - 1) then b slot - amount else b k

-- Two slots that change together; the second write stands.
abbrev pub set_two : ℕ → ℕ → ℕ → ℕ → (ℕ → ℕ) → ℕ → ℕ
set_two i v j w b k = if j == k then w else if i == k then v else b k

pub storage_lem :
    (i v : ℕ) (s : System)
    → (Sys.storage i s).0 ≡ ok v
    → (slot_value s i ≡ v)
      × ((Sys.storage i s).1.context ≡ s.context)
      × ((k : ℕ) → slot_value (Sys.storage i s).1 k ≡ slot_value s k)
unfolding slot_value Sys.storage
storage_lem i v s h =
    (grind (arith, peek_laws), grind (arith, peek_laws), λ k. grind (arith, peek_laws))

pub storage_exit : (i : ℕ) (s : System) → (Sys.storage i s).0 ≢ ret 0
unfolding Sys.storage
storage_exit i s h = grind arith

pub get_lem :
    (i v : ℕ) (s : System)
    → (get_checked i s).0 ≡ ok v
    → (slot_value s i ≡ v)
      × ((get_checked i s).1.context ≡ s.context)
      × ((k : ℕ) → slot_value (get_checked i s).1 k ≡ slot_value s k)
unfolding slot_value get_checked
get_lem i v s h =
    (grind (arith, peek_laws), grind (arith, peek_laws), λ k. grind (arith, peek_laws))

pub get_exit : (i : ℕ) (s : System) → (get_checked i s).0 ≢ ret 0
unfolding get_checked
get_exit i s h = grind arith

pub set_lem :
    (i v : ℕ) (s : System)
    → ((set_checked i v s).0 ≡ ok tt)
      × ((set_checked i v s).1.context ≡ s.context)
      × ((k : ℕ) → slot_value (set_checked i v s).1 k ≡ (if i == k then v else slot_value s k))
unfolding slot_value set_checked
set_lem i v s = (refl, refl, λ k. grind (arith, peek_laws))

pub write_lem :
    (i v : ℕ) (s : System)
    → ((Sys.write_storage i v s).0 ≡ ok tt)
      × ((Sys.write_storage i v s).1.context ≡ s.context)
      × ((k : ℕ)
          → slot_value (Sys.write_storage i v s).1 k ≡ (if i == k then v else slot_value s k))
unfolding slot_value Sys.write_storage
write_lem i v s = (refl, refl, λ k. grind (arith, peek_laws))

pub address_lem :
    (i a : ℕ) (s : System)
    → (storage_address i s).0 ≡ ok a
    → (slot_value s i % 2 ^ 160 ≡ a)
      × ((storage_address i s).1.context ≡ s.context)
      × ((k : ℕ) → slot_value (storage_address i s).1 k ≡ slot_value s k)
unfolding slot_value storage_address
address_lem i a s h =
    (grind (arith, peek_laws), grind (arith, peek_laws), λ k. grind (arith, peek_laws))

pub address_exit : (i : ℕ) (s : System) → (storage_address i s).0 ≢ ret 0
unfolding storage_address
address_exit i s h = grind arith

pub frozen_lem :
    (s : System)
    → (when_non_frozen s).0 ≡ ok tt
    → (slot_value s contract_frozen_storage_slot ≡ 0)
      × ((when_non_frozen s).1.context ≡ s.context)
      × ((k : ℕ) → slot_value (when_non_frozen s).1 k ≡ slot_value s k)
unfolding slot_value when_non_frozen
frozen_lem s h = (grind (arith, peek_laws), grind (arith, peek_laws), λ k. grind (arith, peek_laws))

pub frozen_exit : (s : System) → (when_non_frozen s).0 ≢ ret 0
unfolding when_non_frozen
frozen_exit s h = grind arith

pub wrapped_lem :
    (s : System)
    → (when_wrapped_enabled s).0 ≡ ok tt
    → (slot_value s wrapped_storage_slot ≢ 0)
      × ((when_wrapped_enabled s).1.context ≡ s.context)
      × ((k : ℕ) → slot_value (when_wrapped_enabled s).1 k ≡ slot_value s k)
unfolding slot_value when_wrapped_enabled
wrapped_lem s h =
    (λ z. grind (arith, peek_laws), grind (arith, peek_laws), λ k. grind (arith, peek_laws))

pub wrapped_exit : (s : System) → (when_wrapped_enabled s).0 ≢ ret 0
unfolding when_wrapped_enabled
wrapped_exit s h = grind arith

pub pausable_lem :
    (p : ℕ) (s : System)
    → (when_pausable_enabled s).0 ≡ ok p
    → (slot_value s pauser_storage_slot % 2 ^ 160 ≡ p)
      × (p ≢ 0)
      × ((when_pausable_enabled s).1.context ≡ s.context)
      × ((k : ℕ) → slot_value (when_pausable_enabled s).1 k ≡ slot_value s k)
unfolding slot_value when_pausable_enabled
pausable_lem p s h = (
  grind (arith, peek_laws),
  λ z. grind (arith, peek_laws),
  grind (arith, peek_laws),
  λ k. grind (arith, peek_laws),
)

pub pausable_exit : (s : System) → (when_pausable_enabled s).0 ≢ ret 0
unfolding when_pausable_enabled
pausable_exit s h = grind arith
