-- ===== src/Token/Ledger/Emits.antt =====
-- The events and the output of contracts/universal-token/src/lib.rs leave every slot as it is.
use fluentbase.Prelude.{ℕ, ◌≡◌, refl, arith}
use fluentbase.Types.Journal.Overlay.{peek_laws}
use fluentbase.Sdk.State.{System}
use fluentbase.Sdk.Result.{ok}
use fluentbase.Token.Guards.{
  emit_transfer, emit_approval, emit_paused, emit_unpaused, emit_deposit, emit_withdrawal,
  write_word,
}
use fluentbase.Token.Ledger.{slot_value}

pub emit_transfer_lem :
    (f t amount : ℕ) (s : System)
    → ((emit_transfer f t amount s).0 ≡ ok tt)
      × ((k : ℕ) → slot_value (emit_transfer f t amount s).1 k ≡ slot_value s k)
unfolding slot_value emit_transfer
emit_transfer_lem f t amount s = (refl, λ k. grind (arith, peek_laws))

pub emit_approval_lem :
    (f t amount : ℕ) (s : System)
    → ((emit_approval f t amount s).0 ≡ ok tt)
      × ((k : ℕ) → slot_value (emit_approval f t amount s).1 k ≡ slot_value s k)
unfolding slot_value emit_approval
emit_approval_lem f t amount s = (refl, λ k. grind (arith, peek_laws))

pub emit_paused_lem :
    (a : ℕ) (s : System)
    → ((emit_paused a s).0 ≡ ok tt) × ((k : ℕ) → slot_value (emit_paused a s).1 k ≡ slot_value s k)
unfolding slot_value emit_paused
emit_paused_lem a s = (refl, λ k. grind (arith, peek_laws))

pub emit_unpaused_lem :
    (a : ℕ) (s : System)
    → ((emit_unpaused a s).0 ≡ ok tt)
      × ((k : ℕ) → slot_value (emit_unpaused a s).1 k ≡ slot_value s k)
unfolding slot_value emit_unpaused
emit_unpaused_lem a s = (refl, λ k. grind (arith, peek_laws))

pub emit_deposit_lem :
    (a amount : ℕ) (s : System)
    → ((emit_deposit a amount s).0 ≡ ok tt)
      × ((k : ℕ) → slot_value (emit_deposit a amount s).1 k ≡ slot_value s k)
unfolding slot_value emit_deposit
emit_deposit_lem a amount s = (refl, λ k. grind (arith, peek_laws))

pub emit_withdrawal_lem :
    (a amount : ℕ) (s : System)
    → ((emit_withdrawal a amount s).0 ≡ ok tt)
      × ((k : ℕ) → slot_value (emit_withdrawal a amount s).1 k ≡ slot_value s k)
unfolding slot_value emit_withdrawal
emit_withdrawal_lem a amount s = (refl, λ k. grind (arith, peek_laws))

pub write_word_lem :
    (v : ℕ) (s : System)
    → ((write_word v s).0 ≡ ok tt) × ((k : ℕ) → slot_value (write_word v s).1 k ≡ slot_value s k)
unfolding slot_value write_word
write_word_lem v s = (refl, λ k. grind (arith, peek_laws))

pub ruleset emit_laws = (
  emit_transfer_lem, emit_approval_lem, emit_paused_lem, emit_unpaused_lem, emit_deposit_lem,
  emit_withdrawal_lem, write_word_lem,
)
