-- ===== src/Token/Effects/Success.antt =====
-- When `transfer` of contracts/universal-token/src/lib.rs succeeds.
use fluentbase.Prelude.{ℕ, ◌+◌, ◌^◌, ◌≤◌, ◌<◌, ◌≡◌, ◌≢◌, false, some, List, arith, ◌∙◌}
use fluentbase.Types.Journal.{peek}
use fluentbase.Types.Journal.Overlay.{peek_laws}
use fluentbase.Sdk.Host.{Host}
use fluentbase.Sdk.State.{System}
use fluentbase.Sdk.Result.{ok}
use fluentbase.Sdk.Storage.{get_checked, set_checked}
use fluentbase.Token.Consts.{contract_frozen_storage_slot}
use fluentbase.Token.Command.{TransferCommand, decode_transfer}
use fluentbase.Token.Guards.{when_non_payable, when_non_static, when_non_frozen, balance_slot}
use fluentbase.Token.Erc20.{move_balance, transfer}
use fluentbase.Token.Ledger.Emits.{emit_laws}

pub frozen_ok :
    (s : System)
    → peek s.journal contract_frozen_storage_slot ≡ some 0
    → ((when_non_frozen s).0 ≡ ok tt)
      × ((when_non_frozen s).1.context ≡ s.context)
      × ((k : ℕ) → peek (when_non_frozen s).1.journal k ≡ peek s.journal k)
unfolding when_non_frozen
frozen_ok s e = (grind (arith, peek_laws), grind (arith, peek_laws), λ k. grind (arith, peek_laws))

pub move_ok :
    (f t amount v w : ℕ) (s : System)
    → peek s.journal f ≡ some v
    → peek s.journal t ≡ some w
    → amount ≤ v
    → w + amount < 2 ^ 256
    → (move_balance f t amount s).0 ≡ ok tt
unfolding move_balance get_checked set_checked
move_ok f t amount v w s ef et h k = grind (arith, peek_laws)

-- A transfer succeeds if it is not payable, not static, not frozen and not to the zero address, the
-- slots it reads are loaded, the caller holds the amount, and the receiver's balance and the
-- amount stay below 2 ^ 256.
pub transfer_ok :
    (host : Host) (input : List ℕ) (c : TransferCommand) (v w : ℕ) (s : System)
    → decode_transfer input ≡ some c
    → s.context.value ≡ 0
    → s.context.is_static ≡ false
    → peek s.journal contract_frozen_storage_slot ≡ some 0
    → c.to ≢ 0
    → peek s.journal (balance_slot host s.context.caller) ≡ some v
    → peek s.journal (balance_slot host c.to) ≡ some w
    → c.amount ≤ v
    → w + c.amount < 2 ^ 256
    → (transfer host input s).0 ≡ ok 0
unfolding transfer when_non_payable when_non_static
transfer_ok host input c v w s e payable static frozen to from_loaded to_loaded enough room =
    let s1 = (when_non_frozen s).1 in
    let (unfrozen, context, kept) = frozen_ok s frozen in
    let moved =
      move_ok (balance_slot host s.context.caller) (balance_slot host c.to) c.amount v w s1
        (kept (balance_slot host s.context.caller) ∙ from_loaded)
        (kept (balance_slot host c.to) ∙ to_loaded) enough room in
    grind (arith, emit_laws)
