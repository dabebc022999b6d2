-- ===== src/Token/Effects/Transfer.antt =====
-- What `transfer`, `transferFrom` and `approve` of contracts/universal-token/src/lib.rs leave in
-- the storage.
use fluentbase.Prelude.{
  ℕ, ◌-◌, ◌^◌, ◌≤◌, ◌≡◌, ◌≢◌, false, some, List, ltb, ◌==◌, ◌&&◌, if◌then◌else◌, arith, sym,
}
use fluentbase.Sdk.Host.{Host}
use fluentbase.Sdk.State.{System}
use fluentbase.Sdk.Result.{ok}
use fluentbase.Sdk.Storage.{get_checked}
use fluentbase.Token.Consts.{contract_frozen_storage_slot}
use fluentbase.Token.Command.{
  TransferCommand, TransferFromCommand, ApproveCommand, decode_transfer, decode_transfer_from,
  decode_approve,
}
use fluentbase.Token.Guards.{
  when_non_payable, when_non_static, when_non_frozen, balance_slot, allowance_slot, write_word,
  emit_transfer,
}
use fluentbase.Token.Erc20.{move_balance, spend_allowance, transfer, transfer_from, approve}
use fluentbase.Token.Ledger.{
  slot_value, moved, spent, frozen_lem, frozen_exit, get_lem, get_exit, set_lem,
}
use fluentbase.Token.Ledger.Phases.{move_lem, move_exit, spend_lem, spend_exit}
use fluentbase.Token.Ledger.Emits.{emit_laws}

ruleset exits = (frozen_exit, get_exit, move_exit, spend_exit)

module _ (host : Host) (input : List ℕ) where
  transfer_steps :
      (c : TransferCommand) (s : System)
      → decode_transfer input ≡ some c
      → (transfer host input s).0 ≡ ok 0
      → let s1 = (when_non_frozen s).1 in
        let m =
          move_balance (balance_slot host s.context.caller) (balance_slot host c.to) c.amount s1 in
        (s.context.value ≡ 0)
        × (s.context.is_static ≡ false)
        × ((when_non_frozen s).0 ≡ ok tt)
        × (c.to ≢ 0)
        × (m.0 ≡ ok tt)
        × ((transfer host input s).1
            ≡ (write_word 1 (emit_transfer s.context.caller c.to c.amount m.1).1).1)
  unfolding transfer when_non_payable when_non_static
  transfer_steps c s e h = (
    grind (arith, frozen_lem, exits),
    grind (arith, frozen_lem, exits),
    grind (arith, frozen_lem, exits),
    λ z. grind (arith, frozen_lem, exits),
    grind (arith, frozen_lem, exits),
    grind (arith, frozen_lem, exits, emit_laws),
  )

  -- A transfer that succeeds was not payable, not static, not frozen and not to the zero address;
  -- the caller held the amount; it moves from the caller's balance to the receiver's, and no
  -- other slot changes.
  pub transfer-slot_value :
      (c : TransferCommand) (s : System)
      → decode_transfer input ≡ some c
      → (transfer host input s).0 ≡ ok 0
      → let from = balance_slot host s.context.caller in
        let to = balance_slot host c.to in
        (s.context.value ≡ 0)
        × (s.context.is_static ≡ false)
        × (slot_value s contract_frozen_storage_slot ≡ 0)
        × (c.to ≢ 0)
        × (c.amount ≤ slot_value s from)
        × ((k : ℕ)
            → slot_value (transfer host input s).1 k ≡ moved from to c.amount (slot_value s) k)
  transfer-slot_value c s e h =
      let (payable, static, frozen, to, move, final) = transfer_steps c s e h in
      (
        payable,
        static,
        grind (arith, frozen_lem, frozen),
        to,
        grind (arith, frozen_lem, move_lem, frozen, move),
        λ k. grind (arith, frozen_lem, move_lem, emit_laws, frozen, move, final),
      )

  transfer_from_guards :
      (c : TransferFromCommand) (s : System)
      → decode_transfer_from input ≡ some c
      → (transfer_from host input s).0 ≡ ok 0
      → let slot = allowance_slot host c.from s.context.caller in
        let s1 = (when_non_frozen s).1 in
        (s.context.value ≡ 0)
        × (s.context.is_static ≡ false)
        × ((when_non_frozen s).0 ≡ ok tt)
        × (c.to ≢ 0)
        × (s1.context.caller ≡ s.context.caller)
        × ((get_checked slot s1).0 ≡ ok (slot_value s1 slot))
  unfolding transfer_from when_non_payable when_non_static
  transfer_from_guards c s e h = (
    grind (arith, exits),
    grind (arith, exits),
    grind (arith, exits),
    λ z. grind (arith, exits),
    grind (arith, frozen_lem, exits),
    grind (arith, frozen_lem, get_lem, exits),
  )

  transfer_from_steps :
      (c : TransferFromCommand) (s : System)
      → decode_transfer_from input ≡ some c
      → (transfer_from host input s).0 ≡ ok 0
      → let slot = allowance_slot host c.from s.context.caller in
        let s1 = (when_non_frozen s).1 in
        let p = spend_allowance slot (slot_value s1 slot) c.amount (get_checked slot s1).1 in
        let m = move_balance (balance_slot host c.from) (balance_slot host c.to) c.amount p.1 in
        (p.0 ≡ ok tt)
        × (m.0 ≡ ok tt)
        × ((transfer_from host input s).1
            ≡ (write_word 1 (emit_transfer c.from c.to c.amount m.1).1).1)
  unfolding transfer_from when_non_payable when_non_static
  transfer_from_steps c s e h =
      let (payable, static, frozen, to, caller, got) = transfer_from_guards c s e h in
      (
        grind (arith, spend_exit, payable, static, frozen, to, caller, got),
        grind (arith, spend_exit, move_exit),
        grind (arith, spend_exit, move_exit, emit_laws),
      )

  -- A `transferFrom` that succeeds: beside what `transfer` asks for, the caller's allowance covers
  -- the amount or is the greatest word; it falls by the amount, unless it is the greatest word,
  -- and then the amount moves from the owner's balance to the receiver's.
  pub transfer_from-slot_value :
      (c : TransferFromCommand) (s : System)
      → decode_transfer_from input ≡ some c
      → (transfer_from host input s).0 ≡ ok 0
      → let slot = allowance_slot host c.from s.context.caller in
        let from = balance_slot host c.from in
        let to = balance_slot host c.to in
        (s.context.value ≡ 0)
        × (s.context.is_static ≡ false)
        × (slot_value s contract_frozen_storage_slot ≡ 0)
        × (c.to ≢ 0)
        × (ltb (slot_value s slot) (2 ^ 256 - 1) && ltb (slot_value s slot) c.amount ≡ false)
        × (c.amount ≤ spent slot c.amount (slot_value s) from)
        × ((k : ℕ)
            → slot_value (transfer_from host input s).1 k
              ≡ moved from to c.amount (spent slot c.amount (slot_value s)) k)
  transfer_from-slot_value c s e h =
      let (payable, static, frozen, to, caller, got) = transfer_from_guards c s e h in
      let (spend, move, final) = transfer_from_steps c s e h in
      let slot = allowance_slot host c.from s.context.caller in
      let s1 = (when_non_frozen s).1 in
      let (unfrozen, _, kept) = frozen_lem s frozen in
      let (_, _, got_kept) = get_lem slot (slot_value s1 slot) s1 got in
      let (enough, _, spends) =
        spend_lem slot (slot_value s1 slot) c.amount (get_checked slot s1).1 (sym (got_kept slot))
          spend in
      (
        payable,
        static,
        unfrozen,
        to,
        grind (arith, enough, kept slot, got_kept slot),
        grind (arith, kept, got_kept, spends, move_lem),
        λ k. grind (arith, kept, got_kept, spends, move_lem, emit_laws),
      )

  -- An `approve` that succeeds was not payable and not static; it sets the allowance of the
  -- spender by the caller to the amount, whatever it was, and changes no other slot.
  pub approve-slot_value :
      (c : ApproveCommand) (s : System)
      → decode_approve input ≡ some c
      → (approve host input s).0 ≡ ok 0
      → (s.context.value ≡ 0)
        × (s.context.is_static ≡ false)
        × ((k : ℕ)
            → slot_value (approve host input s).1 k ≡ (
                if allowance_slot host s.context.caller c.spender == k
                then c.amount
                else slot_value s k))
  unfolding approve when_non_payable when_non_static
  approve-slot_value c s e h =
      (grind (arith, set_lem), grind (arith, set_lem), λ k. grind (arith, set_lem, emit_laws))
