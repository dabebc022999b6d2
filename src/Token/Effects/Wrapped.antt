-- ===== src/Token/Effects/Wrapped.antt =====
-- What `deposit` and `withdraw` of contracts/universal-token/src/lib.rs leave in the storage and
-- in the frame's list of transfers.
use fluentbase.Prelude.{ℕ, ◌+◌, ◌-◌, ◌^◌, ◌≤◌, ◌<◌, ◌≡◌, ◌≢◌, false, none, some, List, arith, []}
use fluentbase.Types.Journal.Overlay.{peek_laws}
use fluentbase.Sdk.Host.{Host}
use fluentbase.Sdk.State.{System}
use fluentbase.Sdk.Result.{ok, ret}
use fluentbase.Sdk.System as Sys
use fluentbase.Token.Consts.{
  contract_frozen_storage_slot, total_supply_storage_slot, wrapped_storage_slot,
}
use fluentbase.Token.Command.{WithdrawCommand, decode_withdraw}
use fluentbase.Token.Guards.{
  when_non_payable, when_non_static, when_non_frozen, when_wrapped_enabled, balance_slot,
  emit_transfer, emit_deposit, emit_withdrawal,
}
use fluentbase.Token.Supply.{deposit_balance, withdraw_balance, deposit, withdraw}
use fluentbase.Token.Ledger.{
  slot_value, set_two, frozen_lem, frozen_exit, wrapped_lem, wrapped_exit,
}
use fluentbase.Token.Ledger.Phases.{deposit_lem, deposit_exit, withdraw_lem, withdraw_exit}
use fluentbase.Token.Ledger.Emits.{emit_laws}

abbrev supply_slot : ℕ
supply_slot = total_supply_storage_slot

abbrev frozen_slot : ℕ
frozen_slot = contract_frozen_storage_slot

-- The transfers that the frame asks the host for.
abbrev pub transfers_of : System → List (ℕ × ℕ)
transfers_of s = elim s.transfers [ some l ↦ l | none ↦ [] ]

pub value_lem :
    (to amount : ℕ) (s : System)
    → (Sys.transfer_value_to to amount s).0 ≡ ok tt
    → ((k : ℕ) → slot_value (Sys.transfer_value_to to amount s).1 k ≡ slot_value s k)
unfolding Sys.transfer_value_to slot_value
value_lem to amount s h k = grind (arith, peek_laws)

value_exit : (to amount : ℕ) (s : System) → (Sys.transfer_value_to to amount s).0 ≢ ret 0
unfolding Sys.transfer_value_to
value_exit to amount s h = grind arith

ruleset exits = (frozen_exit, wrapped_exit, deposit_exit, withdraw_exit, value_exit)

module _ (host : Host) (input : List ℕ) where
  deposit_steps :
      (s : System)
      → (deposit host input s).0 ≡ ok 0
      → let s1 = (when_wrapped_enabled s).1 in
        let s2 = (when_non_frozen s1).1 in
        let m = deposit_balance (balance_slot host s.context.caller) s.context.value s2 in
        (s.context.is_static ≡ false)
        × ((when_wrapped_enabled s).0 ≡ ok tt)
        × ((when_non_frozen s1).0 ≡ ok tt)
        × (s.context.caller ≢ 0)
        × (m.0 ≡ ok tt)
        × ((deposit host input s).1
            ≡ (emit_transfer 0 s.context.caller s.context.value
                (emit_deposit s.context.caller s.context.value m.1).1).1)
  unfolding deposit when_non_static
  deposit_steps s h =
      let wrapped : (when_wrapped_enabled s).0 ≡ ok tt = grind (arith, exits) in
      let s1 = (when_wrapped_enabled s).1 in
      let frozen : (when_non_frozen s1).0 ≡ ok tt = grind (arith, exits) in
      let (_, context, _) = wrapped_lem s wrapped in
      let (_, context', _) = frozen_lem s1 frozen in
      (
        grind (arith, exits),
        wrapped,
        frozen,
        λ z. grind (arith, exits, context, context'),
        grind (arith, exits, context, context'),
        grind (arith, exits, emit_laws, context, context'),
      )

  -- A `deposit` that succeeds is on a wrapping token that is not frozen, not static, and from an
  -- account other than zero; the value that came with the call is added to the caller's balance
  -- and to the supply, without overflow, and no other slot changes.
  pub deposit-slot_value :
      (s : System)
      → (deposit host input s).0 ≡ ok 0
      → let from = balance_slot host s.context.caller in
        let wad = s.context.value in
        (s.context.is_static ≡ false)
        × (slot_value s wrapped_storage_slot ≢ 0)
        × (slot_value s frozen_slot ≡ 0)
        × (s.context.caller ≢ 0)
        × (slot_value s supply_slot + wad < 2 ^ 256)
        × (slot_value s from + wad < 2 ^ 256)
        × ((k : ℕ)
            → slot_value (deposit host input s).1 k
              ≡ set_two from
                  (slot_value s from + wad)
                  supply_slot
                  (slot_value s supply_slot + wad)
                  (slot_value s)
                  k)
  deposit-slot_value s h =
      let (static, wrapped, frozen, from, deposited, final) = deposit_steps s h in
      let s1 = (when_wrapped_enabled s).1 in
      let (wraps, _, kept) = wrapped_lem s wrapped in
      let (unfrozen, _, kept') = frozen_lem s1 frozen in
      let (supply, balance, _, after) =
        deposit_lem (balance_slot host s.context.caller) s.context.value (when_non_frozen s1).1
          deposited in
      (
        static,
        wraps,
        grind (arith, kept frozen_slot, unfrozen),
        from,
        grind (arith, kept supply_slot, kept' supply_slot, supply),
        grind (
          arith,
          kept (balance_slot host s.context.caller),
          kept' (balance_slot host s.context.caller),
          balance,
        ),
        λ k. grind (arith, kept, kept', after, emit_laws),
      )

  withdraw_steps :
      (c : WithdrawCommand) (s : System)
      → decode_withdraw input ≡ some c
      → (withdraw host input s).0 ≡ ok 0
      → let s1 = (when_wrapped_enabled s).1 in
        let s2 = (when_non_frozen s1).1 in
        let m = withdraw_balance (balance_slot host s.context.caller) c.amount s2 in
        let v = Sys.transfer_value_to s.context.caller c.amount m.1 in
        (s.context.value ≡ 0)
        × (s.context.is_static ≡ false)
        × ((when_wrapped_enabled s).0 ≡ ok tt)
        × ((when_non_frozen s1).0 ≡ ok tt)
        × (m.0 ≡ ok tt)
        × (v.0 ≡ ok tt)
        × ((withdraw host input s).1
            ≡ (emit_transfer s.context.caller 0 c.amount
                (emit_withdrawal s.context.caller c.amount v.1).1).1)
  unfolding withdraw when_non_payable when_non_static
  withdraw_steps c s e h =
      let wrapped : (when_wrapped_enabled s).0 ≡ ok tt = grind (arith, exits) in
      let s1 = (when_wrapped_enabled s).1 in
      let frozen : (when_non_frozen s1).0 ≡ ok tt = grind (arith, exits) in
      let (_, context, _) = wrapped_lem s wrapped in
      let (_, context', _) = frozen_lem s1 frozen in
      (
        grind (arith, exits),
        grind (arith, exits),
        wrapped,
        frozen,
        grind (arith, exits, context, context'),
        grind (arith, exits, context, context'),
        grind (arith, exits, emit_laws, context, context'),
      )

  -- A `withdraw` that succeeds is on a wrapping token that is not frozen, not static and not
  -- payable; the caller's balance and the supply cover the amount and fall by it, and no other
  -- slot changes.
  pub withdraw-slot_value :
      (c : WithdrawCommand) (s : System)
      → decode_withdraw input ≡ some c
      → (withdraw host input s).0 ≡ ok 0
      → let from = balance_slot host s.context.caller in
        (s.context.value ≡ 0)
        × (s.context.is_static ≡ false)
        × (slot_value s wrapped_storage_slot ≢ 0)
        × (slot_value s frozen_slot ≡ 0)
        × (c.amount ≤ slot_value s supply_slot)
        × (c.amount ≤ slot_value s from)
        × ((k : ℕ)
            → slot_value (withdraw host input s).1 k
              ≡ set_two from
                  (slot_value s from - c.amount)
                  supply_slot
                  (slot_value s supply_slot - c.amount)
                  (slot_value s)
                  k)
  withdraw-slot_value c s e h =
      let (payable, static, wrapped, frozen, withdrawn, sent, final) = withdraw_steps c s e h in
      let s1 = (when_wrapped_enabled s).1 in
      let from = balance_slot host s.context.caller in
      let (wraps, _, kept) = wrapped_lem s wrapped in
      let (unfrozen, _, kept') = frozen_lem s1 frozen in
      let (supply, balance, _, after) =
        withdraw_lem from c.amount (when_non_frozen s1).1 withdrawn in
      let after' =
        value_lem s.context.caller c.amount
          (withdraw_balance from c.amount (when_non_frozen s1).1).1 sent in
      (
        payable,
        static,
        wraps,
        grind (arith, kept frozen_slot, unfrozen),
        grind (arith, kept supply_slot, kept' supply_slot, supply),
        grind (arith, kept from, kept' from, balance),
        λ k. grind (arith, kept, kept', after, after', emit_laws),
      )
