-- ===== src/Token/Effects/Supply.antt =====
-- What `mint`, `burn`, `deposit` and `withdraw` of contracts/universal-token/src/lib.rs leave in
-- the storage.
use fluentbase.Prelude.{ℕ, ◌+◌, ◌-◌, ◌%◌, ◌^◌, ◌≤◌, ◌<◌, ◌≡◌, ◌≢◌, false, some, List, arith}
use fluentbase.Sdk.Host.{Host}
use fluentbase.Sdk.State.{System}
use fluentbase.Sdk.Result.{ok}
use fluentbase.Sdk.Storage.{storage_address}
use fluentbase.Token.Consts.{
  contract_frozen_storage_slot, minter_storage_slot, total_supply_storage_slot,
}
use fluentbase.Token.Command.{MintCommand, BurnCommand, decode_mint, decode_burn}
use fluentbase.Token.Guards.{
  when_non_payable, when_non_static, when_non_frozen, balance_slot, write_word, emit_transfer,
}
use fluentbase.Token.Supply.{mint_balance, burn_balance, mint, burn}
use fluentbase.Token.Ledger.{
  slot_value, set_two, frozen_lem, frozen_exit, address_lem, address_exit, wrapped_exit,
}
use fluentbase.Token.Ledger.Phases.{
  mint_lem, mint_exit, burn_lem, burn_exit, deposit_exit, withdraw_exit,
}
use fluentbase.Token.Ledger.Emits.{emit_laws}

abbrev supply_slot : ℕ
supply_slot = total_supply_storage_slot

abbrev frozen_slot : ℕ
frozen_slot = contract_frozen_storage_slot

abbrev pub minter_of : System → ℕ
minter_of s = slot_value s minter_storage_slot % 2 ^ 160

ruleset exits =
    (frozen_exit, address_exit, wrapped_exit, mint_exit, burn_exit, deposit_exit, withdraw_exit)

module _ (host : Host) (input : List ℕ) where
  mint_steps :
      (c : MintCommand) (s : System)
      → decode_mint input ≡ some c
      → (mint host input s).0 ≡ ok 0
      → let s2 = (when_non_frozen (storage_address minter_storage_slot s).1).1 in
        let m = mint_balance (balance_slot host c.to) c.amount s2 in
        (s.context.value ≡ 0)
        × (s.context.is_static ≡ false)
        × ((storage_address minter_storage_slot s).0 ≡ ok (minter_of s))
        × ((when_non_frozen (storage_address minter_storage_slot s).1).0 ≡ ok tt)
        × (c.to ≢ 0)
        × (minter_of s ≢ 0)
        × (s.context.caller ≡ minter_of s)
        × (m.0 ≡ ok tt)
        × ((mint host input s).1 ≡ (write_word 1 (emit_transfer 0 c.to c.amount m.1).1).1)
  unfolding mint when_non_payable when_non_static
  mint_steps c s e h = (
    grind (arith, exits),
    grind (arith, exits),
    grind (arith, address_lem, exits),
    grind (arith, address_lem, exits),
    λ z. grind (arith, exits),
    λ z. grind (arith, address_lem, exits),
    grind (arith, address_lem, exits),
    grind (arith, exits),
    grind (arith, exits, emit_laws),
  )

  -- A `mint` that succeeds is called by the minter, which is not the zero address; the token is
  -- not frozen; the supply and the receiver's balance grow by the amount, without overflow, and
  -- no other slot changes.
  pub mint-slot_value :
      (c : MintCommand) (s : System)
      → decode_mint input ≡ some c
      → (mint host input s).0 ≡ ok 0
      → let to = balance_slot host c.to in
        (s.context.value ≡ 0)
        × (s.context.is_static ≡ false)
        × (slot_value s frozen_slot ≡ 0)
        × (c.to ≢ 0)
        × (minter_of s ≢ 0)
        × (s.context.caller ≡ minter_of s)
        × (slot_value s supply_slot + c.amount < 2 ^ 256)
        × (slot_value s to + c.amount < 2 ^ 256)
        × ((k : ℕ)
            → slot_value (mint host input s).1 k
              ≡ set_two supply_slot
                  (slot_value s supply_slot + c.amount)
                  to
                  (slot_value s to + c.amount)
                  (slot_value s)
                  k)
  mint-slot_value c s e h =
      let (payable, static, read, frozen, to, some_minter, minter, minted, final) =
        mint_steps c s e h in
      let s1 = (storage_address minter_storage_slot s).1 in
      let (_, _, kept) = address_lem minter_storage_slot (minter_of s) s read in
      let (unfrozen, _, kept') = frozen_lem s1 frozen in
      let (supply, balance, _, minted') =
        mint_lem (balance_slot host c.to) c.amount (when_non_frozen s1).1 minted in
      (
        payable,
        static,
        grind (arith, kept frozen_slot, unfrozen),
        to,
        some_minter,
        minter,
        grind (arith, kept supply_slot, kept' supply_slot, supply),
        grind (arith, kept (balance_slot host c.to), kept' (balance_slot host c.to), balance),
        λ k. grind (arith, kept, kept', minted', emit_laws),
      )

  burn_steps :
      (c : BurnCommand) (s : System)
      → decode_burn input ≡ some c
      → (burn host input s).0 ≡ ok 0
      → let s1 = (when_non_frozen s).1 in
        let s2 = (storage_address minter_storage_slot s1).1 in
        let m = burn_balance (balance_slot host c.from) c.amount s2 in
        (s.context.value ≡ 0)
        × (s.context.is_static ≡ false)
        × ((when_non_frozen s).0 ≡ ok tt)
        × ((storage_address minter_storage_slot s1).0 ≡ ok (minter_of s1))
        × (c.from ≢ 0)
        × (minter_of s1 ≢ 0)
        × (s.context.caller ≡ minter_of s1)
        × (m.0 ≡ ok tt)
        × ((burn host input s).1 ≡ (write_word 1 (emit_transfer c.from 0 c.amount m.1).1).1)
  unfolding burn when_non_payable when_non_static
  burn_steps c s e h =
      let frozen : (when_non_frozen s).0 ≡ ok tt = grind (arith, exits) in
      let (_, context, _) = frozen_lem s frozen in
      (
        grind (arith, exits),
        grind (arith, exits),
        frozen,
        grind (arith, address_lem, exits),
        λ z. grind (arith, exits),
        λ z. grind (arith, address_lem, exits),
        grind (arith, address_lem, exits, context),
        grind (arith, exits),
        grind (arith, exits, emit_laws),
      )

  -- A `burn` that succeeds is called by the minter, which is not the zero address; the token is
  -- not frozen; the supply and the account's balance both cover the amount and fall by it, and no
  -- other slot changes.
  pub burn-slot_value :
      (c : BurnCommand) (s : System)
      → decode_burn input ≡ some c
      → (burn host input s).0 ≡ ok 0
      → let from = balance_slot host c.from in
        (s.context.value ≡ 0)
        × (s.context.is_static ≡ false)
        × (slot_value s frozen_slot ≡ 0)
        × (c.from ≢ 0)
        × (minter_of s ≢ 0)
        × (s.context.caller ≡ minter_of s)
        × (c.amount ≤ slot_value s supply_slot)
        × (c.amount ≤ slot_value s from)
        × ((k : ℕ)
            → slot_value (burn host input s).1 k
              ≡ set_two supply_slot
                  (slot_value s supply_slot - c.amount)
                  from
                  (slot_value s from - c.amount)
                  (slot_value s)
                  k)
  burn-slot_value c s e h =
      let (payable, static, frozen, read, from, some_minter, minter, burnt, final) =
        burn_steps c s e h in
      let s1 = (when_non_frozen s).1 in
      let (unfrozen, _, kept) = frozen_lem s frozen in
      let (_, _, kept') = address_lem minter_storage_slot (minter_of s1) s1 read in
      let (supply, balance, _, burnt') =
        burn_lem (balance_slot host c.from) c.amount (storage_address minter_storage_slot s1).1
          burnt in
      (
        payable,
        static,
        unfrozen,
        from,
        λ z. grind (arith, kept minter_storage_slot),
        grind (arith, kept minter_storage_slot, minter),
        grind (arith, kept supply_slot, kept' supply_slot, supply),
        grind (arith, kept (balance_slot host c.from), kept' (balance_slot host c.from), balance),
        λ k. grind (arith, kept, kept', burnt', emit_laws),
      )
