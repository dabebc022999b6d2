-- ===== src/Token/Effects/Pause.antt =====
-- What `pause` and `unpause` of contracts/universal-token/src/lib.rs leave in the storage.
use fluentbase.Prelude.{ℕ, ◌%◌, ◌^◌, ◌≡◌, ◌≢◌, false, List, ◌==◌, if◌then◌else◌, arith}
use fluentbase.Sdk.State.{System}
use fluentbase.Sdk.Result.{ok}
use fluentbase.Sdk.System as Sys
use fluentbase.Token.Consts.{contract_frozen_storage_slot, pauser_storage_slot}
use fluentbase.Token.Guards.{when_non_payable, when_non_static, when_pausable_enabled}
use fluentbase.Token.Pause.{pause, unpause}
use fluentbase.Token.Ledger.{
  slot_value, pausable_lem, pausable_exit, storage_lem, storage_exit, write_lem,
}
use fluentbase.Token.Ledger.Emits.{emit_laws}

abbrev frozen_slot : ℕ
frozen_slot = contract_frozen_storage_slot

abbrev pub pauser_of : System → ℕ
pauser_of s = slot_value s pauser_storage_slot % 2 ^ 160

ruleset exits = (pausable_exit, storage_exit)

module _ (input : List ℕ) where
  pausable :
      (s : System) → (pause input s).0 ≡ ok 0 → (when_pausable_enabled s).0 ≡ ok (pauser_of s)
  unfolding pause when_non_payable when_non_static
  pausable s h = grind (arith, exits, pausable_lem)

  -- A `pause` that succeeds is called by the pauser, which is not the zero address, on a token
  -- that is not frozen; it sets the flag to 1 and changes no other slot.
  pub pause-slot_value :
      (s : System)
      → (pause input s).0 ≡ ok 0
      → (s.context.value ≡ 0)
        × (s.context.is_static ≡ false)
        × (pauser_of s ≢ 0)
        × (s.context.caller ≡ pauser_of s)
        × (slot_value s frozen_slot ≡ 0)
        × ((k : ℕ)
            → slot_value (pause input s).1 k ≡ (if frozen_slot == k then 1 else slot_value s k))
  unfolding pause when_non_payable when_non_static
  pause-slot_value s h =
      let pauser = pausable s h in
      let (_, some_pauser, context, kept) = pausable_lem (pauser_of s) s pauser in
      let s1 = (when_pausable_enabled s).1 in
      let flag : (Sys.storage frozen_slot s1).0 ≡ ok (slot_value s1 frozen_slot) =
        grind (arith, exits, storage_lem) in
      let (_, context', kept') = storage_lem frozen_slot (slot_value s1 frozen_slot) s1 flag in
      (
        grind (arith, exits),
        grind (arith, exits),
        some_pauser,
        grind (arith, exits, context, context'),
        grind (arith, exits, kept frozen_slot, flag),
        λ k. grind (arith, exits, write_lem, emit_laws, kept, kept'),
      )

  pausable' :
      (s : System) → (unpause input s).0 ≡ ok 0 → (when_pausable_enabled s).0 ≡ ok (pauser_of s)
  unfolding unpause when_non_payable when_non_static
  pausable' s h = grind (arith, exits, pausable_lem)

  -- An `unpause` that succeeds is called by the pauser, which is not the zero address, on a token
  -- that is frozen; it sets the flag to 0 and changes no other slot.
  pub unpause-slot_value :
      (s : System)
      → (unpause input s).0 ≡ ok 0
      → (s.context.value ≡ 0)
        × (s.context.is_static ≡ false)
        × (pauser_of s ≢ 0)
        × (s.context.caller ≡ pauser_of s)
        × (slot_value s frozen_slot ≢ 0)
        × ((k : ℕ)
            → slot_value (unpause input s).1 k ≡ (if frozen_slot == k then 0 else slot_value s k))
  unfolding unpause when_non_payable when_non_static
  unpause-slot_value s h =
      let pauser = pausable' s h in
      let (_, some_pauser, context, kept) = pausable_lem (pauser_of s) s pauser in
      let s1 = (when_pausable_enabled s).1 in
      let flag : (Sys.storage frozen_slot s1).0 ≡ ok (slot_value s1 frozen_slot) =
        grind (arith, exits, storage_lem) in
      let (_, context', kept') = storage_lem frozen_slot (slot_value s1 frozen_slot) s1 flag in
      (
        grind (arith, exits),
        grind (arith, exits),
        some_pauser,
        grind (arith, exits, context, context'),
        λ z. grind (arith, exits, kept frozen_slot, flag),
        λ k. grind (arith, exits, write_lem, emit_laws, kept, kept'),
      )
