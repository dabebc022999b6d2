-- ===== src/Revm/Preload.antt =====
-- crates/revm/src/executor.rs: the storage slots that the host loads for a frame of a system contract
-- before it runs, and the gas that it charges for them.
pub mod Cost
pub mod Sound
use fluentbase.Prelude.{
  ℕ, ◌+◌, ◌-◌, ◌*◌, Bool, true, false, Option, none, some, List, [], ◌∷◌, ◌++◌, ◌&&◌, ltb, leb,
  ◌==◌, if◌then◌else◌,
}
use fluentbase.Types.ExitCode.{ExitCode}
use fluentbase.Types.Genesis.{contains, precompile_universal_token_runtime, precompile_eip2935}
use fluentbase.Types.Journal.{Map, empty, insert}
use fluentbase.Sdk.Host.{Host}
use fluentbase.Token.Keys.{erc20_compute_storage_keys}
use fluentbase.Eip2935.{eip2935_compute_storage_keys}
use fluentbase.Revm.Engine.{Engine}
use fluentbase.Revm.Interruption.{
  Exit, halt, Step, next, leave, Frame, Call, ◌>>=◌, ◌>>◌, pure, load_or_halt, gets,
  charge_regular_gas,
}

-- The slots by the runtime that serves the frame.
unfoldable pub storage_list : Host → ℕ → List ℕ → ℕ → Bool → ℕ → List ℕ
storage_list host runtime input caller is_create block_number =
    if runtime == precompile_universal_token_runtime
    then elim (erc20_compute_storage_keys host input caller is_create) [
      | some keys ↦ keys
      | none ↦ []
    ]
    else if runtime == precompile_eip2935
    then elim (eip2935_compute_storage_keys input caller block_number) [
      | some keys ↦ keys
      | none ↦ []
    ]
    else []

-- `storage_list.retain(|key| unique_storage_keys.insert(*key))`, with the keys seen so far.
unfoldable pub retain_unique : List ℕ → List ℕ → List ℕ
retain_unique seen [] = []
retain_unique seen (k ∷ keys) =
    let kept = k ∷ retain_unique (k ∷ seen) keys in
    let skipped = retain_unique seen keys in if contains seen k then skipped else kept

-- The storage and the costs so far.
pub record Loaded : Type 0 where
  pub storage : Map
  pub costs : List (ℕ × ℕ)

module _ {G W C S : Type 0} (rt : Engine G W C S) where
  abbrev slot_cost : Bool → ℕ
  slot_cost is_cold = if is_cold then rt.cold_storage_cost else rt.warm_storage_read_cost

  -- One round of the loop: the load and the charge of a slot.
  unfoldable pub preload_slot : ℕ → ℕ → Loaded → Call G W C Loaded
  preload_slot address k acc = do
    skip_cold ← gets λ f. ltb (rt.remaining f.gas) rt.cold_storage_cost
    (value, is_cold) ← load_or_halt (rt.sload address k skip_cold)
    charge_regular_gas rt (slot_cost is_cold)
    pure (record {
      storage = insert k value acc.storage;
      costs = acc.costs ++ ((k, slot_cost is_cold) ∷ []);
    })

  unfoldable pub preload_slots : ℕ → List ℕ → Loaded → Call G W C Loaded
  preload_slots address [] acc = pure acc
  preload_slots address (k ∷ keys) acc = do
    acc' ← preload_slot address k acc
    preload_slots address keys acc'

  -- Without the gas for a slot the frame ends with all its gas spent
  -- (`out_of_fuel_with_current_gas`).
  unfoldable pub spent_end : Step C Loaded → Frame G W → Step C Loaded × Frame G W
  spent_end (next acc) f = (next acc, f)
  spent_end (leave (Exit.halt code)) f =
      (leave (Exit.halt code), record f { gas = rt.spend_all f.gas })
  spent_end (leave e) f = (leave e, f)

  unfoldable pub preload : ℕ → List ℕ → Call G W C Loaded
  unfolding spent_end
  preload address keys f =
      let (r, f') =
        preload_slots address (retain_unique [] keys) (record { storage = empty; costs = [] }) f in
      spent_end r f'
