-- ===== src/Revm/Preload/Cost.antt =====
-- crates/revm/src/executor.rs: what the slots loaded for a frame cost.
use fluentbase.Prelude.{ℕ, ◌+◌, ◌≡◌, subst, List, [], ◌∷◌, ◌++◌, arith}
use fluentbase.Types.Journal.{empty}
use fluentbase.Revm.Engine.{Engine}
use fluentbase.Revm.Interruption.{
  Exit, Step, next, leave, Frame, pure, load_or_halt, gets, charge_regular_gas,
}
use fluentbase.Revm.Keeps.{Settles, Keeps-gets}
use fluentbase.Revm.Keeps.Grants.{Does, AfterWith, Does-bind, Does-after}
use fluentbase.Revm.Keeps.Rules.{Keeps-load_or_halt, Does-charge_or_end}
use fluentbase.Revm.Metering.{IsMeter}
use fluentbase.Revm.Preload.{
  Loaded, preload_slot, preload_slots, slot_cost, spent_end, preload, retain_unique,
}

unfoldable pub total_cost : List (ℕ × ℕ) → ℕ
total_cost [] = 0
total_cost ((slot, cost) ∷ costs) = cost + total_cost costs

pub total_cost-snoc :
    (costs : List (ℕ × ℕ)) (slot cost : ℕ)
    → total_cost (costs ++ ((slot, cost) ∷ [])) ≡ total_cost costs + cost
unfolding total_cost
total_cost-snoc [] slot cost = omega arith
total_cost-snoc ((s, c) ∷ costs) slot cost = omega (arith, total_cost-snoc costs slot cost)

-- What follows the loads when no claim is made on how the frame ends otherwise.
abbrev pub Anyhow : {C G W : Type 0} → Exit C → Frame G W → Type 0
Anyhow e f = Unit

module _ {G W C S : Type 0} (rt : Engine G W C S) where
  -- A property of what is loaded so far and of the frame, if the loads go through.
  pub preload-Does :
      (P : Loaded → Frame G W → Type 0) (address : ℕ)
      → ((k : ℕ) (acc : Loaded) → Does (P acc) P Anyhow (preload_slot rt address k acc))
      → (keys : List ℕ) (acc : Loaded) → Does (P acc) P Anyhow (preload_slots rt address keys acc)
  unfolding preload_slots pure
  preload-Does P address step [] acc = record { at = λ f h. h }
  preload-Does P address step (k ∷ keys) acc =
      Does-bind (preload_slot rt address k acc) _ (step k acc)
        λ acc'. preload-Does P address step keys acc'

  pub returned :
      (R : Loaded → Frame G W → Type 0) (r : Step C Loaded) (f : Frame G W) (acc : Loaded)
      → AfterWith R Anyhow r f
      → (spent_end rt r f).0 ≡ next acc
      → R acc (spent_end rt r f).1
  unfolding spent_end
  returned R (next a) f acc h e = subst (λ x. R x f) (next_inj e) h
    where
      next_inj : {x y : Loaded} → ◌≡◌ {A = Step C Loaded} (next x) (next y) → x ≡ y
      next_inj p = cc
  returned R (leave (Exit.halt c)) f acc h e = cc
  returned R (leave (Exit.result c o)) f acc h e = cc
  returned R (leave (Exit.new_call i)) f acc h e = cc
  returned R (leave (Exit.new_create i)) f acc h e = cc
  returned R (leave Exit.db) f acc h e = cc
  returned R (leave Exit.abort) f acc h e = cc

  pub preload-returned :
      (P : Loaded → Frame G W → Type 0) (address : ℕ)
      → ((k : ℕ) (acc : Loaded) → Does (P acc) P Anyhow (preload_slot rt address k acc))
      → (keys : List ℕ) (f : Frame G W) (acc : Loaded)
      → P (record { storage = empty; costs = [] }) f
      → (preload rt address keys f).0 ≡ next acc
      → P acc (preload rt address keys f).1
  unfolding preload
  preload-returned P address step keys f acc start e =
      returned P _ _ acc ((preload-Does P address step (retain_unique [] keys) _).at f start) e

module _ {G W C S : Type 0} (rt : Engine G W C S) (m : IsMeter rt) where
  Charged : ℕ → Loaded → Frame G W → Type 0
  Charged total acc f = rt.remaining f.gas + total_cost acc.costs ≡ total

  preload_slot-Charged :
      (total address k : ℕ) (acc : Loaded)
      → Does (Charged total acc) (Charged total) Anyhow (preload_slot rt address k acc)
  unfolding preload_slot Charged pure
  preload_slot-Charged total address k acc =
      let s : Settles (Charged total acc) Anyhow = record { at = λ e h f p. tt } in
      Does-after (gets _) _ (Keeps-gets _) λ skip_cold.
        Does-after (load_or_halt _) _ (Keeps-load_or_halt s _ λ f h. h) λ (value, is_cold).
          Does-bind (charge_regular_gas rt (slot_cost rt is_cold)) _
            (Does-charge_or_end rt Anyhow (λ f. tt) (slot_cost rt is_cold)
              λ f h e. omega (
                arith,
                m.paid (slot_cost rt is_cold) f.gas e,
                total_cost-snoc acc.costs k (slot_cost rt is_cold),
              ))
            λ _. record { at = λ f h. h }

  -- The gas that remains and the costs make up the gas before the loads.
  pub preload-cost :
      (address : ℕ) (keys : List ℕ) (f : Frame G W) (acc : Loaded)
      → (preload rt address keys f).0 ≡ next acc
      → rt.remaining (preload rt address keys f).1.gas + total_cost acc.costs ≡ rt.remaining f.gas
  unfolding Charged total_cost
  preload-cost address keys f acc e =
      preload-returned rt (Charged (rt.remaining f.gas)) address
        (preload_slot-Charged (rt.remaining f.gas) address) keys f acc (omega arith) e
