-- ===== src/Upgrade/Approval.antt =====
-- contracts/runtime-upgrade/src/lib.rs over many calls: what the calls themselves say is approved, and
-- that the stored plan has no pair beside it.
use fluentbase.Prelude.{
  ℕ, ◌≡◌, ◌≢◌, sym, ap, ◌∙◌, true, false, ◌==◌, if◌then◌else◌, List, [], ◌∷◌, arith,
}
use fluentbase.Sdk.Host.{Host}
use fluentbase.Upgrade.{Frame, Toolchain}
use fluentbase.Upgrade.Handlers.{or_default}
use fluentbase.Upgrade.Router.{Request}
use fluentbase.Upgrade.Plan.View.{IsLaidOut}
use fluentbase.Upgrade.Plan.Find.{listed, without}
use fluentbase.Upgrade.Plan.Push.{zip}
use fluentbase.Upgrade.Machine.{Spec, authority, IsSound}
use fluentbase.Upgrade.Machine.Sound.{without-IsFresh, fresh-not_listed}
use fluentbase.Upgrade.Machine.Reachable.{listed-without, IsValid, Step-IsValid}
use fluentbase.Upgrade.Refinement.{IsRepr, IsEffect, handle-Effect, Calls, idle, call}

-- Who planned last, for whom, and the pairs that are left of it.
pub record Approval : Type 0 where
  pub by : ℕ
  pub updater : ℕ
  pub pairs : List (ℕ × ℕ)

abbrev pub no_approval : Approval
no_approval = record { by = 0; updater = 0; pairs = [] }

-- The pairs for other targets.
abbrev pub drop_target : ℕ → List (ℕ × ℕ) → List (ℕ × ℕ)
drop_target t [] = []
drop_target t ((a, b) ∷ pairs) =
    let rest = drop_target t pairs in if a == t then rest else (a, b) ∷ rest

-- A call to plan replaces what was approved, a planned upgrade uses up all that is left for its
-- target, a change of the owner ends the approval.
abbrev pub approval_after : Request → ℕ → Approval → Approval
approval_after (Request.upgrade_to t h v code) caller a = a
approval_after (Request.upgrade_evm_to t h v code) caller a = a
approval_after (Request.recompile t) caller a = a
approval_after (Request.plan_upgrade h version ts vs updater) caller a = record {
  by = caller;
  updater = updater;
  pairs = zip ts vs;
}
approval_after (Request.upgrade_to_planned t code) caller a = record a {
  pairs = drop_target t a.pairs;
}
approval_after (Request.change_owner owner) caller a = no_approval
approval_after Request.renounce_ownership caller a = no_approval

-- The listed pairs of the machine are approved, by its present authority and for its updater.
pub record IsApproved (x : Spec) (a : Approval) : Type 0 where
  pub at :
      (t v : ℕ)
      → listed t v x.pairs ≡ true
      → (a.by ≡ authority x) × (a.updater ≡ x.updater) × (listed t v a.pairs ≡ true)

listed-drop_target :
    (t a b : ℕ) (pairs : List (ℕ × ℕ))
    → a ≢ t
    → listed a b pairs ≡ true
    → listed a b (drop_target t pairs) ≡ true
listed-drop_target t a b [] other h = h
listed-drop_target t a b ((c, d) ∷ pairs) other h =
    ground (arith, other, h, listed-drop_target t a b pairs other)

kept_lem :
    (x y : Spec) (a : Approval)
    → y.owner ≡ x.owner
    → y.updater ≡ x.updater
    → y.pairs ≡ x.pairs
    → IsApproved x a
    → IsApproved y a
kept_lem x y a owner updater pairs h = record {
  at = λ t v l.
      let (by, for, found) = h.at t v (ap (listed t v) (sym pairs) ∙ l) in
      (by ∙ ap or_default (sym owner), for ∙ sym updater, found);
}

emptied_lem : (y : Spec) (a : Approval) → y.pairs ≡ [] → IsApproved y a
emptied_lem y a e = record {
  at = λ t v l.
      let none_listed : false ≡ true = ap (listed t v) (sym e) ∙ l in absurd (ground arith);
}

module _ (host : Host) (tools : Toolchain) (laid : IsLaidOut host) where
  effect_lem :
      (r : Request) (caller : ℕ) (x y : Spec) (a : Approval)
      → IsSound x.pairs
      → IsEffect host tools laid r caller x y
      → IsApproved x a
      → IsApproved y (approval_after r caller a)
  effect_lem (Request.upgrade_to t h v code) caller x y a sound (o, u, p) h' =
      kept_lem x y a o u p h'
  effect_lem (Request.upgrade_evm_to t h v code) caller x y a sound (o, u, p) h' =
      kept_lem x y a o u p h'
  effect_lem (Request.recompile t) caller x y a sound (o, u, p) h = kept_lem x y a o u p h
  effect_lem (Request.plan_upgrade g version ts vs updater) caller x y a sound (c, o, u, p) h =
      record { at = λ t v l. (c ∙ ap or_default (sym o), sym u, ap (listed t v) (sym p) ∙ l) }
  effect_lem (Request.upgrade_to_planned target code) caller x y a sound (o, u, p, l') h = record {
    at = λ t v l.
        let left : listed t v (without target (host.keccak code) x.pairs) ≡ true =
          ap (listed t v) (sym p) ∙ l in
        let gone = without-IsFresh target (host.keccak code) x.pairs sound l' in
        let (by, for, found) =
          h.at t v (listed-without t v target (host.keccak code) x.pairs left) in
        (
          by ∙ ap or_default (sym o),
          for ∙ sym u,
          listed-drop_target target t v a.pairs
              (λ same. fresh-not_listed target v (without target (host.keccak code) x.pairs) gone (
                ap (λ b. listed b v (without target (host.keccak code) x.pairs)) (sym same) ∙ left))
              found,
        );
  }
  effect_lem (Request.change_owner owner) caller x y a sound e h = emptied_lem y no_approval e
  effect_lem Request.renounce_ownership caller x y a sound e h = emptied_lem y no_approval e

  -- What is approved after a run of calls: read off the calls, with their callers and arguments.
  unfoldable pub approval : {s t : Frame} → Calls host tools laid s t → Approval
  approval idle = no_approval
  approval (call r c calls w typed e) = approval_after r c.caller (approval calls)

  -- After a run of calls, the frame stands for a state whose plan is valid and approved.
  pub Calls-IsApproved :
      {s t : Frame} (x : Spec) (calls : Calls host tools laid s t)
      → IsRepr host s x
      → x.pairs ≡ []
      → IsValid host tools x
      → (y : Spec) × IsRepr host t y × IsValid host tools y × IsApproved y (approval calls)
  unfolding approval
  Calls-IsApproved x idle repr e valid = (x, repr, valid, emptied_lem x no_approval e)
  Calls-IsApproved x (call {t} r c calls w typed done) repr e valid =
      let (y, repr', valid', approved) = Calls-IsApproved x calls repr e valid in
      let (z, step, repr'', effect) =
        handle-Effect host tools laid r (record t { context = c }) y typed w
          (record { state = repr'.state; codes = repr'.codes; room = repr'.room }) done in
      (
        z,
        repr'',
        Step-IsValid host tools c.caller step valid',
        effect_lem r c.caller y z (approval calls) valid'.0 effect approved,
      )
