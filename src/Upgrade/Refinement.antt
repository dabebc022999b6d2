-- ===== src/Upgrade/Refinement.antt =====
-- contracts/runtime-upgrade/src/lib.rs implements the machine: each call that returns is one of its
-- steps.
use fluentbase.Prelude.{
  ℕ, ◌^◌, ◌<◌, ◌≤◌, ◌≡◌, refl, true, sym, ap, subst, ◌∙◌, false, Bool-cases, ◌==◌, ◌&&◌, List, [],
  ◌∷◌, length, All, inl, inr, arith,
}
use fluentbase.Sdk.Host.{Host}
use fluentbase.Sdk.State.{Context}
use fluentbase.Sdk.Result.{ok}
use fluentbase.Sdk.Shared.{Bytecode}
use fluentbase.Sdk.Shared.Laws.{IsWritable}
use fluentbase.Upgrade.{Frame, Toolchain, system_address}
use fluentbase.Upgrade.Handlers.{or_default}
use fluentbase.Upgrade.Handlers as App
use fluentbase.Upgrade.Router.{Request, handle}
use fluentbase.Upgrade.Plan.View.{IsLaidOut, IsState}
use fluentbase.Upgrade.Plan.Find.{listed, without, last_first, length-front_of}
use fluentbase.Upgrade.Plan.Push.{zip}
use fluentbase.Upgrade.Effects.{
  owner_of, write_plan-IsLeft, plan_guards, hand_over-IsLeft, hand_over_guards, renounce_guards,
}
use fluentbase.Upgrade.Effects.Install.{
  IsUpgraded, upgrade_to-IsUpgraded, upgrade_evm_to-IsUpgraded, recompile-IsUpgraded,
}
use fluentbase.Upgrade.Effects.Planned.{upgrade_to_planned-without}
use fluentbase.Upgrade.Machine.{install, Spec, authority, Step, plan, consume, upgrade, transfer}
use fluentbase.Upgrade.Machine.Sound.{is_malformed-IsSound}
use fluentbase.Upgrade.Machine.Reachable.{Reach, here, next}

-- What the decoded arguments of a call can be.
abbrev pub IsTyped : Request → Type 0
IsTyped (Request.upgrade_to t h v code) = Unit {0}
IsTyped (Request.upgrade_evm_to t h v code) = Unit {0}
IsTyped (Request.recompile t) = Unit {0}
IsTyped (Request.plan_upgrade h version targets hashes updater) =
    (updater < 2 ^ 160)
    × (length version < 2 ^ 31)
    × (length targets < 2 ^ 64)
    × All (λ t. t < 2 ^ 160) targets
IsTyped (Request.upgrade_to_planned t code) = Unit {0}
IsTyped (Request.change_owner owner) = owner < 2 ^ 160
IsTyped Request.renounce_ownership = Unit {0}

length-zip : (ts vs : List ℕ) → length (zip ts vs) ≤ length ts
length-zip [] vs = omega arith
length-zip (t ∷ ts) [] = omega arith
length-zip (t ∷ ts) (v ∷ vs) = omega (arith, length-zip ts vs)

zip-length : (ts vs : List ℕ) → length ts ≡ length vs → length (zip ts vs) ≡ length vs
zip-length [] vs e = e
zip-length (t ∷ ts) [] e = absurd (omega arith)
zip-length (t ∷ ts) (v ∷ vs) e = omega (arith, zip-length ts vs (omega arith))

length-last_first : (xs : List (ℕ × ℕ)) → length (last_first xs) ≤ length xs
length-last_first [] = omega arith
length-last_first (x ∷ xs) = omega (arith, length-front_of x xs)

pub length-without : (t v : ℕ) (xs : List (ℕ × ℕ)) → length (without t v xs) ≤ length xs
length-without t v [] = omega arith
length-without t v ((a, b) ∷ xs) = elim (Bool-cases (a == t && b == v)) [
  | inl e ↦ rw e (let l = length-last_first xs in omega (arith, l))
  | inr e ↦ rw e (let ih = length-without t v xs in omega (arith, ih))
]

-- The frame stands for the state of the machine.
pub record IsRepr (host : Host) (s : Frame) (x : Spec) : Type 0 where
  pub state : IsState host s.storage x.owner x.updater x.pairs
  pub codes : s.codes ≡ x.codes
  pub room : length x.pairs < 2 ^ 64

module _ (host : Host) (tools : Toolchain) (laid : IsLaidOut host) where
  -- A step of the machine that a frame's call stands for.
  abbrev pub IsStep : Frame → Frame → Spec → Type 0
  IsStep s t x = (y : Spec) × Step host tools s.context.caller x y × IsRepr host t y

  abbrev IsKept : Spec → Spec → Type 0
  IsKept x y = (y.owner ≡ x.owner) × (y.updater ≡ x.updater) × (y.pairs ≡ x.pairs)

  upgraded-IsKept :
      (s t : Frame) (x : Spec)
      → IsRepr host s x
      → s.context.caller ≡ owner_of s.storage
      → IsUpgraded s t
      → (y : Spec) × Step host tools s.context.caller x y × IsRepr host t y × IsKept x y
  upgraded-IsKept s t x repr caller (target, code, storage, codes) = (
    record x { codes = install target code x.codes },
    upgrade x target code (caller ∙ ap or_default repr.state.owner_lem),
    record {
      state = subst (λ σ. IsState host σ x.owner x.updater x.pairs) (sym storage) repr.state;
      codes = codes ∙ ap (install target code) repr.codes;
      room = repr.room;
    },
    (refl, refl, refl),
  )

  -- What a request does to the owner, the updater and the planned pairs.
  abbrev pub IsEffect : Request → ℕ → Spec → Spec → Type 0
  IsEffect (Request.upgrade_to t h v code) caller x y = IsKept x y
  IsEffect (Request.upgrade_evm_to t h v code) caller x y = IsKept x y
  IsEffect (Request.recompile t) caller x y = IsKept x y
  IsEffect (Request.plan_upgrade h version ts vs updater) caller x y =
      (caller ≡ authority x) × (y.owner ≡ x.owner) × (y.updater ≡ updater) × (y.pairs ≡ zip ts vs)
  IsEffect (Request.upgrade_to_planned t code) caller x y =
      (y.owner ≡ x.owner)
      × (y.updater ≡ x.updater)
      × (y.pairs ≡ without t (host.keccak code) x.pairs)
      × (listed t (host.keccak code) x.pairs ≡ true)
  IsEffect (Request.change_owner owner) caller x y = y.pairs ≡ []
  IsEffect Request.renounce_ownership caller x y = y.pairs ≡ []

  -- The step of a call that returns, with the effect of its request.
  pub handle-Effect :
      (r : Request) (s : Frame) (x : Spec)
      → IsTyped r
      → IsWritable s
      → IsRepr host s x
      → (handle host tools r s).0 ≡ ok tt
      → (y : Spec) × Step host tools s.context.caller x y
        × IsRepr host (handle host tools r s).1 y
        × IsEffect r s.context.caller x y
  unfolding handle
  handle-Effect (Request.upgrade_to t h v code) s x typed w repr e =
      let (caller, done) = upgrade_to-IsUpgraded host tools t h v code s e in
      upgraded-IsKept s (App.upgrade_to host tools t h v code s).1 x repr caller done
  handle-Effect (Request.upgrade_evm_to t h v code) s x typed w repr e =
      let (caller, done) = upgrade_evm_to-IsUpgraded host tools t h v code s e in
      upgraded-IsKept s (App.upgrade_evm_to host tools t h v code s).1 x repr caller done
  handle-Effect (Request.recompile t) s x typed w repr e =
      let (caller, done) = recompile-IsUpgraded host tools t s e in
      upgraded-IsKept s (App.recompile host tools t s).1 x repr caller done
  handle-Effect (Request.plan_upgrade h v ts vs updater) s x (a, b, c, d) w repr e =
      let (caller, some_pair, lengths, nonzero, accepted, run) =
        plan_guards host h updater v ts vs s e in
      let (t, run', (codes, state)) =
        write_plan-IsLeft host h updater v ts vs s x.owner x.updater x.pairs laid w a b d c
          repr.state in
      (
        record x { updater = updater; pairs = zip ts vs },
        plan x updater (zip ts vs) (caller ∙ ap or_default repr.state.owner_lem) nonzero
            (omega (arith, some_pair, zip-length ts vs lengths))
            (is_malformed-IsSound ts vs accepted),
        subst (λ q. IsRepr host q.1 (record x { updater = updater; pairs = zip ts vs }))
            (sym (run ∙ run'))
            record {
              state = state;
              codes = codes ∙ repr.codes;
              room = let l = length-zip ts vs in omega (arith, l, c);
            },
        (caller ∙ ap or_default repr.state.owner_lem, refl, refl, refl),
      )
  handle-Effect (Request.upgrade_to_planned target wasm) s x typed w repr e =
      let v = host.keccak wasm in
      let (rwasm, nonzero, caller, found, compiled, codes, state) =
        upgrade_to_planned-without host tools target wasm s x.owner x.updater x.pairs laid w
          repr.room repr.state e in
      (
        record x {
          pairs = without target v x.pairs;
          codes = install target (Bytecode.rwasm rwasm) x.codes;
        },
        consume x target wasm rwasm nonzero caller found compiled,
        record {
          state = state;
          codes = codes ∙ ap (install target (Bytecode.rwasm rwasm)) repr.codes;
          room =
              let l = length-without target v x.pairs in let m = repr.room in omega (arith, l, m);
        },
        (refl, refl, refl, found),
      )
  handle-Effect (Request.change_owner owner) s x typed w repr e =
      let (caller, nonzero, run) = hand_over_guards host owner s e in
      let (t, run', (codes, state)) =
        hand_over-IsLeft host owner s x.owner x.updater x.pairs laid w typed repr.state in
      (
        record x { owner = owner; updater = 0; pairs = [] },
        transfer x owner (caller ∙ ap or_default repr.state.owner_lem) nonzero,
        subst (λ q. IsRepr host q.1 (record x { owner = owner; updater = 0; pairs = [] }))
            (sym (run ∙ run'))
            record { state = state; codes = codes ∙ repr.codes; room = omega arith },
        refl,
      )
  handle-Effect Request.renounce_ownership s x typed w repr e =
      let (caller, run) = renounce_guards host s e in
      let (t, run', (codes, state)) =
        hand_over-IsLeft host system_address s x.owner x.updater x.pairs laid w (omega arith)
          repr.state in
      (
        record x { owner = system_address; updater = 0; pairs = [] },
        transfer x system_address (caller ∙ ap or_default repr.state.owner_lem)
            (λ z. omega (arith, z)),
        subst (λ q. IsRepr host q.1 (record x { owner = system_address; updater = 0; pairs = [] }))
            (sym (run ∙ run'))
            record { state = state; codes = codes ∙ repr.codes; room = omega arith },
        refl,
      )

  -- Over a frame that may write and stands for a state of the machine, a call with typed arguments that
  -- returns is a step of the machine by its caller, and the frame it leaves stands for the next state.
  pub handle-Step :
      (r : Request) (s : Frame) (x : Spec)
      → IsTyped r
      → IsWritable s
      → IsRepr host s x
      → (handle host tools r s).0 ≡ ok tt
      → IsStep s (handle host tools r s).1 x
  handle-Step r s x typed w repr e =
      let (y, step, repr', effect) = handle-Effect r s x typed w repr e in (y, step, repr')

  -- A run of calls that return, each in a context of its own; calls that fail leave nothing.
  pub data Calls (s : Frame) : Frame → Type 0 where
    idle : Calls s s
    call :
        {t : Frame} (r : Request) (c : Context)
        → Calls s t
        → c.is_static ≡ false
        → IsTyped r
        → (handle host tools r (record t { context = c })).0 ≡ ok tt
        → Calls s (handle host tools r (record t { context = c })).1

  -- A frame that stands for a state of the machine still does after any run of calls, and the machine
  -- takes a step for each of them.
  pub Calls-Reach :
      {s t : Frame} (x : Spec)
      → Calls s t
      → IsRepr host s x
      → (y : Spec) × Reach host tools x y × IsRepr host t y
  Calls-Reach x idle repr = (x, here, repr)
  Calls-Reach x (call {t} r c calls w typed e) repr =
      let (y, run, repr') = Calls-Reach x calls repr in
      let (z, step, repr'') =
        handle-Step r (record t { context = c }) y typed w
          (record { state = repr'.state; codes = repr'.codes; room = repr'.room }) e in
      (z, next c.caller run step, repr'')
