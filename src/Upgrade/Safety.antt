-- ===== src/Upgrade/Safety.antt =====
-- contracts/runtime-upgrade/src/lib.rs: a delegate installs what the present owner planned, and each
-- pair once.
use fluentbase.Prelude.{
  ℕ, ◌^◌, ◌<◌, ◌≡◌, ◌≢◌, refl, sym, ap, ◌∙◌, some, true, false, List, [], length, arith,
}
use fluentbase.Sdk.Host.{Host}
use fluentbase.Sdk.State.{Context}
use fluentbase.Sdk.Result.{ok}
use fluentbase.Sdk.Shared.{Bytecode}
use fluentbase.Sdk.Shared.Laws.{IsWritable}
use fluentbase.Upgrade.{Frame, Toolchain}
use fluentbase.Upgrade.Handlers.{upgrade_to_planned}
use fluentbase.Upgrade.Plan.View.{IsLaidOut, IsState}
use fluentbase.Upgrade.Plan.Find.{listed, without}
use fluentbase.Upgrade.Effects.Planned.{upgrade_to_planned-without}
use fluentbase.Upgrade.Effects.{owner_of}
use fluentbase.Upgrade.Handlers.{or_default}
use fluentbase.Upgrade.Approval.{approval, Calls-IsApproved}
use fluentbase.Upgrade.Machine.{Spec, install, IsSound}
use fluentbase.Upgrade.Machine.Sound.{without-IsFresh, fresh-not_listed}
use fluentbase.Upgrade.Machine.Reachable.{IsValid, Reach-IsValid}
use fluentbase.Upgrade.Refinement.{IsRepr, Calls, Calls-Reach, length-without}

-- The machine at its start: no owner of its own, no updater, no plan.
abbrev pub fresh : (ℕ → Bytecode) → Spec
fresh codes = record { owner = 0; updater = 0; pairs = []; codes = codes }

module _ (host : Host) (tools : Toolchain) where
  -- From a fresh contract on, and after any run of calls that return, a planned upgrade that returns
  -- installs the code compiled from its bytecode, and the calls themselves approve it: the last call to
  -- plan, since which the owner has not changed, was by the account that is the owner now, named the
  -- caller as its updater, and had the pair of target and hash, for whose target no planned upgrade has
  -- run since.
  pub upgrade_to_planned-approved :
      (s t : Frame) (c : Context) (target : ℕ) (wasm : List ℕ)
      → (laid : IsLaidOut host) → IsRepr host s (fresh s.codes)
      → (calls : Calls host tools laid s t) → c.is_static ≡ false
      → (upgrade_to_planned host tools target wasm (record t { context = c })).0 ≡ ok tt
      → let a = approval host tools laid calls in
        (a.by ≡ owner_of t.storage)
        × (a.updater ≡ c.caller)
        × (listed target (host.keccak wasm) a.pairs ≡ true)
        × ((rwasm : List ℕ) × (tools.compile target wasm ≡ some rwasm)
            × ((upgrade_to_planned host tools target wasm (record t { context = c })).1.codes
                ≡ install target (Bytecode.rwasm rwasm) t.codes))
  upgrade_to_planned-approved s t c target wasm laid repr calls w e =
      let (y, repr', valid, approved) =
        Calls-IsApproved host tools laid (fresh s.codes) calls repr refl (tt, λ z. refl) in
      let (rwasm, nonzero, caller, found, compiled, codes, left) =
        upgrade_to_planned-without host tools target wasm (record t { context = c }) y.owner
          y.updater y.pairs laid w repr'.room repr'.state e in
      let (by, for, pair) = approved.at target (host.keccak wasm) found in
      (
        by ∙ ap or_default (sym repr'.state.owner_lem),
        for ∙ sym caller,
        pair,
        (rwasm, compiled, codes),
      )

  -- After a planned upgrade that returns, over a sound plan, no bytecode at all can be installed for
  -- the same target from the plan that is left, by any caller.
  pub upgrade_to_planned-once :
      (s : Frame) (c : Context) (target : ℕ) (wasm other : List ℕ) (owner updater : ℕ)
      (pairs : List (ℕ × ℕ))
      → IsLaidOut host
      → IsWritable s
      → length pairs < 2 ^ 64
      → IsSound pairs
      → IsState host s.storage owner updater pairs
      → c.is_static ≡ false
      → (upgrade_to_planned host tools target wasm s).0 ≡ ok tt
      → (upgrade_to_planned host tools target other
          (record (upgrade_to_planned host tools target wasm s).1 { context = c })).0
        ≢ ok tt
  upgrade_to_planned-once s c target wasm other owner updater pairs laid w room sound state w' e
        again =
      let v = host.keccak wasm in
      let (rwasm, nonzero, caller, found, compiled, codes, left) =
        upgrade_to_planned-without host tools target wasm s owner updater pairs laid w room state
          e in
      let t = record (upgrade_to_planned host tools target wasm s).1 { context = c } in
      let shorter = length-without target v pairs in
      let (rwasm', nonzero', caller', found', compiled', codes', left') =
        upgrade_to_planned-without host tools target other t owner updater (without target v pairs)
          laid w' (omega (arith, shorter, room)) left again in
      fresh-not_listed target (host.keccak other) (without target v pairs)
        (without-IsFresh target v pairs sound found) found'

  -- From a fresh contract on, and after any run of calls that return, the stored plan has no zero and
  -- no target twice, and without an updater there is none.
  pub Calls-IsValid :
      (s t : Frame) (laid : IsLaidOut host)
      → IsRepr host s (fresh s.codes)
      → Calls host tools laid s t
      → (y : Spec) × IsState host t.storage y.owner y.updater y.pairs × IsValid host tools y
  Calls-IsValid s t laid repr calls =
      let (y, run, repr') = Calls-Reach host tools laid (fresh s.codes) calls repr in
      (y, repr'.state, Reach-IsValid host tools run (tt, λ e. refl))
