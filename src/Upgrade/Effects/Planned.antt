-- ===== src/Upgrade/Effects/Planned.antt =====
-- contracts/runtime-upgrade/src/lib.rs: what `upgrade_to_planned` leaves behind.
use fluentbase.Prelude.{ℕ, ◌^◌, ◌<◌, ◌≡◌, ◌≢◌, sym, ap, subst, ◌∙◌, true, some, List, length, arith}
use fluentbase.Sdk.Host.{Host}
use fluentbase.Sdk.Result.{ok}
use fluentbase.Sdk.Shared.{Bytecode, sload, emit, ◌>>=◌}
use fluentbase.Sdk.Shared.Vector.{address_of, read_address}
use fluentbase.Sdk.Shared.Bytes as StorageString
use fluentbase.Sdk.Shared.Bytes.Frame.{IsReadable, load-ok}
use fluentbase.Sdk.Shared.Laws.{IsWritable, emit-ok, bind-ok, bind-inv}
use fluentbase.Upgrade.{Event, Frame, Toolchain}
use fluentbase.Upgrade.Install.{compile_and_install}
use fluentbase.Upgrade.Plan.{remove_planned_upgrade}
use fluentbase.Upgrade.Plan.View.{IsLaidOut, IsState}
use fluentbase.Upgrade.Plan.Find.{listed, without, has_planned_upgrade-listed}
use fluentbase.Upgrade.Plan.Remove.{remove_planned_upgrade-without}
use fluentbase.Upgrade.Handlers.{upgrade_to_planned, install_planned}
use fluentbase.Upgrade.Effects.Install.{installed, compile_and_install-installed}
use fluentbase.Upgrade.Machine.{install}

module _ (host : Host) (tools : Toolchain) where
  planned_guards :
      (target : ℕ) (wasm : List ℕ) (s : Frame) (owner updater : ℕ) (pairs : List (ℕ × ℕ))
      → IsState host s.storage owner updater pairs
      → (upgrade_to_planned host tools target wasm s).0 ≡ ok tt
      → (updater ≢ 0)
        × (s.context.caller ≡ updater)
        × (listed target (host.keccak wasm) pairs ≡ true)
        × (upgrade_to_planned host tools target wasm s ≡ install_planned host tools target wasm s)
  unfolding upgrade_to_planned read_address sload
  planned_guards target wasm s owner updater pairs state h =
      let found = has_planned_upgrade-listed host target (host.keccak wasm) s pairs state.plan in
      let stored = state.updater_lem in
      (
        grind (arith, found, stored, h),
        grind (arith, found, stored, h),
        grind (arith, found, stored, h),
        grind (arith, found, stored, h),
      )

  install_planned-without :
      (target : ℕ) (wasm : List ℕ) (s : Frame) (owner updater : ℕ) (pairs : List (ℕ × ℕ))
      → IsLaidOut host
      → IsWritable s
      → length pairs < 2 ^ 64
      → IsState host s.storage owner updater pairs
      → (install_planned host tools target wasm s).0 ≡ ok tt
      → (rwasm : List ℕ) × (tools.compile target wasm ≡ some rwasm)
        × ((install_planned host tools target wasm s).1.codes
            ≡ install target (Bytecode.rwasm rwasm) s.codes)
        × IsState host
            (install_planned host tools target wasm s).1.storage
            owner
            updater
            (without target (host.keccak wasm) pairs)
  unfolding install_planned sload
  install_planned-without target wasm s owner updater pairs laid w bound state h =
      let v = host.keccak wasm in
      let (version, read) = load-ok host 2 s state.readable in
      let event = λ (t : List ℕ) (c : ℕ).
        Event.runtime_upgraded target (s.storage 1) (tools.utf8_lossy t) c in
      let k2 = λ (t : List ℕ) (c : ℕ) (u : Unit {0}). emit (event t c) in
      let k1 = λ (t : List ℕ) (c : ℕ). remove_planned_upgrade host target v >>= k2 t c in
      let k0 = λ (t : List ℕ). compile_and_install host tools target wasm >>= k1 t in
      let start = bind-ok (StorageString.load host 2) k0 s s version read in
      let (c, first, rest) =
        bind-inv (compile_and_install host tools target wasm) (k1 version) s tt
          (ap (λ r. r.0) (sym start) ∙ h) in
      let (rwasm, compiled, run) = compile_and_install-installed host tools target c wasm s first in
      let s1 = installed host tools target (Bytecode.rwasm rwasm) s in
      let (storage, removed, plan, kept) =
        remove_planned_upgrade-without host laid target v s1 pairs w bound state.plan in
      let s2 = record s1 { storage = storage } in
      let whole =
        start
        ∙ rest
        ∙ ap (λ r. k1 version c r.1) run
        ∙ bind-ok (remove_planned_upgrade host target v) (k2 version c) s1 s2 tt removed
        ∙ emit-ok (event version c) s2 w in
      (
        rwasm,
        compiled,
        ap (λ r. r.1.codes) whole,
        subst (λ r. IsState host r.1.storage owner updater (without target v pairs)) (sym whole)
            record {
              owner_lem = ap address_of (kept 0 (omega arith)) ∙ state.owner_lem;
              updater_lem = ap address_of (kept 3 (omega arith)) ∙ state.updater_lem;
              readable = subst IsReadable (sym (kept 2 (omega arith))) state.readable;
              plan = plan;
            },
      )

  -- A planned upgrade that returns was called by the updater for a pair of the plan. It installs the
  -- compiled code, takes the pair out of the plan, and keeps owner and updater.
  pub upgrade_to_planned-without :
      (target : ℕ) (wasm : List ℕ) (s : Frame) (owner updater : ℕ) (pairs : List (ℕ × ℕ))
      → IsLaidOut host
      → IsWritable s
      → length pairs < 2 ^ 64
      → IsState host s.storage owner updater pairs
      → (upgrade_to_planned host tools target wasm s).0 ≡ ok tt
      → (rwasm : List ℕ) × (updater ≢ 0)
        × (s.context.caller ≡ updater)
        × (listed target (host.keccak wasm) pairs ≡ true)
        × (tools.compile target wasm ≡ some rwasm)
        × ((upgrade_to_planned host tools target wasm s).1.codes
            ≡ install target (Bytecode.rwasm rwasm) s.codes)
        × IsState host
            (upgrade_to_planned host tools target wasm s).1.storage
            owner
            updater
            (without target (host.keccak wasm) pairs)
  upgrade_to_planned-without target wasm s owner updater pairs laid w bound state h =
      let (a, b, c, run) = planned_guards target wasm s owner updater pairs state h in
      let (rwasm, compiled, codes, left) =
        install_planned-without target wasm s owner updater pairs laid w bound state
          (ap (λ r. r.0) (sym run) ∙ h) in
      (
        rwasm,
        a,
        b,
        c,
        compiled,
        ap (λ r. r.1.codes) run ∙ codes,
        subst
            (λ r. IsState host r.1.storage owner updater (without target (host.keccak wasm) pairs))
            (sym run) left,
      )
