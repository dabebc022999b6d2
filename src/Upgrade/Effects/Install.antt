-- ===== src/Upgrade/Effects/Install.antt =====
-- contracts/runtime-upgrade/src/lib.rs: what the handlers that put code into an account leave behind.
use fluentbase.Prelude.{
  ℕ, ◌≡◌, ◌≢◌, sym, ap, subst, ◌∙◌, Option, Option-cases, none, some, List, arith, inl, inr,
}
use fluentbase.Sdk.Host.{Host}
use fluentbase.Sdk.Result.{ok}
use fluentbase.Sdk.Shared.{Bytecode, emit, ◌>>=◌}
use fluentbase.Sdk.Shared.Laws.{bind-inv}
use fluentbase.Upgrade.{Action, Event, Frame, Toolchain, precompile_evm_runtime}
use fluentbase.Upgrade.Install.{
  set_code, only_runtime_upgrade, compiled, upgrade_wasm_runtime, compile_and_install, install_evm,
  upgrade_evm_runtime,
}
use fluentbase.Upgrade.Handlers.{
  only_owner, upgrade_to, upgrade_evm_to, recompile, reinstall, code_copy,
}
use fluentbase.Upgrade.Effects.{owner_of, only_owner_lem}
use fluentbase.Upgrade.Machine.{install}

module _ (host : Host) (tools : Toolchain) where
  -- An account's code replaced, and nothing else.
  abbrev pub installed : ℕ → Bytecode → Frame → Frame
  installed target code s = record s { codes = install target code s.codes }

  pub compile_and_install-installed :
      (target c : ℕ) (wasm : List ℕ) (s : Frame)
      → (compile_and_install host tools target wasm s).0 ≡ ok c
      → (rwasm : List ℕ) × (tools.compile target wasm ≡ some rwasm)
        × (compile_and_install host tools target wasm s
            ≡ (ok c, installed target (Bytecode.rwasm rwasm) s))
  unfolding compile_and_install compiled upgrade_wasm_runtime only_runtime_upgrade set_code
  compile_and_install-installed target c wasm s h =
      elim (Option-cases (tools.compile target wasm)) [
        | inl e ↦ absurd (grind (arith, e, h))
        | inr (rwasm, e) ↦ (rwasm, e, grind (arith, e, h))
      ]

  pub install_evm-installed :
      (target c : ℕ) (evm : List ℕ) (s : Frame)
      → (install_evm host tools target evm s).0 ≡ ok c
      → install_evm host tools target evm s
        ≡ (ok c, installed target (Bytecode.ownable precompile_evm_runtime (tools.analyzed evm)) s)
  unfolding install_evm upgrade_evm_runtime only_runtime_upgrade set_code
  install_evm-installed target c evm s h = grind (arith, h)

-- An event changes neither storage nor code.
emit-kept :
    (event : Event) (s : Frame)
    → ((emit event s).1.storage ≡ s.storage) × ((emit event s).1.codes ≡ s.codes)
unfolding emit
emit-kept event s = (ground arith, ground arith)

-- What an upgrade leaves: the storage as it was, and one account's code replaced.
abbrev pub IsUpgraded : Frame → Frame → Type 0
IsUpgraded s t =
    (target : ℕ) × (code : Bytecode) × (t.storage ≡ s.storage)
    × (t.codes ≡ install target code s.codes)

by_owner :
    (m : Action (Unit {0})) (s : Frame)
    → ((only_owner >>= λ u. m) s).0 ≡ ok tt
    → (s.context.caller ≡ owner_of s.storage) × ((only_owner >>= λ u. m) s ≡ m s)
by_owner m s h =
    let (a, first, rest) = bind-inv only_owner (λ u. m) s tt h in
    let (caller, start) = only_owner_lem s first in (caller, rest ∙ ap (λ r. m r.1) start)

module _ (host : Host) (tools : Toolchain) where
  -- A call that installs a code and returns its hash, and then an event.
  then_event :
      (m : Action ℕ) (event : ℕ → Event) (target : ℕ) (s : Frame)
      → ((c : ℕ)
          → (m s).0 ≡ ok c
          → (code : Bytecode) × (m s ≡ (ok c, installed host tools target code s)))
      → ((m >>= λ c. emit (event c)) s).0 ≡ ok tt
      → IsUpgraded s ((m >>= λ c. emit (event c)) s).1
  then_event m event target s lem h =
      let (c, first, rest) = bind-inv m (λ c. emit (event c)) s tt h in
      let (code, run) = lem c first in
      let (a, b) = emit-kept (event c) (installed host tools target code s) in
      let end = ap (λ r. r.1) rest ∙ ap (λ r. (emit (event c) r.1).1) run in
      (target, code, ap (λ f. f.storage) end ∙ a, ap (λ f. f.codes) end ∙ b)

  compiled_event :
      (target : ℕ) (wasm : List ℕ) (event : ℕ → Event) (s : Frame)
      → ((compile_and_install host tools target wasm >>= λ c. emit (event c)) s).0 ≡ ok tt
      → IsUpgraded s ((compile_and_install host tools target wasm >>= λ c. emit (event c)) s).1
  compiled_event target wasm event s =
      then_event (compile_and_install host tools target wasm) event target s (λ c e.
        let (rwasm, f, run) = compile_and_install-installed host tools target c wasm s e in
        (Bytecode.rwasm rwasm, run))

  -- An upgrade that returns was called by the owner.
  pub upgrade_to-IsUpgraded :
      (target genesis_hash : ℕ) (version wasm : List ℕ) (s : Frame)
      → (upgrade_to host tools target genesis_hash version wasm s).0 ≡ ok tt
      → (s.context.caller ≡ owner_of s.storage)
        × IsUpgraded s (upgrade_to host tools target genesis_hash version wasm s).1
  unfolding upgrade_to
  upgrade_to-IsUpgraded target genesis_hash version wasm s h =
      let event = λ (c : ℕ). Event.runtime_upgraded target genesis_hash version c in
      let m = compile_and_install host tools target wasm >>= λ c. emit (event c) in
      let (caller, run) = by_owner m s h in
      (
        caller,
        subst (λ r. IsUpgraded s r.1) (sym run)
            (compiled_event target wasm event s (ap (λ r. r.0) (sym run) ∙ h)),
      )

  pub upgrade_evm_to-IsUpgraded :
      (target genesis_hash : ℕ) (version evm : List ℕ) (s : Frame)
      → (upgrade_evm_to host tools target genesis_hash version evm s).0 ≡ ok tt
      → (s.context.caller ≡ owner_of s.storage)
        × IsUpgraded s (upgrade_evm_to host tools target genesis_hash version evm s).1
  unfolding upgrade_evm_to
  upgrade_evm_to-IsUpgraded target genesis_hash version evm s h =
      let event = λ (c : ℕ). Event.runtime_upgraded target genesis_hash version c in
      let m = install_evm host tools target evm >>= λ c. emit (event c) in
      let (caller, run) = by_owner m s h in
      let code = Bytecode.ownable precompile_evm_runtime (tools.analyzed evm) in
      (
        caller,
        subst (λ r. IsUpgraded s r.1) (sym run)
            (then_event (install_evm host tools target evm) event target s
              (λ c e. (code, install_evm-installed host tools target c evm s e))
              (ap (λ r. r.0) (sym run) ∙ h)),
      )

  copied : ℕ → Frame → Option (List ℕ)
  copied target s =
      tools.code_copy target (s.codes target) (tools.code_size target (s.codes target))

  reinstall-copied :
      (target : ℕ) (wasm : List ℕ) (s : Frame)
      → copied target s ≡ some wasm
      → (reinstall host tools target s).0 ≡ ok tt
      → reinstall host tools target s
        ≡ (compile_and_install host tools target wasm >>= λ c.
              emit (Event.contract_recompiled target c))
            s
  unfolding reinstall code_copy copied
  reinstall-copied target wasm s e h = ground (arith, e, h)

  reinstall-none :
      (target : ℕ) (s : Frame) → copied target s ≡ none → (reinstall host tools target s).0 ≢ ok tt
  unfolding reinstall code_copy copied
  reinstall-none target s e h = ground (arith, e, h)

  pub recompile-IsUpgraded :
      (target : ℕ) (s : Frame)
      → (recompile host tools target s).0 ≡ ok tt
      → (s.context.caller ≡ owner_of s.storage) × IsUpgraded s (recompile host tools target s).1
  unfolding recompile
  recompile-IsUpgraded target s h =
      let event = λ (c : ℕ). Event.contract_recompiled target c in
      let (caller, start) = by_owner (reinstall host tools target) s h in
      let h' = ap (λ r. r.0) (sym start) ∙ h in
      elim (Option-cases (copied target s)) [
        | inl e ↦ absurd (reinstall-none target s e h')
        | inr (wasm, e) ↦
            let run = reinstall-copied target wasm s e h' in
            (
              caller,
              subst (λ r. IsUpgraded s r.1) (sym (start ∙ run))
                  (compiled_event target wasm event s (ap (λ r. r.0) (sym run) ∙ h')),
            )
      ]
