-- ===== src/Upgrade/Machine.antt =====
-- contracts/runtime-upgrade/src/lib.rs as a machine: the owner, the delegated updater, the planned
-- pairs and the codes, with the steps that a call can take.
pub mod Sound
pub mod Reachable
use fluentbase.Prelude.{
  ℕ, ◌<◌, ◌≡◌, ◌≢◌, ◌==◌, if◌then◌else◌, Bool, true, Option, some, none, List, [], ◌∷◌, length, All,
}
use fluentbase.Sdk.Host.{Host}
use fluentbase.Sdk.Shared.{Bytecode}
use fluentbase.Upgrade.{Toolchain}
use fluentbase.Upgrade.Handlers.{or_default}
use fluentbase.Upgrade.Plan.Find.{listed, without}

-- `owner` is what the slot holds, 0 for the authority of the genesis.
pub record Spec : Type 0 where
  pub owner : ℕ
  pub updater : ℕ
  pub pairs : List (ℕ × ℕ)
  pub codes : ℕ → Bytecode

abbrev pub authority : Spec → ℕ
authority x = or_default x.owner

abbrev pub install : ℕ → Bytecode → (ℕ → Bytecode) → ℕ → Bytecode
install target code codes a = if a == target then code else codes a

-- No pair of the list is for the target.
abbrev pub IsFresh : ℕ → List (ℕ × ℕ) → Type 0
IsFresh t = All (λ p. p.0 ≢ t)

-- Neither a target nor a hash is zero, and no two pairs are for one target.
abbrev pub IsSound : List (ℕ × ℕ) → Type 0
IsSound [] = Unit {0}
IsSound ((t, v) ∷ pairs) = (t ≢ 0) × (v ≢ 0) × IsFresh t pairs × IsSound pairs

module _ (host : Host) (tools : Toolchain) where
  -- What a call of `caller` can do.
  pub data Step (caller : ℕ) : Spec → Spec → Type 0 where
    plan :
        (x : Spec) (updater : ℕ) (pairs : List (ℕ × ℕ))
        → caller ≡ authority x
        → updater ≢ 0
        → 0 < length pairs
        → IsSound pairs
        → Step caller x (record x { updater = updater; pairs = pairs })
    consume :
        (x : Spec) (target : ℕ) (wasm rwasm : List ℕ)
        → x.updater ≢ 0
        → caller ≡ x.updater
        → listed target (host.keccak wasm) x.pairs ≡ true
        → tools.compile target wasm ≡ some rwasm
        → Step caller x (record x {
          pairs = without target (host.keccak wasm) x.pairs;
          codes = install target (Bytecode.rwasm rwasm) x.codes;
        })
    upgrade :
        (x : Spec) (target : ℕ) (code : Bytecode)
        → caller ≡ authority x
        → Step caller x (record x { codes = install target code x.codes })
    transfer :
        (x : Spec) (owner : ℕ)
        → caller ≡ authority x
        → owner ≢ 0
        → Step caller x (record x { owner = owner; updater = 0; pairs = [] })
