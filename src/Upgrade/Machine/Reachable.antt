-- ===== src/Upgrade/Machine/Reachable.antt =====
-- contracts/runtime-upgrade/src/lib.rs over many calls: the states of the machine that can be reached.
use fluentbase.Prelude.{
  ℕ, ◌≡◌, refl, true, false, Bool-cases, ◌==◌, ◌&&◌, List, [], ◌∷◌, All, inl, inr, arith,
}
use fluentbase.Sdk.Host.{Host}
use fluentbase.Upgrade.{Toolchain}
use fluentbase.Upgrade.Plan.Find.{listed, without}
use fluentbase.Upgrade.Machine.{Spec, Step, plan, consume, upgrade, transfer, IsSound}
use fluentbase.Upgrade.Machine.Sound.{All-without, without-IsSound}

abbrev IsUnlisted : ℕ → ℕ → List (ℕ × ℕ) → Type 0
IsUnlisted t v = All (λ p. p.0 == t && p.1 == v ≡ false)

unlisted : (t v : ℕ) (xs : List (ℕ × ℕ)) → listed t v xs ≡ false → IsUnlisted t v xs
unlisted t v [] h = tt
unlisted t v ((a, b) ∷ xs) h = (ground (arith, h), unlisted t v xs (ground (arith, h)))

unlisted-listed : (t v : ℕ) (xs : List (ℕ × ℕ)) → IsUnlisted t v xs → listed t v xs ≡ false
unlisted-listed t v [] h = refl
unlisted-listed t v ((a, b) ∷ xs) h =
    let ih = unlisted-listed t v xs h.1 in let e = h.0 in ground (arith, e, ih)

pub listed-without :
    (t v a b : ℕ) (xs : List (ℕ × ℕ)) → listed t v (without a b xs) ≡ true → listed t v xs ≡ true
listed-without t v a b xs h = elim (Bool-cases (listed t v xs)) [
  | inl e ↦ e
  | inr e ↦
      let none_left =
        unlisted-listed t v (without a b xs)
          (All-without (λ p. p.0 == t && p.1 == v ≡ false) a b xs (unlisted t v xs e)) in
      absurd (ground (arith, none_left, h))
]

module _ (host : Host) (tools : Toolchain) where
  -- States that calls of any callers lead to.
  pub data Reach (x : Spec) : Spec → Type 0 where
    here : Reach x x
    next : {y z : Spec} (caller : ℕ) → Reach x y → Step host tools caller y z → Reach x z

  -- A sound plan, and none without an updater.
  abbrev pub IsValid : Spec → Type 0
  IsValid x = IsSound x.pairs × (x.updater ≡ 0 → x.pairs ≡ [])

  pub Step-IsValid : {x y : Spec} (caller : ℕ) → Step host tools caller x y → IsValid x → IsValid y
  Step-IsValid caller (plan x updater pairs a b c d) h = (d, λ e. absurd (b e))
  Step-IsValid caller (consume x target wasm rwasm a b c d) h =
      (without-IsSound target (host.keccak wasm) x.pairs h.0, λ e. absurd (a e))
  Step-IsValid caller (upgrade x target code a) h = h
  Step-IsValid caller (transfer x owner a b) h = (tt, λ e. refl)

  -- Every reachable plan is sound, and there is none without an updater.
  pub Reach-IsValid : {x y : Spec} → Reach x y → IsValid x → IsValid y
  Reach-IsValid here h = h
  Reach-IsValid (next caller run step) h = Step-IsValid caller step (Reach-IsValid run h)
