-- ===== src/Upgrade/Machine/Sound.antt =====
-- contracts/runtime-upgrade/src/lib.rs: no step spoils a plan, and a consumed pair is gone.
use fluentbase.Prelude.{
  ℕ, ◌≡◌, ◌≢◌, refl, sym, true, false, Bool-cases, ◌==◌, ◌&&◌, List, [], ◌∷◌, ◌++◌, All, inl, inr,
  arith,
}
use fluentbase.Upgrade.Handlers.{contains, is_malformed}
use fluentbase.Upgrade.Plan.Find.{listed, without, last_of, front_of, last_first}
use fluentbase.Upgrade.Plan.Push.{zip}
use fluentbase.Upgrade.Machine.{IsFresh, IsSound}

module _ (P : ℕ × ℕ → Type 0) where
  All-last_of : (x : ℕ × ℕ) (xs : List (ℕ × ℕ)) → All P (x ∷ xs) → P (last_of x xs)
  All-last_of x [] h = h.0
  All-last_of x (y ∷ ys) h = All-last_of y ys h.1

  All-front_of : (x : ℕ × ℕ) (xs : List (ℕ × ℕ)) → All P (x ∷ xs) → All P (front_of x xs)
  All-front_of x [] h = tt
  All-front_of x (y ∷ ys) h = (h.0, All-front_of y ys h.1)

  pub All-last_first : (xs : List (ℕ × ℕ)) → All P xs → All P (last_first xs)
  All-last_first [] h = tt
  All-last_first (x ∷ xs) h = (All-last_of x xs h, All-front_of x xs h)

  pub All-without : (t v : ℕ) (xs : List (ℕ × ℕ)) → All P xs → All P (without t v xs)
  All-without t v [] h = tt
  All-without t v ((a, b) ∷ xs) h = elim (Bool-cases (a == t && b == v)) [
    | inl e ↦ rw e (All-last_first xs h.1)
    | inr e ↦ rw e (h.0, All-without t v xs h.1)
  ]

front_of-IsSound : (x : ℕ × ℕ) (xs : List (ℕ × ℕ)) → IsSound (x ∷ xs) → IsSound (front_of x xs)
front_of-IsSound x [] h = tt
front_of-IsSound x (y ∷ ys) h =
    (h.0, h.1, All-front_of (λ p. p.0 ≢ x.0) y ys h.2, front_of-IsSound y ys h.3)

last_of-IsFresh :
    (x : ℕ × ℕ) (xs : List (ℕ × ℕ)) → IsSound (x ∷ xs) → IsFresh (last_of x xs).0 (front_of x xs)
last_of-IsFresh x [] h = tt
last_of-IsFresh x (y ∷ ys) h =
    (λ e. All-last_of (λ p. p.0 ≢ x.0) y ys h.2 (sym e), last_of-IsFresh y ys h.3)

nonzero : (xs : List (ℕ × ℕ)) → IsSound xs → All (λ p. (p.0 ≢ 0) × (p.1 ≢ 0)) xs
nonzero [] h = tt
nonzero (x ∷ xs) h = ((h.0, h.1), nonzero xs h.3)

last_first-IsSound : (xs : List (ℕ × ℕ)) → IsSound xs → IsSound (last_first xs)
last_first-IsSound [] h = tt
last_first-IsSound (x ∷ xs) h =
    let (a, b) = All-last_of (λ p. (p.0 ≢ 0) × (p.1 ≢ 0)) x xs (nonzero (x ∷ xs) h) in
    (a, b, last_of-IsFresh x xs h, front_of-IsSound x xs h)

-- A plan without a pair is still sound.
pub without-IsSound : (t v : ℕ) (xs : List (ℕ × ℕ)) → IsSound xs → IsSound (without t v xs)
without-IsSound t v [] h = tt
without-IsSound t v ((a, b) ∷ xs) h = elim (Bool-cases (a == t && b == v)) [
  | inl e ↦ rw e (last_first-IsSound xs h.3)
  | inr e ↦ rw e (h.0, h.1, All-without (λ p. p.0 ≢ a) t v xs h.2, without-IsSound t v xs h.3)
]

pub fresh-not_listed : (t v : ℕ) (xs : List (ℕ × ℕ)) → IsFresh t xs → listed t v xs ≡ true → ⊥
fresh-not_listed t v [] h e = absurd (ground (arith, e))
fresh-not_listed t v ((a, b) ∷ xs) h e =
    let d = h.0 in fresh-not_listed t v xs h.1 (ground (arith, d, e))

-- Once a listed pair is taken out of a sound plan, no pair is left for its target.
pub without-IsFresh :
    (t v : ℕ) (xs : List (ℕ × ℕ)) → IsSound xs → listed t v xs ≡ true → IsFresh t (without t v xs)
without-IsFresh t v [] h l = tt
without-IsFresh t v ((a, b) ∷ xs) h l = elim (Bool-cases (a == t && b == v)) [
  | inl e ↦
      let same : a ≡ t = ground (arith, e) in
      rw e (All-last_first (λ p. p.0 ≢ t) xs (rw⁻¹ same h.2))
  | inr e ↦
      let rest : listed t v xs ≡ true = ground (arith, e, l) in
      rw e (λ same. fresh-not_listed t v xs (rw⁻¹ same h.2) rest, without-IsFresh t v xs h.3 rest)
]

contains-snoc :
    (a t : ℕ) (seen : List ℕ)
    → contains a (seen ++ (t ∷ [])) ≡ false
    → (contains a seen ≡ false) × (a ≢ t)
contains-snoc a t [] h = (refl, ground (arith, h))
contains-snoc a t (x ∷ seen) h =
    let tail : contains a (seen ++ (t ∷ [])) ≡ false = ground (arith, h) in
    let (b, c) = contains-snoc a t seen tail in (ground (arith, h, b), c)

split : (P Q : ℕ × ℕ → Type 0) (xs : List (ℕ × ℕ)) → All (λ p. P p × Q p) xs → All P xs × All Q xs
split P Q [] h = (tt, tt)
split P Q (x ∷ xs) h = let (a, b) = split P Q xs h.1 in ((h.0.0, a), (h.0.1, b))

map_All :
    (P Q : ℕ × ℕ → Type 0) (xs : List (ℕ × ℕ)) → ((p : ℕ × ℕ) → P p → Q p) → All P xs → All Q xs
map_All P Q [] f h = tt
map_All P Q (x ∷ xs) f h = (f x h.0, map_All P Q xs f h.1)

accepted :
    (seen targets hashes : List ℕ)
    → is_malformed seen targets hashes ≡ false
    → All (λ p. contains p.0 seen ≡ false) (zip targets hashes) × IsSound (zip targets hashes)
unfolding is_malformed
accepted seen [] hashes h = (tt, tt)
accepted seen (t ∷ ts) [] h = (tt, tt)
accepted seen (t ∷ ts) (v ∷ vs) h =
    let rest : is_malformed (seen ++ (t ∷ [])) ts vs ≡ false = ground (arith, h) in
    let (a, b) = accepted (seen ++ (t ∷ [])) ts vs rest in
    let (c, d) =
      split (λ p. contains p.0 seen ≡ false) (λ p. p.0 ≢ t) (zip ts vs)
        (map_All (λ p. contains p.0 (seen ++ (t ∷ [])) ≡ false)
          (λ p. (contains p.0 seen ≡ false) × (p.0 ≢ t)) (zip ts vs)
          (λ p e. contains-snoc p.0 t seen e) a) in
    ((ground (arith, h), c), (ground (arith, h), ground (arith, h), d, b))

-- Lists that the loop of `plan_upgrade` accepts make a sound plan.
pub is_malformed-IsSound :
    (targets hashes : List ℕ)
    → is_malformed [] targets hashes ≡ false
    → IsSound (zip targets hashes)
is_malformed-IsSound targets hashes h = (accepted [] targets hashes h).1
