-- ===== src/Upgrade/Plan/Find.antt =====
-- contracts/runtime-upgrade/src/lib.rs: `has_planned_upgrade` finds what the plan lists, and
-- `remove_planned_upgrade` takes one pair out of it.
use fluentbase.Prelude.{
  ℕ, suc, ◌+◌, ◌≡◌, refl, ap, ◌∙◌, Bool, true, false, List, [], ◌∷◌, ◌==◌, ◌&&◌, if◌then◌else◌,
  length, arith,
}
use fluentbase.Sdk.Host.{Host}
use fluentbase.Sdk.Result.{ok}
use fluentbase.Sdk.Shared.{sload}
use fluentbase.Sdk.Shared.Vector.{address_of, read_address, len}
use fluentbase.Upgrade.{Frame}
use fluentbase.Upgrade.Plan.{target_slot, hash_slot, find_planned, has_planned_upgrade}
use fluentbase.Upgrade.Plan.View.{IsEntries, IsPlan}

-- Whether the list holds the pair.
abbrev pub listed : ℕ → ℕ → List (ℕ × ℕ) → Bool
listed t v [] = false
listed t v ((a, b) ∷ pairs) = if a == t && b == v then true else listed t v pairs

-- The last element of `x ∷ xs`, and the elements in front of it.
abbrev pub last_of {ℓ} : {A : Type ℓ} → A → List A → A
last_of x [] = x
last_of x (y ∷ ys) = last_of y ys

abbrev pub front_of {ℓ} : {A : Type ℓ} → A → List A → List A
front_of x [] = []
front_of x (y ∷ ys) = x ∷ front_of y ys

-- The last element takes the place of the one in front of the list.
abbrev pub last_first {ℓ} : {A : Type ℓ} → List A → List A
last_first [] = []
last_first (x ∷ xs) = last_of x xs ∷ front_of x xs

pub length-front_of {ℓ} : {A : Type ℓ} (x : A) (xs : List A) → length (front_of x xs) ≡ length xs
length-front_of x [] = refl
length-front_of x (y ∷ ys) = ap suc (length-front_of y ys)

-- The list without the first occurrence of the pair.
abbrev pub without : ℕ → ℕ → List (ℕ × ℕ) → List (ℕ × ℕ)
without t v [] = []
without t v ((a, b) ∷ pairs) =
    if a == t && b == v then last_first pairs else (a, b) ∷ without t v pairs

module _ (host : Host) where
  find_planned-listed :
      (t v index : ℕ) (s : Frame) (pairs : List (ℕ × ℕ))
      → IsEntries host s.storage index pairs
      → find_planned host t v index (length pairs) s ≡ (ok (listed t v pairs), s)
  unfolding find_planned read_address sload
  find_planned-listed t v index s [] h = refl
  find_planned-listed t v index s ((a, b) ∷ pairs) (ht, hv, h) =
      let e : index + 1 ≡ suc index = omega arith in
      let ih : find_planned host t v (index + 1) (length pairs) s ≡ (ok (listed t v pairs), s) =
        ap (λ i. find_planned host t v i (length pairs) s) e
        ∙ find_planned-listed t v (suc index) s pairs h in
      ground (arith, ht, hv, ih)

  pub has_planned_upgrade-listed :
      (t v : ℕ) (s : Frame) (pairs : List (ℕ × ℕ))
      → IsPlan host s.storage pairs
      → has_planned_upgrade host t v s ≡ (ok (listed t v pairs), s)
  unfolding has_planned_upgrade len sload
  has_planned_upgrade-listed t v s pairs plan =
      rw plan.hashes (find_planned-listed t v 0 s pairs plan.entries)

  pub last-entry :
      (storage : ℕ → ℕ) (index : ℕ) (x : ℕ × ℕ) (xs : List (ℕ × ℕ))
      → IsEntries host storage index (x ∷ xs)
      → (address_of (storage (target_slot host (index + length xs))) ≡ (last_of x xs).0)
        × (storage (hash_slot host (index + length xs)) ≡ (last_of x xs).1)
  last-entry storage index x [] h =
      let e : index + 0 ≡ index = omega arith in
      (
        ap (λ i. address_of (storage (target_slot host i))) e ∙ h.0,
        ap (λ i. storage (hash_slot host i)) e ∙ h.1,
      )
  last-entry storage index x (y ∷ ys) h =
      let e : index + suc (length ys) ≡ suc index + length ys = omega arith in
      let (a, b) = last-entry storage (suc index) y ys h.2 in
      (
        ap (λ i. address_of (storage (target_slot host i))) e ∙ a,
        ap (λ i. storage (hash_slot host i)) e ∙ b,
      )

  pub front_of-IsEntries :
      (storage : ℕ → ℕ) (index : ℕ) (x : ℕ × ℕ) (xs : List (ℕ × ℕ))
      → IsEntries host storage index (x ∷ xs)
      → IsEntries host storage index (front_of x xs)
  front_of-IsEntries storage index x [] h = tt
  front_of-IsEntries storage index x (y ∷ ys) h =
      (h.0, h.1, front_of-IsEntries storage (suc index) y ys h.2)
