-- ===== src/Upgrade/Plan/View.antt =====
-- contracts/runtime-upgrade/src/lib.rs: the list of pairs that the stored plan stands for.
use fluentbase.Prelude.{
  ℕ, suc, ◌+◌, ◌^◌, ◌≤◌, ◌<◌, ◌≡◌, ◌≢◌, sym, ap, ◌∙◌, List, [], ◌∷◌, ◌++◌, length, arith,
}
use fluentbase.Sdk.Host.{Host}
use fluentbase.Sdk.Shared.Vector.{address_of, length_of}
use fluentbase.Sdk.Shared.Bytes.{data_slot}
use fluentbase.Sdk.Shared.Bytes.Frame.{IsReadable}
use fluentbase.Upgrade.Plan.{target_slot, hash_slot}

-- The slots of the elements of the two vectors, and of a long version text, are apart from each other
-- and from those of the fields.
pub record IsLaidOut (host : Host) : Type 0 where
  pub targets : (i : ℕ) → i < 2 ^ 64 → 5 < target_slot host i
  pub hashes : (i : ℕ) → i < 2 ^ 64 → 5 < hash_slot host i
  pub version : (i : ℕ) → i < 2 ^ 32 → 5 < data_slot host 2 i
  pub targets_hashes : (i j : ℕ) → i < 2 ^ 64 → j < 2 ^ 64 → target_slot host i ≢ hash_slot host j
  pub version_targets :
      (i j : ℕ) → i < 2 ^ 32 → j < 2 ^ 64 → data_slot host 2 i ≢ target_slot host j
  pub version_hashes : (i j : ℕ) → i < 2 ^ 32 → j < 2 ^ 64 → data_slot host 2 i ≢ hash_slot host j

module _ (host : Host) where
  -- The entries from `index` on are the pairs of the list.
  abbrev pub IsEntries : (ℕ → ℕ) → ℕ → List (ℕ × ℕ) → Type 0
  IsEntries storage index [] = Unit {0}
  IsEntries storage index ((target, hash) ∷ pairs) =
      (address_of (storage (target_slot host index)) ≡ target)
      × (storage (hash_slot host index) ≡ hash)
      × IsEntries storage (suc index) pairs

  -- The storage holds the plan: both vectors have its length, and its pairs as their elements.
  pub record IsPlan (storage : ℕ → ℕ) (pairs : List (ℕ × ℕ)) : Type 0 where
    pub targets : length_of (storage 4) ≡ length pairs
    pub hashes : length_of (storage 5) ≡ length pairs
    pub entries : IsEntries storage 0 pairs

  pub IsEntries-cong :
      (storage storage' : ℕ → ℕ) (index : ℕ) (pairs : List (ℕ × ℕ))
      → ((i : ℕ)
          → index ≤ i
          → i < index + length pairs
          → (storage' (target_slot host i) ≡ storage (target_slot host i))
            × (storage' (hash_slot host i) ≡ storage (hash_slot host i)))
      → IsEntries storage index pairs
      → IsEntries storage' index pairs
  IsEntries-cong storage storage' index [] same h = tt
  IsEntries-cong storage storage' index ((t, v) ∷ pairs) same h =
      let (a, b) = same index (omega arith) (omega arith) in
      (
        ap address_of a ∙ h.0,
        b ∙ h.1,
        IsEntries-cong storage storage' (suc index) pairs
            (λ i p q. same i (omega arith) (omega arith)) h.2,
      )

  pub IsEntries-snoc :
      (storage : ℕ → ℕ) (index : ℕ) (pairs : List (ℕ × ℕ)) (t v : ℕ)
      → IsEntries storage index pairs
      → address_of (storage (target_slot host (index + length pairs))) ≡ t
      → storage (hash_slot host (index + length pairs)) ≡ v
      → IsEntries storage index (pairs ++ ((t, v) ∷ []))
  IsEntries-snoc storage index [] t v h a b =
      let e : index + 0 ≡ index = omega arith in
      (
        ap (λ i. address_of (storage (target_slot host i))) (sym e) ∙ a,
        ap (λ i. storage (hash_slot host i)) (sym e) ∙ b,
        tt,
      )
  IsEntries-snoc storage index (p ∷ pairs) t v h a b =
      let e : index + suc (length pairs) ≡ suc index + length pairs = omega arith in
      (
        h.0,
        h.1,
        IsEntries-snoc storage (suc index) pairs t v h.2
            (ap (λ i. address_of (storage (target_slot host i))) (sym e) ∙ a)
            (ap (λ i. storage (hash_slot host i)) (sym e) ∙ b),
      )

  -- What a storage stands for: the stored owner, the updater, the plan, and a version text that can be
  -- read.
  pub record IsState (storage : ℕ → ℕ) (owner updater : ℕ) (pairs : List (ℕ × ℕ)) : Type 0 where
    pub owner_lem : address_of (storage 0) ≡ owner
    pub updater_lem : address_of (storage 3) ≡ updater
    pub readable : IsReadable (storage 2)
    pub plan : IsPlan storage pairs
