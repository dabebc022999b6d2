-- ===== src/Upgrade/Plan/Remove.antt =====
-- contracts/runtime-upgrade/src/lib.rs: `remove_planned_upgrade` takes one pair out of the plan and
-- moves the last one into its place.
use fluentbase.Prelude.{
  ℕ, suc, ◌+◌, ◌^◌, ◌≤◌, ◌<◌, ◌≡◌, ◌≢◌, refl, ap, ◌∙◌, true, false, not, List, [], ◌∷◌, ◌==◌, ◌&&◌,
  length, arith, Bool-cases, inl, inr,
}
use fluentbase.Sdk.Host.{Host}
use fluentbase.Sdk.Result.{ok}
use fluentbase.Sdk.Shared.{put, sload, sstore, ◌>>=◌}
use fluentbase.Sdk.Shared.Vector.{
  element_slot-apart, address_of, length_of, with_address, read_address, write_address, len, pop,
  pop-storage,
}
use fluentbase.Sdk.Shared.Laws.{IsWritable, Leaves, bind-ok}
use fluentbase.Upgrade.{Event, Frame}
use fluentbase.Upgrade.Plan.{
  target_slot, hash_slot, move_last, swap_remove, remove_from, remove_planned_upgrade,
}
use fluentbase.Upgrade.Plan.View.{IsLaidOut, IsEntries, IsPlan, IsEntries-cong}
use fluentbase.Upgrade.Plan.Find.{
  front_of, last_first, without, last-entry, front_of-IsEntries, length-front_of,
}

-- Both lengths set to `m`.
abbrev shortened : ℕ → (ℕ → ℕ) → ℕ → ℕ
shortened m storage = put 5 m (put 4 m storage)

module _ (host : Host) where
  -- The entry at `last_index` written over the one at `index`.
  abbrev moved : ℕ → ℕ → (ℕ → ℕ) → ℕ → ℕ
  moved index last_index storage =
      put (hash_slot host index) (storage (hash_slot host last_index)) (
        put (target_slot host index)
          (with_address (storage (target_slot host index))
            (address_of (storage (target_slot host last_index))))
          storage)

  move_last-storage :
      (index last_index : ℕ) (s : Frame)
      → IsWritable s
      → Leaves (move_last host true index last_index) s (moved index last_index s.storage)
  unfolding move_last read_address write_address sload sstore
  move_last-storage index last_index s w = ground (arith, w)

  pops :
      (m : ℕ) (s : Frame)
      → IsWritable s
      → length_of (s.storage 4) ≡ suc m
      → length_of (s.storage 5) ≡ suc m
      → (pop 4 >>= λ u. pop 5) s ≡ (ok tt, record s { storage = shortened m s.storage })
  pops m s w a b =
      let s1 = record s { storage = put 4 m s.storage } in
      bind-ok (pop 4) (λ u. pop 5) s s1 tt (pop-storage 4 m s w a) ∙ pop-storage 5 m s1 w b

  swap_remove-last :
      (index m : ℕ) (s : Frame)
      → IsWritable s
      → length_of (s.storage 4) ≡ suc m
      → length_of (s.storage 5) ≡ suc m
      → Leaves (swap_remove host index index) s (shortened m s.storage)
  unfolding swap_remove
  swap_remove-last index m s w a b =
      let pop_both = λ (u : Unit {0}). pop {E = Event} 4 >>= λ u. pop 5 in
      let e : (index == index) ≡ true = ground arith in
      ap (λ c. (move_last host (not c) index index >>= pop_both) s) e ∙ pops m s w a b

  module _ (laid : IsLaidOut host) where
    moved-field :
        (index last_index k : ℕ) (storage : ℕ → ℕ)
        → index < 2 ^ 64
        → k ≤ 5
        → moved index last_index storage k ≡ storage k
    moved-field index last_index k storage h e =
        let a = laid.targets index h in let b = laid.hashes index h in ground (arith, a, b)

    swap_remove-moved :
        (index last_index m : ℕ) (s : Frame)
        → IsWritable s
        → index < 2 ^ 64
        → (index == last_index) ≡ false
        → length_of (s.storage 4) ≡ suc m
        → length_of (s.storage 5) ≡ suc m
        → Leaves
            (swap_remove host index last_index)
            s
            (shortened m (moved index last_index s.storage))
    unfolding swap_remove
    swap_remove-moved index last_index m s w h e a b =
        let s1 = record s { storage = moved index last_index s.storage } in
        let pop_both = λ (u : Unit {0}). pop {E = Event} 4 >>= λ u. pop 5 in
        ap (λ c. (move_last host (not c) index last_index >>= pop_both) s) e
        ∙ bind-ok (move_last host true index last_index) pop_both s s1 tt
            (move_last-storage index last_index s w)
        ∙ pops m s1 w (ap length_of (moved-field index last_index 4 s.storage h (omega arith)) ∙ a)
            (ap length_of (moved-field index last_index 5 s.storage h (omega arith)) ∙ b)

    -- The slots that a removal behind `index` leaves alone.
    abbrev IsKept : ℕ → (ℕ → ℕ) → (ℕ → ℕ) → Type 0
    IsKept index before after =
        ((j : ℕ)
          → j < index
          → (after (target_slot host j) ≡ before (target_slot host j))
            × (after (hash_slot host j) ≡ before (hash_slot host j)))
        × ((k : ℕ) → k < 4 → after k ≡ before k)

    abbrev IsRemoved : ℕ → List (ℕ × ℕ) → (ℕ → ℕ) → (ℕ → ℕ) → Type 0
    IsRemoved index pairs before after =
        IsEntries host after index pairs
        × (length_of (after 4) ≡ index + length pairs)
        × (length_of (after 5) ≡ index + length pairs)
        × IsKept index before after

    module _ (m : ℕ) (storage : ℕ → ℕ) (bound : m < 2 ^ 64) where
      shortened-element :
          (i : ℕ)
          → i < 2 ^ 64
          → (shortened m storage (target_slot host i) ≡ storage (target_slot host i))
            × (shortened m storage (hash_slot host i) ≡ storage (hash_slot host i))
      shortened-element i h =
          let a = laid.targets i h in
          let b = laid.hashes i h in (ground (arith, a), ground (arith, b))

      shortened-lengths :
          (length_of (shortened m storage 4) ≡ m) × (length_of (shortened m storage 5) ≡ m)
      shortened-lengths = (omega arith, omega arith)

      shortened-field : (k : ℕ) → k < 4 → shortened m storage k ≡ storage k
      shortened-field k h = ground arith

    module _ (index last_index : ℕ) (storage : ℕ → ℕ) (h : index < 2 ^ 64) where
      moved-other :
          (i : ℕ)
          → i < 2 ^ 64
          → i ≢ index
          → (moved index last_index storage (target_slot host i) ≡ storage (target_slot host i))
            × (moved index last_index storage (hash_slot host i) ≡ storage (hash_slot host i))
      unfolding target_slot hash_slot
      moved-other i k d =
          let a = element_slot-apart host 4 i index k h d in
          let b = element_slot-apart host 5 i index k h d in
          let c = laid.targets_hashes i index k h in
          let c' = laid.targets_hashes index i h k in (ground (arith, a, c), ground (arith, b, c'))

      moved-here :
          (address_of (moved index last_index storage (target_slot host index))
            ≡ address_of (storage (target_slot host last_index)))
          × (moved index last_index storage (hash_slot host index)
              ≡ storage (hash_slot host last_index))
      moved-here =
          let c = laid.targets_hashes index index h h in
          let e : moved index last_index storage (target_slot host index)
              ≡ with_address (storage (target_slot host index))
                  (address_of (storage (target_slot host last_index))) =
            ground (arith, c) in
          (ap address_of e ∙ omega arith, ground arith)

    -- The entries behind `index`, the last of them moved to the front.
    swapped-entries :
        (index : ℕ) (storage : ℕ → ℕ) (x : ℕ × ℕ) (xs : List (ℕ × ℕ))
        → suc (index + length (x ∷ xs)) < 2 ^ 64
        → IsEntries host storage (suc index) (x ∷ xs)
        → IsRemoved index
            (last_first (x ∷ xs))
            storage
            (shortened (index + length (x ∷ xs)) (moved index (suc index + length xs) storage))
    swapped-entries index storage x xs bound h =
        let last_index = suc index + length xs in
        let before = moved index last_index storage in
        let after = shortened (index + length (x ∷ xs)) before in
        let keep = shortened-element (index + length (x ∷ xs)) before (omega arith) in
        let here = moved-here index last_index storage (omega arith) in
        let other = moved-other index last_index storage (omega arith) in
        let (a, b) = last-entry host storage (suc index) x xs h in
        let size = length-front_of x xs in
        let lengths = shortened-lengths (index + length (x ∷ xs)) before (omega arith) in
        (
          (
            ap address_of (keep index (omega arith)).0 ∙ here.0 ∙ a,
            (keep index (omega arith)).1 ∙ here.1 ∙ b,
            IsEntries-cong host storage after (suc index) (front_of x xs)
                (λ i p q.
                  let k : i < 2 ^ 64 = omega (arith, size) in
                  let d : i ≢ index = λ e. omega arith in
                  ((keep i k).0 ∙ (other i k d).0, (keep i k).1 ∙ (other i k d).1))
                (front_of-IsEntries host storage (suc index) x xs h),
          ),
          lengths.0 ∙ omega (arith, size),
          lengths.1 ∙ omega (arith, size),
          (
            λ j p.
                let k : j < 2 ^ 64 = omega arith in
                let d : j ≢ index = λ e. omega arith in
                ((keep j k).0 ∙ (other j k d).0, (keep j k).1 ∙ (other j k d).1),
            λ k p.
                shortened-field (index + length (x ∷ xs)) before (omega arith) k p
                ∙ moved-field index last_index k storage (omega arith) (omega arith),
          ),
        )

    last-entries :
        (index : ℕ) (storage : ℕ → ℕ)
        → index < 2 ^ 64
        → IsRemoved index [] storage (shortened index storage)
    last-entries index storage bound =
        let keep = shortened-element index storage bound in
        let lengths = shortened-lengths index storage bound in
        (
          tt,
          lengths.0 ∙ omega arith,
          lengths.1 ∙ omega arith,
          (λ j p. keep j (omega arith), λ k p. shortened-field index storage bound k p),
        )

    -- The loop of `remove_planned_upgrade` from `index` on: a match, and an entry passed over.
    hit :
        (t v index n : ℕ) (s : Frame) (x y : ℕ)
        → address_of (s.storage (target_slot host index)) ≡ x
        → s.storage (hash_slot host index) ≡ y
        → x == t && y == v ≡ true
        → remove_from host t v index (suc n) s ≡ swap_remove host index (index + n) s
    unfolding remove_from read_address sload
    hit t v index n s x y a b e = ground (arith, a, b, e)

    miss :
        (t v index n : ℕ) (s : Frame) (x y : ℕ)
        → address_of (s.storage (target_slot host index)) ≡ x
        → s.storage (hash_slot host index) ≡ y
        → x == t && y == v ≡ false
        → remove_from host t v index (suc n) s ≡ remove_from host t v (index + 1) n s
    unfolding remove_from read_address sload
    miss t v index n s x y a b e = ground (arith, a, b, e)

    hit-IsRemoved :
        (index : ℕ) (s : Frame) (x : ℕ × ℕ) (pairs : List (ℕ × ℕ))
        → IsWritable s
        → index + length (x ∷ pairs) < 2 ^ 64
        → IsEntries host s.storage index (x ∷ pairs)
        → length_of (s.storage 4) ≡ index + length (x ∷ pairs)
        → length_of (s.storage 5) ≡ index + length (x ∷ pairs)
        → (storage : ℕ → ℕ) × Leaves (swap_remove host index (index + length pairs)) s storage
          × IsRemoved index (last_first pairs) s.storage storage
    hit-IsRemoved index s x [] w bound h a b =
        let e : index + 0 ≡ index = omega arith in
        (
          shortened index s.storage,
          ap (λ i. swap_remove host index i s) e
              ∙ swap_remove-last index index s w (a ∙ omega arith) (b ∙ omega arith),
          last-entries index s.storage (omega arith),
        )
    hit-IsRemoved index s x (p ∷ pairs) w bound h a b =
        let e : index + suc (length pairs) ≡ suc index + length pairs = omega arith in
        let m = index + length (p ∷ pairs) in
        (
          shortened m (moved index (suc index + length pairs) s.storage),
          ap (λ i. swap_remove host index i s) e
              ∙ swap_remove-moved index (suc index + length pairs) m s w (omega arith)
                  (ground arith) (a ∙ omega arith) (b ∙ omega arith),
          swapped-entries index s.storage p pairs (omega arith) h.2,
        )

    remove_from-without :
        (t v index : ℕ) (s : Frame) (pairs : List (ℕ × ℕ))
        → IsWritable s
        → index + length pairs < 2 ^ 64
        → IsEntries host s.storage index pairs
        → length_of (s.storage 4) ≡ index + length pairs
        → length_of (s.storage 5) ≡ index + length pairs
        → (storage : ℕ → ℕ) × Leaves (remove_from host t v index (length pairs)) s storage
          × IsRemoved index (without t v pairs) s.storage storage
    remove_from-without t v index s [] w bound h a b =
        (s.storage, unfold remove_from in refl, (tt, a, b, (λ j p. (refl, refl), λ k p. refl)))
    remove_from-without t v index s ((x, y) ∷ pairs) w bound h a b =
        let (storage, run, removed) =
          remove_from-without t v (suc index) s pairs w (omega arith) h.2 (a ∙ omega arith)
            (b ∙ omega arith) in
        elim (Bool-cases (x == t && y == v)) [
          | inl e ↦
              let (storage', run', removed') = hit-IsRemoved index s (x, y) pairs w bound h a b in
              (storage', hit t v index (length pairs) s x y h.0 h.1 e ∙ run', rw e removed')
          | inr e ↦ (
            storage,
            miss t v index (length pairs) s x y h.0 h.1 e
                ∙ ap (λ i. remove_from host t v i (length pairs) s) (omega arith)
                ∙ run,
            rw e (
              (
                ap address_of (removed.3.0 index (omega arith)).0 ∙ h.0,
                (removed.3.0 index (omega arith)).1 ∙ h.1,
                removed.0,
              ),
              removed.1 ∙ omega arith,
              removed.2 ∙ omega arith,
              (λ j p. removed.3.0 j (omega arith), removed.3.1),
            ),
          )
        ]

    -- A removal from the plan returns; the plan is without the first occurrence of the pair.
    pub remove_planned_upgrade-without :
        (t v : ℕ) (s : Frame) (pairs : List (ℕ × ℕ))
        → IsWritable s
        → length pairs < 2 ^ 64
        → IsPlan host s.storage pairs
        → (storage : ℕ → ℕ) × Leaves (remove_planned_upgrade host t v) s storage
          × IsPlan host storage (without t v pairs)
          × ((k : ℕ) → k < 4 → storage k ≡ s.storage k)
    unfolding remove_planned_upgrade len sload
    remove_planned_upgrade-without t v s pairs w bound plan =
        let (storage, run, (entries, a, b, kept)) =
          remove_from-without t v 0 s pairs w (omega arith) plan.entries
            (plan.targets ∙ omega arith) (plan.hashes ∙ omega arith) in
        (
          storage,
          rw plan.hashes run,
          record { targets = a ∙ omega arith; hashes = b ∙ omega arith; entries = entries },
          kept.1,
        )
