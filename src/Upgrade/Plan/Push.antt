-- ===== src/Upgrade/Plan/Push.antt =====
-- contracts/runtime-upgrade/src/lib.rs: the loop of `plan_upgrade` appends its pairs to the plan.
use fluentbase.Prelude.{
  ℕ, suc, ◌+◌, ◌^◌, ◌<◌, ◌≡◌, refl, sym, ap, ◌∙◌, subst, List, [], ◌∷◌, ◌++◌, ◌==◌, if◌then◌else◌,
  length, length-append, All, arith,
}
use mathlib.Core.List.{append_assoc, append-nil}
use fluentbase.Sdk.Host.{Host}
use fluentbase.Sdk.Shared.{◌>>=◌}
use fluentbase.Sdk.Shared.Vector.{
  element_slot-apart, address_of, with_address, pushed_address, pushed_word, push_address,
  push_word, push_address-storage, push_word-storage,
}
use fluentbase.Sdk.Shared.Laws.{IsWritable, Leaves, bind-ok}
use fluentbase.Upgrade.{Frame}
use fluentbase.Upgrade.Plan.{target_slot, hash_slot, push_plan}
use fluentbase.Upgrade.Plan.View.{IsLaidOut, IsPlan, IsEntries-cong, IsEntries-snoc}

abbrev pub zip : List ℕ → List ℕ → List (ℕ × ℕ)
zip [] vs = []
zip (t ∷ ts) [] = []
zip (t ∷ ts) (v ∷ vs) = (t, v) ∷ zip ts vs

address_of-with_address : (w t : ℕ) → t < 2 ^ 160 → address_of (with_address w t) ≡ t
address_of-with_address w t h = omega arith

module _ (host : Host) (laid : IsLaidOut host) (storage : ℕ → ℕ) (pairs : List (ℕ × ℕ))
    (t v : ℕ) where
  abbrev pushed : ℕ → ℕ
  pushed = pushed_word host 5 v (pushed_address host 4 t storage)

  module _ (plan : IsPlan host storage pairs) (room : suc (length pairs) < 2 ^ 64) where
    pushed-at :
        (k : ℕ)
        → pushed k ≡ (
            if hash_slot host (length pairs) == k
            then v
            else if 5 == k
            then suc (length pairs)
            else if target_slot host (length pairs) == k
            then with_address (storage (target_slot host (length pairs))) t
            else if 4 == k
            then suc (length pairs)
            else storage k)
    unfolding target_slot hash_slot
    pushed-at k =
        let a = plan.targets in
        let b = plan.hashes in
        let c = laid.targets (length pairs) (omega arith) in ground (arith, a, b, c)

    module _ (i : ℕ) (h : i < length pairs) where
      far : i < 2 ^ 64
      far = omega arith

      target-kept : pushed (target_slot host i) ≡ storage (target_slot host i)
      unfolding target_slot
      target-kept =
          let a = pushed-at (target_slot host i) in
          let b = laid.targets i far in
          let c = laid.targets_hashes i (length pairs) far (omega arith) in
          let d = element_slot-apart host 4 i (length pairs) far (omega arith) (omega arith) in
          ground (arith, a, b, c, d)

      hash-kept : pushed (hash_slot host i) ≡ storage (hash_slot host i)
      unfolding hash_slot
      hash-kept =
          let a = pushed-at (hash_slot host i) in
          let b = laid.hashes i far in
          let c = laid.targets_hashes (length pairs) i (omega arith) far in
          let d = element_slot-apart host 5 i (length pairs) far (omega arith) (omega arith) in
          ground (arith, a, b, c, d)

    target-last : t < 2 ^ 160 → address_of (pushed (target_slot host (length pairs))) ≡ t
    target-last bound =
        let a = pushed-at (target_slot host (length pairs)) in
        let b = laid.targets (length pairs) (omega arith) in
        let c = laid.targets_hashes (length pairs) (length pairs) (omega arith) (omega arith) in
        let e : pushed (target_slot host (length pairs))
            ≡ with_address (storage (target_slot host (length pairs))) t =
          ground (arith, a, b, c) in
        ap address_of e
        ∙ address_of-with_address (storage (target_slot host (length pairs))) t bound

    hash-last : pushed (hash_slot host (length pairs)) ≡ v
    hash-last = let a = pushed-at (hash_slot host (length pairs)) in ground (arith, a)

    field-kept : (k : ℕ) → k < 4 → pushed k ≡ storage k
    field-kept k h =
        let a = pushed-at k in
        let b = laid.targets (length pairs) (omega arith) in
        let c = laid.hashes (length pairs) (omega arith) in ground (arith, a, b, c)

    lengths : (pushed 4 ≡ suc (length pairs)) × (pushed 5 ≡ suc (length pairs))
    lengths =
        let a = pushed-at 4 in
        let a' = pushed-at 5 in
        let b = laid.targets (length pairs) (omega arith) in
        let c = laid.hashes (length pairs) (omega arith) in
        (ground (arith, a, b, c), ground (arith, a', b, c))

    pushed-IsPlan : t < 2 ^ 160 → IsPlan host pushed (pairs ++ ((t, v) ∷ []))
    pushed-IsPlan bound =
        let longer = length-append pairs ((t, v) ∷ []) in
        record {
          targets = omega (arith, longer, lengths.0);
          hashes = omega (arith, longer, lengths.1);
          entries =
              IsEntries-snoc host pushed 0 pairs t v
                (IsEntries-cong host storage pushed 0 pairs
                  (λ i p q. (target-kept i (omega arith), hash-kept i (omega arith))) plan.entries)
                (ap (λ n. address_of (pushed (target_slot host n))) (omega arith)
                  ∙ target-last bound)
                (ap (λ n. pushed (hash_slot host n)) (omega arith) ∙ hash-last);
        }

-- The loop returns with the pairs behind the plan, and leaves the slots of the single fields alone.
pub push_plan-IsPlan :
    (host : Host) (s : Frame) (pairs : List (ℕ × ℕ)) (targets hashes : List ℕ)
    → IsLaidOut host
    → IsWritable s
    → IsPlan host s.storage pairs
    → All (λ t. t < 2 ^ 160) targets
    → length pairs + length targets < 2 ^ 64
    → (storage : ℕ → ℕ) × Leaves (push_plan host targets hashes) s storage
      × IsPlan host storage (pairs ++ zip targets hashes)
      × ((k : ℕ) → k < 4 → storage k ≡ s.storage k)
unfolding push_plan
push_plan-IsPlan host s pairs [] hashes laid w plan a b = (
  s.storage,
  refl,
  subst (λ l. IsPlan host s.storage l) (sym (append-nil pairs)) plan,
  λ k h. refl,
)
push_plan-IsPlan host s pairs (t ∷ ts) [] laid w plan a b = (
  s.storage,
  refl,
  subst (λ l. IsPlan host s.storage l) (sym (append-nil pairs)) plan,
  λ k h. refl,
)
push_plan-IsPlan host s pairs (t ∷ ts) (v ∷ vs) laid w plan a b =
    let room : suc (length pairs) < 2 ^ 64 = omega arith in
    let next = pushed host laid s.storage pairs t v in
    let longer = length-append pairs ((t, v) ∷ []) in
    let (storage, run, plan', kept) =
      push_plan-IsPlan host (record s { storage = next }) (pairs ++ ((t, v) ∷ [])) ts vs laid w
        (pushed-IsPlan host laid s.storage pairs t v plan room a.0) a.1 (omega (arith, longer)) in
    let s1 = record s { storage = pushed_address host 4 t s.storage } in
    let s2 = record s { storage = next } in
    let rest = λ (u : Unit {0}). push_plan host ts vs in
    (
      storage,
      bind-ok (push_address host 4 t) (λ u. push_word host 5 v >>= rest) s s1 tt
            (push_address-storage host 4 t s w)
          ∙ bind-ok (push_word host 5 v) rest s1 s2 tt (push_word-storage host 5 v s1 w)
          ∙ run,
      subst (λ l. IsPlan host storage l) (append_assoc pairs ((t, v) ∷ []) (zip ts vs)) plan',
      λ k h. kept k h ∙ field-kept host laid s.storage pairs t v plan room k h,
    )
