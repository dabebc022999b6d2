-- ===== src/Types/Journal/Overlay.antt =====
-- The journal as an overlay of writes over the base state (`JournalStorage`).
use fluentbase.Prelude.{
  ℕ, ◌≡◌, ◌≢◌, refl, none, some, List, [], ◌∷◌, arith, ◌==◌, if◌then◌else◌, ap, ◌∙◌, subst,
}
use fluentbase.Types.Journal.{
  Map, insert, JournalStorage, new, peek, storage, storage, write_storage, touch, emit_log,
  into_diff,
}

-- A write replaces the value of its slot and of no other.
pub peek-write_storage :
    (k v : ℕ) (j : JournalStorage) (i : ℕ)
    → peek (write_storage k v j) i ≡ (if k == i then some v else peek j i)
unfolding peek write_storage
peek-write_storage k v j i = ground arith

pub peek-touch : (k : ℕ) (j : JournalStorage) (i : ℕ) → peek (touch k j) i ≡ peek j i
unfolding peek touch
peek-touch k j i = refl

pub peek-emit_log :
    (topics payload : List ℕ) (j : JournalStorage) (i : ℕ)
    → peek (emit_log topics payload j) i ≡ peek j i
unfolding peek emit_log
peek-emit_log topics payload j i = refl

pub ruleset peek_laws = (peek-write_storage, peek-touch, peek-emit_log)

-- What a commit of the diff leaves in a slot: the dirty value, if there is one.
abbrev pub commit : Map → Map → Map
commit diff base k = elim (diff k) [ some v ↦ some v | none ↦ base k ]

-- Every dirty value differs from what the base state holds.
abbrev pub IsMinimal : JournalStorage → Type 0
IsMinimal j = (k v : ℕ) → j.dirty_values k ≡ some v → j.state k ≢ some v

pub new-IsMinimal : (base : Map) → IsMinimal (new base)
new-IsMinimal base k v e = λ h. cc

pub write_storage-IsMinimal :
    (k v : ℕ) (j : JournalStorage) → IsMinimal j → IsMinimal (write_storage k v j)
unfolding write_storage
write_storage-IsMinimal k v j h i w e = ground (arith, h i w)

-- The calls on a journal, in their order.
pub data Access : Type 0 where
  read : ℕ → Access
  write : ℕ → ℕ → Access

unfoldable pub run : List Access → JournalStorage → JournalStorage
run [] j = j
run (read k ∷ rest) j = run rest (storage k j).1
run (write k v ∷ rest) j = run rest (write_storage k v j)

-- The same calls on a plain map, where a write replaces the value at once.
unfoldable pub run_map : List Access → Map → Map
run_map [] m = m
run_map (read k ∷ rest) m = run_map rest m
run_map (write k v ∷ rest) m = run_map rest (insert k v m)

pub peek-storage : (k : ℕ) (j : JournalStorage) (i : ℕ) → peek (storage k j).1 i ≡ peek j i
unfolding peek storage touch
peek-storage k j i = ground arith

storage-state : (k : ℕ) (j : JournalStorage) → (storage k j).1.state ≡ j.state
unfolding peek storage touch
storage-state k j = ground arith

storage-dirty : (k : ℕ) (j : JournalStorage) → (storage k j).1.dirty_values ≡ j.dirty_values
unfolding peek storage touch
storage-dirty k j = ground arith

storage-IsMinimal : (k : ℕ) (j : JournalStorage) → IsMinimal j → IsMinimal (storage k j).1
storage-IsMinimal k j h i w = rw (storage-state k j, storage-dirty k j) (h i w)

run-IsMinimal : (calls : List Access) (j : JournalStorage) → IsMinimal j → IsMinimal (run calls j)
unfolding run
run-IsMinimal [] j h = h
run-IsMinimal (read k ∷ rest) j h = run-IsMinimal rest (storage k j).1 (storage-IsMinimal k j h)
run-IsMinimal (write k v ∷ rest) j h =
    run-IsMinimal rest (write_storage k v j) (write_storage-IsMinimal k v j h)

run-run_map :
    (calls : List Access) (j : JournalStorage) (m : Map)
    → ((i : ℕ) → peek j i ≡ m i)
    → (i : ℕ) → peek (run calls j) i ≡ run_map calls m i
unfolding run run_map
run-run_map [] j m h i = h i
run-run_map (read k ∷ rest) j m h i =
    run-run_map rest (storage k j).1 m (λ n. peek-storage k j n ∙ h n) i
run-run_map (write k v ∷ rest) j m h i =
    run-run_map rest (write_storage k v j) (insert k v m)
      (λ n. peek-write_storage k v j n ∙ ap (λ o. if k == n then some v else o) (h n)) i

run-state : (calls : List Access) (j : JournalStorage) → (run calls j).state ≡ j.state
unfolding run write_storage
run-state [] j = refl
run-state (read k ∷ rest) j = run-state rest (storage k j).1 ∙ storage-state k j
run-state (write k v ∷ rest) j = run-state rest (write_storage k v j)

commit-into_diff :
    (j : JournalStorage) {base : Map} (i : ℕ)
    → j.state ≡ base
    → commit (into_diff j).0 base i ≡ peek j i
unfolding into_diff peek
commit-into_diff j i e = subst (λ b. commit j.dirty_values b i ≡ peek j i) e refl

into_diff-IsMinimal :
    (j : JournalStorage) {base : Map}
    → IsMinimal j
    → j.state ≡ base
    → (i v : ℕ) → (into_diff j).0 i ≡ some v
    → base i ≢ some v
unfolding into_diff
into_diff-IsMinimal j h e i v d = subst (λ b. b i ≢ some v) e (h i v d)

-- Any sequence of reads and writes on a journal over `base`, followed by a commit of its diff,
-- leaves in every slot what the same writes leave in a plain map that starts as `base`.
pub commit-run :
    (calls : List Access) (base : Map) (i : ℕ)
    → commit (into_diff (run calls (new base))).0 base i ≡ run_map calls base i
commit-run calls base i =
    commit-into_diff (run calls (new base)) i (run-state calls (new base))
    ∙ run-run_map calls (new base) base (λ n. unfold peek in refl) i

-- After any sequence of reads and writes on a journal over `base`, an entry of its diff differs
-- from what `base` holds in that slot.
pub into_diff-run :
    (calls : List Access) (base : Map) (i v : ℕ)
    → (into_diff (run calls (new base))).0 i ≡ some v
    → base i ≢ some v
into_diff-run calls base =
    into_diff-IsMinimal (run calls (new base)) (run-IsMinimal calls (new base) (new-IsMinimal base))
      (run-state calls (new base))
