-- ===== src/Sdk/Shared/Bytes/Frame.antt =====
-- crates/sdk/src/storage/bytes.rs: a text that can be read can be replaced and cleared, by writes to
-- its own slots.
use fluentbase.Prelude.{
  ℕ, zero, suc, ◌+◌, ◌-◌, ◌*◌, ◌/◌, ◌%◌, ◌^◌, ◌≤◌, ◌<◌, ◌≡◌, ◌≢◌, refl, sym, ap, ◌∙◌, Bool, true,
  false, some, List, [], ◌∷◌, ◌++◌, ltb, ◌&&◌, if◌then◌else◌, length, take, drop, replicate, arith,
  Bool-cases, inl, inr, ltb→lt,
}
use mathlib.Core.List.{append_assoc}
use fluentbase.Prelude.Bytes.{be_bytes, from_be_bytes, from_be_bytes-snoc}
use fluentbase.Sdk.Host.{Host}
use fluentbase.Sdk.Result.{ok}
use fluentbase.Sdk.Storage.{pad_word}
use fluentbase.Sdk.Shared.{Shared, ◌>>=◌, put, sstore, sload}
use fluentbase.Sdk.Shared.Laws.{IsWritable, Leaves, sstore-Leaves, bind-ok}
use fluentbase.Sdk.Shared.Bytes.{
  usize_bound, metadata_of, words_of, data_slot, read_metadata, write_zeros, write_chunks,
  clear_data, write_short, write_long, store, clear, load, load_data, read_chunks,
}

-- `read_metadata` finds a length.
abbrev pub IsReadable : ℕ → Type 0
IsReadable word = (m : ℕ × Bool) × (metadata_of word ≡ some m)

metadata_of-lt : (word : ℕ) (m : ℕ × Bool) → metadata_of word ≡ some m → m.0 < 2 ^ 32
unfolding metadata_of
metadata_of-lt word m e = ground (arith, e)

replicate-snoc : (n : ℕ) → replicate {A = ℕ} (suc n) 0 ≡ replicate n 0 ++ (0 ∷ [])
replicate-snoc zero = refl
replicate-snoc (suc n) = ap (λ l. 0 ∷ l) (replicate-snoc n)

from_be_bytes-pad :
    (n : ℕ) (bytes : List ℕ) → from_be_bytes (bytes ++ replicate (suc n) 0) % 256 ≡ 0
from_be_bytes-pad n bytes =
    let e : bytes ++ replicate (suc n) 0 ≡ (bytes ++ replicate n 0) ++ (0 ∷ []) =
      ap (λ l. bytes ++ l) (replicate-snoc n) ∙ sym (append_assoc bytes (replicate n 0) (0 ∷ [])) in
    ap (λ l. from_be_bytes l % 256) e ∙ omega (arith, from_be_bytes-snoc (bytes ++ replicate n 0) 0)

metadata_of-short :
    (word len : ℕ) → word % 256 ≡ len * 2 → len < 32 → metadata_of word ≡ some (len, false)
unfolding metadata_of
metadata_of-short word len e h =
    let half : len * 2 / 2 ≡ len = omega arith in
    let even : len * 2 % 2 ≡ 0 = omega arith in ground (arith, e, half, even)

metadata_of-long :
    (len : ℕ)
    → 32 ≤ len
    → len < 2 ^ 31
    → metadata_of ((len * 2 + 1) % usize_bound) ≡ some (len, true)
unfolding metadata_of
metadata_of-long len h k =
    let odd : (len * 2 + 1) % usize_bound % 256 % 2 ≡ 1 = omega arith in
    let half : (len * 2 + 1) % usize_bound / 2 ≡ len = omega arith in ground (arith, odd, half)

put-here : (k v : ℕ) (storage : ℕ → ℕ) → put k v storage k ≡ v
put-here k v storage = ground arith

short_word :
    (bytes : List ℕ)
    → length bytes < 32
    → (from_be_bytes (pad_word bytes) + length bytes * 2) % 256 ≡ length bytes * 2
unfolding pad_word
short_word bytes h =
    let e : 32 - length bytes ≡ suc (31 - length bytes) = omega arith in
    let p : from_be_bytes (bytes ++ replicate (32 - length bytes) 0) % 256 ≡ 0 =
      ap (λ n. from_be_bytes (bytes ++ replicate n 0) % 256) e
      ∙ from_be_bytes-pad (31 - length bytes) bytes in
    omega (arith, p)

module _ (host : Host) (base : ℕ) where
  -- A slot that the text does not use.
  abbrev pub IsOutside : ℕ → Type 0
  IsOutside k = (base ≢ k) × ((i : ℕ) → i < 2 ^ 32 → data_slot host base i ≢ k)

  -- What was written to slots of the text.
  abbrev pub IsLocal : (ℕ → ℕ) → (ℕ → ℕ) → Type 0
  IsLocal before after = (k : ℕ) → IsOutside k → after k ≡ before k

  put-IsLocal :
      (i v : ℕ) (before after : ℕ → ℕ)
      → i < 2 ^ 32
      → IsLocal (put (data_slot host base i) v before) after
      → IsLocal before after
  put-IsLocal i v before after h local k out = let d = out.1 i h in local k out ∙ ground (arith, d)

  module _ {E : Type 0} where
    write_zeros-IsLocal :
        (index n : ℕ) (s : Shared E)
        → IsWritable s
        → index + n < 2 ^ 32
        → (storage : ℕ → ℕ) × Leaves (write_zeros host base index n) s storage
          × IsLocal s.storage storage
    unfolding write_zeros
    write_zeros-IsLocal index zero s w h = (s.storage, refl, λ k out. refl)
    write_zeros-IsLocal index (suc n) s w h =
        let next = put (data_slot host base index) 0 s.storage in
        let (storage, run, local) =
          write_zeros-IsLocal (index + 1) n (record s { storage = next }) w (omega arith) in
        (
          storage,
          bind-ok (sstore (data_slot host base index) 0) (λ u. write_zeros host base (index + 1) n)
                s (record s { storage = next }) tt (sstore-Leaves (data_slot host base index) 0 s w)
              ∙ run,
          put-IsLocal index 0 s.storage storage (omega arith) local,
        )

    write_chunks-IsLocal :
        (index n : ℕ) (bytes : List ℕ) (s : Shared E)
        → IsWritable s
        → index + n < 2 ^ 32
        → (storage : ℕ → ℕ) × Leaves (write_chunks host base index n bytes) s storage
          × IsLocal s.storage storage
    unfolding write_chunks
    write_chunks-IsLocal index zero bytes s w h = (s.storage, refl, λ k out. refl)
    write_chunks-IsLocal index (suc n) bytes s w h =
        let word = from_be_bytes (pad_word (take 32 bytes)) in
        let next = put (data_slot host base index) word s.storage in
        let (storage, run, local) =
          write_chunks-IsLocal (index + 1) n (drop 32 bytes) (record s { storage = next }) w
            (omega arith) in
        (
          storage,
          bind-ok (sstore (data_slot host base index) word)
                (λ u. write_chunks host base (index + 1) n (drop 32 bytes)) s
                (record s { storage = next }) tt
                (sstore-Leaves (data_slot host base index) word s w)
              ∙ run,
          put-IsLocal index word s.storage storage (omega arith) local,
        )

    clear_data-IsLocal :
        (m : ℕ × Bool) (s : Shared E)
        → IsWritable s
        → m.0 < 2 ^ 32
        → (storage : ℕ → ℕ) × Leaves (clear_data host base m) s storage × IsLocal s.storage storage
    unfolding clear_data
    clear_data-IsLocal (len, is_long) s w h = elim (Bool-cases (is_long && ltb 31 len)) [
      | inl e ↦ rw e (write_zeros-IsLocal 0 (words_of len) s w (omega arith))
      | inr e ↦ rw e (s.storage, refl, λ k out. refl)
    ]

    write_text :
        (bytes : List ℕ) (s : Shared E)
        → IsWritable s
        → length bytes < 2 ^ 31
        → (storage : ℕ → ℕ) × ((if ltb (length bytes) 32
                then write_short host base bytes
                else write_long host base bytes)
              s
            ≡ (ok tt, record s { storage = storage }))
          × IsLocal s.storage storage
          × IsReadable (storage base)
    unfolding write_short write_long
    write_text bytes s w h = elim (Bool-cases (ltb (length bytes) 32)) [
      | inl e ↦
          let small = ltb→lt (length bytes) 32 e in
          let word = from_be_bytes (pad_word bytes) + length bytes * 2 in
          (
            put base word s.storage,
            rw e (sstore-Leaves base word s w),
            λ k out. let d = out.0 in ground (arith, d),
            (
              (length bytes, false),
              ap metadata_of (put-here base word s.storage)
                  ∙ metadata_of-short word (length bytes) (short_word bytes small) small,
            ),
          )
      | inr e ↦
          let long : 32 ≤ length bytes = ground (arith, e) in
          let word = (length bytes * 2 + 1) % usize_bound in
          let (storage, run, local) =
            write_chunks-IsLocal 0 (words_of (length bytes)) bytes s w (omega (arith, h)) in
          (
            put base word storage,
            rw e (
                bind-ok (write_chunks host base 0 (words_of (length bytes)) bytes)
                  (λ u. sstore base word) s (record s { storage = storage }) tt run
                ∙ sstore-Leaves base word (record s { storage = storage }) w),
            λ k out. (let d = out.0 in ground (arith, d)) ∙ local k out,
            (
              (length bytes, true),
              ap metadata_of (put-here base word storage) ∙ metadata_of-long (length bytes) long h,
            ),
          )
    ]

    read_metadata-ok :
        (m : ℕ × Bool) (s : Shared E)
        → metadata_of (s.storage base) ≡ some m
        → read_metadata host base s ≡ (ok m, s)
    unfolding read_metadata sload
    read_metadata-ok m s e = ground (arith, e)

    -- A readable text is replaced: the call returns, writes slots of the text only, and leaves a
    -- readable text.
    pub store-IsLocal :
        (bytes : List ℕ) (s : Shared E)
        → IsWritable s
        → IsReadable (s.storage base)
        → length bytes < 2 ^ 31
        → (storage : ℕ → ℕ) × Leaves (store host base bytes) s storage
          × IsLocal s.storage storage
          × IsReadable (storage base)
    unfolding store
    store-IsLocal bytes s w (m, e) h =
        let (storage, run, local) =
          clear_data-IsLocal m s w (metadata_of-lt (s.storage base) m e) in
        let s1 = record s { storage = storage } in
        let (storage', run', local', readable) = write_text bytes s1 w h in
        let last =
          if ltb (length bytes) 32
          then write_short host base bytes
          else write_long host base bytes in
        let rest = λ (old : ℕ × Bool). clear_data host base old >>= λ u. last in
        (
          storage',
          bind-ok (read_metadata host base) rest s s m (read_metadata-ok m s e)
              ∙ bind-ok (clear_data host base m) (λ u. last) s s1 tt run
              ∙ run',
          λ k out. local' k out ∙ local k out,
          readable,
        )

    pub clear-IsLocal :
        (s : Shared E)
        → IsWritable s
        → IsReadable (s.storage base)
        → (storage : ℕ → ℕ) × Leaves (clear host base) s storage
          × IsLocal s.storage storage
          × IsReadable (storage base)
    unfolding clear metadata_of
    clear-IsLocal s w (m, e) =
        let (storage, run, local) =
          clear_data-IsLocal m s w (metadata_of-lt (s.storage base) m e) in
        let s1 = record s { storage = storage } in
        let rest = λ (old : ℕ × Bool). clear_data host base old >>= λ u. sstore base 0 in
        (
          put base 0 storage,
          bind-ok (read_metadata host base) rest s s m (read_metadata-ok m s e)
              ∙ bind-ok (clear_data host base m) (λ u. sstore base 0) s s1 tt run
              ∙ sstore-Leaves base 0 s1 w,
          λ k out. (let d = out.0 in ground (arith, d)) ∙ local k out,
          ((0, false), ap metadata_of (put-here base 0 storage)),
        )

    read_chunks-ok :
        (index n len : ℕ) (s : Shared E)
        → (bytes : List ℕ) × (read_chunks host base index n len s ≡ (ok bytes, s))
    unfolding read_chunks sload
    read_chunks-ok index zero len s = ([], refl)
    read_chunks-ok index (suc n) len s =
        let (bytes, e) = read_chunks-ok (index + 1) n (len - 32) s in
        (take len (be_bytes 32 (s.storage (data_slot host base index))) ++ bytes, ground (arith, e))

    load_data-ok :
        (m : ℕ × Bool) (s : Shared E) → (bytes : List ℕ) × (load_data host base m s ≡ (ok bytes, s))
    unfolding load_data sload
    load_data-ok (len, true) s = read_chunks-ok 0 (words_of len) len s
    load_data-ok (len, false) s = (take len (be_bytes 32 (s.storage base)), refl)

    -- A readable text is read, and nothing changes.
    pub load-ok :
        (s : Shared E)
        → IsReadable (s.storage base)
        → (bytes : List ℕ) × (load host base s ≡ (ok bytes, s))
    unfolding load
    load-ok s (m, e) =
        let (bytes, run) = load_data-ok m s in
        (
          bytes,
          bind-ok (read_metadata host base) (load_data host base) s s m (read_metadata-ok m s e)
              ∙ run,
        )
