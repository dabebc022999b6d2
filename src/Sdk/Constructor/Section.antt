-- ===== src/Sdk/Constructor/Section.antt =====
-- crates/sdk/src/constructor.rs: what a reader of the section finds.
use fluentbase.Prelude.{
  ℕ, ◌+◌, ◌%◌, ◌^◌, ◌/◌, ◌≤◌, ◌<◌, ◌≡◌, ◌≢◌, refl, sym, subst, ap, ◌∙◌, ◌⊎◌, inl, zero, suc, Option,
  none, some, List, [], ◌∷◌, ◌++◌, inr, arith, length, true, ltb, leb, ◌==◌, if◌then◌else◌, take,
  drop, take-length_append, drop-length_append, length-append,
}
use fluentbase.Sdk.Leb128.{Error, low_bits, write_loop, write_unsigned, read_unsigned}
use fluentbase.Sdk.Leb128.RoundTrip.{
  write_unsigned-read_unsigned, one_or_more, write_loop-last, write_loop-next,
}
use fluentbase.Sdk.Constructor.{section_of, with_name_length, encode_wasm_custom_section}

-- The bytes behind a number: those after the first byte that has no bit set on top.
unfoldable pub after_unsigned : List ℕ → List ℕ
after_unsigned [] = []
after_unsigned (byte ∷ r) = if ltb byte 128 then r else after_unsigned r

-- A reader of the format: a name of the given length, and then the payload.
unfoldable pub read_name : List ℕ → Error ⊎ ℕ → Option (List ℕ × List ℕ)
read_name r (inl e) = none
read_name r (inr n) = if leb n (length r) then some (take n r, drop n r) else none

-- The contents have exactly the given length.
unfoldable pub read_contents : List ℕ → Error ⊎ ℕ → Option (List ℕ × List ℕ)
unfolding read_name
read_contents r (inl e) = none
read_contents r (inr n) =
    if length r == n then read_name (after_unsigned r) (read_unsigned r) else none

-- The identifier 0, the length of the contents, and the contents.
unfoldable pub read_section : List ℕ → Option (List ℕ × List ℕ)
unfolding read_contents
read_section [] = none
read_section (id ∷ r) = if id == 0 then read_contents (after_unsigned r) (read_unsigned r) else none

some_inj : {A : Type 0} {x y : A} (o : Option A) → o ≡ some x → o ≡ some y → x ≡ y
some_inj o h k = cc

after_last : (byte : ℕ) (rest : List ℕ) → byte < 128 → after_unsigned ((byte ∷ []) ++ rest) ≡ rest
unfolding after_unsigned
after_last byte rest small = ground arith

after_next :
    (val : ℕ) (bytes rest : List ℕ)
    → after_unsigned (((val % 128 + 128) ∷ bytes) ++ rest) ≡ after_unsigned (bytes ++ rest)
unfolding after_unsigned
after_next val bytes rest = ground arith

none_written :
    (rounds val : ℕ) (bytes : List ℕ)
    → 128 ≤ val
    → write_loop rounds (val / 128) ≡ none
    → write_loop (suc rounds) val ≢ some bytes
unfolding write_loop low_bits
none_written rounds val bytes large e h = ground (arith, e, h)

no_rounds : (val : ℕ) (bytes : List ℕ) → write_loop zero val ≢ some bytes
unfolding write_loop
no_rounds val bytes h = cc

-- The step of the proof below: `o` is what the other rounds write.
after_unsigned-more :
    (rounds val : ℕ) (o : Option (List ℕ)) (bytes rest : List ℕ)
    → 128 ≤ val
    → write_loop rounds (val / 128) ≡ o
    → ((b : List ℕ) → o ≡ some b → after_unsigned (b ++ rest) ≡ rest)
    → write_loop (suc rounds) val ≡ some bytes
    → after_unsigned (bytes ++ rest) ≡ rest
after_unsigned-more rounds val none bytes rest large e ih h =
    absurd (none_written rounds val bytes large e h)
after_unsigned-more rounds val (some b) bytes rest large e ih h =
    subst (λ x. after_unsigned (x ++ rest) ≡ rest)
      (some_inj (write_loop (suc rounds) val) (write_loop-next rounds val b large e) h)
      (after_next val b rest ∙ ih b refl)

-- What follows a number that is written is what is behind it for the reader.
after_unsigned-write_loop :
    (rounds val : ℕ) (bytes rest : List ℕ)
    → write_loop rounds val ≡ some bytes
    → after_unsigned (bytes ++ rest) ≡ rest
after_unsigned-write_loop zero val bytes rest h = absurd (no_rounds val bytes h)
after_unsigned-write_loop (suc rounds) val bytes rest h = elim (one_or_more val) [
  | inl small ↦
      subst (λ b. after_unsigned (b ++ rest) ≡ rest)
        (some_inj (write_loop (suc rounds) val) (write_loop-last rounds val small) h)
        (after_last val rest small)
  | inr large ↦
      after_unsigned-more rounds val (write_loop rounds (val / 128)) bytes rest large refl
        (λ b e. after_unsigned-write_loop rounds (val / 128) b rest e) h
]

after_unsigned-write_unsigned :
    (val : ℕ) (bytes rest : List ℕ)
    → write_unsigned val ≡ some bytes
    → after_unsigned (bytes ++ rest) ≡ rest
unfolding write_unsigned
after_unsigned-write_unsigned val bytes rest h = after_unsigned-write_loop 10 val bytes rest h

read_name-append :
    (name payload : List ℕ) → read_name (name ++ payload) (inr (length name)) ≡ some (name, payload)
unfolding read_name
read_name-append name payload =
    let t = take-length_append name payload in
    let d = drop-length_append name payload in
    let l = length-append name payload in ground (arith, t, d, l)

lengths :
    (xs ys zs : List ℕ)
    → length (xs ++ (ys ++ zs)) < 2 ^ 64
    → (length xs + length ys + length zs) % 2 ^ 64 ≡ length (xs ++ (ys ++ zs))
lengths xs ys zs fits = omega (arith, length-append xs (ys ++ zs), length-append ys zs)

read_contents-named :
    (r : List ℕ) (n m : ℕ)
    → length r ≡ n
    → read_unsigned r ≡ inr m
    → read_contents r (inr n) ≡ read_name (after_unsigned r) (inr m)
unfolding read_contents
read_contents-named r n m l e =
    let same : (length r == n) ≡ true = ground (arith, l) in
    ap (λ b. if b then read_name (after_unsigned r) (read_unsigned r) else none) same
    ∙ ap (read_name (after_unsigned r)) e

-- The reader on a section whose two lengths are written as numbers.
read_section-section_of :
    (content_length name_length name payload : List ℕ) (n : ℕ)
    → write_unsigned n ≡ some content_length
    → read_unsigned (content_length ++ (name_length ++ (name ++ payload))) ≡ inr n
    → length (name_length ++ (name ++ payload)) ≡ n
    → write_unsigned (length name) ≡ some name_length
    → read_unsigned (name_length ++ (name ++ payload)) ≡ inr (length name)
    → read_section (section_of content_length name_length name payload) ≡ some (name, payload)
unfolding read_section section_of
read_section-section_of content_length name_length name payload n cw cr cl nw nr =
    let body : List ℕ = name_length ++ (name ++ payload) in
    ap (read_contents (after_unsigned (content_length ++ body))) cr
    ∙ ap (λ r. read_contents r (inr n)) (after_unsigned-write_unsigned n content_length body cw)
    ∙ read_contents-named body n (length name) cl nr
    ∙ ap (λ r. read_name r (inr (length name)))
        (after_unsigned-write_unsigned (length name) name_length (name ++ payload) nw)
    ∙ read_name-append name payload

with_name_length-read_section :
    (name payload name_length : List ℕ)
    → length (name_length ++ (name ++ payload)) < 2 ^ 64
    → write_unsigned (length name) ≡ some name_length
    → read_unsigned (name_length ++ (name ++ payload)) ≡ inr (length name)
    → (section : List ℕ) × (with_name_length name payload name_length ≡ some section)
      × (read_section section ≡ some (name, payload))
unfolding with_name_length
with_name_length-read_section name payload name_length fits written named =
    let n = (length name_length + length name + length payload) % 2 ^ 64 in
    let (content_length, made, short, read) =
      write_unsigned-read_unsigned n (name_length ++ (name ++ payload)) (omega arith) in
    (
      section_of content_length name_length name payload,
      ground (arith, made),
      read_section-section_of content_length name_length name payload n made read
          (sym (lengths name_length name payload fits)) written named,
    )

-- A section of fewer than 2 ^ 63 bytes of name and payload is written, and a reader of the format,
-- which takes the contents only if they have exactly the length in front of them, gets the name and
-- the payload back.
pub encode_wasm_custom_section-read_section :
    (name payload : List ℕ)
    → length name + length payload < 2 ^ 63
    → (section : List ℕ) × (encode_wasm_custom_section name payload ≡ some section)
      × (read_section section ≡ some (name, payload))
unfolding encode_wasm_custom_section
encode_wasm_custom_section-read_section name payload fits =
    let small : length name % 2 ^ 64 ≡ length name = omega arith in
    let (name_length, written, short, read) =
      write_unsigned-read_unsigned (length name % 2 ^ 64) (name ++ payload) (omega arith) in
    let (section, made, found) =
      with_name_length-read_section name payload name_length
        (omega (arith, length-append name_length (name ++ payload), length-append name payload))
        (ap write_unsigned (sym small) ∙ written) (read ∙ ap inr small) in
    (section, ground (arith, written, made), found)
