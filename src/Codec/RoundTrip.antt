-- ===== src/Codec/RoundTrip.antt =====
-- The words of crates/codec are read back as they were written, wherever in a buffer they stand.
use fluentbase.Prelude.{
  ℕ, zero, suc, ◌+◌, ◌-◌, ◌/◌, ◌%◌, ◌^◌, ◌<◌, ◌≡◌, refl, sym, ap, ap₂, ◌∙◌, subst, Bool, true,
  false, some, List, [], ◌∷◌, ◌++◌, ltb, if◌then◌else◌, arith, length, take, drop, length-append,
  take-length_append,
}
use mathlib.Core.List.{append_assoc, append-nil}
use native.Mathlib.Nat.{pow-suc, div-div-eq-div-mul}
use fluentbase.Prelude.Bytes.{
  be_bytes, from_be_bytes, length-be_bytes, from_be_bytes-be_bytes, from_be_bytes-snoc,
}
use fluentbase.Codec.{
  slice, decode_uint, decode_address, decode_bytes32, decode_u8, decode_bool, encode_word,
  encode_u8, encode_bool,
}

drop-after :
    {A : Type 0} (xs ys : List A) (m k : ℕ) → length xs ≡ m → drop (m + k) (xs ++ ys) ≡ drop k ys
drop-after [] ys m k e = ap (λ n. drop n ys) (omega arith)
drop-after (x ∷ xs) ys zero k e = absurd (omega arith)
drop-after (x ∷ xs) ys (suc m) k e =
    let h : suc m + k ≡ suc (m + k) = omega arith in
    ap (λ n. drop n (x ∷ xs ++ ys)) h ∙ drop-after xs ys m k (omega arith)

-- A read behind a block is a read of what follows the block.
pub slice-after :
    (xs ys : List ℕ) (m k n : ℕ) → length xs ≡ m → slice (m + k) n (xs ++ ys) ≡ slice k n ys
slice-after xs ys m k n e = ap (λ l. take n l) (drop-after xs ys m k e)

pub slice-here : (xs ys : List ℕ) (n : ℕ) → length xs ≡ n → slice 0 n (xs ++ ys) ≡ xs
slice-here xs ys n e = subst (λ i. take i (xs ++ ys) ≡ xs) e (take-length_append xs ys)

module _ (xs ys : List ℕ) (m k : ℕ) (e : length xs ≡ m) where
  short : ltb (length (xs ++ ys)) (m + k + 32) ≡ ltb (length ys) (k + 32)
  short = let l = length-append xs ys in ground (arith, l, e)

  pub decode_uint-after : decode_uint (xs ++ ys) (m + k) ≡ decode_uint ys k
  unfolding decode_uint
  decode_uint-after = rw (short, slice-after xs ys m k 32 e) refl

  pub decode_bytes32-after : decode_bytes32 (xs ++ ys) (m + k) ≡ decode_bytes32 ys k
  unfolding decode_bytes32
  decode_bytes32-after = rw (short, slice-after xs ys m k 32 e) refl

  pub decode_address-after : decode_address (xs ++ ys) (m + k) ≡ decode_address ys k
  unfolding decode_address
  decode_address-after =
      let h : m + k + 32 - 20 ≡ m + (k + 32 - 20) = omega arith in
      rw (short, h, slice-after xs ys m (k + 32 - 20) 20 e) refl

  pub decode_u8-after : decode_u8 (xs ++ ys) (m + k) ≡ decode_u8 ys k
  unfolding decode_u8
  decode_u8-after =
      let h : m + k + 31 ≡ m + (k + 31) = omega arith in
      rw (short, h, slice-after xs ys m (k + 31) 1 e) refl

  pub decode_bool-after : decode_bool (xs ++ ys) (m + k) ≡ decode_bool ys k
  unfolding decode_bool
  decode_bool-after = rw decode_u8-after refl

pub length-encode_word : (v : ℕ) → length (encode_word v) ≡ 32
unfolding encode_word
length-encode_word v = length-be_bytes 32 v

room : (xs ys : List ℕ) → length xs ≡ 32 → ltb (length (xs ++ ys)) (0 + 32) ≡ false
room xs ys e = let l = length-append xs ys in ground (arith, l, e)

pub decode_bytes32-here : (xs ys : List ℕ) → length xs ≡ 32 → decode_bytes32 (xs ++ ys) 0 ≡ some xs
unfolding decode_bytes32
decode_bytes32-here xs ys e = rw (room xs ys e, slice-here xs ys 32 e) refl

pub decode_uint-encode_word :
    (v : ℕ) (ys : List ℕ) → v < 2 ^ 256 → decode_uint (encode_word v ++ ys) 0 ≡ some v
unfolding decode_uint encode_word
decode_uint-encode_word v ys h =
    let l = length-be_bytes 32 v in
    rw
      (
        room (be_bytes 32 v) ys l,
        slice-here (be_bytes 32 v) ys 32 l,
        from_be_bytes-be_bytes 32 v (omega arith),
      )
      refl

be_bytes_step : (n v : ℕ) → be_bytes (suc n) v ≡ be_bytes n (v / 256) ++ (v % 256 ∷ [])
unfolding be_bytes
be_bytes_step n v = refl

be_bytes_none : (v : ℕ) → be_bytes 0 v ≡ []
unfolding be_bytes
be_bytes_none v = refl

suc-add : (n m : ℕ) → suc n + m ≡ suc (n + m)
suc-add n m = omega arith

low-digits : (n v : ℕ) → v / 256 / 256 ^ n ≡ v / 256 ^ suc n
low-digits n v =
    div-div-eq-div-mul v 256 (256 ^ n) ∙ ap (λ (d : ℕ). v / d) (omega (arith, pow-suc 256 n))

-- The low digits stand last.
be_bytes-split : (m n v : ℕ) → be_bytes (n + m) v ≡ be_bytes m (v / 256 ^ n) ++ be_bytes n v
be_bytes-split m zero v =
    ap₂ be_bytes (omega arith) (omega arith)
    ∙ sym (append-nil (be_bytes m (v / 256 ^ 0)))
    ∙ ap (λ l. be_bytes m (v / 256 ^ 0) ++ l) (sym (be_bytes_none v))
be_bytes-split m (suc n) v =
    ap (λ k. be_bytes k v) (suc-add n m)
    ∙ be_bytes_step (n + m) v
    ∙ ap (λ l. l ++ (v % 256 ∷ [])) (be_bytes-split m n (v / 256))
    ∙ append_assoc (be_bytes m (v / 256 / 256 ^ n)) (be_bytes n (v / 256)) (v % 256 ∷ [])
    ∙ ap₂ (λ d l. be_bytes m d ++ l) (low-digits n v) (sym (be_bytes_step n v))

pub decode_address-encode_word :
    (v : ℕ) (ys : List ℕ) → v < 2 ^ 160 → decode_address (encode_word v ++ ys) 0 ≡ some v
unfolding decode_address encode_word
decode_address-encode_word v ys h =
    let high = be_bytes 12 (v / 256 ^ 20) in
    let parts : be_bytes 32 v ++ ys ≡ high ++ (be_bytes 20 v ++ ys) =
      ap (λ l. l ++ ys) (be_bytes-split 12 20 v) ∙ append_assoc high (be_bytes 20 v) ys in
    let word : slice 12 20 (be_bytes 32 v ++ ys) ≡ be_bytes 20 v =
      ap (λ l. slice 12 20 l) parts
      ∙ slice-after high (be_bytes 20 v ++ ys) 12 0 20 (length-be_bytes 12 (v / 256 ^ 20))
      ∙ slice-here (be_bytes 20 v) ys 20 (length-be_bytes 20 v) in
    rw
      (
        room (be_bytes 32 v) ys (length-be_bytes 32 v),
        word,
        from_be_bytes-be_bytes 20 v (omega arith),
      )
      refl

pub length-encode_u8 : (v : ℕ) → length (encode_u8 v) ≡ 32
unfolding encode_u8
length-encode_u8 v = refl

pub decode_u8-encode_u8 : (v : ℕ) (ys : List ℕ) → decode_u8 (encode_u8 v ++ ys) 0 ≡ some v
unfolding decode_u8 encode_u8 from_be_bytes
decode_u8-encode_u8 v ys =
    rw (room (encode_u8 v) ys (length-encode_u8 v), from_be_bytes-snoc [] v) (ap some (omega arith))

pub decode_bool-encode_bool :
    (b : Bool) (ys : List ℕ) → decode_bool (encode_bool b ++ ys) 0 ≡ some b
unfolding decode_bool encode_bool
decode_bool-encode_bool true ys = rw (decode_u8-encode_u8 1 ys) refl
decode_bool-encode_bool false ys = rw (decode_u8-encode_u8 0 ys) refl

pub length-encode_bool : (b : Bool) → length (encode_bool b) ≡ 32
unfolding encode_bool
length-encode_bool b = length-encode_u8 (if b then 1 else 0)
