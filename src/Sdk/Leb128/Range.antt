-- ===== src/Sdk/Leb128/Range.antt =====
-- crates/sdk/src/leb128.rs: the number that `read::unsigned` returns, against the value of the bytes
-- without a bound.
use fluentbase.Prelude.{
  ℕ, zero, suc, ◌+◌, ◌*◌, ◌%◌, ◌^◌, ◌≤◌, ◌<◌, ◌≡◌, ◌≢◌, refl, ap, ◌∙◌, Option, none, some, ltb,
  if◌then◌else◌, List, [], ◌∷◌, ◌⊎◌, inl, inr, arith,
}
use native.Mathlib.Nat.{mul-le-mul_right, pow-le-pow_right}
use fluentbase.Sdk.Leb128.RoundTrip.{shifted, one_or_more}
use fluentbase.Sdk.Leb128.{low_bits, read_loop, read_unsigned}

-- One round: the value is there, or the next round starts, seven places up and below 63.
read_loop-round :
    (result shift byte v : ℕ) (r : List ℕ)
    → read_loop result shift (byte ∷ r) ≡ inr v
    → ((shift ≡ 63 → byte ≤ 1) × (v ≡ result + byte % 128 * 2 ^ shift))
      ⊎ ((shift ≢ 63) × (read_loop (result + byte % 128 * 2 ^ shift) (shift + 7) r ≡ inr v))
unfolding read_loop low_bits
read_loop-round result shift byte v r h = ground arith

-- Seven more bits fill up to seven places up.
filled :
    (result shift byte : ℕ) → result < 2 ^ shift → result + byte % 128 * 2 ^ shift < 2 ^ (shift + 7)
filled result shift byte within =
    omega
      (arith, shifted shift, mul-le-mul_right {m = byte % 128} {n = 127} (2 ^ shift) (omega arith))

-- The last round has one bit left.
topped :
    (result shift byte v : ℕ)
    → shift ≡ 63
    → result < 2 ^ shift
    → byte ≤ 1
    → v ≡ result + byte % 128 * 2 ^ shift
    → v < 2 ^ 64
topped result shift byte v at within small e =
    omega (arith, ap (λ (k : ℕ). 2 ^ k) at, ap (λ (k : ℕ). byte % 128 * 2 ^ k) at)

-- With `rounds` more possible rounds the shift is at most 63.
read_loop-range :
    (r : List ℕ) (rounds result shift v : ℕ)
    → shift + 7 * rounds ≡ 63
    → result < 2 ^ shift
    → read_loop result shift r ≡ inr v
    → v < 2 ^ 64
unfolding read_loop
read_loop-range [] rounds result shift v at within h = absurd (ground arith)
read_loop-range (byte ∷ r) zero result shift v at within h =
    elim (read_loop-round result shift byte v r h) [
      | inl (last, e) ↦ topped result shift byte v (omega arith) within (last (omega arith)) e
      | inr (more, e) ↦ absurd (more (omega arith))
    ]
read_loop-range (byte ∷ r) (suc rounds) result shift v at within h =
    elim (read_loop-round result shift byte v r h) [
      | inl (last, e) ↦ omega (
        arith,
        filled result shift byte within,
        pow-le-pow_right {n = 2} (omega arith) {i = shift + 7} {j = 63} (omega arith),
      )
      | inr (more, e) ↦
          read_loop-range r rounds (result + byte % 128 * 2 ^ shift) (shift + 7) v (omega arith)
            (filled result shift byte within) e
    ]

-- The value of the groups of seven bits up to the first byte that has no bit set on top, of any size.
unfoldable pub value : List ℕ → Option ℕ
value [] = none
value (byte ∷ r) =
    if ltb byte 128
    then some byte
    else elim (value r) [ some w ↦ some (byte % 128 + 128 * w) | none ↦ none ]

-- One round on a last byte, and on one that has others after it.
read_loop-end :
    (result shift byte v : ℕ) (r : List ℕ)
    → byte < 128
    → read_loop result shift (byte ∷ r) ≡ inr v
    → v ≡ result + byte * 2 ^ shift
unfolding read_loop low_bits
read_loop-end result shift byte v r small h = ground arith

read_loop-more :
    (result shift byte v : ℕ) (r : List ℕ)
    → 128 ≤ byte
    → read_loop result shift (byte ∷ r) ≡ inr v
    → read_loop (result + byte % 128 * 2 ^ shift) (shift + 7) r ≡ inr v
unfolding read_loop low_bits
read_loop-more result shift byte v r large h = ground arith

spread : (b w p : ℕ) → b * p + w * (p * 128) ≡ (b + 128 * w) * p
spread b w p = grind arith

-- What the loop reads is added, at `shift`, to the number read so far.
read_loop-value :
    (r : List ℕ) (result shift v : ℕ)
    → read_loop result shift r ≡ inr v
    → (w : ℕ) × (value r ≡ some w) × (v ≡ result + w * 2 ^ shift)
unfolding read_loop value
read_loop-value [] result shift v h = absurd (ground arith)
read_loop-value (byte ∷ r) result shift v h = elim (one_or_more byte) [
  | inl small ↦ (byte, ground arith, read_loop-end result shift byte v r small h)
  | inr large ↦
      let (w, found, e) =
        read_loop-value r (result + byte % 128 * 2 ^ shift) (shift + 7) v
          (read_loop-more result shift byte v r large h) in
      (
        byte % 128 + 128 * w,
        ground (arith, found),
        omega (arith, e, ap (λ (p : ℕ). w * p) (shifted shift), spread (byte % 128) w (2 ^ shift)),
      )
]

-- Whatever the bytes are, a number that is read from them is their value, with none of its bits lost,
-- and that value is less than 2 ^ 64.
pub read_unsigned-value :
    (r : List ℕ) (v : ℕ) → read_unsigned r ≡ inr v → (value r ≡ some v) × (v < 2 ^ 64)
unfolding read_unsigned
read_unsigned-value r v h =
    let (w, found, e) = read_loop-value r 0 0 v h in
    (found ∙ ap some (omega (arith, e)), read_loop-range r 9 0 0 v refl (omega arith) h)
