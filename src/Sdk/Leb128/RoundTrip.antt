-- ===== src/Sdk/Leb128/RoundTrip.antt =====
-- crates/sdk/src/leb128.rs: what `write::unsigned` writes, `read::unsigned` reads.
use fluentbase.Prelude.{
  ℕ, zero, suc, ◌+◌, ◌*◌, ◌/◌, ◌%◌, ◌^◌, ◌≤◌, ◌<◌, ◌≡◌, refl, ap, ◌∙◌, some, List, [], ◌∷◌, ◌++◌,
  ◌⊎◌, inl, inr, arith, length,
}
use native.Mathlib.Nat.{add-mul}
use fluentbase.Sdk.Leb128.{low_bits, write_loop, write_unsigned, read_loop, read_unsigned}

-- One round of the loops on the last byte, and on a byte that has others after it.
pub write_loop-last : (rounds val : ℕ) → val < 128 → write_loop (suc rounds) val ≡ some (val ∷ [])
unfolding write_loop low_bits
write_loop-last rounds val small = ground arith

pub write_loop-next :
    (rounds val : ℕ) (bytes : List ℕ)
    → 128 ≤ val
    → write_loop rounds (val / 128) ≡ some bytes
    → write_loop (suc rounds) val ≡ some ((val % 128 + 128) ∷ bytes)
unfolding write_loop low_bits
write_loop-next rounds val bytes large next = ground (arith, next)

read_loop-last :
    (result shift val : ℕ) (rest : List ℕ)
    → val < 128
    → (shift ≡ 63 → val ≤ 1)
    → read_loop result shift (val ∷ rest) ≡ inr (result + val * 2 ^ shift)
unfolding read_loop low_bits
read_loop-last result shift val rest small last = ground (arith, last)

read_loop-next :
    (result shift bits : ℕ) (rest : List ℕ)
    → bits < 128
    → shift < 63
    → read_loop result shift ((bits + 128) ∷ rest)
      ≡ read_loop (result + bits * 2 ^ shift) (shift + 7) rest
unfolding read_loop low_bits
read_loop-next result shift bits rest small below = ground arith

-- Seven places up are a factor of 128.
pub shifted : (shift : ℕ) → 2 ^ (shift + 7) ≡ 2 ^ shift * 128
shifted shift =
    ap (λ (k : ℕ). 2 ^ k) {y = suc (suc (suc (suc (suc (suc (suc shift))))))} (omega arith)
    ∙ doubled
  where
    doubled : 2 ^ suc (suc (suc (suc (suc (suc (suc shift)))))) ≡ 2 ^ shift * 128
    doubled = omega arith

swapped : (q p : ℕ) → q * (p * 128) ≡ q * 128 * p
swapped q p = grind arith

scaled : (shift val : ℕ) → val % 128 * 2 ^ shift + val / 128 * 2 ^ (shift + 7) ≡ val * 2 ^ shift
scaled shift val = omega (
  arith,
  add-mul (val % 128) (val / 128 * 128) (2 ^ shift),
  ap (λ (v : ℕ). v * 2 ^ shift) {x = val % 128 + val / 128 * 128} {y = val} (omega arith),
  ap (λ (p : ℕ). val / 128 * p) (shifted shift),
  swapped (val / 128) (2 ^ shift),
)

-- What `rounds` rounds write for `val` is not longer than that, and adds `val` at `shift` to the
-- number read so far.
IsReadBack : ℕ → ℕ → ℕ → ℕ → List ℕ → Type 0
IsReadBack rounds result shift val rest =
    (bytes : List ℕ) × (write_loop rounds val ≡ some bytes)
    × (length bytes ≤ rounds)
    × (read_loop result shift (bytes ++ rest) ≡ inr (result + val * 2 ^ shift))

IsReadBack-last :
    (rounds result shift val : ℕ) (rest : List ℕ)
    → val < 128
    → (shift ≡ 63 → val ≤ 1)
    → IsReadBack (suc rounds) result shift val rest
unfolding IsReadBack
IsReadBack-last rounds result shift val rest small last = (
  val ∷ [],
  write_loop-last rounds val small,
  omega arith,
  read_loop-last result shift val rest small last,
)

IsReadBack-next :
    (rounds result shift val : ℕ) (rest : List ℕ)
    → 128 ≤ val
    → shift < 63
    → IsReadBack rounds (result + val % 128 * 2 ^ shift) (shift + 7) (val / 128) rest
    → IsReadBack (suc rounds) result shift val rest
unfolding IsReadBack
IsReadBack-next rounds result shift val rest large below (bytes, written, short, read) = (
  (val % 128 + 128) ∷ bytes,
  write_loop-next rounds val bytes large written,
  omega arith,
  read_loop-next result shift (val % 128) (bytes ++ rest) (omega arith) below
      ∙ read
      ∙ ap inr (omega (arith, scaled shift val)),
)

pub one_or_more : (val : ℕ) → (val < 128) ⊎ (128 ≤ val)
one_or_more val = grind arith

-- With `rounds` after this one the shift is at most 63, and the last round has one bit left.
read_back :
    (rounds result shift val : ℕ) (rest : List ℕ)
    → shift + 7 * rounds ≡ 63
    → val * 2 ^ shift < 2 ^ 64
    → IsReadBack (suc rounds) result shift val rest
read_back zero result shift val rest at within =
    IsReadBack-last 0 result shift val rest (omega (arith, scale))
      (λ (e : shift ≡ 63). omega (arith, scale))
  where
    scale : val * 2 ^ shift ≡ val * 2 ^ 63
    scale = ap (λ (k : ℕ). val * 2 ^ k) {y = 63} (omega arith)
read_back (suc rounds) result shift val rest at within = elim (one_or_more val) [
  | inl small ↦
      IsReadBack-last (suc rounds) result shift val rest small
        (λ (e : shift ≡ 63). absurd (omega arith))
  | inr large ↦ IsReadBack-next (suc rounds) result shift val rest large (omega arith) (
      read_back rounds (result + val % 128 * 2 ^ shift) (shift + 7) (val / 128) rest (omega arith)
        (omega (arith, scaled shift val)))
]

-- A 64-bit value is written as at most ten bytes, for which ten rounds are enough, and reading them
-- gives the value back, whatever bytes follow.
pub write_unsigned-read_unsigned :
    (val : ℕ) (rest : List ℕ)
    → val < 2 ^ 64
    → (bytes : List ℕ) × (write_unsigned val ≡ some bytes)
      × (length bytes ≤ 10)
      × (read_unsigned (bytes ++ rest) ≡ inr val)
unfolding write_unsigned read_unsigned IsReadBack
write_unsigned-read_unsigned val rest fits =
    let (bytes, written, short, read) = read_back 9 0 0 val rest refl (omega arith) in
    (bytes, written, short, read ∙ ap inr (omega arith))
