-- ===== src/Sdk/Leb128.antt =====
-- crates/sdk/src/leb128.rs: unsigned numbers as bytes of seven bits, the lowest first.
pub mod RoundTrip
pub mod Range
pub mod Tests
use fluentbase.Prelude.{
  ℕ, zero, suc, ◌+◌, ◌*◌, ◌/◌, ◌%◌, ◌^◌, Option, none, some, List, [], ◌∷◌, ◌⊎◌, inl, inr, not, ltb,
  ◌==◌, ◌&&◌, if◌then◌else◌,
}
use mathlib.Core.Option

-- `CONTINUATION_BIT`
abbrev pub continuation_bit : ℕ
continuation_bit = 128

-- `low_bits_of_byte`, and `low_bits_of_u64` of a value: the lowest seven bits.
unfoldable pub low_bits : ℕ → ℕ
low_bits val = val % continuation_bit

-- The loop of `write::unsigned`; the number of rounds left is fuel. Setting the bit that
-- `low_bits` has cleared adds it.
unfoldable pub write_loop : ℕ → ℕ → Option (List ℕ)
write_loop zero val = none
write_loop (suc rounds) val =
    let rest = write_loop rounds (val / 128) in
    let byte = low_bits val in
    if val / 128 == 0
    then some (byte ∷ [])
    else Option.map (λ (bytes : List ℕ). (byte + continuation_bit) ∷ bytes) rest

-- `write::unsigned` of a 64-bit value, in at most ten rounds.
unfoldable pub write_unsigned : ℕ → Option (List ℕ)
write_unsigned val = write_loop 10 val

pub data Error : Type 0 where
  unexpected_eof : Error
  overflow : Error

-- The bytes of a number that is too large, up to one without the bit.
unfoldable pub skip : ℕ → List ℕ → Error
skip byte [] = if ltb byte continuation_bit then Error.overflow else Error.unexpected_eof
skip byte (next ∷ r) =
    let rest = skip next r in if ltb byte continuation_bit then Error.overflow else rest

-- The loop of `read::unsigned`. The bits that are set by `|=` lie above those of `result`.
unfoldable pub read_loop : ℕ → ℕ → List ℕ → Error ⊎ ℕ
read_loop result shift [] = inl Error.unexpected_eof
read_loop result shift (byte ∷ r) =
    let updated = result + low_bits byte * 2 ^ shift in
    let rest = read_loop updated (shift + 7) r in
    if (shift == 63) && (not (byte == 0) && not (byte == 1))
    then inl (skip byte r)
    else if ltb byte continuation_bit
    then inr updated
    else rest

unfoldable pub read_unsigned : List ℕ → Error ⊎ ℕ
read_unsigned r = read_loop 0 0 r
