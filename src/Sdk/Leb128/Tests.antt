-- ===== src/Sdk/Leb128/Tests.antt =====
-- crates/sdk/src/leb128.rs on concrete bytes.
use fluentbase.Prelude.{
  ℕ, ◌^◌, ◌≤◌, ◌<◌, ◌≡◌, refl, some, List, [], ◌∷◌, ◌++◌, inl, inr, arith, length,
}
use fluentbase.Sdk.Leb128.{
  low_bits, write_loop, write_unsigned, Error, skip, read_loop, read_unsigned,
}
use fluentbase.Sdk.Leb128.RoundTrip.{write_unsigned-read_unsigned}
use fluentbase.Sdk.Leb128.Range.{value, read_unsigned-value}

write_run : write_unsigned 624485 ≡ some (0xe5 ∷ 0x8e ∷ 0x26 ∷ [])
unfolding write_unsigned write_loop low_bits
write_run = refl

eof_run : read_unsigned (0xe5 ∷ 0x8e ∷ []) ≡ inl Error.unexpected_eof
unfolding read_unsigned read_loop low_bits skip
eof_run = refl

overflow_run :
    read_unsigned (128 ∷ 128 ∷ 128 ∷ 128 ∷ 128 ∷ 128 ∷ 128 ∷ 128 ∷ 128 ∷ 2 ∷ [])
    ≡ inl Error.overflow
unfolding read_unsigned read_loop low_bits skip
overflow_run = refl

write_unsigned-read_unsigned_example :
    (bytes : List ℕ) × (write_unsigned 624485 ≡ some bytes)
    × (length bytes ≤ 10)
    × (read_unsigned (bytes ++ (7 ∷ [])) ≡ inr 624485)
write_unsigned-read_unsigned_example = write_unsigned-read_unsigned 624485 (7 ∷ []) (omega arith)

abbrev largest : List ℕ
largest = 255 ∷ 255 ∷ 255 ∷ 255 ∷ 255 ∷ 255 ∷ 255 ∷ 255 ∷ 255 ∷ 1 ∷ []

largest_run : read_unsigned largest ≡ inr 0xffffffffffffffff
unfolding read_unsigned read_loop low_bits skip
largest_run = refl

read_unsigned-value_example :
    (value largest ≡ some 0xffffffffffffffff) × (0xffffffffffffffff < 2 ^ 64)
read_unsigned-value_example = read_unsigned-value largest 0xffffffffffffffff largest_run
