-- ===== src/Codec.antt =====
-- crates/codec, the Solidity ABI of static values: `Encoder<BE, 32, true, _>` for `u8`, `bool`,
-- `Address`, `FixedBytes<32>` and `Uint<256>`, and the encoding of `String`. A decoder answers
-- `none` for any `CodecError`: the callers drop its text.
pub mod Bounds
pub mod RoundTrip
use fluentbase.Prelude.{
  ℕ, ◌+◌, ◌-◌, ◌%◌, Bool, true, false, not, Option, none, some, List, [], ◌∷◌, ◌++◌, ltb, ◌==◌,
  if◌then◌else◌, length, take, drop, replicate,
}
use fluentbase.Prelude.Bytes.{be_bytes, from_be_bytes}

-- `buf[offset..offset + n]`
abbrev pub slice : ℕ → ℕ → List ℕ → List ℕ
slice offset n buf = take n (drop offset buf)

infixl 5 ◌>>=◌
abbrev pub ◌>>=◌ {ℓ κ} : {A : Type ℓ} {B : Type κ} → Option A → (A → Option B) → Option B
some a >>= f = f a
none >>= f = none

unfoldable pub decode_uint : List ℕ → ℕ → Option ℕ
decode_uint buf offset =
    if ltb (length buf) (offset + 32) then none else some (from_be_bytes (slice offset 32 buf))

unfoldable pub decode_address : List ℕ → ℕ → Option ℕ
decode_address buf offset =
    if ltb (length buf) (offset + 32)
    then none
    else some (from_be_bytes (slice (offset + 32 - 20) 20 buf))

-- `FixedBytes<32>`, kept as bytes.
unfoldable pub decode_bytes32 : List ℕ → ℕ → Option (List ℕ)
decode_bytes32 buf offset =
    if ltb (length buf) (offset + 32) then none else some (slice offset 32 buf)

unfoldable pub decode_u8 : List ℕ → ℕ → Option ℕ
decode_u8 buf offset =
    if ltb (length buf) (offset + 32)
    then none
    else some (from_be_bytes (slice (offset + 31) 1 buf))

unfoldable pub decode_bool : List ℕ → ℕ → Option Bool
unfolding decode_u8
decode_bool buf offset = do value ← decode_u8 buf offset; some (not (value == 0))

-- An `Address` or a `U256` as one word.
unfoldable pub encode_word : ℕ → List ℕ
unfolding be_bytes
encode_word v = be_bytes 32 v

unfoldable pub encode_u8 : ℕ → List ℕ
encode_u8 v = replicate 31 0 ++ (v ∷ [])

unfoldable pub encode_bool : Bool → List ℕ
unfolding encode_u8
encode_bool b = encode_u8 (if b then 1 else 0)

-- `String` at offset 0: the offset of the body, the length, the bytes, and zeros up to a word.
unfoldable pub encode_string : List ℕ → List ℕ
unfolding be_bytes
encode_string bytes =
    let padding = (32 - length bytes % 32) % 32 in
    be_bytes 32 32 ++ (be_bytes 32 (length bytes) ++ (bytes ++ replicate padding 0))
