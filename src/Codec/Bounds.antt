-- ===== src/Codec/Bounds.antt =====
-- The ranges of the decoded values of crates/codec: a byte, an address, a word.
use fluentbase.Prelude.{
  ℕ, ◌+◌, ◌-◌, ◌^◌, ◌≤◌, ◌<◌, ◌≡◌, subst, some, List, [], ◌∷◌, length, take, drop, All, arith, zero,
  suc, length-take, length-drop,
}
use fluentbase.Prelude.Bytes.{from_be_bytes, from_be_bytes-lt, IsByte}
use fluentbase.Codec.{slice, decode_uint, decode_address}

All-take : (n : ℕ) (bs : List ℕ) → All IsByte bs → All IsByte (take n bs)
All-take zero bs h = tt
All-take (suc n) [] h = tt
All-take (suc n) (b ∷ bs) (hb, h) = (hb, All-take n bs h)

pub All-drop : (n : ℕ) (bs : List ℕ) → All IsByte bs → All IsByte (drop n bs)
All-drop zero bs h = h
All-drop (suc n) [] h = tt
All-drop (suc n) (b ∷ bs) (hb, h) = All-drop n bs h

slice-lt :
    (offset n : ℕ) (buf : List ℕ)
    → All IsByte buf
    → offset + n ≤ length buf
    → from_be_bytes (slice offset n buf) < 256 ^ n
slice-lt offset n buf h len =
    let m : length (slice offset n buf) ≡ n =
      omega (arith, length-take n (drop offset buf), length-drop offset buf) in
    subst (λ i. from_be_bytes (slice offset n buf) < 256 ^ i) m
      (from_be_bytes-lt (slice offset n buf) (All-take n (drop offset buf) (All-drop offset buf h)))

pub decode_address-lt :
    (buf : List ℕ) (offset a : ℕ)
    → All IsByte buf
    → decode_address buf offset ≡ some a
    → a < 2 ^ 160
unfolding decode_address
decode_address-lt buf offset a h e =
    let lt = slice-lt (offset + 32 - 20) 20 buf h in ground (arith, lt)

pub decode_uint-lt :
    (buf : List ℕ) (offset v : ℕ) → All IsByte buf → decode_uint buf offset ≡ some v → v < 2 ^ 256
unfolding decode_uint
decode_uint-lt buf offset v h e = let lt = slice-lt offset 32 buf h in ground (arith, lt)
