-- ===== src/Prelude/Bytes.antt =====
-- Big-endian bytes: `U256::to_be_bytes` and `from_be_bytes`, `u32::from_be_bytes`, over numbers.
use fluentbase.Prelude.{
  ℕ, zero, suc, ◌+◌, ◌*◌, ◌/◌, ◌%◌, ◌^◌, ◌<◌, ◌≤◌, ◌≡◌, refl, sym, subst, Bool, true, false, ◌&&◌,
  ◌==◌, List, [], ◌∷◌, ◌++◌, arith, length, All, length-append,
}
use native.Mathlib.Nat.{pow-suc}

-- The last `n` bytes of `v`, the most significant one first.
unfoldable pub be_bytes : ℕ → ℕ → List ℕ
be_bytes zero v = []
be_bytes (suc n) v = be_bytes n (v / 256) ++ (v % 256 ∷ [])

from_be_acc : ℕ → List ℕ → ℕ
from_be_acc acc [] = acc
from_be_acc acc (b ∷ bs) = from_be_acc (acc * 256 + b) bs

-- Equality of byte strings.
unfoldable pub bytes_eq : List ℕ → List ℕ → Bool
bytes_eq [] [] = true
bytes_eq [] (b ∷ bs) = false
bytes_eq (a ∷ xs) [] = false
bytes_eq (a ∷ xs) (b ∷ bs) = a == b && bytes_eq xs bs

-- The number that a string of bytes stands for.
unfoldable pub from_be_bytes : List ℕ → ℕ
unfolding from_be_acc
from_be_bytes = from_be_acc 0

pub length-be_bytes : (n v : ℕ) → length (be_bytes n v) ≡ n
unfolding be_bytes
length-be_bytes zero v = refl
length-be_bytes (suc n) v =
    omega (arith, length-append (be_bytes n (v / 256)) (v % 256 ∷ []), length-be_bytes n (v / 256))

from_be_acc-append :
    (acc : ℕ) (xs ys : List ℕ) → from_be_acc acc (xs ++ ys) ≡ from_be_acc (from_be_acc acc xs) ys
unfolding from_be_acc
from_be_acc-append acc [] ys = refl
from_be_acc-append acc (x ∷ xs) ys = from_be_acc-append (acc * 256 + x) xs ys

-- What is appended counts in the low digits.
pub from_be_bytes-snoc :
    (xs : List ℕ) (b : ℕ) → from_be_bytes (xs ++ (b ∷ [])) ≡ from_be_bytes xs * 256 + b
unfolding from_be_bytes
from_be_bytes-snoc xs b = from_be_acc-append 0 xs (b ∷ [])

be_bytes_step : (n v : ℕ) → be_bytes (suc n) v ≡ be_bytes n (v / 256) ++ (v % 256 ∷ [])
unfolding be_bytes
be_bytes_step n v = refl

div-lt-pow : (n v : ℕ) → v < 256 ^ suc n → v / 256 < 256 ^ n
div-lt-pow n v h = let q = pow-suc 256 n in omega (arith, q)

-- Reading back `n` bytes gives the number, if it fits them.
pub from_be_bytes-be_bytes : (n v : ℕ) → v < 256 ^ n → from_be_bytes (be_bytes n v) ≡ v
from_be_bytes-be_bytes zero v h = unfold be_bytes from_be_bytes in omega arith
from_be_bytes-be_bytes (suc n) v h =
    rw
      (be_bytes_step n v, from_be_bytes-snoc, from_be_bytes-be_bytes n (v / 256) (div-lt-pow n v h))
      (omega arith)

-- Every element is a byte.
abbrev pub IsByte : ℕ → Type 0
IsByte b = b < 256

room : (acc b p : ℕ) → b < 256 → (acc * 256 + b + 1) * p ≤ (acc + 1) * (p * 256)
room acc b p h = grind arith

trans-<-≤ : {a b c : ℕ} → a < b → b ≤ c → a < c
trans-<-≤ h k = omega arith

from_be_acc-lt :
    (bs : List ℕ) (acc : ℕ) → All IsByte bs → from_be_acc acc bs < (acc + 1) * 256 ^ length bs
unfolding from_be_acc
from_be_acc-lt [] acc h = omega arith
from_be_acc-lt (b ∷ bs) acc (hb, h) = trans-<-≤ (from_be_acc-lt bs (acc * 256 + b) h) (
    subst (λ p. (acc * 256 + b + 1) * 256 ^ length bs ≤ (acc + 1) * p)
      (sym (pow-suc 256 (length bs))) (room acc b (256 ^ length bs) hb))

-- `n` bytes stand for a number below 256 ^ n.
pub from_be_bytes-lt : (bs : List ℕ) → All IsByte bs → from_be_bytes bs < 256 ^ length bs
unfolding from_be_bytes
from_be_bytes-lt bs h = omega (arith, from_be_acc-lt bs 0 h)
