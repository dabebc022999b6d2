-- ===== src/Fuel/Surcharge.antt =====
-- crates/types/src/block_fuel.rs: what the surcharge on calldata amounts to.
use fluentbase.Prelude.{ℕ, ◌+◌, ◌-◌, ◌*◌, ◌/◌, ◌%◌, ◌^◌, ◌≤◌, ◌<◌, ◌≡◌, refl, inr, arith}
use fluentbase.Fuel.{div_ceil, surcharge_of, calldata_quadratic_surcharge, validate_initial_tx_gas}
use native.Mathlib.Nat.{mul-le-mul}

-- The words of the calldata that lie above the threshold.
unfoldable pub excess_words : ℕ → ℕ
excess_words n = (n - 131072 + 31) / 32

-- The surcharge over the numbers without a bound.
unfoldable pub unbounded : ℕ → ℕ
unbounded w = 3 * w + w * w / 30

square-bound : (w : ℕ) → w ≤ 2 ^ 31 → w * w ≤ 2 ^ 62
square-bound w bound = mul-le-mul bound bound

surcharge_of-unbounded : (w : ℕ) → w ≤ 2 ^ 31 → surcharge_of w ≡ unbounded w
unfolding surcharge_of unbounded
surcharge_of-unbounded w bound = omega (arith, square-bound w bound)

excess_words-bound : (n : ℕ) → n ≤ 2 ^ 36 → excess_words n ≤ 2 ^ 31
unfolding excess_words
excess_words-bound n bound = omega arith

surcharge-unbounded :
    (n : ℕ) → n ≤ 2 ^ 36 → calldata_quadratic_surcharge n ≡ unbounded (excess_words n)
unfolding calldata_quadratic_surcharge excess_words div_ceil unbounded
surcharge-unbounded n bound =
    ground (arith, surcharge_of-unbounded (excess_words n) (excess_words-bound n bound))

unbounded-split : (v w u : ℕ) → v + w ≤ u → unbounded v + unbounded w ≤ unbounded u
unfolding unbounded
unbounded-split v w u within = omega (arith, squares)
  where
    squares : v * v + w * w ≤ u * u
    squares = grind (arith, mul-le-mul within within)

excess_words-split : (m n : ℕ) → excess_words m + excess_words n ≤ excess_words (m + n)
unfolding excess_words
excess_words-split m n = omega arith

-- Two inputs of at most 2 ^ 36 bytes together pay surcharges that add up to at most the surcharge of
-- one input of both lengths.
calldata_quadratic_surcharge-split :
    (m n : ℕ)
    → m + n ≤ 2 ^ 36
    → calldata_quadratic_surcharge m + calldata_quadratic_surcharge n
      ≤ calldata_quadratic_surcharge (m + n)
calldata_quadratic_surcharge-split m n bound = omega (
  arith,
  surcharge-unbounded m (omega arith),
  surcharge-unbounded n (omega arith),
  surcharge-unbounded (m + n) bound,
  unbounded-split (excess_words m) (excess_words n) (excess_words (m + n)) (excess_words-split m n),
)

-- The surcharge of fourteen times the threshold.
large-words : (w : ℕ) → 53248 ≤ w → 94671394 ≤ unbounded w
unfolding unbounded
large-words w large = omega (arith, mul-le-mul large large)

unbounded-bound : (w : ℕ) → w ≤ 2 ^ 31 → unbounded w < 2 ^ 62
unfolding unbounded
unbounded-bound w bound = omega (arith, square-bound w bound)

excess_words-large : (n : ℕ) → 14 * 131072 ≤ n → 53248 ≤ excess_words n
unfolding excess_words
excess_words-large n large = omega arith

-- An input of at least 14 * 128 KB, and at most 2 ^ 36 bytes, for which the validation charges at
-- least 4 gas a byte and less than 2 ^ 63 in all, costs more than the 100 million gas of a block.
pub validate_initial_tx_gas-large :
    {E : Type 0} (gas n : ℕ)
    → 14 * 131072 ≤ n
    → n ≤ 2 ^ 36
    → 4 * n ≤ gas
    → gas < 2 ^ 63
    → (total : ℕ) × (validate_initial_tx_gas {E = E} (inr gas) n ≡ inr total) × (100000000 < total)
unfolding validate_initial_tx_gas
validate_initial_tx_gas-large gas n large bound linear fits = (
  (gas + calldata_quadratic_surcharge n) % 2 ^ 64,
  refl,
  omega (
    arith,
    surcharge-unbounded n bound,
    large-words (excess_words n) (excess_words-large n large),
    unbounded-bound (excess_words n) (excess_words-bound n bound),
  ),
)
