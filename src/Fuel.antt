-- ===== src/Fuel.antt =====
-- crates/types/src/block_fuel.rs: the surcharge on large calldata, and the gas that
-- crates/revm/src/handler.rs charges before a transaction runs.
pub mod Surcharge
pub mod Tests
use fluentbase.Prelude.{ℕ, ◌+◌, ◌-◌, ◌*◌, ◌/◌, ◌%◌, ◌^◌, leb, ◌⊎◌, inl, inr, if◌then◌else◌}

abbrev pub calldata_quadratic_threshold : ℕ
calldata_quadratic_threshold = 128 * 1024

abbrev pub calldata_quadratic_divisor : ℕ
calldata_quadratic_divisor = 30

-- `u64::div_ceil`, the library's rounding up.
unfoldable pub div_ceil : ℕ → ℕ → ℕ
div_ceil n d = (n + (d - 1)) / d

-- The last line of `calldata_quadratic_surcharge`, whose operations wrap at 2 ^ 64.
unfoldable pub surcharge_of : ℕ → ℕ
surcharge_of words =
    (3 * words % 2 ^ 64 + words * words % 2 ^ 64 / calldata_quadratic_divisor) % 2 ^ 64

unfoldable pub calldata_quadratic_surcharge : ℕ → ℕ
calldata_quadratic_surcharge input_len =
    if leb input_len calldata_quadratic_threshold
    then 0
    else surcharge_of (div_ceil (input_len - calldata_quadratic_threshold) 32)

-- The handler on what `validation::validate_initial_tx_gas` of revm has returned: an error, which it
-- passes on, or the `initial_total_gas` that it raises.
unfoldable pub validate_initial_tx_gas : {E : Type 0} → E ⊎ ℕ → ℕ → E ⊎ ℕ
validate_initial_tx_gas (inl e) input_len = inl e
validate_initial_tx_gas (inr gas) input_len =
    inr ((gas + calldata_quadratic_surcharge input_len) % 2 ^ 64)
