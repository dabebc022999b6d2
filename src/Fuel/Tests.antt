-- ===== src/Fuel/Tests.antt =====
-- crates/types/src/block_fuel.rs at concrete sizes.
use fluentbase.Prelude.{ℕ, inr, ◌<◌, ◌≡◌, refl, arith}
use fluentbase.Fuel.{div_ceil, surcharge_of, calldata_quadratic_surcharge, validate_initial_tx_gas}
use fluentbase.Fuel.Surcharge.{validate_initial_tx_gas-large}

surcharge_run : calldata_quadratic_surcharge 1835008 ≡ 94671394
unfolding calldata_quadratic_surcharge surcharge_of div_ceil
surcharge_run = refl

-- Up to the threshold there is none.
threshold_run : calldata_quadratic_surcharge 131072 ≡ 0
unfolding calldata_quadratic_surcharge
threshold_run = refl

-- Two MiB of calldata at 16 gas a byte.
validate_initial_tx_gas-large_example :
    (total : ℕ) × (validate_initial_tx_gas {E = Unit {0}} (inr 33575432) 2097152 ≡ inr total)
    × (100000000 < total)
validate_initial_tx_gas-large_example =
    validate_initial_tx_gas-large {E = Unit {0}} 33575432 2097152 (omega arith) (omega arith)
      (omega arith) (omega arith)
