-- ===== src/Eip2935.antt =====
-- contracts/eip2935/src/lib.rs: the contract that serves the hashes of recent blocks. Its address is
-- commented out of `EXECUTE_USING_SYSTEM_RUNTIME_ADDRESSES`, so it runs as an ordinary contract.
pub mod History
pub mod Tests
use fluentbase.Prelude.{
  ℕ, ◌-◌, ◌*◌, ◌%◌, ◌^◌, Option, none, some, List, [], ◌∷◌, not, ltb, ◌==◌, ◌||◌, if◌then◌else◌,
  length, take,
}
use fluentbase.Prelude.Bytes.{be_bytes, from_be_bytes}
use fluentbase.Types.ExitCode.{ExitCode}
use fluentbase.Sdk.Shared.{
  Call, ◌>>=◌, ◌>>◌, pure, native_exit, gets, sload, sstore, charge_fuel, write,
}

-- The contract emits no event.
abbrev pub Action : Type 0 → Type 0
Action A = Call (Unit {0}) A

abbrev pub fuel_denom_rate : ℕ
fuel_denom_rate = 20

abbrev pub system_address : ℕ
system_address = 0xfffffffffffffffffffffffffffffffffffffffe

-- `EIP2935_HISTORY_SERVE_WINDOW`
abbrev pub history_serve_window : ℕ
history_serve_window = 8191

abbrev pub gas_bad_block_input_branch : ℕ
gas_bad_block_input_branch = 47

abbrev pub gas_invalid_block_branch : ℕ
gas_invalid_block_branch = 79

abbrev pub gas_block_too_old_branch : ℕ
gas_block_too_old_branch = 106

abbrev pub gas_retrieve_success_branch : ℕ
gas_retrieve_success_branch = 125

abbrev pub gas_submit_success_branch : ℕ
gas_submit_success_branch = 43

-- `return charge_and_panic(sdk, gas)`, whose error `entrypoint` hands to `native_exit`.
unfoldable pub charge_and_panic : ℕ → Action (Unit {0})
unfolding charge_fuel
charge_and_panic gas = do charge_fuel (gas * fuel_denom_rate); native_exit ExitCode.panic

unfoldable pub submit_hash : ℕ → ℕ → Action (Unit {0})
unfolding sstore charge_fuel
submit_hash block_number hash_value = do
  sstore ((block_number - 1) % history_serve_window) hash_value
  charge_fuel (gas_submit_success_branch * fuel_denom_rate)

unfoldable pub submit : Action (Unit {0})
unfolding charge_and_panic submit_hash from_be_bytes
submit s =
    if not (length s.input == 32)
    then charge_and_panic gas_bad_block_input_branch s
    else if s.context.number == 0
    then charge_and_panic gas_invalid_block_branch s
    else submit_hash s.context.number (from_be_bytes s.input) s

unfoldable pub retrieve_hash : ℕ → Action (Unit {0})
unfolding sload charge_fuel write be_bytes
retrieve_hash requested_bn = do
  hash ← sload (requested_bn % history_serve_window)
  charge_fuel (gas_retrieve_success_branch * fuel_denom_rate)
  write (be_bytes 32 hash)

unfoldable pub retrieve : Action (Unit {0})
unfolding charge_and_panic retrieve_hash from_be_bytes
retrieve s =
    let requested_bn = from_be_bytes s.input in
    if not (length s.input == 32)
    then charge_and_panic gas_bad_block_input_branch s
    else if s.context.number == 0
    then charge_and_panic gas_invalid_block_branch s
    else if ltb (s.context.number - 1) requested_bn
    then charge_and_panic gas_invalid_block_branch s
    else if ltb history_serve_window (s.context.number - requested_bn)
    then charge_and_panic gas_block_too_old_branch s
    else retrieve_hash requested_bn s

unfoldable pub entrypoint : Action (Unit {0})
unfolding submit retrieve
entrypoint s = if s.context.caller == system_address then submit s else retrieve s

-- `eip2935_compute_storage_keys` of crates/revm/src/eip2935.rs: the slots that a call can touch.
unfoldable pub eip2935_compute_storage_keys : List ℕ → ℕ → ℕ → Option (List ℕ)
unfolding from_be_bytes
eip2935_compute_storage_keys input caller block_number =
    let requested = from_be_bytes input in
    if not (length input == 32) || block_number == 0
    then none
    else if caller == system_address
    then some ((block_number - 1) % history_serve_window ∷ [])
    else if ltb (block_number - 1) requested || ltb history_serve_window (block_number - requested)
    then none
    else some (requested % history_serve_window ∷ [])
