-- ===== src/Revm/Syscall/Storage.antt =====
-- crates/revm/src/syscall.rs: storage, transient storage and logs, with crates/revm/src/gas.rs.
use fluentbase.Prelude.{
  ℕ, zero, suc, ◌+◌, ◌-◌, ◌*◌, true, not, List, [], ◌∷◌, ◌&&◌, ltb, leb, ◌==◌, if◌then◌else◌, take,
  drop,
}
use fluentbase.Prelude.Bytes.{from_be_bytes}
use fluentbase.Types.ExitCode.{ExitCode}
use fluentbase.Revm.Engine.{Engine}
use fluentbase.Revm.Interruption.{
  Interruption, result, Call, ◌>>=◌, ◌>>◌, exit, assert_halt, load_or_halt, write, gets,
  charge_regular_gas, refund, writable, read_fixed, input_exactly, input_more_than, input_from,
  input_length, from_le_bytes, le_bytes, state_main,
}

-- The words of `topics`, in their order.
unfoldable pub read_topics : ℕ → List ℕ → List ℕ
read_topics zero bytes = []
read_topics (suc n) bytes = from_be_bytes (take 32 bytes) ∷ read_topics n (drop 32 bytes)

module _ {G W C S : Type 0} (rt : Engine G W C S) where
  -- `sload_skip_cold_load` of a slot of `address`, its charge, and the word as the result.
  unfoldable pub sload_charged : ℕ → ℕ → Call G W C (Unit {0})
  sload_charged address slot = do
    skip_cold ← gets λ f. ltb (rt.remaining f.gas) rt.cold_storage_cost
    (value, is_cold) ← load_or_halt (rt.sload address slot skip_cold)
    charge_regular_gas rt (if is_cold then rt.cold_storage_cost else rt.warm_storage_read_cost)
    exit (result ExitCode.ok (le_bytes 32 value))

  -- `sstore_gas` of crates/revm/src/gas.rs on a slot of `address`.
  unfoldable pub sstore_gas : ℕ → ℕ → ℕ → Call G W C (Unit {0})
  sstore_gas address slot value = do
    enough ← gets λ f. not (leb (rt.remaining f.gas) rt.call_stipend)
    assert_halt enough ExitCode.out_of_fuel
    charge_regular_gas rt rt.sstore_static_gas
    skip_cold ← gets λ f. ltb (rt.remaining f.gas) rt.cold_storage_cost
    (stored, is_cold) ← load_or_halt (rt.sstore address slot value skip_cold)
    charge_regular_gas rt (rt.sstore_dynamic_gas true stored is_cold)
    refund rt (rt.sstore_refund true stored)

  module _ (i : Interruption) where
    unfoldable pub storage_read : Call G W C (Unit {0})
    storage_read = do
      input ← input_exactly i 32
      sload_charged i.target_address (from_le_bytes input)

    unfoldable pub storage_write : Call G W C (Unit {0})
    storage_write = do
      writable i
      input ← input_exactly i 64
      sstore_gas i.target_address (from_le_bytes (take 32 input)) (from_le_bytes (drop 32 input))
      exit (result ExitCode.ok [])

    unfoldable pub transient_read : Call G W C (Unit {0})
    transient_read = do
      input ← input_exactly i 32
      charge_regular_gas rt rt.warm_storage_read_cost
      value ← gets λ f. rt.tload i.target_address (from_le_bytes input) f.world
      exit (result ExitCode.ok (le_bytes 32 value))

    unfoldable pub transient_write : Call G W C (Unit {0})
    transient_write = do
      input ← input_exactly i 64
      writable i
      charge_regular_gas rt rt.warm_storage_read_cost
      write (
          rt.tstore i.target_address (from_le_bytes (take 32 input))
            (from_le_bytes (drop 32 input)))
      exit (result ExitCode.ok [])

    -- The part of `SYSCALL_ID_EMIT_LOG` behind the number of topics.
    unfoldable pub emit_topics : ℕ → Call G W C (Unit {0})
    emit_topics topics_len = do
      assert_halt (leb topics_len 4) ExitCode.malformed_builtin_params
      input ← input_more_than i (topics_len * 32)
      let topics = read_topics topics_len (drop 1 input)
      charge_regular_gas rt
          (rt.gas_log + rt.log_cost topics_len (input_length i - 1 - topics_len * 32))
      payload ← input_from i (topics_len * 32 + 1)
      write (rt.log i.target_address topics payload)
      exit (result ExitCode.ok [])

    unfoldable pub emit_log : Call G W C (Unit {0})
    emit_log = do
      writable i
      assert_halt (not (input_length i == 0) && i.state == state_main)
          ExitCode.malformed_builtin_params
      input ← read_fixed i 1
      emit_topics (from_be_bytes input)
