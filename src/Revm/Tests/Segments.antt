-- ===== src/Revm/Tests/Segments.antt =====
-- Runs of frames in crates/revm/src/executor.rs that have ended, on concrete input.
use fluentbase.Prelude.{
  ℕ, ◌+◌, ◌≤◌, ◌≡◌, refl, ap, ◌⊎◌, false, Option, none, some, List, [], ◌∷◌, ◌++◌, take, drop,
}
use fluentbase.Prelude.Bytes.{be_bytes}
use fluentbase.Prelude.Int.{pos, negsuc}
use fluentbase.Types.ExitCode.{ExitCode, into_i32, is_fatal_exit_code}
use fluentbase.Types.ExitCode.RoundTrip.{from_i32-into_i32}
use fluentbase.Types.Genesis.{
  contains, is_execute_using_system_runtime, execute_using_system_runtime_addresses,
}
use fluentbase.Fuel.{div_ceil}
use fluentbase.Revm.Interruption.{le_bytes, next}
use fluentbase.Revm.Outcome.{Outcome}
use fluentbase.Revm.Segment.{
  FrameInput, Invocation, ended, settle_segment, process_execution_result,
}
use fluentbase.Revm.Segment.Bounds.{granted_by, settle_segment-granted}
use fluentbase.Revm.Segment.Fatal.{EndsWith, process_execution_result-fatal}
use fluentbase.Revm.Tests.{World, test_engine, test_engine-IsMeter, test_engine-IsView, test_start}

abbrev no_outcome : List ℕ → Option Outcome
no_outcome bytes = none

-- A call of account 8 with a value of 1.
abbrev value_params : List ℕ → Option Invocation
value_params bytes =
    some (record { code_hash = 0x03; start = 0; stop = 52; fuel_limit = 2000000; state = 0 })

abbrev test_input : ℕ → FrameInput
test_input runtime = record {
  target_address = 5;
  effective_bytecode_address = runtime;
  bytecode_address = none;
  account_owner_address = none;
  caller_address = 7;
  call_value = 0;
  is_static = false;
  memory = λ call_id offset n. some (take n (drop offset (be_bytes 20 8 ++ le_bytes 32 1)));
}

settle_segment-granted_example :
    let (s, f') =
      settle_segment test_engine no_outcome value_params
        (test_input 0x1234)
        4001
        (pos 0)
        (pos 1)
        []
        none
        test_start in
    (s ≡ next (ended ExitCode.out_of_fuel [])) ⊎ (f'.gas + granted_by s + 201 ≤ 100000)
unfolding div_ceil is_execute_using_system_runtime contains execute_using_system_runtime_addresses
settle_segment-granted_example =
    settle_segment-granted test_engine no_outcome value_params (test_input 0x1234) 4001 (pos 0)
      (pos 1) [] none test_start test_engine-IsMeter refl

-- A fatal failure of a frame of a user's contract.
process_execution_result-fatal_example :
    let (r, f') =
      process_execution_result test_engine no_outcome value_params
        (test_input 0x1234)
        (negsuc 3000)
        (1 ∷ [])
        none
        test_start in
    ((f'.world.slots ≡ test_start.world.slots) × (f'.gas ≡ 100000))
    × EndsWith ExitCode.unknown_error (1 ∷ []) r
unfolding is_execute_using_system_runtime contains execute_using_system_runtime_addresses into_i32
    is_fatal_exit_code
process_execution_result-fatal_example =
    process_execution_result-fatal test_engine World.slots no_outcome value_params
      (test_input 0x1234) (negsuc 3000) (1 ∷ []) none test_start test_engine-IsView
      (ap is_fatal_exit_code (from_i32-into_i32 ExitCode.unexpected_fatal_execution_failure))
