-- ===== src/Revm/Tests/Calls.antt =====
-- System calls of crates/revm/src/syscall.rs on concrete input.
use fluentbase.Prelude.{◌+◌, ◌≤◌, ◌≡◌, refl, true, false, ◌++◌}
use fluentbase.Prelude.Bytes.{be_bytes}
use fluentbase.Revm.Interruption.{Interruption, le_bytes}
use fluentbase.Revm.Syscall.{execute_rwasm_interruption}
use fluentbase.Revm.Static.{IsHarmless, execute_rwasm_interruption-static}
use fluentbase.Revm.Metering.{granted, execute_rwasm_interruption-granted}
use fluentbase.Revm.Tests.{
  World, test_engine, test_engine-IsMeter, test_engine-IsView, test_start, test_call,
}

-- A write of 9 to slot 3, and a call of account 8 with a value of 1.
abbrev store_call : Interruption
store_call = test_call 0x02 (le_bytes 32 3 ++ le_bytes 32 9) 64 true

abbrev value_call : Interruption
value_call = test_call 0x03 (be_bytes 20 8 ++ le_bytes 32 1) 52 false

execute_rwasm_interruption-static_example :
    ((execute_rwasm_interruption test_engine store_call test_start).1.world.slots
      ≡ test_start.world.slots)
    × IsHarmless (execute_rwasm_interruption test_engine store_call test_start).0
execute_rwasm_interruption-static_example =
    execute_rwasm_interruption-static test_engine World.slots store_call test_start
      test_engine-IsView refl

execute_rwasm_interruption-granted_example :
    let (action, f') = execute_rwasm_interruption test_engine value_call test_start in
    f'.gas + granted action ≤ 100000
execute_rwasm_interruption-granted_example =
    execute_rwasm_interruption-granted test_engine value_call test_start test_engine-IsMeter
