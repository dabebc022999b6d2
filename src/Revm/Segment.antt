-- ===== src/Revm/Segment.antt =====
-- crates/revm/src/executor.rs: what the host does when a run of a frame has ended or has asked for a
-- system call. What the runtime keeps of a run that has ended (`forget_runtime`) is not modelled.
pub mod Bounds
pub mod Fatal
use fluentbase.Prelude.{
  ℕ, ◌+◌, ◌-◌, ◌/◌, Bool, true, false, Option, none, some, List, [], ◌==◌, if◌then◌else◌,
}
use fluentbase.Prelude.Int.{ℤ, pos, negsuc}
use fluentbase.Types.ExitCode.{ExitCode, from_i32}
use fluentbase.Types.Genesis.{is_execute_using_system_runtime}
use fluentbase.Fuel.{div_ceil}
use fluentbase.Revm.Engine.{Engine}
use fluentbase.Revm.Interruption.{Interruption, Step, next, Frame, Call, ◌>>=◌, pure, read_or_db}
use fluentbase.Revm.Syscall.Calls.{fuel_denom_rate}
use fluentbase.Revm.Syscall.Owned.{ownable}
use fluentbase.Revm.Syscall.{NextAction, execute_rwasm_interruption}
use fluentbase.Revm.Outcome.{Outcome, process_runtime_execution_outcome}

-- The input of the frame's interpreter. `memory` reads the memory of the run with a call id.
pub record FrameInput : Type 0 where
  pub target_address : ℕ
  pub effective_bytecode_address : ℕ
  pub bytecode_address : Option ℕ
  pub account_owner_address : Option ℕ
  pub caller_address : ℕ
  pub call_value : ℕ
  pub is_static : Bool
  pub memory : ℕ → ℕ → ℕ → Option (List ℕ)

-- `SyscallInvocationParams`, with its range as two numbers.
pub record Invocation : Type 0 where
  pub code_hash : ℕ
  pub start : ℕ
  pub stop : ℕ
  pub fuel_limit : ℕ
  pub state : ℕ

-- `ended` is `NextAction::Return` with an exit code, an output and the gas of the frame; `answered`
-- is the host's answer to a system call.
pub data Resolved (C : Type 0) : Type 0 where
  ended : ExitCode → List ℕ → Resolved C
  answered : NextAction C → Resolved C

-- The fatal codes that only a system runtime may end with.
unfoldable pub surfaced : ExitCode → ExitCode
surfaced ExitCode.unexpected_fatal_execution_failure = ExitCode.unknown_error
surfaced ExitCode.missing_storage_slot = ExitCode.unknown_error
surfaced code = code

-- `fuel_refunded / FUEL_DENOM_RATE as i64`, which rounds towards zero.
unfoldable pub refund_units : ℤ → ℤ
refund_units (pos n) = pos (n / fuel_denom_rate)
refund_units (negsuc n) =
    if (n + 1) / fuel_denom_rate == 0 then pos 0 else negsuc ((n + 1) / fuel_denom_rate - 1)

unfoldable pub runtime_owner : Option (ℕ × List ℕ) → Option ℕ
runtime_owner none = none
runtime_owner (some (owner, metadata)) =
    if is_execute_using_system_runtime owner then some owner else none

unfoldable pub interruption_of : FrameInput → ℕ → Invocation → Interruption
interruption_of i call_id p = record {
  code_hash = p.code_hash;
  start = p.start;
  stop = p.stop;
  fuel_limit = p.fuel_limit;
  state = p.state;
  memory = i.memory call_id;
  target_address = i.target_address;
  account_owner_address = i.account_owner_address;
  caller_address = i.caller_address;
  call_value = i.call_value;
  is_static = i.is_static;
}

-- `decode_outcome` and `decode_params` are bincode's readings of return data.
module _ {G W C S : Type 0} (rt : Engine G W C S) (decode_outcome : List ℕ → Option Outcome)
    (decode_params : List ℕ → Option Invocation) (i : FrameInput) where
  -- `get_ownable_account_mut`, with the owner of the account alone.
  unfoldable pub get_ownable_account : Call G W C (Option ℕ)
  get_ownable_account = do
    (account, is_cold) ← read_or_db (
        rt.load_account_with_code
          (elim i.bytecode_address [ some a ↦ a | none ↦ i.target_address ]))
    pure (runtime_owner (ownable rt account))

  unfoldable pub process_system_result :
      ExitCode → List ℕ → Option (List (ℕ × ℕ)) → Call G W C (Resolved C)
  process_system_result code return_data costs = do
    owner ← get_ownable_account
    (code', output) ←
        process_runtime_execution_outcome rt i.target_address code return_data
          (decode_outcome return_data) owner costs
    pure (ended code' output)

  unfoldable pub process_execution_result :
      ℤ → List ℕ → Option (List (ℕ × ℕ)) → Call G W C (Resolved C)
  process_execution_result exit_code return_data costs =
      if is_execute_using_system_runtime i.effective_bytecode_address
      then process_system_result (from_i32 exit_code) return_data costs
      else pure (ended (surfaced (from_i32 exit_code)) return_data)

  -- The host's answer to the system call of the run `call_id`.
  unfoldable pub serve_invocation : ℕ → Option Invocation → Call G W C (Resolved C)
  serve_invocation call_id none f = (next (ended ExitCode.unknown_error []), f)
  serve_invocation call_id (some p) f =
      let (action, f') = execute_rwasm_interruption rt (interruption_of i call_id p) f in
      (next (answered action), f')

  -- An exit code above zero is the call id of an interruption.
  unfoldable pub process_exec_result : ℤ → List ℕ → Option (List (ℕ × ℕ)) → Call G W C (Resolved C)
  process_exec_result (pos n) return_data costs =
      if n == 0
      then process_execution_result (pos n) return_data costs
      else serve_invocation n (decode_params return_data)
  process_exec_result (negsuc n) return_data costs =
      process_execution_result (negsuc n) return_data costs

  -- The charge for the fuel of the run, and what follows if the gas covers it.
  unfoldable pub charged_segment :
      Bool × G → W → ℤ → ℤ → List ℕ → Option (List (ℕ × ℕ)) → Step C (Resolved C) × Frame G W
  charged_segment (false, g) w fuel_refunded exit_code return_data costs =
      (next (ended ExitCode.out_of_fuel []), record { gas = g; world = w })
  charged_segment (true, g) w fuel_refunded exit_code return_data costs =
      process_exec_result exit_code return_data costs
        (record { gas = rt.record_refund (refund_units fuel_refunded) g; world = w })

  -- The end of `execute_rwasm_frame` and of `execute_rwasm_resume`, after the run.
  unfoldable pub settle_segment :
      ℕ → ℤ → ℤ → List ℕ → Option (List (ℕ × ℕ)) → Call G W C (Resolved C)
  settle_segment fuel_consumed fuel_refunded exit_code return_data costs f =
      charged_segment (rt.record_regular_cost (div_ceil fuel_consumed fuel_denom_rate) f.gas)
        f.world fuel_refunded exit_code return_data costs
