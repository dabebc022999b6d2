-- ===== src/Revm/Segment/Bounds.antt =====
-- crates/revm/src/executor.rs: the gas of a frame over one run, and runs that end fatally.
use fluentbase.Prelude.{
  ℕ, ◌+◌, ◌≤◌, ◌≡◌, refl, sym, subst, ◌⊎◌, inl, inr, Bool, true, false, Option, none, some, List,
  [], ◌==◌, if◌then◌else◌, arith,
}
use fluentbase.Prelude.Int.{ℤ, pos, negsuc}
use fluentbase.Types.ExitCode.{ExitCode, from_i32}
use fluentbase.Types.Genesis.{is_execute_using_system_runtime}
use fluentbase.Fuel.{div_ceil}
use fluentbase.Revm.Engine.{Engine}
use fluentbase.Revm.Interruption.{Step, next, leave, Frame, Call, pure}
use fluentbase.Revm.Metering.{IsMeter, granted, execute_rwasm_interruption-granted}
use fluentbase.Revm.Outcome.{Outcome}
use fluentbase.Revm.Segment.{
  FrameInput, Invocation, Resolved, ended, answered, surfaced, refund_units, interruption_of,
  process_system_result, process_execution_result, serve_invocation, process_exec_result,
  charged_segment, settle_segment,
}

-- The gas that a new frame gets.
abbrev pub granted_by : {C : Type 0} → Step C (Resolved C) → ℕ
granted_by (next (ended code output)) = 0
granted_by (next (answered action)) = granted action
granted_by (leave e) = 0

module _ {G W C S : Type 0} (rt : Engine G W C S) (decode_outcome : List ℕ → Option Outcome)
    (decode_params : List ℕ → Option Invocation) (i : FrameInput) (m : IsMeter rt)
    (own : is_execute_using_system_runtime i.effective_bytecode_address ≡ false) where
  -- What the frame keeps and what a new frame gets are together at most what the frame had.
  abbrev IsWithin : Call G W C (Resolved C) → Frame G W → Type 0
  IsWithin c f = rt.remaining (c f).1.gas + granted_by (c f).0 ≤ rt.remaining f.gas

  result-IsWithin :
      (exit_code : ℤ) (output : List ℕ) (costs : Option (List (ℕ × ℕ))) (f : Frame G W)
      → IsWithin
          (process_execution_result rt decode_outcome decode_params i exit_code output costs)
          f
  unfolding process_execution_result pure
  result-IsWithin exit_code output costs f =
      subst
        (λ b.
          IsWithin
            (if b
              then process_system_result rt decode_outcome decode_params i (from_i32 exit_code)
                  output costs
              else pure (ended (surfaced (from_i32 exit_code)) output))
            f)
        (sym own) (omega arith)

  serve-IsWithin :
      (call_id : ℕ) (p : Option Invocation) (f : Frame G W)
      → IsWithin (serve_invocation rt decode_outcome decode_params i call_id p) f
  unfolding serve_invocation
  serve-IsWithin call_id none f = omega arith
  serve-IsWithin call_id (some p) f =
      execute_rwasm_interruption-granted rt (interruption_of i call_id p) f m

  if-IsWithin :
      (b : Bool) (c d : Call G W C (Resolved C)) (f : Frame G W)
      → IsWithin c f
      → IsWithin d f
      → IsWithin (if b then c else d) f
  if-IsWithin true c d f hc hd = hc
  if-IsWithin false c d f hc hd = hd

  exec-IsWithin :
      (exit_code : ℤ) (output : List ℕ) (costs : Option (List (ℕ × ℕ))) (f : Frame G W)
      → IsWithin (process_exec_result rt decode_outcome decode_params i exit_code output costs) f
  unfolding process_exec_result
  exec-IsWithin (pos n) output costs f =
      if-IsWithin (n == 0)
        (process_execution_result rt decode_outcome decode_params i (pos n) output costs)
        (serve_invocation rt decode_outcome decode_params i n (decode_params output)) f
        (result-IsWithin (pos n) output costs f) (serve-IsWithin n (decode_params output) f)
  exec-IsWithin (negsuc n) output costs f = result-IsWithin (negsuc n) output costs f

  segment_paid :
      (cost r : ℕ) (c : Bool × G) (w : W) (refunded exit_code : ℤ) (output : List ℕ)
      (costs : Option (List (ℕ × ℕ)))
      → (c.0 ≡ true → rt.remaining c.1 + cost ≡ r)
      → let (s, f') =
          charged_segment rt decode_outcome decode_params i c w refunded exit_code output costs in
        (s ≡ next (ended ExitCode.out_of_fuel [])) ⊎ (rt.remaining f'.gas + granted_by s + cost ≤ r)
  unfolding charged_segment
  segment_paid cost r (false, g) w refunded exit_code output costs paid = inl refl
  segment_paid cost r (true, g) w refunded exit_code output costs paid =
      let f : Frame G W = record { gas = rt.record_refund (refund_units refunded) g; world = w } in
      inr (
        omega (
          arith,
          exec-IsWithin exit_code output costs f,
          m.refunded (refund_units refunded) g,
          paid refl,
        ))

-- If recorded costs are taken from what remains, nothing else adds to that, and a transfer of value
-- costs at least the stipend of its callee: a run of a frame that is not of a system runtime ends out
-- of fuel with no output, or what the frame keeps, what a new frame gets for the run's system call and
-- the fuel of the run, at 20 a gas and rounded up, are together at most what the frame had.
pub settle_segment-granted :
    {G W C S : Type 0} (rt : Engine G W C S) (decode_outcome : List ℕ → Option Outcome)
    (decode_params : List ℕ → Option Invocation) (i : FrameInput) (fuel_consumed : ℕ)
    (fuel_refunded exit_code : ℤ) (output : List ℕ) (costs : Option (List (ℕ × ℕ))) (f : Frame G W)
    → IsMeter rt
    → is_execute_using_system_runtime i.effective_bytecode_address ≡ false
    → let (s, f') =
        settle_segment rt decode_outcome decode_params i fuel_consumed fuel_refunded exit_code
          output costs f in
      (s ≡ next (ended ExitCode.out_of_fuel []))
      ⊎ (rt.remaining f'.gas + granted_by s + div_ceil fuel_consumed 20 ≤ rt.remaining f.gas)
unfolding settle_segment
settle_segment-granted rt decode_outcome decode_params i fuel_consumed refunded exit_code output
      costs f m own =
    segment_paid rt decode_outcome decode_params i m own (div_ceil fuel_consumed 20)
      (rt.remaining f.gas) (rt.record_regular_cost (div_ceil fuel_consumed 20) f.gas) f.world
      refunded exit_code output costs (m.paid (div_ceil fuel_consumed 20) f.gas)
