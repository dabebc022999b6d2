-- ===== src/Revm/Segment/Fatal.antt =====
-- crates/revm/src/executor.rs: runs that end with the code of a fatal failure.
use fluentbase.Prelude.{
  ℕ, ◌≡◌, refl, sym, ap, ◌∙◌, subst, Bool, true, false, Option, none, some, List, if◌then◌else◌,
  arith,
}
use fluentbase.Prelude.Int.{ℤ}
use fluentbase.Types.ExitCode.{ExitCode, from_i32, is_fatal_exit_code}
use fluentbase.Types.Genesis.{is_execute_using_system_runtime}
use fluentbase.Revm.Engine.{Engine}
use fluentbase.Revm.Interruption.{Exit, Step, next, leave, Frame, Call, ◌>>=◌, pure}
use fluentbase.Revm.Keeps.{Settles, Keeps-bind, Keeps-pure}
use fluentbase.Revm.Keeps.Grants.{Does, AfterWith, Does-after}
use fluentbase.Revm.Keeps.Rules.{Keeps-read_or_db}
use fluentbase.Revm.Static.{IsView}
use fluentbase.Revm.Outcome.{Outcome, process_decoded, process_runtime_execution_outcome}
use fluentbase.Revm.Segment.{
  FrameInput, Invocation, Resolved, ended, answered, surfaced, get_ownable_account,
  process_system_result, process_execution_result,
}

-- A run that ends, unless there is an error of the database, ends with this code and output.
abbrev pub EndsWith : {C : Type 0} → ExitCode → List ℕ → Step C (Resolved C) → Type 0
EndsWith code output (next (ended c o)) = (c ≡ code) × (o ≡ output)
EndsWith code output (next (answered action)) = ⊥
EndsWith code output (leave e) = Unit

fatal_code :
    (code : ExitCode) → is_fatal_exit_code code ≡ true → surfaced code ≡ ExitCode.unknown_error
unfolding surfaced is_fatal_exit_code
fatal_code code h = ground arith

module _ {G W C S V : Type 0} (rt : Engine G W C S) (view : W → V) (v : IsView rt view)
    (decode_outcome : List ℕ → Option Outcome) (decode_params : List ℕ → Option Invocation)
    (i : FrameInput) where
  -- The state of the chain is `u` and the gas `g`.
  abbrev Same : V → G → Frame G W → Type 0
  Same u g f = (view f.world ≡ u) × (f.gas ≡ g)

  abbrev Stays : V → G → Exit C → Frame G W → Type 0
  Stays u g e f = Same u g f

  settles : (u : V) (g : G) → Settles (Same u g) (Stays u g)
  settles u g = record { at = λ e h f same. same }

  -- The outcome of a fatal run is not read.
  outcome_unread :
      (code : ExitCode) (output : List ℕ) (decoded : Option Outcome) (owner : Option ℕ)
      (costs : Option (List (ℕ × ℕ)))
      → is_fatal_exit_code code ≡ true
      → process_runtime_execution_outcome rt i.target_address code output decoded owner costs
        ≡ pure (code, output)
  unfolding process_runtime_execution_outcome
  outcome_unread code output none owner costs h = refl
  outcome_unread code output (some o) owner costs h =
      ap
        (λ b.
          if b then pure (code, output) else process_decoded rt i.target_address code owner costs o)
        h

  system-Does :
      (u : V) (g : G) (code : ExitCode) (output : List ℕ) (costs : Option (List (ℕ × ℕ)))
      → is_fatal_exit_code code ≡ true
      → Does
          (Same u g)
          (λ r f. Same u g f × EndsWith {C = C} code output (next r))
          (Stays u g)
          (process_system_result rt decode_outcome decode_params i code output costs)
  unfolding process_system_result get_ownable_account pure
  system-Does u g code output costs h =
      let s = settles u g in
      Does-after (get_ownable_account rt decode_outcome decode_params i) _
        (Keeps-bind _ _
          (Keeps-read_or_db s (rt.load_account_with_code _)
            λ f (w, q). (v.load_account_with_code _ f.world ∙ w, q))
          λ a. Keeps-pure _)
        λ owner.
          subst
            (λ (m : Call G W C (ExitCode × List ℕ)).
              Does (Same u g) (λ r f. Same u g f × EndsWith {C = C} code output (next r))
                (Stays u g) (m >>= λ x. pure (ended x.0 x.1)))
            (sym (outcome_unread code output (decode_outcome output) owner costs h))
            (record { at = λ f same. (same, (refl, refl)) })

  end_lem :
      (u : V) (g : G) (code : ExitCode) (output : List ℕ) (r : Step C (Resolved C)) (f : Frame G W)
      → AfterWith (λ r f. Same u g f × EndsWith {C = C} code output (next r)) (Stays u g) r f
      → Same u g f × EndsWith code output r
  end_lem u g code output (next r) f h = h
  end_lem u g code output (leave e) f h = (h, tt)

  by_runtime :
      (b : Bool) (code : ExitCode) (output : List ℕ) (costs : Option (List (ℕ × ℕ))) (f : Frame G W)
      → is_fatal_exit_code code ≡ true
      → let (r, f') =
          (if b
              then process_system_result rt decode_outcome decode_params i code output costs
              else pure (ended (surfaced code) output))
            f in
        Same (view f.world) f.gas f'
        × EndsWith (if b then code else ExitCode.unknown_error) output r
  unfolding pure
  by_runtime true code output costs f h =
      end_lem (view f.world) f.gas code output _ _
        ((system-Does (view f.world) f.gas code output costs h).at f (refl, refl))
  by_runtime false code output costs f h = ((refl, refl), (fatal_code code h, refl))

-- If loads of the journal leave the state of the chain alone: a run that ends with the code of a fatal
-- failure leaves that state and the gas as they were and keeps its return data, and, if there is no
-- error of the database, the frame ends with that code only where it is of a system runtime, and with
-- an unknown error otherwise.
pub process_execution_result-fatal :
    {G W C S V : Type 0} (rt : Engine G W C S) (view : W → V)
    (decode_outcome : List ℕ → Option Outcome) (decode_params : List ℕ → Option Invocation)
    (i : FrameInput) (exit_code : ℤ) (output : List ℕ) (costs : Option (List (ℕ × ℕ)))
    (f : Frame G W)
    → IsView rt view
    → is_fatal_exit_code (from_i32 exit_code) ≡ true
    → let (r, f') =
        process_execution_result rt decode_outcome decode_params i exit_code output costs f in
      ((view f'.world ≡ view f.world) × (f'.gas ≡ f.gas))
      × EndsWith
          (if is_execute_using_system_runtime i.effective_bytecode_address
            then from_i32 exit_code
            else ExitCode.unknown_error)
          output
          r
unfolding process_execution_result
process_execution_result-fatal rt view decode_outcome decode_params i exit_code output costs f v h =
    by_runtime rt view v decode_outcome decode_params i
      (is_execute_using_system_runtime i.effective_bytecode_address) (from_i32 exit_code) output
      costs f h
