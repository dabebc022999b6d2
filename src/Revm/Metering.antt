-- ===== src/Revm/Metering.antt =====
-- crates/revm/src/syscall.rs: no system call creates gas, neither for its frame nor for a new one.
use fluentbase.Prelude.{ℕ, ◌+◌, ◌≤◌, ◌≡◌, refl, Bool, true, false, arith}
use fluentbase.Prelude.Int.{ℤ}
use fluentbase.Revm.Engine.{Engine}
use fluentbase.Revm.Interruption.{Interruption, Frame, Exit, Step, next, leave, refund}
use fluentbase.Revm.Keeps.{IsKept, After, is_settled, Settles}
use fluentbase.Revm.Keeps.Grants.{IsGranting, Keeps-Does}
use fluentbase.Revm.Keeps.Rules.{
  Keeps-load_or_halt, Keeps-read_or_db, Keeps-write, Does-charge_regular_gas, Does-charge_state_gas,
}
use fluentbase.Revm.Keeps.Serve.{serve-Keeps}
use fluentbase.Revm.Syscall.{
  NextAction, next_action, end_of, execute_rwasm_interruption, syscall_of,
}

-- What the code relies on of revm's `Gas` and prices: a cost that is recorded is taken from what
-- remains, no other operation adds to that, and a transfer of value costs at least the stipend.
pub record IsMeter {G W C S : Type 0} (rt : Engine G W C S) : Type 0 where
  pub paid :
      (c : ℕ) (g : G)
      → (rt.record_regular_cost c g).0 ≡ true
      → rt.remaining (rt.record_regular_cost c g).1 + c ≡ rt.remaining g
  pub refused :
      (c : ℕ) (g : G)
      → (rt.record_regular_cost c g).0 ≡ false
      → rt.remaining (rt.record_regular_cost c g).1 ≤ rt.remaining g
  pub state_cost : (c : ℕ) (g : G) → rt.remaining (rt.record_state_cost c g).1 ≤ rt.remaining g
  pub refunded : (a : ℤ) (g : G) → rt.remaining (rt.record_refund a g) ≡ rt.remaining g
  pub stipend : rt.call_stipend ≤ rt.transfer_value_cost

-- The gas that an answer of the host gives to a new frame.
abbrev pub granted : {C : Type 0} → NextAction C → ℕ
granted (NextAction.new_call inputs) = inputs.gas_limit
granted (NextAction.new_create inputs) = inputs.gas_limit
granted (NextAction.resume code output spent halted) = 0
granted (NextAction.return code spent) = 0
granted NextAction.failed = 0
granted NextAction.panicked = 0

abbrev granted_exit : {C : Type 0} → Exit C → ℕ
granted_exit (Exit.new_call inputs) = inputs.gas_limit
granted_exit (Exit.new_create inputs) = inputs.gas_limit
granted_exit (Exit.result code output) = 0
granted_exit (Exit.halt code) = 0
granted_exit Exit.db = 0
granted_exit Exit.abort = 0

settled_grants : {C : Type 0} (e : Exit C) → is_settled e ≡ true → granted_exit e ≡ 0
settled_grants (Exit.new_call inputs) h = cc
settled_grants (Exit.new_create inputs) h = cc
settled_grants (Exit.result code output) h = refl
settled_grants (Exit.halt code) h = refl
settled_grants Exit.db h = refl
settled_grants Exit.abort h = refl

module _ {G W C S : Type 0} (rt : Engine G W C S) (m : IsMeter rt) (total : ℕ) where
  -- With `r` set aside, the frame still has at most `total`.
  abbrev Within : ℕ → Frame G W → Type 0
  Within r f = rt.remaining f.gas + r ≤ total

  abbrev WithinEnd : Exit C → Frame G W → Type 0
  WithinEnd e f = rt.remaining f.gas + granted_exit e ≤ total

  settles : (r : ℕ) → Settles (Within r) WithinEnd
  settles r = record { at = λ e h f within. omega (arith, settled_grants e h) }

  meter-IsKept : (i : Interruption) (r : ℕ) → IsKept rt i (Within r) WithinEnd
  unfolding refund
  meter-IsKept i r =
      let s = settles r in
      record {
        settles = s;
        charges = λ c. Keeps-Does _ (
            Does-charge_regular_gas rt s c (λ f h e. omega (arith, m.paid c f.gas e))
              (λ f h e. omega (arith, m.refused c f.gas e)));
        state_charges = λ c. Keeps-Does _ (
            Does-charge_state_gas rt s c (λ f h. omega (arith, m.state_cost c f.gas))
              (λ f h. omega (arith, m.state_cost c f.gas)));
        refunds = λ a. record { at = λ f h. omega (arith, m.refunded a f.gas) };
        sloads = λ a k b. Keeps-load_or_halt s _ λ f h. h;
        infos = λ a c b. Keeps-load_or_halt s _ λ f h. h;
        accounts = λ a. Keeps-read_or_db s _ λ f h. h;
        codes = λ a. Keeps-read_or_db s _ λ f h. h;
        hashes = λ n. Keeps-read_or_db s _ λ f h. h;
        sstores = λ e a k v b. Keeps-load_or_halt s _ λ f h. h;
        tstores = λ e a k v. Keeps-write s _ λ f h. h;
        logs = λ e a t d. Keeps-write s _ λ f h. h;
        ends = λ e a t b. Keeps-load_or_halt s _ λ f h. h;
        set_codes = λ e a c. Keeps-write s _ λ f h. h;
        touches = λ e a. Keeps-write s _ λ f h. h;
      }

  meter-IsGranting : (i : Interruption) → IsGranting rt i Within WithinEnd
  meter-IsGranting i = record {
    kept = meter-IsKept i;
    pays =
        Does-charge_regular_gas rt (settles 0) _
          (λ f h e. omega (arith, m.paid rt.transfer_value_cost f.gas e, m.stipend))
          (λ f h e. omega (arith, m.refused rt.transfer_value_cost f.gas e));
    grants = λ r g.
        Does-charge_regular_gas rt (settles r) g (λ f h e. omega (arith, m.paid g f.gas e))
          (λ f h e. omega (arith, m.refused g f.gas e));
    opens_call = λ r inputs fits allowed f h. omega arith;
    opens_create = λ r inputs fits e f h. omega arith;
  }

  granted_end :
      (b : Bool) (spent : ℕ) (r : Step C (Unit {0})) (f : Frame G W)
      → After (Within 0) WithinEnd r f
      → rt.remaining f.gas + granted (end_of rt b spent r) ≤ total
  unfolding end_of next_action
  granted_end b n (next a) f h = h
  granted_end b n (leave (Exit.result c o)) f h = h
  granted_end true n (leave (Exit.halt c)) f h = h
  granted_end false n (leave (Exit.halt c)) f h = h
  granted_end b n (leave (Exit.new_call inputs)) f h = h
  granted_end b n (leave (Exit.new_create inputs)) f h = h
  granted_end b n (leave Exit.db) f h = h
  granted_end b n (leave Exit.abort) f h = h

-- If recorded costs are taken from what remains, nothing else adds to that, and a transfer of value
-- costs at least the stipend of its callee: whatever the number and the input of a system call, what
-- the frame keeps and what a new frame gets are together at most what the frame had.
pub execute_rwasm_interruption-granted :
    {G W C S : Type 0} (rt : Engine G W C S) (i : Interruption) (f : Frame G W)
    → IsMeter rt
    → let (action, f') = execute_rwasm_interruption rt i f in
      rt.remaining f'.gas + granted action ≤ rt.remaining f.gas
unfolding execute_rwasm_interruption
execute_rwasm_interruption-granted rt i f m =
    let total = rt.remaining f.gas in
    granted_end rt m total _ _ _ _ (
      (serve-Keeps rt i (Within rt m total) (WithinEnd rt m total) (meter-IsGranting rt m total i)
          (syscall_of i.code_hash)).at
        f (omega arith))
