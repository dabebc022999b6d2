-- ===== src/Revm/Static.antt =====
-- crates/revm/src/syscall.rs: a static frame cannot change the chain by a system call.
use fluentbase.Prelude.{ℕ, Bool, true, false, ◌≡◌, refl, ◌∙◌}
use fluentbase.Revm.Engine.{Engine}
use fluentbase.Revm.Interruption.{Interruption, Frame, Exit, Step, next, leave, refund}
use fluentbase.Revm.Keeps.{IsKept, After, is_settled, Settles}
use fluentbase.Revm.Keeps.Grants.{IsGranting, moved}
use fluentbase.Revm.Keeps.Grants.{Keeps-Does}
use fluentbase.Revm.Keeps.Rules.{
  Keeps-load_or_halt, Keeps-read_or_db, Does-charge_regular_gas, Does-charge_state_gas,
}
use fluentbase.Revm.Keeps.Serve.{serve-Keeps}
use fluentbase.Revm.Syscall.{
  NextAction, next_action, end_of, execute_rwasm_interruption, syscall_of,
}

-- What loads and reads of the journal leave alone: `view` is the state of the chain in it, without
-- the record of which accounts and slots are warm.
pub record IsView {G W C S V : Type 0} (rt : Engine G W C S) (view : W → V) : Type 0 where
  pub sload : (a k : ℕ) (b : Bool) (w : W) → view (rt.sload a k b w).1 ≡ view w
  pub load_account_info :
      (a : ℕ) (c b : Bool) (w : W) → view (rt.load_account_info a c b w).1 ≡ view w
  pub load_account : (a : ℕ) (w : W) → view (rt.load_account a w).1 ≡ view w
  pub load_account_with_code : (a : ℕ) (w : W) → view (rt.load_account_with_code a w).1 ≡ view w
  pub block_hash : (n : ℕ) (w : W) → view (rt.block_hash n w).1 ≡ view w

-- An action of the host that a static frame may ask for: a new frame is a static call that moves no
-- value.
abbrev pub IsHarmless : {C : Type 0} → NextAction C → Type 0
IsHarmless (NextAction.new_call inputs) = (inputs.is_static ≡ true) × (moved inputs.value ≡ 0)
IsHarmless (NextAction.new_create inputs) = ⊥
IsHarmless (NextAction.resume code output spent halted) = Unit
IsHarmless (NextAction.return code spent) = Unit
IsHarmless NextAction.failed = Unit
IsHarmless NextAction.panicked = Unit

abbrev IsHarmlessExit : {C : Type 0} → Exit C → Type 0
IsHarmlessExit (Exit.new_call inputs) = (inputs.is_static ≡ true) × (moved inputs.value ≡ 0)
IsHarmlessExit (Exit.new_create inputs) = ⊥
IsHarmlessExit (Exit.result code output) = Unit
IsHarmlessExit (Exit.halt code) = Unit
IsHarmlessExit Exit.db = Unit
IsHarmlessExit Exit.abort = Unit

settled_end : {C : Type 0} (e : Exit C) → is_settled e ≡ true → IsHarmlessExit e
settled_end (Exit.new_call inputs) h = cc
settled_end (Exit.new_create inputs) h = cc
settled_end (Exit.result code output) h = tt
settled_end (Exit.halt code) h = tt
settled_end Exit.db h = tt
settled_end Exit.abort h = tt

module _ {G W C S V : Type 0} (rt : Engine G W C S) (view : W → V) (v : IsView rt view) where
  -- The view is still `u`.
  abbrev Same : V → ℕ → Frame G W → Type 0
  Same u r f = view f.world ≡ u

  abbrev Harmless : V → Exit C → Frame G W → Type 0
  Harmless u e f = (view f.world ≡ u) × IsHarmlessExit e

  settles : (u : V) → Settles (Same u 0) (Harmless u)
  settles u = record { at = λ e h f same. (same, settled_end e h) }

  -- In a static call no operation changes the view.
  static-IsKept :
      (i : Interruption) (u : V) → i.is_static ≡ true → IsKept rt i (Same u 0) (Harmless u)
  unfolding refund
  static-IsKept i u static =
      let s = settles u in
      record {
        settles = s;
        charges = λ c. Keeps-Does _ (Does-charge_regular_gas rt s c (λ f h _. h) (λ f h _. h));
        state_charges = λ c. Keeps-Does _ (Does-charge_state_gas rt s c (λ f h. h) (λ f h. h));
        refunds = λ a. record { at = λ f h. h };
        sloads = λ a k b. Keeps-load_or_halt s _ λ f h. v.sload a k b f.world ∙ h;
        infos = λ a c b. Keeps-load_or_halt s _ λ f h. v.load_account_info a c b f.world ∙ h;
        accounts = λ a. Keeps-read_or_db s _ λ f h. v.load_account a f.world ∙ h;
        codes = λ a. Keeps-read_or_db s _ λ f h. v.load_account_with_code a f.world ∙ h;
        hashes = λ n. Keeps-read_or_db s _ λ f h. v.block_hash n f.world ∙ h;
        sstores = λ e. cc;
        tstores = λ e. cc;
        logs = λ e. cc;
        ends = λ e. cc;
        set_codes = λ e. cc;
        touches = λ e. cc;
      }

  static-IsGranting :
      (i : Interruption) (u : V) → i.is_static ≡ true → IsGranting rt i (Same u) (Harmless u)
  static-IsGranting i u static =
      let s = settles u in
      record {
        kept = λ r. static-IsKept i u static;
        pays = Does-charge_regular_gas rt s _ (λ f h _. h) (λ f h _. h);
        grants = λ r g. Does-charge_regular_gas rt s _ (λ f h _. h) (λ f h _. h);
        opens_call = λ r inputs fits allowed f h. (h, allowed static);
        opens_create = λ r inputs fits e. cc;
      }

  action_end :
      (b : Bool) (spent : ℕ) (u : V) (r : Step C (Unit {0})) (f : Frame G W)
      → After (Same u 0) (Harmless u) r f
      → (view f.world ≡ u) × IsHarmless (end_of rt b spent r)
  unfolding end_of next_action
  action_end b n u (next a) f h = (h, tt)
  action_end b n u (leave (Exit.result c o)) f h = h
  action_end true n u (leave (Exit.halt c)) f h = h
  action_end false n u (leave (Exit.halt c)) f h = h
  action_end b n u (leave (Exit.new_call inputs)) f h = h
  action_end b n u (leave (Exit.new_create inputs)) f h = h
  action_end b n u (leave Exit.db) f h = h
  action_end b n u (leave Exit.abort) f h = h

-- If loads of the journal leave the state of the chain alone: a system call of a static frame,
-- whatever its number and its input, leaves that state as it was, creates no contract, and opens a
-- frame only if that is static too and gets no value.
pub execute_rwasm_interruption-static :
    {G W C S V : Type 0} (rt : Engine G W C S) (view : W → V) (i : Interruption) (f : Frame G W)
    → IsView rt view
    → i.is_static ≡ true
    → (view (execute_rwasm_interruption rt i f).1.world ≡ view f.world)
      × IsHarmless (execute_rwasm_interruption rt i f).0
unfolding execute_rwasm_interruption
execute_rwasm_interruption-static rt view i f v static =
    let u = view f.world in
    action_end rt view v _ _ u _ _ (
      (serve-Keeps rt i (Same rt view v u) (Harmless rt view v u)
          (static-IsGranting rt view v i u static) (syscall_of i.code_hash)).at
        f refl)
