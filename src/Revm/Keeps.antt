-- ===== src/Revm/Keeps.antt =====
-- Invariants of the actions of crates/revm/src/syscall.rs: one rule for each way to build one.
pub mod Storage
pub mod Calls
pub mod Account
pub mod Owned
pub mod Grants
pub mod Rules
pub mod Serve
use fluentbase.Prelude.{
  ℕ, not, Bool, true, false, Option, none, some, List, [], ◌≡◌, refl, arith, if◌then◌else◌,
}
use fluentbase.Prelude.Int.{ℤ}
use fluentbase.Types.ExitCode.{ExitCode}
use fluentbase.Revm.Engine.{Load, loaded, cold_load_skipped, db_error, Engine}
use fluentbase.Revm.Interruption.{
  Interruption, Exit, Step, next, leave, Frame, Call, resume, ◌>>=◌, ◌>>◌, exit, pure, assert_halt,
  some_or_halt, read_or_db, load_or_halt, write, gets, charge_regular_gas, charge_state_gas, refund,
  writable, fixed_end, read_fixed, input_exactly, input_at_least, input_more_than, input_from,
}

-- The ways to end that open no new frame.
abbrev pub is_settled : {C : Type 0} → Exit C → Bool
is_settled (Exit.result code output) = true
is_settled (Exit.halt code) = true
is_settled (Exit.new_call inputs) = false
is_settled (Exit.new_create inputs) = false
is_settled Exit.db = true
is_settled Exit.abort = true

-- `P` holds where the call goes on, `Q` of the exit where it ends.
abbrev pub After :
    {G W C A : Type 0}
    → (Frame G W → Type 0)
    → (Exit C → Frame G W → Type 0)
    → Step C A
    → Frame G W
    → Type 0
After P Q (next a) f = P f
After P Q (leave e) f = Q e f

-- From `P`, the action keeps `P` or ends with `Q`.
pub record Keeps {G W C A : Type 0} (P : Frame G W → Type 0) (Q : Exit C → Frame G W → Type 0)
    (m : Call G W C A) : Type 0 where
  pub at : (f : Frame G W) → P f → After P Q (m f).0 (m f).1

-- `P` is enough for `Q` where no frame is opened.
pub record Settles {G W C : Type 0} (P : Frame G W → Type 0) (Q : Exit C → Frame G W → Type 0)
    : Type 0 where
  pub at : (e : Exit C) → is_settled e ≡ true → (f : Frame G W) → P f → Q e f

module _ {G W C : Type 0} {P : Frame G W → Type 0} {Q : Exit C → Frame G W → Type 0} where
  pub Keeps-result :
      {A : Type 0} (c : ExitCode) (o : List ℕ)
      → Settles P Q
      → Keeps {A = A} P Q (exit (Exit.result c o))
  unfolding exit
  Keeps-result c o s = record { at = λ f h. s.at (Exit.result c o) refl f h }

  pub Keeps-halt :
      {A : Type 0} (c : ExitCode) → Settles P Q → Keeps {A = A} P Q (exit (Exit.halt c))
  unfolding exit
  Keeps-halt c s = record { at = λ f h. s.at (Exit.halt c) refl f h }

  pub Keeps-abort : {A : Type 0} → Settles P Q → Keeps {A = A} P Q (exit Exit.abort)
  unfolding exit
  Keeps-abort s = record { at = λ f h. s.at Exit.abort refl f h }

  pub Keeps-pure : {A : Type 0} (a : A) → Keeps P Q (pure a)
  unfolding pure
  Keeps-pure a = record { at = λ f h. h }

  pub Keeps-gets : {A : Type 0} (op : Frame G W → A) → Keeps P Q (gets op)
  unfolding gets
  Keeps-gets op = record { at = λ f h. h }

  pub Keeps-assert_halt : (b : Bool) (e : ExitCode) → Settles P Q → Keeps P Q (assert_halt b e)
  unfolding assert_halt
  Keeps-assert_halt true e s = record { at = λ f h. h }
  Keeps-assert_halt false e s = record { at = λ f h. s.at (Exit.halt e) refl f h }

  pub Keeps-some_or_halt :
      {A : Type 0} (o : Option A) (e : ExitCode) → Settles P Q → Keeps P Q (some_or_halt o e)
  unfolding some_or_halt
  Keeps-some_or_halt (some a) e s = record { at = λ f h. h }
  Keeps-some_or_halt none e s = record { at = λ f h. s.at (Exit.halt e) refl f h }

  pub Keeps-if :
      {A : Type 0} (b : Bool) (m n : Call G W C A)
      → Keeps P Q m
      → Keeps P Q n
      → Keeps P Q (if b then m else n)
  Keeps-if true m n km kn = km
  Keeps-if false m n km kn = kn

  Keeps-resume :
      {A B : Type 0} (r : Step C A) (k : A → Call G W C B) (f : Frame G W)
      → ((a : A) → Keeps P Q (k a))
      → After P Q r f
      → After P Q (resume r k f).0 (resume r k f).1
  Keeps-resume (next a) k f kk h = (kk a).at f h
  Keeps-resume (leave e) k f kk h = h

  pub Keeps-bind :
      {A B : Type 0} (m : Call G W C A) (k : A → Call G W C B)
      → Keeps P Q m
      → ((a : A) → Keeps P Q (k a))
      → Keeps P Q (m >>= k)
  Keeps-bind m k km kk = record { at = λ f h. Keeps-resume (m f).0 k (m f).1 kk (km.at f h) }

  -- What follows a test runs where the test holds.
  pub Keeps-guarded :
      {A : Type 0} (b : Bool) (e : ExitCode) (m : Call G W C A)
      → Settles P Q
      → (b ≡ true → Keeps P Q m)
      → Keeps P Q (assert_halt b e >> m)
  unfolding assert_halt
  Keeps-guarded false e m s km = record { at = λ f h. s.at (Exit.halt e) refl f h }
  Keeps-guarded true e m s km = record { at = λ f h. (km refl).at f h }

  pub Keeps-writable :
      {A : Type 0} (i : Interruption) (m : Call G W C A)
      → Settles P Q
      → (i.is_static ≡ false → Keeps P Q m)
      → Keeps P Q (writable i >> m)
  unfolding writable
  Keeps-writable i m s km =
      Keeps-guarded (not i.is_static) ExitCode.state_change_during_static_call m s
        λ h. km (ground (arith, h))

  pub Keeps-read_fixed : (i : Interruption) (n : ℕ) → Settles P Q → Keeps P Q (read_fixed i n)
  unfolding read_fixed
  Keeps-read_fixed i n s = record { at = λ f h. go (i.memory i.start n) f h }
    where
      go : (o : Option (List ℕ)) (f : Frame G W) → P f → After P Q (fixed_end {C = C} o) f
      go (some bytes) f h = h
      go none f h = s.at (Exit.result ExitCode.memory_out_of_bounds []) refl f h

  ruleset inputs = (Keeps-bind, Keeps-assert_halt, Keeps-read_fixed, Keeps-some_or_halt)

  pub Keeps-input_exactly : (i : Interruption) (n : ℕ) → Settles P Q → Keeps P Q (input_exactly i n)
  unfolding input_exactly
  Keeps-input_exactly i n s = search inputs

  pub Keeps-input_at_least :
      (i : Interruption) (n : ℕ) → Settles P Q → Keeps P Q (input_at_least i n)
  unfolding input_at_least
  Keeps-input_at_least i n s = search inputs

  pub Keeps-input_more_than :
      (i : Interruption) (n : ℕ) → Settles P Q → Keeps P Q (input_more_than i n)
  unfolding input_more_than
  Keeps-input_more_than i n s = search inputs

  pub Keeps-input_from : (i : Interruption) (n : ℕ) → Settles P Q → Keeps P Q (input_from i n)
  unfolding input_from
  Keeps-input_from i n s = search inputs

-- What a system call must keep of `P`: charges and reads always, changes unless the call is static.
pub record IsKept {G W C S : Type 0} (rt : Engine G W C S) (i : Interruption)
    (P : Frame G W → Type 0) (Q : Exit C → Frame G W → Type 0) : Type 0 where
  pub settles : Settles P Q
  pub charges : (cost : ℕ) → Keeps P Q (charge_regular_gas rt cost)
  pub state_charges : (cost : ℕ) → Keeps P Q (charge_state_gas rt cost)
  pub refunds : (amount : ℤ) → Keeps P Q (refund rt amount)
  pub sloads : (a k : ℕ) (b : Bool) → Keeps P Q (load_or_halt (rt.sload a k b))
  pub infos : (a : ℕ) (c b : Bool) → Keeps P Q (load_or_halt (rt.load_account_info a c b))
  pub accounts : (a : ℕ) → Keeps P Q (read_or_db (rt.load_account a))
  pub codes : (a : ℕ) → Keeps P Q (read_or_db (rt.load_account_with_code a))
  pub hashes : (n : ℕ) → Keeps P Q (read_or_db (rt.block_hash n))
  pub sstores :
      i.is_static ≡ false → (a k v : ℕ) (b : Bool) → Keeps P Q (load_or_halt (rt.sstore a k v b))
  pub tstores : i.is_static ≡ false → (a k v : ℕ) → Keeps P Q (write (rt.tstore a k v))
  pub logs : i.is_static ≡ false → (a : ℕ) (t d : List ℕ) → Keeps P Q (write (rt.log a t d))
  pub ends :
      i.is_static ≡ false → (a t : ℕ) (b : Bool) → Keeps P Q (load_or_halt (rt.selfdestruct a t b))
  pub set_codes : i.is_static ≡ false → (a : ℕ) (c : C) → Keeps P Q (write (rt.set_code a c))
  pub touches : i.is_static ≡ false → (a : ℕ) → Keeps P Q (write (rt.touch_account a))

pub ruleset keeps_rules = (
  Keeps-result, Keeps-halt, Keeps-abort, Keeps-pure, Keeps-gets, Keeps-assert_halt,
  Keeps-some_or_halt, Keeps-if, Keeps-input_exactly, Keeps-input_at_least, Keeps-input_more_than,
  Keeps-input_from, Keeps-read_fixed, Keeps-bind,
)
