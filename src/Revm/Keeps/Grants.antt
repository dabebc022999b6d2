-- ===== src/Revm/Keeps/Grants.antt =====
-- crates/revm/src/syscall.rs: actions that set gas aside for a new frame.
use fluentbase.Prelude.{ℕ, ◌+◌, ◌≤◌, ◌≡◌, refl, Bool, true, false}
use fluentbase.Types.ExitCode.{ExitCode}
use fluentbase.Revm.Engine.{Engine}
use fluentbase.Revm.Interruption.{
  Interruption, CallValue, transfer, apparent, CallInputs, CreateInputs, Exit, Step, next, leave,
  Frame, Call, resume, ◌>>=◌, ◌>>◌, assert_halt, charge_regular_gas,
}
use fluentbase.Revm.Keeps.{After, Keeps, Settles, IsKept}

-- `R a` holds where the action goes on with `a`, `Q` where the call ends.
abbrev pub AfterWith :
    {G W C A : Type 0}
    → (A → Frame G W → Type 0)
    → (Exit C → Frame G W → Type 0)
    → Step C A
    → Frame G W
    → Type 0
AfterWith R Q (next a) f = R a f
AfterWith R Q (leave e) f = Q e f

pub record Does {G W C A : Type 0} (P : Frame G W → Type 0) (R : A → Frame G W → Type 0)
    (Q : Exit C → Frame G W → Type 0) (m : Call G W C A) : Type 0 where
  pub at : (f : Frame G W) → P f → AfterWith R Q (m f).0 (m f).1

module _ {G W C A : Type 0} (P : Frame G W → Type 0) (Q : Exit C → Frame G W → Type 0) where
  with_value : (r : Step C A) (f : Frame G W) → After P Q r f → AfterWith (λ _. P) Q r f
  with_value (next a) f h = h
  with_value (leave e) f h = h

  without_value : (r : Step C A) (f : Frame G W) → AfterWith (λ _. P) Q r f → After P Q r f
  without_value (next a) f h = h
  without_value (leave e) f h = h

module _ {G W C : Type 0} {Q : Exit C → Frame G W → Type 0} where
  pub Does-Keeps :
      {A : Type 0} {P : Frame G W → Type 0} (m : Call G W C A) → Keeps P Q m → Does P (λ _. P) Q m
  Does-Keeps {P} m k = record { at = λ f h. with_value P Q (m f).0 (m f).1 (k.at f h) }

  pub Keeps-Does :
      {A : Type 0} {P : Frame G W → Type 0} (m : Call G W C A) → Does P (λ _. P) Q m → Keeps P Q m
  Keeps-Does {P} m d = record { at = λ f h. without_value P Q (m f).0 (m f).1 (d.at f h) }

  Does-resume :
      {A B : Type 0} {R : A → Frame G W → Type 0} {T : B → Frame G W → Type 0} (r : Step C A)
      (k : A → Call G W C B) (f : Frame G W)
      → ((a : A) → Does (R a) T Q (k a))
      → AfterWith R Q r f
      → AfterWith T Q (resume r k f).0 (resume r k f).1
  Does-resume (next a) k f kk h = (kk a).at f h
  Does-resume (leave e) k f kk h = h

  pub Does-bind :
      {A B : Type 0} {P : Frame G W → Type 0} {R : A → Frame G W → Type 0}
      {T : B → Frame G W → Type 0} (m : Call G W C A) (k : A → Call G W C B)
      → Does P R Q m
      → ((a : A) → Does (R a) T Q (k a))
      → Does P T Q (m >>= k)
  Does-bind m k km kk = record { at = λ f h. Does-resume (m f).0 k (m f).1 kk (km.at f h) }

  -- A step that keeps `P`, and then the rest.
  pub Does-after :
      {A B : Type 0} {P : Frame G W → Type 0} {T : B → Frame G W → Type 0} (m : Call G W C A)
      (k : A → Call G W C B)
      → Keeps P Q m
      → ((a : A) → Does P T Q (k a))
      → Does P T Q (m >>= k)
  Does-after m k km kk = Does-bind m k (Does-Keeps m km) kk

  pub Does-guarded :
      {B : Type 0} {P : Frame G W → Type 0} {T : B → Frame G W → Type 0} (b : Bool) (e : ExitCode)
      (m : Call G W C B)
      → Settles P Q
      → (b ≡ true → Does P T Q m)
      → Does P T Q (assert_halt b e >> m)
  unfolding assert_halt
  Does-guarded false e m s km = record { at = λ f h. s.at (Exit.halt e) refl f h }
  Does-guarded true e m s km = record { at = λ f h. (km refl).at f h }

-- The value that a call moves from the caller.
abbrev pub moved : CallValue → ℕ
moved (transfer value) = value
moved (apparent value) = 0

-- A static frame opens static frames, and moves no value.
abbrev pub IsAllowed : {C : Type 0} → Interruption → CallInputs C → Type 0
IsAllowed i inputs = i.is_static ≡ true → (inputs.is_static ≡ true) × (moved inputs.value ≡ 0)

-- `P r` holds of a frame that has set `r` gas aside: what the charges must do to it, and what it must
-- be enough for where a new frame gets the gas.
pub record IsGranting {G W C S : Type 0} (rt : Engine G W C S) (i : Interruption)
    (P : ℕ → Frame G W → Type 0) (Q : Exit C → Frame G W → Type 0) : Type 0 where
  pub kept : (r : ℕ) → IsKept rt i (P r) Q
  pub pays : Does (P 0) (λ _. P rt.call_stipend) Q (charge_regular_gas rt rt.transfer_value_cost)
  pub grants : (r g : ℕ) → Does (P r) (λ _. P (r + g)) Q (charge_regular_gas rt g)
  pub opens_call :
      (r : ℕ) (inputs : CallInputs C)
      → inputs.gas_limit ≤ r
      → IsAllowed i inputs
      → (f : Frame G W) → P r f
      → Q (Exit.new_call inputs) f
  pub opens_create :
      (r : ℕ) (inputs : CreateInputs)
      → inputs.gas_limit ≤ r
      → i.is_static ≡ false
      → (f : Frame G W) → P r f
      → Q (Exit.new_create inputs) f
