-- ===== src/Revm/Keeps/Rules.antt =====
-- crates/revm/src/syscall.rs: what the charges and the operations of the journal keep, by what they
-- do to the gas and to the journal.
use fluentbase.Prelude.{ℕ, ◌≡◌, refl, Bool, true, false, Option, none, some}
use fluentbase.Types.ExitCode.{ExitCode}
use fluentbase.Revm.Engine.{Engine, Load, loaded, cold_load_skipped, db_error}
use fluentbase.Revm.Interruption.{
  Frame, Exit, charge_regular_gas, charge_state_gas, charged, load_or_halt, load_end, read_or_db,
  read_end, write,
}
use fluentbase.Revm.Keeps.{Keeps, After, Settles}
use fluentbase.Revm.Keeps.Grants.{Does, AfterWith}

module _ {G W C : Type 0} {P : Frame G W → Type 0} {Q : Exit C → Frame G W → Type 0}
    (s : Settles P Q) where
  load_step : {A : Type 0} (l : Load A) (f : Frame G W) → P f → After P Q (load_end {C = C} l) f
  unfolding load_end
  load_step (loaded a b) f h = h
  load_step cold_load_skipped f h = s.at (Exit.halt ExitCode.out_of_fuel) refl f h
  load_step db_error f h = s.at Exit.db refl f h

  pub Keeps-load_or_halt :
      {A : Type 0} (op : W → Load A × W)
      → ((f : Frame G W) → P f → P (record f { world = (op f.world).1 }))
      → Keeps P Q (load_or_halt op)
  unfolding load_or_halt
  Keeps-load_or_halt op k = record {
    at = λ f h. load_step (op f.world).0 (record f { world = (op f.world).1 }) (k f h);
  }

  read_step : {A : Type 0} (o : Option A) (f : Frame G W) → P f → After P Q (read_end {C = C} o) f
  unfolding read_end
  read_step (some a) f h = h
  read_step none f h = s.at Exit.db refl f h

  pub Keeps-read_or_db :
      {A : Type 0} (op : W → Option A × W)
      → ((f : Frame G W) → P f → P (record f { world = (op f.world).1 }))
      → Keeps P Q (read_or_db op)
  unfolding read_or_db
  Keeps-read_or_db op k = record {
    at = λ f h. read_step (op f.world).0 (record f { world = (op f.world).1 }) (k f h);
  }

  pub Keeps-write :
      (op : W → W)
      → ((f : Frame G W) → P f → P (record f { world = op f.world }))
      → Keeps P Q (write op)
  unfolding write
  Keeps-write op k = record { at = λ f h. k f h }

module _ {G W C S : Type 0} (rt : Engine G W C S) {P : Frame G W → Type 0}
    {Q : Exit C → Frame G W → Type 0} (s : Settles P Q) where
  charged_step :
      (R : Frame G W → Type 0) (r : Bool × G) (w : W)
      → (r.0 ≡ true → R (record { gas = r.1; world = w }))
      → (r.0 ≡ false → P (record { gas = r.1; world = w }))
      → AfterWith (λ _. R) Q (charged rt r w).0 (charged rt r w).1
  unfolding charged
  charged_step R (true, g) w paid refused = paid refl
  charged_step R (false, g) w paid refused =
      s.at (Exit.halt ExitCode.out_of_fuel) refl _ (refused refl)

  -- A charge leads to `R` if it is paid, and leaves `P` if it is not.
  pub Does-charge_regular_gas :
      {R : Frame G W → Type 0} (c : ℕ)
      → ((f : Frame G W)
          → P f
          → (rt.record_regular_cost c f.gas).0 ≡ true
          → R (record f { gas = (rt.record_regular_cost c f.gas).1 }))
      → ((f : Frame G W)
          → P f
          → (rt.record_regular_cost c f.gas).0 ≡ false
          → P (record f { gas = (rt.record_regular_cost c f.gas).1 }))
      → Does P (λ _. R) Q (charge_regular_gas rt c)
  unfolding charge_regular_gas
  Does-charge_regular_gas {R} c paid refused = record {
    at = λ f h. charged_step R (rt.record_regular_cost c f.gas) f.world (paid f h) (refused f h);
  }

  pub Does-charge_state_gas :
      {R : Frame G W → Type 0} (c : ℕ)
      → ((f : Frame G W) → P f → R (record f { gas = (rt.record_state_cost c f.gas).1 }))
      → ((f : Frame G W) → P f → P (record f { gas = (rt.record_state_cost c f.gas).1 }))
      → Does P (λ _. R) Q (charge_state_gas rt c)
  unfolding charge_state_gas
  Does-charge_state_gas {R} c paid refused = record {
    at = λ f h.
        charged_step R (rt.record_state_cost c f.gas) f.world (λ _. paid f h) (λ _. refused f h);
  }

module _ {G W C S : Type 0} (rt : Engine G W C S) (Q : Exit C → Frame G W → Type 0)
    (ends : (f : Frame G W) → Q (Exit.halt ExitCode.out_of_fuel) f) where
  paid_step :
      (R : Frame G W → Type 0) (r : Bool × G) (w : W)
      → (r.0 ≡ true → R (record { gas = r.1; world = w }))
      → AfterWith (λ _. R) Q (charged rt r w).0 (charged rt r w).1
  unfolding charged
  paid_step R (true, g) w paid = paid refl
  paid_step R (false, g) w paid = ends _

  -- A charge leads to `R` if it is paid, where nothing is claimed of the end without gas.
  pub Does-charge_or_end :
      {P R : Frame G W → Type 0} (c : ℕ)
      → ((f : Frame G W)
          → P f
          → (rt.record_regular_cost c f.gas).0 ≡ true
          → R (record f { gas = (rt.record_regular_cost c f.gas).1 }))
      → Does P (λ _. R) Q (charge_regular_gas rt c)
  unfolding charge_regular_gas
  Does-charge_or_end {R} c paid = record {
    at = λ f h. paid_step R (rt.record_regular_cost c f.gas) f.world (paid f h);
  }
