-- ===== src/Sdk/Result.antt =====
-- `Result<T, ExitCode>` with early returns and panics, and the state of a system contract as a monad
-- over it.
use fluentbase.Prelude.{ℕ, Bool, true, false, Option, none, some}
use fluentbase.Types.ExitCode.{ExitCode}
use fluentbase.Sdk.State.{System}

-- `ret` is an early `return Ok(code)` of a handler. `abort` is a Rust panic: the panic handler leaves
-- the contract with `ExitCode::Panic` at once.
pub data Result {ℓ} (A : Type ℓ) : Type ℓ where
  ok : A → Result A
  err : ExitCode → Result A
  ret : ℕ → Result A
  abort : Result A

-- A call on the SDK: what was written stays written after an error.
abbrev pub M : Type 0 → Type 0
M A = System → Result A × System

infixl 5 ◌>>=◌ ◌>>◌
abbrev pub ◌>>=◌ : {A B : Type 0} → M A → (A → M B) → M B
◌>>=◌ m f s =
    let (r, s') = m s in
    elim r [ ok a ↦ f a s' | err e ↦ (err e, s') | ret code ↦ (ret code, s') | abort ↦ (abort, s') ]

abbrev pub ◌>>◌ : {A B : Type 0} → M A → M B → M B
m >> k = m >>= λ _. k

module _ {A : Type 0} where
  abbrev pub pure : A → M A
  pure a s = (ok a, s)

  abbrev pub fail : ExitCode → M A
  fail e s = (err e, s)

  abbrev pub panic : M A
  panic s = (abort, s)

  -- `ok_or(e)?`
  abbrev pub ok_or : Option A → ExitCode → M A
  ok_or (some a) e s = (ok a, s)
  ok_or none e s = (err e, s)

  abbrev pub gets : (System → A) → M A
  gets f s = (ok (f s), s)

abbrev pub modify : (System → System) → M (Unit {0})
modify f s = (ok tt, f s)

-- `if c { return Err(e); }`
abbrev pub fail_if : Bool → ExitCode → M (Unit {0})
fail_if true e s = (err e, s)
fail_if false e s = (ok tt, s)

-- `if c { return Ok(code); }`
abbrev pub return_if : Bool → ℕ → M (Unit {0})
return_if true code s = (ret code, s)
return_if false code s = (ok tt, s)

-- `let Some(a) = o else { return Ok(code) };`
abbrev pub some_or_return : Option ℕ → ℕ → M ℕ
some_or_return none code s = (ret code, s)
some_or_return (some a) code s = (ok a, s)

-- The body of a handler: an early return is its result.
abbrev pub body : M ℕ → M ℕ
body m s =
    let (r, s') = m s in
    elim r [
      | ok code ↦ (ok code, s')
      | err e ↦ (err e, s')
      | ret code ↦ (ok code, s')
      | abort ↦ (abort, s')
    ]
