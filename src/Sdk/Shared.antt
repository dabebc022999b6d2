-- ===== src/Sdk/Shared.antt =====
-- `SharedContextImpl` of crates/sdk/src/shared.rs: the frame of a contract that runs as ordinary
-- rWasm, with the system calls that crates/revm/src/syscall.rs answers. A call that the host refuses
-- (`return_halt!`) ends the frame with its exit code. The gas of a system call is not modelled.
pub mod Bytes
pub mod Vector
pub mod Laws
use fluentbase.Prelude.{
  ℕ, ◌-◌, Bool, true, false, Option, List, [], ◌∷◌, ◌++◌, ltb, ◌==◌, if◌then◌else◌, length, take,
}
use fluentbase.Types.ExitCode.{ExitCode}
use fluentbase.Sdk.State.{Context}
use fluentbase.Sdk.Result.{Result, ok, err, ret, abort}

-- An account's code: `Bytecode::Rwasm` and `Bytecode::new_ownable_account`.
pub data Bytecode : Type 0 where
  rwasm : List ℕ → Bytecode
  ownable : ℕ → List ℕ → Bytecode

-- `storage` are the contract's own slots, `logs` its events (a type of each contract), `codes` and
-- `balances` those of every account.
pub record Shared (E : Type 0) : Type 0 where
  pub storage : ℕ → ℕ
  pub logs : List E
  pub codes : ℕ → Bytecode
  pub balances : ℕ → ℕ
  pub context : Context
  pub input : List ℕ
  pub output : List ℕ
  pub fuel : ℕ

abbrev pub Call : Type 0 → Type 0 → Type 0
Call E A = Shared E → Result A × Shared E

module _ {E : Type 0} where
  infixl 5 ◌>>=◌ ◌>>◌
  abbrev pub ◌>>=◌ : {A B : Type 0} → Call E A → (A → Call E B) → Call E B
  ◌>>=◌ m f s =
      let (r, s') = m s in
      elim r [
        | ok a ↦ f a s'
        | err e ↦ (err e, s')
        | ret code ↦ (ret code, s')
        | abort ↦ (abort, s')
      ]

  abbrev pub ◌>>◌ : {A B : Type 0} → Call E A → Call E B → Call E B
  m >> k = m >>= λ _. k

  abbrev pub pure : {A : Type 0} → A → Call E A
  pure a s = (ok a, s)

  -- `native_exit(code)`: the frame ends at once.
  abbrev pub native_exit : {A : Type 0} → ExitCode → Call E A
  native_exit e s = (err e, s)

  -- `if c { panic!(…) }`
  abbrev pub panic_if : Bool → Call E (Unit {0})
  panic_if true s = (abort, s)
  panic_if false s = (ok tt, s)

  abbrev pub panic : {A : Type 0} → Call E A
  panic s = (abort, s)

  -- `assert_halt!` of the host
  abbrev pub halt_if : Bool → ExitCode → Call E (Unit {0})
  halt_if true e s = (err e, s)
  halt_if false e s = (ok tt, s)

  abbrev pub modify : (Shared E → Shared E) → Call E (Unit {0})
  modify f s = (ok tt, f s)

  abbrev pub gets : {A : Type 0} → (Shared E → A) → Call E A
  gets f s = (ok (f s), s)

-- A slot of the storage replaced.
abbrev pub put : ℕ → ℕ → (ℕ → ℕ) → ℕ → ℕ
put k v storage j = if k == j then v else storage j

module _ {E : Type 0} where
  -- `assert_halt!(!is_static, StateChangeDuringStaticCall)`
  abbrev pub writable : Call E (Unit {0})
  writable s = halt_if s.context.is_static ExitCode.state_change_during_static_call s

  -- `SYSCALL_ID_STORAGE_READ`
  unfoldable pub sload : ℕ → Call E ℕ
  sload slot s = (ok (s.storage slot), s)

  -- `SYSCALL_ID_STORAGE_WRITE`
  unfoldable pub sstore : ℕ → ℕ → Call E (Unit {0})
  sstore slot value = do writable; modify λ s. record s { storage = put slot value s.storage }

  -- `SYSCALL_ID_EMIT_LOG`
  unfoldable pub emit : E → Call E (Unit {0})
  emit event = do writable; modify λ s. record s { logs = s.logs ++ (event ∷ []) }

  unfoldable pub write : List ℕ → Call E (Unit {0})
  write bytes = modify λ s. record s { output = s.output ++ bytes }

  -- `syscall_charge_fuel_impl`: a charge above what is left traps.
  unfoldable pub charge_fuel : ℕ → Call E (Unit {0})
  charge_fuel amount = do
    fuel ← gets λ s. s.fuel
    halt_if (ltb fuel amount) ExitCode.out_of_fuel
    modify λ s. record s { fuel = s.fuel - amount }
