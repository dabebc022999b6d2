-- ===== src/Revm/Interruption.antt =====
-- crates/revm/src/syscall.rs: the frame in which a system call runs, its ways to end, and the macros
-- that `execute_rwasm_interruption` defines. The inspector's calls only trace and are left out.
use fluentbase.Prelude.{
  ℕ, ◌+◌, ◌-◌, Bool, true, false, Option, none, some, List, [], not, ◌&&◌, leb, ltb, ◌==◌, length,
}
use mathlib.Core.List.{reverse}
use fluentbase.Prelude.Bytes.{be_bytes, from_be_bytes}
use fluentbase.Prelude.Int.{ℤ}
use fluentbase.Types.ExitCode.{ExitCode}
use fluentbase.Revm.Engine.{Load, loaded, cold_load_skipped, db_error, Engine}

-- `SystemInterruptionInputs` with the facts of the frame that the call reads. `memory` is
-- `MemoryReaderTr::memory_read` for the frame's `call_id`: the bytes at an offset, or a trap.
pub record Interruption : Type 0 where
  pub code_hash : ℕ
  pub start : ℕ
  pub stop : ℕ
  pub fuel_limit : ℕ
  pub state : ℕ
  pub memory : ℕ → ℕ → Option (List ℕ)
  pub target_address : ℕ
  pub account_owner_address : Option ℕ
  pub caller_address : ℕ
  pub call_value : ℕ
  pub is_static : Bool

pub data CallValue : Type 0 where
  transfer : ℕ → CallValue
  apparent : ℕ → CallValue

pub data CallScheme : Type 0 where
  call : CallScheme
  static_call : CallScheme
  call_code : CallScheme
  delegate_call : CallScheme

-- revm's `CallInputs`; `bytecode` and `code_hash` are its `known_bytecode`.
pub record CallInputs (C : Type 0) : Type 0 where
  pub input : List ℕ
  pub gas_limit : ℕ
  pub reservoir : ℕ
  pub bytecode_address : ℕ
  pub code_hash : ℕ
  pub bytecode : C
  pub target_address : ℕ
  pub caller : ℕ
  pub value : CallValue
  pub scheme : CallScheme
  pub is_static : Bool

-- revm's `CreateInputs`; `salt` is there for `CreateScheme::Create2`.
pub record CreateInputs : Type 0 where
  pub caller : ℕ
  pub salt : Option ℕ
  pub value : ℕ
  pub init_code : List ℕ
  pub gas_limit : ℕ
  pub reservoir : ℕ

-- `return_result!`, `return_halt!`, `return_frame!` with a call or a creation, and
-- `Err(ContextError::Db)`. `abort` is a panic of the host.
pub data Exit (C : Type 0) : Type 0 where
  result : ExitCode → List ℕ → Exit C
  halt : ExitCode → Exit C
  new_call : CallInputs C → Exit C
  new_create : CreateInputs → Exit C
  db : Exit C
  abort : Exit C

pub data Step (C A : Type 0) : Type 0 where
  next : A → Step C A
  leave : Exit C → Step C A

-- What a call changes: the gas of the frame's interpreter and the journal.
pub record Frame (G W : Type 0) : Type 0 where
  pub gas : G
  pub world : W

abbrev pub Call : Type 0 → Type 0 → Type 0 → Type 0 → Type 0
Call G W C A = Frame G W → Step C A × Frame G W

-- `from_le_slice` and `to_le_bytes` of a word.
abbrev pub from_le_bytes : List ℕ → ℕ
from_le_bytes bytes = from_be_bytes (reverse bytes)

abbrev pub le_bytes : ℕ → ℕ → List ℕ
le_bytes n v = reverse (be_bytes n v)

abbrev pub state_main : ℕ
state_main = 0

module _ {C : Type 0} where
  unfoldable pub read_end : {A : Type 0} → Option A → Step C A
  read_end (some a) = next a
  read_end none = leave db

  -- `unwrap_journal_load_error!`
  unfoldable pub load_end : {A : Type 0} → Load A → Step C (A × Bool)
  load_end (loaded a is_cold) = next (a, is_cold)
  load_end cold_load_skipped = leave (halt ExitCode.out_of_fuel)
  load_end db_error = leave db

  unfoldable pub fixed_end : Option (List ℕ) → Step C (List ℕ)
  fixed_end (some bytes) = next bytes
  fixed_end none = leave (result ExitCode.memory_out_of_bounds [])

module _ {G W C : Type 0} where
  -- What follows a step of the call, if it goes on.
  abbrev pub resume : {A B : Type 0} → Step C A → (A → Call G W C B) → Call G W C B
  resume (next a) k f = k a f
  resume (leave e) k f = (leave e, f)

  infixl 5 ◌>>=◌ ◌>>◌
  abbrev pub ◌>>=◌ : {A B : Type 0} → Call G W C A → (A → Call G W C B) → Call G W C B
  ◌>>=◌ m k f = resume (m f).0 k (m f).1

  abbrev pub ◌>>◌ : {A B : Type 0} → Call G W C A → Call G W C B → Call G W C B
  m >> k = m >>= λ _. k

  -- The end of the call.
  unfoldable pub exit : {A : Type 0} → Exit C → Call G W C A
  exit e f = (leave e, f)

  unfoldable pub pure : {A : Type 0} → A → Call G W C A
  pure a f = (next a, f)

  -- `assert_halt!`
  unfoldable pub assert_halt : Bool → ExitCode → Call G W C (Unit {0})
  assert_halt true e f = (next tt, f)
  assert_halt false e f = (leave (halt e), f)

  -- `let Some(a) = o else { return_halt!(e) };`, and the same with `Ok`.
  unfoldable pub some_or_halt : {A : Type 0} → Option A → ExitCode → Call G W C A
  some_or_halt (some a) e f = (next a, f)
  some_or_halt none e f = (leave (halt e), f)

  -- A read of the journal that may fail with a database error, `?`.
  unfoldable pub read_or_db : {A : Type 0} → (W → Option A × W) → Call G W C A
  unfolding read_end
  read_or_db op f = let (o, w) = op f.world in (read_end o, record f { world = w })

  -- A load, and `unwrap_journal_load_error!` on it.
  unfoldable pub load_or_halt : {A : Type 0} → (W → Load A × W) → Call G W C (A × Bool)
  unfolding load_end
  load_or_halt op f = let (l, w) = op f.world in (load_end l, record f { world = w })

  -- A change of the journal.
  unfoldable pub write : (W → W) → Call G W C (Unit {0})
  write op f = (next tt, record f { world = op f.world })

  unfoldable pub gets : {A : Type 0} → (Frame G W → A) → Call G W C A
  gets op f = (next (op f), f)

module _ {G W C S : Type 0} (rt : Engine G W C S) where
  unfoldable pub charged : Bool × G → W → Step C (Unit {0}) × Frame G W
  charged (true, g) w = (next tt, record { gas = g; world = w })
  charged (false, g) w = (leave (halt ExitCode.out_of_fuel), record { gas = g; world = w })

  -- `charge_regular_gas!`
  unfoldable pub charge_regular_gas : ℕ → Call G W C (Unit {0})
  unfolding charged
  charge_regular_gas cost f = charged (rt.record_regular_cost cost f.gas) f.world

  -- `charge_state_gas!`
  unfoldable pub charge_state_gas : ℕ → Call G W C (Unit {0})
  unfolding charged
  charge_state_gas cost f = charged (rt.record_state_cost cost f.gas) f.world

  -- `record_refund`
  unfoldable pub refund : ℤ → Call G W C (Unit {0})
  refund amount f = (next tt, record f { gas = rt.record_refund amount f.gas })

-- `inputs.input.len()`
abbrev pub input_length : Interruption → ℕ
input_length i = i.stop - i.start

module _ {G W C : Type 0} (i : Interruption) where
  -- `assert_halt!(!is_static, StateChangeDuringStaticCall)`
  unfoldable pub writable : Call G W C (Unit {0})
  unfolding assert_halt
  writable = assert_halt (not i.is_static) ExitCode.state_change_during_static_call

  -- The read of the first `length` bytes of the input, which ends with a result if it traps.
  unfoldable pub read_fixed : ℕ → Call G W C (List ℕ)
  unfolding fixed_end
  read_fixed length f = (fixed_end (i.memory i.start length), f)

  -- `get_input_validated!(== length)`
  unfoldable pub input_exactly : ℕ → Call G W C (List ℕ)
  input_exactly length = do
    assert_halt (input_length i == length && i.state == state_main)
        ExitCode.malformed_builtin_params
    read_fixed length

  -- `get_input_validated!(>= length)`; the lazy rest is `input_from length`.
  unfoldable pub input_at_least : ℕ → Call G W C (List ℕ)
  input_at_least length = do
    assert_halt (leb length (input_length i) && i.state == state_main)
        ExitCode.malformed_builtin_params
    read_fixed length

  -- `get_input_validated!(> length)`; the lazy rest is `input_from (length + 1)`.
  unfoldable pub input_more_than : ℕ → Call G W C (List ℕ)
  input_more_than length = do
    assert_halt (ltb length (input_length i) && i.state == state_main)
        ExitCode.malformed_builtin_params
    read_fixed (length + 1)

  -- `lazy_contract_input() else { return_halt!(MemoryOutOfBounds) }`
  unfoldable pub input_from : ℕ → Call G W C (List ℕ)
  input_from offset =
      some_or_halt (i.memory (i.start + offset) (input_length i - offset))
        ExitCode.memory_out_of_bounds
