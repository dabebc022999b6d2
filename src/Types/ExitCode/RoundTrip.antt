-- ===== src/Types/ExitCode/RoundTrip.antt =====
-- `ExitCode` of crates/types/src/exit_code.rs to its number and back.
use fluentbase.Prelude.{ℕ, ◌≡◌, refl, some, arith}
use fluentbase.Prelude.Int.{ℤ, pos, negsuc}
use fluentbase.Types.ExitCode.{ExitCode, into_i32, from_repr, from_repr_neg, from_i32}

-- Every exit code comes back from its number.
pub from_i32-into_i32 : (c : ExitCode) → from_i32 (into_i32 c) ≡ c
unfolding from_i32 from_repr from_repr_neg into_i32
from_i32-into_i32 ExitCode.ok = refl
from_i32-into_i32 ExitCode.panic = refl
from_i32-into_i32 ExitCode.interruption_called = refl
from_i32-into_i32 ExitCode.root_call_only = refl
from_i32-into_i32 ExitCode.malformed_builtin_params = refl
from_i32-into_i32 ExitCode.call_depth_overflow = refl
from_i32-into_i32 ExitCode.non_negative_exit_code = refl
from_i32-into_i32 ExitCode.unknown_error = refl
from_i32-into_i32 ExitCode.input_output_out_of_bounds = refl
from_i32-into_i32 ExitCode.precompile_error = refl
from_i32-into_i32 ExitCode.not_supported_bytecode = refl
from_i32-into_i32 ExitCode.state_change_during_static_call = refl
from_i32-into_i32 ExitCode.create_contract_size_limit = refl
from_i32-into_i32 ExitCode.create_contract_collision = refl
from_i32-into_i32 ExitCode.create_contract_starting_with_ef = refl
from_i32-into_i32 ExitCode.out_of_memory = refl
from_i32-into_i32 ExitCode.insufficient_balance = refl
from_i32-into_i32 ExitCode.unreachable_code_reached = refl
from_i32-into_i32 ExitCode.memory_out_of_bounds = refl
from_i32-into_i32 ExitCode.table_out_of_bounds = refl
from_i32-into_i32 ExitCode.indirect_call_to_null = refl
from_i32-into_i32 ExitCode.integer_division_by_zero = refl
from_i32-into_i32 ExitCode.integer_overflow = refl
from_i32-into_i32 ExitCode.bad_conversion_to_integer = refl
from_i32-into_i32 ExitCode.stack_overflow = refl
from_i32-into_i32 ExitCode.bad_signature = refl
from_i32-into_i32 ExitCode.out_of_fuel = refl
from_i32-into_i32 ExitCode.unknown_external_function = refl
from_i32-into_i32 ExitCode.unexpected_fatal_execution_failure = refl
from_i32-into_i32 ExitCode.missing_storage_slot = refl

from_repr_neg_lem : (n : ℕ) (c : ExitCode) → from_repr_neg n ≡ some c → into_i32 c ≡ negsuc n
unfolding from_repr_neg into_i32
from_repr_neg_lem n c h = ground arith

-- A number that is the discriminant of an exit code is the number of that code.
into_i32-from_repr : (v : ℤ) (c : ExitCode) → from_repr v ≡ some c → into_i32 c ≡ v
unfolding from_repr into_i32
into_i32-from_repr (pos n) c h = ground arith
into_i32-from_repr (negsuc n) c h = from_repr_neg_lem n c h
