-- ===== src/Types/ExitCode.antt =====
-- crates/types/src/exit_code.rs: the exit codes, their numbers and their classes.
pub mod RoundTrip
use fluentbase.Prelude.{
  ℕ, ◌+◌, ◌-◌, ◌≤◌, ◌<◌, ◌≡◌, ◌≢◌, ◌⊎◌, inl, inr, refl, Bool, true, false, ◌&&◌, ◌||◌, not, Option,
  none, some, arith, ltb, leb, ◌==◌, if◌then◌else◌,
}
use fluentbase.Prelude.Int.{ℤ, pos, negsuc, ltb_ℤ, leb_ℤ}

pub data ExitCode : Type 0 where
  ok : ExitCode
  panic : ExitCode
  interruption_called : ExitCode
  root_call_only : ExitCode
  malformed_builtin_params : ExitCode
  call_depth_overflow : ExitCode
  non_negative_exit_code : ExitCode
  unknown_error : ExitCode
  input_output_out_of_bounds : ExitCode
  precompile_error : ExitCode
  not_supported_bytecode : ExitCode
  state_change_during_static_call : ExitCode
  create_contract_size_limit : ExitCode
  create_contract_collision : ExitCode
  create_contract_starting_with_ef : ExitCode
  out_of_memory : ExitCode
  insufficient_balance : ExitCode
  unreachable_code_reached : ExitCode
  memory_out_of_bounds : ExitCode
  table_out_of_bounds : ExitCode
  indirect_call_to_null : ExitCode
  integer_division_by_zero : ExitCode
  integer_overflow : ExitCode
  bad_conversion_to_integer : ExitCode
  stack_overflow : ExitCode
  bad_signature : ExitCode
  out_of_fuel : ExitCode
  unknown_external_function : ExitCode
  unexpected_fatal_execution_failure : ExitCode
  missing_storage_slot : ExitCode

-- `ExitCode::into_i32`; `negsuc n` is -(n + 1).
unfoldable pub into_i32 : ExitCode → ℤ
into_i32 ExitCode.ok = pos 0
into_i32 ExitCode.panic = negsuc 0
into_i32 ExitCode.interruption_called = negsuc 2
into_i32 ExitCode.root_call_only = negsuc 1001
into_i32 ExitCode.malformed_builtin_params = negsuc 1002
into_i32 ExitCode.call_depth_overflow = negsuc 1003
into_i32 ExitCode.non_negative_exit_code = negsuc 1004
into_i32 ExitCode.unknown_error = negsuc 1005
into_i32 ExitCode.input_output_out_of_bounds = negsuc 1006
into_i32 ExitCode.precompile_error = negsuc 1007
into_i32 ExitCode.not_supported_bytecode = negsuc 1008
into_i32 ExitCode.state_change_during_static_call = negsuc 1009
into_i32 ExitCode.create_contract_size_limit = negsuc 1010
into_i32 ExitCode.create_contract_collision = negsuc 1011
into_i32 ExitCode.create_contract_starting_with_ef = negsuc 1012
into_i32 ExitCode.out_of_memory = negsuc 1013
into_i32 ExitCode.insufficient_balance = negsuc 1014
into_i32 ExitCode.unreachable_code_reached = negsuc 2000
into_i32 ExitCode.memory_out_of_bounds = negsuc 2001
into_i32 ExitCode.table_out_of_bounds = negsuc 2002
into_i32 ExitCode.indirect_call_to_null = negsuc 2003
into_i32 ExitCode.integer_division_by_zero = negsuc 2004
into_i32 ExitCode.integer_overflow = negsuc 2005
into_i32 ExitCode.bad_conversion_to_integer = negsuc 2006
into_i32 ExitCode.stack_overflow = negsuc 2007
into_i32 ExitCode.bad_signature = negsuc 2008
into_i32 ExitCode.out_of_fuel = negsuc 2009
into_i32 ExitCode.unknown_external_function = negsuc 2010
into_i32 ExitCode.unexpected_fatal_execution_failure = negsuc 3000
into_i32 ExitCode.missing_storage_slot = negsuc 3001

-- `Self::from_repr`, on the magnitude less one.
from_repr_neg : ℕ → Option ExitCode
from_repr_neg n =
    if n == 0
    then some ExitCode.panic
    else if n == 2
    then some ExitCode.interruption_called
    else if n == 1001
    then some ExitCode.root_call_only
    else if n == 1002
    then some ExitCode.malformed_builtin_params
    else if n == 1003
    then some ExitCode.call_depth_overflow
    else if n == 1004
    then some ExitCode.non_negative_exit_code
    else if n == 1005
    then some ExitCode.unknown_error
    else if n == 1006
    then some ExitCode.input_output_out_of_bounds
    else if n == 1007
    then some ExitCode.precompile_error
    else if n == 1008
    then some ExitCode.not_supported_bytecode
    else if n == 1009
    then some ExitCode.state_change_during_static_call
    else if n == 1010
    then some ExitCode.create_contract_size_limit
    else if n == 1011
    then some ExitCode.create_contract_collision
    else if n == 1012
    then some ExitCode.create_contract_starting_with_ef
    else if n == 1013
    then some ExitCode.out_of_memory
    else if n == 1014
    then some ExitCode.insufficient_balance
    else if n == 2000
    then some ExitCode.unreachable_code_reached
    else if n == 2001
    then some ExitCode.memory_out_of_bounds
    else if n == 2002
    then some ExitCode.table_out_of_bounds
    else if n == 2003
    then some ExitCode.indirect_call_to_null
    else if n == 2004
    then some ExitCode.integer_division_by_zero
    else if n == 2005
    then some ExitCode.integer_overflow
    else if n == 2006
    then some ExitCode.bad_conversion_to_integer
    else if n == 2007
    then some ExitCode.stack_overflow
    else if n == 2008
    then some ExitCode.bad_signature
    else if n == 2009
    then some ExitCode.out_of_fuel
    else if n == 2010
    then some ExitCode.unknown_external_function
    else if n == 3000
    then some ExitCode.unexpected_fatal_execution_failure
    else if n == 3001
    then some ExitCode.missing_storage_slot
    else none

unfoldable pub from_repr : ℤ → Option ExitCode
unfolding from_repr_neg
from_repr (pos n) = if n == 0 then some ExitCode.ok else none
from_repr (negsuc n) = from_repr_neg n

-- `impl From<i32> for ExitCode`
unfoldable pub from_i32 : ℤ → ExitCode
from_i32 v = elim (from_repr v) [ some c ↦ c | none ↦ ExitCode.unknown_error ]

-- `impl PartialEq for ExitCode`: the codes are told apart by their numbers.
unfoldable pub is_ok : ExitCode → Bool
is_ok ExitCode.ok = true
is_ok _ = false

pub is_revert : ExitCode → Bool
is_revert ExitCode.panic = true
is_revert _ = false

pub is_error : ExitCode → Bool
is_error c = not (is_ok c) && not (is_revert c)

pub is_trap_code : ExitCode → Bool
is_trap_code c = leb_ℤ (into_i32 c) (negsuc 1999) && ltb_ℤ (negsuc 2999) (into_i32 c)

unfoldable pub is_fatal_exit_code : ExitCode → Bool
is_fatal_exit_code ExitCode.unexpected_fatal_execution_failure = true
is_fatal_exit_code _ = false
