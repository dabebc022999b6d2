-- ===== src/Revm/Syscall/Calls.antt =====
-- crates/revm/src/syscall.rs: the four calls and the two creations, with `load_account_delegated` of
-- crates/revm/src/types.rs.
use fluentbase.Prelude.{
  ℕ, ◌+◌, ◌-◌, ◌/◌, ◌^◌, Bool, true, false, not, Option, none, some, ◌&&◌, ltb, leb, ◌==◌,
  if◌then◌else◌, take, drop,
}
use fluentbase.Prelude.Bytes.{from_be_bytes}
use fluentbase.Types.ExitCode.{ExitCode}
use fluentbase.Revm.Engine.{Engine, AccountInfo}
use fluentbase.Revm.Interruption.{
  Interruption, CallValue, CallScheme, new_call, new_create, Call, ◌>>=◌, ◌>>◌, exit, pure,
  assert_halt, load_or_halt, gets, charge_regular_gas, charge_state_gas, writable, input_at_least,
  input_from, input_length, from_le_bytes,
}

abbrev pub fuel_denom_rate : ℕ
fuel_denom_rate = 20

abbrev pub min : ℕ → ℕ → ℕ
min a b = if leb a b then a else b

-- `u64::saturating_add`
unfoldable pub saturating_add : ℕ → ℕ → ℕ
saturating_add a b = min (a + b) (2 ^ 64 - 1)

-- What `load_account_delegated` returns: the gas costs, and the code to run with its address.
pub record Delegated (C : Type 0) : Type 0 where
  pub gas_cost : ℕ
  pub state_gas_cost : ℕ
  pub bytecode : C
  pub code_hash : ℕ
  pub bytecode_address : ℕ

module _ {G W C S : Type 0} (rt : Engine G W C S) where
  abbrev code_or_default : AccountInfo C → C
  code_or_default account = elim account.code [ some code ↦ code | none ↦ rt.no_code ]

  abbrev delegate_of : AccountInfo C → Option ℕ
  delegate_of account = elim account.code [ some code ↦ rt.eip7702_address code | none ↦ none ]

  abbrev cold_cost : Bool → ℕ
  cold_cost is_cold = if is_cold then rt.cold_account_additional_cost else 0

  -- The end of `load_account_delegated`: the delegate of an account that has one.
  unfoldable pub load_delegate : ℕ → ℕ → ℕ → AccountInfo C → Option ℕ → Call G W C (Delegated C)
  load_delegate address remaining cost account none = pure (record {
    gas_cost = cost;
    state_gas_cost = 0;
    bytecode = code_or_default account;
    code_hash = account.code_hash;
    bytecode_address = address;
  })
  load_delegate address remaining cost account (some delegate) = do
    let total = cost + rt.warm_storage_read_cost
    assert_halt (leb total remaining) ExitCode.out_of_fuel
    (target, is_cold) ← load_or_halt (
        rt.load_account_info delegate true
          (ltb remaining (total + rt.cold_account_additional_cost)))
    pure (record {
      gas_cost = total + cold_cost is_cold;
      state_gas_cost = 0;
      bytecode = code_or_default target;
      code_hash = target.code_hash;
      bytecode_address = delegate;
    })

  -- The early return for an account that the call would create.
  unfoldable pub created : ℕ → ℕ → Bool → AccountInfo C → Call G W C (Delegated C)
  created address cost transfers_value account = pure (record {
    gas_cost = cost + rt.new_account_cost rt.is_spurious_dragon transfers_value;
    state_gas_cost =
        if rt.is_amsterdam_eip8037 && transfers_value then rt.new_account_state_gas else 0;
    bytecode = code_or_default account;
    code_hash = account.code_hash;
    bytecode_address = address;
  })

  unfoldable pub load_account_delegated : ℕ → Bool → Bool → Call G W C (Delegated C)
  load_account_delegated address transfers_value create_empty_account = do
    remaining ← gets λ f. rt.remaining f.gas
    (account, is_cold) ← load_or_halt (
        rt.load_account_info address true
          (rt.is_berlin && ltb remaining rt.cold_account_additional_cost))
    let cost = if rt.is_berlin then cold_cost is_cold else 0
    let is_empty = if rt.is_precompile address then true else account.is_empty
    if create_empty_account && is_empty
        then created address cost transfers_value account
        else load_delegate address remaining cost account (delegate_of account)

  -- What the calls charge once the account is loaded, with the gas limit for the callee.
  unfoldable pub charge_call : ℕ → Delegated C → Call G W C ℕ
  charge_call fuel_limit account = do
    charge_regular_gas rt account.gas_cost
    charge_state_gas rt account.state_gas_cost
    reduced ← gets λ f. rt.call_stipend_reduction (rt.remaining f.gas)
    let gas_limit = min reduced (fuel_limit / fuel_denom_rate)
    charge_regular_gas rt gas_limit
    pure gas_limit

  module _ (i : Interruption) where
    -- `has_transfer` in a static call halts.
    unfoldable pub refuse_static_transfer : ℕ → Call G W C (Unit {0})
    refuse_static_transfer value =
        assert_halt (not (i.is_static && not (value == 0))) ExitCode.state_change_during_static_call

    -- The charge for a transfer of value.
    unfoldable pub charge_transfer : ℕ → Call G W C (Unit {0})
    charge_transfer value =
        if value == 0 then pure tt else charge_regular_gas rt rt.transfer_value_cost

    -- The stipend that a transfer adds to the callee's gas.
    unfoldable pub with_stipend : ℕ → ℕ → ℕ
    with_stipend value gas_limit =
        if value == 0 then gas_limit else saturating_add gas_limit rt.call_stipend

    -- The last steps of a call: its input and the new frame.
    unfoldable pub launch :
        ℕ → ℕ → ℕ → ℕ → CallValue → CallScheme → Bool → Delegated C → Call G W C (Unit {0})
    launch size gas_limit target caller value scheme is_static account = do
      contract_input ← input_from i size
      reservoir ← gets λ f. rt.reservoir f.gas
      exit (
          new_call (record {
            input = contract_input;
            gas_limit = gas_limit;
            reservoir = reservoir;
            bytecode_address = account.bytecode_address;
            code_hash = account.code_hash;
            bytecode = account.bytecode;
            target_address = target;
            caller = caller;
            value = value;
            scheme = scheme;
            is_static = is_static;
          }))

    unfoldable pub call : Call G W C (Unit {0})
    call = do
      input ← input_at_least i 52
      let target = from_be_bytes (take 20 input)
      let value = from_le_bytes (take 32 (drop 20 input))
      refuse_static_transfer value
      charge_regular_gas rt rt.gas_warm_storage_read
      charge_transfer value
      account ← load_account_delegated target (not (value == 0)) true
      gas_limit ← charge_call i.fuel_limit account
      launch 52 (with_stipend value gas_limit) target i.target_address (CallValue.transfer value)
          CallScheme.call i.is_static account

    unfoldable pub static_call : Call G W C (Unit {0})
    static_call = do
      input ← input_at_least i 20
      let target = from_be_bytes (take 20 input)
      charge_regular_gas rt rt.gas_warm_storage_read
      account ← load_account_delegated target false false
      gas_limit ← charge_call i.fuel_limit account
      launch 20 gas_limit target i.target_address (CallValue.transfer 0) CallScheme.static_call true
          account

    unfoldable pub call_code : Call G W C (Unit {0})
    call_code = do
      input ← input_at_least i 52
      let target = from_be_bytes (take 20 input)
      let value = from_le_bytes (take 32 (drop 20 input))
      refuse_static_transfer value
      charge_regular_gas rt rt.gas_warm_storage_read
      charge_transfer value
      account ← load_account_delegated target (not (value == 0)) false
      gas_limit ← charge_call i.fuel_limit account
      launch 52 (with_stipend value gas_limit) i.target_address i.target_address
          (CallValue.transfer value) CallScheme.call_code i.is_static account

    unfoldable pub delegate_call : Call G W C (Unit {0})
    delegate_call = do
      input ← input_at_least i 20
      let target = from_be_bytes (take 20 input)
      charge_regular_gas rt rt.gas_warm_storage_read
      account ← load_account_delegated target false false
      gas_limit ← charge_call i.fuel_limit account
      launch 20 gas_limit i.target_address i.caller_address (CallValue.apparent i.call_value)
          CallScheme.delegate_call i.is_static account

    -- `SYSCALL_ID_CREATE` and, with `is_create2`, `SYSCALL_ID_CREATE2`.
    unfoldable pub create : Bool → Call G W C (Unit {0})
    create is_create2 = do
      writable i
      assert_halt (leb (input_length i) (rt.wasm_max_code_size + 32 + 32))
          ExitCode.malformed_builtin_params
      let size : ℕ = if is_create2 then 64 else 32
      input ← input_at_least i size
      let init_code_length = input_length i - size
      if init_code_length == 0
          then pure tt
          else charge_regular_gas rt (rt.initcode_cost init_code_length)
      init_code ← input_from i size
      let max_size : ℕ = elim (rt.wasm_max_code_size_of init_code) [
        | some n ↦ n
        | none ↦ rt.max_initcode_size
      ]
      assert_halt (leb init_code_length max_size) ExitCode.create_contract_size_limit
      charge_regular_gas rt
          (if is_create2 then rt.create2_cost init_code_length else rt.create_cost)
      remaining ← gets λ f. rt.remaining f.gas
      let gas_limit = remaining - remaining / 64
      charge_regular_gas rt gas_limit
      reservoir ← gets λ f. rt.reservoir f.gas
      exit (
          new_create (record {
            caller = i.target_address;
            salt = if is_create2 then some (from_le_bytes (drop 32 input)) else none;
            value = from_le_bytes (take 32 input);
            init_code = init_code;
            gas_limit = gas_limit;
            reservoir = reservoir;
          }))
