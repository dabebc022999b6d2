-- ===== src/Revm/Syscall.antt =====
-- crates/revm/src/syscall.rs: `execute_rwasm_interruption`, with the numbers of the system calls of
-- crates/sdk/src/syscall.rs.
pub mod Storage
pub mod Calls
pub mod Account
pub mod Owned
use fluentbase.Prelude.{
  ℕ, ◌-◌, Bool, true, false, Option, none, some, List, [], ◌==◌, if◌then◌else◌,
}
use fluentbase.Types.ExitCode.{ExitCode}
use fluentbase.Types.Genesis.{is_execute_using_system_runtime}
use fluentbase.Revm.Engine.{Engine}
use fluentbase.Revm.Interruption.{
  Interruption, Exit, Step, next, leave, Frame, Call, exit, CallInputs, CreateInputs,
}
use fluentbase.Revm.Syscall.Storage as Storage
use fluentbase.Revm.Syscall.Calls as Calls
use fluentbase.Revm.Syscall.Account as Account
use fluentbase.Revm.Syscall.Owned as Owned

-- The arms of the match on the number of the call; `unknown` is its last one.
pub data Syscall : Type 0 where
  storage_read : Syscall
  storage_write : Syscall
  call : Syscall
  static_call : Syscall
  call_code : Syscall
  delegate_call : Syscall
  create : Syscall
  create2 : Syscall
  emit_log : Syscall
  destroy_account : Syscall
  balance : Syscall
  self_balance : Syscall
  code_size : Syscall
  code_hash : Syscall
  code_copy : Syscall
  transient_read : Syscall
  transient_write : Syscall
  block_hash : Syscall
  metadata_write : Syscall
  metadata_size : Syscall
  metadata_create : Syscall
  metadata_copy : Syscall
  metadata_storage_read : Syscall
  metadata_storage_write : Syscall
  metadata_account_owner : Syscall
  upgrade_evm_runtime : Syscall
  upgrade_wasm_runtime : Syscall
  unknown : Syscall

unfoldable pub syscall_of : ℕ → Syscall
syscall_of id =
    if id == 0x01
    then Syscall.storage_read
    else if id == 0x02
    then Syscall.storage_write
    else if id == 0x03
    then Syscall.call
    else if id == 0x04
    then Syscall.static_call
    else if id == 0x05
    then Syscall.call_code
    else if id == 0x06
    then Syscall.delegate_call
    else if id == 0x07
    then Syscall.create
    else if id == 0x08
    then Syscall.create2
    else if id == 0x09
    then Syscall.emit_log
    else if id == 0x0a
    then Syscall.destroy_account
    else if id == 0x0b
    then Syscall.balance
    else if id == 0x0c
    then Syscall.self_balance
    else if id == 0x0d
    then Syscall.code_size
    else if id == 0x0e
    then Syscall.code_hash
    else if id == 0x0f
    then Syscall.code_copy
    else if id == 0x11
    then Syscall.transient_read
    else if id == 0x12
    then Syscall.transient_write
    else if id == 0x13
    then Syscall.block_hash
    else if id == 0x40
    then Syscall.metadata_write
    else if id == 0x41
    then Syscall.metadata_size
    else if id == 0x42
    then Syscall.metadata_create
    else if id == 0x43
    then Syscall.metadata_copy
    else if id == 0x44
    then Syscall.metadata_storage_read
    else if id == 0x45
    then Syscall.metadata_storage_write
    else if id == 0x46
    then Syscall.metadata_account_owner
    else if id == 0xfe
    then Syscall.upgrade_evm_runtime
    else if id == 0xff
    then Syscall.upgrade_wasm_runtime
    else Syscall.unknown

module _ {G W C S : Type 0} (rt : Engine G W C S) (i : Interruption) where
  unfoldable pub serve : Syscall → Call G W C (Unit {0})
  serve Syscall.storage_read = Storage.storage_read rt i
  serve Syscall.storage_write = Storage.storage_write rt i
  serve Syscall.call = Calls.call rt i
  serve Syscall.static_call = Calls.static_call rt i
  serve Syscall.call_code = Calls.call_code rt i
  serve Syscall.delegate_call = Calls.delegate_call rt i
  serve Syscall.create = Calls.create rt i false
  serve Syscall.create2 = Calls.create rt i true
  serve Syscall.emit_log = Storage.emit_log rt i
  serve Syscall.destroy_account = Account.destroy_account rt i
  serve Syscall.balance = Account.balance rt i
  serve Syscall.self_balance = Account.self_balance rt i
  serve Syscall.code_size = Account.code_size rt i
  serve Syscall.code_hash = Account.code_hash rt i
  serve Syscall.code_copy = Account.code_copy rt i
  serve Syscall.transient_read = Storage.transient_read rt i
  serve Syscall.transient_write = Storage.transient_write rt i
  serve Syscall.block_hash = Account.block_hash rt i
  serve Syscall.metadata_write = Owned.metadata_write rt i
  serve Syscall.metadata_size = Owned.metadata_size rt i
  serve Syscall.metadata_create = Owned.metadata_create rt i
  serve Syscall.metadata_copy = Owned.metadata_copy rt i
  serve Syscall.metadata_storage_read = Owned.metadata_storage_read rt i
  serve Syscall.metadata_storage_write = Owned.metadata_storage_write rt i
  serve Syscall.metadata_account_owner = Owned.metadata_account_owner rt i
  serve Syscall.upgrade_evm_runtime = Owned.upgrade_evm_runtime rt i
  serve Syscall.upgrade_wasm_runtime = Owned.upgrade_wasm_runtime rt i
  serve Syscall.unknown = exit (Exit.halt ExitCode.malformed_builtin_params)

-- The frame's code belongs to a system runtime.
unfoldable pub owned_by_system : Interruption → Bool
owned_by_system i = elim i.account_owner_address [
  | some a ↦ is_execute_using_system_runtime a
  | none ↦ false
]

-- What `execute_rwasm_interruption` answers. `resume` is `NextAction::InterruptionResult` with the
-- outcome that the frame keeps: the code, the output, the gas spent by the call and `halted_frame`.
-- `return` is `NextAction::Return`, without output. `failed` is a database error, `panicked` a panic.
pub data NextAction (C : Type 0) : Type 0 where
  resume : ExitCode → List ℕ → ℕ → Bool → NextAction C
  return : ExitCode → ℕ → NextAction C
  new_call : CallInputs C → NextAction C
  new_create : CreateInputs → NextAction C
  failed : NextAction C
  panicked : NextAction C

module _ {G W C S : Type 0} (rt : Engine G W C S) where
  -- The macros `return_result!`, `return_halt!` and `return_frame!` at the end of the call. A halt of
  -- a system runtime is forwarded to it, that of any other frame ends the frame.
  unfoldable pub next_action : Bool → ℕ → Exit C → NextAction C
  next_action is_system_runtime spent (Exit.result code output) =
      NextAction.resume code output spent false
  next_action is_system_runtime spent (Exit.halt code) =
      if is_system_runtime
      then NextAction.resume code [] spent true
      else NextAction.return code spent
  next_action is_system_runtime spent (Exit.new_call inputs) = NextAction.new_call inputs
  next_action is_system_runtime spent (Exit.new_create inputs) = NextAction.new_create inputs
  next_action is_system_runtime spent Exit.db = NextAction.failed
  next_action is_system_runtime spent Exit.abort = NextAction.panicked

  -- Each arm leaves; `next tt` does not come from any.
  unfoldable pub end_of : Bool → ℕ → Step C (Unit {0}) → NextAction C
  unfolding next_action
  end_of is_system_runtime spent (leave e) = next_action is_system_runtime spent e
  end_of is_system_runtime spent (next a) = NextAction.panicked

  unfoldable pub execute_rwasm_interruption : Interruption → Frame G W → NextAction C × Frame G W
  unfolding end_of syscall_of
  execute_rwasm_interruption i f =
      let (r, f') = serve rt i (syscall_of i.code_hash) f in
      (end_of (owned_by_system i) (rt.total_gas_spent f'.gas - rt.total_gas_spent f.gas) r, f')
