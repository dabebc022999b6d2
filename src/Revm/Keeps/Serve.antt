-- ===== src/Revm/Keeps/Serve.antt =====
-- crates/revm/src/syscall.rs: what every system call keeps, and what it grants.
use fluentbase.Prelude.{ℕ, true, false}
use fluentbase.Revm.Engine.{Engine}
use fluentbase.Revm.Interruption.{Interruption, Frame, Exit}
use fluentbase.Revm.Keeps.{Keeps, Keeps-halt}
use fluentbase.Revm.Keeps.Grants.{IsGranting}
use fluentbase.Revm.Keeps.Storage as Storage
use fluentbase.Revm.Keeps.Calls as Calls
use fluentbase.Revm.Keeps.Account as Account
use fluentbase.Revm.Keeps.Owned as Owned
use fluentbase.Revm.Syscall.{Syscall, serve}

module _ {G W C S : Type 0} (rt : Engine G W C S) (i : Interruption) (P : ℕ → Frame G W → Type 0)
    (Q : Exit C → Frame G W → Type 0) (granting : IsGranting rt i P Q) where
  pub serve-Keeps : (c : Syscall) → Keeps (P 0) Q (serve rt i c)
  unfolding serve
  serve-Keeps Syscall.storage_read = Storage.storage_read-Keeps rt i (P 0) Q (granting.kept 0)
  serve-Keeps Syscall.storage_write = Storage.storage_write-Keeps rt i (P 0) Q (granting.kept 0)
  serve-Keeps Syscall.call = Calls.call-Keeps rt i P Q granting
  serve-Keeps Syscall.static_call = Calls.static_call-Keeps rt i P Q granting
  serve-Keeps Syscall.call_code = Calls.call_code-Keeps rt i P Q granting
  serve-Keeps Syscall.delegate_call = Calls.delegate_call-Keeps rt i P Q granting
  serve-Keeps Syscall.create = Calls.create-Keeps rt i P Q granting false
  serve-Keeps Syscall.create2 = Calls.create-Keeps rt i P Q granting true
  serve-Keeps Syscall.emit_log = Storage.emit_log-Keeps rt i (P 0) Q (granting.kept 0)
  serve-Keeps Syscall.destroy_account = Account.destroy_account-Keeps rt i (P 0) Q (granting.kept 0)
  serve-Keeps Syscall.balance = Account.balance-Keeps rt i (P 0) Q (granting.kept 0)
  serve-Keeps Syscall.self_balance = Account.self_balance-Keeps rt i (P 0) Q (granting.kept 0)
  serve-Keeps Syscall.code_size = Account.code_size-Keeps rt i (P 0) Q (granting.kept 0)
  serve-Keeps Syscall.code_hash = Account.code_hash-Keeps rt i (P 0) Q (granting.kept 0)
  serve-Keeps Syscall.code_copy = Account.code_copy-Keeps rt i (P 0) Q (granting.kept 0)
  serve-Keeps Syscall.transient_read = Storage.transient_read-Keeps rt i (P 0) Q (granting.kept 0)
  serve-Keeps Syscall.transient_write = Storage.transient_write-Keeps rt i (P 0) Q (granting.kept 0)
  serve-Keeps Syscall.block_hash = Account.block_hash-Keeps rt i (P 0) Q (granting.kept 0)
  serve-Keeps Syscall.metadata_write = Owned.metadata_write-Keeps rt i (P 0) Q (granting.kept 0)
  serve-Keeps Syscall.metadata_size = Owned.metadata_size-Keeps rt i (P 0) Q (granting.kept 0)
  serve-Keeps Syscall.metadata_create = Owned.metadata_create-Keeps rt i (P 0) Q (granting.kept 0)
  serve-Keeps Syscall.metadata_copy = Owned.metadata_copy-Keeps rt i (P 0) Q (granting.kept 0)
  serve-Keeps Syscall.metadata_storage_read =
      Owned.metadata_storage_read-Keeps rt i (P 0) Q (granting.kept 0)
  serve-Keeps Syscall.metadata_storage_write =
      Owned.metadata_storage_write-Keeps rt i (P 0) Q (granting.kept 0)
  serve-Keeps Syscall.metadata_account_owner =
      Owned.metadata_account_owner-Keeps rt i (P 0) Q (granting.kept 0)
  serve-Keeps Syscall.upgrade_evm_runtime =
      Owned.upgrade_evm_runtime-Keeps rt i (P 0) Q (granting.kept 0)
  serve-Keeps Syscall.upgrade_wasm_runtime =
      Owned.upgrade_wasm_runtime-Keeps rt i (P 0) Q (granting.kept 0)
  serve-Keeps Syscall.unknown = Keeps-halt _ (granting.kept 0).settles
