-- ===== src/Upgrade/Install.antt =====
-- contracts/runtime-upgrade/src/lib.rs: what puts code into an account, and the system calls that it
-- makes (crates/revm/src/syscall.rs).
use fluentbase.Prelude.{ℕ, not, none, some, List, [], ◌∷◌, ltb, ◌==◌, if◌then◌else◌, length, take}
use fluentbase.Prelude.Bytes.{bytes_eq}
use fluentbase.Types.ExitCode.{ExitCode}
use fluentbase.Sdk.Host.{Host}
use fluentbase.Sdk.Shared.{
  Bytecode, ◌>>=◌, ◌>>◌, pure, panic, panic_if, halt_if, modify, writable, gets,
}
use fluentbase.Upgrade.{
  Action, Toolchain, precompile_runtime_upgrade, precompile_evm_runtime, evm_max_code_size,
}

abbrev pub wasm_magic_bytes : List ℕ
wasm_magic_bytes = 0x00 ∷ 0x61 ∷ 0x73 ∷ 0x6d ∷ []

-- `ctx.journal_mut().set_code(target_address, bytecode)`
unfoldable pub set_code : ℕ → Bytecode → Action (Unit {0})
set_code target bytecode =
    modify λ s. record s { codes = λ a. if a == target then bytecode else s.codes a }

-- Only the contract itself may make the two system calls.
unfoldable pub only_runtime_upgrade : Action (Unit {0})
only_runtime_upgrade = do
  writable
  address ← gets λ s. s.context.address
  halt_if (not (address == precompile_runtime_upgrade)) ExitCode.malformed_builtin_params

module _ (host : Host) (tools : Toolchain) where
  -- `SYSCALL_ID_UPGRADE_WASM_RUNTIME`
  unfoldable pub upgrade_wasm_runtime : ℕ → List ℕ → Action (Unit {0})
  unfolding only_runtime_upgrade set_code
  upgrade_wasm_runtime target rwasm_binary = do
    only_runtime_upgrade
    halt_if (not (tools.is_rwasm rwasm_binary)) ExitCode.malformed_builtin_params
    set_code target (Bytecode.rwasm rwasm_binary)

  -- `SYSCALL_ID_UPGRADE_EVM_RUNTIME`
  unfoldable pub upgrade_evm_runtime : ℕ → List ℕ → Action (Unit {0})
  unfolding only_runtime_upgrade set_code
  upgrade_evm_runtime target evm_binary = do
    only_runtime_upgrade
    halt_if (length evm_binary == 0) ExitCode.malformed_builtin_params
    halt_if (ltb evm_max_code_size (length evm_binary)) ExitCode.malformed_builtin_params
    set_code target (Bytecode.ownable precompile_evm_runtime (tools.analyzed evm_binary))

  -- `compile_rwasm_maybe_system`, whose failure is a panic.
  unfoldable pub compiled : ℕ → List ℕ → Action (List ℕ)
  compiled target wasm_bytecode = elim (tools.compile target wasm_bytecode) [
    | some rwasm ↦ pure rwasm
    | none ↦ panic
  ]

  unfoldable pub compile_and_install : ℕ → List ℕ → Action ℕ
  unfolding bytes_eq compiled upgrade_wasm_runtime
  compile_and_install target wasm_bytecode = do
    panic_if (not (bytes_eq (take 4 wasm_bytecode) wasm_magic_bytes))
    rwasm_bytecode ← compiled target wasm_bytecode
    upgrade_wasm_runtime target rwasm_bytecode
    pure (host.keccak rwasm_bytecode)

  unfoldable pub install_evm : ℕ → List ℕ → Action ℕ
  unfolding upgrade_evm_runtime
  install_evm target evm_bytecode = do
    panic_if (length evm_bytecode == 0)
    panic_if (ltb evm_max_code_size (length evm_bytecode))
    upgrade_evm_runtime target evm_bytecode
    pure (host.keccak evm_bytecode)
