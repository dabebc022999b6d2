-- ===== src/Upgrade.antt =====
-- contracts/runtime-upgrade/src/lib.rs: the contract that replaces the code of system accounts. The
-- handlers take decoded arguments. Addresses are numbers below 2 ^ 160, hashes below 2 ^ 256.
pub mod Plan
pub mod Install
pub mod Handlers
pub mod Effects
pub mod Machine
pub mod Router
pub mod Refinement
pub mod Approval
pub mod Safety
pub mod Tests
use fluentbase.Prelude.{ℕ, Bool, Option, List}
use fluentbase.Sdk.Shared.{Bytecode, Call, Shared}

-- The contract's events, by their fields.
pub data Event : Type 0 where
  runtime_upgraded : ℕ → ℕ → List ℕ → ℕ → Event
  contract_recompiled : ℕ → ℕ → Event
  upgrade_planned : ℕ → List ℕ → List ℕ → List ℕ → ℕ → Event
  upgrade_plan_cancelled : ℕ → ℕ → List ℕ → List ℕ → Event
  owner_changed : ℕ → Event

abbrev pub Frame : Type 0
Frame = Shared Event

abbrev pub Action : Type 0 → Type 0
Action A = Call Event A

-- What the contract and its system calls use of other code: `compile` stands for
-- `RwasmModule::compile` under the configuration of the target, and `serialize`; `is_rwasm` for
-- `RwasmBytecode::new`; `analyzed` for `EthereumMetadata::new_analyzed` as bytes; `code_size` and
-- `code_copy` for the host's answers about an account's code; `utf8_lossy` for
-- `String::from_utf8_lossy`.
pub record Toolchain : Type 0 where
  pub compile : ℕ → List ℕ → Option (List ℕ)
  pub is_rwasm : List ℕ → Bool
  pub analyzed : List ℕ → List ℕ
  pub code_size : ℕ → Bytecode → ℕ
  pub code_copy : ℕ → Bytecode → ℕ → Option (List ℕ)
  pub utf8_lossy : List ℕ → List ℕ

-- `DEFAULT_UPDATE_GENESIS_AUTH`
abbrev pub default_update_genesis_auth : ℕ
default_update_genesis_auth = 0xa7bf6a9168fe8a111307b7c94b8883fe02b30934

abbrev pub system_address : ℕ
system_address = 0xfffffffffffffffffffffffffffffffffffffffe

abbrev pub precompile_runtime_upgrade : ℕ
precompile_runtime_upgrade = 0x520010

abbrev pub precompile_evm_runtime : ℕ
precompile_evm_runtime = 0x520001

abbrev pub evm_max_code_size : ℕ
evm_max_code_size = 0x6000

-- The slots that `derive(Contract)` gives to the fields of `App`.
abbrev pub owner_slot : ℕ
owner_slot = 0

abbrev pub planned_genesis_hash_slot : ℕ
planned_genesis_hash_slot = 1

abbrev pub planned_genesis_version_slot : ℕ
planned_genesis_version_slot = 2

abbrev pub planned_updater_slot : ℕ
planned_updater_slot = 3

abbrev pub planned_target_addresses_slot : ℕ
planned_target_addresses_slot = 4

abbrev pub planned_wasm_hashes_slot : ℕ
planned_wasm_hashes_slot = 5
