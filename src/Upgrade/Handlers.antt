-- ===== src/Upgrade/Handlers.antt =====
-- contracts/runtime-upgrade/src/lib.rs: `RuntimeUpgradeTr for App`. A failed `expect`, `unwrap` or
-- `panic!` leaves the frame at once.
use fluentbase.Prelude.{
  ℕ, not, Bool, false, none, some, List, [], ◌∷◌, ◌++◌, ◌==◌, ◌||◌, if◌then◌else◌, length,
}
use fluentbase.Types.ExitCode.{ExitCode}
use fluentbase.Sdk.Host.{Host}
use fluentbase.Sdk.Shared.{
  Bytecode, ◌>>=◌, ◌>>◌, pure, panic_if, native_exit, gets, sload, sstore, emit,
}
use fluentbase.Sdk.Shared.Vector.{read_address, write_address}
use fluentbase.Sdk.Shared.Bytes as StorageString
use fluentbase.Upgrade.{
  Action, Event, Toolchain, default_update_genesis_auth, system_address, owner_slot,
  planned_genesis_hash_slot, planned_genesis_version_slot, planned_updater_slot,
}
use fluentbase.Upgrade.Plan.{
  clear_planned_hashes, push_plan, has_planned_upgrade, remove_planned_upgrade,
  cancel_planned_upgrade,
}
use fluentbase.Upgrade.Install.{compile_and_install, install_evm}

-- An empty owner slot stands for the authority of the genesis.
abbrev pub or_default : ℕ → ℕ
or_default owner = if owner == 0 then default_update_genesis_auth else owner

unfoldable pub owner : Action ℕ
unfolding read_address
owner = do stored ← read_address owner_slot; pure (or_default stored)

unfoldable pub only_owner : Action (Unit {0})
unfolding owner
only_owner = do
  current ← owner
  caller ← gets λ s. s.context.caller
  panic_if (not (caller == current))

-- `target_addresses[..index].contains(&target_address)`
abbrev pub contains : ℕ → List ℕ → Bool
contains a [] = false
contains a (x ∷ xs) = a == x || contains a xs

-- Whether the loop of `plan_upgrade` panics; `seen` are the targets in front of the entry.
unfoldable pub is_malformed : List ℕ → List ℕ → List ℕ → Bool
is_malformed seen [] hashes = false
is_malformed seen (target ∷ targets) [] = false
is_malformed seen (target ∷ targets) (hash ∷ hashes) =
    target == 0
    || hash == 0
    || contains target seen
    || is_malformed (seen ++ (target ∷ [])) targets hashes

module _ (host : Host) (tools : Toolchain) where
  unfoldable pub upgrade_to : ℕ → ℕ → List ℕ → List ℕ → Action (Unit {0})
  unfolding only_owner compile_and_install
  upgrade_to target genesis_hash genesis_version wasm_bytecode = do
    only_owner
    code_hash ← compile_and_install host tools target wasm_bytecode
    emit (Event.runtime_upgraded target genesis_hash genesis_version code_hash)

  unfoldable pub upgrade_evm_to : ℕ → ℕ → List ℕ → List ℕ → Action (Unit {0})
  unfolding only_owner install_evm
  upgrade_evm_to target genesis_hash genesis_version evm_bytecode = do
    only_owner
    code_hash ← install_evm host tools target evm_bytecode
    emit (Event.runtime_upgraded target genesis_hash genesis_version code_hash)

  -- `code_copy` of the whole code in one piece; the host halts a copy that is too long.
  unfoldable pub code_copy : ℕ → Bytecode → Action (List ℕ)
  code_copy target code = elim (tools.code_copy target code (tools.code_size target code)) [
    | some bytes ↦ pure bytes
    | none ↦ native_exit ExitCode.malformed_builtin_params
  ]

  -- `recompile` behind its check of the caller.
  unfoldable pub reinstall : ℕ → Action (Unit {0})
  unfolding code_copy compile_and_install
  reinstall target = do
    code ← gets λ s. s.codes target
    panic_if (tools.code_size target code == 0)
    wasm_bytecode ← code_copy target code
    panic_if (not (length wasm_bytecode == tools.code_size target code))
    code_hash ← compile_and_install host tools target wasm_bytecode
    emit (Event.contract_recompiled target code_hash)

  unfoldable pub recompile : ℕ → Action (Unit {0})
  unfolding only_owner reinstall
  recompile target = do only_owner; reinstall target

  -- `upgrade_to_planned` behind its checks.
  unfoldable pub install_planned : ℕ → List ℕ → Action (Unit {0})
  unfolding StorageString.load compile_and_install remove_planned_upgrade
  install_planned target wasm_bytecode = do
    genesis_hash ← sload planned_genesis_hash_slot
    genesis_version ← StorageString.load host planned_genesis_version_slot
    code_hash ← compile_and_install host tools target wasm_bytecode
    remove_planned_upgrade host target (host.keccak wasm_bytecode)
    emit (Event.runtime_upgraded target genesis_hash (tools.utf8_lossy genesis_version) code_hash)

  unfoldable pub upgrade_to_planned : ℕ → List ℕ → Action (Unit {0})
  unfolding read_address has_planned_upgrade install_planned
  upgrade_to_planned target wasm_bytecode = do
    updater ← read_address planned_updater_slot
    panic_if (updater == 0)
    caller ← gets λ s. s.context.caller
    panic_if (not (caller == updater))
    is_planned ← has_planned_upgrade host target (host.keccak wasm_bytecode)
    panic_if (not is_planned)
    install_planned target wasm_bytecode

module _ (host : Host) where
  -- `plan_upgrade` behind its checks.
  unfoldable pub write_plan : ℕ → List ℕ → List ℕ → List ℕ → ℕ → Action (Unit {0})
  unfolding clear_planned_hashes StorageString.store write_address push_plan
  write_plan genesis_hash genesis_version targets hashes updater = do
    clear_planned_hashes
    sstore planned_genesis_hash_slot genesis_hash
    StorageString.store host planned_genesis_version_slot genesis_version
    write_address planned_updater_slot updater
    push_plan host targets hashes
    emit (Event.upgrade_planned genesis_hash genesis_version targets hashes updater)

  unfoldable pub plan_upgrade : ℕ → List ℕ → List ℕ → List ℕ → ℕ → Action (Unit {0})
  unfolding only_owner is_malformed write_plan
  plan_upgrade genesis_hash genesis_version targets hashes updater = do
    only_owner
    panic_if (length hashes == 0)
    panic_if (not (length targets == length hashes))
    panic_if (updater == 0)
    panic_if (is_malformed [] targets hashes)
    write_plan genesis_hash genesis_version targets hashes updater

  -- The writes of `change_owner` and `renounce_ownership`.
  unfoldable pub hand_over : ℕ → Action (Unit {0})
  unfolding cancel_planned_upgrade write_address
  hand_over new_owner = do
    cancel_planned_upgrade host
    write_address owner_slot new_owner
    emit (Event.owner_changed new_owner)

  unfoldable pub change_owner : ℕ → Action (Unit {0})
  unfolding only_owner hand_over
  change_owner new_owner = do only_owner; panic_if (new_owner == 0); hand_over new_owner

  unfoldable pub renounce_ownership : Action (Unit {0})
  unfolding only_owner hand_over
  renounce_ownership = do only_owner; hand_over system_address
