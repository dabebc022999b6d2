-- ===== src/Revm/Keeps/Owned.antt =====
-- crates/revm/src/syscall.rs: what the calls on owned accounts and the upgrades keep.
use fluentbase.Prelude.{ℕ, ◌≡◌, false}
use fluentbase.Revm.Engine.{Engine}
use fluentbase.Revm.Interruption.{Interruption, Frame, Exit}
use fluentbase.Revm.Keeps.{Keeps, IsKept, keeps_rules, Keeps-writable, Keeps-bind}
use fluentbase.Revm.Keeps.Storage.{sload_charged-Keeps, sstore_gas-Keeps}
use fluentbase.Revm.Syscall.Owned.{
  owner_or_halt, metadata_size, read_owner, metadata_account_owner, create_metadata,
  metadata_create, metadata_write, metadata_copy, metadata_storage_read, metadata_storage_write,
  install, upgrade_authorized, upgrade_wasm_runtime, upgrade_evm_runtime,
}

module _ {G W C S : Type 0} (rt : Engine G W C S) (i : Interruption) (P : Frame G W → Type 0)
    (Q : Exit C → Frame G W → Type 0) (kept : IsKept rt i P Q) where
  owner_or_halt-Keeps : Keeps P Q (owner_or_halt rt i)
  unfolding owner_or_halt
  owner_or_halt-Keeps = search (keeps_rules, kept.settles)

  ruleset owner_rules = (keeps_rules, owner_or_halt-Keeps)

  pub metadata_size-Keeps : Keeps P Q (metadata_size rt i)
  unfolding metadata_size
  metadata_size-Keeps = search (owner_rules, kept.settles, kept.codes) depth 20

  read_owner-Keeps : (a : ℕ) → Keeps P Q (read_owner rt i a)
  unfolding read_owner
  read_owner-Keeps a = search (keeps_rules, kept.settles, kept.codes) depth 20

  pub metadata_account_owner-Keeps : Keeps P Q (metadata_account_owner rt i)
  unfolding metadata_account_owner
  metadata_account_owner-Keeps = search (owner_rules, kept.settles, read_owner-Keeps) depth 20

  create_metadata-Keeps : (o a : ℕ) → i.is_static ≡ false → Keeps P Q (create_metadata rt i o a)
  unfolding create_metadata
  create_metadata-Keeps o a h = search (keeps_rules, kept.settles, kept.set_codes h) depth 20

  pub metadata_create-Keeps : Keeps P Q (metadata_create rt i)
  unfolding metadata_create
  metadata_create-Keeps = Keeps-bind (owner_or_halt rt i) _ owner_or_halt-Keeps λ owner.
      Keeps-writable i _ kept.settles λ h.
        search (keeps_rules, kept.settles, kept.codes, λ (o a : ℕ). create_metadata-Keeps o a h)
          depth 20

  pub metadata_write-Keeps : Keeps P Q (metadata_write rt i)
  unfolding metadata_write
  metadata_write-Keeps = Keeps-bind (owner_or_halt rt i) _ owner_or_halt-Keeps λ owner.
      Keeps-writable i _ kept.settles
        λ h. search (keeps_rules, kept.settles, kept.codes, kept.set_codes h) depth 30

  pub metadata_copy-Keeps : Keeps P Q (metadata_copy rt i)
  unfolding metadata_copy
  metadata_copy-Keeps = search (owner_rules, kept.settles, kept.codes) depth 20

  pub metadata_storage_read-Keeps : Keeps P Q (metadata_storage_read rt i)
  unfolding metadata_storage_read
  metadata_storage_read-Keeps =
      search (owner_rules, kept.settles, sload_charged-Keeps rt i P Q kept) depth 20

  pub metadata_storage_write-Keeps : Keeps P Q (metadata_storage_write rt i)
  unfolding metadata_storage_write
  metadata_storage_write-Keeps = Keeps-bind (owner_or_halt rt i) _ owner_or_halt-Keeps λ owner.
      Keeps-writable i _ kept.settles λ h.
        search
          (
            keeps_rules,
            kept.settles,
            kept.touches h,
            λ (a k v : ℕ). sstore_gas-Keeps rt i P Q kept a k v h,
          )
          depth 20

  install-Keeps : (a : ℕ) (c : C) → i.is_static ≡ false → Keeps P Q (install rt i a c)
  unfolding install
  install-Keeps a c h = search (keeps_rules, kept.settles, kept.codes, kept.set_codes h) depth 20

  authorized-Keeps : Keeps P Q (upgrade_authorized rt i)
  unfolding upgrade_authorized
  authorized-Keeps = search (keeps_rules, kept.settles)

  pub upgrade_wasm_runtime-Keeps : Keeps P Q (upgrade_wasm_runtime rt i)
  unfolding upgrade_wasm_runtime
  upgrade_wasm_runtime-Keeps = Keeps-writable i _ kept.settles λ h.
      search (keeps_rules, kept.settles, authorized-Keeps, λ (a : ℕ) (c : C). install-Keeps a c h)
        depth 20

  pub upgrade_evm_runtime-Keeps : Keeps P Q (upgrade_evm_runtime rt i)
  unfolding upgrade_evm_runtime
  upgrade_evm_runtime-Keeps = Keeps-writable i _ kept.settles λ h.
      search (keeps_rules, kept.settles, authorized-Keeps, λ (a : ℕ) (c : C). install-Keeps a c h)
        depth 20
