-- ===== src/Upgrade/Plan.antt =====
-- contracts/runtime-upgrade/src/lib.rs: the stored plan, a vector of target addresses and a vector of
-- hashes of equal length.
pub mod View
pub mod Push
pub mod Find
pub mod Remove
pub mod Cancel
use fluentbase.Prelude.{
  ℕ, zero, suc, ◌+◌, ◌-◌, Bool, true, false, not, List, [], ◌∷◌, ◌==◌, ◌||◌, ◌&&◌, if◌then◌else◌,
}
use fluentbase.Sdk.Host.{Host}
use fluentbase.Sdk.Shared.{◌>>=◌, ◌>>◌, pure, sload, sstore, emit}
use fluentbase.Sdk.Shared.Vector.{
  read_address, write_address, len, clear, element_slot, push_address, push_word, pop,
}
use fluentbase.Sdk.Shared.Bytes as StorageString
use fluentbase.Upgrade.{
  Action, Event, planned_genesis_hash_slot, planned_genesis_version_slot, planned_updater_slot,
  planned_target_addresses_slot, planned_wasm_hashes_slot,
}

unfoldable pub clear_planned_hashes : Action (Unit {0})
unfolding clear
clear_planned_hashes = do clear planned_target_addresses_slot; clear planned_wasm_hashes_slot

module _ (host : Host) where
  -- `planned_target_addresses.at(index)` and `planned_wasm_hashes.at(index)`
  unfoldable pub target_slot : ℕ → ℕ
  unfolding element_slot
  target_slot = element_slot host planned_target_addresses_slot

  unfoldable pub hash_slot : ℕ → ℕ
  unfolding element_slot
  hash_slot = element_slot host planned_wasm_hashes_slot

  -- `push` of both, for each pair of the zipped lists.
  unfoldable pub push_plan : List ℕ → List ℕ → Action (Unit {0})
  unfolding push_address push_word
  push_plan [] hashes = pure tt
  push_plan (target ∷ targets) [] = pure tt
  push_plan (target ∷ targets) (hash ∷ hashes) = do
    push_address host planned_target_addresses_slot target
    push_word host planned_wasm_hashes_slot hash
    push_plan targets hashes

  -- The loop of `has_planned_upgrade` over `n` entries from `index` on.
  find_planned : ℕ → ℕ → ℕ → ℕ → Action Bool
  find_planned target hash index zero = pure false
  find_planned target hash index (suc n) = do
    planned_target ← read_address (target_slot index)
    planned_hash ← sload (hash_slot index)
    let rest = find_planned target hash (index + 1) n
    if planned_target == target && planned_hash == hash then pure true else rest

  unfoldable pub has_planned_upgrade : ℕ → ℕ → Action Bool
  unfolding len find_planned
  has_planned_upgrade target hash = do
    hashes_len ← len planned_wasm_hashes_slot
    find_planned target hash 0 hashes_len

  move_last : Bool → ℕ → ℕ → Action (Unit {0})
  move_last false index last_index = pure tt
  move_last true index last_index = do
    last_target ← read_address (target_slot last_index)
    last_hash ← sload (hash_slot last_index)
    write_address (target_slot index) last_target
    sstore (hash_slot index) last_hash

  -- The entry at `index` replaced by the last one, which is dropped.
  unfoldable pub swap_remove : ℕ → ℕ → Action (Unit {0})
  unfolding pop move_last
  swap_remove index last_index = do
    move_last (not (index == last_index)) index last_index
    pop planned_target_addresses_slot
    pop planned_wasm_hashes_slot

  -- The loop of `remove_planned_upgrade` over `n` entries from `index` on: the last one stands at
  -- `index + n - 1`. The loop leaves at the first match.
  remove_from : ℕ → ℕ → ℕ → ℕ → Action (Unit {0})
  unfolding swap_remove
  remove_from target hash index zero = pure tt
  remove_from target hash index (suc n) = do
    planned_target ← read_address (target_slot index)
    planned_hash ← sload (hash_slot index)
    let rest = remove_from target hash (index + 1) n
    if not (planned_target == target) || not (planned_hash == hash)
        then rest
        else swap_remove index (index + n)

  unfoldable pub remove_planned_upgrade : ℕ → ℕ → Action (Unit {0})
  unfolding len remove_from
  remove_planned_upgrade target hash = do
    hashes_len ← len planned_wasm_hashes_slot
    remove_from target hash 0 hashes_len

  -- The pairs that a cancellation reports.
  read_plan : ℕ → ℕ → Action (List ℕ × List ℕ)
  read_plan index zero = pure ([], [])
  read_plan index (suc n) = do
    target ← read_address (target_slot index)
    hash ← sload (hash_slot index)
    rest ← read_plan (index + 1) n
    pure (target ∷ rest.0, hash ∷ rest.1)

  unfoldable pub drop_plan : ℕ → ℕ → Action (Unit {0})
  unfolding read_plan clear_planned_hashes write_address StorageString.clear
  drop_plan updater hashes_len = do
    pairs ← read_plan 0 hashes_len
    genesis_hash ← sload planned_genesis_hash_slot
    clear_planned_hashes
    write_address planned_updater_slot 0
    sstore planned_genesis_hash_slot 0
    StorageString.clear host planned_genesis_version_slot
    emit (Event.upgrade_plan_cancelled genesis_hash updater pairs.0 pairs.1)

  unfoldable pub cancel_planned_upgrade : Action (Unit {0})
  unfolding len read_address drop_plan
  cancel_planned_upgrade = do
    updater ← read_address planned_updater_slot
    hashes_len ← len planned_wasm_hashes_slot
    if updater == 0 && hashes_len == 0 then pure tt else drop_plan updater hashes_len
