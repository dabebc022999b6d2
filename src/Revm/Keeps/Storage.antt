-- ===== src/Revm/Keeps/Storage.antt =====
-- crates/revm/src/syscall.rs: what the calls on storage and logs keep.
use fluentbase.Prelude.{ℕ, ◌≡◌, false}
use fluentbase.Revm.Engine.{Engine}
use fluentbase.Revm.Interruption.{Interruption, Frame, Exit, input_exactly}
use fluentbase.Revm.Keeps.{
  Keeps, IsKept, keeps_rules, Keeps-writable, Keeps-bind, Keeps-input_exactly,
}
use fluentbase.Revm.Syscall.Storage.{
  sload_charged, sstore_gas, storage_read, storage_write, transient_read, transient_write,
  emit_topics, emit_log,
}

module _ {G W C S : Type 0} (rt : Engine G W C S) (i : Interruption) (P : Frame G W → Type 0)
    (Q : Exit C → Frame G W → Type 0) (kept : IsKept rt i P Q) where
  pub sload_charged-Keeps : (a k : ℕ) → Keeps P Q (sload_charged rt a k)
  unfolding sload_charged
  sload_charged-Keeps a k = search (keeps_rules, kept.settles, kept.charges, kept.sloads) depth 20

  pub sstore_gas-Keeps : (a k v : ℕ) → i.is_static ≡ false → Keeps P Q (sstore_gas rt a k v)
  unfolding sstore_gas
  sstore_gas-Keeps a k v h =
      search (keeps_rules, kept.settles, kept.charges, kept.sstores h, kept.refunds) depth 20

  pub storage_read-Keeps : Keeps P Q (storage_read rt i)
  unfolding storage_read
  storage_read-Keeps = search (keeps_rules, kept.settles, sload_charged-Keeps) depth 20

  pub storage_write-Keeps : Keeps P Q (storage_write rt i)
  unfolding storage_write
  storage_write-Keeps =
      Keeps-writable i _ kept.settles
        λ h. search (keeps_rules, kept.settles, λ (a k v : ℕ). sstore_gas-Keeps a k v h) depth 20

  pub transient_read-Keeps : Keeps P Q (transient_read rt i)
  unfolding transient_read
  transient_read-Keeps = search (keeps_rules, kept.settles, kept.charges) depth 20

  pub transient_write-Keeps : Keeps P Q (transient_write rt i)
  unfolding transient_write
  transient_write-Keeps =
      Keeps-bind (input_exactly i 64) _ (Keeps-input_exactly i 64 kept.settles) λ input.
        Keeps-writable i _ kept.settles
          λ h. search (keeps_rules, kept.settles, kept.charges, kept.tstores h) depth 20

  pub emit_topics-Keeps : (n : ℕ) → i.is_static ≡ false → Keeps P Q (emit_topics rt i n)
  unfolding emit_topics
  emit_topics-Keeps n h = search (keeps_rules, kept.settles, kept.charges, kept.logs h) depth 20

  pub emit_log-Keeps : Keeps P Q (emit_log rt i)
  unfolding emit_log
  emit_log-Keeps =
      Keeps-writable i _ kept.settles
        λ h. search (keeps_rules, kept.settles, λ (n : ℕ). emit_topics-Keeps n h) depth 20
