-- ===== src/Upgrade/Plan/Cancel.antt =====
-- contracts/runtime-upgrade/src/lib.rs: `cancel_planned_upgrade` leaves neither a plan nor an updater.
use fluentbase.Prelude.{
  ℕ, zero, suc, ◌+◌, ◌≤◌, ◌≡◌, ◌≢◌, refl, sym, ap, ◌∙◌, List, [], ◌∷◌, ◌++◌, ◌==◌, ◌&&◌, arith,
  Bool-cases, inl, inr,
}
use fluentbase.Sdk.Host.{Host}
use fluentbase.Sdk.Result.{ok}
use fluentbase.Sdk.Shared.{put, sload, sstore, emit, ◌>>=◌}
use fluentbase.Sdk.Shared.Vector.{
  address_of, with_address, length_of, read_address, write_address, len,
}
use fluentbase.Sdk.Shared.Bytes as StorageString
use fluentbase.Sdk.Shared.Bytes.Frame.{IsOutside, clear-IsLocal}
use fluentbase.Sdk.Shared.Laws.{
  IsWritable, Leaves, sstore-Leaves, write_address-Leaves, emit-ok, bind-ok,
}
use fluentbase.Upgrade.{Event, Frame}
use fluentbase.Upgrade.Plan.{
  target_slot, hash_slot, clear_planned_hashes, read_plan, drop_plan, cancel_planned_upgrade,
}
use fluentbase.Upgrade.Plan.View.{IsLaidOut, IsState}

pub clear_planned_hashes-Leaves :
    (s : Frame) → IsWritable s → Leaves clear_planned_hashes s (put 5 0 (put 4 0 s.storage))
unfolding clear_planned_hashes sstore
clear_planned_hashes-Leaves s w = ground (arith, w)

-- A field's slot is none of the version's.
pub field-IsOutside : (host : Host) (k : ℕ) → IsLaidOut host → k ≤ 5 → k ≢ 2 → IsOutside host 2 k
field-IsOutside host k laid h d =
    (λ e. d (sym e), λ i b e. let a = laid.version i b in omega (arith, a, e))

module _ (host : Host) where
  read_plan-ok :
      (index n : ℕ) (s : Frame) → (p : List ℕ × List ℕ) × (read_plan host index n s ≡ (ok p, s))
  unfolding read_plan read_address sload
  read_plan-ok index zero s = (([], []), refl)
  read_plan-ok index (suc n) s =
      let (p, e) = read_plan-ok (index + 1) n s in
      (
        (
          address_of (s.storage (target_slot host index)) ∷ p.0,
          s.storage (hash_slot host index) ∷ p.1,
        ),
        ground (arith, e),
      )

  -- What a cancellation leaves: the owner, and neither an updater nor a plan.
  abbrev pub IsCancelled : Frame → Frame → ℕ → Type 0
  IsCancelled s t owner =
      (t.context ≡ s.context) × (t.codes ≡ s.codes) × IsState host t.storage owner 0 []

  drop_plan-IsCancelled :
      (updater n : ℕ) (s : Frame) (owner stored : ℕ) (pairs : List (ℕ × ℕ))
      → IsLaidOut host
      → IsWritable s
      → IsState host s.storage owner stored pairs
      → (t : Frame) × (drop_plan host updater n s ≡ (ok tt, t)) × IsCancelled s t owner
  unfolding drop_plan sload
  drop_plan-IsCancelled updater n s owner stored pairs laid w state =
      let (p, read) = read_plan-ok 0 n s in
      let s1 = record s { storage = put 5 0 (put 4 0 s.storage) } in
      let s2 = record s1 { storage = put 3 (with_address (s1.storage 3) 0) s1.storage } in
      let s3 = record s2 { storage = put 1 0 s2.storage } in
      let (storage, run, local, readable) = clear-IsLocal host 2 s3 w state.readable in
      let s4 = record s3 { storage = storage } in
      let event = Event.upgrade_plan_cancelled (s.storage 1) updater p.0 p.1 in
      let field = λ (k : ℕ) (h : k ≤ 5) (d : k ≢ 2). local k (field-IsOutside host k laid h d) in
      let cleared =
        λ (e : Event) (u : Unit {0}). StorageString.clear host {E = Event} 2 >>= λ u. emit e in
      let hashed = λ (e : Event) (u : Unit {0}). sstore 1 0 >>= cleared e in
      let updated = λ (e : Event) (u : Unit {0}). write_address 3 0 >>= hashed e in
      let after = λ (q : List ℕ × List ℕ). sload 1 >>= λ g.
      clear_planned_hashes >>= updated (Event.upgrade_plan_cancelled g updater q.0 q.1) in
      (
        record s4 { logs = s4.logs ++ (event ∷ []) },
        bind-ok (read_plan host 0 n) after s s p read
            ∙ bind-ok clear_planned_hashes (updated event) s s1 tt (clear_planned_hashes-Leaves s w)
            ∙ bind-ok (write_address 3 0) (hashed event) s1 s2 tt (write_address-Leaves 3 0 s1 w)
            ∙ bind-ok (sstore 1 0) (cleared event) s2 s3 tt (sstore-Leaves 1 0 s2 w)
            ∙ bind-ok (StorageString.clear host 2) (λ u. emit event) s3 s4 tt run
            ∙ emit-ok event s4 w,
        (
          refl,
          refl,
          record {
            owner_lem = ap address_of (field 0 (omega arith) (λ e. omega arith)) ∙ state.owner_lem;
            updater_lem = ap address_of (field 3 (omega arith) (λ e. omega arith)) ∙ omega arith;
            readable = readable;
            plan = record {
              targets = ap length_of (field 4 (omega arith) (λ e. omega arith));
              hashes = ap length_of (field 5 (omega arith) (λ e. omega arith));
              entries = tt;
            };
          },
        ),
      )

  -- A cancellation returns; afterwards there is neither an updater nor a plan.
  pub cancel_planned_upgrade-IsCancelled :
      (s : Frame) (owner updater : ℕ) (pairs : List (ℕ × ℕ))
      → IsLaidOut host
      → IsWritable s
      → IsState host s.storage owner updater pairs
      → (t : Frame) × (cancel_planned_upgrade host s ≡ (ok tt, t)) × IsCancelled s t owner
  unfolding cancel_planned_upgrade read_address len sload
  cancel_planned_upgrade-IsCancelled s owner updater pairs laid w state =
      elim (Bool-cases (address_of (s.storage 3) == 0 && length_of (s.storage 5) == 0)) [
        | inl e ↦
            let none_left : address_of (s.storage 3) ≡ 0 = ground (arith, e) in
            let no_targets : length_of (s.storage 4) ≡ 0 =
              let a = state.plan.targets in let b = state.plan.hashes in ground (arith, e, a, b) in
            let no_hashes : length_of (s.storage 5) ≡ 0 = ground (arith, e) in
            (
              s,
              rw e refl,
              (
                refl,
                refl,
                record {
                  owner_lem = state.owner_lem;
                  updater_lem = none_left;
                  readable = state.readable;
                  plan = record { targets = no_targets; hashes = no_hashes; entries = tt };
                },
              ),
            )
        | inr e ↦
            let (t, run, done) =
              drop_plan-IsCancelled (address_of (s.storage 3)) (length_of (s.storage 5)) s owner
                updater pairs laid w state in
            (t, rw e run, done)
      ]
