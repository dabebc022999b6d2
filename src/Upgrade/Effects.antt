-- ===== src/Upgrade/Effects.antt =====
-- contracts/runtime-upgrade/src/lib.rs: what the handlers that the owner calls leave behind.
pub mod Install
pub mod Planned
use fluentbase.Prelude.{
  ℕ, zero, suc, ◌+◌, ◌%◌, ◌^◌, ◌<◌, ◌≤◌, ◌≡◌, ◌≢◌, refl, sym, ap, subst, ◌∙◌, Bool, true, false,
  not, Option, none, some, List, [], ◌∷◌, ◌++◌, ◌==◌, ◌&&◌, if◌then◌else◌, length, arith,
  Bool-cases, ==_iff, inl, inr, All,
}
use fluentbase.Sdk.Host.{Host}
use fluentbase.Sdk.Result.{ok, abort}
use fluentbase.Sdk.Shared.{Shared, Bytecode, put, sload, sstore, emit, ◌>>=◌, panic_if}
use fluentbase.Sdk.Shared.Vector.{address_of, with_address, length_of, read_address, write_address}
use fluentbase.Sdk.Shared.Bytes as StorageString
use fluentbase.Sdk.Shared.Bytes.Frame.{IsReadable, store-IsLocal}
use fluentbase.Sdk.Shared.Laws.{
  IsWritable, Leaves, sstore-Leaves, write_address-Leaves, emit-ok, bind-ok,
}
use fluentbase.Upgrade.{Event, Frame, system_address}
use fluentbase.Upgrade.Plan.{clear_planned_hashes, cancel_planned_upgrade, push_plan}
use fluentbase.Upgrade.Plan.View.{IsLaidOut, IsPlan, IsState}
use fluentbase.Upgrade.Plan.Push.{zip, push_plan-IsPlan}
use fluentbase.Upgrade.Plan.Cancel.{
  clear_planned_hashes-Leaves, field-IsOutside, cancel_planned_upgrade-IsCancelled,
}
use fluentbase.Upgrade.Handlers.{
  only_owner, or_default, is_malformed, write_plan, plan_upgrade, hand_over, change_owner,
  renounce_ownership,
}

-- The owner that the storage stands for.
abbrev pub owner_of : (ℕ → ℕ) → ℕ
owner_of storage = or_default (address_of (storage 0))

pub only_owner_lem :
    (s : Frame)
    → (only_owner s).0 ≡ ok tt
    → (s.context.caller ≡ owner_of s.storage) × (only_owner s ≡ (ok tt, s))
unfolding only_owner read_address sload
only_owner_lem s h = (ground arith, ground arith)

pub only_owner_exit :
    (s : Frame) → s.context.caller ≢ owner_of s.storage → only_owner s ≡ (abort, s)
unfolding only_owner read_address sload
only_owner_exit s h = ground arith

pub only_owner_ok : (s : Frame) → s.context.caller ≡ owner_of s.storage → only_owner s ≡ (ok tt, s)
unfolding only_owner read_address sload
only_owner_ok s h = ground arith

module _ (host : Host) where
  -- What a handler of the owner leaves: the code of every account, and a state.
  abbrev pub IsLeft : Frame → Frame → ℕ → ℕ → List (ℕ × ℕ) → Type 0
  IsLeft s t owner updater pairs = (t.codes ≡ s.codes) × IsState host t.storage owner updater pairs

  pub write_plan-IsLeft :
      (genesis_hash updater : ℕ) (version targets hashes : List ℕ) (s : Frame) (owner stored : ℕ)
      (pairs : List (ℕ × ℕ))
      → IsLaidOut host
      → IsWritable s
      → updater < 2 ^ 160
      → length version < 2 ^ 31
      → All (λ t. t < 2 ^ 160) targets
      → length targets < 2 ^ 64
      → IsState host s.storage owner stored pairs
      → (t : Frame) × (write_plan host genesis_hash version targets hashes updater s ≡ (ok tt, t))
        × IsLeft s t owner updater (zip targets hashes)
  unfolding write_plan
  write_plan-IsLeft genesis_hash updater version targets hashes s owner stored pairs laid w hu hv ht
        hl state =
      let s1 = record s { storage = put 5 0 (put 4 0 s.storage) } in
      let s2 = record s1 { storage = put 1 genesis_hash s1.storage } in
      let (storage, run, local, readable) = store-IsLocal host 2 version s2 w state.readable hv in
      let field = λ (k : ℕ) (h : k ≤ 5) (d : k ≢ 2). local k (field-IsOutside host k laid h d) in
      let s3 = record s2 { storage = storage } in
      let s4 = record s3 { storage = put 3 (with_address (storage 3) updater) storage } in
      let emptied : IsPlan host s4.storage [] = record {
        targets = ap length_of (field 4 (omega arith) (λ e. omega arith));
        hashes = ap length_of (field 5 (omega arith) (λ e. omega arith));
        entries = tt;
      } in
      let (storage', run', plan, kept) =
        push_plan-IsPlan host s4 [] targets hashes laid w emptied ht (omega arith) in
      let s5 = record s4 { storage = storage' } in
      let event = Event.upgrade_planned genesis_hash version targets hashes updater in
      let k5 = λ (u : Unit {0}). emit event in
      let k4 = λ (u : Unit {0}). push_plan host targets hashes >>= k5 in
      let k3 = λ (u : Unit {0}). write_address 3 updater >>= k4 in
      let k2 = λ (u : Unit {0}). StorageString.store host {E = Event} 2 version >>= k3 in
      let k1 = λ (u : Unit {0}). sstore 1 genesis_hash >>= k2 in
      (
        record s5 { logs = s5.logs ++ (event ∷ []) },
        bind-ok clear_planned_hashes k1 s s1 tt (clear_planned_hashes-Leaves s w)
            ∙ bind-ok (sstore 1 genesis_hash) k2 s1 s2 tt (sstore-Leaves 1 genesis_hash s1 w)
            ∙ bind-ok (StorageString.store host 2 version) k3 s2 s3 tt run
            ∙ bind-ok (write_address 3 updater) k4 s3 s4 tt (write_address-Leaves 3 updater s3 w)
            ∙ bind-ok (push_plan host targets hashes) k5 s4 s5 tt run'
            ∙ emit-ok event s5 w,
        (
          refl,
          record {
            owner_lem =
                ap address_of (kept 0 (omega arith) ∙ field 0 (omega arith) (λ e. omega arith))
                ∙ state.owner_lem;
            updater_lem = ap address_of (kept 3 (omega arith)) ∙ omega (arith, hu);
            readable = subst IsReadable (sym (kept 2 (omega arith))) readable;
            plan = plan;
          },
        ),
      )

  pub hand_over-IsLeft :
      (new_owner : ℕ) (s : Frame) (owner updater : ℕ) (pairs : List (ℕ × ℕ))
      → IsLaidOut host
      → IsWritable s
      → new_owner < 2 ^ 160
      → IsState host s.storage owner updater pairs
      → (t : Frame) × (hand_over host new_owner s ≡ (ok tt, t)) × IsLeft s t new_owner 0 []
  unfolding hand_over
  hand_over-IsLeft new_owner s owner updater pairs laid w h state =
      let (t, run, (context, codes, left)) =
        cancel_planned_upgrade-IsCancelled host s owner updater pairs laid w state in
      let w' : IsWritable t = ap (λ c. c.is_static) context ∙ w in
      let t1 = record t { storage = put 0 (with_address (t.storage 0) new_owner) t.storage } in
      let event = Event.owner_changed new_owner in
      let k2 = λ (u : Unit {0}). emit event in
      let k1 = λ (u : Unit {0}). write_address 0 new_owner >>= k2 in
      (
        record t1 { logs = t1.logs ++ (event ∷ []) },
        bind-ok (cancel_planned_upgrade host) k1 s t tt run
            ∙ bind-ok (write_address 0 new_owner) k2 t t1 tt (write_address-Leaves 0 new_owner t w')
            ∙ emit-ok event t1 w',
        (
          codes,
          record {
            owner_lem = omega (arith, h);
            updater_lem = left.updater_lem;
            readable = left.readable;
            plan = record { targets = left.plan.targets; hashes = left.plan.hashes; entries = tt };
          },
        ),
      )

  pub plan_guards :
      (genesis_hash updater : ℕ) (version targets hashes : List ℕ) (s : Frame)
      → (plan_upgrade host genesis_hash version targets hashes updater s).0 ≡ ok tt
      → (s.context.caller ≡ owner_of s.storage)
        × (0 < length hashes)
        × (length targets ≡ length hashes)
        × (updater ≢ 0)
        × (is_malformed [] targets hashes ≡ false)
        × (plan_upgrade host genesis_hash version targets hashes updater s
            ≡ write_plan host genesis_hash version targets hashes updater s)
  unfolding plan_upgrade
  plan_guards genesis_hash updater version targets hashes s h =
      let caller : s.context.caller ≡ owner_of s.storage = grind (arith, only_owner_lem) in
      let guard = only_owner_ok s caller in
      (
        caller,
        grind (arith, guard),
        grind (arith, guard),
        grind (arith, guard),
        grind (arith, guard),
        grind (arith, guard),
      )

  pub hand_over_guards :
      (new_owner : ℕ) (s : Frame)
      → (change_owner host new_owner s).0 ≡ ok tt
      → (s.context.caller ≡ owner_of s.storage)
        × (new_owner ≢ 0)
        × (change_owner host new_owner s ≡ hand_over host new_owner s)
  unfolding change_owner
  hand_over_guards new_owner s h =
      let caller : s.context.caller ≡ owner_of s.storage = grind (arith, only_owner_lem) in
      let guard = only_owner_ok s caller in (caller, grind (arith, guard), grind (arith, guard))

  pub renounce_guards :
      (s : Frame)
      → (renounce_ownership host s).0 ≡ ok tt
      → (s.context.caller ≡ owner_of s.storage)
        × (renounce_ownership host s ≡ hand_over host system_address s)
  unfolding renounce_ownership
  renounce_guards s h =
      let caller : s.context.caller ≡ owner_of s.storage = grind (arith, only_owner_lem) in
      let guard = only_owner_ok s caller in (caller, grind (arith, guard))

  -- The owner's `plan_upgrade` of lists that the checks accept returns, from any plan before it. The
  -- new plan is the pairs, the updater is set, and owner and codes stay.
  pub plan_upgrade-IsLeft :
      (genesis_hash updater : ℕ) (version targets hashes : List ℕ) (s : Frame) (owner stored : ℕ)
      (pairs : List (ℕ × ℕ))
      → IsLaidOut host
      → IsWritable s
      → s.context.caller ≡ or_default owner
      → 0 < length hashes
      → length targets ≡ length hashes
      → updater ≢ 0
      → is_malformed [] targets hashes ≡ false
      → updater < 2 ^ 160
      → length version < 2 ^ 31
      → All (λ t. t < 2 ^ 160) targets
      → length targets < 2 ^ 64
      → IsState host s.storage owner stored pairs
      → (t : Frame) × (plan_upgrade host genesis_hash version targets hashes updater s ≡ (ok tt, t))
        × IsLeft s t owner updater (zip targets hashes)
  unfolding plan_upgrade
  plan_upgrade-IsLeft genesis_hash updater version targets hashes s owner stored pairs laid w caller
        some_pair lengths nonzero accepted hu hv ht hl state =
      let guard = only_owner_ok s (caller ∙ ap or_default (sym state.owner_lem)) in
      let (t, run, left) =
        write_plan-IsLeft genesis_hash updater version targets hashes s owner stored pairs laid w hu
          hv ht hl state in
      (t, ground (arith, guard, some_pair, lengths, nonzero, accepted, run), left)
