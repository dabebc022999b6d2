-- ===== src/Sdk/System.antt =====
-- `SystemContextImpl` of crates/sdk/src/system.rs: the calls that the contracts make on it.
use fluentbase.Prelude.{ℕ, ◌-◌, none, some, List, [], ◌∷◌, ◌++◌, ltb, if◌then◌else◌}
use fluentbase.Types.ExitCode.{ExitCode}
use fluentbase.Types.Journal
use fluentbase.Sdk.Result.{M, ok, err, modify}

-- `self.storage(slot).ok()`: a slot that was not preloaded is an error, not zero.
unfoldable pub storage : ℕ → M ℕ
unfolding Journal.storage
storage k s =
    let (value, j) = Journal.storage k s.journal in
    elim value [
      | some v ↦ (ok v, record s { journal = j })
      | none ↦ (err ExitCode.missing_storage_slot, record s { journal = j })
    ]

-- `self.write_storage(slot, value).ok()`, which cannot fail.
unfoldable pub write_storage : ℕ → ℕ → M (Unit {0})
write_storage k v = modify λ s. record s { journal = Journal.write_storage k v s.journal }

-- `self.emit_log(topics, data).ok()`, which cannot fail.
unfoldable pub emit_log : List ℕ → List ℕ → M (Unit {0})
emit_log topics payload =
    modify λ s. record s { journal = Journal.emit_log topics payload s.journal }

unfoldable pub write : List ℕ → M (Unit {0})
write bytes = modify λ s. record s { output = s.output ++ bytes }

unfoldable pub write_contract_metadata : List ℕ → M (Unit {0})
write_contract_metadata bytes = modify λ s. record s { metadata = some bytes }

-- `syscall_charge_fuel_impl`: a charge above what is left traps.
unfoldable pub charge_fuel : ℕ → M (Unit {0})
charge_fuel amount s =
    if ltb s.fuel amount
    then (err ExitCode.out_of_fuel, s)
    else (ok tt, record s { fuel = s.fuel - amount })

unfoldable pub transfer_value_to : ℕ → ℕ → M (Unit {0})
transfer_value_to address value s =
    if s.context.is_static
    then (err ExitCode.state_change_during_static_call, s)
    else let listed : List (ℕ × ℕ) = elim s.transfers [ some l ↦ l | none ↦ [] ] in
      (ok tt, record s { transfers = some (listed ++ ((address, value) ∷ [])) })
