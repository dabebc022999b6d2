-- ===== src/Revm/Outcome.antt =====
-- crates/revm/src/executor.rs: how the outcome of a system contract's run is brought into the
-- journal and the gas of its frame (`process_runtime_execution_outcome`).
pub mod Keeps
pub mod Settle
pub mod Commit
use fluentbase.Prelude.{
  ℕ, ◌+◌, ◌-◌, ◌^◌, Bool, true, false, not, Option, none, some, List, [], ◌∷◌, ◌++◌, ◌&&◌, ltb, leb,
  ◌==◌, if◌then◌else◌,
}
use fluentbase.Types.ExitCode.{ExitCode, is_ok, is_fatal_exit_code}
use fluentbase.Types.Genesis.{contains}
use fluentbase.Types.Journal.{JournalLog}
use fluentbase.Revm.Engine.{Engine, TransferError, out_of_funds, overflow_payment, create_collision}
use fluentbase.Revm.Interruption.{
  Step, Frame, Call, ◌>>=◌, ◌>>◌, pure, load_or_halt, read_or_db, write,
}

-- `RuntimeExecutionOutcomeV1`. The map of the storage is the list of its entries.
pub record Outcome : Type 0 where
  pub exit_code : ExitCode
  pub output : List ℕ
  pub storage : Option (List (ℕ × ℕ))
  pub logs : List JournalLog
  pub new_metadata : Option (List ℕ)
  pub touched_storage_slots : Option (List ℕ)
  pub transfers : Option (List (ℕ × ℕ))

-- The costs of the slots that the run has not touched.
unfoldable pub refunded_cost : List ℕ → List (ℕ × ℕ) → ℕ
refunded_cost touched [] = 0
refunded_cost touched ((slot, cost) ∷ costs) =
    (if contains touched slot then 0 else cost) + refunded_cost touched costs

-- `fold` with `saturating_add`.
unfoldable pub balance_required : ℕ → List (ℕ × ℕ) → ℕ
balance_required total [] = total
balance_required total ((recipient, amount) ∷ transfers) =
    balance_required (if leb (total + amount) (2 ^ 256 - 1) then total + amount else 2 ^ 256 - 1)
      transfers

unfoldable pub transfer_code : TransferError → ExitCode
transfer_code out_of_funds = ExitCode.insufficient_balance
transfer_code overflow_payment = ExitCode.integer_overflow
transfer_code create_collision = ExitCode.create_contract_collision

module _ {G W C S : Type 0} (rt : Engine G W C S) where
  -- `gas.erase_cost(refunded_cost)` where both lists are there.
  unfoldable pub refund_untouched : Option (List (ℕ × ℕ)) → Option (List ℕ) → Call G W C (Unit {0})
  refund_untouched (some costs) (some touched) f = (
    Step.next tt,
    if ltb 0 (refunded_cost touched costs)
        then record f { gas = rt.erase_cost (refunded_cost touched costs) f.gas }
        else f,
  )
  refund_untouched (some costs) none f = (Step.next tt, f)
  refund_untouched none touched f = (Step.next tt, f)

  -- `ctx.journal_mut().sstore(*target_address, k, v)?` for each entry: a store that skips no load.
  unfoldable pub commit_storage : ℕ → List (ℕ × ℕ) → Call G W C (Unit {0})
  commit_storage target [] = pure tt
  commit_storage target ((k, v) ∷ entries) = do
    stored ← load_or_halt (rt.sstore target k v false)
    commit_storage target entries

  unfoldable pub emit_logs : ℕ → List JournalLog → Call G W C (Unit {0})
  emit_logs target [] = pure tt
  emit_logs target (l ∷ logs) = do write (rt.log target l.topics l.payload); emit_logs target logs

  -- The loop of transfers; a transfer that fails ends it with its code.
  unfoldable pub after_transfer : Option TransferError → Call G W C ExitCode → Call G W C ExitCode
  unfolding transfer_code
  after_transfer none rest = rest
  after_transfer (some e) rest = pure (transfer_code e)

  unfoldable pub transfer_all : ℕ → ExitCode → List (ℕ × ℕ) → Call G W C ExitCode
  unfolding after_transfer
  transfer_all target code [] = pure code
  transfer_all target code ((recipient, amount) ∷ transfers) = do
    failure ← read_or_db (rt.transfer target recipient amount)
    after_transfer failure (transfer_all target code transfers)

  unfoldable pub pay_within : ℕ → ℕ → ExitCode → List (ℕ × ℕ) → Call G W C ExitCode
  pay_within required target code transfers = do
    (account, is_cold) ← read_or_db (rt.load_account target)
    if ltb account.balance required
        then pure ExitCode.insufficient_balance
        else transfer_all target code transfers

  -- The transfers that the contract asks for, within its balance.
  unfoldable pub pay : ℕ → ExitCode → Option (List (ℕ × ℕ)) → Call G W C ExitCode
  pay target code none = pure code
  pay target code (some transfers) =
      if balance_required 0 transfers == 2 ^ 256 - 1
      then pure ExitCode.integer_overflow
      else pay_within (balance_required 0 transfers) target code transfers

  -- New metadata is for an account with an owner; otherwise the frame fails.
  unfoldable pub update_metadata :
      ℕ → ExitCode → Option ℕ → Option (List ℕ) → Option (List (ℕ × ℕ)) → Call G W C ExitCode
  update_metadata target code owner none transfers = pay target code transfers
  update_metadata target code none (some metadata) transfers = pure ExitCode.unknown_error
  update_metadata target code (some owner) (some metadata) transfers = do
    write (rt.set_code target (rt.new_ownable_account owner metadata))
    pay target code transfers

  -- The state changes of a run that ended with `Ok`.
  unfoldable pub commit_outcome : ℕ → ExitCode → Option ℕ → Outcome → Call G W C ExitCode
  commit_outcome target code owner o = do
    commit_storage target (elim o.storage [ some entries ↦ entries | none ↦ [] ])
    emit_logs target o.logs
    update_metadata target code owner o.new_metadata o.transfers

  -- The state changes, if the run ended with `Ok`, and the new exit code and return data.
  unfoldable pub finish_outcome : ℕ → ExitCode → Option ℕ → Outcome → Call G W C (ExitCode × List ℕ)
  finish_outcome target code owner o = do
    code' ← if is_ok o.exit_code then commit_outcome target code owner o else pure code
    pure (code', o.output)

  -- The outcome, decoded from the return data; the answer is the exit code and the new return data.
  unfoldable pub process_decoded :
      ℕ → ExitCode → Option ℕ → Option (List (ℕ × ℕ)) → Outcome → Call G W C (ExitCode × List ℕ)
  process_decoded target code owner costs o = do
    refund_untouched costs o.touched_storage_slots
    finish_outcome target code owner o

  -- `decoded` is bincode's reading of `return_data`.
  unfoldable pub process_runtime_execution_outcome :
      ℕ
      → ExitCode
      → List ℕ
      → Option Outcome
      → Option ℕ
      → Option (List (ℕ × ℕ))
      → Call G W C (ExitCode × List ℕ)
  process_runtime_execution_outcome target code return_data none owner costs =
      pure (code, return_data)
  process_runtime_execution_outcome target code return_data (some o) owner costs =
      if is_fatal_exit_code code
      then pure (code, return_data)
      else process_decoded target code owner costs o
