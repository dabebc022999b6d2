-- ===== src/Revm/Outcome/Keeps.antt =====
-- crates/revm/src/executor.rs: what the steps behind the storage of an outcome keep.
use fluentbase.Prelude.{ℕ, Option, none, some, List, [], ◌∷◌}
use fluentbase.Types.ExitCode.{ExitCode}
use fluentbase.Types.Journal.{JournalLog}
use fluentbase.Revm.Engine.{Engine, TransferError}
use fluentbase.Revm.Interruption.{Exit, Frame, Call, read_or_db, write}
use fluentbase.Revm.Keeps.{Keeps, Settles, keeps_rules, Keeps-bind, Keeps-pure}
use fluentbase.Revm.Outcome.{
  emit_logs, after_transfer, transfer_all, pay_within, pay, update_metadata,
}

-- What the operations of these steps must keep.
pub record IsSettling {G W C S : Type 0} (rt : Engine G W C S) (P : Frame G W → Type 0)
    (Q : Exit C → Frame G W → Type 0) : Type 0 where
  pub settles : Settles P Q
  pub accounts : (a : ℕ) → Keeps P Q (read_or_db (rt.load_account a))
  pub transfers : (t a v : ℕ) → Keeps P Q (read_or_db (rt.transfer t a v))
  pub logs : (t : ℕ) (p d : List ℕ) → Keeps P Q (write (rt.log t p d))
  pub codes : (t : ℕ) (c : C) → Keeps P Q (write (rt.set_code t c))

module _ {G W C S : Type 0} (rt : Engine G W C S) (P : Frame G W → Type 0)
    (Q : Exit C → Frame G W → Type 0) (k : IsSettling rt P Q) where
  pub emit_logs-Keeps : (t : ℕ) (l : List JournalLog) → Keeps P Q (emit_logs rt t l)
  unfolding emit_logs
  emit_logs-Keeps t [] = Keeps-pure tt
  emit_logs-Keeps t (x ∷ l) = Keeps-bind _ _ (k.logs t x.topics x.payload) λ _. emit_logs-Keeps t l

  after_transfer-Keeps :
      (e : Option TransferError) (rest : Call G W C ExitCode)
      → Keeps P Q rest
      → Keeps P Q (after_transfer rt e rest)
  unfolding after_transfer
  after_transfer-Keeps none rest h = h
  after_transfer-Keeps (some e) rest h = search keeps_rules

  transfer_all-Keeps : (t : ℕ) (c : ExitCode) (l : List (ℕ × ℕ)) → Keeps P Q (transfer_all rt t c l)
  unfolding transfer_all
  transfer_all-Keeps t c [] = Keeps-pure c
  transfer_all-Keeps t c ((a, v) ∷ l) =
      Keeps-bind _ _ (k.transfers t a v) λ e. after_transfer-Keeps e _ (transfer_all-Keeps t c l)

  pay-Keeps : (t : ℕ) (c : ExitCode) (l : Option (List (ℕ × ℕ))) → Keeps P Q (pay rt t c l)
  unfolding pay pay_within
  pay-Keeps t c none = Keeps-pure c
  pay-Keeps t c (some l) = search (keeps_rules, k.accounts, transfer_all-Keeps) depth 20

  pub update_metadata-Keeps :
      (t : ℕ) (c : ExitCode) (o : Option ℕ) (m : Option (List ℕ)) (l : Option (List (ℕ × ℕ)))
      → Keeps P Q (update_metadata rt t c o m l)
  unfolding update_metadata
  update_metadata-Keeps t c o none l = pay-Keeps t c l
  update_metadata-Keeps t c none (some m) l = search keeps_rules
  update_metadata-Keeps t c (some o) (some m) l = search (keeps_rules, k.codes, pay-Keeps) depth 20
