-- ===== src/Revm/Keeps/Account.antt =====
-- crates/revm/src/syscall.rs: what the calls on accounts keep.
use fluentbase.Prelude.{ℕ, Bool, Option, none, some, List}
use fluentbase.Revm.Engine.{Engine, AccountInfo}
use fluentbase.Revm.Metadata.{EthereumMetadata}
use fluentbase.Revm.Interruption.{Interruption, Frame, Exit, input_exactly}
use fluentbase.Revm.Keeps.{
  Keeps, IsKept, keeps_rules, Keeps-writable, Keeps-bind, Keeps-input_exactly,
}
use fluentbase.Revm.Syscall.Account.{
  view_code, view_owned, read_metadata, load_account_charged, balance, self_balance, code_size,
  code_hash, copy_code, code_copy, destroy_account, read_block_hash, block_hash,
}

module _ {G W C S : Type 0} (rt : Engine G W C S) (i : Interruption) (P : Frame G W → Type 0)
    (Q : Exit C → Frame G W → Type 0) (kept : IsKept rt i P Q) where
  read_metadata-Keeps : (m : Option (Option EthereumMetadata)) → Keeps P Q (read_metadata rt m)
  unfolding read_metadata
  read_metadata-Keeps none = search (keeps_rules)
  read_metadata-Keeps (some none) = search (keeps_rules, kept.settles)
  read_metadata-Keeps (some (some m)) = search (keeps_rules)

  view_owned-Keeps : (code : Option C) (o : Option (ℕ × List ℕ)) → Keeps P Q (view_owned rt code o)
  unfolding view_owned
  view_owned-Keeps code none = search (keeps_rules)
  view_owned-Keeps code (some (a, m)) = search (keeps_rules, read_metadata-Keeps)

  view_code-Keeps : (code : Option C) → Keeps P Q (view_code rt code)
  unfolding view_code
  view_code-Keeps none = search (keeps_rules)
  view_code-Keeps (some code) = search (keeps_rules, view_owned-Keeps)

  load_account_charged-Keeps : (a : ℕ) (b : Bool) → Keeps P Q (load_account_charged rt a b)
  unfolding load_account_charged
  load_account_charged-Keeps a b = search (keeps_rules, kept.charges, kept.infos) depth 20

  ruleset account_rules = (keeps_rules, view_code-Keeps, load_account_charged-Keeps)

  pub balance-Keeps : Keeps P Q (balance rt i)
  unfolding balance
  balance-Keeps = search (account_rules, kept.settles) depth 20

  pub self_balance-Keeps : Keeps P Q (self_balance rt i)
  unfolding self_balance
  self_balance-Keeps = search (keeps_rules, kept.settles, kept.charges, kept.accounts) depth 20

  pub code_size-Keeps : Keeps P Q (code_size rt i)
  unfolding code_size
  code_size-Keeps = search (account_rules, kept.settles) depth 20

  pub code_hash-Keeps : Keeps P Q (code_hash rt i)
  unfolding code_hash
  code_hash-Keeps = search (account_rules, kept.settles) depth 20

  copy_code-Keeps : (a o n : ℕ) (account : AccountInfo C) → Keeps P Q (copy_code rt i a o n account)
  unfolding copy_code
  copy_code-Keeps a o n account = search (account_rules, kept.settles) depth 20

  pub code_copy-Keeps : Keeps P Q (code_copy rt i)
  unfolding code_copy
  code_copy-Keeps = search (account_rules, kept.settles, copy_code-Keeps, kept.charges) depth 30

  pub destroy_account-Keeps : Keeps P Q (destroy_account rt i)
  unfolding destroy_account
  destroy_account-Keeps =
      Keeps-bind (input_exactly i 20) _ (Keeps-input_exactly i 20 kept.settles) λ input.
        Keeps-writable i _ kept.settles
          λ h. search (keeps_rules, kept.settles, kept.charges, kept.ends h) depth 20

  read_block_hash-Keeps : (n : ℕ) → Keeps P Q (read_block_hash rt i n)
  unfolding read_block_hash
  read_block_hash-Keeps n = search (keeps_rules, kept.hashes)

  pub block_hash-Keeps : Keeps P Q (block_hash rt i)
  unfolding block_hash
  block_hash-Keeps =
      search (keeps_rules, kept.settles, kept.charges, read_block_hash-Keeps) depth 20
