-- ===== src/Token/Access.antt =====
-- Calls that must not change the token of contracts/universal-token/src/lib.rs: static calls, and calls on
-- a frozen token.
use fluentbase.Prelude.{
  ℕ, ◌≡◌, ◌≢◌, ◌∙◌, refl, ap, true, false, List, leb, length, take, drop, arith,
}
use fluentbase.Prelude.Bytes.{from_be_bytes}
use fluentbase.Sdk.Host.{Host}
use fluentbase.Sdk.State.{System}
use fluentbase.Sdk.Result.{Result, ok}
use fluentbase.Token.Consts.{contract_frozen_storage_slot}
use fluentbase.Token.Settings.{sig_len_bytes, initial_settings_v2_size}
use fluentbase.Token.Views.{unknown_method}
use fluentbase.Token.Erc20.{transfer, transfer_from}
use fluentbase.Token.Supply.{mint, burn, deposit, withdraw}
use fluentbase.Token.Entry.{main_entry}
use fluentbase.Token.Entry.Dispatch.{IsEveryRun, dispatch-runs, main_steps}
use fluentbase.Token.Ledger.{slot_value}
use fluentbase.Token.Effects.Transfer.{
  transfer-slot_value, transfer_from-slot_value, approve-slot_value,
}
use fluentbase.Token.Effects.Supply.{mint-slot_value, burn-slot_value}
use fluentbase.Token.Effects.Wrapped.{deposit-slot_value, withdraw-slot_value}
use fluentbase.Token.Effects.Pause.{pause-slot_value, unpause-slot_value}
use fluentbase.Token.Effects.Permit.{permit-slot_value}
use fluentbase.Token.Invariant.Views as Reads
use fluentbase.Token.Invariant.Decodes

-- On a frozen token, no method that moves tokens succeeds: `transfer`, `transferFrom`, `mint`,
-- `burn`, `deposit` and `withdraw` all end with an error or another code than 0, whatever their
-- input and caller.
pub frozen_token_lem :
    (host : Host) (input : List ℕ) (s : System)
    → slot_value s contract_frozen_storage_slot ≢ 0
    → ((transfer host input s).0 ≢ ok 0)
      × ((transfer_from host input s).0 ≢ ok 0)
      × ((mint host input s).0 ≢ ok 0)
      × ((burn host input s).0 ≢ ok 0)
      × ((deposit host input s).0 ≢ ok 0)
      × ((withdraw host input s).0 ≢ ok 0)
frozen_token_lem host input s frozen = (
  λ h.
      let (c, e) = Decodes.transfer-decodes host input s h in
      frozen (transfer-slot_value host input c s e h).2,
  λ h.
      let (c, e) = Decodes.transfer_from-decodes host input s h in
      frozen (transfer_from-slot_value host input c s e h).2,
  λ h.
      let (c, e) = Decodes.mint-decodes host input s h in
      frozen (mint-slot_value host input c s e h).2,
  λ h.
      let (c, e) = Decodes.burn-decodes host input s h in
      frozen (burn-slot_value host input c s e h).2,
  λ h. frozen (deposit-slot_value host input s h).2,
  λ h.
      let (c, e) = Decodes.withdraw-decodes host input s h in
      frozen (withdraw-slot_value host input c s e h).3,
)

-- A run that succeeds leaves every slot as it was.
abbrev IsReadOnly : System → Result ℕ × System → Type 0
IsReadOnly s r = r.0 ≡ ok 0 → (k : ℕ) → slot_value r.1 k ≡ slot_value s k

module _ (host : Host) (input : List ℕ) (s : System) (static : s.context.is_static ≡ true) where
  not_static : {A : Type 0} → s.context.is_static ≡ false → A
  not_static e = grind arith

  static_runs : (sig : ℕ) → IsEveryRun host sig input s (IsReadOnly s)
  static_runs sig = record {
    at_symbol = λ _ _. Reads.symbol_lem host input s;
    at_name = λ _ _. Reads.name_lem host input s;
    at_transfer = λ _ h.
        let (c, e) = Decodes.transfer-decodes host input s h in
        not_static (transfer-slot_value host input c s e h).1;
    at_transfer_from = λ _ h.
        let (c, e) = Decodes.transfer_from-decodes host input s h in
        not_static (transfer_from-slot_value host input c s e h).1;
    at_approve = λ _ h.
        let (c, e) = Decodes.approve-decodes host input s h in
        not_static (approve-slot_value host input c s e h).1;
    at_decimals = λ _ _. Reads.decimals_lem input s;
    at_allowance = λ _ _. Reads.allowance_lem host input s;
    at_total_supply = λ _ _. Reads.total_supply_lem input s;
    at_balance = λ _ _. Reads.balance_lem host input s;
    at_balance_of = λ _ _. Reads.balance_of_lem host input s;
    at_mint = λ _ h.
        let (c, e) = Decodes.mint-decodes host input s h in
        not_static (mint-slot_value host input c s e h).1;
    at_burn = λ _ h.
        let (c, e) = Decodes.burn-decodes host input s h in
        not_static (burn-slot_value host input c s e h).1;
    at_pause = λ _ h. not_static (pause-slot_value input s h).1;
    at_unpause = λ _ h. not_static (unpause-slot_value input s h).1;
    at_permit = λ _ h.
        let (c, e) = Decodes.permit-decodes host input s h in
        not_static (permit-slot_value host input c s e h).1;
    at_nonces = λ _ _. Reads.nonces_lem host input s;
    at_domain_separator = λ _ _. Reads.domain_separator_lem host input s;
    at_deposit = λ _ h. not_static (deposit-slot_value host input s h).0;
    at_withdraw = λ _ h.
        let (c, e) = Decodes.withdraw-decodes host input s h in
        not_static (withdraw-slot_value host input c s e h).1;
    at_unknown_method = unfold unknown_method in λ h k. refl;
  }

-- In a static call, whatever method it names, a `main_entry` that succeeds leaves every slot of the
-- storage as it was.
pub static_call_lem :
    (host : Host) (s : System)
    → s.context.is_static ≡ true
    → (main_entry host s).0 ≡ ok tt
    → (k : ℕ) → slot_value (main_entry host s).1 k ≡ slot_value s k
static_call_lem host s static h k =
    let (ran, same) = main_steps host s h in
    let input = drop sig_len_bytes s.input in
    ap (λ t. slot_value t k) same
    ∙ dispatch-runs host input s (IsReadOnly s) (from_be_bytes (take sig_len_bytes s.input))
        (leb initial_settings_v2_size (length s.contract_metadata))
        (static_runs host input s static (from_be_bytes (take sig_len_bytes s.input))) ran k
