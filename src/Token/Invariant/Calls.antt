-- ===== src/Token/Invariant/Calls.antt =====
-- `main_entry` of contracts/universal-token/src/lib.rs keeps the supply backed, whatever the call is.
use fluentbase.Prelude.{ℕ, ◌≡◌, leb, List, All, length, take, drop, subst, sym}
use fluentbase.Prelude.Bytes.{IsByte, from_be_bytes}
use fluentbase.Codec.Bounds.{All-drop}
use fluentbase.Sdk.Host.{Host}
use fluentbase.Sdk.State.{System}
use fluentbase.Sdk.Result.{Result, ok}
use fluentbase.Token.Consts.{total_supply_storage_slot}
use fluentbase.Token.Settings.{sig_len_bytes, initial_settings_v2_size}
use fluentbase.Token.Views.{unknown_method}
use fluentbase.Token.Erc20.{transfer, transfer_from, approve}
use fluentbase.Token.Supply.{mint, burn, withdraw}
use fluentbase.Token.Permit.{permit}
use fluentbase.Token.Entry.{main_entry}
use fluentbase.Token.Entry.Dispatch.{IsEveryRun, dispatch-runs, main_steps}
use fluentbase.Token.Backing.{IsAddress}
use fluentbase.Token.Ledger.{slot_value}
use fluentbase.Token.Guards.{balance_slot}
use fluentbase.Token.Invariant.{IsSeparated, IsBackedToken}
use fluentbase.Token.Invariant.Moves.{
  unchanged-IsBackedToken, transfer-IsBackedToken, transfer_from-IsBackedToken,
  approve-IsBackedToken, permit-IsBackedToken, pause-IsBackedToken, unpause-IsBackedToken,
}
use fluentbase.Token.Invariant.Supply.{
  mint-IsBackedToken, burn-IsBackedToken, deposit-IsBackedToken, withdraw-IsBackedToken,
}
use fluentbase.Token.Invariant.Views as Reads
use fluentbase.Token.Invariant.Decodes

module _ (host : Host) (apart : IsSeparated host) where
  -- A run that succeeds leaves the supply backed.
  abbrev Keeps : Result ℕ × System → Type 0
  Keeps r = r.0 ≡ ok 0 → IsBackedToken host r.1

  module _ (input : List ℕ) (s : System) (bytes : All IsByte input)
      (sender : IsAddress s.context.caller) (backed : IsBackedToken host s) where
    reads : (r : Result ℕ × System) → ((k : ℕ) → slot_value r.1 k ≡ slot_value s k) → Keeps r
    reads r e h =
        unchanged-IsBackedToken host apart s r.1 (λ a ha. e (balance_slot host a))
          (e total_supply_storage_slot) backed

    transfers : Keeps (transfer host input s)
    transfers h =
        let (c, e) = Decodes.transfer-decodes host input s h in
        transfer-IsBackedToken host apart input c s e sender
          (Decodes.decode_transfer_to input c bytes e) h backed

    transfers_from : Keeps (transfer_from host input s)
    transfers_from h =
        let (c, e) = Decodes.transfer_from-decodes host input s h in
        transfer_from-IsBackedToken host apart input c s e sender
          (Decodes.decode_transfer_from_from input c bytes e)
          (Decodes.decode_transfer_from_to input c bytes e) h backed

    approves : Keeps (approve host input s)
    approves h =
        let (c, e) = Decodes.approve-decodes host input s h in
        approve-IsBackedToken host apart input c s e sender
          (Decodes.decode_approve_spender input c bytes e) h backed

    permits : Keeps (permit host input s)
    permits h =
        let (c, e) = Decodes.permit-decodes host input s h in
        permit-IsBackedToken host apart input c s e (Decodes.decode_permit_owner input c bytes e)
          (Decodes.decode_permit_spender input c bytes e) h backed

    mints : Keeps (mint host input s)
    mints h =
        let (c, e) = Decodes.mint-decodes host input s h in
        mint-IsBackedToken host apart input c s e (Decodes.decode_mint_to input c bytes e) h backed

    burns : Keeps (burn host input s)
    burns h =
        let (c, e) = Decodes.burn-decodes host input s h in
        burn-IsBackedToken host apart input c s e (Decodes.decode_burn_from input c bytes e) h
          backed

    withdraws : Keeps (withdraw host input s)
    withdraws h =
        let (c, e) = Decodes.withdraw-decodes host input s h in
        withdraw-IsBackedToken host apart input c s e sender h backed

    unknown : Keeps (unknown_method input s)
    unfolding unknown_method
    unknown h = backed

    runs-Keeps : (sig : ℕ) → IsEveryRun host sig input s Keeps
    runs-Keeps sig = record {
      at_symbol = λ _. reads _ (Reads.symbol_lem host input s);
      at_name = λ _. reads _ (Reads.name_lem host input s);
      at_transfer = λ _. transfers;
      at_transfer_from = λ _. transfers_from;
      at_approve = λ _. approves;
      at_decimals = λ _. reads _ (Reads.decimals_lem input s);
      at_allowance = λ _. reads _ (Reads.allowance_lem host input s);
      at_total_supply = λ _. reads _ (Reads.total_supply_lem input s);
      at_balance = λ _. reads _ (Reads.balance_lem host input s);
      at_balance_of = λ _. reads _ (Reads.balance_of_lem host input s);
      at_mint = λ _. mints;
      at_burn = λ _. burns;
      at_pause = λ _ h. pause-IsBackedToken host apart input s h backed;
      at_unpause = λ _ h. unpause-IsBackedToken host apart input s h backed;
      at_permit = λ _. permits;
      at_nonces = λ _. reads _ (Reads.nonces_lem host input s);
      at_domain_separator = λ _. reads _ (Reads.domain_separator_lem host input s);
      at_deposit = λ _ h. deposit-IsBackedToken host apart input s sender h backed;
      at_withdraw = λ _. withdraws;
      at_unknown_method = unknown;
    }

  -- If the hash keeps the slots of the layout apart, for a caller that is an address, on input that
  -- is bytes and a backed token: whatever method a call names, a call of `main_entry` that succeeds
  -- leaves the token backed, that is, no set of accounts holds more than the total supply.
  pub main_entry-IsBackedToken :
      (s : System)
      → All IsByte s.input
      → IsAddress s.context.caller
      → IsBackedToken host s
      → (main_entry host s).0 ≡ ok tt
      → IsBackedToken host (main_entry host s).1
  main_entry-IsBackedToken s bytes sender backed h =
      let (ran, same) = main_steps host s h in
      subst (λ t. IsBackedToken host t) (sym same)
        (dispatch-runs host (drop sig_len_bytes s.input) s Keeps
          (from_be_bytes (take sig_len_bytes s.input))
          (leb initial_settings_v2_size (length s.contract_metadata))
          (runs-Keeps (drop sig_len_bytes s.input) s (All-drop sig_len_bytes s.input bytes) sender
            backed (from_be_bytes (take sig_len_bytes s.input)))
          ran)
