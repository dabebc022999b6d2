-- ===== src/Token/Keys/Cover.antt =====
-- The slots that crates/sdk/src/universal_token/storage.rs computes for a call are all that `main_entry`
-- of contracts/universal-token/src/lib.rs reads.
use fluentbase.Prelude.{ℕ, ◌≡◌, ◌≢◌, subst, leb, List, length, take, drop, arith}
use fluentbase.Prelude.Bytes.{from_be_bytes}
use fluentbase.Types.ExitCode.{ExitCode}
use fluentbase.Sdk.Host.{Host}
use fluentbase.Sdk.State.{System}
use fluentbase.Sdk.Result.{err, abort}
use fluentbase.Token.Settings.{sig_len_bytes, initial_settings_v2_size}
use fluentbase.Token.Views.{unknown_method}
use fluentbase.Token.Entry.{main_entry, exit_with, dispatch}
use fluentbase.Token.Entry.Dispatch.{IsEveryRun, dispatch-runs}
use fluentbase.Token.Keys.{main_keys, erc20_compute_main_storage_keys}
use fluentbase.Token.Keys.Sound as Sound
use fluentbase.Token.Keys.Sound.{IsPreloaded, IsSound}

module _ (host : Host) (s : System) where
  runs-IsSound :
      (sig : ℕ) (input : List ℕ)
      → IsPreloaded s (main_keys host sig input s.context.caller)
      → IsEveryRun host sig input s IsSound
  runs-IsSound sig input keys =
      let at : (g : ℕ) → sig ≡ g → IsPreloaded s (main_keys host g input s.context.caller) =
        λ g e. subst (λ i. IsPreloaded s (main_keys host i input s.context.caller)) e keys in
      record {
        at_symbol = λ e. Sound.symbol-IsSound host input s (at _ e);
        at_name = λ e. Sound.name-IsSound host input s (at _ e);
        at_transfer = λ e. Sound.transfer-IsSound host input s (at _ e);
        at_transfer_from = λ e. Sound.transfer_from-IsSound host input s (at _ e);
        at_approve = λ e. Sound.approve-IsSound host input s (at _ e);
        at_decimals = λ e. Sound.decimals-IsSound host input s (at _ e);
        at_allowance = λ e. Sound.allowance-IsSound host input s (at _ e);
        at_total_supply = λ e. Sound.total_supply-IsSound host input s (at _ e);
        at_balance = λ e. Sound.balance-IsSound host input s (at _ e);
        at_balance_of = λ e. Sound.balance_of-IsSound host input s (at _ e);
        at_mint = λ e. Sound.mint-IsSound host input s (at _ e);
        at_burn = λ e. Sound.burn-IsSound host input s (at _ e);
        at_pause = λ e. Sound.pause-IsSound host input s (at _ e);
        at_unpause = λ e. Sound.unpause-IsSound host input s (at _ e);
        at_permit = λ e. Sound.permit-IsSound host input s (at _ e);
        at_nonces = λ e. Sound.nonces-IsSound host input s (at _ e);
        at_domain_separator = λ e. Sound.domain_separator-IsSound host input s (at _ e);
        at_deposit = λ e. Sound.deposit-IsSound host input s (at _ e);
        at_withdraw = λ e. Sound.withdraw-IsSound host input s (at _ e);
        at_unknown_method = unfold unknown_method in (λ e. cc, λ e. cc);
      }

  main-IsSound :
      let sig = from_be_bytes (take sig_len_bytes s.input) in
      let long = leb initial_settings_v2_size (length s.contract_metadata) in
      IsSound (dispatch host sig long (drop sig_len_bytes s.input) s)
      → ((main_entry host s).0 ≢ err ExitCode.missing_storage_slot)
        × ((main_entry host s).0 ≢ abort)
  unfolding main_entry exit_with
  main-IsSound h = (λ e. grind arith, λ e. grind arith)

  main_keys-IsPreloaded :
      IsPreloaded s (erc20_compute_main_storage_keys host s.input s.context.caller)
      → IsPreloaded s (
          main_keys host
            (from_be_bytes (take sig_len_bytes s.input))
            (drop sig_len_bytes s.input)
            s.context.caller)
  unfolding erc20_compute_main_storage_keys
  main_keys-IsPreloaded keys = ground arith

-- If the keys that the host computes from the input and the caller all have a value in the frame,
-- `main_entry` ends neither with the error of a slot that is not loaded nor with a panic, whatever
-- the call is and whoever makes it.
pub main_entry-IsSound :
    (host : Host) (s : System)
    → IsPreloaded s (erc20_compute_main_storage_keys host s.input s.context.caller)
    → ((main_entry host s).0 ≢ err ExitCode.missing_storage_slot) × ((main_entry host s).0 ≢ abort)
main_entry-IsSound host s keys =
    let sig = from_be_bytes (take sig_len_bytes s.input) in
    let input = drop sig_len_bytes s.input in
    main-IsSound host s (
      dispatch-runs host input s IsSound sig
        (leb initial_settings_v2_size (length s.contract_metadata))
        (runs-IsSound host s sig input (main_keys-IsPreloaded host s keys)))
