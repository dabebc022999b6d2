-- ===== src/Token/Entry/Dispatch.antt =====
-- The `match` of `main_entry` in contracts/universal-token/src/lib.rs: what holds for the run of each
-- method holds for the call.
use fluentbase.Prelude.{
  ℕ, ◌≡◌, refl, Bool, true, false, ◌&&◌, ◌==◌, leb, List, length, take, drop, if◌then◌else◌, arith,
}
use fluentbase.Prelude.Bytes.{from_be_bytes}
use fluentbase.Sdk.Host.{Host}
use fluentbase.Sdk.State.{System}
use fluentbase.Sdk.Result.{Result, ok}
use fluentbase.Token.Consts.{
  sig_erc20_symbol, sig_erc20_name, sig_erc20_transfer, sig_erc20_transfer_from, sig_erc20_approve,
  sig_erc20_decimals, sig_erc20_allowance, sig_erc20_total_supply, sig_erc20_balance,
  sig_erc20_balance_of, sig_erc20_mint, sig_erc20_burn, sig_erc20_pause, sig_erc20_unpause,
  sig_erc20_permit, sig_erc20_nonces, sig_erc20_domain_separator, sig_erc20_deposit,
  sig_erc20_withdraw,
}
use fluentbase.Token.Settings.{sig_len_bytes, initial_settings_v2_size}
use fluentbase.Token.Views.{
  symbol, name, decimals, total_supply, allowance, domain_separator, nonces, balance, balance_of,
  unknown_method,
}
use fluentbase.Token.Erc20.{transfer, transfer_from, approve}
use fluentbase.Token.Supply.{mint, burn, deposit, withdraw}
use fluentbase.Token.Pause.{pause, unpause}
use fluentbase.Token.Permit.{permit}
use fluentbase.Token.Entry.{dispatch, main_entry, exit_with}

-- A property of every method's run.
pub record IsEveryRun (host : Host) (sig : ℕ) (input : List ℕ) (s : System)
    (P : Result ℕ × System → Type 0) : Type 0 where
  pub at_symbol : sig ≡ sig_erc20_symbol → P (symbol host input s)
  pub at_name : sig ≡ sig_erc20_name → P (name host input s)
  pub at_transfer : sig ≡ sig_erc20_transfer → P (transfer host input s)
  pub at_transfer_from : sig ≡ sig_erc20_transfer_from → P (transfer_from host input s)
  pub at_approve : sig ≡ sig_erc20_approve → P (approve host input s)
  pub at_decimals : sig ≡ sig_erc20_decimals → P (decimals input s)
  pub at_allowance : sig ≡ sig_erc20_allowance → P (allowance host input s)
  pub at_total_supply : sig ≡ sig_erc20_total_supply → P (total_supply input s)
  pub at_balance : sig ≡ sig_erc20_balance → P (balance host input s)
  pub at_balance_of : sig ≡ sig_erc20_balance_of → P (balance_of host input s)
  pub at_mint : sig ≡ sig_erc20_mint → P (mint host input s)
  pub at_burn : sig ≡ sig_erc20_burn → P (burn host input s)
  pub at_pause : sig ≡ sig_erc20_pause → P (pause input s)
  pub at_unpause : sig ≡ sig_erc20_unpause → P (unpause input s)
  pub at_permit : sig ≡ sig_erc20_permit → P (permit host input s)
  pub at_nonces : sig ≡ sig_erc20_nonces → P (nonces host input s)
  pub at_domain_separator : sig ≡ sig_erc20_domain_separator → P (domain_separator host input s)
  pub at_deposit : sig ≡ sig_erc20_deposit → P (deposit host input s)
  pub at_withdraw : sig ≡ sig_erc20_withdraw → P (withdraw host input s)
  pub at_unknown_method : P (unknown_method input s)

named : (a b : ℕ) → (a == b) ≡ true → a ≡ b
named a b e = ground arith

named_long : (a b : ℕ) (c : Bool) → (a == b && c) ≡ true → a ≡ b
named_long a b c e = ground arith

module _ (host : Host) where
  choose :
      (P : Result ℕ × System → Type 0) (c : Bool) (x y : Result ℕ × System)
      → (c ≡ true → P x)
      → P y
      → P (if c then x else y)
  choose P true x y h k = h refl
  choose P false x y h k = k

  pub dispatch-runs :
      (input : List ℕ) (s : System) (P : Result ℕ × System → Type 0)
      → (sig : ℕ) (long : Bool) → IsEveryRun host sig input s P
      → P (dispatch host sig long input s)
  unfolding dispatch
  dispatch-runs input s P sig long r =
      choose P (sig == sig_erc20_symbol) _ _ (λ e. r.at_symbol (named _ _ e))
        (choose P (sig == sig_erc20_name) _ _ (λ e. r.at_name (named _ _ e))
          (choose P (sig == sig_erc20_transfer) _ _ (λ e. r.at_transfer (named _ _ e))
            (choose P (sig == sig_erc20_transfer_from) _ _ (λ e. r.at_transfer_from (named _ _ e))
              (choose P (sig == sig_erc20_approve) _ _ (λ e. r.at_approve (named _ _ e))
                (choose P (sig == sig_erc20_decimals) _ _ (λ e. r.at_decimals (named _ _ e))
                  (choose P (sig == sig_erc20_allowance) _ _ (λ e. r.at_allowance (named _ _ e))
                    (choose P (sig == sig_erc20_total_supply) _ _
                      (λ e. r.at_total_supply (named _ _ e))
                      (choose P (sig == sig_erc20_balance) _ _ (λ e. r.at_balance (named _ _ e))
                        (choose P (sig == sig_erc20_balance_of) _ _
                          (λ e. r.at_balance_of (named _ _ e))
                          (choose P (sig == sig_erc20_mint) _ _ (λ e. r.at_mint (named _ _ e))
                            (choose P (sig == sig_erc20_burn) _ _ (λ e. r.at_burn (named _ _ e))
                              (choose P (sig == sig_erc20_pause) _ _ (λ e. r.at_pause (named _ _ e))
                                (choose P (sig == sig_erc20_unpause) _ _
                                  (λ e. r.at_unpause (named _ _ e))
                                  (choose P (sig == sig_erc20_permit) _ _
                                    (λ e. r.at_permit (named _ _ e))
                                    (choose P (sig == sig_erc20_nonces) _ _
                                      (λ e. r.at_nonces (named _ _ e))
                                      (choose P (sig == sig_erc20_domain_separator) _ _
                                        (λ e. r.at_domain_separator (named _ _ e))
                                        (choose P (sig == sig_erc20_deposit && long) _ _
                                          (λ e. r.at_deposit (named_long _ _ _ e))
                                          (choose P (sig == sig_erc20_withdraw && long) _ _
                                            (λ e. r.at_withdraw (named_long _ _ _ e))
                                            r.at_unknown_method))))))))))))))))))

  -- A call that succeeds runs one method to the code 0 on the calldata behind the selector, and
  -- leaves what that method leaves.
  pub main_steps :
      (s : System)
      → (main_entry host s).0 ≡ ok tt
      → let sig = from_be_bytes (take sig_len_bytes s.input) in
        let long = leb initial_settings_v2_size (length s.contract_metadata) in
        let r = dispatch host sig long (drop sig_len_bytes s.input) s in
        (r.0 ≡ ok 0) × ((main_entry host s).1 ≡ r.1)
  unfolding main_entry exit_with
  main_steps s h = (grind arith, grind arith)
