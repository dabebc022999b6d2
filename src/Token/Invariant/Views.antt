-- ===== src/Token/Invariant/Views.antt =====
-- The methods of contracts/universal-token/src/lib.rs that only read leave every slot as it is.
use fluentbase.Prelude.{ℕ, ◌≡◌, List, arith}
use fluentbase.Sdk.Host.{Host}
use fluentbase.Sdk.State.{System}
use fluentbase.Sdk.System as Sys
use fluentbase.Types.Journal.Overlay.{peek_laws}
use fluentbase.Sdk.Storage.{storage_short_string, get, get_checked}
use fluentbase.Token.Guards.{when_non_payable, write_word}
use fluentbase.Token.Permit.{domain_separator_value, nonce_get}
use fluentbase.Token.Views.{
  symbol, name, decimals, total_supply, allowance, domain_separator, nonces, balance, balance_of,
}
use fluentbase.Token.Ledger.{slot_value}

pub decimals_lem :
    (input : List ℕ) (s : System) (k : ℕ) → slot_value (decimals input s).1 k ≡ slot_value s k
unfolding slot_value decimals when_non_payable write_word Sys.storage
decimals_lem input s k = grind (arith, peek_laws)

pub total_supply_lem :
    (input : List ℕ) (s : System) (k : ℕ) → slot_value (total_supply input s).1 k ≡ slot_value s k
unfolding slot_value total_supply when_non_payable write_word Sys.storage
total_supply_lem input s k = grind (arith, peek_laws)

pub symbol_lem :
    (host : Host) (input : List ℕ) (s : System) (k : ℕ)
    → slot_value (symbol host input s).1 k ≡ slot_value s k
unfolding slot_value symbol when_non_payable write_word storage_short_string Sys.write
symbol_lem host input s k = grind (arith, peek_laws)

pub name_lem :
    (host : Host) (input : List ℕ) (s : System) (k : ℕ)
    → slot_value (name host input s).1 k ≡ slot_value s k
unfolding slot_value name when_non_payable write_word storage_short_string Sys.write
name_lem host input s k = grind (arith, peek_laws)

pub allowance_lem :
    (host : Host) (input : List ℕ) (s : System) (k : ℕ)
    → slot_value (allowance host input s).1 k ≡ slot_value s k
unfolding slot_value allowance when_non_payable write_word get_checked
allowance_lem host input s k = grind (arith, peek_laws)

pub domain_separator_lem :
    (host : Host) (input : List ℕ) (s : System) (k : ℕ)
    → slot_value (domain_separator host input s).1 k ≡ slot_value s k
unfolding slot_value domain_separator when_non_payable write_word domain_separator_value
    storage_short_string
domain_separator_lem host input s k = grind (arith, peek_laws)

pub nonces_lem :
    (host : Host) (input : List ℕ) (s : System) (k : ℕ)
    → slot_value (nonces host input s).1 k ≡ slot_value s k
unfolding slot_value nonces when_non_payable write_word nonce_get get
nonces_lem host input s k = grind (arith, peek_laws)

pub balance_lem :
    (host : Host) (input : List ℕ) (s : System) (k : ℕ)
    → slot_value (balance host input s).1 k ≡ slot_value s k
unfolding slot_value balance when_non_payable write_word get_checked
balance_lem host input s k = grind (arith, peek_laws)

pub balance_of_lem :
    (host : Host) (input : List ℕ) (s : System) (k : ℕ)
    → slot_value (balance_of host input s).1 k ≡ slot_value s k
unfolding slot_value balance_of when_non_payable write_word get_checked
balance_of_lem host input s k = grind (arith, peek_laws)
