-- ===== src/Token/Views.antt =====
-- contracts/universal-token/src/lib.rs: the methods that only read.
use fluentbase.Prelude.{ℕ, List}
use fluentbase.Codec.{encode_string}
use fluentbase.Types.ExitCode.{ExitCode}
use fluentbase.Sdk.Host.{Host}
use fluentbase.Sdk.System as Sys
use fluentbase.Sdk.Result.{M, ◌>>=◌, ◌>>◌, pure, ok_or}
use fluentbase.Sdk.Storage.{get_checked, storage_short_string}
use fluentbase.Token.Consts.{
  symbol_storage_slot, name_storage_slot, decimals_storage_slot, total_supply_storage_slot,
  err_ust_unknown_method,
}
use fluentbase.Token.Command.{decode_allowance, decode_balance_of, decode_nonces}
use fluentbase.Token.Guards.{caller, when_non_payable, write_word, balance_slot, allowance_slot}
use fluentbase.Token.Permit.{domain_separator_value, nonce_get}

unfoldable pub decimals : List ℕ → M ℕ
decimals input = do
  when_non_payable
  value ← Sys.storage decimals_storage_slot
  write_word value
  pure 0

unfoldable pub total_supply : List ℕ → M ℕ
total_supply input = do
  when_non_payable
  value ← Sys.storage total_supply_storage_slot
  write_word value
  pure 0

unfoldable pub unknown_method : List ℕ → M ℕ
unknown_method input = pure err_ust_unknown_method

module _ (host : Host) where
  unfoldable pub symbol : List ℕ → M ℕ
  symbol input = do
    when_non_payable
    value ← storage_short_string host symbol_storage_slot
    Sys.write (encode_string value)
    pure 0

  unfoldable pub name : List ℕ → M ℕ
  name input = do
    when_non_payable
    value ← storage_short_string host name_storage_slot
    Sys.write (encode_string value)
    pure 0

  unfoldable pub allowance : List ℕ → M ℕ
  allowance input = do
    when_non_payable
    command ← ok_or (decode_allowance input) ExitCode.malformed_builtin_params
    value ← get_checked (allowance_slot host command.owner command.spender)
    write_word value
    pure 0

  unfoldable pub domain_separator : List ℕ → M ℕ
  domain_separator input = do
    when_non_payable
    value ← domain_separator_value host
    write_word value
    pure 0

  unfoldable pub nonces : List ℕ → M ℕ
  nonces input = do
    when_non_payable
    command ← ok_or (decode_nonces input) ExitCode.malformed_builtin_params
    value ← nonce_get host command.owner
    write_word value
    pure 0

  unfoldable pub balance : List ℕ → M ℕ
  balance input = do
    when_non_payable
    sender ← caller
    value ← get_checked (balance_slot host sender)
    write_word value
    pure 0

  unfoldable pub balance_of : List ℕ → M ℕ
  balance_of input = do
    when_non_payable
    command ← ok_or (decode_balance_of input) ExitCode.malformed_builtin_params
    value ← get_checked (balance_slot host command.owner)
    write_word value
    pure 0
