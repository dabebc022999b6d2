-- ===== src/Token/Supply.antt =====
-- contracts/universal-token/src/lib.rs: `mint`, `burn`, and `deposit` and `withdraw` of a wrapped
-- token.
use fluentbase.Prelude.{ℕ, not, List, ◌==◌}
use fluentbase.Types.ExitCode.{ExitCode}
use fluentbase.Sdk.Host.{Host}
use fluentbase.Sdk.System as Sys
use fluentbase.Sdk.Result.{M, ◌>>=◌, ◌>>◌, pure, gets, ok_or, return_if, some_or_return, body}
use fluentbase.Sdk.Storage.{get_checked, set_checked, storage_address}
use fluentbase.Token.Consts.{
  minter_storage_slot, total_supply_storage_slot, err_ust_not_mintable, err_ust_minter_mismatch,
  err_erc20_invalid_receiver, err_erc20_invalid_sender, err_erc20_insufficient_balance,
}
use fluentbase.Token.Command.{decode_mint, decode_burn, decode_withdraw}
use fluentbase.Token.Guards.{
  checked_sub, checked_add, caller, when_non_payable, when_non_static, when_non_frozen,
  when_wrapped_enabled, emit_transfer, emit_deposit, emit_withdrawal, write_word, balance_slot,
}

-- From `total_supply` on: both sums are checked before the first write.
unfoldable pub mint_balance : ℕ → ℕ → M (Unit {0})
mint_balance recipient amount = do
  total_supply ← Sys.storage total_supply_storage_slot
  new_total_supply ← ok_or (checked_add total_supply amount) ExitCode.integer_overflow
  recipient_balance ← get_checked recipient
  new_recipient_balance ← ok_or (checked_add recipient_balance amount) ExitCode.integer_overflow
  Sys.write_storage total_supply_storage_slot new_total_supply
  set_checked recipient new_recipient_balance

unfoldable pub burn_balance : ℕ → ℕ → M (Unit {0})
burn_balance sender amount = do
  total_supply ← Sys.storage total_supply_storage_slot
  new_total_supply ← some_or_return (checked_sub total_supply amount) err_erc20_insufficient_balance
  sender_balance ← get_checked sender
  new_sender_balance ←
      some_or_return (checked_sub sender_balance amount) err_erc20_insufficient_balance
  Sys.write_storage total_supply_storage_slot new_total_supply
  set_checked sender new_sender_balance

unfoldable pub deposit_balance : ℕ → ℕ → M (Unit {0})
deposit_balance account wad = do
  balance ← get_checked account
  new_balance ← ok_or (checked_add balance wad) ExitCode.integer_overflow
  total_supply ← Sys.storage total_supply_storage_slot
  new_total_supply ← ok_or (checked_add total_supply wad) ExitCode.integer_overflow
  set_checked account new_balance
  Sys.write_storage total_supply_storage_slot new_total_supply

unfoldable pub withdraw_balance : ℕ → ℕ → M (Unit {0})
withdraw_balance account amount = do
  balance ← get_checked account
  new_balance ← some_or_return (checked_sub balance amount) err_erc20_insufficient_balance
  total_supply ← Sys.storage total_supply_storage_slot
  new_total_supply ← some_or_return (checked_sub total_supply amount) err_erc20_insufficient_balance
  set_checked account new_balance
  Sys.write_storage total_supply_storage_slot new_total_supply

module _ (host : Host) where
  unfoldable pub mint : List ℕ → M ℕ
  mint input = body do
    when_non_payable
    when_non_static
    contract_minter ← storage_address minter_storage_slot
    return_if (contract_minter == 0) err_ust_not_mintable
    sender ← caller
    return_if (not (sender == contract_minter)) err_ust_minter_mismatch
    when_non_frozen
    command ← ok_or (decode_mint input) ExitCode.malformed_builtin_params
    return_if (command.to == 0) err_erc20_invalid_receiver
    mint_balance (balance_slot host command.to) command.amount
    emit_transfer 0 command.to command.amount
    write_word 1
    pure 0

  unfoldable pub burn : List ℕ → M ℕ
  burn input = body do
    when_non_payable
    when_non_static
    when_non_frozen
    contract_minter ← storage_address minter_storage_slot
    return_if (contract_minter == 0) err_ust_not_mintable
    command ← ok_or (decode_burn input) ExitCode.malformed_builtin_params
    return_if (command.from == 0) err_erc20_invalid_sender
    sender ← caller
    return_if (not (sender == contract_minter)) err_ust_minter_mismatch
    burn_balance (balance_slot host command.from) command.amount
    emit_transfer command.from 0 command.amount
    write_word 1
    pure 0

  unfoldable pub deposit : List ℕ → M ℕ
  deposit input = body do
    when_non_static
    when_wrapped_enabled
    when_non_frozen
    sender ← caller
    return_if (sender == 0) err_erc20_invalid_sender
    wad ← gets (λ s. s.context.value)
    deposit_balance (balance_slot host sender) wad
    emit_deposit sender wad
    emit_transfer 0 sender wad
    pure 0

  unfoldable pub withdraw : List ℕ → M ℕ
  withdraw input = body do
    when_non_payable
    when_non_static
    when_wrapped_enabled
    when_non_frozen
    sender ← caller
    command ← ok_or (decode_withdraw input) ExitCode.malformed_builtin_params
    withdraw_balance (balance_slot host sender) command.amount
    Sys.transfer_value_to sender command.amount
    emit_withdrawal sender command.amount
    emit_transfer sender 0 command.amount
    pure 0
