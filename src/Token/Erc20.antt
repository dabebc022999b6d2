-- ===== src/Token/Erc20.antt =====
-- contracts/universal-token/src/lib.rs: `transfer`, `transferFrom`, `approve`.
use fluentbase.Prelude.{ℕ, ◌-◌, ◌^◌, true, false, List, ltb, ◌==◌}
use fluentbase.Types.ExitCode.{ExitCode}
use fluentbase.Sdk.Host.{Host}
use fluentbase.Sdk.Result.{M, ok, ◌>>=◌, ◌>>◌, pure, ok_or, return_if, some_or_return, body}
use fluentbase.Sdk.Storage.{get_checked, set_checked}
use fluentbase.Token.Consts.{
  err_erc20_invalid_receiver, err_erc20_insufficient_balance, err_erc20_insufficient_allowance,
}
use fluentbase.Token.Command.{decode_transfer, decode_transfer_from, decode_approve}
use fluentbase.Token.Guards.{
  checked_sub, checked_add, caller, when_non_payable, when_non_static, when_non_frozen,
  emit_transfer, emit_approval, write_word, balance_slot, allowance_slot,
}

-- The lines that `transfer` and `transferFrom` share: the two balances by their slots.
unfoldable pub move_balance : ℕ → ℕ → ℕ → M (Unit {0})
move_balance sender recipient amount = do
  sender_balance ← get_checked sender
  new_sender_balance ←
      some_or_return (checked_sub sender_balance amount) err_erc20_insufficient_balance
  set_checked sender new_sender_balance
  recipient_balance ← get_checked recipient
  new_recipient_balance ← ok_or (checked_add recipient_balance amount) ExitCode.integer_overflow
  set_checked recipient new_recipient_balance

-- `if allowance < U256::MAX { … }` of `transferFrom`.
unfoldable pub spend_allowance : ℕ → ℕ → ℕ → M (Unit {0})
spend_allowance slot allowance amount s = elim (ltb allowance (2 ^ 256 - 1)) [
  | true ↦
      (do
        new_allowance ←
            some_or_return (checked_sub allowance amount) err_erc20_insufficient_allowance
        set_checked slot new_allowance)
        s
  | false ↦ (ok tt, s)
]

module _ (host : Host) where
  unfoldable pub transfer : List ℕ → M ℕ
  transfer input = body do
    when_non_payable
    when_non_static
    when_non_frozen
    from ← caller
    command ← ok_or (decode_transfer input) ExitCode.malformed_builtin_params
    let to = command.to
    let amount = command.amount
    return_if (to == 0) err_erc20_invalid_receiver
    move_balance (balance_slot host from) (balance_slot host to) amount
    emit_transfer from to amount
    write_word 1
    pure 0

  unfoldable pub transfer_from : List ℕ → M ℕ
  transfer_from input = body do
    when_non_payable
    when_non_static
    when_non_frozen
    spender ← caller
    command ← ok_or (decode_transfer_from input) ExitCode.malformed_builtin_params
    let from = command.from
    let to = command.to
    let amount = command.amount
    return_if (to == 0) err_erc20_invalid_receiver
    allowance ← get_checked (allowance_slot host from spender)
    spend_allowance (allowance_slot host from spender) allowance amount
    move_balance (balance_slot host from) (balance_slot host to) amount
    emit_transfer from to amount
    write_word 1
    pure 0

  unfoldable pub approve : List ℕ → M ℕ
  approve input = body do
    when_non_payable
    when_non_static
    contract_caller ← caller
    command ← ok_or (decode_approve input) ExitCode.malformed_builtin_params
    set_checked (allowance_slot host contract_caller command.spender) command.amount
    emit_approval contract_caller command.spender command.amount
    write_word 1
    pure 0
