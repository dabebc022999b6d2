-- ===== src/Token/Pause.antt =====
-- contracts/universal-token/src/lib.rs: `pause` and `unpause`.
use fluentbase.Prelude.{ℕ, not, List, ◌==◌}
use fluentbase.Sdk.System as Sys
use fluentbase.Sdk.Result.{M, ◌>>=◌, ◌>>◌, pure, return_if, body}
use fluentbase.Token.Consts.{
  contract_frozen_storage_slot, err_pausable_enforced_pause, err_pausable_expected_pause,
  err_ust_pauser_mismatch,
}
use fluentbase.Token.Guards.{
  caller, when_non_payable, when_non_static, when_pausable_enabled, emit_paused, emit_unpaused,
  write_word,
}

unfoldable pub pause : List ℕ → M ℕ
pause input = body do
  when_non_payable
  when_non_static
  contract_pauser ← when_pausable_enabled
  is_contract_frozen ← Sys.storage contract_frozen_storage_slot
  return_if (not (is_contract_frozen == 0)) err_pausable_enforced_pause
  contract_caller ← caller
  return_if (not (contract_caller == contract_pauser)) err_ust_pauser_mismatch
  Sys.write_storage contract_frozen_storage_slot 1
  emit_paused contract_caller
  write_word 1
  pure 0

unfoldable pub unpause : List ℕ → M ℕ
unpause input = body do
  when_non_payable
  when_non_static
  contract_pauser ← when_pausable_enabled
  is_contract_frozen ← Sys.storage contract_frozen_storage_slot
  return_if (is_contract_frozen == 0) err_pausable_expected_pause
  contract_caller ← caller
  return_if (not (contract_caller == contract_pauser)) err_ust_pauser_mismatch
  Sys.write_storage contract_frozen_storage_slot 0
  emit_unpaused contract_caller
  write_word 1
  pure 0
