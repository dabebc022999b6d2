-- ===== src/Token/Guards.antt =====
-- contracts/universal-token/src/lib.rs: the guards (`when_…!`), the events, checked arithmetic and
-- the slots of balances, allowances and nonces.
use fluentbase.Prelude.{
  ℕ, ◌+◌, ◌-◌, ◌^◌, not, Option, none, some, [], ◌∷◌, ltb, ◌==◌, if◌then◌else◌,
}
use fluentbase.Codec.{encode_word}
use fluentbase.Types.ExitCode.{ExitCode}
use fluentbase.Sdk.Host.{Host}
use fluentbase.Sdk.Result.{M, ◌>>=◌, ◌>>◌, pure, fail_if, gets, return_if}
use fluentbase.Sdk.System as Sys
use fluentbase.Sdk.Storage.{compute_slot, storage_address}
use fluentbase.Token.Consts.{
  balance_storage_slot, allowance_storage_slot, nonces_storage_slot, contract_frozen_storage_slot,
  wrapped_storage_slot, pauser_storage_slot, err_pausable_enforced_pause, err_ust_not_wrapped,
  err_ust_not_pausable, transfer_selector, approval_selector, paused_selector, unpaused_selector,
  deposit_selector, withdrawal_selector,
}

-- `U256::checked_sub` and `U256::checked_add`
abbrev pub checked_sub : ℕ → ℕ → Option ℕ
checked_sub a b = if ltb a b then none else some (a - b)

abbrev pub checked_add : ℕ → ℕ → Option ℕ
checked_add a b = if ltb (a + b) (2 ^ 256) then some (a + b) else none

abbrev pub caller : M ℕ
caller = gets λ s. s.context.caller

unfoldable pub when_non_payable : M (Unit {0})
when_non_payable s = fail_if (not (s.context.value == 0)) ExitCode.panic s

unfoldable pub when_non_static : M (Unit {0})
when_non_static s = fail_if s.context.is_static ExitCode.state_change_during_static_call s

unfoldable pub when_wrapped_enabled : M (Unit {0})
unfolding Sys.storage
when_wrapped_enabled = do
  is_wrapped ← Sys.storage wrapped_storage_slot
  return_if (is_wrapped == 0) err_ust_not_wrapped

unfoldable pub when_pausable_enabled : M ℕ
unfolding storage_address
when_pausable_enabled = do
  contract_pauser ← storage_address pauser_storage_slot
  return_if (contract_pauser == 0) err_ust_not_pausable
  pure contract_pauser

unfoldable pub when_non_frozen : M (Unit {0})
unfolding Sys.storage
when_non_frozen = do
  is_contract_frozen ← Sys.storage contract_frozen_storage_slot
  return_if (not (is_contract_frozen == 0)) err_pausable_enforced_pause

-- The events' `emit`: indexed fields are topics, the others are the data.
unfoldable pub emit_transfer : ℕ → ℕ → ℕ → M (Unit {0})
unfolding Sys.emit_log encode_word
emit_transfer from to amount =
    Sys.emit_log (transfer_selector ∷ from ∷ to ∷ []) (encode_word amount)

unfoldable pub emit_approval : ℕ → ℕ → ℕ → M (Unit {0})
unfolding Sys.emit_log encode_word
emit_approval owner spender amount =
    Sys.emit_log (approval_selector ∷ owner ∷ spender ∷ []) (encode_word amount)

unfoldable pub emit_paused : ℕ → M (Unit {0})
unfolding Sys.emit_log encode_word
emit_paused pauser = Sys.emit_log (paused_selector ∷ []) (encode_word pauser)

unfoldable pub emit_unpaused : ℕ → M (Unit {0})
unfolding Sys.emit_log encode_word
emit_unpaused pauser = Sys.emit_log (unpaused_selector ∷ []) (encode_word pauser)

unfoldable pub emit_deposit : ℕ → ℕ → M (Unit {0})
unfolding Sys.emit_log encode_word
emit_deposit dst wad = Sys.emit_log (deposit_selector ∷ dst ∷ []) (encode_word wad)

unfoldable pub emit_withdrawal : ℕ → ℕ → M (Unit {0})
unfolding Sys.emit_log encode_word
emit_withdrawal src wad = Sys.emit_log (withdrawal_selector ∷ src ∷ []) (encode_word wad)

-- `sdk.write(U256::ONE.to_be_bytes())` and other words.
unfoldable pub write_word : ℕ → M (Unit {0})
unfolding Sys.write encode_word
write_word v = Sys.write (encode_word v)

module _ (host : Host) where
  -- `BalanceStorageMap::new(BALANCE_STORAGE_SLOT).entry(owner)`
  unfoldable pub balance_slot : ℕ → ℕ
  unfolding compute_slot
  balance_slot owner = compute_slot host owner balance_storage_slot

  -- `AllowanceStorageMap::new(ALLOWANCE_STORAGE_SLOT).entry(owner).entry(spender)`
  unfoldable pub allowance_slot : ℕ → ℕ → ℕ
  unfolding compute_slot
  allowance_slot owner spender =
      compute_slot host spender (compute_slot host owner allowance_storage_slot)

  -- `NonceStorageMap::new(NONCES_STORAGE_SLOT).entry(owner)`
  unfoldable pub nonce_slot : ℕ → ℕ
  unfolding compute_slot
  nonce_slot owner = compute_slot host owner nonces_storage_slot
