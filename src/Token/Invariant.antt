-- ===== src/Token/Invariant.antt =====
-- The invariant of the token of contracts/universal-token/src/lib.rs: no set of accounts holds more
-- than the total supply. The layout of the storage enters as hypotheses on the hash.
pub mod Moves
pub mod Decodes
pub mod Supply
pub mod Views
pub mod Calls
pub mod Deploy
use fluentbase.Prelude.{ℕ, ◌≡◌, ◌≢◌}
use fluentbase.Sdk.Host.{Host}
use fluentbase.Sdk.State.{System}
use fluentbase.Token.Consts.{
  total_supply_storage_slot, contract_frozen_storage_slot, minter_storage_slot, pauser_storage_slot,
  wrapped_storage_slot, name_storage_slot, symbol_storage_slot, decimals_storage_slot,
}
use fluentbase.Token.Guards.{balance_slot, allowance_slot, nonce_slot}
use fluentbase.Token.Ledger.{slot_value}
use fluentbase.Token.Backing.{IsAddress, IsBacked}

-- The hash keeps the slots of balances apart, from each other and from the other slots that the
-- token writes: collision resistance of keccak256 on the keys of the layout.
pub record IsSeparated (host : Host) : Type 0 where
  pub balances :
      (a b : ℕ) → IsAddress a → IsAddress b → balance_slot host a ≡ balance_slot host b → a ≡ b
  pub balance_supply : (a : ℕ) → IsAddress a → balance_slot host a ≢ total_supply_storage_slot
  pub balance_frozen : (a : ℕ) → IsAddress a → balance_slot host a ≢ contract_frozen_storage_slot
  pub balance_allowance :
      (a owner spender : ℕ)
      → IsAddress a
      → IsAddress owner
      → IsAddress spender
      → balance_slot host a ≢ allowance_slot host owner spender
  pub balance_nonce :
      (a owner : ℕ) → IsAddress a → IsAddress owner → balance_slot host a ≢ nonce_slot host owner
  pub supply_allowance :
      (owner spender : ℕ)
      → IsAddress owner
      → IsAddress spender
      → total_supply_storage_slot ≢ allowance_slot host owner spender
  pub supply_nonce :
      (owner : ℕ) → IsAddress owner → total_supply_storage_slot ≢ nonce_slot host owner
  pub balance_settings :
      (a : ℕ)
      → IsAddress a
      → (balance_slot host a ≢ minter_storage_slot)
        × (balance_slot host a ≢ pauser_storage_slot)
        × (balance_slot host a ≢ wrapped_storage_slot)
        × (balance_slot host a ≢ name_storage_slot)
        × (balance_slot host a ≢ symbol_storage_slot)
        × (balance_slot host a ≢ decimals_storage_slot)

-- The balances by account.
abbrev pub holdings : Host → System → ℕ → ℕ
holdings host s a = slot_value s (balance_slot host a)

-- No set of accounts holds more than the supply.
abbrev pub IsBackedToken : Host → System → Type 0
IsBackedToken host s = IsBacked (holdings host s) (slot_value s total_supply_storage_slot)
