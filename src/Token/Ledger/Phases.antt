-- ===== src/Token/Ledger/Phases.antt =====
-- The changes of balances, allowances and supply of contracts/universal-token/src/lib.rs, slot by
-- slot.
use fluentbase.Prelude.{ℕ, ◌+◌, ◌-◌, ◌^◌, ◌≤◌, ◌<◌, ◌≡◌, ◌≢◌, false, ltb, ◌&&◌, arith}
use fluentbase.Types.Journal.Overlay.{peek_laws}
use fluentbase.Sdk.State.{System}
use fluentbase.Sdk.Result.{ok, ret}
use fluentbase.Sdk.Storage.{get_checked, set_checked}
use fluentbase.Token.Consts.{total_supply_storage_slot}
use fluentbase.Token.Erc20.{move_balance, spend_allowance}
use fluentbase.Token.Supply.{mint_balance, burn_balance, deposit_balance, withdraw_balance}
use fluentbase.Token.Ledger.{slot_value, moved, spent, set_two}

abbrev supply_slot : ℕ
supply_slot = total_supply_storage_slot

pub move_lem :
    (f t amount : ℕ) (s : System)
    → (move_balance f t amount s).0 ≡ ok tt
    → (amount ≤ slot_value s f)
      × ((move_balance f t amount s).1.context ≡ s.context)
      × ((k : ℕ) → slot_value (move_balance f t amount s).1 k ≡ moved f t amount (slot_value s) k)
unfolding slot_value move_balance get_checked set_checked
move_lem f t amount s h =
    (grind (arith, peek_laws), grind (arith, peek_laws), λ k. grind (arith, peek_laws))

pub move_exit : (f t amount : ℕ) (s : System) → (move_balance f t amount s).0 ≢ ret 0
unfolding move_balance get_checked set_checked
move_exit f t amount s h = grind arith

pub spend_lem :
    (slot allowance amount : ℕ) (s : System)
    → allowance ≡ slot_value s slot
    → (spend_allowance slot allowance amount s).0 ≡ ok tt
    → (ltb (slot_value s slot) (2 ^ 256 - 1) && ltb (slot_value s slot) amount ≡ false)
      × ((spend_allowance slot allowance amount s).1.context ≡ s.context)
      × ((k : ℕ)
          → slot_value (spend_allowance slot allowance amount s).1 k
            ≡ spent slot amount (slot_value s) k)
unfolding slot_value spend_allowance set_checked
spend_lem slot allowance amount s e h =
    (grind (arith, peek_laws), grind (arith, peek_laws), λ k. grind (arith, peek_laws))

pub spend_exit :
    (slot allowance amount : ℕ) (s : System) → (spend_allowance slot allowance amount s).0 ≢ ret 0
unfolding spend_allowance set_checked
spend_exit slot allowance amount s h = grind arith

pub mint_lem :
    (r amount : ℕ) (s : System)
    → (mint_balance r amount s).0 ≡ ok tt
    → (slot_value s supply_slot + amount < 2 ^ 256)
      × (slot_value s r + amount < 2 ^ 256)
      × ((mint_balance r amount s).1.context ≡ s.context)
      × ((k : ℕ)
          → slot_value (mint_balance r amount s).1 k
            ≡ set_two supply_slot
                (slot_value s supply_slot + amount)
                r
                (slot_value s r + amount)
                (slot_value s)
                k)
unfolding slot_value mint_balance get_checked set_checked
mint_lem r amount s h = (
  grind (arith, peek_laws),
  grind (arith, peek_laws),
  grind (arith, peek_laws),
  λ k. grind (arith, peek_laws),
)

pub mint_exit : (r amount : ℕ) (s : System) → (mint_balance r amount s).0 ≢ ret 0
unfolding mint_balance get_checked set_checked
mint_exit r amount s h = grind arith

pub burn_lem :
    (r amount : ℕ) (s : System)
    → (burn_balance r amount s).0 ≡ ok tt
    → (amount ≤ slot_value s supply_slot)
      × (amount ≤ slot_value s r)
      × ((burn_balance r amount s).1.context ≡ s.context)
      × ((k : ℕ)
          → slot_value (burn_balance r amount s).1 k
            ≡ set_two supply_slot
                (slot_value s supply_slot - amount)
                r
                (slot_value s r - amount)
                (slot_value s)
                k)
unfolding slot_value burn_balance get_checked set_checked
burn_lem r amount s h = (
  grind (arith, peek_laws),
  grind (arith, peek_laws),
  grind (arith, peek_laws),
  λ k. grind (arith, peek_laws),
)

pub burn_exit : (r amount : ℕ) (s : System) → (burn_balance r amount s).0 ≢ ret 0
unfolding burn_balance get_checked set_checked
burn_exit r amount s h = grind arith

pub deposit_lem :
    (r amount : ℕ) (s : System)
    → (deposit_balance r amount s).0 ≡ ok tt
    → (slot_value s supply_slot + amount < 2 ^ 256)
      × (slot_value s r + amount < 2 ^ 256)
      × ((deposit_balance r amount s).1.context ≡ s.context)
      × ((k : ℕ)
          → slot_value (deposit_balance r amount s).1 k
            ≡ set_two r
                (slot_value s r + amount)
                supply_slot
                (slot_value s supply_slot + amount)
                (slot_value s)
                k)
unfolding slot_value deposit_balance get_checked set_checked
deposit_lem r amount s h = (
  grind (arith, peek_laws),
  grind (arith, peek_laws),
  grind (arith, peek_laws),
  λ k. grind (arith, peek_laws),
)

pub deposit_exit : (r amount : ℕ) (s : System) → (deposit_balance r amount s).0 ≢ ret 0
unfolding deposit_balance get_checked set_checked
deposit_exit r amount s h = grind arith

pub withdraw_lem :
    (r amount : ℕ) (s : System)
    → (withdraw_balance r amount s).0 ≡ ok tt
    → (amount ≤ slot_value s supply_slot)
      × (amount ≤ slot_value s r)
      × ((withdraw_balance r amount s).1.context ≡ s.context)
      × ((k : ℕ)
          → slot_value (withdraw_balance r amount s).1 k
            ≡ set_two r
                (slot_value s r - amount)
                supply_slot
                (slot_value s supply_slot - amount)
                (slot_value s)
                k)
unfolding slot_value withdraw_balance get_checked set_checked
withdraw_lem r amount s h = (
  grind (arith, peek_laws),
  grind (arith, peek_laws),
  grind (arith, peek_laws),
  λ k. grind (arith, peek_laws),
)

pub withdraw_exit : (r amount : ℕ) (s : System) → (withdraw_balance r amount s).0 ≢ ret 0
unfolding withdraw_balance get_checked set_checked
withdraw_exit r amount s h = grind arith
