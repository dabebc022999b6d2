-- ===== src/Token/Tests/Runs.antt =====
-- Runs of the methods of contracts/universal-token/src/lib.rs on concrete frames.
use fluentbase.Prelude.{
  ℕ, ◌+◌, ◌-◌, ◌^◌, ◌<◌, ◌≤◌, ◌≡◌, ◌≢◌, refl, false, ◌&&◌, ◌==◌, List, [], ◌∷◌, ◌++◌, if◌then◌else◌,
  arith, ltb,
}
use fluentbase.Types.Journal
use fluentbase.Sdk.System as Sys
use fluentbase.Prelude.Bytes.{be_bytes, from_be_bytes}
use fluentbase.Sdk.Storage.{
  compute_slot, get, get_checked, set_checked, storage_address, storage_short_string, until_zero,
}
use fluentbase.Types.Journal
use fluentbase.Sdk.System as Sys
use fluentbase.Codec.{decode_address, decode_uint, encode_word}
use fluentbase.Prelude.Bytes.{be_bytes, from_be_bytes}
use fluentbase.Sdk.Storage.{
  compute_slot, get, get_checked, set_checked, storage_address, storage_short_string, until_zero,
}
use fluentbase.Token.Command.{
  ApproveCommand, BurnCommand, MintCommand, PermitCommand, TransferCommand, TransferFromCommand,
  WithdrawCommand, decode_approve, decode_burn, decode_mint, decode_transfer, decode_transfer_from,
  decode_withdraw,
}
use fluentbase.Token.Erc20.{approve, move_balance, spend_allowance, transfer, transfer_from}
use fluentbase.Token.Guards.{
  allowance_slot, balance_slot, emit_approval, emit_deposit, emit_transfer, emit_withdrawal,
  when_non_frozen, when_non_payable, when_non_static, when_wrapped_enabled, write_word,
}
use fluentbase.Token.Ledger.{moved, set_two, slot_value, spent}
use fluentbase.Token.Supply.{
  burn, burn_balance, deposit, deposit_balance, mint, mint_balance, withdraw, withdraw_balance,
}
use fluentbase.Types.Journal.{insert, peek, touch}
use fluentbase.Sdk.State.{System, new_frame}
use fluentbase.Token.Consts.{
  total_supply_storage_slot, contract_frozen_storage_slot, wrapped_storage_slot,
}
use fluentbase.Token.Effects.Transfer.{
  transfer-slot_value, transfer_from-slot_value, approve-slot_value,
}
use fluentbase.Token.Effects.Supply.{
  minter_of, minter_of, minter_of, mint-slot_value, burn-slot_value,
}
use fluentbase.Token.Effects.Wrapped.{deposit-slot_value, withdraw-slot_value}
use fluentbase.Token.Invariant.{holdings}
use fluentbase.Token.Invariant.Moves.{transfer-sum}
use fluentbase.Token.Backing.{sum}
use fluentbase.Token.Tests.{
  test_host, test_host-IsSeparated, test_frame, test_storage, test_context,
}

abbrev supply_slot : ℕ
supply_slot = total_supply_storage_slot

abbrev frozen_slot : ℕ
frozen_slot = contract_frozen_storage_slot

-- Two words: an address or an amount each.
abbrev two : ℕ → ℕ → List ℕ
two a b = encode_word a ++ encode_word b

abbrev transfer_command : TransferCommand
transfer_command = record { to = 9; amount = 30 }

abbrev transfer_from_command : TransferFromCommand
transfer_from_command = record { from = 7; to = 9; amount = 30 }

abbrev approve_command : ApproveCommand
approve_command = record { spender = 9; amount = 30 }

abbrev mint_command : MintCommand
mint_command = record { to = 9; amount = 30 }

abbrev burn_command : BurnCommand
burn_command = record { from = 7; amount = 30 }

abbrev withdraw_command : WithdrawCommand
withdraw_command = record { amount = 30 }

abbrev permit_command : PermitCommand
permit_command = record {
  owner = 5;
  spender = 9;
  value = 30;
  deadline = 2000;
  v = 27;
  r = 1;
  s = 2;
}

-- The words of a `permit` call.
abbrev permit_input : List ℕ
permit_input = two 5 9 ++ (two 30 2000 ++ (encode_word 27 ++ two 1 2))

abbrev no_input : List ℕ
no_input = []

abbrev accounts : List ℕ
accounts = 3 ∷ 7 ∷ 9 ∷ []

-- The account that pays in 60.
abbrev payable_frame : System
payable_frame = new_frame test_storage [] [] (test_context 9 60 false) 1000000

-- The frame of a token that is paused.
abbrev frozen_frame : System
frozen_frame =
    new_frame (insert contract_frozen_storage_slot 1 test_storage) [] [] (test_context 12 0 false)
      1000000

transfer-slot_value_example :
    let host = test_host in
    let input = two 9 30 in
    let c = transfer_command in
    let s = test_frame 7 [] in
    let from = balance_slot host s.context.caller in
    let to = balance_slot host c.to in
    (s.context.value ≡ 0)
    × (s.context.is_static ≡ false)
    × (slot_value s contract_frozen_storage_slot ≡ 0)
    × (c.to ≢ 0)
    × (c.amount ≤ slot_value s from)
    × ((k : ℕ) → slot_value (transfer host input s).1 k ≡ moved from to c.amount (slot_value s) k)
unfolding decode_address decode_uint encode_word be_bytes from_be_bytes peek touch compute_slot
    get_checked set_checked write_word balance_slot decode_transfer transfer when_non_payable
    when_non_static when_non_frozen move_balance emit_transfer Sys.storage Sys.write_storage
    Sys.emit_log Sys.write Sys.transfer_value_to Journal.storage Journal.write_storage
    Journal.emit_log
transfer-slot_value_example =
    transfer-slot_value test_host (two 9 30) transfer_command (test_frame 7 []) refl refl

transfer_from-slot_value_example :
    let host = test_host in
    let input = two 7 9 ++ encode_word 30 in
    let c = transfer_from_command in
    let s = test_frame 3 [] in
    let slot = allowance_slot host c.from s.context.caller in
    let from = balance_slot host c.from in
    let to = balance_slot host c.to in
    (s.context.value ≡ 0)
    × (s.context.is_static ≡ false)
    × (slot_value s contract_frozen_storage_slot ≡ 0)
    × (c.to ≢ 0)
    × (ltb (slot_value s slot) (2 ^ 256 - 1) && ltb (slot_value s slot) c.amount ≡ false)
    × (c.amount ≤ spent slot c.amount (slot_value s) from)
    × ((k : ℕ)
        → slot_value (transfer_from host input s).1 k
          ≡ moved from to c.amount (spent slot c.amount (slot_value s)) k)
unfolding decode_address decode_uint encode_word be_bytes from_be_bytes peek touch compute_slot
    get_checked set_checked write_word balance_slot decode_transfer_from transfer_from
    when_non_payable when_non_static when_non_frozen spend_allowance move_balance emit_transfer
    allowance_slot Sys.storage Sys.write_storage Sys.emit_log Sys.write Sys.transfer_value_to
    Journal.storage Journal.write_storage Journal.emit_log
transfer_from-slot_value_example =
    transfer_from-slot_value test_host (two 7 9 ++ encode_word 30) transfer_from_command
      (test_frame 3 []) refl refl

approve-slot_value_example :
    let host = test_host in
    let input = two 9 30 in
    let c = approve_command in
    let s = test_frame 7 [] in
    (s.context.value ≡ 0)
    × (s.context.is_static ≡ false)
    × ((k : ℕ)
        → slot_value (approve host input s).1 k ≡ (
            if allowance_slot host s.context.caller c.spender == k
            then c.amount
            else slot_value s k))
unfolding decode_address decode_uint encode_word be_bytes from_be_bytes peek touch compute_slot
    get_checked set_checked write_word balance_slot decode_approve approve when_non_payable
    when_non_static emit_approval allowance_slot Sys.storage Sys.write_storage Sys.emit_log
    Sys.write Sys.transfer_value_to Journal.storage Journal.write_storage Journal.emit_log
approve-slot_value_example =
    approve-slot_value test_host (two 9 30) approve_command (test_frame 7 []) refl refl

mint-slot_value_example :
    let host = test_host in
    let input = two 9 30 in
    let c = mint_command in
    let s = test_frame 11 [] in
    let to = balance_slot host c.to in
    (s.context.value ≡ 0)
    × (s.context.is_static ≡ false)
    × (slot_value s frozen_slot ≡ 0)
    × (c.to ≢ 0)
    × (minter_of s ≢ 0)
    × (s.context.caller ≡ minter_of s)
    × (slot_value s supply_slot + c.amount < 2 ^ 256)
    × (slot_value s to + c.amount < 2 ^ 256)
    × ((k : ℕ)
        → slot_value (mint host input s).1 k
          ≡ set_two supply_slot
              (slot_value s supply_slot + c.amount)
              to
              (slot_value s to + c.amount)
              (slot_value s)
              k)
unfolding decode_address decode_uint encode_word be_bytes from_be_bytes peek touch compute_slot
    get_checked set_checked write_word balance_slot decode_mint mint when_non_payable
    when_non_static when_non_frozen storage_address mint_balance emit_transfer Sys.storage
    Sys.write_storage Sys.emit_log Sys.write Sys.transfer_value_to Journal.storage
    Journal.write_storage Journal.emit_log
mint-slot_value_example =
    mint-slot_value test_host (two 9 30) mint_command (test_frame 11 []) refl refl

burn-slot_value_example :
    let host = test_host in
    let input = two 7 30 in
    let c = burn_command in
    let s = test_frame 11 [] in
    let from = balance_slot host c.from in
    (s.context.value ≡ 0)
    × (s.context.is_static ≡ false)
    × (slot_value s frozen_slot ≡ 0)
    × (c.from ≢ 0)
    × (minter_of s ≢ 0)
    × (s.context.caller ≡ minter_of s)
    × (c.amount ≤ slot_value s supply_slot)
    × (c.amount ≤ slot_value s from)
    × ((k : ℕ)
        → slot_value (burn host input s).1 k
          ≡ set_two supply_slot
              (slot_value s supply_slot - c.amount)
              from
              (slot_value s from - c.amount)
              (slot_value s)
              k)
unfolding decode_address decode_uint encode_word be_bytes from_be_bytes peek touch compute_slot
    get_checked set_checked write_word balance_slot decode_burn burn when_non_payable
    when_non_static when_non_frozen storage_address burn_balance emit_transfer Sys.storage
    Sys.write_storage Sys.emit_log Sys.write Sys.transfer_value_to Journal.storage
    Journal.write_storage Journal.emit_log
burn-slot_value_example =
    burn-slot_value test_host (two 7 30) burn_command (test_frame 11 []) refl refl

withdraw-slot_value_example :
    let host = test_host in
    let input = encode_word 30 in
    let c = withdraw_command in
    let s = test_frame 7 [] in
    let from = balance_slot host s.context.caller in
    (s.context.value ≡ 0)
    × (s.context.is_static ≡ false)
    × (slot_value s wrapped_storage_slot ≢ 0)
    × (slot_value s frozen_slot ≡ 0)
    × (c.amount ≤ slot_value s supply_slot)
    × (c.amount ≤ slot_value s from)
    × ((k : ℕ)
        → slot_value (withdraw host input s).1 k
          ≡ set_two from
              (slot_value s from - c.amount)
              supply_slot
              (slot_value s supply_slot - c.amount)
              (slot_value s)
              k)
unfolding decode_address decode_uint encode_word be_bytes from_be_bytes peek touch compute_slot
    get_checked set_checked write_word balance_slot decode_withdraw withdraw when_non_payable
    when_non_static when_non_frozen when_wrapped_enabled withdraw_balance emit_transfer
    emit_withdrawal Sys.storage Sys.write_storage Sys.emit_log Sys.write Sys.transfer_value_to
    Journal.storage Journal.write_storage Journal.emit_log
withdraw-slot_value_example =
    withdraw-slot_value test_host (encode_word 30) withdraw_command (test_frame 7 []) refl refl

deposit-slot_value_example :
    let host = test_host in
    let input = no_input in
    let s = payable_frame in
    let from = balance_slot host s.context.caller in
    let wad = s.context.value in
    (s.context.is_static ≡ false)
    × (slot_value s wrapped_storage_slot ≢ 0)
    × (slot_value s frozen_slot ≡ 0)
    × (s.context.caller ≢ 0)
    × (slot_value s supply_slot + wad < 2 ^ 256)
    × (slot_value s from + wad < 2 ^ 256)
    × ((k : ℕ)
        → slot_value (deposit host input s).1 k
          ≡ set_two from
              (slot_value s from + wad)
              supply_slot
              (slot_value s supply_slot + wad)
              (slot_value s)
              k)
unfolding decode_address decode_uint encode_word be_bytes from_be_bytes peek touch compute_slot
    get_checked set_checked write_word balance_slot deposit when_non_static when_non_frozen
    when_wrapped_enabled deposit_balance emit_transfer emit_deposit Sys.storage Sys.write_storage
    Sys.emit_log Sys.write Sys.transfer_value_to Journal.storage Journal.write_storage
    Journal.emit_log
deposit-slot_value_example = deposit-slot_value test_host [] payable_frame refl

transfer-sum_example :
    let host = test_host in
    let input = two 9 30 in
    let c = transfer_command in
    let s = test_frame 7 [] in
    let hs = accounts in sum (holdings host (transfer host input s).1) hs ≡ sum (holdings host s) hs
unfolding decode_address decode_uint encode_word be_bytes from_be_bytes peek touch compute_slot
    get_checked set_checked write_word balance_slot decode_transfer transfer when_non_payable
    when_non_static when_non_frozen move_balance emit_transfer Sys.storage Sys.write_storage
    Sys.emit_log Sys.write Sys.transfer_value_to Journal.storage Journal.write_storage
    Journal.emit_log
transfer-sum_example =
    transfer-sum test_host test_host-IsSeparated (two 9 30) transfer_command (test_frame 7 [])
      accounts refl (omega arith) (omega arith) (ground arith) refl refl refl
