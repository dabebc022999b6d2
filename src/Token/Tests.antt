-- ===== src/Token/Tests.antt =====
-- A hash and frames of the token of contracts/universal-token/src/lib.rs for runs on concrete input.
mod Runs
mod Calls
mod Deploys
mod Ends
mod Settings
use fluentbase.Prelude.{
  ℕ, ◌+◌, ◌-◌, ◌^◌, ◌<◌, ◌≡◌, ◌≢◌, ◌∙◌, refl, sym, subst, ap, Bool, true, false, ◌&&◌, ◌==◌, Option,
  none, some, List, [], ◌∷◌, ◌++◌, if◌then◌else◌, take, drop, arith, take-length_append,
  drop-length_append, length,
}
use fluentbase.Prelude.Bytes.{be_bytes, from_be_bytes, from_be_bytes-be_bytes, length-be_bytes}
use fluentbase.Types.Journal.{Map, peek}
use fluentbase.Sdk.Host.{Host}
use fluentbase.Sdk.State.{System, Context, new_frame}
use fluentbase.Sdk.Storage.{compute_slot}
use fluentbase.Token.Consts.{
  balance_storage_slot, allowance_storage_slot, nonces_storage_slot, total_supply_storage_slot,
  contract_frozen_storage_slot, minter_storage_slot, pauser_storage_slot, wrapped_storage_slot,
  name_storage_slot, symbol_storage_slot, decimals_storage_slot,
}
use fluentbase.Token.Guards.{balance_slot, allowance_slot, nonce_slot}
use fluentbase.Token.Backing.{
  IsAddress, IsBacked, IsHolders, sum, set, minted-IsBacked, IsBacked-cong,
}
use fluentbase.Token.Ledger.{slot_value}
use fluentbase.Token.Invariant.{IsSeparated, IsBackedToken}

-- A hash that is apart on the slots of the layout: the key of a balance is its slot, and all other
-- keys share one slot.
abbrev pub test_hash : List ℕ → ℕ
test_hash bytes =
    if from_be_bytes (drop 32 bytes) == balance_storage_slot
    then from_be_bytes (take 32 bytes)
    else 2 ^ 160

abbrev pub test_host : Host
test_host = record {
  keccak = test_hash;
  valid_utf8 = λ bytes. true;
  ecrecover = λ signature id digest. some 5;
}

test_slot :
    (key base : ℕ)
    → key < 256 ^ 32
    → base < 256 ^ 32
    → compute_slot test_host key base ≡ (if base == balance_storage_slot then key else 2 ^ 160)
unfolding compute_slot
test_slot key base hk hb =
    let m : take 32 (be_bytes 32 key ++ be_bytes 32 base) ≡ be_bytes 32 key =
      subst (λ n. take n (be_bytes 32 key ++ be_bytes 32 base) ≡ be_bytes 32 key)
        (length-be_bytes 32 key) (take-length_append (be_bytes 32 key) (be_bytes 32 base)) in
    let d : drop 32 (be_bytes 32 key ++ be_bytes 32 base) ≡ be_bytes 32 base =
      subst (λ n. drop n (be_bytes 32 key ++ be_bytes 32 base) ≡ be_bytes 32 base)
        (length-be_bytes 32 key) (drop-length_append (be_bytes 32 key) (be_bytes 32 base)) in
    rw (m, d, from_be_bytes-be_bytes 32 key hk, from_be_bytes-be_bytes 32 base hb) refl

pub test_balance : (a : ℕ) → IsAddress a → balance_slot test_host a ≡ a
unfolding balance_slot
test_balance a h = test_slot a balance_storage_slot (omega arith) (omega arith)

test_allowance : (o p : ℕ) → IsAddress o → IsAddress p → allowance_slot test_host o p ≡ 2 ^ 160
unfolding allowance_slot
test_allowance o p ho hp =
    ap (λ b. compute_slot test_host p b)
      (test_slot o allowance_storage_slot (omega arith) (omega arith))
    ∙ test_slot p (2 ^ 160) (omega arith) (omega arith)

test_nonce : (o : ℕ) → IsAddress o → nonce_slot test_host o ≡ 2 ^ 160
unfolding nonce_slot
test_nonce o h = test_slot o nonces_storage_slot (omega arith) (omega arith)

pub test_host-IsSeparated : IsSeparated test_host
test_host-IsSeparated = record {
  balance_settings = λ a ha.
      let s = test_balance a ha in
      (
        λ e. omega arith,
        λ e. omega arith,
        λ e. omega arith,
        λ e. omega arith,
        λ e. omega arith,
        λ e. omega arith,
      );
  balances = λ a b ha hb e. sym (test_balance a ha) ∙ e ∙ test_balance b hb;
  balance_supply = λ a ha e. let s = test_balance a ha in omega arith;
  balance_frozen = λ a ha e. let s = test_balance a ha in omega arith;
  balance_allowance = λ a o p ha ho hp e.
      let s = test_balance a ha in let t = test_allowance o p ho hp in omega arith;
  balance_nonce =
      λ a o ha ho e. let s = test_balance a ha in let t = test_nonce o ho in omega arith;
  supply_allowance = λ o p ho hp e. let t = test_allowance o p ho hp in omega arith;
  supply_nonce = λ o ho e. let t = test_nonce o ho in omega arith;
}

-- Account 7 holds the whole supply of 100; account 9 holds nothing.
abbrev pub test_storage : Map
test_storage k =
    if k == 7
    then some 100
    else if k == 9
    then some 0
    else if k == total_supply_storage_slot
    then some 100
    else if k == contract_frozen_storage_slot
    then some 0
    else if k == 2 ^ 160
    then some 40
    else if k == minter_storage_slot
    then some 11
    else if k == pauser_storage_slot
    then some 12
    else if k == wrapped_storage_slot
    then some 1
    else if k == name_storage_slot
    then some 0
    else none

abbrev pub test_context : ℕ → ℕ → Bool → Context
test_context caller value is_static = record {
  caller = caller;
  address = 0x520008;
  value = value;
  is_static = is_static;
  timestamp = 1000;
  number = 1;
  chain_id = 1;
}

abbrev pub test_frame : ℕ → List ℕ → System
test_frame caller input = new_frame test_storage [] input (test_context caller 0 false) 1000000

zero-IsBacked : (hs : List ℕ) → IsHolders hs → sum (λ a. 0) hs ≡ 0
zero-IsBacked [] d = refl
zero-IsBacked (h ∷ hs) (_, _, d) = omega (arith, zero-IsBacked hs d)

pub test_frame-IsBackedToken :
    (caller : ℕ) (input : List ℕ) → IsBackedToken test_host (test_frame caller input)
unfolding slot_value peek
test_frame-IsBackedToken caller input =
    IsBacked-cong (set 7 100 (λ a. 0)) _ (λ a ha. rw (test_balance a ha) (ground arith)) refl
      (minted-IsBacked 7 100 0 (λ a. 0)
        (λ hs. rw (zero-IsBacked hs.accounts hs.valid) (omega arith)))
