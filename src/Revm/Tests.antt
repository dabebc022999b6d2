-- ===== src/Revm/Tests.antt =====
-- An engine and frames for runs of crates/revm on concrete input.
mod Calls
mod Segments
mod Settles
use fluentbase.Prelude.{
  ℕ, ◌+◌, ◌-◌, ◌*◌, ◌/◌, ◌≤◌, ◌≡◌, refl, Bool, true, false, ◌&&◌, Option, none, some, List, [],
  arith, leb, ◌==◌, if◌then◌else◌, take, drop,
}
use fluentbase.Prelude.Int.{pos}
use fluentbase.Revm.Engine.{Engine, AccountInfo, loaded, TransferError, out_of_funds}
use fluentbase.Revm.Interruption.{Interruption, Frame}
use fluentbase.Revm.Static.{IsView}
use fluentbase.Revm.Metering.{IsMeter}
use fluentbase.Revm.Outcome.Settle.{IsErasing}

-- A journal with the storage and the balances of accounts and the number of logs.
pub record World : Type 0 where
  pub slots : ℕ → ℕ → ℕ
  pub balances : ℕ → ℕ
  pub logs : ℕ

abbrev pub test_account : World → ℕ → AccountInfo (List ℕ)
test_account w a = record {
  balance = w.balances a;
  nonce = 1;
  code_hash = 77;
  code = none;
  is_empty = false;
}

abbrev pub paid : World → ℕ → ℕ → ℕ → World
paid w from to v = record w {
  balances = λ a.
      let rest = (if a == from then w.balances a - v else w.balances a) in
      if a == to then rest + v else rest;
}

-- Every account and slot is cold, and gas is a number.
abbrev pub test_engine : Engine ℕ World (List ℕ) ℕ
test_engine = record {
  remaining = λ g. g;
  reservoir = λ g. 0;
  total_gas_spent = λ g. 1000000 - g;
  record_regular_cost = λ c g. if leb c g then (true, g - c) else (false, g);
  record_state_cost = λ c g. if leb c g then (true, g - c) else (false, g);
  record_refund = λ a g. g;
  erase_cost = λ c g. g + c;
  spend_all = λ g. 0;
  cold_storage_cost = 2100;
  warm_storage_read_cost = 100;
  cold_account_additional_cost = 2500;
  transfer_value_cost = 9000;
  call_stipend = 2300;
  call_stipend_reduction = λ g. g - g / 64;
  initcode_cost = λ n. 2 * (n + 31) / 32;
  create_cost = 32000;
  create2_cost = λ n. 32000 + 6 * (n + 31) / 32;
  extcodecopy = λ n. 3 * (n + 31) / 32;
  log_cost = λ topics n. 375 * topics + 8 * n;
  selfdestruct_cost = λ a b. 5000;
  new_account_cost = λ a b. 25000;
  new_account_state_gas = 0;
  sstore_static_gas = 100;
  sstore_dynamic_gas = λ a x b. 2800;
  sstore_refund = λ a x. pos 0;
  gas_warm_storage_read = 100;
  gas_cold_account_access = 2600;
  gas_low = 5;
  gas_blockhash = 20;
  gas_log = 375;
  max_initcode_size = 49152;
  wasm_max_code_size = 1048576;
  wasm_max_code_size_of = λ bytes. none;
  is_berlin = true;
  is_spurious_dragon = true;
  is_amsterdam_eip8037 = false;
  block_number = 1;
  is_precompile = λ a. false;
  sload = λ a k b w. (loaded (w.slots a k) true, w);
  sstore = λ a k v b w. (
    loaded (w.slots a k) true,
    record w { slots = λ c j. if c == a && k == j then v else w.slots c j },
  );
  load_account_info = λ a b c w. (loaded (test_account w a) true, w);
  load_account = λ a w. (some (test_account w a, true), w);
  load_account_with_code = λ a w. (some (test_account w a, true), w);
  selfdestruct = λ a t b w. (loaded (record { had_value = true; target_exists = true }) true, w);
  transfer = λ from to v w.
      if leb v (w.balances from)
      then (some none, paid w from to v)
      else (some (some out_of_funds), w);
  log = λ a topics payload w. record w { logs = w.logs + 1 };
  set_code = λ a c w. w;
  touch_account = λ a w. w;
  tload = λ a k w. 0;
  tstore = λ a k v w. w;
  block_hash = λ n w. (some n, w);
  ownable_account = λ c. none;
  new_ownable_account = λ owner metadata. metadata;
  new_rwasm = λ bytes. some bytes;
  code_len = λ c. 0;
  original_bytes = λ c. c;
  eip7702_address = λ c. none;
  no_code = [];
  keccak = λ bytes. 0;
  analyzed_metadata = λ bytes. bytes;
  deserialize = λ bytes. none;
}

pub test_engine-IsMeter : IsMeter test_engine
test_engine-IsMeter = record {
  paid = λ c g. ground arith;
  refused = λ c g. ground arith;
  state_cost = λ c g. ground arith;
  refunded = λ a g. refl;
  stipend = omega arith;
}

pub test_engine-IsErasing : IsErasing test_engine
test_engine-IsErasing = record { erased = λ c g. refl }

pub test_engine-IsView : IsView test_engine World.slots
test_engine-IsView = record {
  sload = λ a k b w. refl;
  load_account_info = λ a c b w. refl;
  load_account = λ a w. refl;
  load_account_with_code = λ a w. refl;
  block_hash = λ n w. refl;
}

-- Contract 5 runs, called by 7, and has 1,000 of value.
abbrev pub test_world : World
test_world = record {
  slots = λ a k. if k == 3 then 11 else 0;
  balances = λ a. if a == 5 then 1000 else 0;
  logs = 0;
}

abbrev pub test_start : Frame ℕ World
test_start = record { gas = 100000; world = test_world }

abbrev pub test_call : ℕ → List ℕ → ℕ → Bool → Interruption
test_call id input size is_static = record {
  code_hash = id;
  start = 0;
  stop = size;
  fuel_limit = 2000000;
  state = 0;
  memory = λ offset n. some (take n (drop offset input));
  target_address = 5;
  account_owner_address = none;
  caller_address = 7;
  call_value = 0;
  is_static = is_static;
}
