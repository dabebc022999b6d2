-- ===== src/Revm/Tests/Settles.antt =====
-- Frames of crates/revm/src/executor.rs, from the load of their slots to their outcome.
use fluentbase.Prelude.{
  ℕ, ◌+◌, ◌≡◌, ◌≢◌, refl, ◌==◌, true, none, some, List, [], ◌∷◌, ◌++◌, take, false, arith,
}
use fluentbase.Prelude.Bytes.{be_bytes, from_be_bytes}
use fluentbase.Types.ExitCode.{ExitCode, is_ok}
use fluentbase.Types.Genesis.{contains}
use fluentbase.Types.Journal.{JournalStorage, empty, insert, into_diff, peek}
use fluentbase.Codec.{decode_address, decode_uint}
use fluentbase.Sdk.Host.{Host}
use fluentbase.Sdk.State.{Context, new_frame}
use fluentbase.Sdk.Result.{err, abort}
use fluentbase.Sdk.Storage.{compute_slot}
use fluentbase.Token.Consts.{contract_frozen_storage_slot, sig_erc20_transfer}
use fluentbase.Token.Command.{decode_transfer}
use fluentbase.Token.Entry.{main_entry}
use fluentbase.Token.Guards.{balance_slot}
use fluentbase.Token.Keys.{erc20_compute_storage_keys, erc20_compute_main_storage_keys, main_keys}
use fluentbase.Revm.Interruption.{
  Frame, next, pure, gets, load_or_halt, load_end, charge_regular_gas, charged, read_or_db,
  read_end, write,
}
use fluentbase.Revm.Preload.{
  Loaded, preload, preload_slot, preload_slots, retain_unique, spent_end, storage_list,
}
use fluentbase.Revm.Preload.Sound.{preload-IsSound}
use fluentbase.Revm.Outcome.{
  Outcome, refunded_cost, balance_required, refund_untouched, commit_storage, emit_logs,
  after_transfer, transfer_all, pay_within, pay, update_metadata, commit_outcome, finish_outcome,
  process_decoded,
}
use fluentbase.Revm.Outcome.Settle.{touched_cost, process_decoded-touched}
use fluentbase.Revm.Outcome.Commit.{IsSlots, latest, process_decoded-commits}
use fluentbase.Revm.Tests.{
  World, test_engine, test_engine-IsMeter, test_engine-IsErasing, test_world, test_start,
}

-- The key of an entry is its first word.
abbrev word_host : Host
word_host = record {
  keccak = λ bytes. from_be_bytes (take 32 bytes);
  valid_utf8 = λ bytes. true;
  ecrecover = λ signature id digest. none;
}

abbrev token_context : Context
token_context = record {
  caller = 7;
  address = 0x520008;
  value = 0;
  is_static = false;
  timestamp = 1000;
  number = 1;
  chain_id = 1;
}

-- A transfer of 0 to account 9.
abbrev transfer_call : List ℕ
transfer_call = be_bytes 4 sig_erc20_transfer ++ (be_bytes 32 9 ++ be_bytes 32 0)

abbrev transfer_slots : List ℕ
transfer_slots = contract_frozen_storage_slot ∷ 7 ∷ 9 ∷ []

abbrev loaded_slots : Loaded
loaded_slots = record {
  storage = insert 9 0 (insert 7 0 (insert contract_frozen_storage_slot 0 empty));
  costs = (contract_frozen_storage_slot, 2100) ∷ (7, 2100) ∷ (9, 2100) ∷ [];
}

preload-IsSound_example :
    let s = new_frame loaded_slots.storage [] transfer_call token_context 1000000 in
    ((main_entry word_host s).0 ≢ err ExitCode.missing_storage_slot)
    × ((main_entry word_host s).0 ≢ abort)
unfolding be_bytes from_be_bytes erc20_compute_storage_keys erc20_compute_main_storage_keys
    main_keys decode_transfer decode_address decode_uint balance_slot compute_slot storage_list
    preload preload_slot preload_slots retain_unique contains spent_end gets load_or_halt load_end
    charge_regular_gas charged pure
preload-IsSound_example =
    preload-IsSound test_engine word_host token_context [] transfer_call transfer_slots 1000000 1
      test_start loaded_slots refl refl

-- A run of contract 5 that has used 1,000 of gas, read and written its slot 3, and pays 10 to 9.
abbrev two_slots : Loaded
two_slots = record { storage = insert 4 0 (insert 3 11 empty); costs = (3, 2100) ∷ (4, 2100) ∷ [] }

abbrev ended_frame : Frame ℕ World
ended_frame = record { gas = 94800; world = test_world }

abbrev test_outcome : Outcome
test_outcome = record {
  exit_code = ExitCode.ok;
  output = 1 ∷ [];
  storage = some ((3, 12) ∷ []);
  logs = record { topics = []; payload = [] } ∷ [];
  new_metadata = none;
  touched_storage_slots = some (3 ∷ []);
  transfers = some ((9, 10) ∷ []);
}

abbrev test_journal : JournalStorage
test_journal = record {
  state = two_slots.storage;
  dirty_values = insert 3 12 empty;
  events = [];
  touched_slots = λ k. k == 3;
}

test_engine-IsSlots : IsSlots test_engine World.slots
test_engine-IsSlots = record {
  stored = λ t k v b w x c e a j. refl;
  logged = λ t p d w a j. refl;
  coded = λ t c w a j. refl;
  transferred = λ t r v w a j. ground arith;
  account = λ t w a j. refl;
}

process_decoded-touched_example :
    (process_decoded test_engine 5 ExitCode.ok none
        (some two_slots.costs)
        test_outcome
        ended_frame).1.gas
      + (1000 + touched_cost (3 ∷ []) two_slots.costs)
    ≡ 100000
unfolding contains preload preload_slot preload_slots retain_unique spent_end gets load_or_halt
    load_end charge_regular_gas charged pure
process_decoded-touched_example =
    process_decoded-touched test_engine 5 (3 ∷ 4 ∷ []) test_start ended_frame two_slots 1000
      ExitCode.ok none (3 ∷ []) test_outcome test_engine-IsMeter test_engine-IsErasing refl refl
      refl

process_decoded-commits_example :
    (process_decoded test_engine 5 ExitCode.ok none
        (some two_slots.costs)
        test_outcome
        ended_frame).1.world.slots
      5 3
    ≡ 12
unfolding contains refunded_cost balance_required refund_untouched commit_storage emit_logs
    after_transfer transfer_all pay_within pay update_metadata commit_outcome finish_outcome
    process_decoded load_or_halt load_end read_or_db read_end write pure latest into_diff peek is_ok
process_decoded-commits_example =
    process_decoded-commits test_engine World.slots test_engine-IsSlots 5 ExitCode.ok none
      (some two_slots.costs) test_outcome ended_frame ((3, 12) ∷ []) test_journal
      (ExitCode.ok, 1 ∷ []) refl (λ k. refl) refl (λ k v e. ground arith) refl 5 3

-- The outcome also pays its transfer and gives back what the other slot has cost.
process_decoded_run :
    let (end, f) =
      process_decoded test_engine 5 ExitCode.ok none
        (some two_slots.costs)
        test_outcome
        ended_frame in
    (end ≡ next (ExitCode.ok, 1 ∷ []))
    × (f.world.balances 5 ≡ 990)
    × (f.world.balances 9 ≡ 10)
    × (f.world.logs ≡ 1)
    × (f.gas ≡ 96900)
unfolding contains refunded_cost balance_required refund_untouched commit_storage emit_logs
    after_transfer transfer_all pay_within pay update_metadata commit_outcome finish_outcome
    process_decoded load_or_halt load_end read_or_db read_end write pure is_ok
process_decoded_run = (refl, refl, refl, refl, refl)
