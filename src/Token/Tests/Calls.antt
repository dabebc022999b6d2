-- ===== src/Token/Tests/Calls.antt =====
-- Calls of `main_entry` of contracts/universal-token/src/lib.rs on concrete frames.
use fluentbase.Prelude.{ℕ, ◌≡◌, ◌≢◌, refl, true, false, List, [], ◌++◌, arith}
use fluentbase.Prelude.Bytes.{be_bytes}
use fluentbase.Types.Journal.{insert}
use fluentbase.Sdk.State.{System, new_frame}
use fluentbase.Sdk.Result.{ok, err, abort}
use fluentbase.Types.ExitCode.{ExitCode}
use fluentbase.Token.Keys.{main_keys, erc20_compute_main_storage_keys}
use fluentbase.Token.Keys.Loaded.{loaded}
use fluentbase.Token.Keys.Cover.{main_entry-IsSound}
use fluentbase.Token.Consts.{
  sig_erc20_transfer, sig_erc20_total_supply, contract_frozen_storage_slot,
}
use fluentbase.Token.Entry.{main_entry}
use fluentbase.Token.Erc20.{transfer, transfer_from}
use fluentbase.Token.Supply.{mint, burn, deposit, withdraw}
use fluentbase.Token.Ledger.{slot_value}
use fluentbase.Token.Access.{frozen_token_lem, static_call_lem}
use fluentbase.Token.Invariant.{IsBackedToken}
use fluentbase.Token.Invariant.Calls.{main_entry-IsBackedToken}
use fluentbase.Token.Tests.{
  test_host, test_host-IsSeparated, test_frame, test_frame-IsBackedToken, test_storage,
  test_context,
}
use fluentbase.Types.Journal.{peek, touch}
use fluentbase.Types.Journal
use fluentbase.Sdk.System as Sys
use fluentbase.Prelude.Bytes.{from_be_bytes}
use fluentbase.Codec.{encode_word, decode_address, decode_uint}
use fluentbase.Sdk.Storage.{compute_slot, get_checked, set_checked}
use fluentbase.Token.Command.{decode_transfer}
use fluentbase.Token.Guards.{
  when_non_payable, when_non_static, when_non_frozen, emit_transfer, write_word, balance_slot,
}
use fluentbase.Token.Erc20.{move_balance}
use fluentbase.Token.Views.{total_supply}
use fluentbase.Token.Entry.{dispatch, exit_with}

-- The calldata of `transfer(9, 30)`.
abbrev transfer_call : List ℕ
transfer_call = be_bytes 4 sig_erc20_transfer ++ (be_bytes 32 9 ++ be_bytes 32 30)

abbrev static_frame : System
static_frame =
    new_frame test_storage [] (be_bytes 4 sig_erc20_total_supply) (test_context 3 0 true) 1000000

abbrev frozen_frame : System
frozen_frame =
    new_frame (insert contract_frozen_storage_slot 1 test_storage) [] [] (test_context 7 0 false)
      1000000

main_entry-IsBackedToken_example :
    IsBackedToken test_host (main_entry test_host (test_frame 7 transfer_call)).1
unfolding be_bytes from_be_bytes main_entry dispatch exit_with transfer decode_transfer
    decode_address decode_uint when_non_payable when_non_static when_non_frozen move_balance
    emit_transfer write_word encode_word balance_slot compute_slot get_checked set_checked
    Sys.storage Sys.write Sys.write_storage Sys.emit_log Journal.storage Journal.write_storage
    Journal.emit_log peek touch
main_entry-IsBackedToken_example =
    main_entry-IsBackedToken test_host test_host-IsSeparated (test_frame 7 transfer_call)
      (ground arith) (omega arith) (test_frame-IsBackedToken 7 transfer_call) refl

frozen_token_lem_example :
    ((transfer test_host [] frozen_frame).0 ≢ ok 0)
    × ((transfer_from test_host [] frozen_frame).0 ≢ ok 0)
    × ((mint test_host [] frozen_frame).0 ≢ ok 0)
    × ((burn test_host [] frozen_frame).0 ≢ ok 0)
    × ((deposit test_host [] frozen_frame).0 ≢ ok 0)
    × ((withdraw test_host [] frozen_frame).0 ≢ ok 0)
unfolding slot_value peek
frozen_token_lem_example = frozen_token_lem test_host [] frozen_frame (omega arith)

static_call_lem_example :
    slot_value (main_entry test_host static_frame).1 7 ≡ slot_value static_frame 7
unfolding be_bytes from_be_bytes main_entry dispatch exit_with total_supply when_non_payable
    write_word encode_word Sys.storage Sys.write Journal.storage peek touch
static_call_lem_example = static_call_lem test_host static_frame refl refl 7

main_entry-IsSound_example :
    ((main_entry test_host (test_frame 7 transfer_call)).0 ≢ err ExitCode.missing_storage_slot)
    × ((main_entry test_host (test_frame 7 transfer_call)).0 ≢ abort)
unfolding be_bytes from_be_bytes erc20_compute_main_storage_keys main_keys decode_transfer
    decode_address decode_uint balance_slot compute_slot loaded peek
main_entry-IsSound_example =
    main_entry-IsSound test_host (test_frame 7 transfer_call) (refl, (refl, (refl, tt)))
