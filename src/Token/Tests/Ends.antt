-- ===== src/Token/Tests/Ends.antt =====
-- How calls of contracts/universal-token end on concrete frames, and signatures.
use fluentbase.Prelude.{ℕ, ◌≤◌, ◌≡◌, ◌≢◌, refl, ◌==◌, ◌||◌, true, List, [], ◌++◌, arith}
use fluentbase.Prelude.Bytes.{be_bytes, from_be_bytes}
use fluentbase.Types.ExitCode.{ExitCode}
use fluentbase.Types.Journal.{peek}
use fluentbase.Codec.{decode_address, decode_uint, encode_word}
use fluentbase.Sdk.State.{System}
use fluentbase.Sdk.Result.{ok, err}
use fluentbase.Sdk.Storage.{compute_slot}
use fluentbase.Token.Consts.{err_erc20_insufficient_balance, sig_erc20_transfer}
use fluentbase.Token.Command.{TransferCommand, decode_transfer}
use fluentbase.Token.Guards.{balance_slot}
use fluentbase.Token.Erc20.{transfer}
use fluentbase.Token.Entry.{main_entry}
use fluentbase.Token.Permit.{secp256k1n_half, ecrecover_address, recovery_id, recovered_address}
use fluentbase.Token.Permit.Signature.{ecrecover_address-IsAddress}
use fluentbase.Token.Backing.{IsAddress}
use fluentbase.Token.Effects.Success.{transfer_ok}
use fluentbase.Token.Effects.Exits.{panic_data, main_entry-transfer_answer}
use fluentbase.Token.Tests.{test_host, test_frame}

abbrev transfer_input : List ℕ
transfer_input = encode_word 9 ++ encode_word 30

abbrev transfer_command : TransferCommand
transfer_command = record { to = 9; amount = 30 }

transfer_ok_example : (transfer test_host transfer_input (test_frame 7 [])).0 ≡ ok 0
unfolding decode_transfer decode_address decode_uint encode_word be_bytes from_be_bytes balance_slot
    compute_slot peek
transfer_ok_example =
    transfer_ok test_host transfer_input transfer_command 100 0 (test_frame 7 []) refl refl refl
      refl (omega arith) refl refl (omega arith) (omega arith)

-- A call to transfer 130 to account 9, of the 100 that account 7 has.
abbrev short_input : List ℕ
short_input = encode_word 9 ++ encode_word 130

abbrev short_command : TransferCommand
short_command = record { to = 9; amount = 130 }

abbrev short_frame : System
short_frame = test_frame 7 (be_bytes 4 sig_erc20_transfer ++ short_input)

main_entry-transfer_answer_example :
    ((main_entry test_host short_frame).0 ≡ err ExitCode.panic)
    × ((main_entry test_host short_frame).1.output ≡ panic_data err_erc20_insufficient_balance)
unfolding decode_transfer decode_address decode_uint encode_word be_bytes from_be_bytes balance_slot
    compute_slot peek
main_entry-transfer_answer_example =
    main_entry-transfer_answer test_host short_input short_command 100 0 short_frame refl refl refl
      refl refl refl refl (omega arith)

abbrev test_signer : ℕ
test_signer = 5

ecrecover_address-IsAddress_example :
    (2 ≤ secp256k1n_half)
    × ((27 == 0 || 27 == 1) || (27 == 27 || 27 == 28) ≡ true)
    × (test_signer ≢ 0)
    × IsAddress test_signer
unfolding ecrecover_address recovery_id recovered_address
ecrecover_address-IsAddress_example =
    ecrecover_address-IsAddress test_host 3 27 1 2 test_signer refl
