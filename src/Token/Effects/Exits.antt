-- ===== src/Token/Effects/Exits.antt =====
-- Calls of `transfer` of contracts/universal-token/src/lib.rs from the calldata to the exit of
-- `main_entry`.
use fluentbase.Prelude.{
  ℕ, ◌+◌, ◌^◌, ◌≤◌, ◌<◌, ◌≡◌, ◌≢◌, refl, sym, ap, false, Bool, some, List, ◌++◌, length, take, drop,
  ltb, leb, ◌==◌, ◌||◌, if◌then◌else◌, arith, ◌∙◌, take-length_append, drop-length_append,
  Bool-cases, inl, inr, length-append,
}
use fluentbase.Prelude.Bytes.{be_bytes, from_be_bytes, from_be_bytes-be_bytes, length-be_bytes}
use fluentbase.Types.ExitCode.{ExitCode}
use fluentbase.Types.Journal.{peek}
use fluentbase.Types.Journal.Overlay.{peek_laws}
use fluentbase.Codec.{encode_word}
use fluentbase.Sdk.Host.{Host}
use fluentbase.Sdk.State.{System}
use fluentbase.Sdk.System as Sys
use fluentbase.Sdk.Result.{Result, M, ok, err, ret, ◌>>=◌, ◌>>◌, fail_if, gets}
use fluentbase.Sdk.Storage.{get_checked, set_checked}
use fluentbase.Token.Consts.{
  contract_frozen_storage_slot, err_erc20_insufficient_balance, err_erc20_invalid_receiver,
  sig_erc20_transfer,
}
use fluentbase.Token.Command.{TransferCommand, decode_transfer}
use fluentbase.Token.Guards.{
  when_non_payable, when_non_static, when_non_frozen, balance_slot, emit_transfer, write_word,
}
use fluentbase.Token.Erc20.{move_balance, transfer}
use fluentbase.Token.Settings.{initial_settings_v2_size}
use fluentbase.Token.Entry.{dispatch, exit_with, evm_exit_message, main_entry}
use fluentbase.Token.Effects.Success.{frozen_ok, move_ok, transfer_ok}

unfrozen_output : (s : System) → (when_non_frozen s).1.output ≡ s.output
unfolding when_non_frozen
unfrozen_output s = grind (arith, peek_laws)

move_output : (f t amount : ℕ) (s : System) → (move_balance f t amount s).1.output ≡ s.output
unfolding move_balance get_checked set_checked
move_output f t amount s = grind (arith, peek_laws)

move_short :
    (f t amount v : ℕ) (s : System)
    → peek s.journal f ≡ some v
    → v < amount
    → (move_balance f t amount s).0 ≡ ret err_erc20_insufficient_balance
unfolding move_balance get_checked set_checked
move_short f t amount v s ef short = grind (arith, peek_laws)

emit_output : (f t amount : ℕ) (s : System) → (emit_transfer f t amount s).1.output ≡ s.output
unfolding emit_transfer
emit_output f t amount s = refl

word_output : (v : ℕ) (s : System) → (write_word v s).1.output ≡ s.output ++ encode_word v
unfolding write_word Sys.write
word_output v s = refl

module _ (host : Host) (input : List ℕ) (c : TransferCommand) (s : System)
    (e : decode_transfer input ≡ some c) (payable : s.context.value ≡ 0)
    (static : s.context.is_static ≡ false)
    (frozen : peek s.journal contract_frozen_storage_slot ≡ some 0) where
  transfer-to_zero :
      c.to ≡ 0
      → ((transfer host input s).0 ≡ ok err_erc20_invalid_receiver)
        × ((transfer host input s).1.output ≡ s.output)
  unfolding transfer when_non_payable when_non_static
  transfer-to_zero zero_to =
      let (unfrozen, context, kept) = frozen_ok s frozen in
      let o = unfrozen_output s in (grind arith, grind arith)

  transfer-short :
      (v : ℕ)
      → c.to ≢ 0
      → peek s.journal (balance_slot host s.context.caller) ≡ some v
      → v < c.amount
      → ((transfer host input s).0 ≡ ok err_erc20_insufficient_balance)
        × ((transfer host input s).1.output ≡ s.output)
  unfolding transfer when_non_payable when_non_static
  transfer-short v to loaded short =
      let s1 = (when_non_frozen s).1 in
      let (unfrozen, context, kept) = frozen_ok s frozen in
      let o = unfrozen_output s in
      let m =
        move_short (balance_slot host s.context.caller) (balance_slot host c.to) c.amount v s1
          (kept (balance_slot host s.context.caller) ∙ loaded) short in
      let p =
        move_output (balance_slot host s.context.caller) (balance_slot host c.to) c.amount s1 in
      (grind arith, grind arith)

  transfer-written :
      (v w : ℕ)
      → c.to ≢ 0
      → peek s.journal (balance_slot host s.context.caller) ≡ some v
      → peek s.journal (balance_slot host c.to) ≡ some w
      → c.amount ≤ v
      → w + c.amount < 2 ^ 256
      → ((transfer host input s).0 ≡ ok 0)
        × ((transfer host input s).1.output ≡ s.output ++ encode_word 1)
  unfolding transfer when_non_payable when_non_static emit_transfer write_word Sys.write
  transfer-written v w to from_loaded to_loaded enough room =
      let s1 = (when_non_frozen s).1 in
      let (unfrozen, context, kept) = frozen_ok s frozen in
      let moved =
        move_ok (balance_slot host s.context.caller) (balance_slot host c.to) c.amount v w s1
          (kept (balance_slot host s.context.caller) ∙ from_loaded)
          (kept (balance_slot host c.to) ∙ to_loaded) enough room in
      let o = unfrozen_output s in
      let p =
        move_output (balance_slot host s.context.caller) (balance_slot host c.to) c.amount s1 in
      (
        transfer_ok host input c v w s e payable static frozen to from_loaded to_loaded enough room,
        grind arith,
      )

module _ (host : Host) (s : System) where
  -- `main_entry` by the facts of its input that it looks at.
  abbrev entry_of : Bool → ℕ → List ℕ → Result (Unit {0}) × System
  entry_of short sig input =
      (do
        fail_if short ExitCode.malformed_builtin_params
        metadata ← gets (λ t. t.contract_metadata)
        code ← dispatch host sig (leb initial_settings_v2_size (length metadata)) input
        exit_with code)
        s

  main_entry-transfer :
      (input : List ℕ)
      → s.input ≡ be_bytes 4 sig_erc20_transfer ++ input
      → main_entry host s ≡ (transfer host input >>= exit_with) s
  unfolding main_entry dispatch
  main_entry-transfer input e =
      let bytes = be_bytes 4 sig_erc20_transfer in
      let n : length bytes ≡ 4 = length-be_bytes 4 sig_erc20_transfer in
      let long : ltb (length s.input) 4 ≡ false =
        ground (arith, ap (λ l. length l) e, length-append bytes input, n) in
      let first : take 4 s.input ≡ bytes =
        ap (take 4) e
        ∙ ap (λ k. take k (bytes ++ input)) (sym n)
        ∙ take-length_append bytes input in
      let others : drop 4 s.input ≡ input =
        ap (drop 4) e
        ∙ ap (λ k. drop k (bytes ++ input)) (sym n)
        ∙ drop-length_append bytes input in
      let sig : from_be_bytes (take 4 s.input) ≡ sig_erc20_transfer =
        ap from_be_bytes first ∙ from_be_bytes-be_bytes 4 sig_erc20_transfer (omega arith) in
      ap (λ b. entry_of b (from_be_bytes (take 4 s.input)) (drop 4 s.input)) long
      ∙ ap (λ k. entry_of false k (drop 4 s.input)) sig
      ∙ ap (entry_of false sig_erc20_transfer) others

exit_zero :
    (m : M ℕ) (s : System)
    → (m s).0 ≡ ok 0
    → (((m >>= exit_with) s).0 ≡ ok tt) × (((m >>= exit_with) s).1.output ≡ (m s).1.output)
unfolding exit_with
exit_zero m s e = (grind arith, grind arith)

exit_error :
    (m : M ℕ) (s : System) (code : ℕ)
    → code ≢ 0
    → (m s).0 ≡ ok code
    → (((m >>= exit_with) s).0 ≡ err ExitCode.panic)
      × (((m >>= exit_with) s).1.output ≡ (m s).1.output ++ evm_exit_message code)
unfolding exit_with Sys.write
exit_error m s code error e = (grind arith, grind arith)

-- Solidity's `Panic(uint256)` with a code, and a `true` that is returned.
abbrev pub panic_data : ℕ → List ℕ
panic_data code = be_bytes 4 0x4e487b71 ++ be_bytes 32 code

abbrev pub true_data : List ℕ
true_data = be_bytes 32 1

receiver_data : evm_exit_message err_erc20_invalid_receiver ≡ panic_data err_erc20_invalid_receiver
unfolding evm_exit_message be_bytes
receiver_data = refl

balance_data :
    evm_exit_message err_erc20_insufficient_balance ≡ panic_data err_erc20_insufficient_balance
unfolding evm_exit_message be_bytes
balance_data = refl

word_data : encode_word 1 ≡ true_data
unfolding encode_word
word_data = refl

-- What a call answers: its result, and what it adds to the output.
IsAnswer : Host → System → Result (Unit {0}) → List ℕ → Type 0
IsAnswer host s r bytes =
    ((main_entry host s).0 ≡ r) × ((main_entry host s).1.output ≡ s.output ++ bytes)

error-IsAnswer :
    (host : Host) (input : List ℕ) (s : System) (code : ℕ)
    → s.input ≡ be_bytes 4 sig_erc20_transfer ++ input
    → code ≢ 0
    → evm_exit_message code ≡ panic_data code
    → ((transfer host input s).0 ≡ ok code) × ((transfer host input s).1.output ≡ s.output)
    → IsAnswer host s (err ExitCode.panic) (panic_data code)
unfolding IsAnswer
error-IsAnswer host input s code called error bytes (ended, output) =
    let run = main_entry-transfer host s input called in
    let (a, b) = exit_error (transfer host input) s code error ended in
    (
      ap (λ r. r.0) run ∙ a,
      ap (λ r. r.1.output) run
          ∙ b
          ∙ ap (λ o. o ++ evm_exit_message code) output
          ∙ ap (λ o. s.output ++ o) bytes,
    )

-- A call of `transfer` on a token that is not frozen, without value and not static, with the slots it
-- reads loaded and room for the amount in the receiver's balance: for the zero address as receiver,
-- and otherwise for an amount above the caller's balance, it ends with the error `Panic` and adds
-- `Panic(uint256)` with the code of that case to the output; in any other case it succeeds and adds
-- the word `true`.
pub main_entry-transfer_answer :
    (host : Host) (input : List ℕ) (c : TransferCommand) (v w : ℕ) (s : System)
    → s.input ≡ be_bytes 4 sig_erc20_transfer ++ input
    → decode_transfer input ≡ some c
    → s.context.value ≡ 0
    → s.context.is_static ≡ false
    → peek s.journal contract_frozen_storage_slot ≡ some 0
    → peek s.journal (balance_slot host s.context.caller) ≡ some v
    → peek s.journal (balance_slot host c.to) ≡ some w
    → w + c.amount < 2 ^ 256
    → ((main_entry host s).0 ≡ (if c.to == 0 || ltb v c.amount then err ExitCode.panic else ok tt))
      × ((main_entry host s).1.output
          ≡ s.output
            ++ (if c.to == 0
                then panic_data err_erc20_invalid_receiver
                else if ltb v c.amount
                then panic_data err_erc20_insufficient_balance
                else true_data))
unfolding IsAnswer
main_entry-transfer_answer host input c v w s called e payable static frozen from_loaded to_loaded
      room =
    elim (Bool-cases (c.to == 0)) [
      | inl z ↦
          let (r, o) =
            error-IsAnswer host input s err_erc20_invalid_receiver called (λ x. omega (arith, x))
              receiver_data
              (transfer-to_zero host input c s e payable static frozen (ground (arith, z))) in
          rw z (r, o)
      | inr nz ↦ rw nz (elim (Bool-cases (ltb v c.amount)) [
        | inl short ↦ rw short (
            error-IsAnswer host input s err_erc20_insufficient_balance called
              (λ x. omega (arith, x)) balance_data
              (transfer-short host input c s e payable static frozen v (ground (arith, nz))
                from_loaded (ground (arith, short))))
        | inr enough ↦
            let (ended, output) =
              transfer-written host input c s e payable static frozen v w (ground (arith, nz))
                from_loaded to_loaded (ground (arith, enough)) room in
            let run = main_entry-transfer host s input called in
            let (a, b) = exit_zero (transfer host input) s ended in
            rw enough (
              ap (λ r. r.0) run ∙ a,
              ap (λ r. r.1.output) run ∙ b ∙ output ∙ ap (λ o. s.output ++ o) word_data,
            )
      ])
    ]
