-- ===== src/Token/Tests/Deploys.antt =====
-- A creation of a token by the constructor of contracts/universal-token/src/lib.rs.
use fluentbase.Prelude.{
  ℕ, ◌≡◌, refl, false, not, ◌&&◌, ◌==◌, none, List, [], ◌∷◌, ◌++◌, replicate, arith,
}
use fluentbase.Prelude.Bytes.{be_bytes, from_be_bytes, bytes_eq}
use fluentbase.Types.Journal.{peek, touch}
use fluentbase.Types.Journal
use fluentbase.Codec.{
  encode_word, encode_u8, encode_bool, decode_uint, decode_address, decode_bytes32, decode_u8,
  decode_bool,
}
use fluentbase.Sdk.State.{System, new_frame}
use fluentbase.Sdk.System as Sys
use fluentbase.Sdk.Storage.{
  compute_slot, set_checked, write_storage_address, write_storage_short_string, pad_word,
  until_zero,
}
use fluentbase.Token.Settings.{
  InitialSettings, as_str, encode_v1, encode_with_prefix, decode_v1, decode_v2, decode_with_prefix,
}
use fluentbase.Token.Guards.{when_non_payable, when_non_static, emit_transfer, balance_slot}
use fluentbase.Token.Entry.{constructor, emit_initial, write_wrapped, is_wrapped}
use fluentbase.Token.Ledger.{slot_value}
use fluentbase.Token.Effects.Deploy.{constructor-slot_value, deployed_slots, wrapped_slots}
use fluentbase.Token.Invariant.{IsBackedToken}
use fluentbase.Token.Invariant.Deploy.{constructor-IsBackedToken}
use fluentbase.Token.Tests.{test_host, test_host-IsSeparated, test_context}

abbrev test_settings : InitialSettings
test_settings = record {
  token_name = 65 ∷ replicate 31 0;
  token_symbol = 66 ∷ replicate 31 0;
  decimals = 18;
  initial_supply = 500;
  minter = 11;
  pauser = 12;
  wrapped = none;
}

-- The payload of the creation.
abbrev payload : List ℕ
payload =
    0x45 ∷ 0x52 ∷ 0x43 ∷ 0x20 ∷ (65 ∷ replicate 31 0)
    ++ ((66 ∷ replicate 31 0)
        ++ (replicate 31 0 ++ (18 ∷ be_bytes 32 500 ++ (be_bytes 32 11 ++ be_bytes 32 12))))

abbrev fresh_frame : System
fresh_frame = new_frame (λ k. none) [] payload (test_context 7 0 false) 1000000

constructor-slot_value_example :
    let c = test_settings in
    let s = fresh_frame in
    (s.context.value ≡ 0)
    × (s.context.is_static ≡ false)
    × (is_wrapped c.wrapped && not (c.initial_supply == 0) ≡ false)
    × ((k : ℕ)
        → slot_value (constructor test_host payload s).1 k
          ≡ wrapped_slots c.wrapped
              (deployed_slots test_host s.context.caller c (65 ∷ []) (66 ∷ []) (slot_value s))
              k)
unfolding be_bytes from_be_bytes bytes_eq peek touch Journal.storage Journal.write_storage
    Journal.emit_log encode_word encode_u8 encode_bool decode_uint decode_address decode_bytes32
    decode_u8 decode_bool Sys.write_storage Sys.emit_log Sys.charge_fuel Sys.write_contract_metadata
    compute_slot set_checked write_storage_address write_storage_short_string pad_word until_zero
    as_str encode_v1 encode_with_prefix decode_v1 decode_v2 decode_with_prefix when_non_payable
    when_non_static emit_transfer balance_slot constructor emit_initial write_wrapped slot_value
constructor-slot_value_example =
    constructor-slot_value test_host payload test_settings (65 ∷ []) (66 ∷ []) fresh_frame refl refl
      refl refl

constructor-IsBackedToken_example :
    IsBackedToken test_host (constructor test_host payload fresh_frame).1
unfolding be_bytes from_be_bytes bytes_eq peek touch Journal.storage Journal.write_storage
    Journal.emit_log encode_word encode_u8 encode_bool decode_uint decode_address decode_bytes32
    decode_u8 decode_bool Sys.write_storage Sys.emit_log Sys.charge_fuel Sys.write_contract_metadata
    compute_slot set_checked write_storage_address write_storage_short_string pad_word until_zero
    as_str encode_v1 encode_with_prefix decode_v1 decode_v2 decode_with_prefix when_non_payable
    when_non_static emit_transfer balance_slot constructor emit_initial write_wrapped slot_value
constructor-IsBackedToken_example =
    constructor-IsBackedToken test_host test_host-IsSeparated payload test_settings (65 ∷ [])
      (66 ∷ []) fresh_frame refl refl refl refl (omega arith) (λ a ha. refl)
