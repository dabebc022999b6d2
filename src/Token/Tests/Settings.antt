-- ===== src/Token/Tests/Settings.antt =====
-- crates/sdk/src/universal_token/storage.rs: the payload of a wrapped token.
use fluentbase.Prelude.{◌≡◌, refl, true, some, replicate, arith}
use fluentbase.Token.Settings.{InitialSettings, encode_with_prefix, decode_with_prefix}
use fluentbase.Token.Settings.RoundTrip.{decode_with_prefix-encode_with_prefix}

abbrev settings : InitialSettings
settings = record {
  token_name = replicate 32 65;
  token_symbol = replicate 32 66;
  decimals = 18;
  initial_supply = 1000;
  minter = 7;
  pauser = 8;
  wrapped = some true;
}

decode_with_prefix-encode_with_prefix_example :
    decode_with_prefix (encode_with_prefix settings) ≡ some settings
decode_with_prefix-encode_with_prefix_example =
    decode_with_prefix-encode_with_prefix settings (record {
      token_name = refl;
      token_symbol = refl;
      initial_supply = omega arith;
      minter = omega arith;
      pauser = omega arith;
    })
