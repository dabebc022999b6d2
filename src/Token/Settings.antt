-- ===== src/Token/Settings.antt =====
-- crates/sdk/src/universal_token/storage.rs: `InitialSettings`, the payload of a creation.
pub mod RoundTrip
use fluentbase.Prelude.{
  ℕ, ◌+◌, Bool, not, Option, none, some, List, [], ◌∷◌, ◌++◌, ltb, ◌==◌, ◌||◌, if◌then◌else◌,
  length, take, drop, zero, suc,
}
use fluentbase.Prelude.Bytes.{bytes_eq}
use fluentbase.Codec.{
  ◌>>=◌, decode_bytes32, decode_u8, decode_uint, decode_address, decode_bool, encode_word,
  encode_u8, encode_bool,
}
use fluentbase.Sdk.Host.{Host}
use fluentbase.Sdk.Storage.{until_zero}

-- `token_name` and `token_symbol` are 32 bytes (`TokenNameOrSymbol`), `decimals` is a byte.
pub record InitialSettings : Type 0 where
  pub token_name : List ℕ
  pub token_symbol : List ℕ
  pub decimals : ℕ
  pub initial_supply : ℕ
  pub minter : ℕ
  pub pauser : ℕ
  pub wrapped : Option Bool

-- `UNIVERSAL_TOKEN_MAGIC_BYTES`
abbrev pub magic_bytes : List ℕ
magic_bytes = 0x45 ∷ 0x52 ∷ 0x43 ∷ 0x20 ∷ []

abbrev pub sig_len_bytes : ℕ
sig_len_bytes = 4

abbrev pub initial_settings_v1_size : ℕ
initial_settings_v1_size = 196

abbrev pub initial_settings_v2_size : ℕ
initial_settings_v2_size = 228

abbrev pub initial_settings_legacy_size : ℕ
initial_settings_legacy_size = 2180

abbrev pub initial_settings_max_size : ℕ
initial_settings_max_size = initial_settings_legacy_size

-- `TokenNameOrSymbol::as_str`
unfoldable pub as_str : Host → List ℕ → Option (List ℕ)
unfolding until_zero
as_str host bytes = if host.valid_utf8 (until_zero bytes) then some (until_zero bytes) else none

-- The words of `InitialSettingsV1`.
unfoldable pub encode_v1 : InitialSettings → List ℕ
encode_v1 settings =
    settings.token_name
    ++ (settings.token_symbol
        ++ (encode_u8 settings.decimals
            ++ (encode_word settings.initial_supply
                ++ (encode_word settings.minter ++ encode_word settings.pauser))))

-- Those of `InitialSettingsV2`: one more.
unfoldable pub encode_with_prefix : InitialSettings → List ℕ
unfolding encode_v1
encode_with_prefix settings = elim settings.wrapped [
  | some wrapped ↦ magic_bytes ++ (encode_v1 settings ++ encode_bool wrapped)
  | none ↦ magic_bytes ++ encode_v1 settings
]

unfoldable pub decode_v1 : List ℕ → Option InitialSettings
decode_v1 buf = do
  token_name ← decode_bytes32 buf 0
  token_symbol ← decode_bytes32 buf 32
  decimals ← decode_u8 buf 64
  initial_supply ← decode_uint buf 96
  minter ← decode_address buf 128
  pauser ← decode_address buf 160
  some (record {
    token_name = token_name;
    token_symbol = token_symbol;
    decimals = decimals;
    initial_supply = initial_supply;
    minter = minter;
    pauser = pauser;
    wrapped = none;
  })

unfoldable pub decode_v2 : List ℕ → Option InitialSettings
unfolding decode_v1
decode_v2 buf = do
  settings ← decode_v1 buf
  wrapped ← decode_bool buf 192
  some (record settings { wrapped = some wrapped })

-- `[u8; 32]`: a word for each byte.
decode_byte_words : ℕ → List ℕ → ℕ → Option (List ℕ)
decode_byte_words zero buf offset = some []
decode_byte_words (suc n) buf offset = do
  b ← decode_u8 buf offset
  bs ← decode_byte_words n buf (offset + 32)
  some (b ∷ bs)

-- `LegacyInitialSettings::decode_with_prefix`, below the tests of its length and prefix.
unfoldable pub decode_legacy : List ℕ → Option InitialSettings
unfolding decode_byte_words
decode_legacy buf = do
  token_name ← decode_byte_words 32 buf 0
  token_symbol ← decode_byte_words 32 buf 1024
  decimals ← decode_u8 buf 2048
  initial_supply ← decode_uint buf 2080
  minter ← decode_address buf 2112
  pauser ← decode_address buf 2144
  some (record {
    token_name = token_name;
    token_symbol = token_symbol;
    decimals = decimals;
    initial_supply = initial_supply;
    minter = minter;
    pauser = pauser;
    wrapped = none;
  })

unfoldable pub decode_with_prefix : List ℕ → Option InitialSettings
unfolding bytes_eq
decode_with_prefix buf =
    if ltb (length buf) 4 || not (bytes_eq (take 4 buf) magic_bytes)
    then none
    else if length buf == initial_settings_v1_size
    then decode_v1 (drop 4 buf)
    else if length buf == initial_settings_v2_size
    then decode_v2 (drop 4 buf)
    else if length buf == initial_settings_legacy_size
    then decode_legacy (drop 4 buf)
    else none
