-- ===== src/Token/Settings/RoundTrip.antt =====
-- The payload of a creation (crates/sdk/src/universal_token/storage.rs) decodes to the settings that it
-- was encoded from.
use fluentbase.Prelude.{
  ℕ, ◌+◌, ◌^◌, ◌<◌, ◌≡◌, refl, sym, ap, ◌∙◌, Bool, none, some, List, [], ◌++◌, arith, Option-cases,
  inl, inr, length, length-append,
}
use mathlib.Core.List.{append_assoc, append-nil}
use fluentbase.Prelude.Bytes.{bytes_eq}
use fluentbase.Codec.{
  decode_uint, decode_address, decode_bytes32, decode_u8, decode_bool, encode_word, encode_u8,
  encode_bool,
}
use fluentbase.Codec.RoundTrip.{
  decode_uint-after, decode_bytes32-after, decode_address-after, decode_u8-after, decode_bool-after,
  decode_bytes32-here, decode_uint-encode_word, decode_address-encode_word, decode_u8-encode_u8,
  decode_bool-encode_bool, length-encode_word, length-encode_u8, length-encode_bool,
}
use fluentbase.Token.Settings.{
  InitialSettings, encode_v1, encode_with_prefix, decode_v1, decode_v2, decode_with_prefix,
  magic_bytes,
}

-- What the fields of the Rust struct can hold: two strings of 32 bytes, a byte, a word and two
-- addresses.
pub record IsTyped (s : InitialSettings) : Type 0 where
  pub token_name : length s.token_name ≡ 32
  pub token_symbol : length s.token_symbol ≡ 32
  pub initial_supply : s.initial_supply < 2 ^ 256
  pub minter : s.minter < 2 ^ 160
  pub pauser : s.pauser < 2 ^ 160

-- The words of the settings, with what follows them.
abbrev words : InitialSettings → List ℕ → List ℕ
words s tail =
    s.token_name
    ++ (s.token_symbol
        ++ (encode_u8 s.decimals
            ++ (encode_word s.initial_supply
                ++ (encode_word s.minter ++ (encode_word s.pauser ++ tail)))))

encode_v1-words : (s : InitialSettings) (tail : List ℕ) → encode_v1 s ++ tail ≡ words s tail
unfolding encode_v1
encode_v1-words s tail = simp append_assoc refl

encode_v1-alone : (s : InitialSettings) → encode_v1 s ≡ words s []
encode_v1-alone s = sym (append-nil (encode_v1 s)) ∙ encode_v1-words s []

module _ (s : InitialSettings) (h : IsTyped s) (tail : List ℕ) where
  decimals_length : length (encode_u8 s.decimals) ≡ 32
  decimals_length = length-encode_u8 s.decimals

  supply_length : length (encode_word s.initial_supply) ≡ 32
  supply_length = length-encode_word s.initial_supply

  minter_length : length (encode_word s.minter) ≡ 32
  minter_length = length-encode_word s.minter

  pauser_length : length (encode_word s.pauser) ≡ 32
  pauser_length = length-encode_word s.pauser

  token_symbol_lem : decode_bytes32 (words s tail) 32 ≡ some s.token_symbol
  token_symbol_lem =
      decode_bytes32-after s.token_name _ 32 0 h.token_name
      ∙ decode_bytes32-here s.token_symbol _ h.token_symbol

  decimals_lem : decode_u8 (words s tail) 64 ≡ some s.decimals
  decimals_lem =
      decode_u8-after s.token_name _ 32 32 h.token_name
      ∙ decode_u8-after s.token_symbol _ 32 0 h.token_symbol
      ∙ decode_u8-encode_u8 s.decimals _

  supply_lem : decode_uint (words s tail) 96 ≡ some s.initial_supply
  supply_lem =
      decode_uint-after s.token_name _ 32 64 h.token_name
      ∙ decode_uint-after s.token_symbol _ 32 32 h.token_symbol
      ∙ decode_uint-after (encode_u8 s.decimals) _ 32 0 decimals_length
      ∙ decode_uint-encode_word s.initial_supply _ h.initial_supply

  minter_lem : decode_address (words s tail) 128 ≡ some s.minter
  minter_lem =
      decode_address-after s.token_name _ 32 96 h.token_name
      ∙ decode_address-after s.token_symbol _ 32 64 h.token_symbol
      ∙ decode_address-after (encode_u8 s.decimals) _ 32 32 decimals_length
      ∙ decode_address-after (encode_word s.initial_supply) _ 32 0 supply_length
      ∙ decode_address-encode_word s.minter _ h.minter

  pauser_lem : decode_address (words s tail) 160 ≡ some s.pauser
  pauser_lem =
      decode_address-after s.token_name _ 32 128 h.token_name
      ∙ decode_address-after s.token_symbol _ 32 96 h.token_symbol
      ∙ decode_address-after (encode_u8 s.decimals) _ 32 64 decimals_length
      ∙ decode_address-after (encode_word s.initial_supply) _ 32 32 supply_length
      ∙ decode_address-after (encode_word s.minter) _ 32 0 minter_length
      ∙ decode_address-encode_word s.pauser _ h.pauser

  wrapped_lem : decode_bool (words s tail) 192 ≡ decode_bool tail 0
  wrapped_lem =
      decode_bool-after s.token_name _ 32 160 h.token_name
      ∙ decode_bool-after s.token_symbol _ 32 128 h.token_symbol
      ∙ decode_bool-after (encode_u8 s.decimals) _ 32 96 decimals_length
      ∙ decode_bool-after (encode_word s.initial_supply) _ 32 64 supply_length
      ∙ decode_bool-after (encode_word s.minter) _ 32 32 minter_length
      ∙ decode_bool-after (encode_word s.pauser) _ 32 0 pauser_length

  length-words : length (words s tail) ≡ 192 + length tail
  length-words = grind (arith, length-append, length-encode_u8, length-encode_word, h)

  decode_v1-words : decode_v1 (words s tail) ≡ some (record s { wrapped = none })
  unfolding decode_v1
  decode_v1-words =
      rw
        (
          decode_bytes32-here s.token_name _ h.token_name,
          token_symbol_lem,
          decimals_lem,
          supply_lem,
          minter_lem,
          pauser_lem,
        )
        refl

decode_with_prefix-v1 :
    (words : List ℕ)
    → length words ≡ 192
    → decode_with_prefix (magic_bytes ++ words) ≡ decode_v1 words
unfolding decode_with_prefix bytes_eq
decode_with_prefix-v1 words e = ground (arith, e)

decode_with_prefix-v2 :
    (words : List ℕ)
    → length words ≡ 224
    → decode_with_prefix (magic_bytes ++ words) ≡ decode_v2 words
unfolding decode_with_prefix bytes_eq
decode_with_prefix-v2 words e = ground (arith, e)

-- Without the flag the payload has the first version's size, with it the second's.
without_flag :
    (s : InitialSettings)
    → IsTyped s
    → s.wrapped ≡ none
    → decode_with_prefix (encode_with_prefix s) ≡ some (record s { wrapped = none })
unfolding encode_with_prefix
without_flag s h e =
    let payload : encode_with_prefix s ≡ magic_bytes ++ words s [] =
      let a = encode_v1-alone s in ground (arith, e, a) in
    ap decode_with_prefix payload
    ∙ decode_with_prefix-v1 (words s []) (length-words s h [])
    ∙ decode_v1-words s h []

with_flag :
    (s : InitialSettings) (b : Bool)
    → IsTyped s
    → s.wrapped ≡ some b
    → decode_with_prefix (encode_with_prefix s) ≡ some (record s { wrapped = some b })
unfolding encode_with_prefix decode_v2
with_flag s b h e =
    let tail = encode_bool b in
    let payload : encode_with_prefix s ≡ magic_bytes ++ words s tail =
      let a = encode_v1-words s tail in ground (arith, e, a) in
    let flag : decode_bool (words s tail) 192 ≡ some b =
      wrapped_lem s h tail
      ∙ ap (λ l. decode_bool l 0) (sym (append-nil tail))
      ∙ decode_bool-encode_bool b [] in
    ap decode_with_prefix payload
    ∙ decode_with_prefix-v2 (words s tail)
        (length-words s h tail ∙ ap (λ n. 192 + n) (length-encode_bool b))
    ∙ rw (decode_v1-words s h tail, flag) refl

-- A prefixed payload of settings that the struct can hold, with or without the flag of a wrapped
-- token, decodes to the settings that it encodes.
pub decode_with_prefix-encode_with_prefix :
    (s : InitialSettings) → IsTyped s → decode_with_prefix (encode_with_prefix s) ≡ some s
decode_with_prefix-encode_with_prefix s h = elim (Option-cases s.wrapped) [
  | inl e ↦ without_flag s h e ∙ ap (λ w. some (record s { wrapped = w })) (sym e)
  | inr (b, e) ↦ with_flag s b h e ∙ ap (λ w. some (record s { wrapped = w })) (sym e)
]
