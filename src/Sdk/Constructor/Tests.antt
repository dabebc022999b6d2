-- ===== src/Sdk/Constructor/Tests.antt =====
-- crates/sdk/src/constructor.rs on concrete bytes.
use fluentbase.Prelude.{◌≡◌, refl, none, some, List, [], ◌∷◌, ℕ, arith}
use fluentbase.Sdk.Leb128.{write_unsigned, write_loop, low_bits, read_unsigned, read_loop}
use fluentbase.Sdk.Constructor.{
  section_of, with_name_length, encode_wasm_custom_section, encode_constructor_params,
}
use fluentbase.Sdk.Constructor.Section.{
  after_unsigned, read_name, read_contents, read_section, encode_wasm_custom_section-read_section,
}

section_run :
    encode_constructor_params (1 ∷ 2 ∷ 3 ∷ 4 ∷ [])
    ≡ some (0 ∷ 10 ∷ 5 ∷ 0x69 ∷ 0x6e ∷ 0x70 ∷ 0x75 ∷ 0x74 ∷ 1 ∷ 2 ∷ 3 ∷ 4 ∷ [])
unfolding encode_constructor_params encode_wasm_custom_section with_name_length section_of
    write_unsigned write_loop low_bits
section_run = refl

-- A byte too many after the contents is refused.
stray_run : read_section (0 ∷ 3 ∷ 1 ∷ 0x69 ∷ 7 ∷ 8 ∷ []) ≡ none
unfolding read_section read_contents read_name after_unsigned read_unsigned read_loop low_bits
stray_run = refl

encode_wasm_custom_section-read_section_example :
    (section : List ℕ) × (encode_wasm_custom_section (0x69 ∷ 0x6e ∷ []) (1 ∷ 2 ∷ 3 ∷ [])
      ≡ some section)
    × (read_section section ≡ some (0x69 ∷ 0x6e ∷ [], 1 ∷ 2 ∷ 3 ∷ []))
encode_wasm_custom_section-read_section_example =
    encode_wasm_custom_section-read_section (0x69 ∷ 0x6e ∷ []) (1 ∷ 2 ∷ 3 ∷ []) (omega arith)
