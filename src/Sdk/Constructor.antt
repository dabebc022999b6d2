-- ===== src/Sdk/Constructor.antt =====
-- crates/sdk/src/constructor.rs: constructor parameters as a custom section of a wasm module.
pub mod Section
pub mod Tests
use fluentbase.Prelude.{ℕ, ◌+◌, ◌%◌, ◌^◌, Option, none, some, List, [], ◌∷◌, ◌++◌, length}
use fluentbase.Sdk.Leb128.{write_unsigned}

-- The section once the two lengths are written.
unfoldable pub section_of : List ℕ → List ℕ → List ℕ → List ℕ → List ℕ
section_of content_length name_length name payload =
    0 ∷ (content_length ++ (name_length ++ (name ++ payload)))

unfoldable pub with_name_length : List ℕ → List ℕ → List ℕ → Option (List ℕ)
with_name_length name payload name_length =
    elim (write_unsigned ((length name_length + length name + length payload) % 2 ^ 64)) [
      | none ↦ none
      | some content_length ↦ some (section_of content_length name_length name payload)
    ]

unfoldable pub encode_wasm_custom_section : List ℕ → List ℕ → Option (List ℕ)
encode_wasm_custom_section name payload = elim (write_unsigned (length name % 2 ^ 64)) [
  | none ↦ none
  | some name_length ↦ with_name_length name payload name_length
]

-- `encode_constructor_params`, with the name "input".
unfoldable pub encode_constructor_params : List ℕ → Option (List ℕ)
encode_constructor_params payload =
    encode_wasm_custom_section (0x69 ∷ 0x6e ∷ 0x70 ∷ 0x75 ∷ 0x74 ∷ []) payload
