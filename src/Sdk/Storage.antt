-- ===== src/Sdk/Storage.antt =====
-- Typed storage: `StorageMap` and `StorageU256` of crates/sdk/src/storage, and `StorageUtils` of
-- crates/sdk/src/types/storage.rs.
use fluentbase.Prelude.{
  ℕ, ◌-◌, ◌%◌, ◌^◌, not, List, [], ◌∷◌, ◌++◌, ltb, ◌==◌, if◌then◌else◌, length, replicate,
}
use fluentbase.Prelude.Bytes.{be_bytes, from_be_bytes}
use fluentbase.Types.ExitCode.{ExitCode}
use fluentbase.Sdk.Host.{Host}
use fluentbase.Sdk.Result.{M, ok, abort, ◌>>=◌, ◌>>◌, pure, fail_if}
use fluentbase.Sdk.System

-- `StoragePrimitive::<U256>::get_checked` and `set_checked`: a full-width value fills its word, so
-- `read_at` and `write_at` at offset 0 are one `sload` and one `sstore`.
unfoldable pub get_checked : ℕ → M ℕ
unfolding System.storage
get_checked slot = System.storage slot

unfoldable pub set_checked : ℕ → ℕ → M (Unit {0})
unfolding System.write_storage
set_checked slot value = System.write_storage slot value

-- `StoragePrimitive::<U256>::get`, which unwraps.
unfoldable pub get : ℕ → M ℕ
unfolding get_checked
get slot s = let (r, s') = get_checked slot s in elim r [ ok v ↦ (ok v, s') | _ ↦ (abort, s') ]

-- `Address::from_word`: the last 20 bytes.
unfoldable pub storage_address : ℕ → M ℕ
unfolding System.storage
storage_address slot = do value ← System.storage slot; pure (value % 2 ^ 160)

unfoldable pub write_storage_address : ℕ → ℕ → M (Unit {0})
unfolding System.write_storage
write_storage_address slot value = System.write_storage slot value

-- The bytes in front of the first zero.
unfoldable pub until_zero : List ℕ → List ℕ
until_zero [] = []
until_zero (b ∷ bs) = if b == 0 then [] else b ∷ until_zero bs

-- `bytes32[..value.len()].copy_from_slice(value)` over a zeroed word.
unfoldable pub pad_word : List ℕ → List ℕ
pad_word bytes = bytes ++ replicate (32 - length bytes) 0

unfoldable pub write_storage_short_string : ℕ → List ℕ → M (Unit {0})
unfolding System.write_storage pad_word from_be_bytes
write_storage_short_string slot value = do
  fail_if (ltb 32 (length value)) ExitCode.malformed_builtin_params
  System.write_storage slot (from_be_bytes (pad_word value))

module _ (host : Host) where
  -- `MapKey::compute_slot` of a right-aligned key: `keccak256(h(key) || base_slot)`.
  unfoldable pub compute_slot : ℕ → ℕ → ℕ
  unfolding be_bytes
  compute_slot key base_slot = host.keccak (be_bytes 32 key ++ be_bytes 32 base_slot)

  unfoldable pub storage_short_string : ℕ → M (List ℕ)
  unfolding System.storage until_zero be_bytes
  storage_short_string slot = do
    value ← System.storage slot
    let text = until_zero (be_bytes 32 value)
    fail_if (not (host.valid_utf8 text)) ExitCode.malformed_builtin_params
    pure text
