-- ===== src/Sdk/Shared/Bytes.antt =====
-- crates/sdk/src/storage/bytes.rs: `StorageBytes` and `StorageString`. The callers unwrap every
-- result, so an error is a panic here.
pub mod Frame
use fluentbase.Prelude.{
  ℕ, zero, suc, ◌+◌, ◌-◌, ◌*◌, ◌/◌, ◌%◌, ◌^◌, Bool, true, false, Option, none, some, List, [], ◌∷◌,
  ◌++◌, ltb, leb, ◌==◌, ◌&&◌, if◌then◌else◌, length, take, drop, replicate,
}
use fluentbase.Prelude.Bytes.{be_bytes, from_be_bytes}
use fluentbase.Sdk.Host.{Host}
use fluentbase.Sdk.Storage.{pad_word}
use fluentbase.Sdk.Shared.{Call, ◌>>=◌, ◌>>◌, pure, panic, sload, sstore}

-- `usize` of the 32-bit target.
abbrev pub usize_bound : ℕ
usize_bound = 2 ^ 32

-- `read_metadata` on the base word: the length, and whether the data stand in slots of their own.
unfoldable pub metadata_of : ℕ → Option (ℕ × Bool)
metadata_of word =
    let last_byte = word % 256 in
    if last_byte % 2 == 0
    then if ltb 31 (last_byte / 2) then none else some (last_byte / 2, false)
    else if ltb (word / 2) 32
    then none
    else if ltb (word / 2) usize_bound
    then some (word / 2, true)
    else none

-- `usize::div_ceil(32)`
abbrev pub words_of : ℕ → ℕ
words_of len = (len + 31) / 32

module _ (host : Host) where
  unfoldable pub data_slot : ℕ → ℕ → ℕ
  unfolding be_bytes
  data_slot base index = (host.keccak (be_bytes 32 base) + index) % 2 ^ 256

  module _ {E : Type 0} where
    unfoldable pub read_metadata : ℕ → Call E (ℕ × Bool)
    unfolding metadata_of
    read_metadata base = do
      word ← sload base
      elim (metadata_of word) [ some m ↦ pure m | none ↦ panic ]

    write_zeros : ℕ → ℕ → ℕ → Call E (Unit {0})
    write_zeros base index zero = pure tt
    write_zeros base index (suc n) = do
      sstore (data_slot base index) 0
      write_zeros base (index + 1) n

    -- `data.chunks(32)`: `n` chunks, the last one padded with zeros.
    write_chunks : ℕ → ℕ → ℕ → List ℕ → Call E (Unit {0})
    write_chunks base index zero bytes = pure tt
    write_chunks base index (suc n) bytes = do
      sstore (data_slot base index) (from_be_bytes (pad_word (take 32 bytes)))
      write_chunks base (index + 1) n (drop 32 bytes)

    read_chunks : ℕ → ℕ → ℕ → ℕ → Call E (List ℕ)
    read_chunks base index zero len = pure []
    read_chunks base index (suc n) len = do
      word ← sload (data_slot base index)
      rest ← read_chunks base (index + 1) n (len - 32)
      pure (take len (be_bytes 32 word) ++ rest)

    -- The slots of a long value are zeroed.
    unfoldable pub clear_data : ℕ → ℕ × Bool → Call E (Unit {0})
    unfolding write_zeros
    clear_data base (len, is_long) =
        if is_long && ltb 31 len then write_zeros base 0 (words_of len) else pure tt

    load_data : ℕ → ℕ × Bool → Call E (List ℕ)
    load_data base (len, true) = read_chunks base 0 (words_of len) len
    load_data base (len, false) = do word ← sload base; pure (take len (be_bytes 32 word))

    unfoldable pub load : ℕ → Call E (List ℕ)
    unfolding read_metadata load_data read_chunks
    load base = do metadata ← read_metadata base; load_data base metadata

    -- The last byte of the word, which the text leaves zero, is twice the length.
    unfoldable pub write_short : ℕ → List ℕ → Call E (Unit {0})
    write_short base bytes = sstore base (from_be_bytes (pad_word bytes) + length bytes * 2)

    unfoldable pub write_long : ℕ → List ℕ → Call E (Unit {0})
    unfolding write_chunks
    write_long base bytes = do
      write_chunks base 0 (words_of (length bytes)) bytes
      sstore base ((length bytes * 2 + 1) % usize_bound)

    unfoldable pub store : ℕ → List ℕ → Call E (Unit {0})
    unfolding read_metadata clear_data write_short write_long
    store base bytes = do
      old ← read_metadata base
      clear_data base old
      if ltb (length bytes) 32 then write_short base bytes else write_long base bytes

    unfoldable pub clear : ℕ → Call E (Unit {0})
    unfolding read_metadata clear_data
    clear base = do old ← read_metadata base; clear_data base old; sstore base 0
