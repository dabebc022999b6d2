-- ===== src/Revm/Metadata.antt =====
-- crates/evm/src/metadata.rs: the metadata of an account of the EVM runtime, with its code. revm's
-- analysis of code and the encoding of its result are parameters.
use fluentbase.Prelude.{ℕ, Option, none, some, List, ltb, ◌==◌, length, take, drop, if◌then◌else◌}
use fluentbase.Prelude.Bytes.{from_be_bytes}
use mathlib.Core.Option

-- The fields of `LegacyBytecode` and of `AnalyzedBytecode` that are read here.
pub data EthereumMetadata : Type 0 where
  legacy : ℕ → List ℕ → EthereumMetadata
  analyzed : List ℕ → ℕ → ℕ → EthereumMetadata

-- `EthereumMetadata::read_from_bytes`; `deserialize` is that of `AnalyzedBytecode`, which answers the
-- padded code, its length without the padding and its hash. A failure of it is a panic, `none` of
-- the inner option.
unfoldable pub read_from_bytes :
    (List ℕ → Option (List ℕ × ℕ × ℕ)) → List ℕ → Option (Option EthereumMetadata)
read_from_bytes deserialize metadata =
    if ltb (length metadata) 32
    then none
    else if from_be_bytes (take 32 metadata) == 1
    then some (
        Option.map (λ (c : List ℕ × ℕ × ℕ). EthereumMetadata.analyzed c.0 c.1 c.2)
          (deserialize (drop 32 metadata)))
    else some (some (EthereumMetadata.legacy (from_be_bytes (take 32 metadata)) (drop 32 metadata)))

unfoldable pub code_size : EthereumMetadata → ℕ
code_size (EthereumMetadata.legacy hash bytecode) = length bytecode
code_size (EthereumMetadata.analyzed bytecode len hash) = len

unfoldable pub code_hash : EthereumMetadata → ℕ
code_hash (EthereumMetadata.legacy hash bytecode) = hash
code_hash (EthereumMetadata.analyzed bytecode len hash) = hash

unfoldable pub code_copy : EthereumMetadata → List ℕ
code_copy (EthereumMetadata.legacy hash bytecode) = bytecode
code_copy (EthereumMetadata.analyzed bytecode len hash) = take len bytecode
