-- ===== src/Sdk/Host.antt =====
-- What the contracts use of code that the repository does not hold: the hash of
-- `fluentbase_crypto::crypto_keccak256` (the crate `tiny-keccak` or a host call), UTF-8 validation
-- of `core::str`, and `revm_precompile::secp256k1::ecrecover`.
use fluentbase.Prelude.{ℕ, Bool, Option, List}

pub record Host : Type 0 where
  -- the 32-byte hash as a big-endian number
  pub keccak : List ℕ → ℕ
  pub valid_utf8 : List ℕ → Bool
  -- signature bytes, recovery id and digest to the recovered 32-byte word
  pub ecrecover : List ℕ → ℕ → ℕ → Option ℕ
