-- ===== src/Token/Permit/Signature.antt =====
-- The signatures that `ecrecover_address` of contracts/universal-token/src/erc2612.rs accepts.
use fluentbase.Prelude.{ℕ, ◌+◌, ◌≤◌, ◌≡◌, ◌≢◌, some, arith, ◌||◌, ◌==◌, true}
use fluentbase.Sdk.Host.{Host}
use fluentbase.Token.Permit.{secp256k1n_half, recovery_id, recovered_address, ecrecover_address}
use fluentbase.Token.Backing.{IsAddress}

-- A signature that yields a signer has `s` in the lower half of the curve's order and one of the
-- recovery values 0, 1, 27 and 28; the signer is an address other than zero.
pub ecrecover_address-IsAddress :
    (host : Host) (digest v r s signer : ℕ)
    → ecrecover_address host digest v r s ≡ some signer
    → (s ≤ secp256k1n_half)
      × ((v == 0 || v == 1) || (v == 27 || v == 28) ≡ true)
      × (signer ≢ 0)
      × IsAddress signer
unfolding ecrecover_address recovery_id recovered_address
ecrecover_address-IsAddress host digest v r s signer h =
    (ground arith, ground arith, λ z. ground arith, ground arith)

-- The two forms of a recovery value stand for one signature: `v` and `v + 27` yield the same signer.
ecrecover_address-recovery_id :
    (host : Host) (digest v r s : ℕ)
    → v ≤ 1
    → ecrecover_address host digest (v + 27) r s ≡ ecrecover_address host digest v r s
unfolding ecrecover_address recovery_id
ecrecover_address-recovery_id host digest v r s h = ground arith
