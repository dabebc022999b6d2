-- ===== src/Token/Permit.antt =====
-- contracts/universal-token/src/erc2612.rs, and `permit` of contracts/universal-token/src/lib.rs.
pub mod Signature
use fluentbase.Prelude.{
  ℕ, ◌-◌, ◌%◌, ◌^◌, not, Option, none, some, List, ◌∷◌, ◌++◌, ltb, ◌==◌, ◌||◌, if◌then◌else◌,
}
use fluentbase.Prelude.Bytes.{be_bytes}
use fluentbase.Types.ExitCode.{ExitCode}
use fluentbase.Sdk.Host.{Host}
use fluentbase.Sdk.Result.{
  M, ◌>>=◌, ◌>>◌, pure, gets, ok_or, fail_if, return_if, some_or_return, body,
}
use fluentbase.Sdk.Storage.{get, set_checked, storage_short_string}
use fluentbase.Token.Consts.{
  name_storage_slot, eip712_domain_typehash, eip2612_permit_typehash, eip2612_version_hash,
  err_ust_expired_deadline, err_ust_invalid_signature,
}
use fluentbase.Token.Command.{decode_permit}
use fluentbase.Token.Guards.{
  checked_add, when_non_payable, emit_approval, allowance_slot, nonce_slot,
}

abbrev pub secp256k1n_half : ℕ
secp256k1n_half = 0x7fffffffffffffffffffffffffffffff5d576e7357a4501ddfe92f46681b20a0

-- `match v { 27 | 28 => v - 27, 0 | 1 => v, _ => return None }`
unfoldable pub recovery_id : ℕ → Option ℕ
recovery_id v =
    if v == 27 || v == 28 then some (v - 27) else if v == 0 || v == 1 then some v else none

module _ (host : Host) where
  unfoldable pub nonce_get : ℕ → M ℕ
  nonce_get owner = get (nonce_slot host owner)

  unfoldable pub nonce_set : ℕ → ℕ → M (Unit {0})
  nonce_set owner nonce = set_checked (nonce_slot host owner) nonce

  unfoldable pub domain_separator_value : M ℕ
  domain_separator_value = do
    token_name ← storage_short_string host name_storage_slot
    context ← gets (λ s. s.context)
    pure (
        host.keccak (
          be_bytes 32 eip712_domain_typehash
          ++ (be_bytes 32 (host.keccak token_name)
              ++ (be_bytes 32 eip2612_version_hash
                  ++ (be_bytes 32 context.chain_id ++ be_bytes 32 context.address)))))

  unfoldable pub permit_hash : ℕ → ℕ → ℕ → ℕ → ℕ → ℕ
  permit_hash owner spender value nonce deadline = host.keccak (
      be_bytes 32 eip2612_permit_typehash
      ++ (be_bytes 32 owner
          ++ (be_bytes 32 spender
              ++ (be_bytes 32 value ++ (be_bytes 32 nonce ++ be_bytes 32 deadline)))))

  unfoldable pub permit_digest : ℕ → ℕ → ℕ → ℕ → ℕ → M ℕ
  permit_digest owner spender value nonce deadline = do
    domain_separator ← domain_separator_value
    pure (
        host.keccak (
          0x19 ∷ 0x01 ∷ be_bytes 32 domain_separator
          ++ be_bytes 32 (permit_hash owner spender value nonce deadline)))

  -- `recovered[12..32]`, unless that is the zero address.
  unfoldable pub recovered_address : Option ℕ → Option ℕ
  recovered_address none = none
  recovered_address (some word) = if word % 2 ^ 160 == 0 then none else some (word % 2 ^ 160)

  unfoldable pub ecrecover_address : ℕ → ℕ → ℕ → ℕ → Option ℕ
  unfolding recovery_id recovered_address
  ecrecover_address digest v r s = if ltb secp256k1n_half s then none else elim (recovery_id v) [
    | some rec_id ↦
        recovered_address (host.ecrecover (be_bytes 32 r ++ be_bytes 32 s) rec_id digest)
    | none ↦ none
  ]

  unfoldable pub permit : List ℕ → M ℕ
  permit input = body do
    when_non_payable
    is_static ← gets (λ s. s.context.is_static)
    fail_if is_static ExitCode.state_change_during_static_call
    command ← ok_or (decode_permit input) ExitCode.malformed_builtin_params
    now ← gets (λ s. s.context.timestamp)
    return_if (ltb command.deadline now) err_ust_expired_deadline
    nonce ← nonce_get command.owner
    digest ← permit_digest command.owner command.spender command.value nonce command.deadline
    recovered ←
        some_or_return (ecrecover_address digest command.v command.r command.s)
          err_ust_invalid_signature
    return_if (not (recovered == command.owner)) err_ust_invalid_signature
    set_checked (allowance_slot host command.owner command.spender) command.value
    next_nonce ← ok_or (checked_add nonce 1) ExitCode.integer_overflow
    nonce_set command.owner next_nonce
    emit_approval command.owner command.spender command.value
    pure 0
