-- ===== src/Token/Effects/Permit.antt =====
-- What `permit` of contracts/universal-token/src/lib.rs and the functions of
-- contracts/universal-token/src/erc2612.rs ask for and leave in the storage.
use fluentbase.Prelude.{
  ℕ, ◌+◌, ◌^◌, ◌≤◌, ◌<◌, ◌≡◌, ◌≢◌, false, some, List, ◌==◌, if◌then◌else◌, arith, ◌++◌, ◌∷◌,
}
use fluentbase.Prelude.Bytes.{be_bytes}
use fluentbase.Token.Consts.{name_storage_slot, eip712_domain_typehash, eip2612_version_hash}
use fluentbase.Types.Journal.Overlay.{peek_laws}
use fluentbase.Sdk.Host.{Host}
use fluentbase.Sdk.State.{System}
use fluentbase.Sdk.Result.{ok, ret}
use fluentbase.Sdk.Storage.{get, storage_short_string, until_zero}
use fluentbase.Token.Command.{PermitCommand, decode_permit}
use fluentbase.Token.Guards.{when_non_payable, allowance_slot, nonce_slot}
use fluentbase.Token.Permit.{
  permit_digest, domain_separator_value, permit_hash, nonce_get, nonce_set, permit,
  ecrecover_address,
}
use fluentbase.Token.Ledger.{slot_value, set_two, set_lem}
use fluentbase.Token.Ledger.Emits.{emit_laws}

module _ (host : Host) where
  -- The digest that EIP-712 asks the owner to sign, for the name that the storage holds.
  abbrev pub digest_of : System → PermitCommand → ℕ → ℕ
  digest_of s c nonce =
      let token_name = until_zero (be_bytes 32 (slot_value s name_storage_slot)) in
      let separator = host.keccak (
        be_bytes 32 eip712_domain_typehash
        ++ (be_bytes 32 (host.keccak token_name)
            ++ (be_bytes 32 eip2612_version_hash
                ++ (be_bytes 32 s.context.chain_id ++ be_bytes 32 s.context.address)))) in
      host.keccak (
        0x19 ∷ 0x01 ∷ be_bytes 32 separator
        ++ be_bytes 32 (permit_hash host c.owner c.spender c.value nonce c.deadline))

  nonce_lem :
      (owner n : ℕ) (s : System)
      → (nonce_get host owner s).0 ≡ ok n
      → (slot_value s (nonce_slot host owner) ≡ n)
        × ((nonce_get host owner s).1.context ≡ s.context)
        × ((k : ℕ) → slot_value (nonce_get host owner s).1 k ≡ slot_value s k)
  unfolding nonce_get get slot_value
  nonce_lem owner n s h =
      (grind (arith, peek_laws), grind (arith, peek_laws), λ k. grind (arith, peek_laws))

  nonce_exit : (owner : ℕ) (s : System) → (nonce_get host owner s).0 ≢ ret 0
  unfolding nonce_get get
  nonce_exit owner s h = grind arith

  nonce_set_lem :
      (owner n : ℕ) (s : System)
      → ((nonce_set host owner n s).0 ≡ ok tt)
        × ((k : ℕ)
            → slot_value (nonce_set host owner n s).1 k
              ≡ (if nonce_slot host owner == k then n else slot_value s k))
  unfolding nonce_set
  nonce_set_lem owner n s = grind (arith, set_lem)

  name_lem :
      (text : List ℕ) (s : System)
      → (storage_short_string host name_storage_slot s).0 ≡ ok text
      → (text ≡ until_zero (be_bytes 32 (slot_value s name_storage_slot)))
        × ((storage_short_string host name_storage_slot s).1.context ≡ s.context)
        × ((k : ℕ)
            → slot_value (storage_short_string host name_storage_slot s).1 k ≡ slot_value s k)
  unfolding storage_short_string slot_value
  name_lem text s h =
      (grind (arith, peek_laws), grind (arith, peek_laws), λ k. grind (arith, peek_laws))

  name_exit : (s : System) → (storage_short_string host name_storage_slot s).0 ≢ ret 0
  unfolding storage_short_string
  name_exit s h = grind arith

  digest_lem :
      (c : PermitCommand) (nonce d : ℕ) (s : System)
      → (permit_digest host c.owner c.spender c.value nonce c.deadline s).0 ≡ ok d
      → let m = permit_digest host c.owner c.spender c.value nonce c.deadline s in
        (digest_of s c nonce ≡ d)
        × (m.1.context ≡ s.context)
        × ((k : ℕ) → slot_value m.1 k ≡ slot_value s k)
  unfolding permit_digest domain_separator_value
  digest_lem c nonce d s h =
      let text = until_zero (be_bytes 32 (slot_value s name_storage_slot)) in
      let read : (storage_short_string host name_storage_slot s).0 ≡ ok text =
        grind (arith, name_lem) in
      let (_, context, kept) = name_lem text s read in
      (grind (arith, name_lem), grind (arith, read, context), λ k. grind (arith, read, kept))

  digest_exit :
      (owner spender value nonce deadline : ℕ) (s : System)
      → (permit_digest host owner spender value nonce deadline s).0 ≢ ret 0
  unfolding permit_digest domain_separator_value
  digest_exit owner spender value nonce deadline s h = grind (arith, name_exit)

  ruleset exits = (nonce_exit, digest_exit)

  permit_nonce :
      (input : List ℕ) (c : PermitCommand) (s : System)
      → decode_permit input ≡ some c
      → (permit host input s).0 ≡ ok 0
      → (nonce_get host c.owner s).0 ≡ ok (slot_value s (nonce_slot host c.owner))
  unfolding permit when_non_payable
  permit_nonce input c s e h = grind (arith, exits, nonce_lem)

  permit_digest_ok :
      (input : List ℕ) (c : PermitCommand) (s : System)
      → decode_permit input ≡ some c
      → (permit host input s).0 ≡ ok 0
      → let nonce = slot_value s (nonce_slot host c.owner) in
        let s1 = (nonce_get host c.owner s).1 in
        (permit_digest host c.owner c.spender c.value nonce c.deadline s1).0
        ≡ ok (digest_of s1 c nonce)
  unfolding permit when_non_payable
  permit_digest_ok input c s e h =
      let got = permit_nonce input c s e h in grind (arith, exits, digest_lem)

  pub permit-slot_value :
      (input : List ℕ) (c : PermitCommand) (s : System)
      → decode_permit input ≡ some c
      → (permit host input s).0 ≡ ok 0
      → let nonce = slot_value s (nonce_slot host c.owner) in
        (s.context.value ≡ 0)
        × (s.context.is_static ≡ false)
        × (s.context.timestamp ≤ c.deadline)
        × (ecrecover_address host (digest_of s c nonce) c.v c.r c.s ≡ some c.owner)
        × (nonce + 1 < 2 ^ 256)
        × ((k : ℕ)
            → slot_value (permit host input s).1 k
              ≡ set_two
                  (allowance_slot host c.owner c.spender)
                  c.value
                  (nonce_slot host c.owner)
                  (nonce + 1)
                  (slot_value s)
                  k)
  unfolding permit when_non_payable
  permit-slot_value input c s e h =
      let nonce = slot_value s (nonce_slot host c.owner) in
      let s1 = (nonce_get host c.owner s).1 in
      let got = permit_nonce input c s e h in
      let signed = permit_digest_ok input c s e h in
      let (_, context, kept) = nonce_lem c.owner nonce s got in
      let (_, context', kept') = digest_lem c nonce (digest_of s1 c nonce) s1 signed in
      let same : digest_of s1 c nonce ≡ digest_of s c nonce =
        grind (arith, context, kept name_storage_slot) in
      (
        grind (arith, exits),
        grind (arith, exits),
        grind (arith, exits),
        grind (arith, exits, got, signed, same),
        grind (arith, exits, got, signed, set_lem),
        λ k. grind (arith, got, signed, kept, kept', nonce_set_lem, set_lem, emit_laws),
      )
