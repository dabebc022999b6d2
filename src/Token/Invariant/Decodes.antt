-- ===== src/Token/Invariant/Decodes.antt =====
-- The arguments of the methods of contracts/universal-token/src/lib.rs: a call that succeeds has decoded
-- them, and the addresses among them are addresses.
use fluentbase.Prelude.{ℕ, ◌≡◌, ◌≢◌, List, arith, none, some, All, Option-cases, inl, inr}
use fluentbase.Prelude.Bytes.{IsByte}
use fluentbase.Codec.Bounds.{decode_address-lt}
use fluentbase.Sdk.Host.{Host}
use fluentbase.Sdk.State.{System}
use fluentbase.Sdk.Result.{ok}
use fluentbase.Token.Command.{
  TransferCommand, TransferFromCommand, ApproveCommand, MintCommand, BurnCommand, WithdrawCommand,
  PermitCommand, decode_transfer, decode_transfer_from, decode_approve, decode_mint, decode_burn,
  decode_withdraw, decode_permit,
}
use fluentbase.Token.Guards.{when_non_payable, when_non_static}
use fluentbase.Token.Erc20.{transfer, transfer_from, approve}
use fluentbase.Token.Supply.{mint, burn, withdraw}
use fluentbase.Token.Permit.{permit}
use fluentbase.Token.Backing.{IsAddress}
use fluentbase.Token.Ledger.{frozen_exit, wrapped_exit, address_exit}

pub decode_transfer_to :
    (input : List ℕ) (c : TransferCommand)
    → All IsByte input
    → decode_transfer input ≡ some c
    → IsAddress c.to
unfolding decode_transfer
decode_transfer_to input c b e = grind (arith, decode_address-lt)

pub decode_transfer_from_from :
    (input : List ℕ) (c : TransferFromCommand)
    → All IsByte input
    → decode_transfer_from input ≡ some c
    → IsAddress c.from
unfolding decode_transfer_from
decode_transfer_from_from input c b e = grind (arith, decode_address-lt)

pub decode_transfer_from_to :
    (input : List ℕ) (c : TransferFromCommand)
    → All IsByte input
    → decode_transfer_from input ≡ some c
    → IsAddress c.to
unfolding decode_transfer_from
decode_transfer_from_to input c b e = grind (arith, decode_address-lt)

pub decode_approve_spender :
    (input : List ℕ) (c : ApproveCommand)
    → All IsByte input
    → decode_approve input ≡ some c
    → IsAddress c.spender
unfolding decode_approve
decode_approve_spender input c b e = grind (arith, decode_address-lt)

pub decode_mint_to :
    (input : List ℕ) (c : MintCommand)
    → All IsByte input
    → decode_mint input ≡ some c
    → IsAddress c.to
unfolding decode_mint
decode_mint_to input c b e = grind (arith, decode_address-lt)

pub decode_burn_from :
    (input : List ℕ) (c : BurnCommand)
    → All IsByte input
    → decode_burn input ≡ some c
    → IsAddress c.from
unfolding decode_burn
decode_burn_from input c b e = grind (arith, decode_address-lt)

pub decode_permit_owner :
    (input : List ℕ) (c : PermitCommand)
    → All IsByte input
    → decode_permit input ≡ some c
    → IsAddress c.owner
unfolding decode_permit
decode_permit_owner input c b e = grind (arith, decode_address-lt)

pub decode_permit_spender :
    (input : List ℕ) (c : PermitCommand)
    → All IsByte input
    → decode_permit input ≡ some c
    → IsAddress c.spender
unfolding decode_permit
decode_permit_spender input c b e = grind (arith, decode_address-lt)

module _ (host : Host) (input : List ℕ) (s : System) where
  transfer-none : (decode_transfer input ≡ none) → (transfer host input s).0 ≢ ok 0
  unfolding transfer when_non_payable when_non_static
  transfer-none e h = grind (arith, frozen_exit)

  pub transfer-decodes :
      (transfer host input s).0 ≡ ok 0 → (c : TransferCommand) × (decode_transfer input ≡ some c)
  transfer-decodes h = elim (Option-cases (decode_transfer input)) [
    | inl e ↦ absurd (transfer-none e h)
    | inr found ↦ found
  ]

  transfer_from-none : (decode_transfer_from input ≡ none) → (transfer_from host input s).0 ≢ ok 0
  unfolding transfer_from when_non_payable when_non_static
  transfer_from-none e h = grind (arith, frozen_exit)

  pub transfer_from-decodes :
      (transfer_from host input s).0 ≡ ok 0
      → (c : TransferFromCommand) × (decode_transfer_from input ≡ some c)
  transfer_from-decodes h = elim (Option-cases (decode_transfer_from input)) [
    | inl e ↦ absurd (transfer_from-none e h)
    | inr found ↦ found
  ]

  approve-none : (decode_approve input ≡ none) → (approve host input s).0 ≢ ok 0
  unfolding approve when_non_payable when_non_static
  approve-none e h = grind arith

  pub approve-decodes :
      (approve host input s).0 ≡ ok 0 → (c : ApproveCommand) × (decode_approve input ≡ some c)
  approve-decodes h = elim (Option-cases (decode_approve input)) [
    | inl e ↦ absurd (approve-none e h)
    | inr found ↦ found
  ]

  mint-none : (decode_mint input ≡ none) → (mint host input s).0 ≢ ok 0
  unfolding mint when_non_payable when_non_static
  mint-none e h = grind (arith, frozen_exit, address_exit)

  pub mint-decodes : (mint host input s).0 ≡ ok 0 → (c : MintCommand) × (decode_mint input ≡ some c)
  mint-decodes h = elim (Option-cases (decode_mint input)) [
    | inl e ↦ absurd (mint-none e h)
    | inr found ↦ found
  ]

  burn-none : (decode_burn input ≡ none) → (burn host input s).0 ≢ ok 0
  unfolding burn when_non_payable when_non_static
  burn-none e h = grind (arith, frozen_exit, address_exit)

  pub burn-decodes : (burn host input s).0 ≡ ok 0 → (c : BurnCommand) × (decode_burn input ≡ some c)
  burn-decodes h = elim (Option-cases (decode_burn input)) [
    | inl e ↦ absurd (burn-none e h)
    | inr found ↦ found
  ]

  withdraw-none : (decode_withdraw input ≡ none) → (withdraw host input s).0 ≢ ok 0
  unfolding withdraw when_non_payable when_non_static
  withdraw-none e h = grind (arith, frozen_exit, wrapped_exit)

  pub withdraw-decodes :
      (withdraw host input s).0 ≡ ok 0 → (c : WithdrawCommand) × (decode_withdraw input ≡ some c)
  withdraw-decodes h = elim (Option-cases (decode_withdraw input)) [
    | inl e ↦ absurd (withdraw-none e h)
    | inr found ↦ found
  ]

  permit-none : (decode_permit input ≡ none) → (permit host input s).0 ≢ ok 0
  unfolding permit when_non_payable when_non_static
  permit-none e h = grind arith

  pub permit-decodes :
      (permit host input s).0 ≡ ok 0 → (c : PermitCommand) × (decode_permit input ≡ some c)
  permit-decodes h = elim (Option-cases (decode_permit input)) [
    | inl e ↦ absurd (permit-none e h)
    | inr found ↦ found
  ]
