-- ===== src/Token/Invariant/Moves.antt =====
-- `transfer`, `transferFrom`, `approve`, `permit`, `pause` and `unpause` of contracts/universal-token/src/lib.rs keep the supply backed.
use fluentbase.Prelude.{ℕ, ◌≤◌, ◌≡◌, true, some, List, ◌==◌, arith, ◌∙◌, sym}
use fluentbase.Sdk.Host.{Host}
use fluentbase.Sdk.State.{System}
use fluentbase.Sdk.Result.{ok}
use fluentbase.Token.Consts.{total_supply_storage_slot}
use fluentbase.Token.Command.{
  TransferCommand, TransferFromCommand, ApproveCommand, PermitCommand, decode_transfer,
  decode_transfer_from, decode_approve, decode_permit,
}
use fluentbase.Token.Guards.{balance_slot, allowance_slot}
use fluentbase.Token.Erc20.{transfer, transfer_from, approve}
use fluentbase.Token.Pause.{pause, unpause}
use fluentbase.Token.Permit.{permit}
use fluentbase.Token.Ledger.{slot_value, moved, spent}
use fluentbase.Token.Effects.Transfer.{
  transfer-slot_value, transfer_from-slot_value, approve-slot_value,
}
use fluentbase.Token.Effects.Pause.{pause-slot_value, unpause-slot_value}
use fluentbase.Token.Effects.Permit.{permit-slot_value}
use fluentbase.Token.Backing.{
  IsAddress, IsBacked, IsHolders, contains, sum, sum-cong, sum-transferred, transferred,
  transferred-IsBacked, IsBacked-cong,
}
use fluentbase.Token.Invariant.{IsSeparated, holdings, IsBackedToken}

abbrev supply_slot : ℕ
supply_slot = total_supply_storage_slot

module _ (host : Host) (apart : IsSeparated host) where
  -- Two accounts have one slot only if they are one.
  pub same_slot :
      (a b : ℕ)
      → IsAddress a
      → IsAddress b
      → (balance_slot host a == balance_slot host b) ≡ (a == b)
  same_slot a b ha hb = let inj = apart.balances a b ha hb in ground (arith, inj)

  -- A state in which neither a balance nor the supply has changed is as backed as before.
  pub unchanged-IsBackedToken :
      (s s' : System)
      → ((a : ℕ) → IsAddress a → holdings host s' a ≡ holdings host s a)
      → slot_value s' supply_slot ≡ slot_value s supply_slot
      → IsBackedToken host s
      → IsBackedToken host s'
  unchanged-IsBackedToken s s' e k b =
      IsBacked-cong (holdings host s) (holdings host s') (λ a h. sym (e a h)) (sym k) b

  moved-holdings :
      (f t amount a : ℕ) (b : ℕ → ℕ)
      → IsAddress f
      → IsAddress t
      → IsAddress a
      → moved (balance_slot host f) (balance_slot host t) amount b (balance_slot host a)
        ≡ transferred f t amount (λ i. b (balance_slot host i)) a
  moved-holdings f t amount a b hf ht ha =
      let ft = same_slot f t hf ht in
      let ta = same_slot t a ht ha in let fa = same_slot f a hf ha in rw (ft, ta, fa) (ground arith)

  moved-supply :
      (f t amount : ℕ) (b : ℕ → ℕ)
      → IsAddress f
      → IsAddress t
      → moved (balance_slot host f) (balance_slot host t) amount b supply_slot ≡ b supply_slot
  moved-supply f t amount b hf ht =
      let ft = apart.balance_supply f hf in
      let tt' = apart.balance_supply t ht in ground (arith, ft, tt')

  moved-IsBackedToken :
      (f t amount : ℕ) (b : ℕ → ℕ) (s' : System)
      → IsAddress f
      → IsAddress t
      → amount ≤ b (balance_slot host f)
      → ((k : ℕ) → slot_value s' k ≡ moved (balance_slot host f) (balance_slot host t) amount b k)
      → IsBacked (λ i. b (balance_slot host i)) (b supply_slot)
      → IsBackedToken host s'
  moved-IsBackedToken f t amount b s' hf ht h after backed =
      let before = λ (i : ℕ). b (balance_slot host i) in
      IsBacked-cong (transferred f t amount before) (holdings host s')
        (λ a ha. sym (after (balance_slot host a) ∙ moved-holdings f t amount a b hf ht ha))
        (sym (after supply_slot ∙ moved-supply f t amount b hf ht))
        (transferred-IsBacked f t amount (b supply_slot) before hf h backed)

  module _ (input : List ℕ) where
    pub transfer-IsBackedToken :
        (c : TransferCommand) (s : System)
        → decode_transfer input ≡ some c
        → IsAddress s.context.caller
        → IsAddress c.to
        → (transfer host input s).0 ≡ ok 0
        → IsBackedToken host s
        → IsBackedToken host (transfer host input s).1
    transfer-IsBackedToken c s e hf ht h backed =
        let (_, _, _, _, enough, after) = transfer-slot_value host input c s e h in
        moved-IsBackedToken s.context.caller c.to c.amount (slot_value s) (transfer host input s).1
          hf ht enough after backed

    pub transfer_from-IsBackedToken :
        (c : TransferFromCommand) (s : System)
        → decode_transfer_from input ≡ some c
        → IsAddress s.context.caller
        → IsAddress c.from
        → IsAddress c.to
        → (transfer_from host input s).0 ≡ ok 0
        → IsBackedToken host s
        → IsBackedToken host (transfer_from host input s).1
    transfer_from-IsBackedToken c s e hs hf ht h backed =
        let (_, _, _, _, _, enough, after) = transfer_from-slot_value host input c s e h in
        let slot = allowance_slot host c.from s.context.caller in
        let b = spent slot c.amount (slot_value s) in
        let supply = apart.supply_allowance c.from s.context.caller hf hs in
        moved-IsBackedToken c.from c.to c.amount b (transfer_from host input s).1 hf ht enough after
          (IsBacked-cong (holdings host s) (λ i. b (balance_slot host i))
            (λ a ha.
              let n = apart.balance_allowance a c.from s.context.caller ha hf hs in
              ground (arith, n))
            (ground (arith, supply)) backed)

    pub approve-IsBackedToken :
        (c : ApproveCommand) (s : System)
        → decode_approve input ≡ some c
        → IsAddress s.context.caller
        → IsAddress c.spender
        → (approve host input s).0 ≡ ok 0
        → IsBackedToken host s
        → IsBackedToken host (approve host input s).1
    approve-IsBackedToken c s e hf ht h backed =
        let (_, _, after) = approve-slot_value host input c s e h in
        let supply = apart.supply_allowance s.context.caller c.spender hf ht in
        unchanged-IsBackedToken s (approve host input s).1
          (λ a ha.
            let n = apart.balance_allowance a s.context.caller c.spender ha hf ht in
            grind (arith, after (balance_slot host a)))
          (grind (arith, after supply_slot)) backed

    pub permit-IsBackedToken :
        (c : PermitCommand) (s : System)
        → decode_permit input ≡ some c
        → IsAddress c.owner
        → IsAddress c.spender
        → (permit host input s).0 ≡ ok 0
        → IsBackedToken host s
        → IsBackedToken host (permit host input s).1
    permit-IsBackedToken c s e hf ht h backed =
        let (_, _, _, _, _, after) = permit-slot_value host input c s e h in
        let supply = apart.supply_allowance c.owner c.spender hf ht in
        let supply' = apart.supply_nonce c.owner hf in
        unchanged-IsBackedToken s (permit host input s).1
          (λ a ha.
            let n = apart.balance_allowance a c.owner c.spender ha hf ht in
            let n' = apart.balance_nonce a c.owner ha hf in
            grind (arith, after (balance_slot host a)))
          (grind (arith, after supply_slot)) backed

    pub pause-IsBackedToken :
        (s : System)
        → (pause input s).0 ≡ ok 0
        → IsBackedToken host s
        → IsBackedToken host (pause input s).1
    pause-IsBackedToken s h backed =
        let (_, _, _, _, _, after) = pause-slot_value input s h in
        unchanged-IsBackedToken s (pause input s).1
          (λ a ha. let n = apart.balance_frozen a ha in grind (arith, after (balance_slot host a)))
          (after supply_slot) backed

    pub unpause-IsBackedToken :
        (s : System)
        → (unpause input s).0 ≡ ok 0
        → IsBackedToken host s
        → IsBackedToken host (unpause input s).1
    unpause-IsBackedToken s h backed =
        let (_, _, _, _, _, after) = unpause-slot_value input s h in
        unchanged-IsBackedToken s (unpause input s).1
          (λ a ha. let n = apart.balance_frozen a ha in grind (arith, after (balance_slot host a)))
          (after supply_slot) backed

    -- If the hash keeps the slots of the layout apart: a `transfer` that succeeds, between a caller
    -- and a receiver that are addresses, leaves any set of accounts with both among them with the
    -- sum that they held before.
    pub transfer-sum :
        (c : TransferCommand) (s : System) (hs : List ℕ)
        → decode_transfer input ≡ some c
        → IsAddress s.context.caller
        → IsAddress c.to
        → IsHolders hs
        → contains s.context.caller hs ≡ true
        → contains c.to hs ≡ true
        → (transfer host input s).0 ≡ ok 0
        → sum (holdings host (transfer host input s).1) hs ≡ sum (holdings host s) hs
    transfer-sum c s hs e hf ht d mf mt h =
        let (_, _, _, _, enough, after) = transfer-slot_value host input c s e h in
        let f = s.context.caller in
        sum-cong (holdings host (transfer host input s).1)
          (transferred f c.to c.amount (holdings host s)) hs
          (λ a ha.
            after (balance_slot host a) ∙ moved-holdings f c.to c.amount a (slot_value s) hf ht ha)
          d
        ∙ sum-transferred f c.to c.amount (holdings host s) hs d enough mf mt
