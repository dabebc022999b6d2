-- ===== src/Token/Invariant/Supply.antt =====
-- `mint`, `burn`, `deposit` and `withdraw` of contracts/universal-token/src/lib.rs keep the supply
-- backed.
use fluentbase.Prelude.{ℕ, ◌+◌, ◌-◌, ◌≡◌, some, List, arith, ◌∙◌, sym}
use fluentbase.Sdk.Host.{Host}
use fluentbase.Sdk.State.{System}
use fluentbase.Sdk.Result.{ok}
use fluentbase.Token.Consts.{total_supply_storage_slot}
use fluentbase.Token.Command.{
  MintCommand, BurnCommand, WithdrawCommand, decode_mint, decode_burn, decode_withdraw,
}
use fluentbase.Token.Guards.{balance_slot}
use fluentbase.Token.Supply.{mint, burn, deposit, withdraw}
use fluentbase.Token.Ledger.{slot_value, set_two}
use fluentbase.Token.Effects.Supply.{mint-slot_value, burn-slot_value}
use fluentbase.Token.Effects.Wrapped.{deposit-slot_value, withdraw-slot_value}
use fluentbase.Token.Backing.{IsAddress, set, minted-IsBacked, burnt-IsBacked, IsBacked-cong}
use fluentbase.Token.Invariant.Moves.{same_slot}
use fluentbase.Token.Invariant.{IsSeparated, holdings, IsBackedToken}

abbrev supply_slot : ℕ
supply_slot = total_supply_storage_slot

module _ (host : Host) (apart : IsSeparated host) where
  -- Supply and one balance change, in either order of the writes.
  two_holdings :
      (a v w i : ℕ) (b : ℕ → ℕ)
      → IsAddress a
      → IsAddress i
      → (set_two supply_slot v (balance_slot host a) w b (balance_slot host i)
          ≡ set a w (λ j. b (balance_slot host j)) i)
        × (set_two (balance_slot host a) w supply_slot v b (balance_slot host i)
            ≡ set a w (λ j. b (balance_slot host j)) i)
  two_holdings a v w i b ha hi =
      let eq = same_slot host apart a i ha hi in
      let n = apart.balance_supply i hi in rw eq (ground (arith, n))

  two_supply :
      (a v w : ℕ) (b : ℕ → ℕ)
      → IsAddress a
      → (set_two supply_slot v (balance_slot host a) w b supply_slot ≡ v)
        × (set_two (balance_slot host a) w supply_slot v b supply_slot ≡ v)
  two_supply a v w b ha = let n = apart.balance_supply a ha in ground (arith, n)

  module _ (input : List ℕ) where
    pub mint-IsBackedToken :
        (c : MintCommand) (s : System)
        → decode_mint input ≡ some c
        → IsAddress c.to
        → (mint host input s).0 ≡ ok 0
        → IsBackedToken host s
        → IsBackedToken host (mint host input s).1
    mint-IsBackedToken c s e ht h backed =
        let (_, _, _, _, _, _, _, _, after) = mint-slot_value host input c s e h in
        let v = slot_value s supply_slot + c.amount in
        let b = holdings host s in
        let w = b c.to + c.amount in
        IsBacked-cong (set c.to w b) (holdings host (mint host input s).1)
          (λ i hi.
            sym (after (balance_slot host i) ∙ (two_holdings c.to v w i (slot_value s) ht hi).0))
          (sym (after supply_slot ∙ (two_supply c.to v w (slot_value s) ht).0))
          (minted-IsBacked c.to c.amount (slot_value s supply_slot) b backed)

    pub deposit-IsBackedToken :
        (s : System)
        → IsAddress s.context.caller
        → (deposit host input s).0 ≡ ok 0
        → IsBackedToken host s
        → IsBackedToken host (deposit host input s).1
    deposit-IsBackedToken s ht h backed =
        let (_, _, _, _, _, _, after) = deposit-slot_value host input s h in
        let a = s.context.caller in
        let v = slot_value s supply_slot + s.context.value in
        let b = holdings host s in
        let w = b a + s.context.value in
        IsBacked-cong (set a w b) (holdings host (deposit host input s).1)
          (λ i hi.
            sym (after (balance_slot host i) ∙ (two_holdings a v w i (slot_value s) ht hi).1))
          (sym (after supply_slot ∙ (two_supply a v w (slot_value s) ht).1))
          (minted-IsBacked a s.context.value (slot_value s supply_slot) b backed)

    pub burn-IsBackedToken :
        (c : BurnCommand) (s : System)
        → decode_burn input ≡ some c
        → IsAddress c.from
        → (burn host input s).0 ≡ ok 0
        → IsBackedToken host s
        → IsBackedToken host (burn host input s).1
    burn-IsBackedToken c s e ht h backed =
        let (_, _, _, _, _, _, _, enough, after) = burn-slot_value host input c s e h in
        let v = slot_value s supply_slot - c.amount in
        let b = holdings host s in
        let w = b c.from - c.amount in
        IsBacked-cong (set c.from w b) (holdings host (burn host input s).1)
          (λ i hi.
            sym (after (balance_slot host i) ∙ (two_holdings c.from v w i (slot_value s) ht hi).0))
          (sym (after supply_slot ∙ (two_supply c.from v w (slot_value s) ht).0))
          (burnt-IsBacked c.from c.amount (slot_value s supply_slot) b ht enough backed)

    pub withdraw-IsBackedToken :
        (c : WithdrawCommand) (s : System)
        → decode_withdraw input ≡ some c
        → IsAddress s.context.caller
        → (withdraw host input s).0 ≡ ok 0
        → IsBackedToken host s
        → IsBackedToken host (withdraw host input s).1
    withdraw-IsBackedToken c s e ht h backed =
        let (_, _, _, _, _, enough, after) = withdraw-slot_value host input c s e h in
        let a = s.context.caller in
        let v = slot_value s supply_slot - c.amount in
        let b = holdings host s in
        let w = b a - c.amount in
        IsBacked-cong (set a w b) (holdings host (withdraw host input s).1)
          (λ i hi.
            sym (after (balance_slot host i) ∙ (two_holdings a v w i (slot_value s) ht hi).1))
          (sym (after supply_slot ∙ (two_supply a v w (slot_value s) ht).1))
          (burnt-IsBacked a c.amount (slot_value s supply_slot) b ht enough backed)
