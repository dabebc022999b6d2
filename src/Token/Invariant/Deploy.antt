-- ===== src/Token/Invariant/Deploy.antt =====
-- A token that the constructor of contracts/universal-token/src/lib.rs has built is backed.
use fluentbase.Prelude.{
  ℕ, ◌+◌, ◌≡◌, ◌≢◌, ◌∙◌, sym, refl, some, List, [], ◌∷◌, ◌==◌, if◌then◌else◌, arith,
}
use fluentbase.Sdk.Host.{Host}
use fluentbase.Sdk.State.{System}
use fluentbase.Sdk.Result.{ok}
use fluentbase.Token.Consts.{
  total_supply_storage_slot, minter_storage_slot, pauser_storage_slot, wrapped_storage_slot,
  name_storage_slot, symbol_storage_slot, decimals_storage_slot,
}
use fluentbase.Token.Settings.{InitialSettings, as_str, decode_with_prefix}
use fluentbase.Token.Guards.{balance_slot}
use fluentbase.Token.Entry.{constructor}
use fluentbase.Token.Backing.{IsAddress, IsBacked, sum, set, minted-IsBacked, IsBacked-cong}
use fluentbase.Token.Ledger.{slot_value}
use fluentbase.Token.Effects.Deploy.{constructor-slot_value, deployed_slots, wrapped_slots}
use fluentbase.Token.Invariant.{IsSeparated, IsBackedToken, holdings}
use fluentbase.Token.Invariant.Moves.{same_slot}

sum-zero : (hs : List ℕ) → sum (λ a. 0) hs ≡ 0
sum-zero [] = refl
sum-zero (h ∷ hs) = omega (arith, sum-zero hs)

zero-IsBacked : IsBacked (λ a. 0) 0
zero-IsBacked holders = omega (arith, sum-zero holders.accounts)

module _ (host : Host) (apart : IsSeparated host) (c : InitialSettings) (name symbol : List ℕ)
    (caller : ℕ) (b : ℕ → ℕ) (sender : IsAddress caller) where
  wrapped_other : (f : ℕ → ℕ) (k : ℕ) → k ≢ wrapped_storage_slot → wrapped_slots c.wrapped f k ≡ f k
  wrapped_other f k w = ground (arith, w)

  deployed_other :
      (k : ℕ)
      → k ≢ minter_storage_slot
      → k ≢ pauser_storage_slot
      → k ≢ total_supply_storage_slot
      → k ≢ name_storage_slot
      → k ≢ symbol_storage_slot
      → k ≢ decimals_storage_slot
      → deployed_slots host caller c name symbol b k
        ≡ (if balance_slot host caller == k then c.initial_supply else b k)
  deployed_other k m p t n y d = ground (arith, m, p, t, n, y, d)

  deployed_balance :
      (a : ℕ)
      → IsAddress a
      → b (balance_slot host a) ≡ 0
      → wrapped_slots c.wrapped (deployed_slots host caller c name symbol b) (balance_slot host a)
        ≡ set caller (0 + c.initial_supply) (λ i. 0) a
  deployed_balance a ha empty =
      let (m, p, w, n, y, d) = apart.balance_settings a ha in
      let t = apart.balance_supply a ha in
      let eq = same_slot host apart caller a sender ha in
      wrapped_other (deployed_slots host caller c name symbol b) (balance_slot host a) w
      ∙ deployed_other (balance_slot host a) m p t n y d
      ∙ rw eq (ground (arith, empty))

  deployed_supply :
      wrapped_slots c.wrapped (deployed_slots host caller c name symbol b) total_supply_storage_slot
      ≡ 0 + c.initial_supply
  deployed_supply = ground arith

-- If the hash keeps the slots of the layout apart, for a caller that is an address and a payload that
-- decodes to settings with a readable name and symbol: on a frame in which no account holds
-- anything, a constructor that succeeds leaves the token backed.
pub constructor-IsBackedToken :
    (host : Host) (apart : IsSeparated host) (input : List ℕ) (c : InitialSettings)
    (name symbol : List ℕ) (s : System)
    → decode_with_prefix input ≡ some c
    → as_str host c.token_name ≡ some name
    → as_str host c.token_symbol ≡ some symbol
    → (constructor host input s).0 ≡ ok 0
    → IsAddress s.context.caller
    → ((a : ℕ) → IsAddress a → holdings host s a ≡ 0)
    → IsBackedToken host (constructor host input s).1
constructor-IsBackedToken host apart input c name symbol s decoded named marked built sender fresh =
    let (_, _, _, after) =
      constructor-slot_value host input c name symbol s decoded named marked built in
    let caller = s.context.caller in
    IsBacked-cong (set caller (0 + c.initial_supply) (λ i. 0))
      (holdings host (constructor host input s).1)
      (λ a ha. sym (
        after (balance_slot host a)
        ∙ deployed_balance host apart c name symbol caller (slot_value s) sender a ha (fresh a ha)))
      (sym (
        after total_supply_storage_slot
        ∙ deployed_supply host apart c name symbol caller (slot_value s) sender))
      (minted-IsBacked caller c.initial_supply 0 (λ i. 0) zero-IsBacked)
