-- ===== src/Token/Backing.antt =====
-- Sums of balances: a token is backed if no set of accounts holds more than the total supply.
use fluentbase.Prelude.{
  ℕ, ◌+◌, ◌-◌, ◌^◌, ◌≤◌, ◌<◌, ◌≡◌, refl, Bool, true, false, ◌||◌, List, [], ◌∷◌, arith, ◌==◌,
  if◌then◌else◌, inl, inr, Bool-cases,
}

abbrev pub IsAddress : ℕ → Type 0
IsAddress a = a < 2 ^ 160

abbrev pub contains : ℕ → List ℕ → Bool
contains a [] = false
contains a (h ∷ hs) = h == a || contains a hs

-- Addresses, none listed twice.
abbrev pub IsHolders : List ℕ → Type 0
IsHolders [] = Unit
IsHolders (h ∷ hs) = IsAddress h × (contains h hs ≡ false) × IsHolders hs

abbrev pub sum : (ℕ → ℕ) → List ℕ → ℕ
sum b [] = 0
sum b (h ∷ hs) = b h + sum b hs

-- A set of accounts.
pub record Holders : Type 0 where
  pub accounts : List ℕ
  pub valid : IsHolders accounts

-- No set of accounts holds together more than `supply`.
abbrev pub IsBacked : (ℕ → ℕ) → ℕ → Type 0
IsBacked b supply = (hs : Holders) → sum b hs.accounts ≤ supply

abbrev pub set : ℕ → ℕ → (ℕ → ℕ) → ℕ → ℕ
set a v b h = if a == h then v else b h

pub sum-cong :
    (b c : ℕ → ℕ) (hs : List ℕ)
    → ((h : ℕ) → IsAddress h → b h ≡ c h)
    → IsHolders hs
    → sum b hs ≡ sum c hs
sum-cong b c [] e d = refl
sum-cong b c (h ∷ hs) e (ha, hn, hd) = omega (arith, e h ha, sum-cong b c hs e hd)

pub sum-set_absent :
    (a v : ℕ) (b : ℕ → ℕ) (hs : List ℕ) → contains a hs ≡ false → sum (set a v b) hs ≡ sum b hs
sum-set_absent a v b [] n = refl
sum-set_absent a v b (h ∷ hs) n = ground (arith, sum-set_absent a v b hs)

-- A change of one balance moves the sum by as much.
pub sum-set :
    (a v : ℕ) (b : ℕ → ℕ) (hs : List ℕ)
    → IsHolders hs
    → contains a hs ≡ true
    → sum (set a v b) hs + b a ≡ sum b hs + v
sum-set a v b [] d m = ground arith
sum-set a v b (h ∷ hs) (ha, hn, hd) m = ground (arith, sum-set a v b hs hd, sum-set_absent a v b hs)

-- Taking from one account leaves no set of accounts with more.
sum-set_le :
    (a v : ℕ) (b : ℕ → ℕ) (hs : List ℕ) → v ≤ b a → IsHolders hs → sum (set a v b) hs ≤ sum b hs
sum-set_le a v b hs h d = elim (Bool-cases (contains a hs)) [
  | inl e ↦ omega (arith, sum-set a v b hs d e)
  | inr e ↦ omega (arith, sum-set_absent a v b hs e)
]

-- A transfer between two accounts, the debit first.
abbrev pub transferred : ℕ → ℕ → ℕ → (ℕ → ℕ) → ℕ → ℕ
transferred f t amount b = set t (set f (b f - amount) b t + amount) (set f (b f - amount) b)

pub sum-transferred :
    (f t amount : ℕ) (b : ℕ → ℕ) (hs : List ℕ)
    → IsHolders hs
    → amount ≤ b f
    → contains f hs ≡ true
    → contains t hs ≡ true
    → sum (transferred f t amount b) hs ≡ sum b hs
sum-transferred f t amount b hs d h mf mt =
    let b1 = set f (b f - amount) b in
    omega (arith, sum-set f (b f - amount) b hs d mf, sum-set t (b1 t + amount) b1 hs d mt)

pub transferred-IsBacked :
    (f t amount supply : ℕ) (b : ℕ → ℕ)
    → IsAddress f
    → amount ≤ b f
    → IsBacked b supply
    → IsBacked (transferred f t amount b) supply
transferred-IsBacked f t amount supply b af h backed holders =
    let hs = holders.accounts in
    let d = holders.valid in
    let b1 = set f (b f - amount) b in
    let less = sum-set_le f (b f - amount) b hs (omega arith) d in
    elim (Bool-cases (contains t hs)) [
      | inr mt ↦ omega (arith, sum-set_absent t (b1 t + amount) b1 hs mt, less, backed holders)
      | inl mt ↦
          let credit = sum-set t (b1 t + amount) b1 hs d mt in
          elim (Bool-cases (contains f hs)) [
            | inl mf ↦ omega (arith, credit, sum-set f (b f - amount) b hs d mf, backed holders)
            | inr mf ↦ omega (
              arith,
              credit,
              sum-set_absent f (b f - amount) b hs mf,
              backed (record { accounts = f ∷ hs; valid = (af, mf, d) }),
            )
          ]
    ]

pub minted-IsBacked :
    (a amount supply : ℕ) (b : ℕ → ℕ)
    → IsBacked b supply
    → IsBacked (set a (b a + amount) b) (supply + amount)
minted-IsBacked a amount supply b backed holders =
    let hs = holders.accounts in
    let d = holders.valid in
    elim (Bool-cases (contains a hs)) [
      | inl m ↦ omega (arith, sum-set a (b a + amount) b hs d m, backed holders)
      | inr m ↦ omega (arith, sum-set_absent a (b a + amount) b hs m, backed holders)
    ]

pub burnt-IsBacked :
    (a amount supply : ℕ) (b : ℕ → ℕ)
    → IsAddress a
    → amount ≤ b a
    → IsBacked b supply
    → IsBacked (set a (b a - amount) b) (supply - amount)
burnt-IsBacked a amount supply b aa h backed holders =
    let hs = holders.accounts in
    let d = holders.valid in
    elim (Bool-cases (contains a hs)) [
      | inl m ↦ omega (arith, sum-set a (b a - amount) b hs d m, backed holders)
      | inr m ↦ omega (
        arith,
        sum-set_absent a (b a - amount) b hs m,
        backed (record { accounts = a ∷ hs; valid = (aa, m, d) }),
      )
    ]

pub IsBacked-cong :
    (b c : ℕ → ℕ) {supply supply' : ℕ}
    → ((a : ℕ) → IsAddress a → b a ≡ c a)
    → supply ≡ supply'
    → IsBacked b supply
    → IsBacked c supply'
IsBacked-cong b c e k backed holders =
    omega (arith, sum-cong b c holders.accounts e holders.valid, backed holders, k)
