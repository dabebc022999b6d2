-- ===== src/Sdk/Shared/Vector.antt =====
-- crates/sdk/src/storage/primitive.rs and vec.rs: packed primitives and `StorageVec` of addresses and
-- of words, over the slots of an ordinary contract.
use fluentbase.Prelude.{
  ℕ, suc, ◌+◌, ◌-◌, ◌*◌, ◌/◌, ◌%◌, ◌^◌, ◌<◌, ◌≡◌, ◌≢◌, false, ◌==◌, if◌then◌else◌, arith,
}
use fluentbase.Prelude.Bytes.{be_bytes}
use fluentbase.Sdk.Host.{Host}
use fluentbase.Sdk.Result.{ok}
use fluentbase.Sdk.Shared.{Shared, put, Call, ◌>>=◌, ◌>>◌, pure, sload, sstore}

-- An `Address` at offset 12 of a word, that is, in its last 20 bytes. A write keeps the other 12.
abbrev pub address_of : ℕ → ℕ
address_of word = word % 2 ^ 160

abbrev pub with_address : ℕ → ℕ → ℕ
with_address word address = word / 2 ^ 160 * 2 ^ 160 + address

-- The length of a vector: the last 8 bytes of its slot.
abbrev pub length_of : ℕ → ℕ
length_of word = word % 2 ^ 64

module _ {E : Type 0} where
  unfoldable pub read_address : ℕ → Call E ℕ
  read_address slot = do word ← sload slot; pure (address_of word)

  unfoldable pub write_address : ℕ → ℕ → Call E (Unit {0})
  write_address slot address = do word ← sload slot; sstore slot (with_address word address)

  -- `StorageVec::len`
  unfoldable pub len : ℕ → Call E ℕ
  len base = do word ← sload base; pure (length_of word)

  -- `StorageVec::clear`: the elements stay behind.
  unfoldable pub clear : ℕ → Call E (Unit {0})
  clear base = sstore base 0

  -- `StorageVec::pop`, whose callers drop the value: the length shrinks, unless it is 0.
  unfoldable pub pop : ℕ → Call E (Unit {0})
  unfolding len
  pop base = do
    current_len ← len base
    if current_len == 0 then pure tt else sstore base (current_len - 1)

module _ (host : Host) where
  -- `StorageVec::element_location`: an element of either type has a slot of its own, in arithmetic
  -- modulo 2 ^ 256.
  unfoldable pub element_slot : ℕ → ℕ → ℕ
  unfolding be_bytes
  element_slot base index = (host.keccak (be_bytes 32 base) + index) % 2 ^ 256

  module _ {E : Type 0} where
    -- `StorageVec::grow`: the slot of the new element.
    unfoldable pub grow : ℕ → Call E ℕ
    unfolding len
    grow base = do
      current_len ← len base
      sstore base ((current_len + 1) % 2 ^ 64)
      pure (element_slot base current_len)

    unfoldable pub push_address : ℕ → ℕ → Call E (Unit {0})
    unfolding grow write_address
    push_address base address = do slot ← grow base; write_address slot address

    unfoldable pub push_word : ℕ → ℕ → Call E (Unit {0})
    unfolding grow
    push_word base word = do slot ← grow base; sstore slot word

-- Below the bound of the length the elements have slots of their own.
pub element_slot-apart :
    (host : Host) (base i j : ℕ)
    → i < 2 ^ 64
    → j < 2 ^ 64
    → i ≢ j
    → element_slot host base i ≢ element_slot host base j
unfolding element_slot
element_slot-apart host base i j a b d e = d (omega arith)

-- What `push_address` and `push_word` leave.
module _ (host : Host) (base : ℕ) where
  abbrev pub pushed_address : ℕ → (ℕ → ℕ) → ℕ → ℕ
  pushed_address address storage =
      let n = length_of (storage base) in
      let longer = put base ((n + 1) % 2 ^ 64) storage in
      put (element_slot host base n) (with_address (longer (element_slot host base n)) address)
        longer

  abbrev pub pushed_word : ℕ → (ℕ → ℕ) → ℕ → ℕ
  pushed_word word storage =
      let n = length_of (storage base) in
      put (element_slot host base n) word (put base ((n + 1) % 2 ^ 64) storage)

  module _ {E : Type 0} where
    pub push_address-storage :
        (address : ℕ) (s : Shared E)
        → s.context.is_static ≡ false
        → push_address host base address s
          ≡ (ok tt, record s { storage = pushed_address address s.storage })
    unfolding push_address grow len write_address sload sstore
    push_address-storage address s h = ground (arith, h)

    pub push_word-storage :
        (word : ℕ) (s : Shared E)
        → s.context.is_static ≡ false
        → push_word host base word s ≡ (ok tt, record s { storage = pushed_word word s.storage })
    unfolding push_word grow len sload sstore
    push_word-storage word s h = ground (arith, h)

-- A vector that is not empty gets shorter.
pub pop-storage :
    {E : Type 0} (base m : ℕ) (s : Shared E)
    → s.context.is_static ≡ false
    → length_of (s.storage base) ≡ suc m
    → pop base s ≡ (ok tt, record s { storage = put base m s.storage })
unfolding pop len sload sstore
pop-storage base m s h e = let a : suc m - 1 ≡ m = omega arith in ground (arith, h, e, a)
