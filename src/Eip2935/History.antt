-- ===== src/Eip2935/History.antt =====
-- What contracts/eip2935/src/lib.rs serves after a run of blocks.
use fluentbase.Prelude.{
  ℕ, zero, suc, ◌+◌, ◌-◌, ◌%◌, ◌^◌, ◌≤◌, ◌<◌, ◌≡◌, ◌≢◌, ◌⊎◌, inl, inr, refl, sym, ap, ◌∙◌, false,
  none, some, List, [], ◌∷◌, ◌++◌, arith, leb, leb→le, Bool-cases, length, All, ◌==◌, ltb,
  if◌then◌else◌,
}
use fluentbase.Prelude.Bytes.{be_bytes, from_be_bytes, from_be_bytes-be_bytes, length-be_bytes}
use fluentbase.Types.ExitCode.{ExitCode}
use fluentbase.Sdk.State.{Context}
use fluentbase.Sdk.Result.{Result, ok, err}
use fluentbase.Sdk.Shared.{Shared, Bytecode, put, sload, sstore, charge_fuel, write}
use fluentbase.Eip2935.{
  system_address, charge_and_panic, submit, submit_hash, retrieve, retrieve_hash, entrypoint,
  eip2935_compute_storage_keys,
}

abbrev pub Frame : Type 0
Frame = Shared (Unit {0})

-- The system's call stores its word in the slot of the block before.
pub submit-entrypoint :
    (s : Frame)
    → s.context.is_static ≡ false
    → s.context.caller ≡ system_address
    → length s.input ≡ 32
    → 0 < s.context.number
    → 860 ≤ s.fuel
    → ((entrypoint s).0 ≡ ok tt)
      × ((k : ℕ)
          → (entrypoint s).1.storage k
            ≡ put ((s.context.number - 1) % 8191) (from_be_bytes s.input) s.storage k)
unfolding entrypoint submit submit_hash sstore charge_fuel
submit-entrypoint s a b c d e = (grind arith, λ k. grind arith)

-- A call for a block of the window writes the word of its slot.
pub retrieve-entrypoint :
    (s : Frame)
    → s.context.caller ≢ system_address
    → length s.input ≡ 32
    → from_be_bytes s.input < s.context.number
    → s.context.number ≤ from_be_bytes s.input + 8191
    → 2500 ≤ s.fuel
    → ((entrypoint s).0 ≡ ok tt)
      × ((entrypoint s).1.output
          ≡ s.output ++ be_bytes 32 (s.storage (from_be_bytes s.input % 8191)))
unfolding entrypoint retrieve retrieve_hash sload charge_fuel write
retrieve-entrypoint s b c d d' e = (grind arith, grind arith)

-- The frame of a call: `storage` is what earlier blocks left.
abbrev pub frame : Context → (ℕ → ℕ) → List ℕ → ℕ → Frame
frame context storage input fuel = record {
  storage = storage;
  logs = [];
  codes = λ a. Bytecode.rwasm [];
  balances = λ a. 0;
  context = context;
  input = input;
  output = [];
  fuel = fuel;
}

-- The system's call at a block: the hash of the block before it.
abbrev pub system_call : Context → ℕ → ℕ → (ℕ → ℕ) → Frame
system_call c number hash storage =
    frame (record c { caller = system_address; is_static = false; number = number }) storage
      (be_bytes 32 hash) 860

-- The storage after the system's calls at consecutive blocks.
pub blocks : Context → ℕ → List ℕ → (ℕ → ℕ) → ℕ → ℕ
unfolding be_bytes
blocks c number [] storage = storage
blocks c number (hash ∷ hashes) storage =
    blocks c (suc number) hashes (entrypoint (system_call c number hash storage)).1.storage

-- One block: the word of the call stands in the slot of the block before.
block-storage :
    (c : Context) (number hash : ℕ) (storage : ℕ → ℕ)
    → 0 < number
    → hash < 2 ^ 256
    → (k : ℕ)
    → (entrypoint (system_call c number hash storage)).1.storage k
      ≡ put ((number - 1) % 8191) hash storage k
block-storage c number hash storage p h k =
    (submit-entrypoint (system_call c number hash storage) refl refl (length-be_bytes 32 hash) p
        (omega arith)).1
      k
    ∙ ap (λ w. put ((number - 1) % 8191) w storage k) (from_be_bytes-be_bytes 32 hash (omega arith))

abbrev pub IsWord : ℕ → Type 0
IsWord w = w < 2 ^ 256

apart : (r n : ℕ) → r + 1 < n → n ≤ r + 8191 → (n - 1) % 8191 ≢ r % 8191
apart r n h k e = omega arith

put-here : (k v : ℕ) (storage : ℕ → ℕ) → put k v storage k ≡ v
put-here k v storage = ground arith

-- Fewer blocks than the window keep the slot of an earlier one.
blocks-kept :
    (c : Context) (r number : ℕ) (hashes : List ℕ) (storage : ℕ → ℕ)
    → All IsWord hashes
    → r + 1 < number
    → number + length hashes ≤ r + 8192
    → blocks c number hashes storage (r % 8191) ≡ storage (r % 8191)
unfolding blocks
blocks-kept c r number [] storage w h k = refl
blocks-kept c r number (hash ∷ hashes) storage w h k =
    blocks-kept c r (suc number) hashes _ w.1 (omega arith) (omega arith)
    ∙ block-storage c number hash storage (omega arith) w.0 (r % 8191)
    ∙ (let d = apart r number h (omega arith) in ground (arith, d))

-- The word at an index, 0 past the end.
abbrev pub at : ℕ → List ℕ → ℕ
at n [] = 0
at zero (w ∷ ws) = w
at (suc n) (w ∷ ws) = at n ws

blocks-at :
    (c : Context) (r number : ℕ) (hashes : List ℕ) (storage : ℕ → ℕ)
    → All IsWord hashes
    → 0 < number
    → number ≤ r + 1
    → r + 1 < number + length hashes
    → number + length hashes ≤ r + 8192
    → blocks c number hashes storage (r % 8191) ≡ at (r + 1 - number) hashes
unfolding blocks
blocks-at c r number [] storage w p a b d = absurd (omega arith)
blocks-at c r number (hash ∷ hashes) storage w p a b d = elim (Bool-cases (leb number r)) [
  | inl e ↦
      let le = leb→le number r e in
      let at_later : r + 1 - number ≡ suc (r + 1 - suc number) = omega (arith, le) in
      blocks-at c r (suc number) hashes _ w.1 (omega arith) (omega (arith, le)) (omega arith)
        (omega arith)
      ∙ ap (λ n. at n (hash ∷ hashes)) (sym at_later)
  | inr e ↦
      let first : number ≡ r + 1 = ground (arith, e, a) in
      let at_first : r + 1 - number ≡ 0 = omega (arith, first) in
      let slot : r % 8191 ≡ (number - 1) % 8191 = ap (λ n. n % 8191) (omega (arith, first)) in
      blocks-kept c r (suc number) hashes _ w.1 (omega (arith, first)) (omega (arith, first))
      ∙ block-storage c number hash storage p w.0 (r % 8191)
      ∙ ap (λ k. put k hash storage (r % 8191)) (sym slot)
      ∙ put-here (r % 8191) hash storage
      ∙ ap (λ n. at n (hash ∷ hashes)) (sym at_first)
]

-- After the system's calls at the blocks from `number` on, a call at the last of them for a block
-- that is not older than the window, and whose hash is among those submitted, succeeds with that
-- hash as its output.
pub retrieve-blocks :
    (c : Context) (number requested fuel : ℕ) (hashes : List ℕ) (storage : ℕ → ℕ)
    → All IsWord hashes
    → c.caller ≢ system_address
    → 0 < number
    → number ≤ requested + 1
    → c.number + 1 ≡ number + length hashes
    → requested < c.number
    → c.number ≤ requested + 8191
    → requested < 2 ^ 64
    → 2500 ≤ fuel
    → let s = frame c (blocks c number hashes storage) (be_bytes 32 requested) fuel in
      ((entrypoint s).0 ≡ ok tt)
      × ((entrypoint s).1.output ≡ be_bytes 32 (at (requested + 1 - number) hashes))
retrieve-blocks c number requested fuel hashes storage w p q a b d e g h =
    let s = frame c (blocks c number hashes storage) (be_bytes 32 requested) fuel in
    let word = from_be_bytes-be_bytes 32 requested (omega arith) in
    let run =
      retrieve-entrypoint s p (length-be_bytes 32 requested) (omega (arith, word, d))
        (omega (arith, word, e)) h in
    let slot : blocks c number hashes storage (from_be_bytes (be_bytes 32 requested) % 8191)
        ≡ at (requested + 1 - number) hashes =
      ap (λ r. blocks c number hashes storage (r % 8191)) word
      ∙ blocks-at c requested number hashes storage w q a (omega arith) (omega arith) in
    (run.0, run.1 ∙ ap (λ v. be_bytes 32 v) slot)

-- A call for the current block, a later one or one older than the window panics. It writes nothing,
-- and pays for the branch that refused it.
pub retrieve-outside :
    (s : Frame)
    → s.context.caller ≢ system_address
    → length s.input ≡ 32
    → 0 < s.context.number
    → (s.context.number ≤ from_be_bytes s.input) ⊎ (from_be_bytes s.input + 8191 < s.context.number)
    → 2120 ≤ s.fuel
    → ((entrypoint s).0 ≡ err ExitCode.panic)
      × ((entrypoint s).1 ≡ record s {
        fuel = s.fuel - (if ltb (from_be_bytes s.input) s.context.number then 2120 else 1580);
      })
unfolding entrypoint retrieve charge_and_panic charge_fuel
retrieve-outside s a b c (inl d) e = (ground arith, ground arith)
retrieve-outside s a b c (inr d) e = (ground arith, ground arith)

-- The slots of `eip2935_compute_storage_keys`, none where it answers `None`.
abbrev pub keys_of : Frame → List ℕ
keys_of s = elim (eip2935_compute_storage_keys s.input s.context.caller s.context.number) [
  | some keys ↦ keys
  | none ↦ []
]

-- Equal results and equal outputs.
abbrev pub IsAlike : Result (Unit {0}) × Frame → Result (Unit {0}) × Frame → Type 0
IsAlike a b = (a.0 ≡ b.0) × (a.1.output ≡ b.1.output)

module _ (s : Frame) (storage : ℕ → ℕ) where
  abbrev other : Frame
  other = record s { storage = storage }

  retrieve_hash-IsAlike :
      (r : ℕ)
      → s.storage (r % 8191) ≡ storage (r % 8191)
      → IsAlike (retrieve_hash r s) (retrieve_hash r other)
  unfolding retrieve_hash sload charge_fuel write
  retrieve_hash-IsAlike r h = (ground arith, ground arith)

  submit_hash-IsAlike : (n v : ℕ) → IsAlike (submit_hash n v s) (submit_hash n v other)
  unfolding submit_hash sstore charge_fuel
  submit_hash-IsAlike n v = (ground arith, ground arith)

  panic-IsAlike : (gas : ℕ) → IsAlike (charge_and_panic gas s) (charge_and_panic gas other)
  unfolding charge_and_panic charge_fuel
  panic-IsAlike gas = (ground arith, ground arith)

  submit-IsAlike : IsAlike (submit s) (submit other)
  unfolding submit
  submit-IsAlike =
      let hash = submit_hash-IsAlike s.context.number (from_be_bytes s.input) in
      let short = panic-IsAlike 47 in
      let first = panic-IsAlike 79 in
      (ground (arith, hash, short, first), ground (arith, hash, short, first))

  retrieve-IsAlike :
      s.context.caller ≢ system_address
      → All (λ k. s.storage k ≡ storage k) (keys_of s)
      → IsAlike (retrieve s) (retrieve other)
  unfolding retrieve eip2935_compute_storage_keys
  retrieve-IsAlike c h =
      let hash = retrieve_hash-IsAlike (from_be_bytes s.input) in
      let short = panic-IsAlike 47 in
      let future = panic-IsAlike 79 in
      let old = panic-IsAlike 106 in
      (ground (arith, hash, short, future, old), ground (arith, hash, short, future, old))

-- Two storages that agree on the keys computed for a call give it the same result and the same
-- output.
pub entrypoint-keys_of :
    (s : Frame) (storage : ℕ → ℕ)
    → All (λ k. s.storage k ≡ storage k) (keys_of s)
    → IsAlike (entrypoint s) (entrypoint (record s { storage = storage }))
unfolding entrypoint
entrypoint-keys_of s storage h = elim (Bool-cases (s.context.caller == system_address)) [
  | inl e ↦ rw e (submit-IsAlike s storage)
  | inr e ↦ rw e (retrieve-IsAlike s storage (λ d. ground (arith, d, e)) h)
]
