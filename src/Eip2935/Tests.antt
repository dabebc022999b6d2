-- ===== src/Eip2935/Tests.antt =====
-- contracts/eip2935/src/lib.rs at concrete blocks.
use fluentbase.Prelude.{
  ℕ, ◌-◌, ◌≡◌, refl, inl, false, List, [], ◌∷◌, arith, length, ltb, if◌then◌else◌, some,
}
use fluentbase.Prelude.Bytes.{be_bytes, from_be_bytes}
use fluentbase.Types.ExitCode.{ExitCode}
use fluentbase.Sdk.State.{Context}
use fluentbase.Sdk.Result.{ok, err}
use fluentbase.Eip2935.{entrypoint, eip2935_compute_storage_keys}
use fluentbase.Eip2935.History.{
  Frame, frame, blocks, IsAlike, retrieve-blocks, retrieve-outside, entrypoint-keys_of,
}

abbrev context : Context
context = record {
  caller = 7;
  address = 1;
  value = 0;
  is_static = false;
  timestamp = 0;
  number = 4;
  chain_id = 1;
}

abbrev hashes : List ℕ
hashes = 11 ∷ 12 ∷ 13 ∷ []

abbrev fresh : ℕ → ℕ
fresh k = 0

-- Blocks 2, 3 and 4 store the hashes of 1, 2 and 3; the call at block 4 asks for block 2.
retrieve-blocks_example :
    let s = frame context (blocks context 2 hashes fresh) (be_bytes 32 2) 2500 in
    ((entrypoint s).0 ≡ ok tt) × ((entrypoint s).1.output ≡ be_bytes 32 12)
retrieve-blocks_example =
    retrieve-blocks context 2 2 2500 hashes fresh (omega arith) (λ e. omega (arith, e))
      (omega arith) (omega arith) (omega arith) (omega arith) (omega arith) (omega arith)
      (omega arith)

-- At block 4 there is no hash of block 4.
abbrev early : Frame
early = frame context fresh (be_bytes 32 4) 3000

number_lem : from_be_bytes early.input ≡ 4
unfolding from_be_bytes be_bytes
number_lem = refl

length_lem : length early.input ≡ 32
unfolding be_bytes
length_lem = refl

retrieve-outside_example :
    ((entrypoint early).0 ≡ err ExitCode.panic)
    × ((entrypoint early).1 ≡ record early {
      fuel =
          early.fuel
          - (if ltb (from_be_bytes early.input) early.context.number then 2120 else 1580);
    })
retrieve-outside_example =
    retrieve-outside early (λ e. omega (arith, e)) length_lem (omega arith)
      (inl (omega (arith, number_lem))) (omega arith)

-- The hash in slot 2 is all that a call for block 2 reads.
abbrev asked : Frame
asked = frame context (λ k. if ltb k 3 then 5 else 6) (be_bytes 32 2) 3000

agree : eip2935_compute_storage_keys asked.input 7 4 ≡ some (2 ∷ [])
unfolding eip2935_compute_storage_keys be_bytes from_be_bytes
agree = refl

entrypoint-keys_of_example :
    IsAlike
      (entrypoint asked)
      (entrypoint (record asked { storage = λ k. if ltb k 9 then 5 else 7 }))
entrypoint-keys_of_example =
    entrypoint-keys_of asked (λ k. if ltb k 9 then 5 else 7) (grind (arith, agree))
