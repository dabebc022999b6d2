-- ===== src/Sdk/Shared/Laws.antt =====
-- The calls of crates/sdk/src/shared.rs in a frame that may write.
use fluentbase.Prelude.{ℕ, ◌≡◌, refl, false, [], ◌∷◌, ◌++◌, arith}
use fluentbase.Sdk.Result.{Result, ok, err, ret, abort}
use fluentbase.Sdk.Shared.{Shared, Call, ◌>>=◌, put, sload, sstore, emit}
use fluentbase.Sdk.Shared.Vector.{write_address, with_address}

module _ {E : Type 0} where
  abbrev pub IsWritable : Shared E → Type 0
  IsWritable s = s.context.is_static ≡ false

  -- A call that returns, with the storage it leaves: nothing else of the frame changes.
  abbrev pub Leaves : Call E (Unit {0}) → Shared E → (ℕ → ℕ) → Type 0
  Leaves m s storage = m s ≡ (ok tt, record s { storage = storage })

  pub bind-ok :
      {A B : Type 0} (m : Call E A) (f : A → Call E B) (s t : Shared E) (a : A)
      → m s ≡ (ok a, t)
      → (m >>= f) s ≡ f a t
  bind-ok m f s t a e = ground (arith, e)

  pub bind-abort :
      {A B : Type 0} (m : Call E A) (f : A → Call E B) (s : Shared E)
      → m s ≡ (abort, s)
      → (m >>= f) s ≡ (abort, s)
  bind-abort m f s e = ground (arith, e)

  pub sstore-Leaves :
      (slot value : ℕ) (s : Shared E)
      → IsWritable s
      → Leaves (sstore slot value) s (put slot value s.storage)
  unfolding sstore
  sstore-Leaves slot value s h = rw h refl

  pub emit-ok :
      (event : E) (s : Shared E)
      → IsWritable s
      → emit event s ≡ (ok tt, record s { logs = s.logs ++ (event ∷ []) })
  unfolding emit
  emit-ok event s h = rw h refl

  pub write_address-Leaves :
      (slot address : ℕ) (s : Shared E)
      → IsWritable s
      → Leaves
          (write_address slot address)
          s
          (put slot (with_address (s.storage slot) address) s.storage)
  unfolding write_address sload
  write_address-Leaves slot address s h =
      sstore-Leaves slot (with_address (s.storage slot) address) s h

  by_result :
      {A B : Type 0} (m : Call E A) (f : A → Call E B) (s : Shared E) (b : B) (r : Result A)
      → (m s).0 ≡ r
      → ((m >>= f) s).0 ≡ ok b
      → (a : A) × ((m s).0 ≡ ok a) × ((m >>= f) s ≡ f a (m s).1)
  by_result m f s b (ok a) h e = (a, h, ground (arith, h))
  by_result m f s b (err x) h e = absurd (ground (arith, h, e))
  by_result m f s b (ret x) h e = absurd (ground (arith, h, e))
  by_result m f s b abort h e = absurd (ground (arith, h, e))

  -- A call that returns has a first part that returns.
  pub bind-inv :
      {A B : Type 0} (m : Call E A) (f : A → Call E B) (s : Shared E) (b : B)
      → ((m >>= f) s).0 ≡ ok b
      → (a : A) × ((m s).0 ≡ ok a) × ((m >>= f) s ≡ f a (m s).1)
  bind-inv m f s b e = by_result m f s b (m s).0 refl e
