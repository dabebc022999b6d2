-- ===== src/Revm/Preload/Sound.antt =====
-- crates/revm/src/executor.rs: a call of the universal token finds the slots it needs among those that
-- the host has loaded for it.
use fluentbase.Prelude.{
  ℕ, ◌≡◌, ◌≢◌, refl, sym, ap, subst, Bool, true, false, ◌||◌, Option, none, some, List, [], ◌∷◌,
  arith, ◌==◌, if◌then◌else◌, All,
}
use fluentbase.Types.ExitCode.{ExitCode}
use fluentbase.Types.Genesis.{contains, precompile_universal_token_runtime}
use fluentbase.Types.Journal.{Map, empty, insert, peek}
use fluentbase.Sdk.Host.{Host}
use fluentbase.Sdk.State.{Context, new_frame}
use fluentbase.Sdk.Result.{err, abort}
use fluentbase.Token.Entry.{main_entry}
use fluentbase.Token.Keys.{erc20_compute_storage_keys, erc20_compute_main_storage_keys}
use fluentbase.Token.Keys.Sound.{IsPreloaded}
use fluentbase.Token.Keys.Cover.{main_entry-IsSound}
use fluentbase.Token.Keys.Loaded.{loaded}
use fluentbase.Revm.Engine.{Engine}
use fluentbase.Revm.Interruption.{next, Frame, pure, load_or_halt, gets, charge_regular_gas}
use fluentbase.Revm.Keeps.{Settles, Keeps-gets}
use fluentbase.Revm.Keeps.Grants.{Does, Does-bind, Does-after, Keeps-Does}
use fluentbase.Revm.Keeps.Rules.{Keeps-load_or_halt, Does-charge_or_end}
use fluentbase.Revm.Preload.{
  Loaded, preload_slot, preload_slots, slot_cost, preload, retain_unique, storage_list,
}
use fluentbase.Revm.Preload.Cost.{Anyhow, returned}

abbrev is_some : Option ℕ → Bool
is_some (some v) = true
is_some none = false

abbrev has : Map → ℕ → Bool
has m j = is_some (m j)

replaced :
    (b c : Bool) (v : ℕ) (o : Option ℕ)
    → ((b || c) || is_some o) ≡ true
    → (c || is_some (if b then some v else o)) ≡ true
replaced true true v o h = refl
replaced true false v o h = refl
replaced false c v o h = h

covered-insert :
    (k v j : ℕ) (keys : List ℕ) (m : Map)
    → ((k == j || contains keys j) || has m j) ≡ true
    → (contains keys j || has (insert k v m) j) ≡ true
covered-insert k v j keys m h = replaced (k == j) (contains keys j) v (m j) h

contains-retain_unique :
    (j : ℕ) (seen keys : List ℕ)
    → (contains (retain_unique seen keys) j || contains seen j)
      ≡ (contains keys j || contains seen j)
unfolding retain_unique contains
contains-retain_unique j seen [] = refl
contains-retain_unique j seen (k ∷ keys) = ground (
  arith,
  contains-retain_unique j seen keys,
  contains-retain_unique j (k ∷ seen) keys,
  ap (contains seen) {x = k} {y = j},
)

All-of_contains :
    (P : ℕ → Type 0) (keys : List ℕ) → ((j : ℕ) → contains keys j ≡ true → P j) → All P keys
unfolding contains
All-of_contains P [] h = tt
All-of_contains P (k ∷ keys) h =
    (h k (ground arith), All-of_contains P keys λ j e. h j (ground (arith, e)))

module _ {G W C S : Type 0} (rt : Engine G W C S) where
  preload_slot-covers :
      (address j k : ℕ) (keys : List ℕ) (acc : Loaded)
      → (contains (k ∷ keys) j || has acc.storage j) ≡ true
      → Does
          (λ f. Unit {0})
          (λ acc' f. (contains keys j || has acc'.storage j) ≡ true)
          Anyhow
          (preload_slot rt address k acc)
  unfolding preload_slot pure contains
  preload_slot-covers address j k keys acc h =
      let s : Settles (λ f. Unit {0}) Anyhow = record { at = λ e h f p. tt } in
      Does-after (gets _) _ (Keeps-gets _) λ skip_cold.
        Does-after (load_or_halt _) _ (Keeps-load_or_halt s _ λ f p. tt) λ (value, is_cold).
          Does-after (charge_regular_gas rt (slot_cost rt is_cold)) _
            (Keeps-Does _
              (Does-charge_or_end rt Anyhow (λ f. tt) (slot_cost rt is_cold) λ f p e. tt))
            λ _. record { at = λ f p. covered-insert k value j keys acc.storage h }

  covers :
      (address j : ℕ) (keys : List ℕ) (acc : Loaded)
      → (contains keys j || has acc.storage j) ≡ true
      → Does
          (λ f. Unit {0})
          (λ acc' f. has acc'.storage j ≡ true)
          Anyhow
          (preload_slots rt address keys acc)
  unfolding preload_slots pure contains
  covers address j [] acc h = record { at = λ f p. h }
  covers address j (k ∷ keys) acc h =
      Does-bind (preload_slot rt address k acc) _ (preload_slot-covers address j k keys acc h)
        λ acc'. record { at = λ f p. (covers address j keys acc' p).at f tt }

  -- Every requested slot is among those loaded.
  pub preload-covers :
      (address j : ℕ) (keys : List ℕ) (f : Frame G W) (acc : Loaded)
      → contains keys j ≡ true
      → (preload rt address keys f).0 ≡ next acc
      → has acc.storage j ≡ true
  unfolding preload
  preload-covers address j keys f acc e h =
      returned rt (λ a f. has a.storage j ≡ true) _ _ acc
        ((covers address j (retain_unique [] keys) (record { storage = empty; costs = [] })
            (unfold contains in (ground (arith, contains-retain_unique j [] keys, e)))).at
          f tt)
        h

storage_list_lem :
    (host : Host) (input : List ℕ) (caller number : ℕ) (keys : List ℕ)
    → erc20_compute_main_storage_keys host input caller ≡ some keys
    → storage_list host precompile_universal_token_runtime input caller false number ≡ keys
unfolding storage_list erc20_compute_storage_keys
storage_list_lem host input caller number keys e =
    ap (λ (o : Option (List ℕ)). let l : List ℕ = elim o [ some keys ↦ keys | none ↦ [] ] in l) e

-- Whatever the call and the caller are, if the slots of a call of the universal token can be computed
-- and the host loads them all, the call on the frame with these slots ends neither with the error of
-- a slot that is not loaded nor with a panic.
pub preload-IsSound :
    {G W C S : Type 0} (rt : Engine G W C S) (host : Host) (context : Context)
    (metadata input keys : List ℕ) (fuel number : ℕ) (f : Frame G W) (acc : Loaded)
    → erc20_compute_main_storage_keys host input context.caller ≡ some keys
    → (preload rt context.address
        (storage_list host precompile_universal_token_runtime input context.caller false number)
        f).0
      ≡ next acc
    → let s = new_frame acc.storage metadata input context fuel in
      ((main_entry host s).0 ≢ err ExitCode.missing_storage_slot) × ((main_entry host s).0 ≢ abort)
preload-IsSound rt host context metadata input keys fuel number f acc computed h =
    main_entry-IsSound host (new_frame acc.storage metadata input context fuel) (
      subst (IsPreloaded (new_frame acc.storage metadata input context fuel)) (sym computed) (
        All-of_contains (λ k. loaded (new_frame acc.storage metadata input context fuel) k ≡ true)
          keys
          λ j e.
            unfold loaded peek in
            (preload-covers rt context.address j keys f acc e (
              subst (λ l. (preload rt context.address l f).0 ≡ next acc)
                (storage_list_lem host input context.caller number keys computed) h))))
