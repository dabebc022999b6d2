-- ===== src/Revm/Outcome/Commit.antt =====
-- crates/revm/src/executor.rs: what the outcome of a run leaves in the storage of the chain.
use fluentbase.Prelude.{
  ℕ, ◌≡◌, refl, ap, ◌∙◌, subst, Bool, true, false, ◌&&◌, Option, none, some, List, [], ◌∷◌, arith,
  ◌==◌, if◌then◌else◌,
}
use fluentbase.Types.ExitCode.{ExitCode, is_ok}
use fluentbase.Types.Journal.{JournalStorage, into_diff, peek}
use fluentbase.Revm.Engine.{Engine, Load, loaded, cold_load_skipped, db_error}
use fluentbase.Revm.Interruption.{Step, next, Frame, pure, load_or_halt, load_end}
use fluentbase.Revm.Keeps.{Settles}
use fluentbase.Revm.Keeps.Grants.{Does, AfterWith, Does-bind, Does-after, Does-Keeps}
use fluentbase.Revm.Keeps.Rules.{Keeps-read_or_db, Keeps-write}
use fluentbase.Revm.Preload.Cost.{Anyhow}
use fluentbase.Revm.Outcome.Keeps.{IsSettling, emit_logs-Keeps, update_metadata-Keeps}
use fluentbase.Revm.Outcome.{
  Outcome, refund_untouched, commit_storage, emit_logs, commit_outcome, finish_outcome,
  process_decoded,
}

-- `slots` is the storage of every account in the journal: a store that goes through writes its slot,
-- and the other operations that an outcome needs leave the storage alone.
pub record IsSlots {G W C S : Type 0} (rt : Engine G W C S) (slots : W → ℕ → ℕ → ℕ) : Type 0 where
  pub stored :
      (t k v : ℕ) (b : Bool) (w : W) (x : S) (c : Bool)
      → (rt.sstore t k v b w).0 ≡ loaded x c
      → (a j : ℕ)
      → slots (rt.sstore t k v b w).1 a j ≡ (if a == t && k == j then v else slots w a j)
  pub logged : (t : ℕ) (p d : List ℕ) (w : W) (a j : ℕ) → slots (rt.log t p d w) a j ≡ slots w a j
  pub coded : (t : ℕ) (c : C) (w : W) (a j : ℕ) → slots (rt.set_code t c w) a j ≡ slots w a j
  pub transferred : (t r v : ℕ) (w : W) (a j : ℕ) → slots (rt.transfer t r v w).1 a j ≡ slots w a j
  pub account : (t : ℕ) (w : W) (a j : ℕ) → slots (rt.load_account t w).1 a j ≡ slots w a j

abbrev Storage : Type 0
Storage = ℕ → ℕ → ℕ

-- The storage after the entries are written in their order.
written : ℕ → List (ℕ × ℕ) → Storage → Storage
written t [] s = s
written t ((k, v) ∷ l) s = written t l (λ a j. if a == t && k == j then v else s a j)

-- The last value of a slot among the entries.
unfoldable pub latest : List (ℕ × ℕ) → ℕ → Option ℕ
latest [] k = none
latest ((j, v) ∷ l) k = elim (latest l k) [
  | some w ↦ some w
  | none ↦ if j == k then some v else none
]

abbrev pub or_else : Option ℕ → ℕ → ℕ
or_else (some v) d = v
or_else none d = d

written-latest :
    (t : ℕ) (l : List (ℕ × ℕ)) (s : Storage) (a k : ℕ)
    → written t l s a k ≡ (if a == t then or_else (latest l k) (s a k) else s a k)
unfolding written latest
written-latest t [] s a k = ground arith
written-latest t ((j, v) ∷ l) s a k =
    written-latest t l (λ b i. if b == t && j == i then v else s b i) a k ∙ grind arith

module _ {G W C S : Type 0} (rt : Engine G W C S) (slots : W → Storage)
    (laws : IsSlots rt slots) where
  -- The storage is `s`.
  Holds : Storage → Frame G W → Type 0
  Holds s f = (a j : ℕ) → slots f.world a j ≡ s a j

  settles : (s : Storage) → Settles {C = C} (Holds s) Anyhow
  settles s = record { at = λ e h f p. tt }

  store_step :
      (R : W → Type 0) (l : Load S) (f : Frame G W)
      → ((x : S) (c : Bool) → l ≡ loaded x c → R f.world)
      → AfterWith {C = C} (λ _ g. R g.world) Anyhow (load_end l) f
  unfolding load_end
  store_step R (loaded x c) f h = h x c refl
  store_step R cold_load_skipped f h = tt
  store_step R db_error f h = tt

  store-Does :
      (t k v : ℕ) (s : Storage)
      → Does {C = C}
          (Holds s)
          (λ _. Holds (λ a j. if a == t && k == j then v else s a j))
          Anyhow
          (load_or_halt (rt.sstore t k v false))
  unfolding load_or_halt Holds
  store-Does t k v s = record {
    at = λ f h.
        store_step (λ w. (a j : ℕ) → slots w a j ≡ (if a == t && k == j then v else s a j))
          (rt.sstore t k v false f.world).0 (record f { world = (rt.sstore t k v false f.world).1 })
          λ x c e a j.
            laws.stored t k v false f.world x c e a j
            ∙ ap (λ (d : ℕ). if a == t && k == j then v else d) (h a j);
  }

  commit_storage-Does :
      (t : ℕ) (l : List (ℕ × ℕ)) (s : Storage)
      → Does {C = C} (Holds s) (λ _. Holds (written t l s)) Anyhow (commit_storage rt t l)
  unfolding commit_storage written pure
  commit_storage-Does t [] s = record { at = λ f h. h }
  commit_storage-Does t ((k, v) ∷ l) s =
      Does-bind (load_or_halt (rt.sstore t k v false)) _ (store-Does t k v s)
        λ _. commit_storage-Does t l (λ a j. if a == t && k == j then v else s a j)

  settling : (s : Storage) → IsSettling rt (Holds s) Anyhow
  unfolding Holds
  settling s = record {
    settles = settles s;
    accounts = λ a.
        Keeps-read_or_db (settles s) (rt.load_account a)
          λ f h b j. laws.account a f.world b j ∙ h b j;
    transfers = λ t a v.
        Keeps-read_or_db (settles s) (rt.transfer t a v)
          λ f h b j. laws.transferred t a v f.world b j ∙ h b j;
    logs = λ t p d.
        Keeps-write (settles s) (rt.log t p d) λ f h b j. laws.logged t p d f.world b j ∙ h b j;
    codes = λ t c.
        Keeps-write (settles s) (rt.set_code t c) λ f h b j. laws.coded t c f.world b j ∙ h b j;
  }

  commit_outcome-Does :
      (t : ℕ) (c : ExitCode) (owner : Option ℕ) (o : Outcome) (l : List (ℕ × ℕ)) (s : Storage)
      → some l ≡ o.storage
      → Does {C = C} (Holds s) (λ _. Holds (written t l s)) Anyhow (commit_outcome rt t c owner o)
  unfolding commit_outcome
  commit_outcome-Does t c owner o l s e =
      let k = settling (written t l s) in
      Does-bind (commit_storage rt t _) _
        (subst
          (λ (m : Option (List (ℕ × ℕ))).
            let entries : List (ℕ × ℕ) = elim m [ some x ↦ x | none ↦ [] ] in
            Does {C = C} (Holds s) (λ _. Holds (written t l s)) Anyhow
              (commit_storage rt t entries))
          e (commit_storage-Does t l s))
        λ _.
          Does-after (emit_logs rt t o.logs) _
            (emit_logs-Keeps rt (Holds (written t l s)) Anyhow k t o.logs)
            λ _. Does-Keeps _ (
              update_metadata-Keeps rt (Holds (written t l s)) Anyhow k t c owner o.new_metadata
                o.transfers)

  finish_outcome-Does :
      (t : ℕ) (c : ExitCode) (owner : Option ℕ) (o : Outcome) (l : List (ℕ × ℕ)) (s : Storage)
      → some l ≡ o.storage
      → true ≡ is_ok o.exit_code
      → Does {C = C} (Holds s) (λ _. Holds (written t l s)) Anyhow (finish_outcome rt t c owner o)
  unfolding finish_outcome pure
  finish_outcome-Does t c owner o l s e ok =
      Does-bind _ _
        (subst
          (λ b.
            Does {C = C} (Holds s) (λ _. Holds (written t l s)) Anyhow
              (if b then commit_outcome rt t c owner o else pure c))
          ok (commit_outcome-Does t c owner o l s e))
        λ code'. record { at = λ f h. h }

  refund-world :
      (costs : Option (List (ℕ × ℕ))) (touched : Option (List ℕ)) (f : Frame G W)
      → ((refund_untouched rt costs touched f).0 ≡ next tt)
        × ((refund_untouched rt costs touched f).1.world ≡ f.world)
  unfolding refund_untouched
  refund-world (some costs) (some touched) f = (refl, ground arith)
  refund-world (some costs) none f = (refl, refl)
  refund-world none touched f = (refl, refl)

  refund-Does :
      (costs : Option (List (ℕ × ℕ))) (touched : Option (List ℕ)) (s : Storage)
      → Does {C = C} (Holds s) (λ _. Holds s) Anyhow (refund_untouched rt costs touched)
  unfolding refund_untouched Holds
  refund-Does (some costs) (some touched) s = record {
    at = λ f h a j. ap (λ w. slots w a j) (refund-world (some costs) (some touched) f).1 ∙ h a j;
  }
  refund-Does (some costs) none s = record { at = λ f h. h }
  refund-Does none touched s = record { at = λ f h. h }

  after_next :
      {A : Type 0} (R : A → Frame G W → Type 0) (r : Step C A) (f : Frame G W) (a : A)
      → AfterWith R Anyhow r f
      → r ≡ next a
      → R a f
  after_next R r f a h e = subst (λ x. AfterWith R Anyhow x f) e h

  process_decoded-Does :
      (t : ℕ) (c : ExitCode) (owner : Option ℕ) (costs : Option (List (ℕ × ℕ))) (o : Outcome)
      (l : List (ℕ × ℕ)) (s : Storage)
      → some l ≡ o.storage
      → true ≡ is_ok o.exit_code
      → Does {C = C}
          (Holds s)
          (λ _. Holds (written t l s))
          Anyhow
          (process_decoded rt t c owner costs o)
  unfolding process_decoded
  process_decoded-Does t c owner costs o l s e ok =
      Does-bind (refund_untouched rt costs o.touched_storage_slots) _
        (refund-Does costs o.touched_storage_slots s) λ _. finish_outcome-Does t c owner o l s e ok

or_else-over :
    (m n : Option ℕ) (d : ℕ)
    → ((v : ℕ) → n ≡ some v → d ≡ v)
    → or_else m d ≡ or_else (elim m [ some v ↦ some v | none ↦ n ]) d
or_else-over (some v) n d h = refl
or_else-over none (some v) d h = h v refl
or_else-over none none d h = refl

at_target :
    (a t : ℕ) (x y z : ℕ) → (a ≡ t → x ≡ y) → (if a == t then x else z) ≡ (if a == t then y else z)
at_target a t x y z h = ground arith

-- The storage after the run's diff is written is what the run reads, over what the chain has.
written-peek :
    (t : ℕ) (l : List (ℕ × ℕ)) (s : Storage) (j : JournalStorage)
    → ((k : ℕ) → latest l k ≡ (into_diff j).0 k)
    → ((k v : ℕ) → j.state k ≡ some v → s t k ≡ v)
    → (a k : ℕ) → written t l s a k ≡ (if a == t then or_else (peek j k) (s t k) else s a k)
unfolding into_diff peek
written-peek t l s j diff base a k =
    written-latest t l s a k
    ∙ at_target a t (or_else (latest l k) (s a k)) (or_else (peek j k) (s t k)) (s a k) λ e.
      ap (λ m. or_else m (s a k)) (diff k)
      ∙ ap (λ b. or_else (j.dirty_values k) (s b k)) e
      ∙ or_else-over (j.dirty_values k) (j.state k) (s t k) (base k)

-- If a store that goes through writes its slot and the other operations leave storage alone: for a run
-- that ended with `Ok`, whose outcome lists the diff of its journal and whose journal was loaded from
-- the contract's storage, an outcome that is settled without an error leaves in each slot of the
-- contract what the run reads there, or what the chain had if the run reads nothing, and leaves every
-- slot of any other account as it was.
pub process_decoded-commits :
    {G W C S : Type 0} (rt : Engine G W C S) (slots : W → Storage) (laws : IsSlots rt slots)
    (target : ℕ) (code : ExitCode) (owner : Option ℕ) (costs : Option (List (ℕ × ℕ))) (o : Outcome)
    (f : Frame G W) (l : List (ℕ × ℕ)) (j : JournalStorage) (r : ExitCode × List ℕ)
    → some l ≡ o.storage
    → ((k : ℕ) → latest l k ≡ (into_diff j).0 k)
    → true ≡ is_ok o.exit_code
    → ((k v : ℕ) → j.state k ≡ some v → slots f.world target k ≡ v)
    → (process_decoded rt target code owner costs o f).0 ≡ next r
    → (a k : ℕ)
    → slots (process_decoded rt target code owner costs o f).1.world a k
      ≡ (if a == target then or_else (peek j k) (slots f.world target k) else slots f.world a k)
unfolding Holds
process_decoded-commits rt slots laws target code owner costs o f l j r e diff ok base went a k =
    after_next rt slots laws (λ _. Holds rt slots laws (written target l (slots f.world)))
      (process_decoded rt target code owner costs o f).0
      (process_decoded rt target code owner costs o f).1 r
      ((process_decoded-Does rt slots laws target code owner costs o l (slots f.world) e ok).at f
        λ b i. refl)
      went a k
    ∙ written-peek target l (slots f.world) j diff base a k
