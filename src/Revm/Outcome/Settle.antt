-- ===== src/Revm/Outcome/Settle.antt =====
-- crates/revm/src/executor.rs: what a run of a system contract pays for the slots loaded for it.
use fluentbase.Prelude.{
  ℕ, ◌+◌, ◌≡◌, refl, sym, subst, false, Option, some, List, [], ◌∷◌, arith, if◌then◌else◌,
}
use fluentbase.Types.ExitCode.{ExitCode}
use fluentbase.Types.Genesis.{contains}
use fluentbase.Revm.Engine.{Engine}
use fluentbase.Revm.Interruption.{Exit, Step, next, leave, Frame, ◌>>◌}
use fluentbase.Revm.Keeps.{Keeps, After, Settles, keeps_rules, Keeps-bind, Keeps-pure}
use fluentbase.Revm.Keeps.Rules.{Keeps-load_or_halt, Keeps-read_or_db, Keeps-write}
use fluentbase.Revm.Metering.{IsMeter}
use fluentbase.Revm.Preload.{Loaded, preload}
use fluentbase.Revm.Preload.Cost.{total_cost, preload-cost}
use fluentbase.Revm.Outcome.Keeps.{IsSettling, emit_logs-Keeps, update_metadata-Keeps}
use fluentbase.Revm.Outcome.{
  Outcome, refunded_cost, refund_untouched, commit_storage, commit_outcome, finish_outcome,
  process_decoded,
}

-- The costs of the slots that the run has touched.
unfoldable pub touched_cost : List ℕ → List (ℕ × ℕ) → ℕ
touched_cost touched [] = 0
touched_cost touched ((slot, cost) ∷ costs) =
    (if contains touched slot then cost else 0) + touched_cost touched costs

touched-refunded :
    (touched : List ℕ) (costs : List (ℕ × ℕ))
    → touched_cost touched costs + refunded_cost touched costs ≡ total_cost costs
unfolding touched_cost refunded_cost total_cost
touched-refunded touched [] = refl
touched-refunded touched ((slot, cost) ∷ costs) = ground (arith, touched-refunded touched costs)

-- `Gas::erase_cost` gives gas back.
pub record IsErasing {G W C S : Type 0} (rt : Engine G W C S) : Type 0 where
  pub erased : (c : ℕ) (g : G) → rt.remaining (rt.erase_cost c g) ≡ rt.remaining g + c

module _ {G W C S : Type 0} (rt : Engine G W C S) (r : ℕ) where
  -- The gas is `r`.
  abbrev At : Frame G W → Type 0
  At f = rt.remaining f.gas ≡ r

  abbrev AtEnd : Exit C → Frame G W → Type 0
  AtEnd e f = rt.remaining f.gas ≡ r

  settles : Settles At AtEnd
  settles = record { at = λ e h f p. p }

  settling : IsSettling rt At AtEnd
  settling = record {
    settles = settles;
    accounts = λ a. Keeps-read_or_db settles (rt.load_account a) λ f h. h;
    transfers = λ t a v. Keeps-read_or_db settles (rt.transfer t a v) λ f h. h;
    logs = λ t p d. Keeps-write settles (rt.log t p d) λ f h. h;
    codes = λ t c. Keeps-write settles (rt.set_code t c) λ f h. h;
  }

  commit_storage-Keeps : (t : ℕ) (l : List (ℕ × ℕ)) → Keeps At AtEnd (commit_storage rt t l)
  unfolding commit_storage
  commit_storage-Keeps t [] = Keeps-pure tt
  commit_storage-Keeps t ((k, v) ∷ l) =
      Keeps-bind _ _ (Keeps-load_or_halt settles (rt.sstore t k v false) λ f h. h)
        λ _. commit_storage-Keeps t l

  commit_outcome-Keeps :
      (t : ℕ) (c : ExitCode) (owner : Option ℕ) (o : Outcome)
      → Keeps At AtEnd (commit_outcome rt t c owner o)
  unfolding commit_outcome
  commit_outcome-Keeps t c owner o =
      search
        (
          keeps_rules,
          commit_storage-Keeps,
          emit_logs-Keeps rt At AtEnd settling,
          update_metadata-Keeps rt At AtEnd settling,
        )
        depth 20

  finish_outcome-Keeps :
      (t : ℕ) (c : ExitCode) (owner : Option ℕ) (o : Outcome)
      → Keeps At AtEnd (finish_outcome rt t c owner o)
  unfolding finish_outcome
  finish_outcome-Keeps t c owner o = search (keeps_rules, commit_outcome-Keeps) depth 20

  at_end : {A : Type 0} (s : Step C A) (f : Frame G W) → After At AtEnd s f → At f
  at_end (next a) f h = h
  at_end (leave e) f h = h

refund_untouched-gas :
    {G W C S : Type 0} (rt : Engine G W C S) (e : IsErasing rt) (costs : List (ℕ × ℕ))
    (touched : List ℕ) (f : Frame G W)
    → rt.remaining (refund_untouched rt (some costs) (some touched) f).1.gas
      ≡ rt.remaining f.gas + refunded_cost touched costs
unfolding refund_untouched
refund_untouched-gas rt e costs touched f =
    ground (arith, e.erased (refunded_cost touched costs) f.gas)

known-gas :
    {G W C S : Type 0} (rt : Engine G W C S) (e : IsErasing rt) (target : ℕ) (code : ExitCode)
    (owner : Option ℕ) (costs : List (ℕ × ℕ)) (touched : List ℕ) (o : Outcome) (f : Frame G W)
    → rt.remaining
        ((refund_untouched rt (some costs) (some touched) >> finish_outcome rt target code owner o)
          f).1.gas
      ≡ rt.remaining f.gas + refunded_cost touched costs
unfolding refund_untouched
known-gas rt e target code owner costs touched o f =
    let g = (refund_untouched rt (some costs) (some touched) f).1 in
    at_end rt (rt.remaining f.gas + refunded_cost touched costs) _ _ (
      (finish_outcome-Keeps rt (rt.remaining f.gas + refunded_cost touched costs) target code owner
          o).at
        g (refund_untouched-gas rt e costs touched f))

-- The gas behind the refund is that behind the whole outcome.
settled-gas :
    {G W C S : Type 0} (rt : Engine G W C S) (e : IsErasing rt) (target : ℕ) (code : ExitCode)
    (owner : Option ℕ) (costs : List (ℕ × ℕ)) (touched : List ℕ) {slots : Option (List ℕ)}
    (o : Outcome) (f : Frame G W)
    → some touched ≡ slots
    → rt.remaining
        ((refund_untouched rt (some costs) slots >> finish_outcome rt target code owner o) f).1.gas
      ≡ rt.remaining f.gas + refunded_cost touched costs
settled-gas rt e target code owner costs touched o f h =
    subst
      (λ s.
        rt.remaining
          ((refund_untouched rt (some costs) s >> finish_outcome rt target code owner o) f).1.gas
        ≡ rt.remaining f.gas + refunded_cost touched costs)
      h (known-gas rt e target code owner costs touched o f)

-- If recorded costs are taken from what remains and erased ones given back: where the slots of a frame
-- are loaded, its run uses some gas and its outcome names the slots it has touched, the frame has paid
-- in the end what the run used and the costs of the touched slots, however the outcome is settled.
pub process_decoded-touched :
    {G W C S : Type 0} (rt : Engine G W C S) (address : ℕ) (keys : List ℕ) (f f' : Frame G W)
    (acc : Loaded) (used : ℕ) (code : ExitCode) (owner : Option ℕ) (touched : List ℕ) (o : Outcome)
    → IsMeter rt
    → IsErasing rt
    → (preload rt address keys f).0 ≡ next acc
    → rt.remaining f'.gas + used ≡ rt.remaining (preload rt address keys f).1.gas
    → o.touched_storage_slots ≡ some touched
    → rt.remaining (process_decoded rt address code owner (some acc.costs) o f').1.gas
        + (used + touched_cost touched acc.costs)
      ≡ rt.remaining f.gas
unfolding process_decoded
process_decoded-touched rt address keys f f' acc used code owner touched o m e loaded ran slots =
    omega (
      arith,
      preload-cost rt m address keys f acc loaded,
      touched-refunded touched acc.costs,
      settled-gas rt e address code owner acc.costs touched o f' (sym slots),
    )
