-- ===== src/Types/Tests.antt =====
-- Runs of the journal and of the exit codes of crates/types on concrete input.
use fluentbase.Prelude.{◌≡◌, ◌≢◌, refl, some, none, List, [], ◌∷◌, if◌then◌else◌, ◌==◌}
use fluentbase.Types.Journal.{Map, new, into_diff, storage, write_storage, peek, touch}
use fluentbase.Types.Journal.Overlay.{
  Access, read, write, run, run_map, commit, commit-run, into_diff-run,
}

abbrev base : Map
base k = if k == 1 then some 5 else none

-- Slot 1 is written twice, the second time with what it held; slot 2 is new.
abbrev calls : List Access
calls = read 1 ∷ write 1 6 ∷ write 2 7 ∷ write 1 5 ∷ read 2 ∷ []

commit-run_example : commit (into_diff (run calls (new base))).0 base 2 ≡ run_map calls base 2
commit-run_example = commit-run calls base 2

into_diff-run_example : base 2 ≢ some 7
unfolding into_diff run storage write_storage peek touch
into_diff-run_example = into_diff-run calls base 2 7 refl
