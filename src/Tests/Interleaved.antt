-- ===== src/Tests/Interleaved.antt =====
-- Instances of the theorems on the interleaved goroutines of a parallel group.
use locutus.Rollout.Runs.Interleaved.Results.{step_errors}
use locutus.Prelude.{
  ℕ, ◌*◌, ◌≤◌, true, false, ◌≡◌, ◌⊎◌, refl, Option, none, some, List, [], ◌∷◌, map,
}
use locutus.Outcome.{Error, text, external, append_error, ok}
use locutus.Maps.{lookup}
use locutus.Tests.Cluster.{cluster}
use locutus.Tests.Runs.{runner, step}
use locutus.Rollout.Runner.{run_step, run_goroutines}
use locutus.Rollout.Runs.Interleaved.InOrder.{Ran, Ends, run_goroutines-interleave}
use locutus.Rollout.Runner.Goroutines.{
  Group, returned, interleave, move, move_at, running_each, start_group, all_returned,
}
use locutus.Rollout.Runs.Interleaved.Collected.{GroupEnds, interleave-GroupEnds}
use locutus.Rollout.Runs.Interleaved.Progress.{length, interleave-ends}

abbrev refused : Error
refused = external "refused"

abbrev denied : Error
denied = external "denied"

-- Both of the first two steps fail; the second one gets the lock first, and the third succeeds.
abbrev moves : List (ℕ × Option Error)
moves =
    (0, some refused)
    ∷ (1, some denied)
    ∷ (1, none)
    ∷ (2, none)
    ∷ (1, none)
    ∷ (1, none)
    ∷ (1, none)
    ∷ (0, none)
    ∷ (0, none)
    ∷ (0, none)
    ∷ (0, none)
    ∷ []

abbrev ended : Group
ended = record {
  shared = record {
    errs = some (append_error (some (append_error none denied)) refused);
    held = false;
  };
  goroutines = returned (some refused) ∷ returned (some denied) ∷ returned none ∷ [];
}

moves_end : interleave moves (start_group 3) ≡ some ended
unfolding interleave move_at running_each
moves_end = refl

all_ended : all_returned ended.goroutines ≡ true
unfolding all_returned
all_ended = refl

-- While one goroutine holds the lock, another cannot get it.
abbrev both_failed : List (ℕ × Option Error)
both_failed = (0, some refused) ∷ (1, some denied) ∷ (1, none) ∷ (0, none) ∷ []

blocked : interleave both_failed (start_group 2) ≡ none
unfolding interleave move_at running_each
blocked = refl

interleave-GroupEnds_example : GroupEnds (step_errors 3 moves) ended
interleave-GroupEnds_example = interleave-GroupEnds 3 moves ended moves_end all_ended

interleave-ends_example :
    (length moves ≤ 5 * 3)
    × (length ended.goroutines ≡ 3)
    × ((all_returned ended.goroutines ≡ true)
        ⊎ ((i : ℕ) × ((result : Option Error) → (g' : Group) × (move (i, result) ended ≡ some g'))))
interleave-ends_example = interleave-ends 3 moves ended moves_end

-- The step's object is not in the render result.
abbrev not_found : Error
not_found = text "could not find object named %q" ("web" ∷ [])

ran :
    run_goroutines cluster runner (step false "web" ∷ []) none ([], [])
    ≡ (ok (some (append_error none not_found)), ([], []))
unfolding run_goroutines run_step lookup
ran = refl

run_goroutines-interleave_example :
    (results : List (Option Error)) × Ran cluster runner
      (step false "web" ∷ [])
      results
      ([], [])
      ([], [])
    × Ends (start_group 1) (map returned results) (some (append_error none not_found))
run_goroutines-interleave_example =
    run_goroutines-interleave cluster runner (step false "web" ∷ [])
      (some (append_error none not_found)) ([], []) ([], []) ran
