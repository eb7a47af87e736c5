-- ===== src/Rollout/Runner/Goroutines.antt =====
-- rollout/rollout.go: the goroutines of a parallel group as they interleave. A choice names the
-- goroutine that moves, and what its runStep returns, which matters only where that ends; so the
-- steps may share the cluster and the objects in any way.
use locutus.Prelude.{
  ℕ, zero, suc, Bool, true, false, Option, none, some, List, [], ◌∷◌, if◌then◌else◌,
}
use locutus.Outcome.{Error, append_error, wrap, Outcome, ok, err}

-- Where a goroutine stands. It holds errsLock from `locked` to `stored`, and multierror.Append has
-- read `errs` at `appending`; `returned` has the error that its runStep returned.
pub data Phase : Type 0 where
  running : Phase
  failed : Error → Phase
  locked : Error → Phase
  appending : Error → Option Error → Phase
  stored : Error → Phase
  returned : Option Error → Phase

-- `errs`, and whether `errsLock` is held
pub record Shared : Type 0 where
  pub errs : Option Error
  pub held : Bool

-- `if err := r.runStep(…); err != nil`
abbrev pub after_step : Option Error → Phase
after_step none = returned none
after_step (some e) = failed e

-- One move of a goroutine; it has none while it waits for the lock, and when it has returned.
abbrev pub advance : Option Error → Shared → Phase → Option (Shared × Phase)
advance result m running = some (m, after_step result)
advance result m (failed e) = if m.held then none else some (record m { held = true }, locked e)
advance result m (locked e) = some (m, appending e m.errs)
advance result m (appending e old) = some (record m { errs = some (append_error old e) }, stored e)
advance result m (stored e) = some (record m { held = false }, returned (some e))
advance result m (returned err') = none

pub record Group : Type 0 where
  pub shared : Shared
  pub goroutines : List Phase

abbrev pub with_first : List Phase → Option (Shared × Phase) → Option (Shared × List Phase)
with_first ps none = none
with_first ps (some (m, p)) = some (m, p ∷ ps)

abbrev pub with_rest : Phase → Option (Shared × List Phase) → Option (Shared × List Phase)
with_rest p none = none
with_rest p (some (m, ps)) = some (m, p ∷ ps)

-- A move of the goroutine at this place.
unfoldable pub move_at : ℕ → Option Error → Shared → List Phase → Option (Shared × List Phase)
move_at i result m [] = none
move_at zero result m (p ∷ ps) = with_first ps (advance result m p)
move_at (suc i) result m (p ∷ ps) = with_rest p (move_at i result m ps)

abbrev pub to_group : Option (Shared × List Phase) → Option Group
to_group none = none
to_group (some (m, ps)) = some (record { shared = m; goroutines = ps })

abbrev pub move : ℕ × Option Error → Group → Option Group
move (i, result) g = to_group (move_at i result g.shared g.goroutines)

-- The loop over the steps has started a goroutine for each.
unfoldable pub running_each : ℕ → List Phase
running_each zero = []
running_each (suc n) = running ∷ running_each n

abbrev pub start_group : ℕ → Group
start_group n = record {
  shared = record { errs = none; held = false };
  goroutines = running_each n;
}

-- The moves in this order, if each of them can be made.
unfoldable pub interleave : List (ℕ × Option Error) → Group → Option Group
interleave [] g = some g
interleave (c ∷ cs) g = elim (move c g) [ none ↦ none | some g' ↦ interleave cs g' ]

-- wg.Wait() is over
unfoldable pub all_returned : List Phase → Bool
all_returned [] = true
all_returned (returned e ∷ ps) = all_returned ps
all_returned (running ∷ ps) = false
all_returned (failed e ∷ ps) = false
all_returned (locked e ∷ ps) = false
all_returned (appending e old ∷ ps) = false
all_returned (stored e ∷ ps) = false

-- what follows wg.Wait()
abbrev pub group_result : Option Error → Outcome (Unit {0})
group_result none = ok tt
group_result (some errs) = err (wrap "failed to run step" [] errs)
