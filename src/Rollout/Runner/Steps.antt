-- ===== src/Rollout/Runner/Steps.antt =====
-- rollout/rollout.go: a step, and the steps of a group, in sequence or in parallel.
use locutus.Rollout.Runner.Objects.{Actions, execute_action}
use locutus.Prelude.{ℕ, String, Bool, Option, none, some, List, [], ◌∷◌, if◌then◌else◌}
use mathlib.Core.List.{Perm}
use locutus.Outcome.{
  Error, text, wrap, mask, append_error, err, panic, M, pure, throw, attempt, wrapping, ◌>>=◌, ◌>>◌,
}
use locutus.Maps.{Assoc, lookup, insert}
use locutus.Env.{Env}
use locutus.Client.{Client}
use locutus.Rollout.Types.{Step, RolloutGroup, RenderResult}
use locutus.Rollout.Checks.{Checks, run_checks}

-- The counters of rolloutMetrics; each observed duration counts as one.
pub record RolloutMetrics : Type 0 where
  pub execution_durations : ℕ
  pub executions : ℕ
  pub executions_failed : ℕ

module _ (env : Env) where
  open env use {World, Obj}

  -- The order in which the runtime runs the goroutines of a group: a parallel group is run as its
  -- steps one by one in some order, chosen by the environment.
  abbrev pub Schedule : Type 0
  Schedule = (steps : List Step) → (ordered : List Step) × Perm ordered steps

  pub record Runner : Type 0 where
    pub client : Client env
    pub actions : Actions env
    pub checks : Checks env
    pub provider : Option String → M World (RenderResult env)
    pub encode : RenderResult env → M World (Unit {0})
    pub render_only : Bool
    pub schedule : Schedule

  -- NewRunner; the metrics are the state of Execute, and what it encodes to and the order of the
  -- goroutines come from outside.
  abbrev pub new_runner :
      Client env
      → (Option String → M World (RenderResult env))
      → Checks env
      → Bool
      → (RenderResult env → M World (Unit {0}))
      → Schedule
      → Runner
  new_runner client renderer checks render_only encode schedule = record {
    client = client;
    actions = [];
    checks = checks;
    provider = renderer;
    encode = encode;
    render_only = render_only;
    schedule = schedule;
  }

  -- The world and the objects of the render result.
  abbrev pub ObjectState : Type 0
  ObjectState = World × Assoc Obj

  -- an action on one object of the render result
  abbrev pub on_named : {A : Type 0} → String → Obj → M (World × Obj) A → M ObjectState A
  on_named key object m (w, objects) =
      let (o, (w', object')) = m (w, object) in (o, (w', insert key object' objects))

  abbrev pub check_named : Runner → Step → String → M ObjectState (Unit {0})
  check_named r step key (w, objects) = elim (lookup key objects) [
    | none ↦ (panic, (w, objects))
    | some object ↦
        let (o, w') = run_checks env r.checks step.success object w in (o, (w', objects))
  ]

  unfoldable pub run_step : Runner → Step → M ObjectState (Unit {0})
  run_step r step (w, objects) = elim (lookup step.object objects) [
    | none ↦ (err (text "could not find object named %q" (step.object ∷ [])), (w, objects))
    | some object ↦
        (wrapping (mask "failed to execute action (%s): %v" (step.action ∷ []))
              (on_named step.object object (execute_action env r.client r.actions step.action))
            >> check_named r step step.object)
          (w, objects)
  ]

  -- What the error of a step does to the group: nothing under `continueOnError`.
  abbrev pub handle_error : Step → Error → M ObjectState (Unit {0})
  handle_error step e = if step.continue_on_error then pure tt else throw (wrap "run step" [] e)

  -- the loop over the steps, without `parallel`
  unfoldable pub run_sequential : Runner → List Step → M ObjectState (Unit {0})
  run_sequential r [] = pure tt
  run_sequential r (step ∷ steps) =
      attempt (run_step r step) pure (handle_error step) >> run_sequential r steps

  -- The goroutines, and the errors that they have collected when all have ended.
  unfoldable pub run_goroutines : Runner → List Step → Option Error → M ObjectState (Option Error)
  run_goroutines r [] errs = pure errs
  run_goroutines r (step ∷ steps) errs =
      attempt (run_step r step) (λ _. run_goroutines r steps errs)
        (λ e. run_goroutines r steps (some (append_error errs e)))

  abbrev pub after_wait : Option Error → M ObjectState (Unit {0})
  after_wait none = pure tt
  after_wait (some errs) = throw (wrap "failed to run step" [] errs)

  unfoldable pub run_parallel : Runner → List Step → M ObjectState (Unit {0})
  unfolding run_goroutines
  run_parallel r steps = do errs ← run_goroutines r (r.schedule steps).0 none; after_wait errs

  unfoldable pub run_group : Runner → RolloutGroup → M ObjectState (Unit {0})
  run_group r group =
      if group.parallel then run_parallel r group.steps else run_sequential r group.steps
