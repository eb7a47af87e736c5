-- ===== src/Rollout/Runs/Sequence.antt =====
-- The steps of a group that is not parallel, in rollout/rollout.go.
use locutus.Prelude.{true, false, ◌≡◌, refl, ◌⊎◌, inl, inr, List, [], ◌∷◌, Bool-cases}
use locutus.Outcome.{Error, wrap, Outcome, ok, err, panic, M, pure, attempt}
use locutus.Env.{Env}
use locutus.Rollout.Types.{Step}
use locutus.Rollout.Runner.{Runner, ObjectState, run_step, handle_error, run_sequential}

module _ (env : Env) (r : Runner env) where
  -- The step ran, and succeeded or may fail.
  abbrev pub Tolerated : Step → ObjectState env → ObjectState env → Type 0
  Tolerated step s s' =
      (run_step env r step s ≡ (ok tt, s'))
      ⊎ ((e : Error) × (run_step env r step s ≡ (err e, s')) × (step.continue_on_error ≡ true))

  -- All the steps ran, each on what the one before it left.
  abbrev pub AllRan : List Step → ObjectState env → ObjectState env → Type 0
  AllRan [] s s' = s ≡ s'
  AllRan (step ∷ steps) s s' = (s₁ : ObjectState env) × Tolerated step s s₁ × AllRan steps s₁ s'

  -- Some steps ran, the next one failed with no leave to, and the rest did not run.
  abbrev pub StoppedBy : Error → List Step → ObjectState env → ObjectState env → Type 0
  StoppedBy e [] s s' = ⊥
  StoppedBy e (step ∷ steps) s s' =
      ((run_step env r step s ≡ (err e, s')) × (step.continue_on_error ≡ false))
      ⊎ ((s₁ : ObjectState env) × Tolerated step s s₁ × StoppedBy e steps s₁ s')

  -- Some steps ran, the next one panicked, and the rest did not run.
  abbrev pub PanickedIn : List Step → ObjectState env → ObjectState env → Type 0
  PanickedIn [] s s' = ⊥
  PanickedIn (step ∷ steps) s s' =
      (run_step env r step s ≡ (panic, s'))
      ⊎ ((s₁ : ObjectState env) × Tolerated step s s₁ × PanickedIn steps s₁ s')

  abbrev pub step_of_loop : Step → M (ObjectState env) (Unit {0})
  step_of_loop step = attempt (run_step env r step) pure (handle_error env step)

  -- The three ways that one round of the loop can end.
  round-ends :
      (step : Step) (s : ObjectState env)
      → ((s₁ : ObjectState env) × (step_of_loop step s ≡ (ok tt, s₁)) × Tolerated step s s₁)
        ⊎ (((e : Error) × (s₁ : ObjectState env) × (step_of_loop step s
                ≡ (err (wrap "run step" [] e), s₁))
              × (run_step env r step s ≡ (err e, s₁))
              × (step.continue_on_error ≡ false))
            ⊎ ((s₁ : ObjectState env) × (step_of_loop step s ≡ (panic, s₁))
                × (run_step env r step s ≡ (panic, s₁))))
  round-ends step s = go (run_step env r step s) refl
    where
      go :
          (o : Outcome (Unit {0}) × ObjectState env)
          → run_step env r step s ≡ o
          → ((s₁ : ObjectState env) × (step_of_loop step s ≡ (ok tt, s₁)) × Tolerated step s s₁)
            ⊎ (((e : Error) × (s₁ : ObjectState env) × (step_of_loop step s
                    ≡ (err (wrap "run step" [] e), s₁))
                  × (run_step env r step s ≡ (err e, s₁))
                  × (step.continue_on_error ≡ false))
                ⊎ ((s₁ : ObjectState env) × (step_of_loop step s ≡ (panic, s₁))
                    × (run_step env r step s ≡ (panic, s₁))))
      go (ok _, s₁) e = inl (s₁, rw e, inl e)
      go (err x, s₁) e = elim (Bool-cases step.continue_on_error) [
        | inl may ↦ inl (s₁, rw (e, may), inr (x, e, may))
        | inr must ↦ inr (inl (x, s₁, rw (e, must), e, must))
      ]
      go (panic, s₁) e = inr (inr (s₁, rw e, e))

  -- How a sequential group can end.
  abbrev pub Ends : List Step → ObjectState env → Outcome (Unit {0}) × ObjectState env → Type 0
  Ends steps s r' =
      ((s' : ObjectState env) × (r' ≡ (ok tt, s')) × AllRan steps s s')
      ⊎ (((e : Error) × (s' : ObjectState env) × (r' ≡ (err (wrap "run step" [] e), s'))
            × StoppedBy e steps s s')
          ⊎ ((s' : ObjectState env) × (r' ≡ (panic, s')) × PanickedIn steps s s'))

  -- A sequential group runs its steps in order, each on what the one before it left. It succeeds if
  -- every step succeeds or fails under `continueOnError`; it fails with the wrapped error of the
  -- first step that fails without, and then no later step runs; or it panics at a step that panics,
  -- after steps that did not stop it.
  pub run_sequential-Ends :
      (steps : List Step) (s : ObjectState env) → Ends steps s (run_sequential env r steps s)
  unfolding run_sequential
  run_sequential-Ends [] s = inl (s, refl, refl)
  run_sequential-Ends (step ∷ steps) s = elim (round-ends step s) [
    | inl (s₁, run, fine) ↦ elim (run_sequential-Ends steps s₁) [
      | inl (s', rest, all) ↦ inl (s', rw (run, rest), (s₁, fine, all))
      | inr (inl (e, s', rest, stop)) ↦ inr (inl (e, s', rw (run, rest), inr (s₁, fine, stop)))
      | inr (inr (s', rest, stop)) ↦ inr (inr (s', rw (run, rest), inr (s₁, fine, stop)))
    ]
    | inr (inl (e, s₁, run, failed, must)) ↦ inr (inl (e, s₁, rw run, inl (failed, must)))
    | inr (inr (s₁, run, panicked)) ↦ inr (inr (s₁, rw run, inl panicked))
  ]
