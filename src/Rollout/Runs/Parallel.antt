-- ===== src/Rollout/Runs/Parallel.antt =====
-- The steps of a parallel group, in rollout/rollout.go.
use locutus.Prelude.{◌≡◌, refl, ◌⊎◌, inl, inr, Option, none, some, List, [], ◌∷◌}
use mathlib.Core.List.{Perm}
use locutus.Outcome.{Error, wrap, append_error, Outcome, ok, err, panic}
use locutus.Env.{Env}
use locutus.Rollout.Types.{Step}
use locutus.Rollout.Runner.{Runner, ObjectState, run_step, run_goroutines, run_parallel}

-- multierror.Append of all these errors to the errors so far.
abbrev pub append_all : Option Error → List Error → Option Error
append_all errs [] = errs
append_all errs (e ∷ es) = append_all (some (append_error errs e)) es

pub append_all-some :
    (x : Error) (es : List Error) → (y : Error) × (append_all (some x) es ≡ some y)
append_all-some x [] = (x, refl)
append_all-some x (e ∷ es) = append_all-some (append_error (some x) e) es

module _ (env : Env) (r : Runner env) where
  -- All the steps ran, each on what the one before it left, and these are the errors, in order.
  abbrev pub Collected : List Step → List Error → ObjectState env → ObjectState env → Type 0
  Collected [] es s s' = (es ≡ []) × (s ≡ s')
  Collected (step ∷ steps) es s s' =
      ((s₁ : ObjectState env) × (run_step env r step s ≡ (ok tt, s₁)) × Collected steps es s₁ s')
      ⊎ ((e : Error) × (es' : List Error) × (s₁ : ObjectState env) × (run_step env r step s
            ≡ (err e, s₁))
          × (es ≡ e ∷ es')
          × Collected steps es' s₁ s')

  -- Some steps ran, the next one panicked, and the rest did not run.
  abbrev pub PanickedAmong : List Step → ObjectState env → ObjectState env → Type 0
  PanickedAmong [] s s' = ⊥
  PanickedAmong (step ∷ steps) s s' =
      (run_step env r step s ≡ (panic, s'))
      ⊎ ((s₁ : ObjectState env) × ((run_step env r step s ≡ (ok tt, s₁))
            ⊎ ((e : Error) × (run_step env r step s ≡ (err e, s₁))))
          × PanickedAmong steps s₁ s')

  abbrev Collects :
      List Step → Option Error → ObjectState env → Outcome (Option Error) × ObjectState env → Type 0
  Collects steps errs s r' =
      ((es : List Error) × (s' : ObjectState env) × (r' ≡ (ok (append_all errs es), s'))
        × Collected steps es s s')
      ⊎ ((s' : ObjectState env) × (r' ≡ (panic, s')) × PanickedAmong steps s s')

  run_goroutines-Collects :
      (steps : List Step) (errs : Option Error) (s : ObjectState env)
      → Collects steps errs s (run_goroutines env r steps errs s)
  unfolding run_goroutines
  run_goroutines-Collects [] errs s = inl ([], s, refl, (refl, refl))
  run_goroutines-Collects (step ∷ steps) errs s =
      let next = run_goroutines-Collects steps in go (run_step env r step s) refl next
    where
      go :
          (o : Outcome (Unit {0}) × ObjectState env)
          → run_step env r step s ≡ o
          → ((errs : Option Error) (s : ObjectState env)
              → Collects steps errs s (run_goroutines env r steps errs s))
          → Collects (step ∷ steps) errs s (run_goroutines env r (step ∷ steps) errs s)
      go (ok _, s₁) ran next = elim (next errs s₁) [
        | inl (es, s', run, all) ↦ inl (es, s', rw (ran, run), inl (s₁, ran, all))
        | inr (s', run, stop) ↦ inr (s', rw (ran, run), inr (s₁, inl ran, stop))
      ]
      go (err e, s₁) ran next = elim (next (some (append_error errs e)) s₁) [
        | inl (es, s', run, all) ↦ inl (e ∷ es, s', rw (ran, run), inr (e, es, s₁, ran, refl, all))
        | inr (s', run, stop) ↦ inr (s', rw (ran, run), inr (s₁, inr (e, ran), stop))
      ]
      go (panic, s₁) ran next = inr (s₁, rw ran, inl ran)

  -- How a parallel group can end.
  abbrev pub ParallelEnds :
      List Step → ObjectState env → Outcome (Unit {0}) × ObjectState env → Type 0
  ParallelEnds steps s r' =
      ((s' : ObjectState env) × (r' ≡ (ok tt, s')) × Collected steps [] s s')
      ⊎ (((e : Error) × (es : List Error) × (errs : Error) × (s' : ObjectState env) × (r'
              ≡ (err (wrap "failed to run step" [] errs), s'))
            × (append_all none (e ∷ es) ≡ some errs)
            × Collected steps (e ∷ es) s s')
          ⊎ ((s' : ObjectState env) × (r' ≡ (panic, s')) × PanickedAmong steps s s'))

  scheduled-ParallelEnds :
      (steps : List Step) (s : ObjectState env)
      → ParallelEnds (r.schedule steps).0 s (run_parallel env r steps s)
  unfolding run_parallel
  scheduled-ParallelEnds steps s = elim (run_goroutines-Collects (r.schedule steps).0 none s) [
    | inl ([], s', run, all) ↦ inl (s', rw run, all)
    | inl (e ∷ es, s', run, all) ↦
        let (errs, known) = append_all-some (append_error none e) es in
        inr (inl (e, es, errs, s', rw (run, known), known, all))
    | inr (s', run, stop) ↦ inr (inr (s', rw run, stop))
  ]

  -- A parallel group runs all of its steps, in some order, each on what the one before it left,
  -- whatever fails. It succeeds if none of them fails; otherwise it fails with a multierror that
  -- holds the error of every step that failed, also of one with `continueOnError`; or it panics at
  -- a step that panics, after steps that succeeded or failed.
  pub run_parallel-ParallelEnds :
      (steps : List Step) (s : ObjectState env)
      → (ordered : List Step) × Perm ordered steps
        × ParallelEnds ordered s (run_parallel env r steps s)
  run_parallel-ParallelEnds steps s =
      let (ordered, all) = r.schedule steps in (ordered, all, scheduled-ParallelEnds steps s)
