-- ===== src/Rollout/Runs/Interleaved/InOrder.antt =====
-- The goroutines one after the other, as run_goroutines runs them, are one way to interleave.
use locutus.Rollout.Runs.Interleaved.Progress.{length}
use locutus.Prelude.{
  ℕ, true, false, ◌≡◌, refl, sym, ap, ◌∙◌, subst, Option, none, some, List, [], ◌∷◌, ◌++◌, map,
}
use mathlib.Core.List.{append_assoc, append-nil}
use locutus.Outcome.{Error, append_error, Outcome, ok, err, panic}
use locutus.Env.{Env}
use locutus.Rollout.Types.{Step}
use locutus.Rollout.Runner.{Runner, ObjectState, run_step, run_goroutines}
use locutus.Rollout.Runner.Goroutines.{
  Phase, running, failed, locked, appending, stored, returned, Shared, Group, advance, with_rest,
  move_at, to_group, move, running_each, start_group, interleave, all_returned,
}

abbrev unlocked : Option Error → List Phase → Group
unlocked errs ps = record { shared = record { errs = errs; held = false }; goroutines = ps }

move_at-behind :
    (result : Option Error) (m m' : Shared) (p p' : Phase) (before behind : List Phase)
    → advance result m p ≡ some (m', p')
    → move_at (length before) result m (before ++ (p ∷ behind)) ≡ some (m', before ++ (p' ∷ behind))
unfolding move_at
move_at-behind result m m' p p' [] behind h = rw h
move_at-behind result m m' p p' (q ∷ before) behind h =
    ap (with_rest q) (move_at-behind result m m' p p' before behind h)

-- The moves of a goroutine whose step fails, if no other moves meanwhile.
abbrev failing : ℕ → Error → List (ℕ × Option Error) → List (ℕ × Option Error)
failing i e cs = (i, some e) ∷ (i, none) ∷ (i, none) ∷ (i, none) ∷ (i, none) ∷ cs

interleave-cons :
    (c : ℕ × Option Error) (cs : List (ℕ × Option Error)) (g g' : Group)
    → move c g ≡ some g'
    → interleave (c ∷ cs) g ≡ interleave cs g'
unfolding interleave
interleave-cons c cs g g' h =
    ap (λ o. elim o as (λ _. Option Group) [ none ↦ none | some g₁ ↦ interleave cs g₁ ]) h

module _ (before behind : List Phase) where
  abbrev place : Shared → Phase → Group
  place m p = record { shared = m; goroutines = before ++ (p ∷ behind) }

  interleave-advance :
      (result : Option Error) (cs : List (ℕ × Option Error)) (m m' : Shared) (p p' : Phase)
      → advance result m p ≡ some (m', p')
      → interleave ((length before, result) ∷ cs) (place m p) ≡ interleave cs (place m' p')
  interleave-advance result cs m m' p p' h =
      interleave-cons (length before, result) cs (place m p) (place m' p')
        (ap to_group (move_at-behind result m m' p p' before behind h))

  interleave-failing :
      (errs : Option Error) (e : Error) (cs : List (ℕ × Option Error))
      → interleave
          (failing (length before) e cs)
          (place (record { errs = errs; held = false }) running)
        ≡ interleave cs
            (place (record { errs = some (append_error errs e); held = false }) (returned (some e)))
  interleave-failing errs e cs =
      let i = length before in
      let free : Shared = record { errs = errs; held = false } in
      let taken : Shared = record { errs = errs; held = true } in
      let put : Shared = record { errs = some (append_error errs e); held = true } in
      interleave-advance (some e) ((i, none) ∷ (i, none) ∷ (i, none) ∷ (i, none) ∷ cs) free free
        running (failed e) refl
      ∙ interleave-advance none ((i, none) ∷ (i, none) ∷ (i, none) ∷ cs) free taken (failed e)
          (locked e) refl
      ∙ interleave-advance none ((i, none) ∷ (i, none) ∷ cs) taken taken (locked e)
          (appending e errs) refl
      ∙ interleave-advance none ((i, none) ∷ cs) taken put (appending e errs) (stored e) refl
      ∙ interleave-advance none cs put (record put { held = false }) (stored e) (returned (some e))
          refl

returned-append :
    (ps : List Phase) (result : Option Error)
    → all_returned ps ≡ true
    → all_returned (ps ++ (returned result ∷ [])) ≡ true
unfolding all_returned
returned-append [] result h = refl
returned-append (returned e ∷ ps) result h = returned-append ps result h
returned-append (running ∷ ps) result h = cc
returned-append (failed e ∷ ps) result h = cc
returned-append (locked e ∷ ps) result h = cc
returned-append (appending e old ∷ ps) result h = cc
returned-append (stored e ∷ ps) result h = cc

-- Some moves from this group end all of its goroutines, with these errors of theirs, and these in
-- `errs`.
abbrev pub Ends : Group → List Phase → Option Error → Type 0
Ends g ps errs =
    (cs : List (ℕ × Option Error)) × (g' : Group) × (interleave cs g ≡ some g')
    × (all_returned g'.goroutines ≡ true)
    × (g'.goroutines ≡ ps)
    × (g'.shared.errs ≡ errs)

module _ (env : Env) (r : Runner env) where
  -- The steps ran, each on what the one before it left, and this is what each of them returned.
  abbrev pub Ran : List Step → List (Option Error) → ObjectState env → ObjectState env → Type 0
  Ran [] [] s s' = s ≡ s'
  Ran (step ∷ steps) (none ∷ results) s s' =
      (s₁ : ObjectState env) × (run_step env r step s ≡ (ok tt, s₁)) × Ran steps results s₁ s'
  Ran (step ∷ steps) (some e ∷ results) s s' =
      (s₁ : ObjectState env) × (run_step env r step s ≡ (err e, s₁)) × Ran steps results s₁ s'
  Ran [] (_ ∷ _) s s' = ⊥
  Ran (_ ∷ _) [] s s' = ⊥

  in_order :
      (steps : List Step) (errs final : Option Error) (s s' : ObjectState env) (before : List Phase)
      → all_returned before ≡ true
      → run_goroutines env r steps errs s ≡ (ok final, s')
      → (results : List (Option Error)) × Ran steps results s s'
        × Ends
            (unlocked errs (before ++ running_each (length steps)))
            (before ++ map returned results)
            final
  unfolding run_goroutines running_each interleave
  in_order [] errs final s s' before over h = (
    [],
    ap (λ x. x.1) h,
    (
      [],
      unlocked errs (before ++ []),
      refl,
      subst (λ l. all_returned l ≡ true) (sym (append-nil before)) over,
      refl,
      cc,
    ),
  )
  in_order (step ∷ steps) errs final s s' before over h =
      go (run_step env r step s) refl (in_order steps) h
    where
      go :
          (o : Outcome (Unit {0}) × ObjectState env)
          → run_step env r step s ≡ o
          → ((errs final : Option Error) (s s' : ObjectState env) (before : List Phase)
              → all_returned before ≡ true
              → run_goroutines env r steps errs s ≡ (ok final, s')
              → (results : List (Option Error)) × Ran steps results s s'
                × Ends
                    (unlocked errs (before ++ running_each (length steps)))
                    (before ++ map returned results)
                    final)
          → run_goroutines env r (step ∷ steps) errs s ≡ (ok final, s')
          → (results : List (Option Error)) × Ran (step ∷ steps) results s s'
            × Ends
                (unlocked errs (before ++ (running ∷ running_each (length steps))))
                (before ++ map returned results)
                final
      go (ok _, s₁) ran ih h =
          let (results, runs, (cs, g, moves, ended, each, same)) =
            ih errs final s₁ s' (before ++ (returned none ∷ [])) (returned-append before none over)
              (rw ran at h) in
          (
            none ∷ results,
            (s₁, ran, runs),
            (
              (length before, none) ∷ cs,
              g,
              interleave-advance before (running_each (length steps)) none cs
                    (record { errs = errs; held = false }) (record { errs = errs; held = false })
                    running (returned none) refl
                  ∙ ap (λ l. interleave cs (unlocked errs l))
                      (sym (append_assoc before (returned none ∷ []) (running_each (length steps))))
                  ∙ moves,
              ended,
              each ∙ append_assoc before (returned none ∷ []) (map returned results),
              same,
            ),
          )
      go (err e, s₁) ran ih h =
          let errs' = some (append_error errs e) in
          let (results, runs, (cs, g, moves, ended, each, same)) =
            ih errs' final s₁ s' (before ++ (returned (some e) ∷ []))
              (returned-append before (some e) over) (rw ran at h) in
          (
            some e ∷ results,
            (s₁, ran, runs),
            (
              failing (length before) e cs,
              g,
              interleave-failing before (running_each (length steps)) errs e cs
                  ∙ ap (λ l. interleave cs (unlocked errs' l))
                      (sym (
                        append_assoc before (returned (some e) ∷ []) (running_each (length steps))))
                  ∙ moves,
              ended,
              each ∙ append_assoc before (returned (some e) ∷ []) (map returned results),
              same,
            ),
          )
      go (panic, s₁) ran ih h = absurd (cc (rw ran at h))

  -- What a parallel group collects when its steps run one after the other, without a panic, is what
  -- some interleaving of as many goroutines collects that ends with all of them returned, each with
  -- just what its step returned.
  pub run_goroutines-interleave :
      (steps : List Step) (errs : Option Error) (s s' : ObjectState env)
      → run_goroutines env r steps none s ≡ (ok errs, s')
      → (results : List (Option Error)) × Ran steps results s s'
        × Ends (start_group (length steps)) (map returned results) errs
  unfolding all_returned
  run_goroutines-interleave steps errs s s' h = in_order steps none errs s s' [] refl h
