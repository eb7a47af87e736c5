-- ===== src/Rollout/Runs/Interleaved/Results.antt =====
-- What the steps of a parallel group returned, by the moves alone: the first move of a goroutine is
-- the one in which its runStep ends, with what the move names.
use locutus.Prelude.{
  ℕ, zero, suc, true, ◌≡◌, refl, sym, ap, ◌∙◌, inl, inr, Option, none, some, List, [], ◌∷◌, map,
  Bool-cases,
}
use locutus.Outcome.{Error}
use locutus.Rollout.Runner.Goroutines.{
  Phase, running, failed, locked, appending, stored, returned, Shared, Group, advance, with_first,
  with_rest, move_at, to_group, running_each, start_group, interleave,
}

abbrev pub or_first : Option Error → Option (Option Error) → Option (Option Error)
or_first result none = some result
or_first result (some r) = some r

-- A move of the goroutine at this place, whose step has ended before or ends now.
abbrev pub put_result :
    ℕ → Option Error → List (Option (Option Error)) → List (Option (Option Error))
put_result i result [] = []
put_result zero result (r ∷ rs) = or_first result r ∷ rs
put_result (suc i) result (r ∷ rs) = r ∷ put_result i result rs

abbrev pub put_results :
    List (ℕ × Option Error) → List (Option (Option Error)) → List (Option (Option Error))
put_results [] rs = rs
put_results (c ∷ cs) rs = put_results cs (put_result c.0 c.1 rs)

abbrev pub no_results : ℕ → List (Option (Option Error))
no_results zero = []
no_results (suc n) = none ∷ no_results n

-- The errors among what the steps returned.
abbrev pub errors_of : List (Option (Option Error)) → List Error
errors_of [] = []
errors_of (none ∷ rs) = errors_of rs
errors_of (some none ∷ rs) = errors_of rs
errors_of (some (some e) ∷ rs) = e ∷ errors_of rs

-- The errors that the steps of n goroutines returned, in their order, when these moves were made.
abbrev pub step_errors : ℕ → List (ℕ × Option Error) → List Error
step_errors n cs = errors_of (put_results cs (no_results n))

-- What a goroutine holds of the result of its step.
abbrev pub carried : Phase → Option (Option Error)
carried running = none
carried (failed e) = some (some e)
carried (locked e) = some (some e)
carried (appending e old) = some (some e)
carried (stored e) = some (some e)
carried (returned result) = some result

advance-carried :
    (result : Option Error) (m m' : Shared) (p p' : Phase)
    → advance result m p ≡ some (m', p')
    → carried p' ≡ or_first result (carried p)
advance-carried none m m' running p' h = let next : returned none ≡ p' = cc in ap carried (sym next)
advance-carried (some e) m m' running p' h = let next : failed e ≡ p' = cc in ap carried (sym next)
advance-carried result m m' (failed e) p' h = elim (Bool-cases m.held) [
  | inl held ↦ absurd (cc (rw held at h))
  | inr free ↦
      let h' : ◌≡◌ {A = Option (Shared × Phase)} (some (record m { held = true }, locked e))
          (some (m', p')) =
        rw free at h in
      let next : locked e ≡ p' = cc in ap carried (sym next)
]
advance-carried result m m' (locked e) p' h =
    let next : appending e m.errs ≡ p' = cc in ap carried (sym next)
advance-carried result m m' (appending e old) p' h =
    let next : stored e ≡ p' = cc in ap carried (sym next)
advance-carried result m m' (stored e) p' h =
    let next : returned (some e) ≡ p' = cc in ap carried (sym next)
advance-carried result m m' (returned e) p' h = cc

move_at-carried :
    (i : ℕ) (result : Option Error) (m m' : Shared) (ps ps' : List Phase)
    → move_at i result m ps ≡ some (m', ps')
    → map carried ps' ≡ put_result i result (map carried ps)
unfolding move_at
move_at-carried i result m m' [] ps' h = cc
move_at-carried zero result m m' (p ∷ ps) ps' h = go (advance result m p) refl h
  where
    go :
        (o : Option (Shared × Phase))
        → advance result m p ≡ o
        → with_first ps o ≡ some (m', ps')
        → map carried ps' ≡ or_first result (carried p) ∷ map carried ps
    go none e h = cc
    go (some (m₁, p₁)) e h =
        let same : p₁ ∷ ps ≡ ps' = cc in
        ap (map carried) (sym same)
        ∙ ap (λ x. x ∷ map carried ps) (advance-carried result m m₁ p p₁ e)
move_at-carried (suc i) result m m' (p ∷ ps) ps' h =
    go (move_at i result m ps) (move_at-carried i result m m' ps) h
  where
    go :
        (o : Option (Shared × List Phase))
        → ((ps₁ : List Phase)
            → o ≡ some (m', ps₁)
            → map carried ps₁ ≡ put_result i result (map carried ps))
        → with_rest p o ≡ some (m', ps')
        → map carried ps' ≡ carried p ∷ put_result i result (map carried ps)
    go none ih h = cc
    go (some (m₁, ps₁)) ih h =
        let same : p ∷ ps₁ ≡ ps' = cc in
        let one : m₁ ≡ m' = cc in
        ap (map carried) (sym same) ∙ ap (λ l. carried p ∷ l) (ih ps₁ (ap (λ x. some (x, ps₁)) one))

interleave-carried :
    (cs : List (ℕ × Option Error)) (g g' : Group)
    → interleave cs g ≡ some g'
    → map carried g'.goroutines ≡ put_results cs (map carried g.goroutines)
unfolding interleave
interleave-carried [] g g' h =
    let same : g ≡ g' = cc in ap (λ (x : Group). map carried x.goroutines) (sym same)
interleave-carried ((i, result) ∷ cs) g g' h =
    go (move_at i result g.shared g.goroutines) refl (interleave-carried cs) h
  where
    go :
        (o : Option (Shared × List Phase))
        → move_at i result g.shared g.goroutines ≡ o
        → ((g₁ g' : Group)
            → interleave cs g₁ ≡ some g'
            → map carried g'.goroutines ≡ put_results cs (map carried g₁.goroutines))
        → elim (to_group o) as (λ _. Option Group) [ none ↦ none | some g₁ ↦ interleave cs g₁ ]
          ≡ some g'
        → map carried g'.goroutines
          ≡ put_results cs (put_result i result (map carried g.goroutines))
    go none e ih h = cc
    go (some (m, ps)) e ih h =
        ih (record { shared = m; goroutines = ps }) g' h
        ∙ ap (put_results cs) (move_at-carried i result g.shared m g.goroutines ps e)

start-carried : (n : ℕ) → map carried (running_each n) ≡ no_results n
unfolding running_each
start-carried zero = refl
start-carried (suc n) = ap (λ l. none ∷ l) (start-carried n)

pub interleave-results :
    (n : ℕ) (cs : List (ℕ × Option Error)) (g : Group)
    → interleave cs (start_group n) ≡ some g
    → map carried g.goroutines ≡ put_results cs (no_results n)
interleave-results n cs g h =
    interleave-carried cs (start_group n) g h ∙ ap (put_results cs) (start-carried n)
