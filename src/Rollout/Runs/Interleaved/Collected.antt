-- ===== src/Rollout/Runs/Interleaved/Collected.antt =====
-- What `errs` holds, whichever way the goroutines interleave.
use locutus.Rollout.Runs.Interleaved.Moves.{Moved, interleave-keeps}
use locutus.Rollout.Runs.Interleaved.Locked.{
  Reads, All-append-inv, IsLocked, Moved-IsLocked, start-IsLocked,
}
use locutus.Rollout.Runs.Interleaved.Results.{carried, errors_of, step_errors, interleave-results}
use locutus.Rollout.Runs.Parallel.{append_all, append_all-some}
use locutus.Prelude.{
  ℕ, zero, suc, true, false, ◌≡◌, ◌≢◌, refl, sym, ap, ◌∙◌, subst, ◌⊎◌, inl, inr, Option, none, some,
  List, [], ◌∷◌, ◌++◌, map, All, Bool-cases,
}
use mathlib.Core.List.{Perm, perm_middle, perm_append_singleton, append_assoc}
use mathlib.Core.List.Perm
use locutus.Outcome.{Error, append_error, wrap, ok, err}
use locutus.Rollout.Runner.Goroutines.{
  Phase, running, failed, locked, appending, stored, returned, Shared, Group, advance, running_each,
  start_group, interleave, all_returned, group_result,
}

-- The error that a goroutine has put into `errs`.
abbrev pub appended : Phase → List Error
appended running = []
appended (failed e) = []
appended (locked e) = []
appended (appending e old) = []
appended (stored e) = e ∷ []
appended (returned none) = []
appended (returned (some e)) = e ∷ []

abbrev pub collected : List Phase → List Error
collected [] = []
collected (p ∷ ps) = appended p ++ collected ps

collected-append : (ps qs : List Phase) → collected (ps ++ qs) ≡ collected ps ++ collected qs
collected-append [] qs = refl
collected-append (p ∷ ps) qs =
    ap (λ l. appended p ++ l) (collected-append ps qs)
    ∙ sym (append_assoc (appended p) (collected ps) (collected qs))

append_all-snoc :
    (errs : Option Error) (es : List Error) (e : Error)
    → append_all errs (es ++ (e ∷ [])) ≡ some (append_error (append_all errs es) e)
append_all-snoc errs [] e = refl
append_all-snoc errs (x ∷ es) e = append_all-snoc (some (append_error errs x)) es e

-- A move leaves `errs` and what is in it alone, or it puts the error of its goroutine there.
abbrev Appends : Shared → Shared → Phase → Phase → Type 0
Appends m m' p p' =
    ((m.errs ≡ m'.errs) × (appended p ≡ appended p'))
    ⊎ ((e : Error) × (m'.errs ≡ some (append_error m.errs e))
        × (appended p ≡ [])
        × (appended p' ≡ e ∷ []))

keeps :
    (m m' m₁ : Shared) (p p' p₁ : Phase)
    → m₁ ≡ m'
    → p₁ ≡ p'
    → m.errs ≡ m₁.errs
    → appended p ≡ appended p₁
    → Appends m m' p p'
keeps m m' m₁ p p' p₁ em ep he ha = inl (he ∙ ap (λ (x : Shared). x.errs) em, ha ∙ ap appended ep)

advance-Appends :
    (result : Option Error) (m m' : Shared) (p p' : Phase)
    → advance result m p ≡ some (m', p')
    → Reads m.errs p
    → Appends m m' p p'
advance-Appends none m m' running p' h reads =
    keeps m m' m running p' (returned none) (cc) (cc) refl refl
advance-Appends (some e) m m' running p' h reads =
    keeps m m' m running p' (failed e) (cc) (cc) refl refl
advance-Appends result m m' (failed e) p' h reads = elim (Bool-cases m.held) [
  | inl held ↦ absurd (cc (rw held at h))
  | inr free ↦
      let h' : ◌≡◌ {A = Option (Shared × Phase)} (some (record m { held = true }, locked e))
          (some (m', p')) =
        rw free at h in
      keeps m m' (record m { held = true }) (failed e) p' (locked e) (cc) (cc) refl refl
]
advance-Appends result m m' (locked e) p' h reads =
    keeps m m' m (locked e) p' (appending e m.errs) (cc) (cc) refl refl
advance-Appends result m m' (appending e old) p' h reads =
    let same : record m { errs = some (append_error old e) } ≡ m' = cc in
    let next : stored e ≡ p' = cc in
    inr (
      e,
      sym (ap (λ (x : Shared). x.errs) same) ∙ ap (λ o. some (append_error o e)) reads,
      refl,
      ap appended (sym next),
    )
advance-Appends result m m' (stored e) p' h reads =
    keeps m m' (record m { held = false }) (stored e) p' (returned (some e)) (cc) (cc) refl refl
advance-Appends result m m' (returned e) p' h reads = cc

-- `errs` holds the errors of the goroutines that have stored theirs, in the order of the stores.
pub record Collects (g : Group) : Type 0 where
  pub locked : IsLocked g
  pub all : List Error
  pub appends : g.shared.errs ≡ append_all none all
  pub perm : Perm all (collected g.goroutines)

Moved-Collects :
    (result : Option Error) (g g' : Group)
    → Moved result g.shared g'.shared g.goroutines g'.goroutines
    → Collects g
    → Collects g'
Moved-Collects result g g' t c =
    let (_, behind) =
      All-append-inv (Reads g.shared.errs) t.before (t.p ∷ t.behind)
        (subst (All (Reads g.shared.errs)) t.was c.locked.current) in
    let was : collected g.goroutines ≡ collected t.before ++ (appended t.p ++ collected t.behind) =
      ap collected t.was ∙ collected-append t.before (t.p ∷ t.behind) in
    let is : collected g'.goroutines ≡ collected t.before ++ (appended t.p' ++ collected t.behind) =
      ap collected t.is ∙ collected-append t.before (t.p' ∷ t.behind) in
    elim (advance-Appends result g.shared g'.shared t.p t.p' t.advanced behind.0) [
      | inl (same, kept) ↦ record {
        locked = Moved-IsLocked result g g' t c.locked;
        all = c.all;
        appends = sym same ∙ c.appends;
        perm =
            subst (Perm c.all)
              (was ∙ ap (λ l. collected t.before ++ (l ++ collected t.behind)) kept ∙ sym is)
              c.perm;
      }
      | inr (e, stores, empty, one) ↦
          let rest : Perm c.all (collected t.before ++ collected t.behind) =
            subst (Perm c.all)
              (was ∙ ap (λ l. collected t.before ++ (l ++ collected t.behind)) empty) c.perm in
          record {
            locked = Moved-IsLocked result g g' t c.locked;
            all = c.all ++ (e ∷ []);
            appends =
                stores
                ∙ ap (λ o. some (append_error o e)) c.appends
                ∙ sym (append_all-snoc none c.all e);
            perm =
                subst (Perm (c.all ++ (e ∷ [])))
                  (sym (is ∙ ap (λ l. collected t.before ++ (l ++ collected t.behind)) one))
                  (Perm.trans (perm_append_singleton e c.all) (
                    Perm.trans (Perm.cons e rest)
                      (Perm.symm (perm_middle (collected t.before) (collected t.behind)))));
          }
    ]

start-collected : (n : ℕ) → collected (running_each n) ≡ []
unfolding running_each
start-collected zero = refl
start-collected (suc n) = start-collected n

start-Collects : (n : ℕ) → Collects (start_group n)
start-Collects n = record {
  locked = start-IsLocked n;
  all = [];
  appends = refl;
  perm = subst (Perm []) (sym (start-collected n)) (Perm.refl []);
}

pub interleave-Collects :
    (n : ℕ) (cs : List (ℕ × Option Error)) (g : Group)
    → interleave cs (start_group n) ≡ some g
    → Collects g
interleave-Collects n cs g h =
    interleave-keeps Collects Moved-Collects cs (start_group n) g h (start-Collects n)

returned-collected :
    (ps : List Phase) → all_returned ps ≡ true → collected ps ≡ errors_of (map carried ps)
unfolding all_returned
returned-collected [] h = refl
returned-collected (returned none ∷ ps) h = returned-collected ps h
returned-collected (returned (some e) ∷ ps) h = ap (λ l. e ∷ l) (returned-collected ps h)
returned-collected (running ∷ ps) h = cc
returned-collected (failed e ∷ ps) h = cc
returned-collected (locked e ∷ ps) h = cc
returned-collected (appending e old ∷ ps) h = cc
returned-collected (stored e ∷ ps) h = cc

-- How a parallel group ends whose steps returned these errors.
abbrev pub GroupEnds : List Error → Group → Type 0
GroupEnds errors g =
    ((errors ≡ []) × (group_result g.shared.errs ≡ ok tt))
    ⊎ ((errs : Error) × (es : List Error) × (es ≢ [])
        × Perm es errors
        × (append_all none es ≡ some errs)
        × (group_result g.shared.errs ≡ err (wrap "failed to run step" [] errs)))

-- However the goroutines of a parallel group interleave, when all of them have returned no error of
-- a step is lost: the group succeeds if no step returned an error, and otherwise it fails with the
-- multierror to which each error that a step returned was appended just once, in some order. What
-- the step of a goroutine returned is what its first move names.
pub interleave-GroupEnds :
    (n : ℕ) (cs : List (ℕ × Option Error)) (g : Group)
    → interleave cs (start_group n) ≡ some g
    → all_returned g.goroutines ≡ true
    → GroupEnds (step_errors n cs) g
interleave-GroupEnds n cs g h over =
    let c = interleave-Collects n cs g h in
    let is : collected g.goroutines ≡ step_errors n cs =
      returned-collected g.goroutines over ∙ ap errors_of (interleave-results n cs g h) in
    go c.all c.appends (subst (Perm c.all) is c.perm)
  where
    go :
        (es : List Error)
        → g.shared.errs ≡ append_all none es
        → Perm es (step_errors n cs)
        → GroupEnds (step_errors n cs) g
    go [] appends perm = inl (sym (Perm.nil-eq perm), ap group_result appends)
    go (e ∷ es) appends perm =
        let (errs, known) = append_all-some (append_error none e) es in
        inr (errs, e ∷ es, (λ x. cc), perm, known, ap group_result (appends ∙ known))
