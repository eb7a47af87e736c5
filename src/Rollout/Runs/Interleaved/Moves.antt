-- ===== src/Rollout/Runs/Interleaved/Moves.antt =====
-- The one goroutine that a move changes, and induction on the moves.
use locutus.Prelude.{ℕ, zero, suc, ◌≡◌, refl, ap, subst, Option, none, some, List, [], ◌∷◌, ◌++◌}
use locutus.Outcome.{Error}
use locutus.Rollout.Runner.Goroutines.{
  Phase, Shared, Group, advance, with_first, with_rest, move_at, to_group, move, interleave,
}

-- One goroutine advances, and the ones before and behind it stay.
pub record Moved (result : Option Error) (m m' : Shared) (ps ps' : List Phase) : Type 0 where
  pub before : List Phase
  pub behind : List Phase
  pub p : Phase
  pub p' : Phase
  pub was : ps ≡ before ++ (p ∷ behind)
  pub is : ps' ≡ before ++ (p' ∷ behind)
  pub advanced : advance result m p ≡ some (m', p')

move_at-Moved :
    (i : ℕ) (result : Option Error) (m m' : Shared) (ps ps' : List Phase)
    → move_at i result m ps ≡ some (m', ps')
    → Moved result m m' ps ps'
unfolding move_at
move_at-Moved i result m m' [] ps' h = cc
move_at-Moved zero result m m' (p ∷ ps) ps' h = first (advance result m p) refl h
  where
    first :
        (o : Option (Shared × Phase))
        → advance result m p ≡ o
        → with_first ps o ≡ some (m', ps')
        → Moved result m m' (p ∷ ps) ps'
    first none e h = cc
    first (some (m₁, p₁)) e h = record {
      before = [];
      behind = ps;
      p = p;
      p' = p₁;
      was = refl;
      is = cc;
      advanced = cc;
    }
move_at-Moved (suc i) result m m' (p ∷ ps) ps' h =
    rest (move_at i result m ps) (move_at-Moved i result m m' ps) h
  where
    rest :
        (o : Option (Shared × List Phase))
        → ((ps₁ : List Phase) → o ≡ some (m', ps₁) → Moved result m m' ps ps₁)
        → with_rest p o ≡ some (m', ps')
        → Moved result m m' (p ∷ ps) ps'
    rest none ih h = cc
    rest (some (m₁, ps₁)) ih h =
        let same : m₁ ≡ m' = cc in
        let all : p ∷ ps₁ ≡ ps' = cc in
        let t = ih ps₁ (ap (λ x. some (x, ps₁)) same) in
        record {
          before = p ∷ t.before;
          behind = t.behind;
          p = t.p;
          p' = t.p';
          was = ap (λ l. p ∷ l) t.was;
          is = cc (t.is);
          advanced = t.advanced;
        }

pub move-Moved :
    (c : ℕ × Option Error) (g g' : Group)
    → move c g ≡ some g'
    → Moved c.1 g.shared g'.shared g.goroutines g'.goroutines
move-Moved (i, result) g g' h = go (move_at i result g.shared g.goroutines) refl h
  where
    go :
        (o : Option (Shared × List Phase))
        → move_at i result g.shared g.goroutines ≡ o
        → to_group o ≡ some g'
        → Moved result g.shared g'.shared g.goroutines g'.goroutines
    go none e h = cc
    go (some (m, ps)) e h =
        let one : m ≡ g'.shared = ap (λ (x : Option Group). shared_of x) h in
        let two : ps ≡ g'.goroutines = ap (λ (x : Option Group). goroutines_of x) h in
        move_at-Moved i result g.shared g'.shared g.goroutines g'.goroutines (cc)
      where
        shared_of : Option Group → Shared
        shared_of none = m
        shared_of (some x) = x.shared

        goroutines_of : Option Group → List Phase
        goroutines_of none = ps
        goroutines_of (some x) = x.goroutines

-- What every move keeps, the moves keep.
pub interleave-keeps {ℓ} :
    (P : Group → Type ℓ)
    → ((result : Option Error) (g g' : Group)
        → Moved result g.shared g'.shared g.goroutines g'.goroutines
        → P g
        → P g')
    → (cs : List (ℕ × Option Error)) (g g' : Group) → interleave cs g ≡ some g'
    → P g
    → P g'
unfolding interleave
interleave-keeps P keep [] g g' h p = subst P (cc) p
interleave-keeps P keep (c ∷ cs) g g' h p = go (move c g) refl (interleave-keeps P keep cs) h
  where
    go :
        (o : Option Group)
        → move c g ≡ o
        → ((g₁ g' : Group) → interleave cs g₁ ≡ some g' → P g₁ → P g')
        → elim o as (λ _. Option Group) [ none ↦ none | some g₁ ↦ interleave cs g₁ ] ≡ some g'
        → P g'
    go none e ih h = cc
    go (some g₁) e ih h = ih g₁ g' h (keep c.1 g g₁ (move-Moved c g g₁ e) p)
