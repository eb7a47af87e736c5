-- ===== src/Rollout/Runs/Interleaved/Progress.antt =====
-- No schedule of the goroutines blocks, and each of them ends.
use locutus.Rollout.Runs.Interleaved.Moves.{Moved, move-Moved}
use locutus.Rollout.Runs.Interleaved.Locked.{holders, bit, IsLocked}
use locutus.Rollout.Runs.Interleaved.Collected.{interleave-Collects}
use locutus.Prelude.{
  ℕ, zero, suc, ◌+◌, ◌*◌, ◌≤◌, ◌<◌, true, false, ◌≡◌, refl, sym, ap, ◌∙◌, ◌⊎◌, inl, inr, Option,
  none, some, List, [], ◌∷◌, ◌++◌, Bool-cases, arith,
}
use locutus.Outcome.{Error}
use locutus.Rollout.Runner.Goroutines.{
  Phase, running, failed, locked, appending, stored, returned, Shared, Group, advance, running_each,
  start_group, interleave, all_returned, move, move_at, to_group, with_first, with_rest,
}

-- How many moves a goroutine has left at most.
abbrev pub left : Phase → ℕ
left running = 5
left (failed e) = 4
left (locked e) = 3
left (appending e old) = 2
left (stored e) = 1
left (returned e) = 0

abbrev pub left_all : List Phase → ℕ
left_all [] = 0
left_all (p ∷ ps) = left p + left_all ps

abbrev pub length {ℓ} : {A : Type ℓ} → List A → ℕ
length [] = 0
length (x ∷ xs) = suc (length xs)

left_all-append : (ps qs : List Phase) → left_all (ps ++ qs) ≡ left_all ps + left_all qs
left_all-append [] qs = omega arith
left_all-append (p ∷ ps) qs = omega (arith, left_all-append ps qs)

length-append : (ps qs : List Phase) → length (ps ++ qs) ≡ length ps + length qs
length-append [] qs = omega arith
length-append (p ∷ ps) qs = omega (arith, length-append ps qs)

advance-left :
    (result : Option Error) (m m' : Shared) (p p' : Phase)
    → advance result m p ≡ some (m', p')
    → left p' < left p
advance-left none m m' running p' h = ground arith
advance-left (some e) m m' running p' h = ground arith
advance-left result m m' (failed e) p' h = ground arith
advance-left result m m' (locked e) p' h = ground arith
advance-left result m m' (appending e old) p' h = ground arith
advance-left result m m' (stored e) p' h = ground arith
advance-left result m m' (returned e) p' h = cc

Moved-left :
    (result : Option Error) (m m' : Shared) (ps ps' : List Phase)
    → Moved result m m' ps ps'
    → (left_all ps' < left_all ps) × (length ps' ≡ length ps)
Moved-left result m m' ps ps' t =
    let less = advance-left result m m' t.p t.p' t.advanced in
    let was = ap left_all t.was ∙ left_all-append t.before (t.p ∷ t.behind) in
    let is = ap left_all t.is ∙ left_all-append t.before (t.p' ∷ t.behind) in
    (
      omega arith,
      ap length t.is
          ∙ length-append t.before (t.p' ∷ t.behind)
          ∙ sym (length-append t.before (t.p ∷ t.behind))
          ∙ sym (ap length t.was),
    )

interleave-left :
    (cs : List (ℕ × Option Error)) (g g' : Group)
    → interleave cs g ≡ some g'
    → (length cs + left_all g'.goroutines ≤ left_all g.goroutines)
      × (length g'.goroutines ≡ length g.goroutines)
unfolding interleave
interleave-left [] g g' h =
    let same : g ≡ g' = cc in
    let ps = ap (λ (x : Group). x.goroutines) same in
    (omega (arith, ap left_all ps), sym (ap length ps))
interleave-left (c ∷ cs) g g' h = go (move c g) refl (interleave-left cs) h
  where
    go :
        (o : Option Group)
        → move c g ≡ o
        → ((g₁ g' : Group)
            → interleave cs g₁ ≡ some g'
            → (length cs + left_all g'.goroutines ≤ left_all g₁.goroutines)
              × (length g'.goroutines ≡ length g₁.goroutines))
        → elim o as (λ _. Option Group) [ none ↦ none | some g₁ ↦ interleave cs g₁ ] ≡ some g'
        → (suc (length cs) + left_all g'.goroutines ≤ left_all g.goroutines)
          × (length g'.goroutines ≡ length g.goroutines)
    go none e ih h = cc
    go (some g₁) e ih h =
        let (bound, many) = ih g₁ g' h in
        let (less, same) =
          Moved-left c.1 g.shared g₁.shared g.goroutines g₁.goroutines (move-Moved c g g₁ e) in
        (omega arith, many ∙ same)

start-left : (n : ℕ) → (left_all (running_each n) ≡ 5 * n) × (length (running_each n) ≡ n)
unfolding running_each
start-left zero = (refl, refl)
start-left (suc n) = let (all, many) = start-left n in (omega arith, ap suc many)

-- The goroutine at this place can move, whatever its step returns.
abbrev MovesAt : Shared → List Phase → ℕ → Type 0
MovesAt m ps i =
    (result : Option Error) → (x : Shared × List Phase) × (move_at i result m ps ≡ some x)

abbrev Moves : Shared → List Phase → Type 0
Moves m ps = (i : ℕ) × MovesAt m ps i

Moves-cons : (m : Shared) (p : Phase) (ps : List Phase) → Moves m ps → Moves m (p ∷ ps)
unfolding move_at
Moves-cons m p ps (i, moves) =
    (suc i, λ result. let (x, h) = moves result in ((x.0, p ∷ x.1), ap (with_rest p) h))

Moves-first :
    (m : Shared) (p : Phase) (ps : List Phase)
    → ((result : Option Error) → (x : Shared × Phase) × (advance result m p ≡ some x))
    → Moves m (p ∷ ps)
unfolding move_at
Moves-first m p ps moves =
    (0, λ result. let (x, h) = moves result in ((x.0, x.1 ∷ ps), ap (with_first ps) h))

unlocked-Moves :
    (m : Shared) (ps : List Phase) → m.held ≡ false → all_returned ps ≡ false → Moves m ps
unfolding all_returned
unlocked-Moves m [] free some_left = cc
unlocked-Moves m (returned e ∷ ps) free some_left =
    Moves-cons m (returned e) ps (unlocked-Moves m ps free some_left)
unlocked-Moves m (running ∷ ps) free some_left = Moves-first m running ps (λ result. (_, refl))
unlocked-Moves m (failed e ∷ ps) free some_left =
    Moves-first m (failed e) ps (λ result. ((record m { held = true }, locked e), rw free))
unlocked-Moves m (locked e ∷ ps) free some_left = Moves-first m (locked e) ps (λ result. (_, refl))
unlocked-Moves m (appending e old ∷ ps) free some_left =
    Moves-first m (appending e old) ps (λ result. (_, refl))
unlocked-Moves m (stored e ∷ ps) free some_left = Moves-first m (stored e) ps (λ result. (_, refl))

holder-Moves : (m : Shared) (ps : List Phase) → holders ps ≡ 1 → Moves m ps
holder-Moves m [] h = absurd (omega arith)
holder-Moves m (returned e ∷ ps) h = Moves-cons m (returned e) ps (holder-Moves m ps (omega arith))
holder-Moves m (running ∷ ps) h = Moves-first m running ps (λ result. (_, refl))
holder-Moves m (failed e ∷ ps) h = Moves-cons m (failed e) ps (holder-Moves m ps (omega arith))
holder-Moves m (locked e ∷ ps) h = Moves-first m (locked e) ps (λ result. (_, refl))
holder-Moves m (appending e old ∷ ps) h = Moves-first m (appending e old) ps (λ result. (_, refl))
holder-Moves m (stored e ∷ ps) h = Moves-first m (stored e) ps (λ result. (_, refl))

IsLocked-Moves :
    (g : Group) → IsLocked g → all_returned g.goroutines ≡ false → Moves g.shared g.goroutines
IsLocked-Moves g l some_left = elim (Bool-cases g.shared.held) [
  | inl held ↦ holder-Moves g.shared g.goroutines (l.one ∙ ap bit held)
  | inr free ↦ unlocked-Moves g.shared g.goroutines free some_left
]

-- However the goroutines of a parallel group of n steps have interleaved, they have made at most 5
-- * n moves and there are n of them, and they have all returned or there is one that can move,
-- whatever its step returns: none waits for the lock forever.
pub interleave-ends :
    (n : ℕ) (cs : List (ℕ × Option Error)) (g : Group)
    → interleave cs (start_group n) ≡ some g
    → (length cs ≤ 5 * n)
      × (length g.goroutines ≡ n)
      × ((all_returned g.goroutines ≡ true)
          ⊎ ((i : ℕ) × ((result : Option Error) → (g' : Group) × (move (i, result) g ≡ some g'))))
interleave-ends n cs g h =
    let (bound, many) = interleave-left cs (start_group n) g h in
    let (all, started) = start-left n in
    (
      omega arith,
      many ∙ started,
      elim (Bool-cases (all_returned g.goroutines)) [
        | inl over ↦ inl over
        | inr some_left ↦
            let (i, moves) = IsLocked-Moves g (interleave-Collects n cs g h).locked some_left in
            inr (
              i,
              λ result.
                  let (x, e) = moves result in
                  (record { shared = x.0; goroutines = x.1 }, ap to_group e),
            )
      ],
    )
