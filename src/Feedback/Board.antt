-- ===== src/Feedback/Board.antt =====
-- An abstract view of the status that feedback/feedback.go keeps: a status for each group. What the
-- order of the conditions and their times are is forgotten.
use locutus.Prelude.{
  String, Bool, false, ◌||◌, ◌≡◌, refl, sym, ap, ◌∙◌, inl, inr, Option, none, some, List, [], ◌∷◌,
  map, ◌==◌, eq_iff, if◌then◌else◌, Bool-cases,
}
use mathlib.Core.Path.{fun_ext}
use locutus.Outcome.{ok, pure, ◌>>◌, >>=-eq-ok}
use locutus.Maps.{Assoc, lookup, insert, lookup-insert}
use locutus.Env.{Env}
use locutus.Feedback.{
  StatusCondition, CurrentStatus, ObjectFeedback, Doing, initialize, set_condition, available_from,
  old_conditions, not_started,
}
use locutus.Feedback.Conditions.{status_of, status_before}
use locutus.Feedback.Writing.{initialize-ok, set_condition-ok}

abbrev pub Board : Type 0
Board = String → Option CurrentStatus

-- SetCondition on a board: it changes the status of a group that has one.
abbrev pub update_of : Bool → CurrentStatus → Option CurrentStatus → Option CurrentStatus
update_of named status none = none
update_of named status (some s) = some (if named then status else s)

abbrev pub set_on : String → CurrentStatus → Board → Board
set_on name status board group = update_of (group == name) status (board group)

abbrev pub set_all : List (String × CurrentStatus) → Board → Board
set_all [] board = board
set_all (c ∷ cs) board = set_all cs (set_on c.0 c.1 board)

unfoldable pub is_group : String → List String → Bool
is_group x [] = false
is_group x (g ∷ gs) = g == x || is_group x gs

module _ (env : Env) where
  -- The status that the last of these conditions of the name has, or else this one.
  abbrev pub last_status : String → List (StatusCondition env) → CurrentStatus → CurrentStatus
  last_status g [] status = status
  last_status g (c ∷ cs) status =
      last_status g cs (if c.name == g then c.current_status else status)

  abbrev pub status_in : Option (List (StatusCondition env)) → String → CurrentStatus
  status_in none g = not_started
  status_in (some cs) g = last_status g cs not_started

  -- The board after Initialize: each group of the rollout, with the status it had before.
  abbrev pub start_board : Option (List (StatusCondition env)) → List String → Board
  start_board old groups group = if is_group group groups then some (status_in old group) else none

  -- What a status shows.
  abbrev pub board_of : Option (List (StatusCondition env)) → Board
  board_of none group = none
  board_of (some cs) group = lookup group (map (status_of env) cs)

  -- SetCondition for each of these in turn, up to the first error.
  abbrev pub set_conditions : List (String × CurrentStatus) → Doing env (Unit {0})
  set_conditions [] = pure tt
  set_conditions (c ∷ cs) = set_condition env c.0 c.1 >> set_conditions cs

  status_before-insert :
      (c : StatusCondition env) (m : Assoc (StatusCondition env)) (g : String)
      → status_before env (insert c.name c m) g
        ≡ (if c.name == g then c.current_status else status_before env m g)
  status_before-insert c m g = elim (Bool-cases (c.name == g)) [
    | inl same ↦ rw (lookup-insert c.name g c m, same, status_before) refl
    | inr other ↦ rw (lookup-insert c.name g c m, other, status_before) refl
  ]

  available_from-last :
      (m : Assoc (StatusCondition env)) (cs : List (StatusCondition env)) (g : String)
      → status_before env (available_from env m cs) g ≡ last_status g cs (status_before env m g)
  unfolding available_from
  available_from-last m [] g = refl
  available_from-last m (c ∷ cs) g =
      available_from-last (insert c.name c m) cs g
      ∙ ap (last_status g cs) (status_before-insert c m g)

  old-last :
      (old : Option (List (StatusCondition env))) (g : String)
      → status_before env (available_from env [] (old_conditions env old)) g ≡ status_in old g
  unfolding lookup available_from
  old-last none g = refl
  old-last (some cs) g = available_from-last [] cs g

  lookup_started :
      (start : String → CurrentStatus) (groups : List String) (x : String)
      → lookup x (map (λ g. (g, start g)) groups)
        ≡ (if is_group x groups then some (start x) else none)
  unfolding lookup is_group
  lookup_started start [] x = refl
  lookup_started start (g ∷ gs) x = elim (Bool-cases (g == x)) [
    | inl same ↦ rw same (ap (λ y. some (start y)) ((eq_iff g x).0 same))
    | inr other ↦ rw other (lookup_started start gs x)
  ]

  lookup_set :
      (name : String) (status : CurrentStatus) (cs : List (StatusCondition env)) (x : String)
      → lookup x (map (λ c. (c.name, if c.name == name then status else c.current_status)) cs)
        ≡ set_on name status (λ y. lookup y (map (status_of env) cs)) x
  unfolding lookup
  lookup_set name status [] x = refl
  lookup_set name status (c ∷ cs) x = elim (Bool-cases (c.name == x)) [
    | inl same ↦
        rw same (
          ap (λ y. some (if y == name then status else c.current_status))
            ((eq_iff c.name x).0 same))
    | inr other ↦ rw other (lookup_set name status cs x)
  ]

  set_conditions-board :
      (commands : List (String × CurrentStatus)) (w w' : env.World) (f f' : ObjectFeedback env)
      (cs : List (StatusCondition env)) (board : Board)
      → f.current_status ≡ some cs
      → board_of (some cs) ≡ board
      → set_conditions commands (w, f) ≡ (ok tt, (w', f'))
      → board_of f'.current_status ≡ set_all commands board
  set_conditions-board [] w w' f f' cs board known shown h =
      let same : f ≡ f' = ap (λ s. s.1.1) h in
      ap (λ (g : ObjectFeedback env). board_of g.current_status) (sym same)
      ∙ ap board_of known
      ∙ shown
  set_conditions-board (c ∷ commands) w w' f f' cs board known shown h =
      let (_, (w₁, f₁), set, rest) =
        >>=-eq-ok (set_condition env c.0 c.1) (λ _. set_conditions commands) (w, f) h in
      let (cs₁, known₁, sets) = set_condition-ok env c.0 c.1 w w₁ f f₁ cs set known in
      set_conditions-board commands w₁ w' f₁ f' cs₁ (set_on c.0 c.1 board) known₁
        (fun_ext
          λ x. ap (lookup x) sets ∙ lookup_set c.0 c.1 cs x ∙ ap (λ b. set_on c.0 c.1 b x) shown)
        rest

  -- Where Initialize and then a sequence of calls of SetCondition report no error, the status at
  -- the end shows what the abstract feedback ends at: a map from names to statuses, which starts
  -- with the groups of the rollout, each with the status of the last old condition of its name, or
  -- "Not Started", and in which each call changes the entry of its name, where there is one. Times
  -- and the order of conditions are forgotten.
  pub set_conditions-set_all :
      (groups : List String) (commands : List (String × CurrentStatus)) (w w' : env.World)
      (f f' : ObjectFeedback env)
      → (initialize env groups >> set_conditions commands) (w, f) ≡ (ok tt, (w', f'))
      → board_of f'.current_status ≡ set_all commands (start_board f.old_status groups)
  set_conditions-set_all groups commands w w' f f' h =
      let (_, (w₁, f₁), started, rest) =
        >>=-eq-ok (initialize env groups) (λ _. set_conditions commands) (w, f) h in
      let (cs, known, starts) = initialize-ok env groups w w₁ f f₁ started in
      set_conditions-board commands w₁ w' f₁ f' cs (start_board f.old_status groups) known
        (fun_ext λ x.
          ap (lookup x) starts
          ∙ lookup_started
              (status_before env (available_from env [] (old_conditions env f.old_status))) groups x
          ∙ ap (λ s. if is_group x groups then some s else none) (old-last f.old_status x))
        rest
