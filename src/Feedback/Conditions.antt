-- ===== src/Feedback/Conditions.antt =====
-- The conditions that feedback/feedback.go computes.
use locutus.Prelude.{
  String, ◌≡◌, refl, sym, ◌∙◌, subst, Option, none, some, List, [], ◌∷◌, map, All, ◌==◌,
  if◌then◌else◌, eq_iff, Bool-cases, Option-cases, inl, inr,
}
use locutus.Outcome.{Outcome, ok}
use locutus.Maps.{Assoc, lookup, insert, lookup-insert, lookup-nil}
use locutus.Env.{Env}
use locutus.Feedback.{
  StatusCondition, CurrentStatus, not_started, condition_at, available_from, conditions_for,
  old_conditions, initialize_status, set_status,
}

module _ (env : Env) where
  open env use {World, Time, now}

  abbrev pub status_of : StatusCondition env → String × CurrentStatus
  status_of c = (c.name, c.current_status)

  -- A map of conditions under their own names.
  abbrev IsKeyed : Assoc (StatusCondition env) → Type 0
  IsKeyed m = (k : String) (c : StatusCondition env) → lookup k m ≡ some c → c.name ≡ k

  IsKeyed-insert :
      (c : StatusCondition env) (m : Assoc (StatusCondition env))
      → IsKeyed m
      → IsKeyed (insert c.name c m)
  IsKeyed-insert c m h k d e =
      let e' : (if c.name == k then some c else lookup k m) ≡ some d =
        sym (lookup-insert c.name k c m) ∙ e in
      elim (Bool-cases (c.name == k)) [
        | inl same ↦
            let found : c ≡ d = let e'' = rw same at e' in cc in
            subst (λ (x : StatusCondition env). x.name ≡ k) found ((eq_iff c.name k).0 same)
        | inr other ↦ h k d (rw other at e')
      ]

  available_from-IsKeyed :
      (m : Assoc (StatusCondition env)) (cs : List (StatusCondition env))
      → IsKeyed m
      → IsKeyed (available_from env m cs)
  unfolding available_from
  available_from-IsKeyed m [] h = h
  available_from-IsKeyed m (c ∷ cs) h =
      available_from-IsKeyed (insert c.name c m) cs (IsKeyed-insert c m h)

  -- The status that a group starts with: that of the old condition of its name, if there is one.
  abbrev pub status_before : Assoc (StatusCondition env) → String → CurrentStatus
  status_before old g = elim (lookup g old) [ none ↦ not_started | some c ↦ c.current_status ]

  status_before-none :
      (old : Assoc (StatusCondition env)) (g : String)
      → lookup g old ≡ none
      → status_before old g ≡ not_started
  status_before-none old g e = rw (e, status_before)

  status_before-some :
      (old : Assoc (StatusCondition env)) (g : String) (c : StatusCondition env)
      → lookup g old ≡ some c
      → status_before old g ≡ c.current_status
  status_before-some old g c e = rw (e, status_before)

  -- Conditions for these groups, in order, with the status that each starts with.
  abbrev pub Starts :
      Assoc (StatusCondition env)
      → List String
      → Outcome (List (StatusCondition env)) × World
      → Type 0
  Starts old groups r =
      (cs : List (StatusCondition env)) × (w' : World) × (r ≡ (ok cs, w'))
      × (map status_of cs ≡ map (λ g. (g, status_before old g)) groups)

  conditions_for-Starts :
      (old : Assoc (StatusCondition env)) (groups : List String) (w : World)
      → IsKeyed old
      → Starts old groups (conditions_for env old groups w)
  unfolding conditions_for
  conditions_for-Starts old [] w h = ([], w, refl, refl)
  conditions_for-Starts old (g ∷ gs) w h = elim (Option-cases (lookup g old)) [
    | inl absent ↦
        let (t, w₁) = now w in
        let (cs, w', run, starts) = conditions_for-Starts old gs w₁ h in
        (
          condition_at env t g ∷ cs,
          w',
          rw (absent, run),
          cc (starts, status_before-none old g absent),
        )
    | inr (c, found) ↦
        let (cs, w', run, starts) = conditions_for-Starts old gs w h in
        (c ∷ cs, w', rw (found, run), cc (starts, status_before-some old g c found, h g c found))
  ]

  -- The new status has one condition for each group of the rollout, in order and under its name.
  -- Its status is that of the last old condition of that name, and "Not Started" if there is none.
  pub initialize_status-Starts :
      (old : Option (List (StatusCondition env))) (groups : List String) (w : World)
      → Starts
          (available_from env [] (old_conditions env old))
          groups
          (initialize_status env old groups w)
  unfolding initialize_status
  initialize_status-Starts old groups w = conditions_for-Starts _ groups w (
      available_from-IsKeyed [] (old_conditions env old)
        (λ k c e. absurd (cc (e, lookup-nil {V = StatusCondition env} k))))

  -- The conditions after SetCondition, by name and status.
  abbrev pub Sets :
      String
      → CurrentStatus
      → List (StatusCondition env)
      → Outcome (List (StatusCondition env)) × World
      → Type 0
  Sets name status cs r =
      (cs' : List (StatusCondition env)) × (w' : World) × (r ≡ (ok cs', w'))
      × (map status_of cs'
          ≡ map (λ c. (c.name, if c.name == name then status else c.current_status)) cs)

  -- SetCondition gives the new status to every condition of the name, and leaves the others.
  pub set_status-Sets :
      (name : String) (status : CurrentStatus) (cs : List (StatusCondition env)) (w : World)
      → Sets name status cs (set_status env name status cs w)
  unfolding set_status
  set_status-Sets name status [] w = ([], w, refl, refl)
  set_status-Sets name status (c ∷ cs) w = elim (Bool-cases (c.name == name)) [
    | inr other ↦
        let (cs', w', run, sets) = set_status-Sets name status cs w in
        (c ∷ cs', w', rw (other, run), rw (other, sets))
    | inl named ↦ elim (Bool-cases (c.current_status == status)) [
      | inl there ↦
          let (cs', w', run, sets) = set_status-Sets name status cs w in
          (
            c ∷ cs',
            w',
            rw (named, there, run),
            rw (named, sets, (eq_iff c.current_status status).0 there),
          )
      | inr differs ↦
          let (t, w₁) = now w in
          let (cs', w', run, sets) = set_status-Sets name status cs w₁ in
          (
            record { last_transition_time = t; name = name; current_status = status } ∷ cs',
            w',
            rw (named, differs, run),
            rw (named, sets, (eq_iff c.name name).0 named),
          )
    ]
  ]

  -- Conditions that have the status already keep it, with the time of their last transition.
  set_status-again :
      (name : String) (status : CurrentStatus) (cs : List (StatusCondition env)) (w : World)
      → All (λ c. c.name ≡ name → c.current_status ≡ status) cs
      → set_status env name status cs w ≡ (ok cs, w)
  unfolding set_status
  set_status-again name status [] w h = refl
  set_status-again name status (c ∷ cs) w h = elim (Bool-cases (c.name == name)) [
    | inr other ↦ rw (other, set_status-again name status cs w h.1)
    | inl named ↦ rw (
      named,
      (eq_iff c.current_status status).1 (h.0 ((eq_iff c.name name).0 named)),
      set_status-again name status cs w h.1,
    )
  ]
