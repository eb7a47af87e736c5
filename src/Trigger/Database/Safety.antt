-- ===== src/Trigger/Database/Safety.antt =====
-- The states that the database trigger of trigger/database/database.go goes through, and what
-- scheduling does in them.
use locutus.Trigger.Database.{
  TriggerConfig, TriggerRunner, name_triggers, new_trigger, runs_of, or_nothing, count, clean_up,
  finish_run, start_run, schedule_trigger_run,
}
use locutus.Trigger.Database.Named.{is_trigger, name_triggers-named, Apart, forget_done-same}
use locutus.Prelude.{
  ℕ, String, true, false, ◌≡◌, refl, sym, ◌∙◌, ap, subst, inl, inr, Option, none, some, List, [],
  ◌∷◌, All, ◌==◌, eq_iff, is_some, Bool-cases, Option-cases, arith,
}
use locutus.Outcome.{ok}
use locutus.Maps.{Assoc, lookup, insert, lookup-nil, lookup-insert}

module _ (configs : List TriggerConfig) where
  abbrev Unnamed : String × ℕ → Type 0
  Unnamed p = is_trigger p.0 configs ≡ false

  -- The states that a trigger can get to by its ticks, by rows of its queries and by the ends of
  -- runs.
  pub data Reaches : TriggerRunner → Type 0 where
    created : Reaches (new_trigger configs)
    cleaned : {t : TriggerRunner} (name : String) → Reaches t → Reaches (clean_up name t)
    finished : {t : TriggerRunner} (n : ℕ) → Reaches t → Reaches (finish_run n t)
    scheduled :
        {t t' : TriggerRunner} (name key payload : String)
        → schedule_trigger_run name key payload t ≡ (ok tt, t')
        → Reaches t
        → Reaches t'

  -- The outer map has the names of the triggers, and the inner maps have none of them.
  pub record Sound (active : Assoc (Assoc ℕ)) : Type 0 where
    names : (x : String) → is_some (lookup x active) ≡ is_trigger x configs
    keys : (x : String) (m : Assoc ℕ) → lookup x active ≡ some m → All Unnamed m

  absent :
      (active : Assoc (Assoc ℕ))
      → Sound active
      → (key : String) → is_trigger key configs ≡ false
      → lookup key active ≡ none
  absent active s key h = elim (Option-cases (lookup key active)) [
    | inl e ↦ e
    | inr (m, e) ↦ absurd (let n = s.names key in cc (rw (e, h) at n))
  ]

  Unnamed-Apart :
      (active : Assoc (Assoc ℕ)) (entries : Assoc ℕ)
      → Sound active
      → All Unnamed entries
      → All (Apart active) entries
  Unnamed-Apart active [] s h = tt
  Unnamed-Apart active (p ∷ entries) s h =
      (absent active s p.0 h.0, Unnamed-Apart active entries s h.1)

  Unnamed-insert :
      (key : String) (n : ℕ) (entries : Assoc ℕ)
      → is_trigger key configs ≡ false
      → All Unnamed entries
      → All Unnamed (insert key n entries)
  unfolding insert
  Unnamed-insert key n [] k h = (k, tt)
  Unnamed-insert key n ((j, m) ∷ entries) k h = elim (Bool-cases (j == key)) [
    | inl same ↦ rw same (k, h.1)
    | inr other ↦ rw other (h.0, Unnamed-insert key n entries k h.1)
  ]

  Sound-same :
      (a a' : Assoc (Assoc ℕ)) → ((x : String) → lookup x a' ≡ lookup x a) → Sound a → Sound a'
  Sound-same a a' h s = record {
    names = λ x. ap is_some (h x) ∙ s.names x;
    keys = λ x m e. s.keys x m (sym (h x) ∙ e);
  }

  or_nothing-Unnamed :
      (o : Option (Assoc ℕ))
      → ((m : Assoc ℕ) → o ≡ some m → All Unnamed m)
      → All Unnamed (or_nothing o)
  or_nothing-Unnamed none h = tt
  or_nothing-Unnamed (some m) h = h m refl

  pub clean_up-same :
      (name : String) (t : TriggerRunner)
      → Sound t.active_triggers
      → (x : String) → lookup x (clean_up name t).active_triggers ≡ lookup x t.active_triggers
  unfolding clean_up
  clean_up-same name t s x =
      let entries = runs_of name t.active_triggers in
      let free = or_nothing-Unnamed (lookup name t.active_triggers) (s.keys name) in
      forget_done-same entries t.runs t.active_triggers x
        (Unnamed-Apart t.active_triggers entries s free)

  clean_up-Sound :
      (name : String) (t : TriggerRunner)
      → Sound t.active_triggers
      → Sound (clean_up name t).active_triggers
  clean_up-Sound name t s =
      Sound-same t.active_triggers (clean_up name t).active_triggers (clean_up-same name t s) s

  -- An entry put where the outer map has one keeps its names.
  insert-Sound :
      (name : String) (m m' : Assoc ℕ) (active : Assoc (Assoc ℕ))
      → lookup name active ≡ some m
      → All Unnamed m'
      → Sound active
      → Sound (insert name m' active)
  insert-Sound name m m' active e free s = record { names = names'; keys = keys' }
    where
      names' : (x : String) → is_some (lookup x (insert name m' active)) ≡ is_trigger x configs
      names' x = elim (Bool-cases (name == x)) [
        | inl same ↦
            rw (lookup-insert name x m' active, same)
              (ap is_some (sym e)
                ∙ s.names name
                ∙ ap (λ y. is_trigger y configs) ((eq_iff name x).0 same))
        | inr other ↦ rw (lookup-insert name x m' active, other) (s.names x)
      ]

      keys' : (x : String) (n : Assoc ℕ) → lookup x (insert name m' active) ≡ some n → All Unnamed n
      keys' x n h = elim (Bool-cases (name == x)) [
        | inl same ↦
            let h' = rw (lookup-insert name x m' active, same) at h in
            let same_map : m' ≡ n = cc in subst (All Unnamed) same_map free
        | inr other ↦ s.keys x n (rw (lookup-insert name x m' active, other) at h)
      ]

  schedule-started :
      (name key payload : String) (m : Assoc ℕ) (t : TriggerRunner)
      → Sound t.active_triggers
      → is_trigger key configs ≡ false
      → lookup name t.active_triggers ≡ some m
      → schedule_trigger_run name key payload t ≡ (ok tt, start_run name key payload m t)
  unfolding schedule_trigger_run
  schedule-started name key payload m t s k e = rw (absent t.active_triggers s key k, e)

  -- A key that is the name of a trigger starts nothing.
  schedule-named :
      (name key payload : String) (t : TriggerRunner)
      → Sound t.active_triggers
      → is_trigger key configs ≡ true
      → schedule_trigger_run name key payload t ≡ (ok tt, t)
  unfolding schedule_trigger_run
  schedule-named name key payload t s k = rw (s.names key, k)

  scheduled-Sound :
      (name key payload : String) (t t' : TriggerRunner)
      → schedule_trigger_run name key payload t ≡ (ok tt, t')
      → Sound t.active_triggers
      → Sound t'.active_triggers
  unfolding schedule_trigger_run
  scheduled-Sound name key payload t t' h s = elim (Bool-cases (is_trigger key configs)) [
    | inl named ↦
        let same : t ≡ t' = ap (λ r. r.1) (sym (schedule-named name key payload t s named) ∙ h) in
        subst (λ r. Sound r.active_triggers) same s
    | inr k ↦ elim (Option-cases (lookup name t.active_triggers)) [
      | inl e ↦ absurd (cc (rw (absent t.active_triggers s key k, e) at h))
      | inr (m, e) ↦
          let same : start_run name key payload m t ≡ t' =
            ap (λ r. r.1) (sym (schedule-started name key payload m t s k e) ∙ h) in
          subst (λ r. Sound r.active_triggers) same
            (insert-Sound name m (insert key (count t.runs) m) t.active_triggers e
              (Unnamed-insert key (count t.runs) m k (s.keys name m e)) s)
    ]
  ]

  created-keys :
      (cs : List TriggerConfig) (active : Assoc (Assoc ℕ)) (x : String) (m : Assoc ℕ)
      → ((y : String) (n : Assoc ℕ) → lookup y active ≡ some n → All Unnamed n)
      → lookup x (name_triggers cs active) ≡ some m
      → All Unnamed m
  unfolding name_triggers
  created-keys [] active x m h e = h x m e
  created-keys (c ∷ cs) active x m h e = created-keys cs (insert c.name [] active) x m next e
    where
      next :
          (y : String) (n : Assoc ℕ) → lookup y (insert c.name [] active) ≡ some n → All Unnamed n
      next y n g = elim (Bool-cases (c.name == y)) [
        | inl same ↦
            let g' = rw (lookup-insert c.name y [] active, same) at g in
            let none_yet : [] ≡ n = cc in subst (All Unnamed) none_yet tt
        | inr other ↦ h y n (rw (lookup-insert c.name y [] active, other) at g)
      ]

  created-Sound : Sound (new_trigger configs).active_triggers
  created-Sound = record {
    names = λ x. ground (arith, name_triggers-named configs [] x, lookup-nil {V = Assoc ℕ} x);
    keys = λ x m e.
        created-keys configs [] x m (λ y n g. absurd (cc (g, lookup-nil {V = Assoc ℕ} y))) e;
  }

  pub Reaches-Sound : (t : TriggerRunner) → Reaches t → Sound t.active_triggers
  Reaches-Sound _ created = created-Sound
  Reaches-Sound _ (cleaned {t} name r) = clean_up-Sound name t (Reaches-Sound t r)
  Reaches-Sound _ (finished {t} n r) = Reaches-Sound t r
  Reaches-Sound _ (scheduled {t} {t'} name key payload h r) =
      scheduled-Sound name key payload t t' h (Reaches-Sound t r)

  -- In every state that the database trigger gets to, scheduling a run for one of its triggers,
  -- under a key that is no name of a trigger, never panics and starts one more run, also where a
  -- run of that key is active.
  pub schedule_trigger_run-starts :
      (t : TriggerRunner) (name key payload : String)
      → Reaches t
      → is_trigger name configs ≡ true
      → is_trigger key configs ≡ false
      → schedule_trigger_run name key payload t
        ≡ (ok tt, start_run name key payload (runs_of name t.active_triggers) t)
  schedule_trigger_run-starts t name key payload r n k =
      let s = Reaches-Sound t r in
      elim (Option-cases (lookup name t.active_triggers)) [
        | inl e ↦ absurd (let named = s.names name in cc (rw (e, n) at named))
        | inr (m, e) ↦
            schedule-started name key payload m t s k e
            ∙ ap (λ o. (ok tt, start_run name key payload (or_nothing o) t)) (sym e)
      ]
