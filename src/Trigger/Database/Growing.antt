-- ===== src/Trigger/Database/Growing.antt =====
-- The active runs of trigger/database/database.go: what lets them only grow.
pub mod Run
use locutus.Trigger.Database.{
  TriggerConfig, TriggerRunner, runs_of, or_nothing, count, clean_up, start_run,
  schedule_trigger_run,
}
use locutus.Trigger.Database.Safety.{Reaches, cleaned, scheduled, Reaches-Sound, clean_up-same}
use locutus.Prelude.{
  ℕ, String, Bool, true, false, ◌≡◌, refl, sym, ap, ◌∙◌, inl, inr, Option, none, some, List, ◌==◌,
  eq_iff, is_some, if◌then◌else◌, Bool-cases, Option-cases,
}
use locutus.Outcome.{Error, Outcome, ok, err, panic, M, attempt, and_then, resume, ◌>>=◌}
use locutus.Maps.{Assoc, lookup, insert, lookup-insert}

-- Whether the trigger has an entry for the key.
abbrev pub has_run : String → String → TriggerRunner → Bool
has_run name key t = is_some (lookup key (runs_of name t.active_triggers))

module _ (configs : List TriggerConfig) where
  -- The state can be got to, and has every entry that the one before had.
  pub record Grows (t t' : TriggerRunner) : Type 0 where
    pub reached : Reaches configs t'
    pub keeps : (name key : String) → has_run name key t ≡ true → has_run name key t' ≡ true

  abbrev pub Grown : TriggerRunner → TriggerRunner → Type 0
  Grown t t' = Reaches configs t → Grows t t'

  pub Grown-refl : (t : TriggerRunner) → Grown t t
  Grown-refl t r = record { reached = r; keeps = λ name key h. h }

  pub Grown-trans : {t t' t'' : TriggerRunner} → Grown t t' → Grown t' t'' → Grown t t''
  Grown-trans f g r =
      let first = f r in
      let second = g first.reached in
      record {
        reached = second.reached;
        keeps = λ name key h. second.keeps name key (first.keeps name key h);
      }

  pub clean_up-Grown : (name : String) (t : TriggerRunner) → Grown t (clean_up name t)
  clean_up-Grown name t r = record {
    reached = cleaned name r;
    keeps = λ x key h.
        ap (λ o. is_some (lookup key (or_nothing o)))
          (clean_up-same configs name t (Reaches-Sound configs t r) x)
        ∙ h;
  }

  has_run-start :
      (name key payload : String) (m : Assoc ℕ) (t : TriggerRunner) (x k : String)
      → lookup name t.active_triggers ≡ some m
      → has_run x k t ≡ true
      → has_run x k (start_run name key payload m t) ≡ true
  has_run-start name key payload m t x k e h =
      let new = insert key (count t.runs) m in
      elim (Bool-cases (name == x)) [
        | inr other ↦ rw (lookup-insert name x new t.active_triggers, other) h
        | inl same ↦
            let before : is_some (lookup k m) ≡ true =
              ap (λ o. is_some (lookup k (or_nothing o)))
                (sym e ∙ ap (λ y. lookup y t.active_triggers) ((eq_iff name x).0 same))
              ∙ h in
            rw (lookup-insert name x new t.active_triggers, same)
              (elim (Bool-cases (key == k)) [
                | inl this ↦ rw (lookup-insert key k (count t.runs) m, this) refl
                | inr that ↦ rw (lookup-insert key k (count t.runs) m, that) before
              ])
      ]

  pub schedule_trigger_run-Grown :
      (name key payload : String) (t : TriggerRunner)
      → Grown t (schedule_trigger_run name key payload t).1
  unfolding schedule_trigger_run
  schedule_trigger_run-Grown name key payload t =
      elim (Option-cases (lookup key t.active_triggers)) [
        | inr (old, there) ↦ rw there (Grown-refl t)
        | inl free ↦ elim (Option-cases (lookup name t.active_triggers)) [
          | inl gone ↦ rw (free, gone) (Grown-refl t)
          | inr (m, e) ↦
              rw (free, e)
                (λ r. record {
                  reached = scheduled name key payload (rw (free, e) refl) r;
                  keeps = λ x k h. has_run-start name key payload m t x k e h;
                })
        ]
      ]

  -- The action only lets the runs grow; `runs` is where its state has them.
  abbrev pub Keeping : {S A : Type 0} (runs : S → TriggerRunner) → M S A → Type 0
  Keeping {S} runs m = (s : S) → Grown (runs s) (runs (m s).1)

  module _ {S A B : Type 0} (runs : S → TriggerRunner) where
    pub >>=-Keeping :
        (m : M S A) (f : A → M S B)
        → Keeping runs m
        → ((a : A) → Keeping runs (f a))
        → Keeping runs (m >>= f)
    >>=-Keeping m f first next s = go (m s) (first s)
      where
        go :
            (r : Outcome A × S)
            → Grown (runs s) (runs r.1)
            → Grown (runs s) (runs (and_then r.0 f r.1).1)
        go (ok a, s') g = Grown-trans g (next a s')
        go (err e, s') g = g
        go (panic, s') g = g

    pub attempt-Keeping :
        (m : M S A) (f : A → M S B) (g : Error → M S B)
        → Keeping runs m
        → ((a : A) → Keeping runs (f a))
        → ((e : Error) → Keeping runs (g e))
        → Keeping runs (attempt m f g)
    attempt-Keeping m f g first next failed s = go (m s) (first s)
      where
        go :
            (r : Outcome A × S)
            → Grown (runs s) (runs r.1)
            → Grown (runs s) (runs (resume r.0 f g r.1).1)
        go (ok a, s') h = Grown-trans h (next a s')
        go (err e, s') h = Grown-trans h (failed e s')
        go (panic, s') h = h

  module _ {S A : Type 0} (runs : S → TriggerRunner) where
    pub if-Keeping :
        (b : Bool) (m n : M S A)
        → Keeping runs m
        → Keeping runs n
        → Keeping runs (if b then m else n)
    if-Keeping true m n f g = f
    if-Keeping false m n f g = g
