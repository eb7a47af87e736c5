-- ===== src/Trigger/Database/Places.antt =====
-- Where the entries of trigger/database/database.go's maps point to.
use locutus.Trigger.Database.{
  TriggerConfig, TriggerRun, TriggerRunner, run_at, count, name_triggers, is_done, set_done,
  forget_done, runs_of, clean_up, start_run, schedule_trigger_run,
}
use locutus.Trigger.Database.Safety.{Reaches, created, cleaned, finished, scheduled}
use locutus.Prelude.{
  ℕ, zero, suc, String, Bool, true, false, ◌≡◌, refl, sym, ap, ◌∙◌, subst, inl, inr, some, List, [],
  ◌∷◌, ◌++◌, All, ◌==◌, if◌then◌else◌, Bool-cases, Option-cases,
}
use locutus.Outcome.{ok}
use locutus.Maps.{Assoc, lookup, insert, remove, lookup-nil, lookup-insert, lookup-remove}

-- The entry names a run that was started, and the run has the entry's key.
abbrev pub Points : List TriggerRun → String × ℕ → Type 0
Points runs p = (r : TriggerRun) × (run_at p.1 runs ≡ some r) × (r.key ≡ p.0)

abbrev AllPoint : TriggerRunner → Type 0
AllPoint t =
    (name : String) (m : Assoc ℕ) → lookup name t.active_triggers ≡ some m → All (Points t.runs) m

Points-append :
    (runs more : List TriggerRun) (p : String × ℕ) → Points runs p → Points (runs ++ more) p
unfolding run_at
Points-append runs more p (r, at, key) = (r, kept p.1 runs at, key)
  where
    kept : (n : ℕ) (rs : List TriggerRun) → run_at n rs ≡ some r → run_at n (rs ++ more) ≡ some r
    kept n [] h = cc
    kept zero (x ∷ rs) h = h
    kept (suc n) (x ∷ rs) h = kept n rs h

run_at-count :
    (runs : List TriggerRun) (r : TriggerRun) → run_at (count runs) (runs ++ (r ∷ [])) ≡ some r
unfolding run_at
run_at-count [] r = refl
run_at-count (x ∷ runs) r = run_at-count runs r

run_at-set_done :
    (n m : ℕ) (runs : List TriggerRun) (r : TriggerRun)
    → run_at n runs ≡ some r
    → (r' : TriggerRun) × (run_at n (set_done m runs) ≡ some r') × (r'.key ≡ r.key)
unfolding run_at set_done
run_at-set_done n m [] r h = cc
run_at-set_done zero zero (x ∷ runs) r h =
    let same : x ≡ r = cc in (record x { done = true }, refl, ap (λ (y : TriggerRun). y.key) same)
run_at-set_done zero (suc m) (x ∷ runs) r h = (r, h, refl)
run_at-set_done (suc n) zero (x ∷ runs) r h = (r, h, refl)
run_at-set_done (suc n) (suc m) (x ∷ runs) r h = run_at-set_done n m runs r h

All-Points :
    (runs runs' : List TriggerRun)
    → ((p : String × ℕ) → Points runs p → Points runs' p)
    → (entries : Assoc ℕ) → All (Points runs) entries
    → All (Points runs') entries
All-Points runs runs' f [] h = tt
All-Points runs runs' f (p ∷ entries) h = (f p h.0, All-Points runs runs' f entries h.1)

All-Points-insert :
    (runs : List TriggerRun) (key : String) (n : ℕ) (entries : Assoc ℕ)
    → Points runs (key, n)
    → All (Points runs) entries
    → All (Points runs) (insert key n entries)
unfolding insert
All-Points-insert runs key n [] new h = (new, tt)
All-Points-insert runs key n (p ∷ entries) new h = elim (Bool-cases (p.0 == key)) [
  | inl same ↦ rw same (new, h.1)
  | inr other ↦ rw other (h.0, All-Points-insert runs key n entries new h.1)
]

-- Nothing is added to the outer map when it is cleaned up.
forget_done-some :
    (entries : Assoc ℕ) (runs : List TriggerRun) (active : Assoc (Assoc ℕ)) (x : String)
    (m : Assoc ℕ)
    → lookup x (forget_done entries runs active) ≡ some m
    → lookup x active ≡ some m
unfolding forget_done
forget_done-some [] runs active x m h = h
forget_done-some ((key, n) ∷ entries) runs active x m h =
    one (is_done n runs)
      (forget_done-some entries runs (if is_done n runs then remove key active else active) x m h)
  where
    one :
        (b : Bool)
        → lookup x (if b then remove key active else active) ≡ some m
        → lookup x active ≡ some m
    one false e = e
    one true e = elim (Bool-cases (key == x)) [
      | inl same ↦ absurd (cc (rw (lookup-remove key x active, same) at e))
      | inr other ↦ rw (lookup-remove key x active, other) at e
    ]

name_triggers-empty :
    (cs : List TriggerConfig) (active : Assoc (Assoc ℕ)) (x : String) (m : Assoc ℕ)
    → ((y : String) (n : Assoc ℕ) → lookup y active ≡ some n → n ≡ [])
    → lookup x (name_triggers cs active) ≡ some m
    → m ≡ []
unfolding name_triggers
name_triggers-empty [] active x m h e = h x m e
name_triggers-empty (c ∷ cs) active x m h e =
    name_triggers-empty cs (insert c.name [] active) x m next e
  where
    next : (y : String) (n : Assoc ℕ) → lookup y (insert c.name [] active) ≡ some n → n ≡ []
    next y n g = elim (Bool-cases (c.name == y)) [
      | inl same ↦ let g' = rw (lookup-insert c.name y [] active, same) at g in cc
      | inr other ↦ h y n (rw (lookup-insert c.name y [] active, other) at g)
    ]

start_run-AllPoint :
    (name key payload : String) (m : Assoc ℕ) (t : TriggerRunner)
    → AllPoint t
    → lookup name t.active_triggers ≡ some m
    → AllPoint (start_run name key payload m t)
start_run-AllPoint name key payload m t h e x n g = elim (Bool-cases (name == x)) [
  | inl same ↦
      let g' = rw (lookup-insert name x new t.active_triggers, same) at g in
      let is_new : new ≡ n = cc in
      subst (All (Points runs)) is_new (
        All-Points-insert runs key (count t.runs) m (run, run_at-count t.runs run, refl)
          (All-Points t.runs runs (Points-append t.runs (run ∷ [])) m (h name m e)))
  | inr other ↦
      All-Points t.runs runs (Points-append t.runs (run ∷ [])) n
        (h x n (rw (lookup-insert name x new t.active_triggers, other) at g))
]
  where
    run : TriggerRun
    run = record { key = key; payload = payload; done = false }

    runs : List TriggerRun
    runs = t.runs ++ (run ∷ [])

    new : Assoc ℕ
    new = insert key (count t.runs) m

scheduled-AllPoint :
    (name key payload : String) (t t' : TriggerRunner)
    → schedule_trigger_run name key payload t ≡ (ok tt, t')
    → AllPoint t
    → AllPoint t'
unfolding schedule_trigger_run
scheduled-AllPoint name key payload t t' s h = elim (Option-cases (lookup key t.active_triggers)) [
  | inr (old, active) ↦ let same : t ≡ t' = ap (λ r. r.1) (rw active at s) in subst AllPoint same h
  | inl free ↦ elim (Option-cases (lookup name t.active_triggers)) [
    | inl gone ↦ absurd (cc (rw (free, gone) at s))
    | inr (m, e) ↦
        let same : start_run name key payload m t ≡ t' = ap (λ r. r.1) (rw (free, e) at s) in
        subst AllPoint same (start_run-AllPoint name key payload m t h e)
  ]
]

Reaches-AllPoint :
    (configs : List TriggerConfig) (t : TriggerRunner) → Reaches configs t → AllPoint t
unfolding clean_up
Reaches-AllPoint configs _ created x m e =
    let empty =
      name_triggers-empty configs [] x m (λ y n g. absurd (cc (g, lookup-nil {V = Assoc ℕ} y))) e in
    subst (All (Points [])) (sym empty) tt
Reaches-AllPoint configs _ (cleaned {t} name r) x m e =
    Reaches-AllPoint configs t r x m
      (forget_done-some (runs_of name t.active_triggers) t.runs t.active_triggers x m e)
Reaches-AllPoint configs _ (finished {t} n r) x m e =
    All-Points t.runs (set_done n t.runs)
      (λ p (run, at, key).
        let (run', at', key') = run_at-set_done p.1 n t.runs run at in (run', at', key' ∙ key))
      m (Reaches-AllPoint configs t r x m e)
Reaches-AllPoint configs _ (scheduled {t} {t'} name key payload s r) x m e =
    scheduled-AllPoint name key payload t t' s (Reaches-AllPoint configs t r) x m e

-- In every state that the database trigger gets to, each entry in the map of a trigger names a run
-- that was started, and the run has the key of the entry.
runs_of-Points :
    (configs : List TriggerConfig) (t : TriggerRunner) (name : String) (m : Assoc ℕ)
    → Reaches configs t
    → lookup name t.active_triggers ≡ some m
    → All (Points t.runs) m
runs_of-Points configs t name m r e = Reaches-AllPoint configs t r name m e
