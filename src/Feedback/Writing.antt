-- ===== src/Feedback/Writing.antt =====
-- The methods of feedback/feedback.go on the feedback's state.
use locutus.Prelude.{
  String, true, false, ◌≡◌, ◌≢◌, refl, subst, Option, none, some, List, [], map, ◌==◌, is_some,
  if◌then◌else◌, Bool-cases, inl, inr,
}
use locutus.Outcome.{Outcome, ok, err, panic}
use locutus.Env.{Env}
use locutus.Client.{client_for_unstructured, ResourceClient}
use locutus.Feedback.{
  StatusCondition, CurrentStatus, ObjectFeedback, Doing, old_conditions, statuses_equal,
  write_status, write_to, write_back, initialize, initialize_now, set_condition, available_from,
  header_of, triple_of,
}
use locutus.Feedback.Conditions.{
  status_of, initialize_status-Starts, status_before, set_status-Sets,
}

module _ (env : Env) where
  open env use {World, Obj, update_status, status_object}

  -- Whatever its outcome, the call leaves the conditions of the new status as they are.
  abbrev KeepsStatus : Doing env (Unit {0}) → Type 0
  KeepsStatus m =
      (w : World) (f : ObjectFeedback env) → (m (w, f)).1.1.current_status ≡ f.current_status

  write_status-KeepsStatus :
      (u : Obj) (cs : List (StatusCondition env)) → KeepsStatus (write_status env u cs)
  write_status-KeepsStatus u cs w f = go (client_for_unstructured env f.client u w) refl
    where
      go :
          (r : Outcome (ResourceClient env) × World)
          → client_for_unstructured env f.client u w ≡ r
          → (write_status env u cs (w, f)).1.1.current_status ≡ f.current_status
      go (ok rc, w₁) e =
          sent
            (update_status rc.endpoint (status_object (header_of env u) (map (triple_of env) cs))
              w₁)
            refl
        where
          sent :
              (r : Outcome Obj × World)
              → update_status rc.endpoint
                  (status_object (header_of env u) (map (triple_of env) cs))
                  w₁
                ≡ r
              → (write_status env u cs (w, f)).1.1.current_status ≡ f.current_status
          sent (ok _, w₂) e' = rw (e, e')
          sent (err _, w₂) e' = rw (e, e')
          sent (panic, w₂) e' = rw (e, e')
      go (err _, w₁) e = rw e
      go (panic, w₁) e = rw e

  write_to-KeepsStatus :
      (o : Option Obj) (cs : List (StatusCondition env)) → KeepsStatus (write_to env o cs)
  write_to-KeepsStatus none cs w f = refl
  write_to-KeepsStatus (some u) cs w f = write_status-KeepsStatus u cs w f

  write_back-KeepsStatus : KeepsStatus (write_back env)
  unfolding write_back
  write_back-KeepsStatus w f =
      elim (Bool-cases (statuses_equal env f.old_status f.current_status)) [
        | inl same ↦ rw same
        | inr differs ↦
            rw differs (write_to-KeepsStatus f.obj (old_conditions env f.current_status) w f)
      ]

  set_condition-current :
      (name : String) (status : CurrentStatus) (w : World) (f : ObjectFeedback env)
      (cs : List (StatusCondition env))
      → is_some f.obj ≡ true
      → f.current_status ≡ some cs
      → (cs' : List (StatusCondition env)) × ((set_condition env name status
            (w, f)).1.1.current_status
          ≡ some cs')
        × (map (status_of env) cs'
            ≡ map (λ c. (c.name, if c.name == name then status else c.current_status)) cs)
  unfolding set_condition
  set_condition-current name status w f cs there known =
      let (cs', w', run, sets) = set_status-Sets env name status cs w in
      (
        cs',
        rw (there, known, run) (write_back-KeepsStatus w' (record f { current_status = some cs' })),
        sets,
      )

  set_condition-gone :
      (name : String) (status : CurrentStatus) (w : World) (f : ObjectFeedback env)
      → is_some f.obj ≡ false
      → (w' : World) (f' : ObjectFeedback env)
      → set_condition env name status (w, f) ≢ (ok tt, (w', f'))
  unfolding set_condition
  set_condition-gone name status w f gone w' f' h = cc (rw gone at h)

  -- After a SetCondition that reports no error, the conditions of that name have the status.
  pub set_condition-ok :
      (name : String) (status : CurrentStatus) (w w' : World) (f f' : ObjectFeedback env)
      (cs : List (StatusCondition env))
      → set_condition env name status (w, f) ≡ (ok tt, (w', f'))
      → f.current_status ≡ some cs
      → (cs' : List (StatusCondition env)) × (f'.current_status ≡ some cs')
        × (map (status_of env) cs'
            ≡ map (λ c. (c.name, if c.name == name then status else c.current_status)) cs)
  set_condition-ok name status w w' f f' cs h known = elim (Bool-cases (is_some f.obj)) [
    | inl there ↦
        let (cs', now_set, sets) = set_condition-current name status w f cs there known in
        (cs', subst (λ s. s.1.1.current_status ≡ some cs') h now_set, sets)
    | inr gone ↦ absurd (set_condition-gone name status w f gone w' f' h)
  ]

  -- After an Initialize that reports no error, there is one condition for each group.
  pub initialize-ok :
      (groups : List String) (w w' : World) (f f' : ObjectFeedback env)
      → initialize env groups (w, f) ≡ (ok tt, (w', f'))
      → (cs : List (StatusCondition env)) × (f'.current_status ≡ some cs)
        × (map (status_of env) cs
            ≡ map
                (λ g. (
                  g,
                  status_before env (available_from env [] (old_conditions env f.old_status)) g,
                ))
                groups)
  unfolding initialize
  initialize-ok groups w w' f f' h = elim (Bool-cases (is_some f.obj)) [
    | inl there ↦
        let (cs, w₁, run, starts) = initialize_status-Starts env f.old_status groups w in
        let kept : (initialize_now env groups (w, f)).1.1.current_status ≡ some cs =
          rw run (write_back-KeepsStatus w₁ (record f { current_status = some cs })) in
        (cs, subst (λ s. s.1.1.current_status ≡ some cs) (rw there at h) kept, starts)
    | inr gone ↦ absurd (cc (rw gone at h))
  ]
