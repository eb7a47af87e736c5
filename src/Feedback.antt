-- ===== src/Feedback.antt =====
-- feedback/feedback.go: the status that a rollout writes back to the object that triggered it.
-- `Feedback` is the interface that the runner uses, and `ObjectFeedback` its implementation.
pub mod Conditions
pub mod Writing
pub mod Board
use locutus.Prelude.{
  String, Bool, true, false, not, ◌&&◌, Option, none, some, List, [], ◌∷◌, ◌++◌, map, ◌==◌, is_some,
  if◌then◌else◌,
}
use locutus.Outcome.{Outcome, ok, err, panic, M, pure, crash, attempt, throw, ◌>>=◌, ◌>>◌}
use locutus.Maps.{Assoc, lookup, insert}
use locutus.Value.{Value, Items, done, item, Fields, array, object}
use locutus.Env.{Env, StatusHeader}
use locutus.Client.{Client, client_for_unstructured}

abbrev pub CurrentStatus : Type 0
CurrentStatus = String

abbrev pub not_started : CurrentStatus
not_started = "Not Started"

abbrev pub in_progress : CurrentStatus
in_progress = "In Progress"

abbrev pub finished : CurrentStatus
finished = "Finished"

-- The interface `Feedback`: its methods change the world and the feedback's own state.
pub record Feedback (env : Env) : Type 1 where
  pub State : Type 0
  pub initialize : List String → M (env.World × State) (Unit {0})
  pub set_condition : String → CurrentStatus → M (env.World × State) (Unit {0})

module _ (env : Env) where
  open env use {
    World, Obj, api_version, kind, name, namespace, resource_version, nested_field, field_string,
    Time, now, parse_time, time_equal, status_object, update_status,
  }

  pub record StatusCondition : Type 0 where
    pub last_transition_time : Time
    pub name : String
    pub current_status : CurrentStatus

  abbrev pub nested_text : Fields → String → String
  nested_text v field = elim (field_string v field) [ ok (some s) ↦ s | _ ↦ "" ]

  unfoldable pub extract_status_condition : Fields → StatusCondition
  extract_status_condition v = record {
    last_transition_time = parse_time (nested_text v "lastTransitionTime");
    name = nested_text v "name";
    current_status = nested_text v "currentStatus";
  }

  -- the loop over the conditions; one that is no map makes the whole status nil
  unfoldable pub extract_conditions : Items → Option (List StatusCondition)
  unfolding extract_status_condition
  extract_conditions done = some []
  extract_conditions (item (object v) xs) = elim (extract_conditions xs) [
    | none ↦ none
    | some cs ↦ some (extract_status_condition v ∷ cs)
  ]
  extract_conditions (item _ xs) = none

  -- Status.Conditions of the status that the object has; `none` for a nil status
  unfoldable pub extract_status : Obj → Option (List StatusCondition)
  unfolding extract_conditions
  extract_status u = elim (nested_field u ("status" ∷ "conditions" ∷ [])) [
    | ok (some (array xs)) ↦ extract_conditions xs
    | _ ↦ none
  ]

  -- `current_status` is nil before Initialize, and `obj` after a failed UpdateStatus.
  pub record ObjectFeedback : Type 0 where
    pub client : Client env
    pub old_status : Option (List StatusCondition)
    pub current_status : Option (List StatusCondition)
    pub obj : Option Obj

  abbrev pub new_feedback : Client env → Obj → ObjectFeedback
  new_feedback client u = record {
    client = client;
    old_status = extract_status u;
    current_status = none;
    obj = some u;
  }

  -- metav1.Now()
  abbrev pub current_time : M World Time
  current_time w = let (t, w') = now w in (ok t, w')

  abbrev pub condition_at : Time → String → StatusCondition
  condition_at t group = record {
    last_transition_time = t;
    name = group;
    current_status = not_started;
  }

  -- availableOldConditions: of two conditions with one name the later one stays
  unfoldable pub available_from :
      Assoc StatusCondition → List StatusCondition → Assoc StatusCondition
  available_from m [] = m
  available_from m (c ∷ cs) = available_from (insert c.name c m) cs

  -- the two loops over the groups; without old conditions none is found
  unfoldable pub conditions_for :
      Assoc StatusCondition → List String → M World (List StatusCondition)
  conditions_for old [] = pure []
  conditions_for old (g ∷ gs) = do
    c ← elim (lookup g old) [
      | some c ↦ pure c
      | none ↦ current_time >>= λ t. pure (condition_at t g)
    ]
    cs ← conditions_for old gs
    pure (c ∷ cs)

  abbrev pub old_conditions : Option (List StatusCondition) → List StatusCondition
  old_conditions none = []
  old_conditions (some cs) = cs

  unfoldable pub initialize_status :
      Option (List StatusCondition) → List String → M World (List StatusCondition)
  initialize_status old groups = conditions_for (available_from [] (old_conditions old)) groups

  abbrev pub condition_equal : StatusCondition → StatusCondition → Bool
  condition_equal a b =
      time_equal a.last_transition_time b.last_transition_time
      && a.name == b.name
      && a.current_status == b.current_status

  unfoldable pub conditions_equal : List StatusCondition → List StatusCondition → Bool
  conditions_equal [] [] = true
  conditions_equal (a ∷ as') (b ∷ bs) = condition_equal a b && conditions_equal as' bs
  conditions_equal _ _ = false

  -- DeepEqual of the two statuses. Without conditions the new status has a nil slice and the old
  -- one, if there is one, an empty slice: DeepEqual tells these apart.
  unfoldable pub statuses_equal :
      Option (List StatusCondition) → Option (List StatusCondition) → Bool
  unfolding conditions_equal
  statuses_equal none none = true
  statuses_equal none (some cs) = false
  statuses_equal (some cs) none = false
  statuses_equal (some cs) (some []) = false
  statuses_equal (some cs) (some (c ∷ new)) = conditions_equal cs (c ∷ new)

  abbrev pub header_of : Obj → StatusHeader
  header_of u = record {
    kind = kind u;
    api_version = api_version u;
    name = name u;
    namespace = namespace u;
    resource_version = resource_version u;
  }

  abbrev pub triple_of : StatusCondition → String × String × Time
  triple_of c = (c.name, c.current_status, c.last_transition_time)

  abbrev pub Doing : Type 0 → Type 0
  Doing A = M (World × ObjectFeedback) A

  abbrev pub outside : {A : Type 0} → M World A → Doing A
  outside m (w, f) = let (o, w') = m w in (o, (w', f))

  abbrev pub self : Doing ObjectFeedback
  self (w, f) = (ok f, (w, f))

  abbrev pub become : ObjectFeedback → Doing (Unit {0})
  become f (w, _) = (ok tt, (w, f))

  -- `f.obj, err = c.UpdateStatus(…); return err`
  abbrev pub write_status : Obj → List StatusCondition → Doing (Unit {0})
  write_status u cs = do
    f ← self
    rc ← outside (client_for_unstructured env f.client u)
    attempt (outside (update_status rc.endpoint (status_object (header_of u) (map triple_of cs))))
        (λ u'. become (record f { obj = some u' }))
        (λ e. become (record f { obj = none }) >> throw e)

  abbrev pub write_to : Option Obj → List StatusCondition → Doing (Unit {0})
  write_to none cs = crash
  write_to (some u) cs = write_status u cs

  unfoldable pub write_back : Doing (Unit {0})
  unfolding statuses_equal
  write_back = do
    f ← self
    if statuses_equal f.old_status f.current_status
        then pure tt
        else write_to f.obj (old_conditions f.current_status)

  -- Each method logs the object's name first, and so reads through `obj`.
  abbrev pub with_object : Doing (Unit {0}) → Doing (Unit {0})
  with_object m = do f ← self; if is_some f.obj then m else crash

  abbrev pub initialize_now : List String → Doing (Unit {0})
  initialize_now groups = do
    f ← self
    cs ← outside (initialize_status f.old_status groups)
    become (record f { current_status = some cs })
    write_back

  unfoldable pub initialize : List String → Doing (Unit {0})
  initialize groups = with_object (initialize_now groups)

  -- The loop of SetCondition: each condition of that name whose status differs is replaced.
  unfoldable pub set_status :
      String → CurrentStatus → List StatusCondition → M World (List StatusCondition)
  set_status name status [] = pure []
  set_status name status (c ∷ cs) = do
    c' ←
        if c.name == name && not (c.current_status == status)
        then (current_time >>= λ t.
            pure (record { last_transition_time = t; name = name; current_status = status }))
        else pure c
    cs' ← set_status name status cs
    pure (c' ∷ cs')

  abbrev pub set_conditions_of :
      Option (List StatusCondition) → String → CurrentStatus → Doing (Unit {0})
  set_conditions_of none name status = crash
  set_conditions_of (some cs) name status = do
    cs' ← outside (set_status name status cs)
    f ← self
    become (record f { current_status = some cs' })
    write_back

  unfoldable pub set_condition : String → CurrentStatus → Doing (Unit {0})
  set_condition name status =
      with_object (do f ← self; set_conditions_of f.current_status name status)

  abbrev pub object_feedback : Feedback env
  object_feedback = record {
    State = ObjectFeedback;
    initialize = initialize;
    set_condition = set_condition;
  }
