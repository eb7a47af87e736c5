-- ===== src/Trigger/Resource/Kept.antt =====
-- trigger/resource/: from an event of an informer, through the handlers and the work queue, to the
-- worker. No key is lost on the way.
use locutus.Trigger.{execute_registered}
use locutus.Trigger.Resource.{
  Regexp, KeyTransformation, transform_keys, on_add, on_update, on_delete, enqueue_key,
  update_known, same_version, enqueue_known,
}
use locutus.Trigger.Resource.Worker.{
  QueueLaws, ResourceTrigger, enqueue, key_func, sync, sync_object, feedback_for, change, then_done,
  process_key, process_next_work_item,
}
use locutus.Trigger.Resource.Running.{
  Change, added, updated, deleted, Event, reports, works, handlers_of, handle, run_event,
  run_events,
}
use locutus.Prelude.{
  [], ◌∷◌, String, Bool, true, false, ◌≡◌, ◌≢◌, refl, ap, ◌∙◌, subst, ◌⊎◌, inl, inr, Option, none,
  some, List, ◌==◌, ==_ne, Bool-cases,
}
use locutus.Outcome.{Outcome, ok, err, panic, pure, lift, attempt, ◌>>=◌, ◌>>◌, >>=-eq-ok}
use locutus.Env.{Env}
use locutus.Rollout.Config.{RolloutConfig}

module _ (env : Env) (W : Type 0) (p : ResourceTrigger env W) (laws : QueueLaws p.queue) where
  open env use {Obj}
  open laws use {Waiting}

  -- Neither the informer's store nor an execution takes a key out of the queue.
  pub record LeavesQueue : Type 0 where
    pub looks :
        (key looked : String) (w : W) → Waiting key w → Waiting key (p.get_by_key looked w).1
    pub executes :
        (key : String) (config : Option (RolloutConfig env)) (w : W)
        → Waiting key w
        → Waiting key (execute_registered W (RolloutConfig env) p.executions config w).1

  -- The worker takes the key, and its sync returns no error.
  abbrev pub TakenSynced : String → W → Type 0
  TakenSynced key w =
      (w₁ : W) × (w₂ : W) × (p.queue.get w ≡ (some key, w₁)) × (sync env W p key w₁ ≡ (ok tt, w₂))

  module _ (key : String) where
    -- In this event the worker takes the key and syncs it without an error.
    abbrev pub Takes : (re : Regexp) → Event env W re p → W → Type 0
    Takes re (reports ts change) w = ⊥
    Takes re works w = TakenSynced key w

    -- Some event of a run of these does so.
    abbrev pub SyncedIn :
        (re : Regexp) → (Obj → Option String) → List (Event env W re p) → W → Type 0
    SyncedIn re version [] w = ⊥
    SyncedIn re version (e ∷ es) w =
        Takes re e w
        ⊎ ((w₁ : W) × (run_event env W re p version e w ≡ (ok tt, w₁)) × SyncedIn re version es w₁)

  module _ (leaves : LeavesQueue) (key : String) where
    sync_object-leaves :
        (o : Option Obj) (w : W) → Waiting key w → Waiting key (sync_object env W p o w).1
    sync_object-leaves none w waits = waits
    sync_object-leaves (some obj) w waits = go (p.marshal obj)
      where
        go :
            (o : Outcome String)
            → Waiting key
                ((lift o >>= λ cfg.
                    execute_registered W (RolloutConfig env) p.executions (
                      some (record { raw_config = some cfg; feedback = feedback_for env W p obj })))
                  w).1
        go (ok cfg) = leaves.executes key _ w waits
        go (err e) = waits
        go panic = waits

    sync-leaves : (synced : String) (w : W) → Waiting key w → Waiting key (sync env W p synced w).1
    unfolding sync
    sync-leaves synced w waits = go (p.get_by_key synced w) (leaves.looks key synced w waits)
      where
        go :
            (r : Outcome (Option Obj) × W)
            → Waiting key r.1
            → Waiting key (((λ _. r) >>= sync_object env W p) w).1
        go (ok o, w₁) h = sync_object-leaves o w₁ h
        go (err e, w₁) h = h
        go (panic, w₁) h = h

    -- `key` waits, or it is the one that was taken.
    processed :
        (taken : String) (w : W) (more : Bool) (w' : W)
        → (Waiting key w) ⊎ (taken ≡ key)
        → process_key env W p (some taken) w ≡ (ok more, w')
        → Waiting key w' ⊎ ((taken ≡ key) × ((w₂ : W) × (sync env W p key w ≡ (ok tt, w₂))))
    processed taken w more w' where_is h =
        go (sync env W p taken w) refl (λ waits. sync-leaves taken w waits) h
      where
        go :
            (r : Outcome (Unit {0}) × W)
            → sync env W p taken w ≡ r
            → (Waiting key w → Waiting key r.1)
            → then_done env W
                (p.queue.done taken)
                (attempt
                  (λ _. r)
                  (λ _. change env W (p.queue.forget taken) >> pure true)
                  (λ _. change env W (p.queue.add_rate_limited taken) >> pure true))
                w
              ≡ (ok more, w')
            → Waiting key w' ⊎ ((taken ≡ key) × ((w₂ : W) × (sync env W p key w ≡ (ok tt, w₂))))
        go (ok _, w₁) ran keep h =
            let ends : p.queue.done taken (p.queue.forget taken w₁) ≡ w' = ap (λ x. x.1) h in
            elim where_is [
              | inl waits ↦ inl (
                  subst (Waiting key) ends (
                    laws.kept key taken (p.queue.forget taken w₁)
                      (laws.forget_keeps key taken w₁ (keep waits))))
              | inr same ↦ inr (same, (w₁, subst (λ k. sync env W p k w ≡ (ok tt, w₁)) same ran))
            ]
        go (err e, w₁) ran keep h =
            let again = p.queue.add_rate_limited taken w₁ in
            let ends : p.queue.done taken again ≡ w' = ap (λ x. x.1) h in
            let waits : Waiting key (p.queue.done taken again) = elim where_is [
              | inl waits ↦ laws.kept key taken again (laws.add_keeps key taken w₁ (keep waits))
              | inr same ↦
                  subst (λ k. Waiting k (p.queue.done taken again)) same
                    (laws.released taken again (laws.added taken w₁))
            ] in
            inl (subst (Waiting key) ends waits)
        go (panic, w₁) ran keep h = cc (ap (λ x. x.0) h)

    after :
        {w w' : W} (taken : String) (w₁ : W)
        → p.queue.get w ≡ (some taken, w₁)
        → Waiting key w' ⊎ ((taken ≡ key) × ((w₂ : W) × (sync env W p key w₁ ≡ (ok tt, w₂))))
        → Waiting key w' ⊎ TakenSynced key w
    after taken w₁ took (inl waits) = inl waits
    after taken w₁ took (inr (same, (w₂, ran))) =
        inr (w₁, w₂, took ∙ ap (λ k. (some k, w₁)) same, ran)

    process_next_work_item-kept :
        (w : W) (more : Bool) (w' : W)
        → Waiting key w
        → process_next_work_item env W p w ≡ (ok more, w')
        → Waiting key w' ⊎ TakenSynced key w
    unfolding process_next_work_item
    process_next_work_item-kept w more w' waits h = go (p.queue.get w) refl (laws.got key w waits) h
      where
        go :
            (r : Option String × W)
            → p.queue.get w ≡ r
            → Waiting key r.1 ⊎ (r.0 ≡ some key)
            → process_key env W p r.0 r.1 ≡ (ok more, w')
            → Waiting key w' ⊎ TakenSynced key w
        go (none, w₁) took (inl h) e = inl (subst (Waiting key) (ap (λ x. x.1) e) h)
        go (none, w₁) took (inr h) e = cc
        go (some taken, w₁) took (inl h) e =
            after taken w₁ took (processed taken w₁ more w' (inl h) e)
        go (some taken, w₁) took (inr h) e =
            after taken w₁ took (processed taken w₁ more w' (inr (cc)) e)

    enqueue_key-leaves :
        (re : Regexp) (version : Obj → Option String) (ts : List (KeyTransformation re))
        (other : String) (w : W)
        → Waiting key w
        → Waiting key (enqueue_key re W Obj (handlers_of env W re p version ts) other w).1
    unfolding enqueue
    enqueue_key-leaves re version ts other w waits =
        elim (Bool-cases (transform_keys re ts other == "")) [
          | inl dropped ↦ rw dropped waits
          | inr named ↦ rw named (laws.put_keeps key (transform_keys re ts other) w waits)
        ]

    module _ (re : Regexp) (version : Obj → Option String) where
      enqueue_known-leaves :
          (ts : List (KeyTransformation re)) (o : Option String) (w : W)
          → Waiting key w
          → Waiting key (enqueue_known re W Obj (handlers_of env W re p version ts) o w).1
      enqueue_known-leaves ts none w waits = waits
      enqueue_known-leaves ts (some other) w waits = enqueue_key-leaves re version ts other w waits

      update_known-leaves :
          (ts : List (KeyTransformation re)) (unchanged : Bool) (o : Option String) (w : W)
          → Waiting key w
          → Waiting key (update_known re W Obj (handlers_of env W re p version ts) unchanged o w).1
      update_known-leaves ts unchanged none w waits = waits
      update_known-leaves ts true (some other) w waits = waits
      update_known-leaves ts false (some other) w waits =
          enqueue_key-leaves re version ts other w waits

      handle-leaves :
          (ts : List (KeyTransformation re)) (change : Change Obj) (w : W)
          → Waiting key w
          → Waiting key (handle env W re p version (handlers_of env W re p version ts) change w).1
      unfolding on_add on_update on_delete
      handle-leaves ts (added obj) w waits = enqueue_known-leaves ts (key_func env W p obj) w waits
      handle-leaves ts (deleted obj) w waits =
          enqueue_known-leaves ts (key_func env W p obj) w waits
      handle-leaves ts (updated old cur) w waits =
          update_known-leaves ts (same_version (version old) (version cur)) (key_func env W p cur) w
            waits

      run_event-kept :
          (e : Event env W re p) (w w' : W)
          → Waiting key w
          → run_event env W re p version e w ≡ (ok tt, w')
          → Waiting key w' ⊎ Takes key re e w
      run_event-kept (reports ts change) w w' waits h =
          inl (subst (Waiting key) (ap (λ x. x.1) h) (handle-leaves ts change w waits))
      run_event-kept works w w' waits h =
          let (more, w₁, ran, rest) = >>=-eq-ok (process_next_work_item env W p) _ w h in
          elim (process_next_work_item-kept w more w₁ waits ran) [
            | inl waits' ↦ inl (subst (Waiting key) (ap (λ x. x.1) rest) waits')
            | inr synced ↦ inr synced
          ]

      run_events-kept :
          (es : List (Event env W re p)) (w w' : W)
          → Waiting key w
          → run_events env W re p version es w ≡ (ok tt, w')
          → Waiting key w' ⊎ SyncedIn key re version es w
      unfolding run_events
      run_events-kept [] w w' waits h = inl (subst (Waiting key) (ap (λ x. x.1) h) waits)
      run_events-kept (e ∷ es) w w' waits h =
          let (_, w₁, ran, rest) = >>=-eq-ok (run_event env W re p version e) _ w h in
          let next = run_events-kept es w₁ w' in
          elim (run_event-kept e w w₁ waits ran) [
            | inr synced ↦ inr (inl synced)
            | inl waits' ↦ elim (next waits' rest) [
              | inl still ↦ inl still
              | inr later ↦ inr (inr (w₁, ran, later))
            ]
          ]

  -- What a change reports that is to be synced: an update only of another version.
  pub data Reports (version : Obj → Option String) : Change Obj → Obj → Type 0 where
    of_added : (obj : Obj) → Reports version (added obj) obj
    of_deleted : (obj : Obj) → Reports version (deleted obj) obj
    of_updated :
        (old obj : Obj)
        → same_version (version old) (version obj) ≡ false
        → Reports version (updated old obj) obj

  reported :
      (re : Regexp) (version : Obj → Option String) (ts : List (KeyTransformation re))
      (change : Change Obj) (obj : Obj) (k : String) (w : W)
      → Reports version change obj
      → p.key_of obj ≡ ok k
      → transform_keys re ts k ≢ ""
      → handle env W re p version (handlers_of env W re p version ts) change w
        ≡ (ok tt, p.queue.add (transform_keys re ts k) w)
  unfolding on_add on_update on_delete enqueue
  reported re version ts _ _ k w (of_added obj) known named =
      rw (known, ==_ne (transform_keys re ts k) "" named) refl
  reported re version ts _ _ k w (of_deleted obj) known named =
      rw (known, ==_ne (transform_keys re ts k) "" named) refl
  reported re version ts _ _ k w (of_updated old obj changed) known named =
      rw (known, changed, ==_ne (transform_keys re ts k) "" named) refl

  -- No object that an informer reports is lost, whatever is reported and whatever the worker takes
  -- afterwards, in any order. Where the work queue keeps its promises, and neither the store of the
  -- informer nor an execution takes a key out of it, after an object was added, deleted, or updated
  -- to another version, which has a key that its transformations do not make empty, and where
  -- nothing has panicked, the transformed key is waiting in the queue (or the queue is shut down),
  -- or in one of the events since then the worker took it, and its sync returned no error.
  pub run_events-reported :
      (leaves : LeavesQueue) (re : Regexp) (version : Obj → Option String)
      (ts : List (KeyTransformation re)) (change : Change Obj) (obj : Obj) (k : String)
      (es : List (Event env W re p)) (w w' : W)
      → Reports version change obj
      → p.key_of obj ≡ ok k
      → transform_keys re ts k ≢ ""
      → run_events env W re p version (reports ts change ∷ es) w ≡ (ok tt, w')
      → Waiting (transform_keys re ts k) w'
        ⊎ SyncedIn (transform_keys re ts k) re version es (p.queue.add (transform_keys re ts k) w)
  unfolding run_events
  run_events-reported leaves re version ts change obj k es w w' reports_it known named h =
      run_events-kept leaves (transform_keys re ts k) re version es
        (p.queue.add (transform_keys re ts k) w) w' (laws.put (transform_keys re ts k) w)
        (rw (reported re version ts change obj k w reports_it known named) at h)
