-- ===== src/Trigger/Resource/Running.antt =====
-- trigger/resource/resource.go: Run of the trigger. The informers report changes to their handlers
-- while the worker takes keys from the queue, in an order that the environment chooses.
use locutus.Trigger.Resource.{
  Regexp, ResourceHandlers, KeyTransformation, on_add, on_update, on_delete,
}
use locutus.Trigger.Resource.Worker.{
  ResourceTrigger, a_key, enqueue, key_func, then_done, process_next_work_item,
}
use locutus.Prelude.{String, Option, List, [], ◌∷◌}
use locutus.Outcome.{M, pure, ◌>>=◌, ◌>>◌}
use locutus.Env.{Env}

-- What an informer reports of an object.
pub data Change (Obj : Type 0) : Type 0 where
  added : Obj → Change Obj
  updated : Obj → Obj → Change Obj
  deleted : Obj → Change Obj

module _ (env : Env) (W : Type 0) (re : Regexp) (p : ResourceTrigger env W) where
  open env use {Obj}

  -- A change that the informer with these key transformations reports, or the worker's next item.
  pub data Event : Type 0 where
    reports : List (KeyTransformation re) → Change Obj → Event
    works : Event

  module _ (version : Obj → Option String) where
    -- The handlers of an informer of this trigger, as NewTrigger makes them.
    abbrev pub handlers_of : List (KeyTransformation re) → ResourceHandlers re W Obj
    handlers_of ts = record {
      key_transformations = ts;
      key_func = key_func env W p;
      version = version;
      enqueue_func = λ key. enqueue env W p (a_key key);
    }

    abbrev pub handle : ResourceHandlers re W Obj → Change Obj → M W (Unit {0})
    handle r (added obj) = on_add re W Obj r obj
    handle r (updated old cur) = on_update re W Obj r old cur
    handle r (deleted obj) = on_delete re W Obj r obj

    abbrev pub run_event : Event → M W (Unit {0})
    run_event (reports ts change) = handle (handlers_of ts) change
    run_event works = process_next_work_item env W p >>= λ more. pure tt

    unfoldable pub run_events : List Event → M W (Unit {0})
    run_events [] = pure tt
    run_events (e ∷ es) = run_event e >> run_events es

    -- Run, with what happens until its context is done
    abbrev pub run_resource : List Event → M W (Unit {0})
    run_resource events = then_done env W p.queue.shut_down (run_events events)
