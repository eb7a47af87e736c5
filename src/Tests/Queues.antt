-- ===== src/Tests/Queues.antt =====
-- Instances of the theorems on the work queue of trigger/resource/.
use locutus.Tests.Cluster.{Thing, single, cluster}
use locutus.Tests.Triggers.{exact}
use locutus.Client.{new_client}
use locutus.Prelude.{
  pos, String, ◌≡◌, ◌≢◌, ◌⊎◌, inl, inr, sym, ap, refl, true, Option, none, some, List, [], ◌∷◌,
}
use mathlib.Core.List.{Memᴰ}
use locutus.Outcome.{external, ok, err}
use locutus.Trigger.{execute_each}
use locutus.Trigger.Resource.{on_add, transform_keys}
use locutus.Trigger.Resource.Worker.{
  WorkQueue, QueueLaws, ResourceTrigger, enqueue, process_next_work_item, sync,
}
use locutus.Trigger.Resource.Kept.{LeavesQueue, SyncedIn, of_added, run_events-reported}
use locutus.Trigger.Resource.Running.{Event, added, reports, works, run_events}

-- A work queue that is the list of the waiting keys.
abbrev take_first : List String → Option String × List String
take_first [] = (none, [])
take_first (key ∷ keys) = (some key, keys)

abbrev waiting_keys : WorkQueue (List String)
waiting_keys = record {
  get = take_first;
  add = λ key w. key ∷ w;
  done = λ key w. w;
  forget = λ key w. w;
  add_rate_limited = λ key w. key ∷ w;
  shut_down = λ w. w;
}

got_first :
    (key : String) (w : List String)
    → Memᴰ key w
    → Memᴰ key (take_first w).1 ⊎ ((take_first w).0 ≡ some key)
got_first key [] h = inl h
got_first key (k ∷ keys) (Memᴰ.head e) = inr (ap some (sym e))
got_first key (k ∷ keys) (Memᴰ.tail m) = inl m

abbrev waiting_keys_laws : QueueLaws waiting_keys
waiting_keys_laws = record {
  Waiting = λ key w. Memᴰ key w;
  put = λ key w. Memᴰ.head refl;
  Held = λ key w. Memᴰ key w;
  added = λ key w. Memᴰ.head refl;
  released = λ key w h. h;
  got = got_first;
  kept = λ key other w h. h;
  put_keeps = λ key other w h. Memᴰ.tail h;
  add_keeps = λ key other w h. Memᴰ.tail h;
  forget_keeps = λ key other w h. h;
}

abbrev web : Thing
web = single (record {
  api_version = "v1";
  kind = "Service";
  name = "web";
  version = "1";
  notes = none;
  ip = none;
})

abbrev always_failing : ResourceTrigger cluster (List String)
always_failing = record {
  executions = record { executions = (λ config w. (err (external "no cluster"), w)) ∷ [] };
  client =
      new_client cluster
        (record { group_version = none; api_path = ""; qps = pos 5; burst = pos 10 });
  queue = waiting_keys;
  get_by_key = λ key w. (ok (some web), w);
  marshal = λ o. ok "{}";
  key_of = λ o. ok "default/web";
  write_status = true;
}

sync_fails :
    sync cluster (List String) always_failing "default/web" [] ≡ (err (external "no cluster"), [])
unfolding sync execute_each
sync_fails = refl

leaves : LeavesQueue cluster (List String) always_failing waiting_keys_laws
unfolding execute_each
leaves = record { looks = λ key looked w h. h; executes = λ key config w h. h }

abbrev no_version : Thing → Option String
no_version o = none

-- The object is added, then the worker takes its key twice, and each sync fails.
abbrev reported : List (Event cluster (List String) exact always_failing)
reported = reports [] (added web) ∷ works ∷ works ∷ []

ran :
    run_events cluster (List String) exact always_failing no_version reported []
    ≡ (ok tt, "default/web" ∷ [])
unfolding run_events on_add enqueue process_next_work_item sync execute_each transform_keys
ran = refl

named : transform_keys exact [] "default/web" ≢ ""
unfolding transform_keys
named h = cc h

run_events-reported_example :
    Memᴰ (transform_keys exact [] "default/web") ("default/web" ∷ [])
    ⊎ SyncedIn cluster
        (List String)
        always_failing
        waiting_keys_laws
        (transform_keys exact [] "default/web")
        exact
        no_version
        (works ∷ works ∷ [])
        (always_failing.queue.add (transform_keys exact [] "default/web") [])
run_events-reported_example =
    run_events-reported cluster (List String) always_failing waiting_keys_laws leaves exact
      no_version [] (added web) web "default/web" (works ∷ works ∷ []) [] ("default/web" ∷ [])
      (of_added web) refl named ran
