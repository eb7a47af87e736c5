-- ===== src/Tests/Triggers.antt =====
-- Instances of the theorems on trigger/.
use locutus.Tests.Cluster.{cluster}
use locutus.Tests.Cluster.{due_rows}
use locutus.Trigger.Database.Query.{cockroach_trigger}
use locutus.Trigger.Database.Query.Starting.{Start, cockroach_trigger-starts}
use locutus.Trigger.Database.Safety.{Reaches}
use locutus.Trigger.Database.{TriggerRun}
use locutus.Env.{text_cell}
use locutus.Db.Rows.{next_row, row_from}
use locutus.Source.{TableRow}
use locutus.Source.Copies.{Gives}
use locutus.Trigger.Database.Keys.{trigger_key-injective}
use locutus.Prelude.{
  ◌<◌, arith, All, ℕ, suc, String, Bool, true, false, ◌≡◌, ◌≢◌, refl, Option, none, some, List, [],
  ◌∷◌, ◌==◌, if◌then◌else◌, map,
}
use locutus.Outcome.{external, ok, err, panic}
use locutus.Maps.{remove, lookup, insert}
use locutus.Trigger.{Execution, ExecutionRegister, execute_each, execute_registered, run_interval}
use locutus.Trigger.Passing.{ticked, run_interval-ticked}
use locutus.Trigger.Database.{
  TriggerConfig, TriggerRunner, name_triggers, new_trigger, runs_of, start_run,
  schedule_trigger_run,
}
use locutus.Trigger.Database.Growing.{Grows}
use locutus.Trigger.Database.Growing.Run.{over, again, run_database-Grows}
use locutus.Trigger.Database.Running.{
  TriggerEvent, tick_of, end_of, config_at, DatabaseState, run_database,
}
use locutus.Db.{Connections, type_cockroachdb}
use locutus.Rollout.Config.{RolloutConfig}
use locutus.Trigger.Database.{is_done, set_done, run_at, forget_done, clean_up}
use locutus.Trigger.Database.Query.{check_trigger, query_trigger, trigger_rows}
use locutus.Trigger.Database.Named.{is_trigger}
use locutus.Trigger.Database.Safety.{created, scheduled, schedule_trigger_run-starts}
use locutus.Trigger.Resource.{Regexp, KeyTransformation, transform_keys, ResourceHandlers}
use locutus.Trigger.Resource.Keys.{keeping, transform_keys-keeping}

-- An execution that counts and always fails, and one that only counts.
abbrev failing : Execution ℕ String
failing config n = (err (external "no cluster"), suc n)

abbrev counting : Execution ℕ String
counting config n = (ok tt, suc n)

abbrev both : ExecutionRegister ℕ String
both = record { executions = counting ∷ failing ∷ [] }

never_panics : (n : ℕ) → (execute_registered ℕ String both none n).0 ≢ panic
unfolding execute_each
never_panics n h = cc

run_interval-ticked_example :
    run_interval ℕ String 3 both 0
    ≡ (ok tt, ticked (λ n. (execute_registered ℕ String both none n).1) 3 0)
run_interval-ticked_example = run_interval-ticked ℕ String 3 both 0 never_panics

abbrev due : TriggerConfig
due = record {
  name = "due";
  database_name = "main";
  query = "SELECT id FROM due";
  key = "id";
  groups_rows_to_array = false;
}

abbrev configs : List TriggerConfig
configs = due ∷ []

-- The row "1" has started a run that is not done.
abbrev running : TriggerRunner
running = start_run "due" "1" "{}" [] (new_trigger configs)

running_starts : schedule_trigger_run "due" "1" "{}" (new_trigger configs) ≡ (ok tt, running)
unfolding schedule_trigger_run name_triggers lookup insert
running_starts = refl

is_trigger_due : is_trigger "due" configs ≡ true
unfolding is_trigger
is_trigger_due = refl

is_trigger_row : is_trigger "1" configs ≡ false
unfolding is_trigger
is_trigger_row = refl

schedule_trigger_run-starts_example :
    schedule_trigger_run "due" "1" "{}" running
    ≡ (ok tt, start_run "due" "1" "{}" (runs_of "due" running.active_triggers) running)
schedule_trigger_run-starts_example =
    schedule_trigger_run-starts configs running "due" "1" "{}"
      (scheduled "due" "1" "{}" running_starts created) is_trigger_due is_trigger_row

-- Regular expressions that match one string each.
abbrev pub exact : Regexp
exact = record {
  Regex = String;
  compile = λ s. ok s;
  match_string = λ r s. r == s;
  expand = λ r t s. if r == s then some t else none;
}

abbrev dropping : KeyTransformation exact
dropping = record { action = "drop"; regex = "default/web"; replacement = "$1" }

transform_keys-keeping_example :
    transform_keys exact (map (keeping exact) (dropping ∷ [])) "default/web"
    ≡ transform_keys exact (dropping ∷ []) "default/web"
transform_keys-keeping_example = transform_keys-keeping exact (dropping ∷ []) "default/web"

-- The queue is the list of the keys put into it, and an object its key and its version.
abbrev handlers : ResourceHandlers exact (List String) (String × String)
handlers = record {
  key_transformations = dropping ∷ [];
  key_func = λ o. some o.0;
  version = λ o. some o.1;
  enqueue_func = λ key queue. (ok tt, key ∷ queue);
}

abbrev due_read : List TableRow
due_read = (("id", text_cell "1") ∷ []) ∷ (("id", text_cell "2") ∷ []) ∷ []

due_rows-Gives : Gives due_rows due_read
unfolding next_row row_from insert
due_rows-Gives = refl

abbrev run_for : String → TriggerRun
run_for key = record { key = key; payload = "row"; done = false }

abbrev due_runs : List TriggerRun
due_runs = run_for "1" ∷ run_for "2" ∷ []

due_read-Start : Start cluster configs due due_read due_runs
unfolding lookup is_trigger
due_read-Start = (
  record {
    cell = text_cell "1";
    has_key = refl;
    key = refl;
    payload = refl;
    not_done = refl;
    unnamed = refl;
  },
  (
    record {
      cell = text_cell "2";
      has_key = refl;
      key = refl;
      payload = refl;
      not_done = refl;
      unnamed = refl;
    },
    tt,
  ),
)

cockroach_trigger-starts_example :
    (t' : TriggerRunner) × (cockroach_trigger cluster
        (record { pool = "main" })
        due
        ([], new_trigger configs)
      ≡ (ok tt, ([], t')))
    × (t'.runs ≡ due_runs)
    × Reaches configs t'
cockroach_trigger-starts_example =
    cockroach_trigger-starts cluster configs due (record { pool = "main" }) due_rows due_read
      due_runs [] (new_trigger configs) refl refl due_rows-Gives due_read-Start created
      is_trigger_due refl

abbrev small_and_large : List ℕ
small_and_large = 1 ∷ 255 ∷ []

are_bytes : All (λ b. b < 256) small_and_large
are_bytes = (omega arith, (omega arith, tt))

trigger_key-injective_example : small_and_large ≡ small_and_large
trigger_key-injective_example =
    trigger_key-injective cluster small_and_large small_and_large are_bytes are_bytes refl

-- The connection of the trigger's database, and an execution that counts and fails.
abbrev connected : Option Connections
connected = some (record {
  connections =
      ("main", record { type = type_cockroachdb; cockroach_client = record { pool = "main" } })
      ∷ [];
})

abbrev counted : ExecutionRegister (cluster.World × ℕ) (RolloutConfig cluster)
counted = record { executions = (λ config (w, n). (err (external "no cluster"), (w, suc n))) ∷ [] }

abbrev a_tick_and_an_end : List TriggerEvent
a_tick_and_an_end = tick_of 0 ∷ end_of 0 ∷ tick_of 0 ∷ []

abbrev after_ticks : DatabaseState cluster ℕ
after_ticks =
    (run_database cluster ℕ counted connected configs a_tick_and_an_end
      (([], 0), new_trigger configs)).1

-- The row "1" starts a run at each of the two ticks, though that of the first is done.
ticks_start :
    map {B = String × Bool} (λ r. (r.key, r.done)) after_ticks.1.runs
    ≡ ("1", true) ∷ ("2", false) ∷ ("1", false) ∷ ("2", false) ∷ []
unfolding run_database config_at check_trigger clean_up forget_done cockroach_trigger query_trigger
    trigger_rows next_row row_from insert lookup schedule_trigger_run name_triggers run_at set_done
    execute_each is_done remove
ticks_start = refl

run_database-Grows_example : Grows configs (new_trigger configs) after_ticks.1
run_database-Grows_example =
    run_database-Grows configs cluster (λ pool f w t. again w over) ℕ counted connected
      a_tick_and_an_end (([], 0), new_trigger configs) created
