-- ===== src/Tests/Rollouts.antt =====
-- Instances of the theorems on rollout/ and feedback/, on the small cluster.
use locutus.Tests.Cluster.{Thing, single, Store, cluster}
use locutus.Value.{object, deep_equal}
use locutus.Prelude.{◌↔◌, pos, String, true, false, ◌≡◌, refl, none, some, List, [], ◌∷◌, All, ◌⊎◌}
use locutus.Outcome.{Error, ok, err, is_oom_killed}
use locutus.Maps.{Assoc, lookup, insert}
use locutus.Env.{Pod}
use locutus.Db.{Connections, type_cockroachdb}
use locutus.Value.{Value, nil, string, object, get_field, deep_equal}
use locutus.Value.Laws.{IsPlain}
use locutus.Client.{Client, ResourceClient, new_client}
use locutus.Rollout.Types.{ExpectedFieldComparisonValue, FailureDefinition, ReportConfig}
use locutus.Rollout.Checks.{
  new_checks, register_checks, JsonPath, check_comparisons, check_field_comparison, paths_from,
  add_paths, values_from, find_result, current_values, CheckRunner, Checks, to_fields,
  inner_condition, check_failed, check_each, send_report, report_database,
}
use locutus.Rollout.Checks.JobOom.{
  default_checks, job_oom_execute, job_oom_killed_check, look_for_killed, was_killed, Killed,
  job_oom_execute-Killed,
}
use locutus.Rollout.Checks.Values.{Covers, values_from-Covers}
use locutus.Rollout.Checks.Failures.{
  Passed, Reported, check_failed-ok, inner_condition-changed, inner_condition-stalled,
}

abbrev expects : String → ExpectedFieldComparisonValue
expects kind = record {
  name = "kind";
  path = "{.kind}";
  default = nil;
  value = some (record { path = ""; static = string kind; static_int64 = 0 });
}

abbrev job : Thing
job = single (record {
  api_version = "batch/v1";
  kind = "Job";
  name = "backup";
  version = "1";
  notes = none;
  ip = none;
})

abbrev store : Store
store = ("backup", job) ∷ []

abbrev client : Client cluster
client =
    new_client cluster (record { group_version = none; api_path = ""; qps = pos 5; burst = pos 10 })

abbrev job_values : Assoc Value
job_values = ("{.kind}", string "Job") ∷ []

abbrev job_paths : Assoc (JsonPath cluster)
job_paths = ("{.kind}", record { jsonpath = "{.kind}"; default_value = nil }) ∷ []

job_paths_parsed : paths_from cluster (expects "Job" ∷ []) [] ≡ ok job_paths
unfolding paths_from add_paths insert
job_paths_parsed = refl

job_values_read : values_from cluster job job_paths [] ≡ ok job_values
unfolding values_from find_result insert
job_values_read = refl

values_from-Covers_example : All (Covers cluster job_values) (expects "Job" ∷ [])
values_from-Covers_example =
    values_from-Covers cluster (expects "Job" ∷ []) job_paths job job_values job_paths_parsed
      job_values_read

abbrev report : ReportConfig
report = record { database = some (record { database_name = "main"; stmt = "INSERT INTO failed" }) }

abbrev failure : FailureDefinition
failure = record { check_name = "JobOOMKilled"; report = some report }

abbrev runner_for : String → CheckRunner cluster
runner_for kind = record {
  client = client;
  comparisons = record {
    expected_values = expects kind ∷ [];
    timeout = pos 60;
    progress_timeout = pos 10;
    poll_interval = pos 1;
    report_timeout = none;
    failure = [];
  };
  failure = [];
  paths = job_paths;
  database_connections = none;
  known_checks = ("JobOOMKilled", job_oom_killed_check cluster) ∷ [];
}

-- The failure check finds the job's pod killed, and the report of that goes through.
abbrev databases : Connections
databases = record {
  connections =
      ("main", record { type = type_cockroachdb; cockroach_client = record { pool = "main" } })
      ∷ [];
}

abbrev watching : CheckRunner cluster
watching = record (runner_for "Job") {
  failure = failure ∷ [];
  database_connections = some databases;
}

job_reported : check_failed cluster watching job store ≡ (ok tt, store)
unfolding check_failed check_each lookup job_oom_execute look_for_killed was_killed is_oom_killed
    send_report report_database
job_reported = refl

check_failed-ok_example :
    Passed cluster watching job (failure ∷ []) store store
    ⊎ Reported cluster watching job (failure ∷ []) store store
check_failed-ok_example = check_failed-ok cluster watching job store store job_reported

abbrev jobs : ResourceClient cluster
jobs = record {
  endpoint = record {
    config = record { group_version = none; api_path = "/apis"; qps = pos 5; burst = pos 10 };
    resource = record { group = ""; version = "batch/v1"; resource = "jobs" };
    namespace = "";
  };
  update_preparations = [];
  update_checks = [];
}

-- The outer poll had read a kind that is not the one expected; by now it is.
abbrev read_before : Assoc Value
read_before = ("{.kind}", string "Pod") ∷ []

judged_before :
    check_comparisons (runner_for "Job").comparisons.expected_values read_before
    ≡ ok (
      false,
      record {
        check_name = "kind";
        message = "field comparison failed: ";
        observed = string "Pod";
        expected = string "Job";
      }
          ∷ [],
    )
unfolding check_comparisons check_field_comparison lookup deep_equal
judged_before = refl

polled_again :
    inner_condition cluster (runner_for "Job") jobs job read_before store ≡ (ok true, store)
unfolding inner_condition current_values values_from find_result insert lookup check_comparisons
    check_field_comparison deep_equal check_failed check_each get_field
polled_again = refl

inner_condition-changed_example :
    (inner_values : Assoc Value) × (w₁ : Store) × (current_values cluster job_paths jobs "backup"
        store
      ≡ (ok inner_values, w₁))
    × ((true ≡ true)
        ↔ (deep_equal (object (to_fields read_before)) (object (to_fields inner_values)) ≡ false))
inner_condition-changed_example =
    inner_condition-changed cluster (runner_for "Job") job jobs read_before _ store store true
      judged_before polled_again

abbrev killed_pods : List Pod
killed_pods =
    record { namespace = ""; name = "job-1"; terminated = none ∷ some "OOMKilled" ∷ [] } ∷ []

job_oom_execute-Killed_example :
    (Killed killed_pods
      → (e : Error) × (job_oom_execute cluster client job store ≡ (err e, store))
        × (is_oom_killed e ≡ true))
    × (¬ Killed killed_pods → job_oom_execute cluster client job store ≡ (ok tt, store))
job_oom_execute-Killed_example =
    job_oom_execute-Killed cluster client job store store killed_pods refl refl

judged_still :
    check_comparisons (runner_for "Service").comparisons.expected_values job_values
    ≡ ok (
      false,
      record {
        check_name = "kind";
        message = "field comparison failed: ";
        observed = string "Job";
        expected = string "Service";
      }
          ∷ [],
    )
unfolding check_comparisons check_field_comparison lookup deep_equal
judged_still = refl

job_values_again :
    current_values cluster (runner_for "Service").paths jobs "backup" store ≡ (ok job_values, store)
unfolding current_values values_from find_result insert lookup
job_values_again = refl

nothing_failed : check_failed cluster (runner_for "Service") job store ≡ (ok tt, store)
unfolding check_failed check_each
nothing_failed = refl

job_values-IsPlain : IsPlain (object (to_fields job_values))
unfolding get_field
job_values-IsPlain = (refl, tt, tt)

inner_condition-stalled_example :
    inner_condition cluster (runner_for "Service") jobs job job_values store ≡ (ok false, store)
inner_condition-stalled_example =
    inner_condition-stalled cluster (runner_for "Service") job jobs job_values _ store store store
      job_values-IsPlain judged_still job_values_again nothing_failed

abbrev default_registry : Checks cluster
default_registry = record {
  client = client;
  database_connections = none;
  known_checks = ("JobOOMKilled", job_oom_killed_check cluster) ∷ [];
}

default_registered : new_checks cluster client none (default_checks cluster) ≡ ok default_registry
unfolding new_checks register_checks lookup insert
default_registered = refl
