-- ===== src/Tests/Runs.antt =====
-- Instances of the theorems on the runner of rollout/rollout.go and on feedback/feedback.go.
use locutus.Tests.Cluster.{
  Thing, single, bundle, next, none_left, Head, Store, cluster, cluster_finite,
}
use mathlib.Core.List.{Perm}
use locutus.Prelude.{List, Option, ◌⊎◌}
use mathlib.Core.List.Perm
use locutus.Prelude.{pos, String, Bool, true, false, ◌≡◌, refl, none, some, [], ◌∷◌}
use locutus.Outcome.{◌>>◌, Outcome, ok}
use locutus.Maps.{lookup, insert}
use locutus.Client.{
  Client, new_client, client_for_unstructured, client_for, new_for_config, set_config_defaults,
}
use locutus.Feedback.{
  StatusCondition, ObjectFeedback, finished, available_from, conditions_for, initialize_status,
  set_status, initialize, set_condition, write_back, statuses_equal, conditions_equal,
}
use locutus.Feedback.Board.{set_conditions, set_all, board_of, start_board, set_conditions-set_all}
use locutus.Rollout.Types.{RolloutGroup, Step, RenderResult}
use locutus.Rollout.Actions.{create_if_not_exist}
use locutus.Rollout.Checks.{run_checks}
use locutus.Rollout.Runner.{
  Runner, Progress, RolloutMetrics, Actions, execute_single_action, execute_action_on,
  execute_action, run_step, run_sequential, run_parallel, run_group, run_groups, roll_out,
  render_and_roll_out, execute,
}
use locutus.Rollout.Runs.Nesting.{Walks, execute_action-items}
use locutus.Rollout.Runs.Sequence.{Ends, run_sequential-Ends}
use locutus.Rollout.Runs.Parallel.{ParallelEnds, run_parallel-ParallelEnds}
use locutus.Rollout.Runs.Groups.{Shows, feedback, execute-finished}

abbrev head_of : String → Head
head_of name = record {
  api_version = "batch/v1";
  kind = "Job";
  name = name;
  version = "";
  notes = none;
  ip = none;
}

abbrev backup : Thing
backup = single (head_of "backup")

abbrev both : Thing
both = bundle (head_of "both") (next backup (next (single (head_of "restore")) none_left))

abbrev client : Client cluster
client =
    new_client cluster (record { group_version = none; api_path = ""; qps = pos 5; burst = pos 10 })

abbrev actions : Actions cluster
actions =
    (
      "CreateIfNotExist",
      record { action_name = "CreateIfNotExist"; execute = create_if_not_exist cluster },
    )
    ∷ []

execute_action-items_example :
    ((cluster.items both ≡ none)
      × (execute_action cluster client actions "CreateIfNotExist" ([], both)
          ≡ execute_single_action cluster client actions "CreateIfNotExist" ([], both)))
    ⊎ ((xs : List (Option Thing)) × (o : Outcome (Unit {0})) × (w' : Store) × (xs' : List
          (Option Thing))
        × (cluster.items both ≡ some xs)
        × (execute_action cluster client actions "CreateIfNotExist" ([], both)
            ≡ (o, (w', cluster.set_items both xs')))
        × Walks cluster
            (execute_action cluster client actions "CreateIfNotExist")
            xs
            []
            (o, (w', xs')))
execute_action-items_example =
    execute_action-items cluster client actions "CreateIfNotExist" cluster_finite both []

abbrev pub step : Bool → String → Step
step may object = record {
  name = "create";
  object = object;
  action = "CreateIfNotExist";
  success = [];
  continue_on_error = may;
}

abbrev group : RolloutGroup
group = record {
  name = "jobs";
  parallel = false;
  steps = step true "absent" ∷ step false "backup" ∷ [];
}

abbrev result : RenderResult cluster
result = record {
  objects = ("backup", backup) ∷ [];
  rollout = some (record {
    api_version = "workflow.kubernetes.io/v1alpha1";
    kind = "Rollout";
    metadata = none;
    spec = some (record { parallel = false; groups = group ∷ [] });
  });
}

abbrev pub runner : Runner cluster
runner = record {
  client = client;
  actions = actions;
  checks = record { client = client; database_connections = none; known_checks = [] };
  provider = λ raw w. (ok result, w);
  encode = λ res w. (ok tt, w);
  render_only = false;
  schedule = λ steps. (steps, Perm.refl steps);
}

run_sequential-Ends_example :
    Ends cluster runner group.steps
      ([], result.objects)
      (run_sequential cluster runner group.steps ([], result.objects))
run_sequential-Ends_example = run_sequential-Ends cluster runner group.steps ([], result.objects)

run_parallel-ParallelEnds_example :
    (ordered : List Step) × Perm ordered group.steps
    × ParallelEnds cluster runner ordered
        ([], result.objects)
        (run_parallel cluster runner group.steps ([], result.objects))
run_parallel-ParallelEnds_example =
    run_parallel-ParallelEnds cluster runner group.steps ([], result.objects)

abbrev old : StatusCondition cluster
old = record { last_transition_time = 3; name = "jobs"; current_status = finished }

abbrev job_feedback : ObjectFeedback cluster
job_feedback = record {
  client = client;
  old_status = none;
  current_status = none;
  obj = some backup;
}

abbrev start : Progress cluster (feedback cluster)
start = record { world = []; objects = []; feedback_state = some job_feedback }

abbrev metrics : RolloutMetrics
metrics = record { execution_durations = 0; executions = 0; executions_failed = 0 }

abbrev executed : Outcome (Unit {0}) × (RolloutMetrics × Progress cluster (feedback cluster))
executed = execute cluster (feedback cluster) runner none metrics start

executed_ok : executed ≡ (ok tt, (executed.1.0, executed.1.1))
unfolding execute render_and_roll_out roll_out run_groups run_group run_sequential run_step
    execute_action execute_action_on execute_single_action create_if_not_exist lookup insert
    run_checks client_for_unstructured client_for new_for_config set_config_defaults initialize
    initialize_status available_from conditions_for set_condition set_status write_back
    statuses_equal conditions_equal
executed_ok = refl

execute-finished_example : Shows cluster executed.1.1 (("jobs", finished) ∷ [])
execute-finished_example =
    execute-finished cluster runner none metrics executed.1.0 [] result (group ∷ []) job_feedback
      start executed.1.1 refl refl refl refl executed_ok

abbrev board_shown_state : Store × ObjectFeedback cluster
board_shown_state =
    ((initialize cluster ("jobs" ∷ "web" ∷ []) >> set_conditions cluster (("web", finished) ∷ []))
      ([], job_feedback)).1

-- Both methods on the object, which writes its status after each of them.
board_shown :
    (initialize cluster ("jobs" ∷ "web" ∷ []) >> set_conditions cluster (("web", finished) ∷ []))
      ([], job_feedback)
    ≡ (ok tt, (board_shown_state.0, board_shown_state.1))
unfolding initialize initialize_status available_from conditions_for set_condition set_status
    write_back statuses_equal conditions_equal lookup insert client_for_unstructured client_for
    new_for_config set_config_defaults
board_shown = refl

set_conditions-set_all_example :
    board_of cluster board_shown_state.1.current_status
    ≡ set_all (("web", finished) ∷ []) (start_board cluster none ("jobs" ∷ "web" ∷ []))
set_conditions-set_all_example =
    set_conditions-set_all cluster ("jobs" ∷ "web" ∷ []) (("web", finished) ∷ []) []
      board_shown_state.0 job_feedback board_shown_state.1 board_shown
