-- ===== src/Tests/Wiring.antt =====
-- Instances of the theorems on cli/cli.go.
use mathlib.Core.Option
use mathlib.Core.List.Perm
use locutus.Prelude.{◌==◌}
use locutus.Outcome.{M, pure, chain, err}
use locutus.Rollout.Config.{pass_config, run_rollout}
use locutus.Rollout.Runner.{execute, render_and_roll_out}
use locutus.Trigger.{execute_each}
use locutus.Render.Texts.{has_equals, trim_prefix}
use locutus.Render.File.{render_visits}
use locutus.Render.Jsonnet.Imports.{written, insert_all}
use locutus.Cli.{client_config, one_off_trigger}
use locutus.Cli.Actors.{add_actors}
use locutus.Cli.Running.{RolloutState, Runtime, no_metrics, file_passer, start, main}
use locutus.Cli.OneOff.{exits, main-one_off}
use locutus.Cli.Parsing.{FlagParsers, default_flags, set_flag, parse_flags, undefined_flag}
use locutus.Cli.ExtStrs.{ext_str_arguments, renderer_of_flags, parse_flags-written}
use locutus.Tests.Cluster.{cluster}
use locutus.Tests.Sources.{decoders, jsonnet}
use locutus.Tests.Triggers.{exact}
use locutus.Prelude.{pos, String, true, false, ◌≡◌, ◌≢◌, refl, none, List, [], ◌∷◌, map}
use locutus.Outcome.{ok}
use locutus.Env.{RestConfig}
use locutus.Maps.{lookup, insert}
use locutus.Source.{SourceQuery}
use locutus.Rollout.Actions.{set_object_actions, default_object_actions}
use locutus.Render.File.{render_files}
use locutus.Rollout.Checks.{Checks, new_checks, register_checks}
use locutus.Rollout.Checks.JobOom.{job_oom_killed_check}
use locutus.Rollout.Runner.{Runner}
use locutus.Cli.{
  cli_client, file_renderer, interval_trigger, Flags, Outside, Wired, open_connections,
  database_sources, renderer_for, logger, wire,
}
use locutus.Cli.Kinds.{kind_of, asked_for}
use locutus.Cli.Wiring.{KnowsActions, wire-wired}
use locutus.Cli.Actors.{group_runs, last_or, wire-group_runs}
use locutus.Cli.Unconnected.{wire-unconnected}

abbrev minutely : Flags
minutely = record {
  log_level = "info";
  master_url = "";
  kubeconfig = "";
  qps = pos 5;
  burst = pos 10;
  render_provider_name = "file";
  write_status = true;
  config_file = "";
  render_only = false;
  one_off = false;
  renderer_file_directory = "manifests/";
  renderer_file_rollout = "rollout.yaml";
  renderer_jsonnet_jpaths = [];
  renderer_jsonnet_entrypoint = "";
  renderer_jsonnet_ext_strs = [];
  database_connections_file = "";
  default_database_url_file = "";
  source_database_file = "";
  trigger_interval_duration = pos 60;
  trigger_resource_config = "";
  trigger_database_config = "";
}

abbrev due_query : List SourceQuery
due_query = record { name = "due"; database_name = "main"; query = "SELECT id FROM due" } ∷ []

abbrev outside : Outside cluster exact
outside = record {
  build_config = λ url path w.
      (ok (record { group_version = none; api_path = ""; qps = pos 0; burst = pos 0 }), w);
  float32 = λ n. n;
  new_clientset = λ c. ok tt;
  decode_resources = λ s. ok (record { main_resource = ""; resources = [] });
  decode_connections = λ s. ok [];
  decode_queries = λ s. ok due_query;
  decode_triggers = λ s. ok [];
  list_store = λ labels inf w. (ok "[]", w);
  jsonnet = jsonnet;
  files = decoders;
  encode = λ r w. (ok tt, w);
  schedule = λ steps. (steps, Perm.refl steps);
}

abbrev rest_config : RestConfig
rest_config = record { group_version = none; api_path = "/api"; qps = pos 5; burst = pos 10 }

abbrev known : Checks cluster
known = record {
  client = cli_client cluster exact rest_config;
  database_connections = none;
  known_checks = ("JobOOMKilled", job_oom_killed_check cluster) ∷ [];
}

abbrev minute_runner : Runner cluster
minute_runner = record {
  client = cli_client cluster exact rest_config;
  actions = set_object_actions cluster (default_object_actions cluster) [];
  checks = known;
  provider = λ config. render_files cluster decoders (file_renderer cluster exact outside minutely);
  encode = outside.encode;
  render_only = false;
  schedule = outside.schedule;
}

abbrev every_minute : Wired cluster exact
every_minute = record {
  triggers = interval_trigger (pos 60) ∷ [];
  sources = [];
  runner = minute_runner;
  config_file = "";
}

wires : wire cluster exact outside minutely rest_config [] ≡ (ok every_minute, [])
unfolding wire open_connections database_sources renderer_for new_checks register_checks lookup
    insert
wires = refl

wire-wired_example :
    (map (kind_of cluster exact) every_minute.triggers ≡ asked_for minutely)
    × (asked_for minutely ≢ [])
    × KnowsActions cluster exact outside minutely rest_config every_minute.runner.actions
    × (every_minute.runner.render_only ≡ minutely.render_only)
wire-wired_example = wire-wired cluster exact outside minutely rest_config [] [] every_minute wires

abbrev unconnected : Flags
unconnected = record minutely { source_database_file = "queries.yaml" }

not_empty : unconnected.source_database_file ≢ ""
not_empty h = cc h

has_queries :
    (contents : String) (v v' : cluster.World)
    → cluster.read_file unconnected.source_database_file v ≡ (ok contents, v')
    → outside.decode_queries contents ≢ ok []
has_queries contents v v' e h = cc

wire-unconnected_example :
    wire cluster exact outside unconnected rest_config [] ≢ (ok every_minute, [])
wire-unconnected_example =
    wire-unconnected cluster exact outside unconnected rest_config [] [] every_minute refl not_empty
      has_queries

wire-group_runs_example :
    map (Option.map (kind_of cluster exact)) (group_runs every_minute.triggers)
    ≡ map (λ _. last_or none (asked_for minutely)) (asked_for minutely)
wire-group_runs_example =
    wire-group_runs cluster exact outside minutely rest_config [] [] every_minute wires

-- A process whose run group ends with the function of its one trigger.
abbrev second_of :
    List (M (RolloutState cluster exact) (Unit {0})) → M (RolloutState cluster exact) (Unit {0})
second_of (server ∷ actor ∷ others) = actor
second_of _ = pure tt

abbrev runtime : Runtime cluster exact
runtime = record {
  listen = pure tt;
  serve_http = pure tt;
  until_signal = pure tt;
  run_group = second_of;
  ticks = λ d. 1;
  events = [];
  run_background = λ t r. pure tt;
}

abbrev once : Flags
once = record minutely { one_off = true; render_only = true }

abbrev limited : RestConfig
limited = record { group_version = none; api_path = ""; qps = pos 5; burst = pos 10 }

abbrev once_runner : Runner cluster
once_runner = record {
  client = cli_client cluster exact limited;
  actions = set_object_actions cluster (default_object_actions cluster) [];
  checks = record {
    client = cli_client cluster exact limited;
    database_connections = none;
    known_checks = ("JobOOMKilled", job_oom_killed_check cluster) ∷ [];
  };
  provider = λ config. render_files cluster decoders (file_renderer cluster exact outside once);
  encode = outside.encode;
  render_only = true;
  schedule = outside.schedule;
}

abbrev wired_once : Wired cluster exact
wired_once = record {
  triggers = one_off_trigger ∷ [];
  sources = [];
  runner = once_runner;
  config_file = "";
}

starts_once : start cluster exact outside once [] ≡ (ok wired_once, [])
unfolding client_config logger wire open_connections database_sources renderer_for new_checks
    register_checks lookup insert
starts_once = refl

main-one_off_example :
    main cluster exact outside runtime once []
    ≡ exits cluster exact (
        pass_config cluster
          (RolloutState cluster exact)
          (file_passer cluster exact wired_once)
          none
          ([], no_metrics cluster exact))
main-one_off_example =
    main-one_off cluster exact outside runtime once [] [] [] wired_once refl starts_once refl refl

-- That run renders without an error.
exits_zero : (main cluster exact outside runtime once []).0 ≡ ok 0
unfolding main client_config logger wire open_connections database_sources renderer_for new_checks
    register_checks lookup insert add_actors execute_each pass_config run_rollout execute
    render_and_roll_out render_files render_visits trim_prefix
exits_zero = refl

abbrev parsers : FlagParsers
parsers = record {
  parse_bool = λ s. ok (s == "true");
  parse_int = λ s. ok (pos 0);
  parse_duration = λ s. ok (pos 0);
}

env_has_no_equals : has_equals "env" ≡ false
unfolding has_equals
env_has_no_equals = refl

parse_flags-written_example :
    chain
      (parse_flags parsers (ext_str_arguments (written (("env", "a=b") ∷ []))) default_flags)
      (renderer_of_flags cluster parsers [])
    ≡ ok (record {
      entrypoint = "jsonnet/main.jsonnet";
      sources = [];
      ext_strs = insert_all (("env", "a=b") ∷ []) [];
      jpaths = [];
    })
parse_flags-written_example =
    parse_flags-written cluster parsers [] (("env", "a=b") ∷ []) (env_has_no_equals, tt)

-- The README's flag is not defined.
no_trigger_flag : set_flag parsers "trigger" "oneoff" default_flags ≡ err (undefined_flag "trigger")
unfolding set_flag
no_trigger_flag = refl
