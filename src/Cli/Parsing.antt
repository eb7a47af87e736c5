-- ===== src/Cli/Parsing.antt =====
-- cli/cli.go: the flags of Main, with what they are without an argument. The flag package splits the
-- arguments into names and values, and parses Booleans, numbers and durations.
use locutus.Prelude.{
  ℤ, pos, String, Bool, true, false, Option, none, some, List, [], ◌∷◌, ◌==◌, if◌then◌else◌,
}
use locutus.Outcome.{Error, text, Outcome, ok, err, chain}
use locutus.Cli.{Flags, set_string_list}

-- The variables before Parse.
abbrev pub default_flags : Flags
default_flags = record {
  log_level = "info";
  master_url = "";
  kubeconfig = "";
  qps = pos 5;
  burst = pos 10;
  render_provider_name = "";
  write_status = true;
  config_file = "";
  render_only = false;
  one_off = false;
  renderer_file_directory = "manifests/";
  renderer_file_rollout = "rollout.yaml";
  renderer_jsonnet_jpaths = [];
  renderer_jsonnet_entrypoint = "jsonnet/main.jsonnet";
  renderer_jsonnet_ext_strs = [];
  database_connections_file = "";
  default_database_url_file = "";
  source_database_file = "";
  trigger_interval_duration = pos 0;
  trigger_resource_config = "";
  trigger_database_config = "";
}

pub record FlagParsers : Type 0 where
  pub parse_bool : String → Outcome Bool
  pub parse_int : String → Outcome ℤ
  pub parse_duration : String → Outcome ℤ

-- What becomes of the flags with a value of this name; there is none for a name that is not defined.
abbrev pub string_flag : String → Option (String → Flags → Flags)
string_flag name =
    if name == "log-level"
    then some (λ v f. record f { log_level = v })
    else if name == "kubeconfig"
    then some (λ v f. record f { kubeconfig = v })
    else if name == "master"
    then some (λ v f. record f { master_url = v })
    else if name == "renderer"
    then some (λ v f. record f { render_provider_name = v })
    else if name == "config-file"
    then some (λ v f. record f { config_file = v })
    else if name == "database-connections-file"
    then some (λ v f. record f { database_connections_file = v })
    else if name == "default-database-url-file"
    then some (λ v f. record f { default_database_url_file = v })
    else if name == "renderer.file.dir"
    then some (λ v f. record f { renderer_file_directory = v })
    else if name == "renderer.file.rollout"
    then some (λ v f. record f { renderer_file_rollout = v })
    else if name == "renderer.jsonnet.entrypoint"
    then some (λ v f. record f { renderer_jsonnet_entrypoint = v })
    else if name == "renderer.jsonnet.ext-str"
    then some (λ v f. record f {
      renderer_jsonnet_ext_strs = set_string_list v f.renderer_jsonnet_ext_strs;
    })
    else if name == "renderer.jsonnet.jpaths"
    then some
        (λ v f. record f { renderer_jsonnet_jpaths = set_string_list v f.renderer_jsonnet_jpaths })
    else if name == "source.database.file"
    then some (λ v f. record f { source_database_file = v })
    else if name == "trigger.resource.config"
    then some (λ v f. record f { trigger_resource_config = v })
    else if name == "trigger.database.config"
    then some (λ v f. record f { trigger_database_config = v })
    else none

abbrev pub bool_flag : String → Option (Bool → Flags → Flags)
bool_flag name =
    if name == "render-only"
    then some (λ v f. record f { render_only = v })
    else if name == "one-off"
    then some (λ v f. record f { one_off = v })
    else if name == "trigger.resource.write-status"
    then some (λ v f. record f { write_status = v })
    else none

abbrev pub int_flag : String → Option (ℤ → Flags → Flags)
int_flag name =
    if name == "qps"
    then some (λ v f. record f { qps = v })
    else if name == "burst"
    then some (λ v f. record f { burst = v })
    else none

abbrev pub duration_flag : String → Option (ℤ → Flags → Flags)
duration_flag name =
    if name == "trigger.interval.duration"
    then some (λ v f. record f { trigger_interval_duration = v })
    else none

abbrev pub undefined_flag : String → Error
undefined_flag name = text "flag provided but not defined: -%s" (name ∷ [])

module _ (ps : FlagParsers) where
  abbrev pub set_parsed_value :
      {A : Type 0}
      → (String → Outcome A)
      → Option (A → Flags → Flags)
      → String
      → Flags
      → Outcome Flags
      → Outcome Flags
  set_parsed_value parse none value flags rest = rest
  set_parsed_value parse (some set) value flags rest = chain (parse value) (λ v. ok (set v flags))

  unfoldable pub set_flag : String → String → Flags → Outcome Flags
  set_flag name value flags =
      set_parsed_value (λ v. ok v) (string_flag name) value flags
        (set_parsed_value ps.parse_bool (bool_flag name) value flags (
          set_parsed_value ps.parse_int (int_flag name) value flags (
            set_parsed_value ps.parse_duration (duration_flag name) value flags
              (err (undefined_flag name)))))

  -- The values in order; the package exits at the first error.
  unfoldable pub parse_flags : List (String × String) → Flags → Outcome Flags
  parse_flags [] flags = ok flags
  parse_flags ((name, value) ∷ more) flags = chain (set_flag name value flags) (parse_flags more)
