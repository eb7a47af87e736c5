-- ===== src/Cli.antt =====
-- cli/cli.go and main.go: how Main puts the components together. The flags are parsed, and the
-- Kubernetes client made, outside of the model.
pub mod Kinds
pub mod Wiring
pub mod Unconnected
pub mod Actors
pub mod Running
pub mod OneOff
pub mod Parsing
pub mod ExtStrs
use locutus.Prelude.{
  ℤ, is_positive, String, Bool, true, false, Option, none, some, List, [], ◌∷◌, ◌++◌, ◌==◌,
  if◌then◌else◌,
}
use locutus.Outcome.{Error, text, wrap, Outcome, ok, err, panic, M, pure, throw, lift, ◌>>=◌, ◌>>◌}
use locutus.Maps.{Assoc, insert}
use locutus.Env.{Env, RestConfig}
use locutus.Client.{
  Client, new_client, set_update_preparations, set_update_checks, default_update_preparations,
  default_update_checks,
}
use locutus.Db.{Connections}
use locutus.Db.Opening.{ConnectionConfig, from_file}
use locutus.Source.{SourceQuery, DatabaseSources, new_database_sources, input_sources}
use locutus.Render.Jsonnet.{Jsonnet, JsonnetRenderer, new_jsonnet_renderer, render_jsonnet}
use locutus.Render.File.{FileRenderer, Decoders, render_files}
use locutus.Rollout.Types.{Step, RenderResult}
use locutus.Rollout.Actions.{default_object_actions, set_object_actions}
use locutus.Rollout.Checks.{new_checks}
use locutus.Rollout.Checks.JobOom.{default_checks}
use locutus.Rollout.Runner.{Runner, Schedule, new_runner}
use locutus.Trigger.Database.{TriggerConfig, TriggerRunner}
use locutus.Trigger.Database.Query.{new_database_trigger}
use locutus.Trigger.Resource.{Regexp}
use locutus.Trigger.Resource.Setup.{
  ResourcesTriggerConfig, Informer, ResourceSetup, new_resource_trigger, informer_sources,
}

-- logger: what the switch lets through, and the error for any other level
abbrev pub available_log_levels : List String
available_log_levels = "all" ∷ "debug" ∷ "info" ∷ "warn" ∷ "error" ∷ "none" ∷ []

pub data LevelFilter : Type 0 where
  allow_all allow_debug allow_info allow_warn allow_error allow_none : LevelFilter

unfoldable pub logger : String → Outcome LevelFilter
logger level =
    if level == "all"
    then ok allow_all
    else if level == "debug"
    then ok allow_debug
    else if level == "info"
    then ok allow_info
    else if level == "warn"
    then ok allow_warn
    else if level == "error"
    then ok allow_error
    else if level == "none"
    then ok allow_none
    else err (text "log level %v unknown, %v are possible values" (level ∷ available_log_levels))

-- What the flags are set to, as far as the wiring depends on it.
pub record Flags : Type 0 where
  pub log_level : String
  pub master_url : String
  pub kubeconfig : String
  pub qps : ℤ
  pub burst : ℤ
  pub render_provider_name : String
  pub write_status : Bool
  pub config_file : String
  pub render_only : Bool
  pub one_off : Bool
  pub renderer_file_directory : String
  pub renderer_file_rollout : String
  pub renderer_jsonnet_jpaths : List String
  pub renderer_jsonnet_entrypoint : String
  pub renderer_jsonnet_ext_strs : List String
  pub database_connections_file : String
  pub default_database_url_file : String
  pub source_database_file : String
  pub trigger_interval_duration : ℤ
  pub trigger_resource_config : String
  pub trigger_database_config : String

-- Set of stringList, for a flag that is given more than once
abbrev pub set_string_list : String → List String → List String
set_string_list value l = l ++ (value ∷ [])

module _ (env : Env) (re : Regexp) where
  open env use {World}

  abbrev pub SourceMap : Type 0
  SourceMap = Assoc (M World String)

  pub data ConfiguredTrigger : Type 0 where
    resource_trigger : ResourceSetup env re → ConfiguredTrigger
    interval_trigger : ℤ → ConfiguredTrigger
    database_trigger : Option Connections → List TriggerConfig → TriggerRunner → ConfiguredTrigger
    one_off_trigger : ConfiguredTrigger

  -- The libraries that decode files and evaluate, and the order of goroutines.
  pub record Outside : Type 0 where
    -- clientcmd.BuildConfigFromFlags, and kubernetes.NewForConfig
    pub build_config : String → String → M World RestConfig
    -- float32 of an int, which rounds a large one; it is an integer still
    pub float32 : ℤ → ℤ
    pub new_clientset : RestConfig → Outcome (Unit {0})
    pub decode_resources : String → Outcome ResourcesTriggerConfig
    pub decode_connections : String → Outcome (List ConnectionConfig)
    pub decode_queries : String → Outcome (List SourceQuery)
    pub decode_triggers : String → Outcome (List TriggerConfig)
    pub list_store : Option (Assoc String) → Informer env re → M World String
    pub jsonnet : Jsonnet env
    pub files : Decoders env
    pub encode : RenderResult env → M World (Unit {0})
    pub schedule : Schedule env

  pub record Wired : Type 0 where
    pub triggers : List ConfiguredTrigger
    pub sources : SourceMap
    pub runner : Runner env
    -- the file of the FileConfigPasser that is registered with each trigger
    pub config_file : String

  -- `for name, f := range more { sources[name] = f }`
  unfoldable pub add_sources : SourceMap → SourceMap → SourceMap
  add_sources [] sources = sources
  add_sources ((name, f) ∷ more) sources = add_sources more (insert name f sources)

  abbrev pub cli_client : RestConfig → Client env
  cli_client cfg =
      set_update_checks env
        (set_update_preparations env (new_client env cfg) (default_update_preparations env))
        (default_update_checks env)

  module _ (out : Outside) (flags : Flags) where
    open flags use {
      trigger_resource_config, trigger_database_config, trigger_interval_duration,
      source_database_file, database_connections_file, default_database_url_file,
      render_provider_name,
    }

    abbrev pub resource_triggers : Client env → M World (List ConfiguredTrigger × SourceMap)
    resource_triggers cl =
        if trigger_resource_config == ""
        then pure ([], [])
        else (new_resource_trigger env re out.decode_resources cl trigger_resource_config
              flags.write_status
            >>= λ t. pure (
              resource_trigger t ∷ [],
              add_sources (informer_sources env re out.list_store t.match_labels t.infs []) [],
            ))

    abbrev pub interval_triggers : List ConfiguredTrigger
    interval_triggers =
        if is_positive trigger_interval_duration
        then interval_trigger trigger_interval_duration ∷ []
        else []

    unfoldable pub open_connections : M World (Option Connections)
    open_connections =
        if database_connections_file == ""
        then pure none
        else (from_file env out.decode_connections database_connections_file
              default_database_url_file
            >>= λ conns. pure (some conns))

    unfoldable pub database_sources : Option Connections → SourceMap → M World SourceMap
    database_sources conns sources =
        if source_database_file == ""
        then pure sources
        else (new_database_sources env out.decode_queries conns source_database_file >>= λ s.
            lift (input_sources env s) >>= λ more. pure (add_sources more sources))

    abbrev pub database_triggers : Option Connections → M World (List ConfiguredTrigger)
    database_triggers conns =
        if trigger_database_config == ""
        then pure []
        else (new_database_trigger env out.decode_triggers trigger_database_config >>= λ t.
            pure (database_trigger conns t.0 t.1 ∷ []))

    -- One-off takes the place of all the triggers that were configured.
    abbrev pub chosen : List ConfiguredTrigger → List ConfiguredTrigger
    chosen triggers = if flags.one_off then one_off_trigger ∷ [] else triggers

    abbrev pub some_triggers : List ConfiguredTrigger → Outcome (List ConfiguredTrigger)
    some_triggers [] = err (text "no triggers configured" [])
    some_triggers (t ∷ ts) = ok (t ∷ ts)

    abbrev pub file_renderer : FileRenderer env
    file_renderer = record {
      directory = flags.renderer_file_directory;
      rollout_file = flags.renderer_file_rollout;
    }

    unfoldable pub renderer_for : SourceMap → Outcome (Option String → M World (RenderResult env))
    renderer_for sources =
        if render_provider_name == "jsonnet"
        then (elim (new_jsonnet_renderer env flags.renderer_jsonnet_entrypoint sources
            flags.renderer_jsonnet_ext_strs flags.renderer_jsonnet_jpaths) [
              | ok r ↦ ok (render_jsonnet env out.jsonnet r)
              | err e ↦ err e
              | panic ↦ panic
            ])
        else if render_provider_name == "file"
        then ok (λ config. render_files env out.files file_renderer)
        else err (text "failed to find render provider" [])

    abbrev pub with_default_actions : Runner env → Runner env
    with_default_actions r = record r {
      actions = set_object_actions env (default_object_actions env) r.actions;
    }

    abbrev pub wire_runner :
        Client env → Option Connections → SourceMap → List ConfiguredTrigger → M World Wired
    wire_runner cl conns sources triggers = do
      renderer ← lift (renderer_for sources)
      c ← lift (new_checks env cl conns (default_checks env))
      pure (record {
        triggers = triggers;
        sources = sources;
        runner =
            with_default_actions
              (new_runner env cl renderer c flags.render_only out.encode out.schedule);
        config_file = flags.config_file;
      })

    -- Main between the making of the client and the listening on the port
    unfoldable pub wire : RestConfig → M World Wired
    wire cfg = do
      (by_resources, resource_sources) ← resource_triggers (cli_client cfg)
      conns ← open_connections
      sources ← database_sources conns resource_sources
      by_database ← database_triggers conns
      triggers ← lift (some_triggers (chosen (by_resources ++ interval_triggers ++ by_database)))
      wire_runner (cli_client cfg) conns sources triggers

    abbrev pub with_limits : RestConfig → RestConfig
    with_limits konfig = record konfig { qps = out.float32 flags.qps; burst = flags.burst }

    -- Main up to the client
    unfoldable pub client_config : M World RestConfig
    client_config = do
      lift (logger flags.log_level)
      konfig ← out.build_config flags.master_url flags.kubeconfig
      lift (out.new_clientset (with_limits konfig))
      pure (with_limits konfig)
