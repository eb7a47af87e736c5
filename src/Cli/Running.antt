-- ===== src/Cli/Running.antt =====
-- cli/cli.go: the end of Main, from the registering of the triggers to the exit code. The run group
-- (oklog/run), the server and the signals are parameters, and so is Run of the triggers of
-- resources, which starts informers: Trigger/Resource models what it does.
use locutus.Prelude.{ℕ, ℤ, String, Option, none, some, List, [], ◌∷◌, ◌++◌, map}
use locutus.Outcome.{wrap, Outcome, ok, err, panic, M, pure, crash, attempt, wrapping, ◌>>=◌}
use locutus.Env.{Env}
use locutus.Rollout.Config.{RolloutConfig, FileConfigPasser, pass_config, run_rollout}
use locutus.Rollout.Runner.{RolloutMetrics}
use locutus.Trigger.{ExecutionRegister, register, run_once, run_interval}
use locutus.Trigger.Database.Running.{TriggerEvent, run_database}
use locutus.Trigger.Resource.{Regexp}
use locutus.Cli.{
  Flags, ConfiguredTrigger, resource_trigger, interval_trigger, database_trigger, one_off_trigger,
  Outside, Wired, client_config, wire,
}
use locutus.Cli.Actors.{group_runs}

module _ (env : Env) (re : Regexp) where
  open env use {World, read_file}

  abbrev pub RolloutState : Type 0
  RolloutState = World × RolloutMetrics

  pub record Runtime : Type 0 where
    -- net.Listen, the server on the port, and the actor that waits for an interrupt
    pub listen : M World (Unit {0})
    pub serve_http : M RolloutState (Unit {0})
    pub until_signal : M RolloutState (Unit {0})
    -- Run of a run group
    pub run_group : List (M RolloutState (Unit {0})) → M RolloutState (Unit {0})
    -- how often a ticker of this interval ticks before its context is done
    pub ticks : ℤ → ℕ
    -- what happens to the trigger of the database before its context is done
    pub events : List TriggerEvent
    pub run_background :
        ConfiguredTrigger env re
        → ExecutionRegister RolloutState (RolloutConfig env)
        → M RolloutState (Unit {0})

  -- The metrics of a new runner.
  abbrev pub no_metrics : RolloutMetrics
  no_metrics = record { execution_durations = 0; executions = 0; executions_failed = 0 }

  abbrev pub read_beside : String → M RolloutState String
  read_beside file (w, m) = let (o, w') = read_file file w in (o, (w', m))

  -- config.NewFileConfigPasser(configFile, runner)
  abbrev pub file_passer : Wired env re → FileConfigPasser env RolloutState
  file_passer wired = record {
    file = wired.config_file;
    executor = run_rollout env wired.runner;
    read_file = read_beside;
  }

  abbrev pub registered : Wired env re → ExecutionRegister RolloutState (RolloutConfig env)
  registered wired =
      register RolloutState (RolloutConfig env) (record { executions = [] })
        (pass_config env RolloutState (file_passer wired))

  -- trigger.Run(ctx)
  abbrev pub run_configured :
      Runtime → Wired env re → ConfiguredTrigger env re → M RolloutState (Unit {0})
  run_configured rt wired one_off_trigger =
      run_once RolloutState (RolloutConfig env) (registered wired)
  run_configured rt wired (interval_trigger duration) =
      run_interval RolloutState (RolloutConfig env) (rt.ticks duration) (registered wired)
  run_configured rt wired (resource_trigger t) =
      rt.run_background (resource_trigger t) (registered wired)
  run_configured rt wired (database_trigger conns configs t) = λ s.
      let (o, (s', _)) =
        run_database env RolloutMetrics (registered wired) conns configs rt.events (s, t) in
      (o, s')

  -- The function that is added to the group, with what it finds in the variable of the loop.
  abbrev pub trigger_actor :
      Runtime → Wired env re → Option (ConfiguredTrigger env re) → M RolloutState (Unit {0})
  trigger_actor rt wired none = crash
  trigger_actor rt wired (some t) =
      wrapping (wrap "failed to run trigger: %w" []) (run_configured rt wired t)

  abbrev pub actors : Runtime → Wired env re → List (M RolloutState (Unit {0}))
  actors rt wired =
      rt.serve_http
      ∷ (map (trigger_actor rt wired) (group_runs wired.triggers) ++ (rt.until_signal ∷ []))

  abbrev pub with_metrics : {A : Type 0} → M RolloutState A → M World A
  with_metrics m w = let (o, (w', _)) = m (w, no_metrics) in (o, w')

  abbrev pub serve : Runtime → Wired env re → M World ℕ
  serve rt wired =
      attempt rt.listen
        (λ _. with_metrics (attempt (rt.run_group (actors rt wired)) (λ _. pure 0) (λ _. pure 1)))
        (λ _. pure 1)

  -- Every error on the way to the run group is printed, and the exit code is 1.
  abbrev pub exit_code : Outcome ℕ → Outcome ℕ
  exit_code (ok n) = ok n
  exit_code (err e) = ok 1
  exit_code panic = panic

  abbrev pub start : Outside env re → Flags → M World (Wired env re)
  start out flags = client_config env re out flags >>= wire env re out flags

  -- Main, from the flags on
  unfoldable pub main : Outside env re → Runtime → Flags → World → Outcome ℕ × World
  main out rt flags w = let (o, w') = (start out flags >>= serve rt) w in (exit_code o, w')
