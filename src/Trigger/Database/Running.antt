-- ===== src/Trigger/Database/Running.antt =====
-- trigger/database/database.go: Run, which starts one goroutine for each trigger, and TriggerRun.Run,
-- one for each run. Each check and each execution is one step here, and their order is a sequence
-- of events that the environment chooses.
use locutus.Trigger.{ExecutionRegister, execute_registered}
use locutus.Trigger.Database.{TriggerConfig, TriggerRun, TriggerRunner, run_at, finish_run}
use locutus.Trigger.Database.Query.{in_runs, check_trigger}
use locutus.Prelude.{ℕ, zero, suc, String, Option, none, some, List, [], ◌∷◌, if◌then◌else◌}
use locutus.Outcome.{ok, M, pure, attempt, ◌>>◌}
use locutus.Env.{Env}
use locutus.Db.{Connections, in_world}
use locutus.Rollout.Config.{RolloutConfig}

-- A tick of the trigger at a place of the configuration, or the end of the run at a place.
pub data TriggerEvent : Type 0 where
  tick_of : ℕ → TriggerEvent
  end_of : ℕ → TriggerEvent

unfoldable pub config_at : ℕ → List TriggerConfig → Option TriggerConfig
config_at _ [] = none
config_at zero (c ∷ cs) = some c
config_at (suc n) (c ∷ cs) = config_at n cs

-- `X` is what an execution works on beside the world.
module _ (env : Env) (X : Type 0) where
  open env use {World}

  abbrev pub DatabaseState : Type 0
  DatabaseState = (World × X) × TriggerRunner

  abbrev pub in_check : {A : Type 0} → M (World × TriggerRunner) A → M DatabaseState A
  in_check m ((w, x), t) = let (o, (w', t')) = m (w, t) in (o, ((w', x), t'))

  -- The body of runTrigger's loop; an error is logged.
  abbrev pub tick : Option Connections → Option TriggerConfig → M DatabaseState (Unit {0})
  tick conns none = pure tt
  tick conns (some c) = attempt (in_check (check_trigger env conns c)) (λ _. pure tt) (λ _. pure tt)

  module _ (register : ExecutionRegister (World × X) (RolloutConfig env)) where
    -- TriggerRun.run
    abbrev pub execute_payload : String → M (World × X) (Unit {0})
    execute_payload payload =
        execute_registered (World × X) (RolloutConfig env) register
          (some (record { raw_config = some payload; feedback = none }))

    abbrev pub mark_done : ℕ → M DatabaseState (Unit {0})
    mark_done n = in_runs (λ t. (ok tt, finish_run n t))

    -- TriggerRun.Run, once; an error is logged.
    abbrev pub run_payload : ℕ → Option TriggerRun → M DatabaseState (Unit {0})
    run_payload n none = pure tt
    run_payload n (some r) =
        if r.done
        then pure tt
        else attempt (in_world (execute_payload r.payload)) (λ _. mark_done n) (λ _. mark_done n)

    module _ (conns : Option Connections) (configs : List TriggerConfig) where
      abbrev pub run_trigger_event : TriggerEvent → M DatabaseState (Unit {0})
      run_trigger_event (tick_of n) = tick conns (config_at n configs)
      run_trigger_event (end_of n) = λ s. run_payload n (run_at n s.1.runs) s

      -- Run, with what happens until its context is done
      unfoldable pub run_database : List TriggerEvent → M DatabaseState (Unit {0})
      run_database [] = pure tt
      run_database (e ∷ es) = run_trigger_event e >> run_database es
