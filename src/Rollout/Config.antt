-- ===== src/Rollout/Config.antt =====
-- rollout.Config of rollout/rollout.go, and FileConfigPasser of config/file_config.go. The passer
-- changes the configuration that it is given a pointer to; only an execution behind it in the same
-- register would see that, and each trigger has one.
use locutus.Prelude.{String, [], Option, none, some, ◌==◌, if◌then◌else◌}
use locutus.Outcome.{M, pure, ◌>>=◌}
use locutus.Env.{Env}
use locutus.Feedback.{ObjectFeedback, object_feedback}
use locutus.Rollout.Runner.{Runner, RolloutMetrics, execute}

-- A nil `raw_config` is none.
pub record RolloutConfig (env : Env) : Type 0 where
  pub raw_config : Option String
  pub feedback : Option (ObjectFeedback env)

module _ (env : Env) (W : Type 0) where
  pub record FileConfigPasser : Type 0 where
    pub file : String
    pub executor : Option (RolloutConfig env) → M W (Unit {0})
    -- ioutil.ReadFile
    pub read_file : String → M W String

  abbrev pub or_empty_config : Option (RolloutConfig env) → RolloutConfig env
  or_empty_config none = record { raw_config = none; feedback = none }
  or_empty_config (some config) = config

  abbrev pub read_config : FileConfigPasser → RolloutConfig env → M W (Option String)
  read_config p config =
      if p.file == "" then pure config.raw_config else (p.read_file p.file >>= λ s. pure (some s))

  unfoldable pub pass_config : FileConfigPasser → Option (RolloutConfig env) → M W (Unit {0})
  pass_config p config = do
    raw ← read_config p (or_empty_config config)
    p.executor (some (record (or_empty_config config) { raw_config = raw }))

module _ (env : Env) where
  abbrev pub raw_config_of : Option (RolloutConfig env) → Option String
  raw_config_of none = none
  raw_config_of (some config) = config.raw_config

  abbrev pub feedback_of : Option (RolloutConfig env) → Option (ObjectFeedback env)
  feedback_of none = none
  feedback_of (some config) = config.feedback

  -- Execute of the runner as an execution of a trigger: the metrics stay, and the objects and the
  -- feedback are of this execution alone.
  unfoldable pub run_rollout :
      Runner env → Option (RolloutConfig env) → M (env.World × RolloutMetrics) (Unit {0})
  run_rollout r config (w, m) =
      let (o, (m', s)) =
        execute env (object_feedback env) r (raw_config_of config) m
          (record { world = w; objects = []; feedback_state = feedback_of config }) in
      (o, (s.world, m'))
