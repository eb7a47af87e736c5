-- ===== src/Rollout/Runner/Execution.antt =====
-- rollout/rollout.go: Execute.
use locutus.Rollout.Runner.Steps.{RolloutMetrics, Runner, ObjectState, run_group}
use locutus.Prelude.{ℕ, ◌+◌, String, Option, none, some, List, [], ◌∷◌, map, if◌then◌else◌}
use locutus.Outcome.{wrap, mask, Outcome, ok, err, panic, M, pure, wrapping, lift, ◌>>=◌, ◌>>◌}
use locutus.Maps.{Assoc}
use locutus.Env.{Env}
use locutus.Feedback.{Feedback, finished}
use locutus.Rollout.Types.{RolloutGroup, RenderResult}

module _ (env : Env) (feedback : Feedback env) where
  open env use {World, Obj}

  -- The state of a rollout under way.
  pub record Progress : Type 0 where
    pub world : World
    pub objects : Assoc Obj
    pub feedback_state : Option feedback.State

  abbrev pub on_objects : {A : Type 0} → M (ObjectState env) A → M Progress A
  on_objects m s =
      let (o, (w, objects)) = m (s.world, s.objects) in
      (o, record s { world = w; objects = objects })

  abbrev pub feed :
      Option feedback.State → M (World × feedback.State) (Unit {0}) → M Progress (Unit {0})
  feed none m s = (ok tt, s)
  feed (some f) m s =
      let (o, (w, f')) = m (s.world, f) in (o, record s { world = w; feedback_state = some f' })

  -- `if rolloutConfig != nil && rolloutConfig.Feedback != nil { … }`
  abbrev pub with_feedback : M (World × feedback.State) (Unit {0}) → M Progress (Unit {0})
  with_feedback m s = feed s.feedback_state m s

  -- the loop over the groups
  unfoldable pub run_groups : Runner env → List RolloutGroup → M Progress (Unit {0})
  run_groups r [] = pure tt
  run_groups r (group ∷ groups) = do
    on_objects (run_group env r group)
    with_feedback (feedback.set_condition group.name finished)
    run_groups r groups

  -- res.Rollout.Spec.Groups, through two pointers
  abbrev pub groups_of : RenderResult env → Outcome (List RolloutGroup)
  groups_of res = elim res.rollout [
    | none ↦ panic
    | some rollout ↦ elim rollout.spec [ none ↦ panic | some spec ↦ ok spec.groups ]
  ]

  abbrev pub roll_out_groups : Runner env → List RolloutGroup → M Progress (Unit {0})
  roll_out_groups r groups = do
    wrapping (wrap "initialize feedback" [])
        (with_feedback (feedback.initialize (map (λ g. g.name) groups)))
    run_groups r groups

  -- what follows the rendering
  unfoldable pub roll_out : Runner env → RenderResult env → M Progress (Unit {0})
  roll_out r res = lift (groups_of res) >>= roll_out_groups r

  abbrev pub start_at : RenderResult env → M Progress (Unit {0}) → M Progress (Unit {0})
  start_at res m s = m (record s { objects = res.objects })

  abbrev pub in_world : {A : Type 0} → M World A → M Progress A
  in_world m s = let (o, w) = m s.world in (o, record s { world = w })

  abbrev pub rendered : Runner env → RenderResult env → M Progress (Unit {0})
  rendered r res = if r.render_only then in_world (r.encode res) else start_at res (roll_out r res)

  -- Execute without its metrics; the raw configuration is nil where there is no configuration
  unfoldable pub render_and_roll_out : Runner env → Option String → M Progress (Unit {0})
  render_and_roll_out r raw_config =
      wrapping (mask "failed to render: %v" []) (in_world (r.provider raw_config)) >>= rendered r

  -- the deferred function: it sees the error, and runs after a panic too
  abbrev pub count_failure : Outcome (Unit {0}) → ℕ → ℕ
  count_failure (err e) n = n + 1
  count_failure (ok _) n = n
  count_failure panic n = n

  unfoldable pub execute :
      Runner env
      → Option String
      → RolloutMetrics
      → Progress
      → Outcome (Unit {0}) × (RolloutMetrics × Progress)
  execute r raw_config m s =
      let (o, s') = render_and_roll_out r raw_config s in
      (
        o,
        (
          record {
            execution_durations = m.execution_durations + 1;
            executions = m.executions + 1;
            executions_failed = count_failure o m.executions_failed;
          },
          s',
        ),
      )
