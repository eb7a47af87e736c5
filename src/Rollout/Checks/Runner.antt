-- ===== src/Rollout/Checks/Runner.antt =====
-- rollout/checks/checks.go and success_check.go: running the checks of a definition.
use locutus.Prelude.{
  String, Bool, true, false, not, Option, none, some, List, [], ◌∷◌, ◌==◌, is_some, if◌then◌else◌,
}
use locutus.Outcome.{
  Error, text, wrap, Outcome, ok, err, panic, chain, M, pure, throw, crash, lift, attempt, wrapping,
  is_wait_timeout, ◌>>=◌, ◌>>◌,
}
use locutus.Maps.{Assoc, lookup, insert}
use locutus.Value.{Value, object, Fields, end, field, deep_equal}
use locutus.Db.{Connection, Connections, type_cockroachdb, execute_tx_alone}
use locutus.Env.{Env}
use locutus.Client.{Client, ResourceClient, client_for_unstructured}
use locutus.Rollout.Types.{
  SuccessDefinition, FieldComparisons, FailureDefinition, ReportConfig, DatabaseReportConfig,
}
use locutus.Rollout.Checks.Defs.{JsonPath, paths_from, current_values, check_comparisons}

-- A map[string]interface{} as a value, for DeepEqual.
abbrev pub to_fields : Assoc Value → Fields
to_fields [] = end
to_fields ((k, v) ∷ m) = field k v (to_fields m)

abbrev pub has_changed : Assoc Value → Assoc Value → Bool
has_changed a b = not (deep_equal (object (to_fields a)) (object (to_fields b)))

module _ (env : Env) where
  open env use {World, Obj, name, namespace, poll, tx_exec}

  pub record Check : Type 0 where
    pub check_name : String
    pub execute : Client env → Obj → M World (Unit {0})
    pub is_failed_error : Error → Bool

  -- CheckRunner. `comparisons` and `failure` are the fields of its `def`; the constructor reads
  -- through the first, so it is not nil.
  pub record CheckRunner : Type 0 where
    pub client : Client env
    pub comparisons : FieldComparisons
    pub failure : List FailureDefinition
    pub paths : Assoc (JsonPath env)
    pub database_connections : Option Connections
    pub known_checks : Assoc Check

  unfoldable pub new_check_runner :
      Client env → SuccessDefinition → Option Connections → Assoc Check → Outcome CheckRunner
  new_check_runner client def dbs known = elim def.field_comparisons [
    | none ↦ panic
    | some fc ↦ chain (paths_from env fc.expected_values []) λ paths. ok (record {
      client = client;
      comparisons = fc;
      failure = def.failure;
      paths = paths;
      database_connections = dbs;
      known_checks = known;
    })
  ]

  abbrev pub execute_on : DatabaseReportConfig → Connection → M World (Unit {0})
  execute_on report conn =
      if conn.type == type_cockroachdb
      then execute_tx_alone env conn.cockroach_client
          (tx_exec conn.cockroach_client.pool report.stmt)
      else throw (text "database type %s not supported" (conn.type ∷ []))

  -- Without a file of connections the pointer is nil, and reading through it panics.
  unfoldable pub report_database : Option Connections → DatabaseReportConfig → M World (Unit {0})
  report_database none report = crash
  report_database (some dbs) report = elim (lookup report.database_name dbs.connections) [
    | none ↦ throw (text "database connection %s not found" (report.database_name ∷ []))
    | some conn ↦ execute_on report conn
  ]

  unfoldable pub send_report : Option Connections → ReportConfig → M World (Unit {0})
  unfolding report_database
  send_report dbs report = elim report.database [
    | none ↦ throw (text "no reporting configured" [])
    | some d ↦ report_database dbs d
  ]

  -- What becomes of the error of a failure check.
  abbrev pub failed_with : CheckRunner → FailureDefinition → Check → Error → M World (Unit {0})
  failed_with c fd check e = elim fd.report [
    | some report ↦
        if check.is_failed_error e
        then wrapping (wrap "failed to report failure" [])
            (send_report c.database_connections report)
        else throw (wrap "run failed check %q" (fd.check_name ∷ []) e)
    | none ↦ throw (wrap "run failed check %q" (fd.check_name ∷ []) e)
  ]

  -- the loop of checkFailed; a failure that was reported ends it, without an error
  unfoldable pub check_each : CheckRunner → List FailureDefinition → Obj → M World (Unit {0})
  unfolding send_report
  check_each c [] u = pure tt
  check_each c (fd ∷ fds) u = elim (lookup fd.check_name c.known_checks) [
    | none ↦ throw (text "unknown failure check %q" (fd.check_name ∷ []))
    | some check ↦
        attempt (check.execute c.client u) (λ _. check_each c fds u) (failed_with c fd check)
  ]

  unfoldable pub check_failed : CheckRunner → Obj → M World (Unit {0})
  check_failed c u = check_each c c.failure u

  -- The condition of the inner poll. As in the source, it compares the values that the outer
  -- poll had read.
  unfoldable pub inner_condition :
      CheckRunner → ResourceClient env → Obj → Assoc Value → M World Bool
  inner_condition c rc u outer_values = do
    inner_values ←
        wrapping (wrap "failed to extract updated status information" [])
          (current_values env c.paths rc (name u))
    (success, _) ← lift (check_comparisons c.comparisons.expected_values outer_values)
    if success then pure true else do
      wrapping (wrap "check if rollout failed" []) (check_failed c u)
      pure (has_changed outer_values inner_values)

  -- the rest of the outer condition, after values that do not suffice
  abbrev pub wait_for_progress : CheckRunner → ResourceClient env → Obj → Assoc Value → M World Bool
  wait_for_progress c rc u outer_values = do
    wrapping (wrap "check if rollout failed" []) (check_failed c u)
    poll c.comparisons.poll_interval c.comparisons.progress_timeout
        (inner_condition c rc u outer_values)
    pure false

  unfoldable pub outer_condition : CheckRunner → ResourceClient env → Obj → M World Bool
  outer_condition c rc u = do
    outer_values ←
        wrapping (wrap "failed to extract periodic status information" [])
          (current_values env c.paths rc (name u))
    (success, _) ← lift (check_comparisons c.comparisons.expected_values outer_values)
    if success then pure true else wait_for_progress c rc u outer_values

  -- What becomes of the error of the outer poll.
  abbrev pub after_poll : CheckRunner → Error → M World (Unit {0})
  after_poll c e = elim c.comparisons.report_timeout [
    | none ↦ throw e
    | some report ↦ if is_wait_timeout e then send_report c.database_connections report else throw e
  ]

  unfoldable pub execute_check : CheckRunner → Obj → M World (Unit {0})
  execute_check c u = do
    rc ←
        wrapping (wrap "failed to get client for unstructured" [])
          (client_for_unstructured env c.client u)
    attempt (poll c.comparisons.poll_interval c.comparisons.timeout (outer_condition c rc u)) pure
        (after_poll c)

  pub record Checks : Type 0 where
    pub client : Client env
    pub database_connections : Option Connections
    pub known_checks : Assoc Check

  -- the loop of NewChecks
  unfoldable pub register_checks : List Check → Assoc Check → Outcome (Assoc Check)
  register_checks [] known = ok known
  register_checks (c ∷ cs) known =
      let rest = register_checks cs (insert c.check_name c known) in
      if is_some (lookup c.check_name known)
      then err (text "duplicate check with name %q already registered" (c.check_name ∷ []))
      else rest

  unfoldable pub new_checks : Client env → Option Connections → List Check → Outcome Checks
  new_checks client dbs checks =
      chain (register_checks checks [])
        λ known. ok (record { client = client; database_connections = dbs; known_checks = known })

  unfoldable pub run_check : Checks → SuccessDefinition → Obj → M World (Unit {0})
  run_check c def u = do
    sc ← lift (new_check_runner c.client def c.database_connections c.known_checks)
    execute_check sc u

  unfoldable pub run_checks : Checks → List SuccessDefinition → Obj → M World (Unit {0})
  run_checks c [] u = pure tt
  run_checks c (d ∷ ds) u = run_check c d u >> run_checks c ds u
