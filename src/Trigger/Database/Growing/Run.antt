-- ===== src/Trigger/Database/Growing/Run.antt =====
-- The active runs of trigger/database/database.go over a whole Run.
use locutus.Trigger.{ExecutionRegister}
use locutus.Trigger.Database.{
  TriggerConfig, TriggerRun, TriggerRunner, run_at, clean_up, schedule_trigger_run,
}
use locutus.Trigger.Database.Growing.{
  Grows, Grown, Grown-refl, Grown-trans, clean_up-Grown, schedule_trigger_run-Grown, Keeping,
  >>=-Keeping, attempt-Keeping, if-Keeping,
}
use locutus.Trigger.Database.Query.{
  key_cell, in_runs, trigger_key, take_row, keyed_row, trigger_rows, finish_rows, query_trigger,
  cockroach_trigger, trigger_at, trigger_with, check_trigger,
}
use locutus.Trigger.Database.Running.{
  TriggerEvent, tick_of, end_of, config_at, DatabaseState, in_check, tick, execute_payload,
  mark_done, run_payload, run_trigger_event, run_database,
}
use locutus.Trigger.Database.Safety.{Reaches, finished}
use locutus.Prelude.{ℕ, String, Option, none, some, List, [], ◌∷◌, ◌==◌}
use locutus.Outcome.{Outcome, M, lift}
use locutus.Maps.{lookup}
use locutus.Env.{Env, Cell}
use locutus.Db.{CockroachClient, Connection, Connections, in_world, type_cockroachdb}
use locutus.Db.Rows.{next_row}
use locutus.Rollout.Config.{RolloutConfig}
use locutus.Source.{TableRow}

-- What a function of a transaction leaves inside of the process after some attempts, each in some
-- state of the database.
pub data Attempts {W S : Type 0} (f : M (W × S) (Unit {0})) : S → S → Type 0 where
  over : {s : S} → Attempts f s s
  again : {s s' : S} (w : W) → Attempts f s s' → Attempts f s (f (w, s')).1.1

module _ (configs : List TriggerConfig) where
  module _ (env : Env) where
    open env use {World, marshal_row, marshal_rows, tx_query}

    stays : {X : Type 0} (s : X × TriggerRunner) → Grown configs s.1 s.1
    stays s = Grown-refl configs s.1

    take_row-Keeping :
        (c : TriggerConfig) (key : String) (row : TableRow) (rows : List TableRow)
        → Keeping configs (λ t. t) (take_row env c key row rows)
    take_row-Keeping c key row rows =
        if-Keeping configs (λ t. t) c.groups_rows_to_array _ _ (Grown-refl configs)
          (>>=-Keeping configs (λ t. t) (lift (marshal_row row)) _ (Grown-refl configs)
            (λ payload.
              >>=-Keeping configs (λ t. t) (schedule_trigger_run c.name key payload) _
                (schedule_trigger_run-Grown configs c.name key payload)
                (λ _. (Grown-refl configs))))

    trigger_rows-Keeping :
        (c : TriggerConfig) (columns : List String) (values : List (Outcome (List Cell)))
        (rows : List TableRow)
        → Keeping configs (λ t. t) (trigger_rows env c columns values rows)
    unfolding trigger_rows
    trigger_rows-Keeping c columns [] rows = (Grown-refl configs)
    trigger_rows-Keeping c columns (v ∷ values) rows =
        >>=-Keeping configs (λ t. t) (lift (next_row columns v)) _ (Grown-refl configs)
          (λ row.
            >>=-Keeping configs (λ t. t) (keyed_row env c row rows) _
              (>>=-Keeping configs (λ t. t) (lift (key_cell env c.key (lookup c.key row))) _
                (Grown-refl configs) (λ cell. take_row-Keeping c (trigger_key env cell) row rows))
              (trigger_rows-Keeping c columns values))

    finish_rows-Keeping :
        (c : TriggerConfig) (rows : List TableRow)
        → Keeping configs (λ t. t) (finish_rows env c rows)
    finish_rows-Keeping c rows =
        if-Keeping configs (λ t. t) c.groups_rows_to_array _ _
          (>>=-Keeping configs (λ t. t) (lift (marshal_rows rows)) _ (Grown-refl configs)
            (schedule_trigger_run-Grown configs c.name ""))
          (Grown-refl configs)

    query_trigger-Keeping :
        (conn : CockroachClient) (c : TriggerConfig)
        → Keeping configs (λ s. s.1) (query_trigger env conn c)
    unfolding query_trigger
    query_trigger-Keeping conn c =
        >>=-Keeping configs (λ s. s.1) (in_world (tx_query conn.pool c.query)) _ stays
          (λ set.
            >>=-Keeping configs (λ s. s.1) (in_runs (trigger_rows env c set.columns set.rows [])) _
              (λ s. trigger_rows-Keeping c set.columns set.rows [] s.1)
              (λ rows s. finish_rows-Keeping c rows s.1))

    Attempts-Grown :
        (f : M (World × TriggerRunner) (Unit {0})) (t t' : TriggerRunner)
        → Keeping configs (λ s. s.1) f
        → Attempts f t t'
        → Grown configs t t'
    Attempts-Grown f t _ keeps over = Grown-refl configs t
    Attempts-Grown f t _ keeps (again {s' = t'} w before) =
        Grown-trans configs (Attempts-Grown f t t' keeps before) (keeps (w, t'))

    module _
        (attempted : (pool : String) (f : M (World × TriggerRunner) (Unit {0})) (w : World)
            (t : TriggerRunner)
          → Attempts f t (env.execute_tx TriggerRunner pool f (w, t)).1.1) where
      cockroach_trigger-Keeping :
          (conn : CockroachClient) (c : TriggerConfig)
          → Keeping configs (λ s. s.1) (cockroach_trigger env conn c)
      unfolding cockroach_trigger
      cockroach_trigger-Keeping conn c s =
          Attempts-Grown (query_trigger env conn c) s.1 _ (query_trigger-Keeping conn c)
            (attempted conn.pool (query_trigger env conn c) s.0 s.1)

      trigger_with-Keeping :
          (conns : Option Connections) (c : TriggerConfig)
          → Keeping configs (λ s. s.1) (trigger_with env conns c)
      trigger_with-Keeping none c = stays
      trigger_with-Keeping (some conns) c = at (lookup c.database_name conns.connections)
        where
          at : (o : Option Connection) → Keeping configs (λ s. s.1) (trigger_at env c o)
          at none = stays
          at (some conn) =
              if-Keeping configs (λ s. s.1) (conn.type == type_cockroachdb) _ _
                (cockroach_trigger-Keeping conn.cockroach_client c) stays

      check_trigger-Keeping :
          (conns : Option Connections) (c : TriggerConfig)
          → Keeping configs (λ s. s.1) (check_trigger env conns c)
      unfolding check_trigger
      check_trigger-Keeping conns c s =
          Grown-trans configs (clean_up-Grown configs c.name s.1)
            (trigger_with-Keeping conns c (s.0, clean_up c.name s.1))

      module _ (X : Type 0) (register : ExecutionRegister (World × X) (RolloutConfig env))
          (conns : Option Connections) where
        tick-Keeping : (o : Option TriggerConfig) → Keeping configs (λ s. s.1) (tick env X conns o)
        tick-Keeping none = stays
        tick-Keeping (some c) =
            attempt-Keeping configs (λ s. s.1) (in_check env X (check_trigger env conns c)) _ _
              (λ s. check_trigger-Keeping conns c (s.0.0, s.1)) (λ _. stays) (λ _. stays)

        mark_done-Keeping : (n : ℕ) → Keeping configs (λ s. s.1) (mark_done env X register n)
        mark_done-Keeping n s r = record { reached = finished n r; keeps = λ name key h. h }

        run_payload-Keeping :
            (n : ℕ) (o : Option TriggerRun)
            → Keeping configs (λ s. s.1) (run_payload env X register n o)
        run_payload-Keeping n none = stays
        run_payload-Keeping n (some run) =
            if-Keeping configs (λ s. s.1) run.done _ _ stays
              (attempt-Keeping configs (λ s. s.1)
                (in_world (execute_payload env X register run.payload)) _ _ stays
                (λ _. mark_done-Keeping n) (λ _. mark_done-Keeping n))

        run_trigger_event-Keeping :
            (e : TriggerEvent)
            → Keeping configs (λ s. s.1) (run_trigger_event env X register conns configs e)
        run_trigger_event-Keeping (tick_of n) = tick-Keeping (config_at n configs)
        run_trigger_event-Keeping (end_of n) = λ s. run_payload-Keeping n (run_at n s.1.runs) s

        -- Where ExecuteTx leaves inside of the process what some attempts of its function leave
        -- there, then in whatever order the triggers of the database tick and their runs end, and
        -- whatever fails or panics, the trigger stays in the states that it can get to by cleaning
        -- up, scheduling and finishing runs, and no entry ever leaves the map of active runs of a
        -- trigger: a key under which a run was started has one for good, also when the run is done.
        pub run_database-Grows :
            (events : List TriggerEvent) (s : DatabaseState env X)
            → Reaches configs s.1
            → Grows configs s.1 (run_database env X register conns configs events s).1.1
        unfolding run_database
        run_database-Grows [] = stays
        run_database-Grows (e ∷ events) =
            >>=-Keeping configs (λ s. s.1) (run_trigger_event env X register conns configs e) _
              (run_trigger_event-Keeping e) (λ _. run_database-Grows events)
