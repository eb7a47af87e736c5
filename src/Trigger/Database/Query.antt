-- ===== src/Trigger/Database/Query.antt =====
-- trigger/database/database.go: NewTrigger, checkTrigger and cockroachTrigger. The decoder of the
-- configuration is a parameter.
pub mod Starting
use locutus.Trigger.Database.Hex.{hex}
use locutus.Trigger.Database.{
  TriggerConfig, TriggerRunner, new_trigger, clean_up, schedule_trigger_run,
}
use locutus.Prelude.{
  ℕ, zero, suc, String, Bool, Option, none, some, List, [], ◌∷◌, ◌++◌, ◌==◌, if◌then◌else◌,
}
use locutus.Outcome.{
  Error, text, wrap, Outcome, ok, err, panic, M, pure, throw, crash, lift, wrapping, attempt, ◌>>=◌,
  ◌>>◌,
}
use locutus.Maps.{Assoc, lookup}
use locutus.Env.{Env, Cell, text_cell, bytes_cell, other_cell, RowSet}
use locutus.Db.{Connection, Connections, CockroachClient, type_cockroachdb, execute_tx, in_world}
use locutus.Db.Rows.{next_row}
use locutus.Source.{TableRow}

abbrev pub missing_key : String → Error
missing_key key = text "key column %q not in result" (key ∷ [])

-- A step on the runs alone.
abbrev pub in_runs : {W S A : Type 0} → M S A → M (W × S) A
in_runs m (w, s) = let (o, s') = m s in (o, (w, s'))

module _ (env : Env) where
  open env use {World, tx_query, format_value, marshal_row, marshal_rows, read_file}

  -- the switch on the type of the key
  abbrev pub trigger_key : Cell → String
  trigger_key (text_cell s) = s
  trigger_key (bytes_cell b) = hex b
  trigger_key (other_cell v) = format_value v

  abbrev pub key_cell : String → Option Cell → Outcome Cell
  key_cell key none = err (missing_key key)
  key_cell key (some cell) = ok cell

  -- the end of the loop's body; `rows` is rowsArray
  abbrev pub take_row :
      TriggerConfig → String → TableRow → List TableRow → M TriggerRunner (List TableRow)
  take_row c key row rows =
      if c.groups_rows_to_array
      then pure (rows ++ (row ∷ []))
      else (lift (marshal_row row) >>= λ payload.
          schedule_trigger_run c.name key payload >> pure rows)

  abbrev pub keyed_row : TriggerConfig → TableRow → List TableRow → M TriggerRunner (List TableRow)
  keyed_row c row rows =
      lift (key_cell c.key (lookup c.key row)) >>= λ cell. take_row c (trigger_key cell) row rows

  -- the loop over the rows
  unfoldable pub trigger_rows :
      TriggerConfig
      → List String
      → List (Outcome (List Cell))
      → List TableRow
      → M TriggerRunner (List TableRow)
  trigger_rows c columns [] rows = pure rows
  trigger_rows c columns (values ∷ rest) rows =
      lift (next_row columns values) >>= λ row. keyed_row c row rows >>= trigger_rows c columns rest

  -- what follows the loop
  abbrev pub finish_rows : TriggerConfig → List TableRow → M TriggerRunner (Unit {0})
  finish_rows c rows =
      if c.groups_rows_to_array
      then (lift (marshal_rows rows) >>= λ payload. schedule_trigger_run c.name "" payload)
      else pure tt

  -- the function of the transaction
  unfoldable pub query_trigger :
      CockroachClient → TriggerConfig → M (World × TriggerRunner) (Unit {0})
  unfolding trigger_rows
  query_trigger conn c = do
    set ← in_world (tx_query conn.pool c.query)
    rows ← in_runs (trigger_rows c set.columns set.rows [])
    in_runs (finish_rows c rows)

  unfoldable pub cockroach_trigger :
      CockroachClient → TriggerConfig → M (World × TriggerRunner) (Unit {0})
  cockroach_trigger conn c =
      wrapping (wrap "execute tx: %w" []) (execute_tx env TriggerRunner conn (query_trigger conn c))

  abbrev pub trigger_on : TriggerConfig → Connection → M (World × TriggerRunner) (Unit {0})
  trigger_on c conn =
      if conn.type == type_cockroachdb
      then cockroach_trigger conn.cockroach_client c
      else throw (text "unsupported database type %q" (conn.type ∷ []))

  abbrev pub trigger_at : TriggerConfig → Option Connection → M (World × TriggerRunner) (Unit {0})
  trigger_at c none = throw (text "no connection for database %q" (c.database_name ∷ []))
  trigger_at c (some conn) = trigger_on c conn

  -- Without a file of connections the pointer is nil, and reading through it panics.
  abbrev pub trigger_with :
      Option Connections → TriggerConfig → M (World × TriggerRunner) (Unit {0})
  trigger_with none c = crash
  trigger_with (some conns) c = trigger_at c (lookup c.database_name conns.connections)

  unfoldable pub check_trigger :
      Option Connections → TriggerConfig → M (World × TriggerRunner) (Unit {0})
  check_trigger conns c (w, t) = trigger_with conns c (w, clean_up c.name t)

  -- runTrigger, for the number of ticks before its context is done; an error is logged
  unfoldable pub run_trigger :
      Option Connections → ℕ → TriggerConfig → M (World × TriggerRunner) (Unit {0})
  run_trigger conns zero c = pure tt
  run_trigger conns (suc ticks) c =
      attempt (check_trigger conns c) (λ _. run_trigger conns ticks c)
        (λ _. run_trigger conns ticks c)

  unfoldable pub new_database_trigger :
      (String → Outcome (List TriggerConfig))
      → String
      → M World (List TriggerConfig × TriggerRunner)
  new_database_trigger decode file = do
    contents ← wrapping (wrap "open trigger config file: %w" []) (read_file file)
    configs ← wrapping (wrap "parse config file: %w" []) (lift (decode contents))
    pure (configs, new_trigger configs)
