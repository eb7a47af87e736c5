-- ===== src/Trigger/Database/Query/Starting.antt =====
-- The runs that one query of the database trigger starts.
use locutus.Trigger.Database.Query.{
  trigger_key, keyed_row, trigger_rows, query_trigger, cockroach_trigger,
}
use locutus.Trigger.Database.{TriggerConfig, TriggerRun, TriggerRunner, runs_of, start_run}
use locutus.Trigger.Database.Named.{is_trigger}
use locutus.Trigger.Database.Safety.{Reaches, scheduled, schedule_trigger_run-starts}
use locutus.Prelude.{String, true, false, ◌≡◌, refl, sym, ap, ◌∙◌, some, List, [], ◌∷◌, ◌++◌, map}
use mathlib.Core.List.{append_assoc, append-nil}
use locutus.Outcome.{Outcome, ok}
use locutus.Maps.{lookup}
use locutus.Env.{Env, Cell, RowSet}
use locutus.Db.{CockroachClient}
use locutus.Db.Rows.{next_row}
use locutus.Source.{TableRow}
use locutus.Source.Copies.{Gives}

module _ (env : Env) (configs : List TriggerConfig) (c : TriggerConfig) where
  open env use {World, tx_query, marshal_row}

  -- The run that a row starts: under the row's key, which is no trigger's name, with the row as
  -- its payload.
  pub record StartsAs (row : TableRow) (run : TriggerRun) : Type 0 where
    pub cell : Cell
    pub has_key : lookup c.key row ≡ some cell
    pub key : run.key ≡ trigger_key env cell
    pub payload : marshal_row row ≡ ok run.payload
    pub not_done : run.done ≡ false
    pub unnamed : is_trigger run.key configs ≡ false

  abbrev pub Start : List TableRow → List TriggerRun → Type 0
  Start [] [] = Unit
  Start (row ∷ rows) (run ∷ runs) = StartsAs row run × Start rows runs
  Start [] (_ ∷ _) = ⊥
  Start (_ ∷ _) [] = ⊥

  keyed_row-starts :
      (row : TableRow) (run : TriggerRun) (rows : List TableRow) (t : TriggerRunner)
      → Reaches configs t
      → is_trigger c.name configs ≡ true
      → c.groups_rows_to_array ≡ false
      → StartsAs row run
      → (t' : TriggerRunner) × (keyed_row env c row rows t ≡ (ok rows, t'))
        × (t'.runs ≡ t.runs ++ (run ∷ []))
        × Reaches configs t'
  keyed_row-starts row run rows t r named single s =
      let key = trigger_key env s.cell in
      let unnamed : is_trigger key configs ≡ false =
        ap (λ k. is_trigger k configs) (sym s.key) ∙ s.unnamed in
      let t' = start_run c.name key run.payload (runs_of c.name t.active_triggers) t in
      let started = schedule_trigger_run-starts configs t c.name key run.payload r named unnamed in
      (
        t',
        rw (s.has_key, single, s.payload, started),
        ap (λ x. t.runs ++ (x ∷ []))
            (λ i. record { key = sym s.key i; payload = run.payload; done = sym s.not_done i }),
        scheduled c.name key run.payload started r,
      )

  trigger_rows-starts :
      (columns : List String) (values : List (Outcome (List Cell))) (rows : List TableRow)
      (runs : List TriggerRun) (before : List TableRow) (t : TriggerRunner)
      → Reaches configs t
      → is_trigger c.name configs ≡ true
      → c.groups_rows_to_array ≡ false
      → map (next_row columns) values ≡ map ok rows
      → Start rows runs
      → (t' : TriggerRunner) × (trigger_rows env c columns values before t ≡ (ok before, t'))
        × (t'.runs ≡ t.runs ++ runs)
        × Reaches configs t'
  unfolding trigger_rows
  trigger_rows-starts columns [] [] [] before t r named single g s =
      (t, refl, sym (append-nil t.runs), r)
  trigger_rows-starts columns [] [] (_ ∷ _) before t r named single g s = absurd s
  trigger_rows-starts columns [] (_ ∷ _) runs before t r named single g s = cc
  trigger_rows-starts columns (_ ∷ _) [] runs before t r named single g s = cc
  trigger_rows-starts columns (_ ∷ _) (_ ∷ _) [] before t r named single g s = absurd s
  trigger_rows-starts columns (v ∷ values) (row ∷ rows) (run ∷ runs) before t r named single g s =
      let first : next_row columns v ≡ ok row = cc in
      let rest : map (next_row columns) values ≡ map ok rows = cc in
      let (t₁, ran, more, r₁) = keyed_row-starts row run before t r named single s.0 in
      let (t₂, ran', more', r₂) =
        trigger_rows-starts columns values rows runs before t₁ r₁ named single rest s.1 in
      (
        t₂,
        rw (first, ran) ran',
        more' ∙ ap (λ l. l ++ runs) more ∙ append_assoc t.runs (run ∷ []) runs,
        r₂,
      )

  -- Where the transaction runs once, its query leaves the world alone and answers with rows that
  -- have all their values, each of which has a key that is no name of a trigger and can be
  -- marshalled, the trigger is one of those configured and does not group rows, and the runs are in
  -- a state that the program gets to, a check of the trigger ends without an error and has started
  -- one run for each row, in order, under its key and with the row as payload.
  pub cockroach_trigger-starts :
      (conn : CockroachClient) (set : RowSet) (rows : List TableRow) (runs : List TriggerRun)
      (w : World) (t : TriggerRunner)
      → env.execute_tx TriggerRunner conn.pool (query_trigger env conn c) (w, t)
        ≡ query_trigger env conn c (w, t)
      → tx_query conn.pool c.query w ≡ (ok set, w)
      → Gives set rows
      → Start rows runs
      → Reaches configs t
      → is_trigger c.name configs ≡ true
      → c.groups_rows_to_array ≡ false
      → (t' : TriggerRunner) × (cockroach_trigger env conn c (w, t) ≡ (ok tt, (w, t')))
        × (t'.runs ≡ t.runs ++ runs)
        × Reaches configs t'
  unfolding cockroach_trigger query_trigger
  cockroach_trigger-starts conn set rows runs w t once q g s r named single =
      let (t', ran, more, r') =
        trigger_rows-starts set.columns set.rows rows runs [] t r named single g s in
      (t', rw (once, q, ran, single), more, r')
