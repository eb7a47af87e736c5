-- ===== src/Source.antt =====
-- source/crdb.go: the sources that queries of a database give to a renderer. The decoder of the
-- configuration is a parameter.
pub mod Copies
use locutus.Prelude.{String, Bool, Option, none, some, List, [], ◌∷◌, ◌++◌, ◌==◌, if◌then◌else◌}
use locutus.Outcome.{
  Error, text, wrap, Outcome, ok, err, panic, chain, M, pure, throw, crash, lift, wrapping, ◌>>=◌,
  ◌>>◌,
}
use locutus.Maps.{Assoc, lookup, insert}
use locutus.Env.{Env, Cell, RowSet}
use locutus.Db.{Connection, Connections, CockroachClient, type_cockroachdb, execute_tx, in_world}
use locutus.Db.Rows.{next_row}

pub record SourceQuery : Type 0 where
  pub name : String
  pub database_name : String
  pub query : String

abbrev pub TableRow : Type 0
TableRow = Assoc Cell

-- res = append(res, row)
abbrev pub append_row : {W : Type 0} → TableRow → M (W × List TableRow) (Unit {0})
append_row row (w, res) = (ok tt, (w, res ++ (row ∷ [])))

-- the loop over the rows
unfoldable pub collect_rows :
    {W : Type 0} → List String → List (Outcome (List Cell)) → M (W × List TableRow) (Unit {0})
collect_rows columns [] = pure tt
collect_rows columns (values ∷ rest) =
    lift (next_row columns values) >>= λ row. append_row row >> collect_rows columns rest

module _ (env : Env) where
  open env use {World, tx_query, marshal_rows, read_file}

  -- The function of the transaction. Its result `res` is declared outside of it.
  unfoldable pub query_rows : CockroachClient → String → M (World × List TableRow) (Unit {0})
  unfolding collect_rows
  query_rows conn query =
      in_world (tx_query conn.pool query) >>= λ rows. collect_rows rows.columns rows.rows

  abbrev pub marshal_after : Outcome (Unit {0}) → List TableRow → Outcome String
  marshal_after o res = chain o (λ _. marshal_rows res)

  unfoldable pub cockroach_source : CockroachClient → String → M World String
  cockroach_source conn query w =
      let (o, (w', res)) = execute_tx env (List TableRow) conn (query_rows conn query) (w, []) in
      (marshal_after o res, w')

  abbrev pub source_of : Connection → String → Outcome (M World String)
  source_of conn query =
      if conn.type == type_cockroachdb
      then ok (cockroach_source conn.cockroach_client query)
      else err (text "unsupported database type %q" (conn.type ∷ []))

  abbrev pub source_at : Option Connection → SourceQuery → Outcome (M World String)
  source_at none q = err (text "no connection for database %q" (q.database_name ∷ []))
  source_at (some conn) q = source_of conn q.query

  -- Without a file of connections the pointer is nil, and reading through it panics.
  unfoldable pub source_for_query : Option Connections → SourceQuery → Outcome (M World String)
  source_for_query none q = panic
  source_for_query (some conns) q = source_at (lookup q.database_name conns.connections) q

  pub record DatabaseSources : Type 0 where
    pub conns : Option Connections
    pub queries : List SourceQuery

  unfoldable pub new_database_sources :
      (String → Outcome (List SourceQuery)) → Option Connections → String → M World DatabaseSources
  new_database_sources decode conns file = do
    contents ← wrapping (wrap "open config file: %w" []) (read_file file)
    queries ← wrapping (wrap "parse config file: %w" []) (lift (decode contents))
    pure (record { conns = conns; queries = queries })

  -- the loop of InputSources
  unfoldable pub sources_for :
      Option Connections
      → List SourceQuery
      → Assoc (M World String)
      → Outcome (Assoc (M World String))
  unfolding source_for_query
  sources_for conns [] res = ok res
  sources_for conns (q ∷ qs) res =
      chain (source_for_query conns q) (λ f. sources_for conns qs (insert q.name f res))

  abbrev pub input_sources : DatabaseSources → Outcome (Assoc (M World String))
  input_sources s = sources_for s.conns s.queries []
