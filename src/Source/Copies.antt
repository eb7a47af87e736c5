-- ===== src/Source/Copies.antt =====
-- What a source of source/crdb.go gives where its transaction runs more than once, and which
-- queries get a source.
use locutus.Source.{
  SourceQuery, TableRow, collect_rows, query_rows, cockroach_source, source_for_query, source_at,
  sources_for, input_sources,
}
use locutus.Prelude.{
  ℕ, zero, suc, String, true, ◌≡◌, refl, ap, ◌∙◌, subst, inl, inr, some, List, [], ◌∷◌, ◌++◌, map,
  All, ◌==◌, eq_iff, is_some, Bool-cases,
}
use mathlib.Core.List.{append_assoc, append-nil}
use locutus.Outcome.{Outcome, ok, M, ◌>>◌}
use locutus.Maps.{Assoc, lookup, insert, lookup-insert}
use locutus.Env.{Env, Cell, RowSet}
use locutus.Db.{Connection, Connections, CockroachClient, type_cockroachdb}
use locutus.Db.Rows.{next_row}
use locutus.Db.Opening.{ConnectionConfig, from_file}
use locutus.Db.Opening.Opened.{has_name, IsOpened, from_file-IsOpened}

-- A function run a number of times more, as a transaction that cannot be committed is.
abbrev pub rerun : {W : Type 0} → ℕ → M W (Unit {0}) → M W (Unit {0})
rerun zero f = f
rerun (suc n) f = f >> rerun n f

abbrev pub copies : ℕ → List TableRow → List TableRow
copies zero rows = rows
copies (suc n) rows = rows ++ copies n rows

-- The rows that the driver gave are these.
abbrev pub Gives : RowSet → List TableRow → Type 0
Gives set rows = map (next_row set.columns) set.rows ≡ map ok rows

collect_rows-append :
    {W : Type 0} (columns : List String) (values : List (Outcome (List Cell)))
    (rows res : List TableRow) (w : W)
    → map (next_row columns) values ≡ map ok rows
    → collect_rows columns values (w, res) ≡ (ok tt, (w, res ++ rows))
unfolding collect_rows
collect_rows-append columns [] [] res w h = rw (append-nil res)
collect_rows-append columns [] (r ∷ rows) res w h = cc
collect_rows-append columns (v ∷ values) [] res w h = cc
collect_rows-append columns (v ∷ values) (r ∷ rows) res w h =
    let first : next_row columns v ≡ ok r = cc in
    let rest : map (next_row columns) values ≡ map ok rows = cc in
    rw first (
      collect_rows-append columns values rows (res ++ r ∷ []) w rest
      ∙ ap (λ l. (ok tt, (w, l))) (append_assoc res (r ∷ []) rows))

module _ (env : Env) where
  open env use {World, tx_query, marshal_rows}

  module _ (conn : CockroachClient) (query : String) (set : RowSet) (rows : List TableRow)
      (w : World) where
    query_rows-append :
        (res : List TableRow)
        → tx_query conn.pool query w ≡ (ok set, w)
        → Gives set rows
        → query_rows env conn query (w, res) ≡ (ok tt, (w, res ++ rows))
    unfolding query_rows
    query_rows-append res q g = rw q (collect_rows-append set.columns set.rows rows res w g)

    rerun-copies :
        (n : ℕ) (res : List TableRow)
        → tx_query conn.pool query w ≡ (ok set, w)
        → Gives set rows
        → rerun n (query_rows env conn query) (w, res) ≡ (ok tt, (w, res ++ copies n rows))
    rerun-copies zero res q g = query_rows-append res q g
    rerun-copies (suc n) res q g = rw (query_rows-append res q g) (
        rerun-copies n (res ++ rows) q g
        ∙ ap (λ l. (ok tt, (w, l))) (append_assoc res rows (copies n rows)))

    -- Where the driver runs the function of the transaction and then again n times, as it does when
    -- the transaction cannot be committed, and the query leaves the world alone and gives rows with
    -- all their values, the source marshals n + 1 copies of those rows, one after the other: the
    -- rows of the attempts that were rolled back stay in the result.
    pub cockroach_source-copies :
        (n : ℕ)
        → env.execute_tx (List TableRow) conn.pool (query_rows env conn query) (w, [])
          ≡ rerun n (query_rows env conn query) (w, [])
        → tx_query conn.pool query w ≡ (ok set, w)
        → Gives set rows
        → cockroach_source env conn query w ≡ (marshal_rows (copies n rows), w)
    unfolding cockroach_source
    cockroach_source-copies n ran q g = rw (ran, rerun-copies n [] q g)

  -- A name of the configuration has a connection that the program supports.
  named-IsOpened :
      (x : String) (opened : Assoc Connection) (cs : List ConnectionConfig)
      → has_name x cs ≡ true
      → All (IsOpened opened) cs
      → (conn : Connection) × (lookup x opened ≡ some conn) × (conn.type ≡ type_cockroachdb)
  unfolding has_name
  named-IsOpened x opened [] h all = cc
  named-IsOpened x opened (c ∷ cs) h all = elim (Bool-cases (c.name == x)) [
    | inl same ↦
        let (conn, found, t) = all.0 in
        (conn, subst (λ y. lookup y opened ≡ some conn) ((eq_iff c.name x).0 same) found, t)
    | inr other ↦ named-IsOpened x opened cs (rw other at h) all.1
  ]

  module _ (conns : Connections) (configs : List ConnectionConfig) where
    abbrev pub HasDatabase : SourceQuery → Type 0
    HasDatabase q = has_name q.database_name configs ≡ true

    abbrev pub HasSource : Assoc (M World String) → SourceQuery → Type 0
    HasSource res q = is_some (lookup q.name res) ≡ true

    source_for_query-opened :
        (q : SourceQuery)
        → All (IsOpened conns.connections) configs
        → HasDatabase q
        → (conn : Connection) × (source_for_query env (some conns) q
            ≡ ok (cockroach_source env conn.cockroach_client q.query))
    unfolding source_for_query
    source_for_query-opened q all named =
        let (conn, found, t) = named-IsOpened q.database_name conns.connections configs named all in
        (conn, ap (λ o. source_at env o q) found ∙ rw ((eq_iff conn.type type_cockroachdb).1 t))

    HasSource-insert :
        (name : String) (f : M World String) (res : Assoc (M World String)) (q : SourceQuery)
        → HasSource res q
        → HasSource (insert name f res) q
    HasSource-insert name f res q h = elim (Bool-cases (name == q.name)) [
      | inl same ↦ rw (lookup-insert name q.name f res, same)
      | inr other ↦ rw (lookup-insert name q.name f res, other) h
    ]

    sources_for-HasSource :
        (qs : List SourceQuery) (res : Assoc (M World String))
        → All (IsOpened conns.connections) configs
        → All HasDatabase qs
        → (res' : Assoc (M World String)) × (sources_for env (some conns) qs res ≡ ok res')
          × All (HasSource res') qs
          × ((q : SourceQuery) → HasSource res q → HasSource res' q)
    unfolding sources_for
    sources_for-HasSource [] res all named = (res, refl, tt, λ q h. h)
    sources_for-HasSource (q ∷ qs) res all named =
        let (conn, made) = source_for_query-opened q all named.0 in
        let f = cockroach_source env conn.cockroach_client q.query in
        let (res', ran, each, keeps) = sources_for-HasSource qs (insert q.name f res) all named.1 in
        let there : HasSource (insert q.name f res) q =
          rw (lookup-insert q.name q.name f res, (eq_iff q.name q.name).1 refl) in
        (
          res',
          rw made ran,
          (keeps q there, each),
          λ p h. keeps p (HasSource-insert q.name f res p h),
        )

  -- Where FromFile has read, decoded and opened connections, and the database of every query is the
  -- name of one of them, InputSources of the queries on those connections returns no error, and
  -- every query has a source under its name.
  pub from_file-input_sources :
      (decode : String → Outcome (List ConnectionConfig)) (file default_file contents : String)
      (configs : List ConnectionConfig) (conns : Connections) (w w₁ w' : World)
      (queries : List SourceQuery)
      → env.read_file file w ≡ (ok contents, w₁)
      → decode contents ≡ ok configs
      → from_file env decode file default_file w ≡ (ok conns, w')
      → All (HasDatabase conns configs) queries
      → (res : Assoc (M World String)) × (input_sources env
            (record { conns = some conns; queries = queries })
          ≡ ok res)
        × All (HasSource conns configs res) queries
  from_file-input_sources decode file default_file contents configs conns w w₁ w' queries r d opened
        named =
      let (_, all) =
        from_file-IsOpened env decode file default_file contents configs w w₁ w' conns r d opened in
      let (res, made, each, _) = sources_for-HasSource conns configs queries [] all named in
      (res, made, each)
