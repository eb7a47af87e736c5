-- ===== src/Db/Opening.antt =====
-- db/config.go: FromFile, and source/crdb/client.go: NewClient. The decoder of the file is a
-- parameter.
pub mod Opened
pub mod Registered
use locutus.Prelude.{
  String, Bool, true, false, ◌&&◌, not, Option, none, some, List, [], ◌∷◌, ◌==◌, is_some,
  if◌then◌else◌,
}
use locutus.Outcome.{
  Error, text, wrap, Outcome, ok, err, M, pure, throw, lift, wrapping, ◌>>=◌, ◌>>◌,
}
use locutus.Maps.{Assoc, lookup, insert}
use locutus.Env.{Env}
use locutus.Db.{Connection, Connections, CockroachClient, type_cockroachdb}

pub record ConnectionConfig : Type 0 where
  pub name : String
  pub type : String
  -- the connection string of `cockroachdb`, if that is set
  pub cockroachdb : Option String

abbrev pub duplicate_name : String → Error
duplicate_name name =
    text "duplicate connection name, connection names must be unique: %s" (name ∷ [])

-- the first loop of FromFile; `names` is the set of names so far
unfoldable pub check_names : List ConnectionConfig → Assoc (Unit {0}) → Outcome (Unit {0})
check_names [] names = ok tt
check_names (c ∷ cs) names =
    let rest = check_names cs (insert c.name tt names) in
    if is_some (lookup c.name names) then err (duplicate_name c.name) else rest

abbrev pub or_blank : Option String → String
or_blank none = ""
or_blank (some s) = s

module _ (env : Env) where
  open env use {World, read_file, parse_conn_string, connect_pool, register_metric}

  -- crdb.NewClient: it registers its histogram last
  unfoldable pub new_cockroach_client : String → M World CockroachClient
  new_cockroach_client conn_string = do
    config ←
        wrapping (wrap "failed to parse DB string: %w" []) (lift (parse_conn_string conn_string))
    pool ←
        wrapping (wrap "failed to create connection pool (conn config: %#+v): %w" [])
          (connect_pool config)
    register_metric "database_transaction_duration_seconds"
    pure (record { pool = pool })

  unfoldable pub conn_string_for : String → Option String → M World String
  conn_string_for default_file configured =
      if or_blank configured == "" && not (default_file == "")
      then wrapping (wrap "failed to read default database url file" []) (read_file default_file)
      else pure (or_blank configured)

  abbrev pub connected : ConnectionConfig → CockroachClient → Connection
  connected c client = record { type = c.type; cockroach_client = client }

  abbrev pub connect_with : ConnectionConfig → String → M World Connection
  connect_with c conn_string =
      wrapping (wrap "create cockroachdb client (conn_string: %v): %w" (conn_string ∷ []))
        (new_cockroach_client conn_string)
      >>= λ client. pure (connected c client)

  unfoldable pub open_connection : String → ConnectionConfig → M World Connection
  unfolding conn_string_for
  open_connection default_file c =
      if c.type == type_cockroachdb
      then (conn_string_for default_file c.cockroachdb >>= connect_with c)
      else throw (text "unknown connection type: %s" (c.type ∷ []))

  -- the second loop of FromFile
  unfoldable pub open_all :
      String → List ConnectionConfig → Assoc Connection → M World (Assoc Connection)
  open_all default_file [] opened = pure opened
  open_all default_file (c ∷ cs) opened = open_connection default_file c >>= λ conn.
      open_all default_file cs (insert c.name conn opened)

  abbrev pub open_config : String → List ConnectionConfig → M World Connections
  open_config default_file configs = do
    lift (check_names configs [])
    opened ← open_all default_file configs []
    pure (record { connections = opened })

  unfoldable pub from_file :
      (String → Outcome (List ConnectionConfig)) → String → String → M World Connections
  from_file decode file default_file = do
    contents ← wrapping (wrap "failed to open config file" []) (read_file file)
    configs ← wrapping (wrap "failed to parse config file" []) (lift (decode contents))
    open_config default_file configs
