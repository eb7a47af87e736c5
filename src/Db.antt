-- ===== src/Db.antt =====
-- db/config.go: the database connections by name, and the clients of source/crdb/client.go, of
-- which only the connection pool matters here.
pub mod Rows
pub mod Opening
use locutus.Prelude.{String}
use locutus.Outcome.{M}
use locutus.Maps.{Assoc}
use locutus.Env.{Env}

abbrev pub type_cockroachdb : String
type_cockroachdb = "cockroachdb"

-- crdb.Client, by its pool
pub record CockroachClient : Type 0 where
  pub pool : String

pub record Connection : Type 0 where
  pub type : String
  pub cockroach_client : CockroachClient

pub record Connections : Type 0 where
  pub connections : Assoc Connection

-- crdb.Client.ExecuteTx, without the duration that it observes
abbrev pub execute_tx :
    (env : Env) (S : Type 0)
    → CockroachClient
    → M (env.World × S) (Unit {0})
    → M (env.World × S) (Unit {0})
execute_tx env S c f = env.execute_tx S c.pool f

-- A function on the world, in a transaction whose function changes other state too.
abbrev pub in_world : {W S A : Type 0} → M W A → M (W × S) A
in_world m (w, s) = let (o, w') = m w in (o, (w', s))

-- A transaction whose function changes nothing inside of the process.
abbrev pub execute_tx_alone :
    (env : Env) → CockroachClient → M env.World (Unit {0}) → M env.World (Unit {0})
execute_tx_alone env c f w =
    let (o, (w', _)) = execute_tx env (Unit {0}) c (in_world f) (w, tt) in (o, w')
