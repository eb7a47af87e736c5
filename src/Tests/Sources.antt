-- ===== src/Tests/Sources.antt =====
-- Instances of the theorems on db/, source/ and render/.
use locutus.Tests.Cluster.{Thing, single, Store, cluster, due_rows}
use locutus.Prelude.{
  String, true, false, ◌≡◌, ◌≢◌, refl, Option, none, some, List, [], ◌∷◌, All, is_some,
  Option-cases, ==_refl, inl, inr,
}
use locutus.Outcome.{Error, Outcome, ok, err, panic, M, ◌>>◌}
use locutus.Maps.{Assoc, lookup, insert, lookup-insert}
use locutus.Env.{Env, text_cell}
use locutus.Env.Laws.{Registry}
use locutus.Db.{Connections, CockroachClient, type_cockroachdb}
use locutus.Db.Rows.{next_row, row_from}
use locutus.Db.Opening.{
  ConnectionConfig, check_names, new_cockroach_client, conn_string_for, open_connection, open_all,
  from_file,
}
use locutus.Db.Opening.Opened.{has_name, Distinct, from_file-refused}
use locutus.Db.Opening.Registered.{from_file-once}
use locutus.Source.{TableRow, SourceQuery, cockroach_source, input_sources}
use locutus.Source.Copies.{
  copies, Gives, cockroach_source-copies, HasDatabase, HasSource, from_file-input_sources,
}
use locutus.Render.Texts.{has_equals, trim_prefix, strip_prefix}
use locutus.Render.Jsonnet.{Jsonnet, JsonnetRenderer, Generated}
use locutus.Render.File.{directory, file, FileRenderer, Decoders, render_files, render_visits}
use locutus.Render.File.Walked.{Walked, render_files-Visited}
use locutus.Rollout.Types.{Rollout, RenderResult}

abbrev main_config : ConnectionConfig
main_config = record {
  name = "main";
  type = type_cockroachdb;
  cockroachdb = some "postgres://main";
}

abbrev decode_one : String → Outcome (List ConnectionConfig)
decode_one s = ok (main_config ∷ [])

abbrev decode_two : String → Outcome (List ConnectionConfig)
decode_two s = ok (main_config ∷ main_config ∷ [])

abbrev main_client : CockroachClient
main_client = record { pool = "postgres://main" }

abbrev connections : Connections
connections = record {
  connections = ("main", record { type = type_cockroachdb; cockroach_client = main_client }) ∷ [];
}

opened : from_file cluster decode_one "db.yaml" "" [] ≡ (ok connections, [])
unfolding from_file check_names open_all open_connection conn_string_for new_cockroach_client lookup
    insert
opened = refl

twice : ¬ Distinct (main_config ∷ main_config ∷ [])
unfolding has_name
twice d = cc (d.0)

from_file-refused_example :
    (e : Error) × (from_file cluster decode_two "db.yaml" "" [] ≡ (err e, []))
from_file-refused_example =
    from_file-refused cluster decode_two "db.yaml" "" "contents" (main_config ∷ main_config ∷ []) []
      [] refl refl twice

-- The cluster with a registry: a metric is an object of its name.
abbrev metric_object : Thing
metric_object =
    single (record {
      api_version = "";
      kind = "Metric";
      name = "";
      version = "";
      notes = none;
      ip = none;
    })

abbrev registered_in : Option Thing → String → Store → Outcome (Unit {0}) × Store
registered_in none name w = (ok tt, insert name metric_object w)
registered_in (some _) name w = (panic, w)

abbrev metered : Env
metered = record cluster { register_metric = λ name w. registered_in (lookup name w) name w }

abbrev Registered : String → Store → Type 0
Registered name w = is_some (lookup name w) ≡ true

registers_lem :
    (name : String) (w w' : Store)
    → metered.register_metric name w ≡ (ok tt, w')
    → Registered name w'
registers_lem name w w' h = elim (Option-cases (lookup name w)) [
  | inl free ↦
      let same : insert name metric_object w ≡ w' = cc (rw free at h) in
      rw (← same) (rw (lookup-insert name name metric_object w, ==_refl name))
  | inr (o, taken) ↦ absurd (cc (rw taken at h))
]

twice_lem :
    (name : String) (w : Store) → Registered name w → metered.register_metric name w ≡ (panic, w)
twice_lem name w r = elim (Option-cases (lookup name w)) [
  | inl free ↦ absurd (cc (rw free at r))
  | inr (o, taken) ↦ rw taken
]

abbrev metered_registry : Registry metered
metered_registry = record {
  Registered = Registered;
  registers = registers_lem;
  twice = twice_lem;
  read_keeps = λ name file w r. r;
  connect_keeps = λ name config w r. r;
}

from_file-once_example : from_file metered decode_two "db.yaml" "" [] ≢ (ok connections, [])
from_file-once_example =
    from_file-once metered metered_registry decode_two "db.yaml" "" "contents" main_config
      main_config [] [] [] [] connections refl refl

-- The cluster, with a database whose transactions run twice.
abbrev retried : Env
retried = record cluster { execute_tx = λ S c m. m >> m }

abbrev due_read : List TableRow
due_read = (("id", text_cell "1") ∷ []) ∷ (("id", text_cell "2") ∷ []) ∷ []

due_rows-Gives : Gives due_rows due_read
unfolding next_row row_from insert
due_rows-Gives = refl

cockroach_source-copies_example :
    cockroach_source retried main_client "SELECT id FROM due" []
    ≡ (retried.marshal_rows (copies 1 due_read), [])
cockroach_source-copies_example =
    cockroach_source-copies retried main_client "SELECT id FROM due" due_rows due_read [] 1 refl
      refl due_rows-Gives

abbrev queries : List SourceQuery
queries = record { name = "due"; database_name = "main"; query = "SELECT id FROM due" } ∷ []

queries_have_database : All (HasDatabase cluster connections (main_config ∷ [])) queries
unfolding has_name
queries_have_database = (refl, tt)

from_file-input_sources_example :
    (res : Assoc (M Store String)) × (input_sources cluster
        (record { conns = some connections; queries = queries })
      ≡ ok res)
    × All (HasSource cluster connections (main_config ∷ []) res) queries
from_file-input_sources_example =
    from_file-input_sources cluster decode_one "db.yaml" "" "contents" (main_config ∷ [])
      connections [] [] [] queries refl refl opened queries_have_database

env_has_no_equals : has_equals "env" ≡ false
unfolding has_equals
env_has_no_equals = refl

abbrev web : Thing
web = single (record {
  api_version = "v1";
  kind = "Service";
  name = "web";
  version = "";
  notes = none;
  ip = none;
})

abbrev generated : Generated cluster
generated = record { objects = ("web", some web) ∷ []; rollout = none }

-- A program that is its own result.
abbrev pub jsonnet : Jsonnet cluster
jsonnet = record {
  evaluate = λ strs import path main w. (ok main, w);
  import_file = λ jpaths dir path w. (ok ("file", path), w);
  unmarshal = λ s. ok generated;
  marshal_object = λ u. ok "{}";
}

abbrev jsonnet_renderer : JsonnetRenderer cluster
jsonnet_renderer = record { entrypoint = "main.jsonnet"; sources = []; ext_strs = []; jpaths = [] }

abbrev rendered : RenderResult cluster
rendered = record { objects = ("web", web) ∷ []; rollout = none }

abbrev rollout : Rollout
rollout = record { api_version = ""; kind = "Rollout"; metadata = none; spec = none }

abbrev pub decoders : Decoders cluster
decoders = record {
  walk = λ dir w. (ok (directory "manifests" ∷ file "manifests/web.yaml" ∷ []), w);
  decode_object = λ s. ok web;
  decode_rollout = λ s. ok rollout;
}

abbrev manifests : FileRenderer cluster
manifests = record { directory = "manifests/"; rollout_file = "rollout.yaml" }

abbrev rendered_files : RenderResult cluster
rendered_files = record { objects = ("web.yaml", web) ∷ []; rollout = some rollout }

files_render : render_files cluster decoders manifests [] ≡ (ok rendered_files, [])
unfolding render_files render_visits trim_prefix strip_prefix insert
files_render = refl

render_files-Visited_example : Walked cluster decoders manifests [] [] rendered_files
render_files-Visited_example =
    render_files-Visited cluster decoders manifests [] [] rendered_files files_render
