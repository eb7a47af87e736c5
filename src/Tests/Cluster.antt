-- ===== src/Tests/Cluster.antt =====
-- A cluster in memory: the objects by name. It shows that the laws assumed of the environment can
-- hold, and runs the program.
use locutus.Prelude.{
  ℕ, suc, ◌+◌, ◌<◌, String, Bool, true, false, ◌≡◌, refl, subst, Option, none, some, List, [], ◌∷◌,
  All, ◌==◌, ==_refl, if◌then◌else◌, arith,
}
use locutus.Outcome.{Error, external, Outcome, ok, err}
use locutus.Maps.{Assoc, lookup, insert, remove, lookup-insert, lookup-remove}
use locutus.Value.{Value, string, get_field}
use Prim.Native.String.{◌++◌}
use locutus.Env.{Env, ApiResource, Pod, RowSet, Cell, text_cell}
use locutus.Env.Laws.{Accessors, ApiServer, Polls, tries}
use locutus.Rollout.Runs.Nesting.{Below, Finite}

-- What the program reads of an object.
pub record Head : Type 0 where
  pub api_version : String
  pub kind : String
  pub name : String
  pub version : String
  pub notes : Option (Assoc String)
  pub ip : Option String

mutual
  pub data Thing : Type 0 where
    single : Head → Thing
    bundle : Head → Things → Thing

  pub data Things : Type 0 where
    none_left : Things
    next : Thing → Things → Things

abbrev pub head : Thing → Head
head (single h) = h
head (bundle h _) = h

abbrev pub with_head : Thing → Head → Thing
with_head (single _) h = single h
with_head (bundle _ xs) h = bundle h xs

abbrev to_list : Things → List (Option Thing)
to_list none_left = []
to_list (next x xs) = some x ∷ to_list xs

abbrev from_list : List (Option Thing) → Things
from_list [] = none_left
from_list (none ∷ xs) = from_list xs
from_list (some x ∷ xs) = next x (from_list xs)

abbrev mutual
  pub nesting : Thing → ℕ
  nesting (single _) = 0
  nesting (bundle _ xs) = suc (nestings xs)

  pub nestings : Things → ℕ
  nestings none_left = 0
  nestings (next x xs) = nesting x + nestings xs

abbrev pub things_of : Thing → Option (List (Option Thing))
things_of (single _) = none
things_of (bundle _ xs) = some (to_list xs)

abbrev put_things : Thing → List (Option Thing) → Thing
put_things (single h) xs = single h
put_things (bundle h _) xs = bundle h (from_list xs)

abbrev pub Store : Type 0
Store = Assoc Thing

abbrev missing : Error
missing = external "not found"

abbrev is_missing : Error → Bool
is_missing (external m) = m == "not found"
is_missing _ = false

abbrev found : {A : Type 0} → Option A → Store → Outcome A × Store
found none w = (err missing, w)
found (some a) w = (ok a, w)

abbrev with_version : String → Thing → Thing
with_version v o = with_head o (record (head o) { version = v })

abbrev deleted : Option Thing → String → Store → Outcome (Unit {0}) × Store
deleted none n w = (err missing, w)
deleted (some _) n w = (ok tt, remove n w)

abbrev write : String → Thing → Store → Outcome Thing × Store
write v o w = (ok (with_version v o), insert (head o).name (with_version v o) w)

abbrev set_ip : Thing → String → List String → Outcome Thing
set_ip o v p = ok (with_head o (record (head o) { ip = some v }))

abbrev results_at : String → Thing → List (List Value) × Option String
results_at p o =
    if p == "{.kind}"
    then ((string (head o).kind ∷ []) ∷ [], none)
    else ([], some "path is not found")

abbrev text_at : Option Value → Outcome (Option String)
text_at (some (string s)) = ok (some s)
text_at _ = ok none

abbrev kinds : List ApiResource
kinds = record { kind = "Job"; name = "jobs" } ∷ record { kind = "Service"; name = "services" } ∷ []

abbrev pods : List Pod
pods = record { namespace = ""; name = "job-1"; terminated = none ∷ some "OOMKilled" ∷ [] } ∷ []

-- Two rows of a table with an `id`.
abbrev pub due_rows : RowSet
due_rows = record {
  columns = "id" ∷ [];
  rows = ok (text_cell "1" ∷ []) ∷ ok (text_cell "2" ∷ []) ∷ [];
}

-- One letter for each row.
abbrev one_each : List (Assoc Cell) → String
one_each [] = ""
one_each (row ∷ rows) = "r" ++ one_each rows

abbrev pub cluster : Env
cluster = record {
  World = Store;
  Obj = Thing;
  api_version = λ o. (head o).api_version;
  kind = λ o. (head o).kind;
  name = λ o. (head o).name;
  namespace = λ o. "";
  resource_version = λ o. (head o).version;
  set_resource_version = λ o v. with_version v o;
  annotations = λ o. (head o).notes;
  set_annotations = λ o m. with_head o (record (head o) { notes = some m });
  nested_string = λ o p. ok (head o).ip;
  set_nested_string = set_ip;
  items = things_of;
  set_items = put_things;
  depth = nesting;
  marshal_json = λ o. (head o).name;
  unmarshal_service_account =
      λ s. ok (record { name = s; namespace = ""; labels = none; annotations = none });
  equate = λ a b. true;
  server_resources = λ g w. (ok (record { group_version = g; resources = kinds }), w);
  parse_group_version = λ g. ok (record { group = ""; version = g });
  new_dynamic = λ c. ok tt;
  get = λ ep n w. found (lookup n w) w;
  create = λ ep o w. write "1" o w;
  update = λ ep o w. write "2" o w;
  delete = λ policy ep n w. deleted (lookup n w) n w;
  is_not_found = is_missing;
  list_pods = λ ns sel w. (ok pods, w);
  nested_field = λ o p. ok none;
  field_string = λ v f. text_at (get_field f v);
  Time = ℕ;
  now = λ w. (7, w);
  parse_time = λ s. 0;
  time_equal = λ a b. true;
  status_object = λ h cs. single (record {
    api_version = h.api_version;
    kind = h.kind;
    name = h.name;
    version = h.resource_version;
    notes = none;
    ip = none;
  });
  update_status = λ ep o w. (ok o, w);
  ParsedPath = String;
  parse_path = λ p. ok p;
  find_results = results_at;
  poll = λ i t c. tries 3 c;
  execute_tx = λ S c m. m;
  tx_exec = λ c s w. (ok tt, w);
  tx_query = λ c q w. (ok due_rows, w);
  register_metric = λ name w. (ok tt, w);
  parse_conn_string = λ s. ok s;
  connect_pool = λ c w. (ok c, w);
  read_file = λ name w. (ok "contents", w);
  format_value = λ v. "value";
  marshal_row = λ row. ok "row";
  marshal_rows = λ rows. ok (one_each rows);
}

pub cluster_polls : Polls cluster
cluster_polls = record { tried = λ i t c w h. (3, refl) }

version_set_lem : (o : Thing) (v : String) → (head (with_version v o)).version ≡ v
version_set_lem (single h) v = refl
version_set_lem (bundle h _) v = refl

kind_kept : (o : Thing) (v : String) → (head (with_version v o)).kind ≡ (head o).kind
kind_kept (single h) v = refl
kind_kept (bundle h _) v = refl

api_version_kept :
    (o : Thing) (v : String) → (head (with_version v o)).api_version ≡ (head o).api_version
api_version_kept (single h) v = refl
api_version_kept (bundle h _) v = refl

version_kept :
    (o : Thing) (m : Assoc String)
    → (head (with_head o (record (head o) { notes = some m }))).version ≡ (head o).version
version_kept (single h) m = refl
version_kept (bundle h _) m = refl

notes_set :
    (o : Thing) (m : Assoc String)
    → (head (with_head o (record (head o) { notes = some m }))).notes ≡ some m
notes_set (single h) m = refl
notes_set (bundle h _) m = refl

notes_kept : (o : Thing) (v : String) → (head (with_version v o)).notes ≡ (head o).notes
notes_kept (single h) v = refl
notes_kept (bundle h _) v = refl

ip_made :
    (o o' : Thing) (v : String)
    → set_ip o v [] ≡ ok o'
    → o' ≡ with_head o (record (head o) { ip = some v })
ip_made o o' v e = cc

ip_set :
    (o : Thing) (v : String) (p : List String) (o' : Thing)
    → set_ip o v p ≡ ok o'
    → ◌≡◌ {A = Outcome (Option String)} (ok (head o').ip) (ok (some v))
ip_set (single h) v p o' e = rw (ip_made (single h) o' v e)
ip_set (bundle h xs) v p o' e = rw (ip_made (bundle h xs) o' v e)

ip_version :
    (o : Thing) (v f : String) (o' : Thing)
    → set_ip o v ("spec" ∷ f ∷ []) ≡ ok o'
    → (head o').version ≡ (head o).version
ip_version (single h) v f o' e = rw (ip_made (single h) o' v e)
ip_version (bundle h xs) v f o' e = rw (ip_made (bundle h xs) o' v e)

ip_kind :
    (o : Thing) (v f : String) (o' : Thing)
    → set_ip o v ("spec" ∷ f ∷ []) ≡ ok o'
    → (head o').kind ≡ (head o).kind
ip_kind (single h) v f o' e = rw (ip_made (single h) o' v e)
ip_kind (bundle h xs) v f o' e = rw (ip_made (bundle h xs) o' v e)

pub there : (n : String) (o : Thing) (w : Store) → lookup n (insert n o w) ≡ some o
there n o w = rw (lookup-insert, ==_refl)

pub gone : (n : String) (w : Store) → lookup n (remove n w) ≡ none
gone n w = rw (lookup-remove, ==_refl)

pub cluster_accessors : Accessors cluster
cluster_accessors = record {
  version_set = version_set_lem;
  kind_set_version = kind_kept;
  api_version_set_version = api_version_kept;
  version_set_annotations = version_kept;
  annotations_set = notes_set;
  annotations_set_version = notes_kept;
  nested_set = ip_set;
  version_set_spec = ip_version;
  kind_set_spec = ip_kind;
}

abbrev pub cluster_api : ApiServer cluster
cluster_api = record {
  stored = λ w ep n. lookup n w;
  get_found = λ w ep n o e. rw e;
  get_missing = λ w ep n e. (missing, rw e, refl);
  create_new = λ w ep o e f. (
    with_version "1" o,
    insert (head o).name (with_version "1" o) w,
    refl,
    there (head o).name _ w,
  );
  update_current = λ w ep o cur e f. (
    with_version "2" o,
    insert (head o).name (with_version "2" o) w,
    refl,
    there (head o).name _ w,
  );
}

nested-Below : (xs : Things) (n : ℕ) → nestings xs < n → All (Below cluster n) (to_list xs)
nested-Below none_left n h = tt
nested-Below (next x xs) n h = (omega arith, nested-Below xs n (omega arith))

pub cluster_finite : Finite cluster
cluster_finite = record { items_below = below }
  where
    below :
        (u : Thing) (xs : List (Option Thing))
        → things_of u ≡ some xs
        → All (Below cluster (nesting u)) xs
    below (single _) xs e = absurd (cc e)
    below (bundle h ts) xs e =
        let same : to_list ts ≡ xs = cc in
        subst (λ l. All (Below cluster (suc (nestings ts))) l) same
          (nested-Below ts (suc (nestings ts)) (omega arith))
