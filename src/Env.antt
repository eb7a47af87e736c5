-- ===== src/Env.antt =====
-- What the program calls and does not implement: the Kubernetes API and its object library
-- (k8s.io/apimachinery, k8s.io/client-go), jsonpath, go-cmp, wait.Poll, the database driver.
-- The components take an `Env` as a parameter. A theorem that needs more of it names the laws.
pub mod Laws
use locutus.Prelude.{ℤ, ℕ, String, Bool, Option, List}
use locutus.Outcome.{Error, Outcome, M}
use locutus.Maps.{Assoc}
use locutus.Value.{Value, Fields}

pub record GroupVersion : Type 0 where
  pub group : String
  pub version : String

pub record GroupVersionResource : Type 0 where
  pub group : String
  pub version : String
  pub resource : String

-- rest.Config, of which the program sets these two fields in a copy.
pub record RestConfig : Type 0 where
  pub group_version : Option GroupVersion
  pub api_path : String
  pub qps : ℤ
  pub burst : ℤ

-- metav1.DeletionPropagation: what becomes of the dependents of a deleted object. With `foreground`
-- the object itself stays until they are gone.
pub data PropagationPolicy : Type 0 where
  orphan : PropagationPolicy
  background : PropagationPolicy
  foreground : PropagationPolicy

pub record ApiResource : Type 0 where
  pub kind : String
  pub name : String

pub record ApiResourceList : Type 0 where
  pub group_version : String
  pub resources : List ApiResource

-- What a dynamic.ResourceInterface is bound to.
pub record Endpoint : Type 0 where
  pub config : RestConfig
  pub resource : GroupVersionResource
  pub namespace : String

-- The metadata of a corev1.ServiceAccount; a nil map is `none`.
pub record ObjectMeta : Type 0 where
  pub name : String
  pub namespace : String
  pub labels : Option (Assoc String)
  pub annotations : Option (Assoc String)

-- corev1.Pod: for each container status, the reason of its termination if it has terminated.
pub record Pod : Type 0 where
  pub namespace : String
  pub name : String
  pub terminated : List (Option String)

-- The fields of a status object beside the status.
pub record StatusHeader : Type 0 where
  pub kind : String
  pub api_version : String
  pub name : String
  pub namespace : String
  pub resource_version : String

-- What a driver gives for a column, as far as the program tells it apart.
pub data Cell : Type 0 where
  text_cell : String → Cell
  bytes_cell : List ℕ → Cell
  other_cell : Value → Cell

-- pgx.Rows: the names of the columns, and the rows that Next gave, each with the answer of Values.
pub record RowSet : Type 0 where
  pub columns : List String
  pub rows : List (Outcome (List Cell))

pub record Env : Type 1 where
  -- all that lies outside of the process
  pub World : Type 0
  -- the contents of an unstructured.Unstructured, and its accessors
  pub Obj : Type 0
  pub api_version : Obj → String
  pub kind : Obj → String
  pub name : Obj → String
  pub namespace : Obj → String
  pub resource_version : Obj → String
  pub set_resource_version : Obj → String → Obj
  pub annotations : Obj → Option (Assoc String)
  pub set_annotations : Obj → Assoc String → Obj
  pub nested_string : Obj → List String → Outcome (Option String)
  pub set_nested_string : Obj → String → List String → Outcome Obj
  -- IsList with EachListItem: the items, none for one that is no object, and the object with its
  -- items changed in place
  pub items : Obj → Option (List (Option Obj))
  pub set_items : Obj → List (Option Obj) → Obj
  -- a number above the nesting of lists in an object
  pub depth : Obj → ℕ
  -- MarshalJSON without its error, json.Unmarshal into a ServiceAccount, gocmp.Equal with
  -- EquateEmpty
  pub marshal_json : Obj → String
  pub unmarshal_service_account : String → Outcome ObjectMeta
  pub equate : Option (Assoc String) → Option (Assoc String) → Bool
  -- discovery, the dynamic client, the API server
  pub server_resources : String → M World ApiResourceList
  pub parse_group_version : String → Outcome GroupVersion
  pub new_dynamic : RestConfig → Outcome (Unit {0})
  pub get : Endpoint → String → M World Obj
  pub create : Endpoint → Obj → M World Obj
  pub update : Endpoint → Obj → M World Obj
  pub delete : PropagationPolicy → Endpoint → String → M World (Unit {0})
  pub is_not_found : Error → Bool
  pub list_pods : String → String → M World (List Pod)
  -- NestedFieldNoCopy, and NestedString of one field of a map
  pub nested_field : Obj → List String → Outcome (Option Value)
  pub field_string : Fields → String → Outcome (Option String)
  -- time.Time: the current time, time.Parse with Local, DeepEqual
  pub Time : Type 0
  pub now : World → Time × World
  pub parse_time : String → Time
  pub time_equal : Time → Time → Bool
  -- the object that is written back, made of a header and of named conditions with their status
  -- and time, and UpdateStatus
  pub status_object : StatusHeader → List (String × String × Time) → Obj
  pub update_status : Endpoint → Obj → M World Obj
  -- client-go's jsonpath: the results, and the message of an error beside them
  pub ParsedPath : Type 0
  pub parse_path : String → Outcome ParsedPath
  pub find_results : ParsedPath → Obj → List (List Value) × Option String
  -- wait.Poll
  pub poll : ℤ → ℤ → M World Bool → M World (Unit {0})
  -- crdbpgx.ExecuteTx on a pool, which may run its function again, pgx.Tx.Exec and Tx.Query. `S`
  -- is what the function changes inside of the process, which no rollback undoes.
  pub execute_tx : (S : Type 0) → String → M (World × S) (Unit {0}) → M (World × S) (Unit {0})
  pub tx_exec : String → String → M World (Unit {0})
  pub tx_query : String → String → M World RowSet
  -- MustRegister of the process's registry, pgxpool.ParseConfig and ConnectConfig, os.ReadFile
  pub register_metric : String → M World (Unit {0})
  pub parse_conn_string : String → Outcome String
  pub connect_pool : String → M World String
  pub read_file : String → M World String
  -- %v of a value from the driver, and json.Marshal of such values
  pub format_value : Value → String
  pub marshal_row : Assoc Cell → Outcome String
  pub marshal_rows : List (Assoc Cell) → Outcome String
