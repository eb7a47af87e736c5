-- ===== src/Env/Laws.antt =====
-- Documented behaviour of the libraries that theorems rely on, as named hypotheses.
use locutus.Prelude.{
  ℤ, is_positive, ℕ, zero, suc, String, Bool, true, false, ◌≡◌, Option, none, some, List, [], ◌∷◌,
}
use locutus.Outcome.{Error, Outcome, ok, err, panic, wait_timeout, M}
use locutus.Maps.{Assoc}
use locutus.Env.{Env, Endpoint}

module _ {W : Type 0} where
  -- One try of a condition under wait.Poll, and what comes after it.
  abbrev pub after_try : Outcome Bool → M W (Unit {0}) → M W (Unit {0})
  after_try (ok true) next w = (ok tt, w)
  after_try (ok false) next w = next w
  after_try (err e) next w = (err e, w)
  after_try panic next w = (panic, w)

  -- A number of tries: the first true or the first error ends them, and without one it is a
  -- timeout. What happens in the cluster between two tries shows in what the next one reads.
  unfoldable pub tries : ℕ → M W Bool → M W (Unit {0})
  tries zero c w = (err wait_timeout, w)
  tries (suc n) c w = let (o, w') = c w in after_try o (tries n c) w'

module _ (env : Env) where
  open env use {
    Obj, api_version, kind, resource_version, set_resource_version, annotations, set_annotations,
    nested_string, set_nested_string,
  }

  -- Setters of unstructured.Unstructured change the field that they name, and leave the others.
  pub record Accessors : Type 0 where
    pub version_set : (o : Obj) (v : String) → resource_version (set_resource_version o v) ≡ v
    pub kind_set_version : (o : Obj) (v : String) → kind (set_resource_version o v) ≡ kind o
    pub api_version_set_version :
        (o : Obj) (v : String) → api_version (set_resource_version o v) ≡ api_version o
    pub version_set_annotations :
        (o : Obj) (m : Assoc String) → resource_version (set_annotations o m) ≡ resource_version o
    pub annotations_set : (o : Obj) (m : Assoc String) → annotations (set_annotations o m) ≡ some m
    pub annotations_set_version :
        (o : Obj) (v : String) → annotations (set_resource_version o v) ≡ annotations o
    pub nested_set :
        (o : Obj) (v : String) (p : List String) (o' : Obj)
        → set_nested_string o v p ≡ ok o'
        → nested_string o' p ≡ ok (some v)
    pub version_set_spec :
        (o : Obj) (v f : String) (o' : Obj)
        → set_nested_string o v ("spec" ∷ f ∷ []) ≡ ok o'
        → resource_version o' ≡ resource_version o
    pub kind_set_spec :
        (o : Obj) (v f : String) (o' : Obj)
        → set_nested_string o v ("spec" ∷ f ∷ []) ≡ ok o'
        → kind o' ≡ kind o

  open env use {World, name, get, create, update, is_not_found}

  -- An API server in a state `w` that no other client changes meanwhile, and that accepts what it
  -- is sent: `stored` is what it holds under a name. A new object must not have a resource
  -- version, and an update must have the current one.
  pub record ApiServer : Type 0 where
    pub stored : World → Endpoint → String → Option Obj
    pub get_found :
        (w : World) (ep : Endpoint) (n : String) (o : Obj)
        → stored w ep n ≡ some o
        → get ep n w ≡ (ok o, w)
    pub get_missing :
        (w : World) (ep : Endpoint) (n : String)
        → stored w ep n ≡ none
        → (e : Error) × (get ep n w ≡ (err e, w)) × (is_not_found e ≡ true)
    pub create_new :
        (w : World) (ep : Endpoint) (o : Obj)
        → stored w ep (name o) ≡ none
        → resource_version o ≡ ""
        → (o' : Obj) × (w' : World) × (create ep o w ≡ (ok o', w'))
          × (stored w' ep (name o) ≡ some o')
    pub update_current :
        (w : World) (ep : Endpoint) (o cur : Obj)
        → stored w ep (name o) ≡ some cur
        → resource_version o ≡ resource_version cur
        → (o' : Obj) × (w' : World) × (update ep o w ≡ (ok o', w'))
          × (stored w' ep (name o) ≡ some o')

  open env use {poll}

  -- With a timeout wait.Poll tries its condition a finite number of times, which depends on the
  -- time that passes.
  pub record Polls : Type 0 where
    pub tried :
        (interval timeout : ℤ) (c : M World Bool) (w : World)
        → is_positive timeout ≡ true
        → (n : ℕ) × (poll interval timeout c w ≡ tries n c w)

-- A registry takes a metric of a name once: MustRegister panics at the second. Nothing else that
-- the program does with files and pools takes a metric away.
pub record Registry (env : Env) : Type 1 where
  pub Registered : String → env.World → Type 0
  pub registers :
      (name : String) (w w' : env.World)
      → env.register_metric name w ≡ (ok tt, w')
      → Registered name w'
  pub twice :
      (name : String) (w : env.World) → Registered name w → env.register_metric name w ≡ (panic, w)
  pub read_keeps :
      (name file : String) (w : env.World)
      → Registered name w
      → Registered name (env.read_file file w).1
  pub connect_keeps :
      (name config : String) (w : env.World)
      → Registered name w
      → Registered name (env.connect_pool config w).1
