-- ===== src/Render/Jsonnet.antt =====
-- render/jsonnet/jsonnet.go. The jsonnet VM, its importer of files, and the decoding of its result
-- are parameters.
pub mod Imports
use Prim.Native.String.{◌++◌}
use locutus.Render.Texts.{strip_prefix, split_once}
use locutus.Prelude.{String, Bool, Option, none, some, List, [], ◌∷◌, ◌==◌, if◌then◌else◌}
use locutus.Outcome.{
  panic, Error, text, mask, wrap, Outcome, ok, err, M, pure, throw, lift, chain, rewrap, attempt,
  wrapping, ◌>>=◌, ◌>>◌,
}
use locutus.Maps.{Assoc, lookup, insert}
use locutus.Env.{Env}
use locutus.Rollout.Types.{Rollout, RenderResult}

abbrev pub add_ext_str : String → Option (String × String) → Assoc String → Outcome (Assoc String)
add_ext_str s none strs = err (text "invalid ext-str: %s" (s ∷ []))
add_ext_str s (some (k, v)) strs = ok (insert k v strs)

-- the first loop of NewRenderer
unfoldable pub parse_ext_strs : List String → Assoc String → Outcome (Assoc String)
parse_ext_strs [] strs = ok strs
parse_ext_strs (s ∷ ss) strs =
    chain (add_ext_str s (split_once s) strs) (λ more. parse_ext_strs ss more)

abbrev pub virtual_config_path : String
virtual_config_path = "generic-operator/config"

abbrev pub runtime_prefix : String
runtime_prefix = "locutus-runtime/"

module _ (env : Env) where
  open env use {World, Obj, read_file}

  -- The contents, and the path at which they were found.
  abbrev pub Imported : Type 0
  Imported = String × String

  pub record JsonnetRenderer : Type 0 where
    pub entrypoint : String
    pub sources : Assoc (M World String)
    pub ext_strs : Assoc String
    pub jpaths : List String

  unfoldable pub new_jsonnet_renderer :
      String → Assoc (M World String) → List String → List String → Outcome JsonnetRenderer
  new_jsonnet_renderer entrypoint sources ext_strs jpaths =
      chain (parse_ext_strs ext_strs []) (λ strs.
        ok
          (record { entrypoint = entrypoint; sources = sources; ext_strs = strs; jpaths = jpaths }))

  pub record JsonnetImporter : Type 0 where
    pub file_importer : String → String → M World Imported
    pub config_content : Option String
    pub sources : Assoc (M World String)

  -- string(i.configContent), the empty string for a nil slice
  abbrev pub config_text : Option String → String
  config_text none = ""
  config_text (some s) = s

  abbrev pub import_source : String → M World String → M World Imported
  import_source p f = f >>= λ contents. pure (contents, runtime_prefix ++ p)

  abbrev pub import_runtime :
      JsonnetImporter → String → String → String → Option (M World String) → M World Imported
  import_runtime i dir path p none = i.file_importer dir path
  import_runtime i dir path p (some f) = import_source p f

  abbrev pub import_other : JsonnetImporter → String → String → Option String → M World Imported
  import_other i dir path none = i.file_importer dir path
  import_other i dir path (some p) = import_runtime i dir path p (lookup p i.sources)

  unfoldable pub import_path : JsonnetImporter → String → String → M World Imported
  import_path i dir path =
      if path == virtual_config_path
      then pure (config_text i.config_content, virtual_config_path)
      else import_other i dir path (strip_prefix runtime_prefix path)

  -- `result`: the objects and the rollout of the generated JSON, in which a null is a nil pointer
  pub record Generated : Type 0 where
    pub objects : Assoc (Option Obj)
    pub rollout : Option Rollout

  pub record Jsonnet : Type 0 where
    -- MakeVM with the external variables and the importer, and EvaluateAnonymousSnippet
    pub evaluate :
        Assoc String → (String → String → M World Imported) → String → String → M World String
    -- FileImporter under its search paths
    pub import_file : List String → String → String → M World Imported
    -- json.Unmarshal into `result`, and MarshalJSON of an object
    pub unmarshal : String → Outcome Generated
    pub marshal_object : Obj → Outcome String

  -- The loop over the objects, each of which is marshalled for the log; MarshalJSON reads through the
  -- pointer, so a nil object panics, and none gets into a render result.
  unfoldable pub check_objects : Jsonnet → Assoc (Option Obj) → Assoc Obj → Outcome (Assoc Obj)
  check_objects j [] objects = ok objects
  check_objects j ((k, none) ∷ us) objects = panic
  check_objects j ((k, some u) ∷ us) objects =
      chain (rewrap (wrap "marshal previously unmarshaled json: %w" []) (j.marshal_object u))
        (λ _. check_objects j us (insert k u objects))

  abbrev pub importer_for : Jsonnet → JsonnetRenderer → Option String → JsonnetImporter
  importer_for j r config = record {
    file_importer = j.import_file r.jpaths;
    config_content = config;
    sources = r.sources;
  }

  abbrev pub result_of : Jsonnet → Generated → Outcome (RenderResult env)
  result_of j res =
      chain (check_objects j res.objects [])
        (λ objects. ok (record { objects = objects; rollout = res.rollout }))

  unfoldable pub render_jsonnet :
      Jsonnet → JsonnetRenderer → Option String → M World (RenderResult env)
  render_jsonnet j r config = do
    main ←
        attempt (read_file r.entrypoint) pure
          (λ _. throw (text "could not read main jsonnet file: %s" (r.entrypoint ∷ [])))
    raw ←
        wrapping (mask "failed to evaluate: %v" [])
          (j.evaluate r.ext_strs (import_path (importer_for j r config)) r.entrypoint main)
    res ← wrapping (mask "failed to unmarshal generated json: %v" []) (lift (j.unmarshal raw))
    lift (result_of j res)
