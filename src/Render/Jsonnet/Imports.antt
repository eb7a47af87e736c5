-- ===== src/Render/Jsonnet/Imports.antt =====
-- What a jsonnet program of render/jsonnet/jsonnet.go can import, and what is left of its result.
use Prim.Native.String.{◌++◌}
use locutus.Render.Texts.{strip_prefix, split_once-append, has_equals}
use locutus.Render.Jsonnet.{
  parse_ext_strs, virtual_config_path, runtime_prefix, Imported, Generated, Jsonnet,
  JsonnetRenderer, config_text,
}
use locutus.Prelude.{String, false, ◌≡◌, ◌≢◌, refl, Option, none, some, List, [], ◌∷◌, All}
use locutus.Outcome.{Outcome, ok, M, pure, ◌>>=◌}
use locutus.Maps.{Assoc, lookup, insert}
use locutus.Env.{Env}
use locutus.Rollout.Types.{Rollout, RenderResult}

-- The flags of these pairs.
abbrev pub written : Assoc String → List String
written [] = []
written (p ∷ ps) = (p.0 ++ ("=" ++ p.1)) ∷ written ps

abbrev pub insert_all : Assoc String → Assoc String → Assoc String
insert_all [] strs = strs
insert_all (p ∷ ps) strs = insert_all ps (insert p.0 p.1 strs)

abbrev pub PlainKey : String × String → Type 0
PlainKey p = has_equals p.0 ≡ false

-- Flags "key=value" whose keys have no "=" are parsed to just those keys and values, which are set
-- in order on top of those so far, also where a value has an "=".
pub parse_ext_strs-written :
    (pairs strs : Assoc String)
    → All PlainKey pairs
    → parse_ext_strs (written pairs) strs ≡ ok (insert_all pairs strs)
unfolding parse_ext_strs
parse_ext_strs-written [] strs h = refl
parse_ext_strs-written (p ∷ pairs) strs h =
    rw (split_once-append p.0 p.1 h.0) (parse_ext_strs-written pairs (insert p.0 p.1 strs) h.1)

module _ (env : Env) where
  open env use {World, Obj}

  module _ (j : Jsonnet env) where
    abbrev pub Marshals : String × Option Obj → Type 0
    Marshals p = (u : Obj) × (s : String) × (p.1 ≡ some u) × (j.marshal_object u ≡ ok s)

    -- What a program can import: the configuration under the name of the virtual file, the text of a
    -- source under its name behind the prefix, and a file under any other path.
    pub record Importing (r : JsonnetRenderer env) (config : Option String)
        (importer : String → String → M World (Imported env)) : Type 0 where
      pub gives_config :
          (dir : String) (w : World)
          → importer dir virtual_config_path w
            ≡ (ok (config_text env config, virtual_config_path), w)
      pub gives_source :
          (dir name : String) (w : World)
          → importer dir (runtime_prefix ++ name) w
            ≡ elim (lookup name r.sources) as (λ _. Outcome (Imported env) × World) [
              | none ↦ j.import_file r.jpaths dir (runtime_prefix ++ name) w
              | some f ↦ (f >>= λ contents. pure (contents, runtime_prefix ++ name)) w
            ]
      pub gives_file :
          (dir path : String) (w : World)
          → path ≢ virtual_config_path
          → strip_prefix runtime_prefix path ≡ none
          → importer dir path w ≡ j.import_file r.jpaths dir path w

    -- The program was read and evaluated, and its result decoded.
    pub record Evaluated (r : JsonnetRenderer env) (config : Option String) (w w' : World)
        (g : Generated env) : Type 0 where
      pub main : String
      pub raw : String
      pub read_at : World
      pub importer : String → String → M World (Imported env)
      pub imports : Importing r config importer
      pub was_read : env.read_file r.entrypoint w ≡ (ok main, read_at)
      pub was_evaluated : j.evaluate r.ext_strs importer r.entrypoint main read_at ≡ (ok raw, w')
      pub decoded : j.unmarshal raw ≡ ok g

    -- No two objects have one name.
    abbrev pub KeysOnce : Assoc (Option Obj) → Type 0
    KeysOnce [] = Unit
    KeysOnce (p ∷ us) = (lookup p.0 us ≡ none) × KeysOnce us

    abbrev pub IsThere : Assoc Obj → String × Option Obj → Type 0
    IsThere objects p = lookup p.0 objects ≡ p.1

    -- What the result of a rendering has of the decoded result of the program.
    pub record Renders (g : Generated env) (result : RenderResult env) : Type 0 where
      pub rollout : result.rollout ≡ g.rollout
      pub marshals : All Marshals g.objects
      pub there : All (IsThere result.objects) g.objects
