-- ===== src/Cli/ExtStrs.antt =====
-- The external variables of jsonnet, from the arguments of cli/cli.go to the renderer of
-- render/jsonnet/jsonnet.go.
use locutus.Prelude.{String, ◌≡◌, sym, ap, ◌∙◌, List, [], ◌∷◌, ◌++◌, All, map}
use mathlib.Core.List.{append_assoc, append-nil}
use locutus.Outcome.{Outcome, ok, M, chain}
use locutus.Maps.{Assoc}
use locutus.Env.{Env}
use locutus.Render.Jsonnet.{JsonnetRenderer, new_jsonnet_renderer}
use locutus.Render.Jsonnet.Imports.{written, insert_all, PlainKey, parse_ext_strs-written}
use locutus.Cli.{Flags}
use locutus.Cli.Parsing.{FlagParsers, default_flags, set_flag, parse_flags}

-- `--renderer.jsonnet.ext-str` once for each value.
abbrev pub ext_str_arguments : List String → List (String × String)
ext_str_arguments values = map (λ v. ("renderer.jsonnet.ext-str", v)) values

abbrev with_ext_strs : List String → Flags → Flags
with_ext_strs values flags = record flags { renderer_jsonnet_ext_strs = values }

parse_flags-ext_strs :
    (ps : FlagParsers) (values : List String) (flags : Flags)
    → parse_flags ps (ext_str_arguments values) flags
      ≡ ok (with_ext_strs (flags.renderer_jsonnet_ext_strs ++ values) flags)
unfolding parse_flags set_flag
parse_flags-ext_strs ps [] flags =
    ap (λ l. ok (with_ext_strs l flags)) (sym (append-nil flags.renderer_jsonnet_ext_strs))
parse_flags-ext_strs ps (v ∷ values) flags =
    parse_flags-ext_strs ps values
      (with_ext_strs (flags.renderer_jsonnet_ext_strs ++ (v ∷ [])) flags)
    ∙ ap (λ l. ok (with_ext_strs l flags))
        (append_assoc flags.renderer_jsonnet_ext_strs (v ∷ []) values)

module _ (env : Env) (ps : FlagParsers) (sources : Assoc (M env.World String)) where
  abbrev pub renderer_of_flags : Flags → Outcome (JsonnetRenderer env)
  renderer_of_flags flags =
      new_jsonnet_renderer env flags.renderer_jsonnet_entrypoint sources
        flags.renderer_jsonnet_ext_strs flags.renderer_jsonnet_jpaths

  -- Arguments that give "key=value" to --renderer.jsonnet.ext-str once for each of some pairs,
  -- whose keys have no "=", make a jsonnet renderer with just those external variables, set in
  -- order, also where a value has an "="; its other fields are the defaults.
  pub parse_flags-written :
      (pairs : Assoc String)
      → All PlainKey pairs
      → chain (parse_flags ps (ext_str_arguments (written pairs)) default_flags) renderer_of_flags
        ≡ ok (record {
          entrypoint = "jsonnet/main.jsonnet";
          sources = sources;
          ext_strs = insert_all pairs [];
          jpaths = [];
        })
  unfolding new_jsonnet_renderer
  parse_flags-written pairs plain =
      rw (
        parse_flags-ext_strs ps (written pairs) default_flags,
        parse_ext_strs-written pairs [] plain,
      )
