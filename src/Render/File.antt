-- ===== src/Render/File.antt =====
-- render/file/file.go. The walk of the directory and the decoders are parameters.
pub mod Walked
use locutus.Render.Texts.{trim_prefix}
use locutus.Prelude.{String, Bool, Option, none, some, List, [], ◌∷◌, if◌then◌else◌}
use locutus.Outcome.{Error, Outcome, ok, M, pure, throw, lift, ◌>>=◌, ◌>>◌}
use locutus.Maps.{Assoc, insert}
use locutus.Env.{Env}
use locutus.Rollout.Types.{Rollout, RenderResult}

-- A call of the function that filepath.Walk is given: a path with an error, or with the
-- information whether it is a directory.
pub data Visit : Type 0 where
  failed : String → Error → Visit
  directory : String → Visit
  file : String → Visit

module _ (env : Env) where
  open env use {World, Obj, read_file}

  pub record FileRenderer : Type 0 where
    pub directory : String
    pub rollout_file : String

  pub record Decoders : Type 0 where
    pub walk : String → M World (List Visit)
    pub decode_object : String → Outcome Obj
    pub decode_rollout : String → Outcome Rollout

  -- the end of the function of Walk, at a file
  abbrev pub render_object : Decoders → String → String → Assoc Obj → M World (Assoc Obj)
  render_object d dir path objects = do
    contents ← read_file path
    u ← lift (d.decode_object contents)
    pure (insert (trim_prefix path dir) u objects)

  -- Walk ends at the first error of its function.
  unfoldable pub render_visits : Decoders → String → List Visit → Assoc Obj → M World (Assoc Obj)
  render_visits d dir [] objects = pure objects
  render_visits d dir (failed path e ∷ visits) objects = throw e
  render_visits d dir (directory path ∷ visits) objects = render_visits d dir visits objects
  render_visits d dir (file path ∷ visits) objects =
      render_object d dir path objects >>= λ more. render_visits d dir visits more

  unfoldable pub render_files : Decoders → FileRenderer → M World (RenderResult env)
  render_files d r = do
    visits ← d.walk r.directory
    objects ← render_visits d r.directory visits []
    contents ← read_file r.rollout_file
    rollout ← lift (d.decode_rollout contents)
    pure (record { objects = objects; rollout = some rollout })
