-- ===== src/Cli/Wiring.antt =====
-- What Main of cli/cli.go ends up with.
use locutus.Cli.{
  Flags, ConfiguredTrigger, Outside, Wired, SourceMap, cli_client, resource_triggers,
  interval_triggers, open_connections, database_sources, database_triggers, chosen, some_triggers,
  renderer_for, wire_runner, wire,
}
use locutus.Prelude.{
  map, Bool, false, ◌≡◌, ◌≢◌, refl, sym, ap, ◌∙◌, subst, Option, some, List, [], ◌∷◌, ◌++◌,
}
use locutus.Outcome.{Outcome, ok, err, panic, lift, >>=-eq-ok}
use locutus.Maps.{Assoc, lookup, insert}
use locutus.Env.{Env, RestConfig}
use locutus.Db.{Connections}
use locutus.Rollout.Actions.{
  ObjectAction, create_or_update, create_if_not_exist, delete_if_exists, set_object_actions,
  default_object_actions,
}
use locutus.Rollout.Checks.{new_checks}
use locutus.Rollout.Checks.JobOom.{default_checks}
use locutus.Trigger.Resource.{Regexp}
use locutus.Cli.Kinds.{
  kind_of, by_resources, by_interval, by_database, asked_for, resource_triggers-kinds,
  database_triggers-kinds, configured-kinds, chosen-kinds,
}

map-nil : {A B : Type 0} (f : A → B) (xs : List A) → map f xs ≡ [] → xs ≡ []
map-nil f [] h = refl
map-nil f (x ∷ xs) h = absurd (cc h)

module _ (env : Env) (re : Regexp) (out : Outside env re) (flags : Flags) (cfg : RestConfig) where
  open env use {World}

  -- The steps of a Main that got as far as the listening.
  pub record Steps (w w' : World) (wired : Wired env re) : Type 0 where
    pub triggers : List (ConfiguredTrigger env re)
    pub configured : List (ConfiguredTrigger env re)
    pub of_kinds :
        map (kind_of env re) configured
        ≡ by_resources flags ++ by_interval flags ++ by_database flags
    pub conns : Option Connections
    pub sources_before : SourceMap env re
    pub sources : SourceMap env re
    pub w₁ : World
    pub w₂ : World
    pub w₃ : World
    pub w₄ : World
    pub opened : open_connections env re out flags w₁ ≡ (ok conns, w₂)
    pub sourced : database_sources env re out flags conns sources_before w₂ ≡ (ok sources, w₃)
    pub some_chosen :
        some_triggers env re out flags (chosen env re out flags configured) ≡ ok triggers
    pub ran :
        wire_runner env re out flags (cli_client env re cfg) conns sources triggers w₄
        ≡ (ok wired, w')

  pub wire-Steps :
      (w w' : World) (wired : Wired env re)
      → wire env re out flags cfg w ≡ (ok wired, w')
      → Steps w w' wired
  unfolding wire
  wire-Steps w w' wired h =
      let ((of_objects, resource_sources), v₁, made, h₂) =
        >>=-eq-ok (resource_triggers env re out flags (cli_client env re cfg)) _ w h in
      let (conns, v₂, opened, h₃) = >>=-eq-ok (open_connections env re out flags) _ v₁ h₂ in
      let (sources, v₃, sourced, h₄) =
        >>=-eq-ok (database_sources env re out flags conns resource_sources) _ v₂ h₃ in
      let (of_rows, v₄, made', h₅) = >>=-eq-ok (database_triggers env re out flags conns) _ v₃ h₄ in
      let of_time = interval_triggers env re out flags in
      let configured = of_objects ++ of_time ++ of_rows in
      let (triggers, v₅, picked, ran) =
        >>=-eq-ok (lift (some_triggers env re out flags (chosen env re out flags configured))) _ v₄
          h₅ in
      record {
        triggers = triggers;
        configured = configured;
        of_kinds =
            configured-kinds env re out flags of_objects of_rows
              (resource_triggers-kinds env re out flags (cli_client env re cfg) w v₁ of_objects
                resource_sources made)
              (database_triggers-kinds env re out flags conns v₃ v₄ of_rows made');
        conns = conns;
        sources_before = resource_sources;
        sources = sources;
        w₁ = v₁;
        w₂ = v₂;
        w₃ = v₃;
        w₄ = v₅;
        opened = opened;
        sourced = sourced;
        some_chosen = ap (λ x. x.0) picked;
        ran = ran;
      }

  -- The actions that the runner knows.
  pub record KnowsActions (actions : Assoc (ObjectAction env)) : Type 0 where
    pub creates_or_updates :
        lookup "CreateOrUpdate" actions
        ≡ some (record { action_name = "CreateOrUpdate"; execute = create_or_update env })
    pub creates :
        lookup "CreateIfNotExist" actions
        ≡ some (record { action_name = "CreateIfNotExist"; execute = create_if_not_exist env })
    pub deletes :
        lookup "DeleteIfExist" actions
        ≡ some (record { action_name = "DeleteIfExist"; execute = delete_if_exists env })

  default-KnowsActions : KnowsActions (set_object_actions env (default_object_actions env) [])
  unfolding set_object_actions lookup insert
  default-KnowsActions = record { creates_or_updates = refl; creates = refl; deletes = refl }

  wire_runner-wired :
      (conns : Option Connections) (sources : SourceMap env re)
      (triggers : List (ConfiguredTrigger env re)) (w w' : World) (wired : Wired env re)
      → wire_runner env re out flags (cli_client env re cfg) conns sources triggers w
        ≡ (ok wired, w')
      → (triggers ≡ wired.triggers)
        × KnowsActions wired.runner.actions
        × (wired.runner.render_only ≡ flags.render_only)
  wire_runner-wired conns sources triggers w w' wired h =
      let (_, v₁, _, h₁) = >>=-eq-ok (lift (renderer_for env re out flags sources)) _ w h in
      let (_, v₂, _, last) =
        >>=-eq-ok (lift (new_checks env (cli_client env re cfg) conns (default_checks env))) _ v₁
          h₁ in
      let made = ap (λ x. x.0) last in
      (
        ap (λ o. triggers_of o) made,
        subst KnowsActions (ap (λ o. actions_of o) made) default-KnowsActions,
        sym (ap (λ o. render_only_of o) made),
      )
    where
      triggers_of : Outcome (Wired env re) → List (ConfiguredTrigger env re)
      triggers_of (ok x) = x.triggers
      triggers_of (err _) = []
      triggers_of panic = []

      actions_of : Outcome (Wired env re) → Assoc (ObjectAction env)
      actions_of (ok x) = x.runner.actions
      actions_of (err _) = []
      actions_of panic = []

      render_only_of : Outcome (Wired env re) → Bool
      render_only_of (ok x) = x.runner.render_only
      render_only_of (err _) = false
      render_only_of panic = false

  chosen-some :
      (ts triggers : List (ConfiguredTrigger env re))
      → some_triggers env re out flags ts ≡ ok triggers
      → (ts ≡ triggers) × (triggers ≢ [])
  chosen-some [] triggers h = cc
  chosen-some (t ∷ ts) triggers h = let same : t ∷ ts ≡ triggers = cc in (same, λ e. cc)

  -- Where the wiring of Main succeeds, its triggers are of the kinds that the flags ask for, in
  -- order (with one-off, that alone), and there is at least one; the runner knows the three default
  -- actions under their names, and is render-only just if the flag says so.
  pub wire-wired :
      (w w' : World) (wired : Wired env re)
      → wire env re out flags cfg w ≡ (ok wired, w')
      → (map (kind_of env re) wired.triggers ≡ asked_for flags)
        × (asked_for flags ≢ [])
        × KnowsActions wired.runner.actions
        × (wired.runner.render_only ≡ flags.render_only)
  wire-wired w w' wired h =
      let s = wire-Steps w w' wired h in
      let (same, knows, only) =
        wire_runner-wired s.conns s.sources s.triggers s.w₄ w' wired s.ran in
      let (chose, nonempty) =
        chosen-some (chosen env re out flags s.configured) s.triggers s.some_chosen in
      let kinds : map (kind_of env re) wired.triggers ≡ asked_for flags =
        ap (map (kind_of env re)) (sym same ∙ sym chose)
        ∙ chosen-kinds env re out flags s.configured s.of_kinds in
      (
        kinds,
        λ e.
            nonempty
              (map-nil (kind_of env re) s.triggers (ap (map (kind_of env re)) same ∙ kinds ∙ e)),
        knows,
        only,
      )
