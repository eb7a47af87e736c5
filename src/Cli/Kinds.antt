-- ===== src/Cli/Kinds.antt =====
-- Which kinds of trigger Main of cli/cli.go makes, by the flags.
use locutus.Cli.{
  Flags, ConfiguredTrigger, one_off_trigger, resource_trigger, interval_trigger, database_trigger,
  Outside, SourceMap, resource_triggers, interval_triggers, database_triggers, chosen,
}
use locutus.Prelude.{
  is_positive, map, ◌≡◌, ap, ◌∙◌, inl, inr, Option, List, [], ◌∷◌, ◌++◌, ◌==◌, if◌then◌else◌,
  Bool-cases,
}
use mathlib.Core.List.{map-append}
use locutus.Outcome.{ok, >>=-eq-ok}
use locutus.Env.{Env}
use locutus.Client.{Client}
use locutus.Db.{Connections}
use locutus.Trigger.Database.Query.{new_database_trigger}
use locutus.Trigger.Resource.{Regexp}
use locutus.Trigger.Resource.Setup.{new_resource_trigger}

-- What a trigger is, without what it holds.
pub data TriggerKind : Type 0 where
  of_resources of_interval of_database of_one_off : TriggerKind

module _ (env : Env) (re : Regexp) where
  abbrev pub kind_of : ConfiguredTrigger env re → TriggerKind
  kind_of (resource_trigger _) = of_resources
  kind_of (interval_trigger _) = of_interval
  kind_of (database_trigger _ _ _) = of_database
  kind_of one_off_trigger = of_one_off

-- The triggers that the flags ask for, one-off aside, in the order in which Main makes them.
abbrev pub by_resources : Flags → List TriggerKind
by_resources flags = if flags.trigger_resource_config == "" then [] else of_resources ∷ []

abbrev pub by_interval : Flags → List TriggerKind
by_interval flags = if is_positive flags.trigger_interval_duration then of_interval ∷ [] else []

abbrev pub by_database : Flags → List TriggerKind
by_database flags = if flags.trigger_database_config == "" then [] else of_database ∷ []

abbrev pub asked_for : Flags → List TriggerKind
asked_for flags =
    if flags.one_off
    then of_one_off ∷ []
    else by_resources flags ++ by_interval flags ++ by_database flags

module _ (env : Env) (re : Regexp) (out : Outside env re) (flags : Flags) where
  open env use {World}

  pub resource_triggers-kinds :
      (cl : Client env) (w w' : World) (ts : List (ConfiguredTrigger env re))
      (more : SourceMap env re)
      → resource_triggers env re out flags cl w ≡ (ok (ts, more), w')
      → map (kind_of env re) ts ≡ by_resources flags
  resource_triggers-kinds cl w w' ts more h =
      elim (Bool-cases (flags.trigger_resource_config == "")) [
        | inl unset ↦ let none_made : [] ≡ ts = cc (rw unset at h) in rw (unset, ← none_made)
        | inr set ↦
            let (t, v, _, last) =
              >>=-eq-ok
                (new_resource_trigger env re out.decode_resources cl flags.trigger_resource_config
                  flags.write_status)
                _ w (rw set at h) in
            let made : resource_trigger t ∷ [] ≡ ts = cc last in rw (set, ← made)
      ]

  interval_triggers-kinds :
      map (kind_of env re) (interval_triggers env re out flags) ≡ by_interval flags
  interval_triggers-kinds = elim (Bool-cases (is_positive flags.trigger_interval_duration)) [
    | inl unset ↦ rw unset
    | inr set ↦ rw set
  ]

  pub database_triggers-kinds :
      (conns : Option Connections) (w w' : World) (ts : List (ConfiguredTrigger env re))
      → database_triggers env re out flags conns w ≡ (ok ts, w')
      → map (kind_of env re) ts ≡ by_database flags
  database_triggers-kinds conns w w' ts h =
      elim (Bool-cases (flags.trigger_database_config == "")) [
        | inl unset ↦ let none_made : [] ≡ ts = cc (rw unset at h) in rw (unset, ← none_made)
        | inr set ↦
            let (t, v, _, last) =
              >>=-eq-ok (new_database_trigger env out.decode_triggers flags.trigger_database_config)
                _ w (rw set at h) in
            let made : database_trigger conns t.0 t.1 ∷ [] ≡ ts = cc last in rw (set, ← made)
      ]

  pub configured-kinds :
      (of_objects of_rows : List (ConfiguredTrigger env re))
      → map (kind_of env re) of_objects ≡ by_resources flags
      → map (kind_of env re) of_rows ≡ by_database flags
      → map (kind_of env re) (of_objects ++ interval_triggers env re out flags ++ of_rows)
        ≡ by_resources flags ++ by_interval flags ++ by_database flags
  configured-kinds of_objects of_rows h h' =
      map-append (kind_of env re) (of_objects ++ interval_triggers env re out flags) of_rows
      ∙ ap (λ ks. ks ++ map (kind_of env re) of_rows)
          (map-append (kind_of env re) of_objects (interval_triggers env re out flags)
            ∙ ap (λ ks. ks ++ map (kind_of env re) (interval_triggers env re out flags)) h
            ∙ ap (λ ks. by_resources flags ++ ks) interval_triggers-kinds)
      ∙ ap (λ ks. by_resources flags ++ by_interval flags ++ ks) h'

  pub chosen-kinds :
      (ts : List (ConfiguredTrigger env re))
      → map (kind_of env re) ts ≡ by_resources flags ++ by_interval flags ++ by_database flags
      → map (kind_of env re) (chosen env re out flags ts) ≡ asked_for flags
  chosen-kinds ts h = elim (Bool-cases flags.one_off) [ inl set ↦ rw set | inr unset ↦ rw unset h ]
