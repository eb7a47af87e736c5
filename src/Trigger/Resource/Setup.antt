-- ===== src/Trigger/Resource/Setup.antt =====
-- trigger/resource/resource.go: NewTrigger and InputSources. The decoder of the configuration, and
-- what an informer lists, are parameters.
use Prim.Native.String.{◌++◌}
use locutus.Trigger.Resource.{
  Regexp, KeyTransformationConfig, KeyTransformation, new_key_transformations,
}
use locutus.Prelude.{none, String, Bool, Option, List, [], ◌∷◌}
use locutus.Outcome.{wrap, Outcome, M, pure, lift, wrapping, ◌>>=◌}
use locutus.Maps.{Assoc, lookup, insert}
use locutus.Env.{Env}
use locutus.Client.{Client, ResourceClient, client_for}

pub record ResourceTriggerConfig : Type 0 where
  pub name : String
  pub kind : String
  pub api_version : String
  pub namespace : String
  -- the labels to match, if the selector has any
  pub match_labels : Option (Assoc String)
  pub key_transformation_configs : List KeyTransformationConfig

pub record ResourcesTriggerConfig : Type 0 where
  pub main_resource : String
  pub resources : List ResourceTriggerConfig

module _ (env : Env) (re : Regexp) where
  open env use {World, read_file}

  -- The client of an informer, and the transformations of its handlers.
  pub record Informer : Type 0 where
    pub client : ResourceClient env
    pub key_transformations : List (KeyTransformation re)

  abbrev pub kind_and_version : ResourceTriggerConfig → List String
  kind_and_version r = r.kind ∷ r.api_version ∷ []

  unfoldable pub new_informer : Client env → ResourceTriggerConfig → M World Informer
  new_informer client r = do
    c ←
        wrapping (wrap "failed to create client for %s in %s" (kind_and_version r))
          (client_for env client r.api_version r.kind r.namespace)
    ts ←
        wrapping (wrap "failed to create resource handlers for %s in %s" (kind_and_version r))
          (lift (new_key_transformations re r.key_transformation_configs))
    pure (record { client = c; key_transformations = ts })

  -- the loop of NewTrigger
  unfoldable pub new_informers :
      Client env → List ResourceTriggerConfig → Assoc Informer → M World (Assoc Informer)
  new_informers client [] infs = pure infs
  new_informers client (r ∷ rs) infs =
      new_informer client r >>= λ inf. new_informers client rs (insert r.name inf infs)

  -- The functions that list and watch read the variable of the loop, which the module, being of Go
  -- 1.18, has once: behind the loop it holds the last resource, for every informer.
  abbrev pub listed_labels :
      Option (Assoc String) → List ResourceTriggerConfig → Option (Assoc String)
  listed_labels labels [] = labels
  listed_labels labels (r ∷ rs) = listed_labels r.match_labels rs

  -- Of the trigger, what NewTrigger works out. Without a resource of the main name `inf` is nil.
  pub record ResourceSetup : Type 0 where
    pub infs : Assoc Informer
    pub match_labels : Option (Assoc String)
    pub inf : Option Informer
    pub write_status : Bool

  unfoldable pub new_resource_trigger :
      (String → Outcome ResourcesTriggerConfig) → Client env → String → Bool → M World ResourceSetup
  new_resource_trigger decode client file write_status = do
    contents ← wrapping (wrap "failed to open config file" []) (read_file file)
    config ← wrapping (wrap "failed to parse config file" []) (lift (decode contents))
    infs ← new_informers client config.resources []
    pure (record {
      infs = infs;
      match_labels = listed_labels none config.resources;
      inf = lookup config.main_resource infs;
      write_status = write_status;
    })

  -- InputSources: what each informer's store lists, as JSON, which is what the informer lists by the
  -- labels
  unfoldable pub informer_sources :
      (Option (Assoc String) → Informer → M World String)
      → Option (Assoc String)
      → Assoc Informer
      → Assoc (M World String)
      → Assoc (M World String)
  informer_sources list_store labels [] res = res
  informer_sources list_store labels ((name, inf) ∷ infs) res =
      informer_sources list_store labels infs (insert (name ++ "/list") (list_store labels inf) res)
