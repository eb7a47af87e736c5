-- ===== src/Client/Discovery.antt =====
-- client/client.go: `Client`, `ClientFor`, `ResourceClient` and `UpdateWithCurrent`.
use locutus.Client.Defaults.{UpdatePreparation, UpdateCheck}
use locutus.Prelude.{
  String, Bool, true, false, ◌&&◌, Option, none, some, List, [], ◌∷◌, ◌==◌, if◌then◌else◌,
}
use locutus.Outcome.{Outcome, ok, err, panic, M, pure, lift, wrap, wrapping, ◌>>=◌, ◌>>◌}
use locutus.Env.{Env, GroupVersion, RestConfig, ApiResource, Endpoint}

-- The name of the first resource of a kind; the empty string if there is none.
unfoldable pub resource_name : String → List ApiResource → String
resource_name kind [] = ""
resource_name kind (r ∷ rs) = if r.kind == kind then r.name else resource_name kind rs

module _ (env : Env) where
  open env use {
    World, Obj, api_version, kind, namespace, name, resource_version, set_resource_version,
    server_resources, parse_group_version, new_dynamic, update,
  }

  pub record Client : Type 0 where
    pub cfg : RestConfig
    pub update_preparations : List (UpdatePreparation env)
    pub update_checks : List (UpdateCheck env)

  pub record ResourceClient : Type 0 where
    pub endpoint : Endpoint
    pub update_preparations : List (UpdatePreparation env)
    pub update_checks : List (UpdateCheck env)

  abbrev pub new_client : RestConfig → Client
  new_client cfg = record { cfg = cfg; update_preparations = []; update_checks = [] }

  abbrev pub set_update_preparations : Client → List (UpdatePreparation env) → Client
  set_update_preparations c ps = record c { update_preparations = ps }

  abbrev pub set_update_checks : Client → List (UpdateCheck env) → Client
  set_update_checks c cs = record c { update_checks = cs }

  -- The core group is served under another path than every other group.
  abbrev pub path_for : GroupVersion → String
  path_for gv = if gv.group == "" && gv.version == "v1" then "/api" else "/apis"

  unfoldable pub set_config_defaults : String → RestConfig → Outcome RestConfig
  set_config_defaults group_version config = elim (parse_group_version group_version) [
    | ok gv ↦ ok (record config { group_version = some gv; api_path = path_for gv })
    | err e ↦ err e
    | panic ↦ panic
  ]

  unfoldable pub new_for_config : String → RestConfig → M World RestConfig
  unfolding set_config_defaults
  new_for_config group_version c = do
    config ← lift (set_config_defaults group_version c)
    lift (new_dynamic config)
    pure config

  unfoldable pub client_for : Client → String → String → String → M World ResourceClient
  unfolding new_for_config resource_name
  client_for c apiversion kind namespace = do
    list ←
        wrapping
          (wrap "discovering resource information failed for %s in %s" (kind ∷ apiversion ∷ []))
          (server_resources apiversion)
    let of_group = list.group_version ∷ []
    config ←
        wrapping (wrap "creating dynamic client failed for %s" of_group)
          (new_for_config list.group_version c.cfg)
    gv ←
        wrapping (wrap "parsing GroupVersion failed %s" of_group)
          (lift (parse_group_version list.group_version))
    pure (record {
      endpoint = record {
        config = config;
        resource = record {
          group = gv.group;
          version = gv.version;
          resource = resource_name kind list.resources;
        };
        namespace = namespace;
      };
      update_preparations = c.update_preparations;
      update_checks = c.update_checks;
    })

  unfoldable pub client_for_unstructured : Client → Obj → M World ResourceClient
  client_for_unstructured c u = client_for c (api_version u) (kind u) (namespace u)

  -- the loop over `rc.updatePreparations`
  unfoldable pub prepare_all : List (UpdatePreparation env) → Obj → M Obj (Unit {0})
  prepare_all [] current = pure tt
  prepare_all (p ∷ ps) current = p current >> prepare_all ps current

  unfoldable pub prepare_unstructured_for_update : ResourceClient → Obj → M Obj (Unit {0})
  unfolding prepare_all
  prepare_unstructured_for_update rc current updated =
      prepare_all rc.update_preparations current
        (set_resource_version updated (resource_version current))

  -- the loop over `rc.updateChecks`
  unfoldable pub check_all : List (UpdateCheck env) → Obj → Obj → Outcome Bool
  check_all [] current updated = ok true
  check_all (p ∷ ps) current updated = elim (p current updated) [
    | ok true ↦ check_all ps current updated
    | ok false ↦ ok false
    | err e ↦ err e
    | panic ↦ panic
  ]

  unfoldable pub check_unstructured_for_update : ResourceClient → Obj → Obj → Outcome Bool
  unfolding check_all
  check_unstructured_for_update rc = check_all rc.update_checks

  -- A step on the object at hand alone, and one on the world alone.
  abbrev pub on_object : {A : Type 0} → M Obj A → M (World × Obj) A
  on_object m (w, u) = let (o, u') = m u in (o, (w, u'))

  abbrev pub on_world : {A : Type 0} → M World A → M (World × Obj) A
  on_world m (w, u) = let (o, w') = m w in (o, (w', u))

  abbrev pub this : M (World × Obj) Obj
  this (w, u) = (ok u, (w, u))

  abbrev pub send_if : Endpoint → Bool → M (World × Obj) (Option Obj)
  send_if endpoint false = pure none
  send_if endpoint true = do u ← this; o ← on_world (update endpoint u); pure (some o)

  -- what follows the preparations
  abbrev pub send_checked : ResourceClient → Obj → M (World × Obj) (Option Obj)
  send_checked rc current = do
    u ← this
    need_update ← lift (check_unstructured_for_update rc current u)
    send_if rc.endpoint need_update

  -- The object at hand is `updated`; the answer is none where no request was sent.
  unfoldable pub update_with_current : ResourceClient → Obj → M (World × Obj) (Option Obj)
  update_with_current rc current =
      on_object (prepare_unstructured_for_update rc current) >> send_checked rc current
