-- ===== src/Client/Defaults.antt =====
-- client/client.go: the preparations and the check that the program installs.
use locutus.Prelude.{
  String, Bool, true, false, ◌&&◌, ◌||◌, Option, none, some, List, [], ◌∷◌, ◌==◌, if◌then◌else◌,
}
use locutus.Outcome.{Outcome, ok, err, panic, M, lift, ◌>>=◌}
use locutus.Maps.{Assoc, lookup, insert}
use locutus.Env.{Env, ObjectMeta}

abbrev pub cluster_ip_path : List String
cluster_ip_path = "spec" ∷ "clusterIP" ∷ []

abbrev pub deployment_revision_annotation : String
deployment_revision_annotation = "deployment.kubernetes.io/revision"

-- Two fallible values in turn, and a function of them.
abbrev pub map_ok2 : {A B : Type 0} → (A → A → B) → Outcome A → Outcome A → Outcome B
map_ok2 f (ok a) (ok b) = ok (f a b)
map_ok2 f (ok a) (err e) = err e
map_ok2 f (ok a) panic = panic
map_ok2 f (err e) _ = err e
map_ok2 f panic _ = panic

-- m[k] of a map of strings: the empty string where there is no entry.
abbrev pub string_at : String → Assoc String → String
string_at k m = elim (lookup k m) [ none ↦ "" | some v ↦ v ]

abbrev pub or_empty : Option (Assoc String) → Assoc String
or_empty none = []
or_empty (some m) = m

module _ (env : Env) where
  open env use {
    Obj, api_version, kind, annotations, set_annotations, nested_string, set_nested_string,
    marshal_json, unmarshal_service_account, equate,
  }

  -- Prepare(current, updated), which may change `updated`, its state.
  abbrev pub UpdatePreparation : Type 0
  UpdatePreparation = Obj → M Obj (Unit {0})

  -- Check(current, updated): whether to send the update.
  abbrev pub UpdateCheck : Type 0
  UpdateCheck = Obj → Obj → Outcome Bool

  -- Assigns what a library function makes of the object, unless it fails.
  abbrev pub assign : Outcome Obj → M Obj (Unit {0})
  assign (ok o) _ = (ok tt, o)
  assign (err e) updated = (err e, updated)
  assign panic updated = (panic, updated)

  abbrev pub set_cluster_ip : Option String → M Obj (Unit {0})
  set_cluster_ip none updated = (ok tt, updated)
  set_cluster_ip (some ip) updated = assign (set_nested_string updated ip cluster_ip_path) updated

  abbrev pub is_service : Obj → Bool
  is_service o = api_version o == "v1" && kind o == "Service"

  unfoldable pub prepare_service_for_update : UpdatePreparation
  prepare_service_for_update current updated =
      if is_service updated
      then (lift (nested_string current cluster_ip_path) >>= set_cluster_ip) updated
      else (ok tt, updated)

  abbrev pub is_deployment : Obj → Bool
  is_deployment o =
      (api_version o == "apps/v1" || api_version o == "v1beta2") && kind o == "Deployment"

  abbrev pub copy_revision : Option (Assoc String) → M Obj (Unit {0})
  copy_revision none updated = (ok tt, updated)
  copy_revision (some cur) updated =
      let revision = string_at deployment_revision_annotation cur in
      (
        ok tt,
        set_annotations updated
            (insert deployment_revision_annotation revision (or_empty (annotations updated))),
      )

  unfoldable pub prepare_deployment_for_update : UpdatePreparation
  prepare_deployment_for_update current updated =
      if is_deployment updated
      then copy_revision (annotations current) updated
      else (ok tt, updated)

  abbrev pub is_service_account : Obj → Bool
  is_service_account o = api_version o == "v1" && kind o == "ServiceAccount"

  -- Whether two sets of metadata differ in what the check looks at.
  abbrev pub meta_differs : ObjectMeta → ObjectMeta → Bool
  meta_differs old new =
      if old.name == new.name
        && old.namespace == new.namespace
        && equate old.labels new.labels
        && equate old.annotations new.annotations
      then false
      else true

  unfoldable pub check_service_account_for_update : UpdateCheck
  check_service_account_for_update current updated =
      if is_service_account updated
      then map_ok2 meta_differs (unmarshal_service_account (marshal_json current))
          (unmarshal_service_account (marshal_json updated))
      else ok true

  abbrev pub default_update_preparations : List UpdatePreparation
  default_update_preparations = prepare_service_for_update ∷ prepare_deployment_for_update ∷ []

  abbrev pub default_update_checks : List UpdateCheck
  default_update_checks = check_service_account_for_update ∷ []
