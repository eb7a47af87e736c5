-- ===== src/Client/Carrying.antt =====
-- What the default preparations and the check of client/client.go carry from the object in the
-- cluster to the one that is sent.
use locutus.Client.Defaults.{
  cluster_ip_path, deployment_revision_annotation, string_at, or_empty, is_service, is_deployment,
  prepare_service_for_update, prepare_deployment_for_update, default_update_preparations, assign,
  copy_revision,
}
use locutus.Client.Discovery.{prepare_all}
use locutus.Prelude.{
  String, Bool, true, false, ◌&&◌, ◌||◌, ◌≡◌, ◌≢◌, refl, sym, ap, ◌∙◌, subst, ◌⊎◌, inl, inr, some,
  arith, eq_iff, ◌==◌, if◌then◌else◌,
}
use locutus.Outcome.{Outcome, ok, err, panic}
use locutus.Maps.{Assoc, lookup, lookup-insert}
use locutus.Env.{Env}
use locutus.Env.Laws.{Accessors}

-- An object has one kind.
service_is_no_deployment : (k : String) → (k == "Service") ≡ true → (k == "Deployment") ≡ false
service_is_no_deployment k h =
    subst (λ x. (x == "Deployment") ≡ false) (sym ((eq_iff k "Service").0 h)) refl

deployment_is_no_service : (k : String) → (k == "Deployment") ≡ true → (k == "Service") ≡ false
deployment_is_no_service k h =
    subst (λ x. (x == "Service") ≡ false) (sym ((eq_iff k "Deployment").0 h)) refl

pub and_true_right : (a b : Bool) → (a && b) ≡ true → b ≡ true
and_true_right a b h = ground arith

and_false_right : (a b : Bool) → b ≡ false → (a && b) ≡ false
and_false_right a b h = ground arith

module _ (env : Env) where
  open env use {
    World, Obj, api_version, kind, annotations, nested_string, set_nested_string, marshal_json,
    unmarshal_service_account,
  }

  prepare_service-service :
      (current updated : Obj) (ip : String)
      → is_service env updated ≡ true
      → nested_string current cluster_ip_path ≡ ok (some ip)
      → prepare_service_for_update env current updated
        ≡ assign env (set_nested_string updated ip cluster_ip_path) updated
  unfolding prepare_service_for_update
  prepare_service-service current updated ip s c = rw (s, c)

  pub prepare_service-other :
      (current updated : Obj)
      → (kind updated == "Service") ≡ false
      → prepare_service_for_update env current updated ≡ (ok tt, updated)
  unfolding prepare_service_for_update
  prepare_service-other current updated h = rw (and_false_right (api_version updated == "v1") _ h)

  pub prepare_deployment-other :
      (current updated : Obj)
      → (kind updated == "Deployment") ≡ false
      → prepare_deployment_for_update env current updated ≡ (ok tt, updated)
  unfolding prepare_deployment_for_update
  prepare_deployment-other current updated h =
      rw
        (and_false_right (api_version updated == "apps/v1" || api_version updated == "v1beta2") _ h)

  deployment_kind :
      (current updated : Obj)
      → is_deployment env updated ≡ true
      → (kind updated == "Service") ≡ false
  deployment_kind current updated d = deployment_is_no_service (kind updated) (
      and_true_right (api_version updated == "apps/v1" || api_version updated == "v1beta2")
        (kind updated == "Deployment") d)

  prepare_deployment-deployment :
      (current updated : Obj)
      → is_deployment env updated ≡ true
      → prepare_deployment_for_update env current updated
        ≡ copy_revision env (annotations current) updated
  unfolding prepare_deployment_for_update
  prepare_deployment-deployment current updated h = rw h

  abbrev prepared : Obj → Obj → Outcome (Unit {0}) × Obj
  prepared current updated = prepare_all env (default_update_preparations env) current updated

  prepared-service :
      (current updated : Obj) (o : Obj)
      → prepare_service_for_update env current updated ≡ (ok tt, o)
      → (kind o == "Deployment") ≡ false
      → prepared current updated ≡ (ok tt, o)
  unfolding prepare_all
  prepared-service current updated o e k = rw (e, prepare_deployment-other current o k)

  prepared-failed :
      (current updated : Obj)
      → (prepare_service_for_update env current updated).0 ≢ ok tt
      → (prepared current updated).0 ≢ ok tt
  unfolding prepare_all
  prepared-failed current updated h = ground arith

  prepared-deployment :
      (current updated : Obj) (cur : Assoc String)
      → is_deployment env updated ≡ true
      → annotations current ≡ some cur
      → prepared current updated ≡ copy_revision env (some cur) updated
  unfolding prepare_all
  prepared-deployment current updated cur d c = rw (
    prepare_service-other current updated (deployment_kind current updated d),
    prepare_deployment-deployment current updated d,
    c,
  )

  assign_cases :
      (o : Outcome Obj) (u : Obj) → ((o' : Obj) × (o ≡ ok o')) ⊎ ((assign env o u).0 ≢ ok tt)
  assign_cases (ok o) u = inl (o, refl)
  assign_cases (err e) u = inr (λ h. cc)
  assign_cases panic u = inr (λ h. cc)

  module _ (laws : Accessors env) where
    -- Where the default preparations of an updated Service succeed, and the one in the cluster has
    -- a cluster IP, the object to send has that cluster IP.
    pub prepare_all-service :
        (current updated : Obj) (ip : String)
        → is_service env updated ≡ true
        → nested_string current cluster_ip_path ≡ ok (some ip)
        → (prepare_all env (default_update_preparations env) current updated).0 ≡ ok tt
        → nested_string
            (prepare_all env (default_update_preparations env) current updated).1
            cluster_ip_path
          ≡ ok (some ip)
    prepare_all-service current updated ip s c done =
        let set = set_nested_string updated ip cluster_ip_path in
        let first = prepare_service-service current updated ip s c in
        elim (assign_cases set updated) [
          | inl (o, e) ↦
              let k : (kind o == "Deployment") ≡ false =
                rw (laws.kind_set_spec updated ip "clusterIP" o e)
                  (service_is_no_deployment _ (and_true_right _ _ s)) in
              rw (prepared-service current updated o (first ∙ ap (λ x. assign env x updated) e) k)
                (laws.nested_set updated ip cluster_ip_path o e)
          | inr failed ↦
              absurd
                (prepared-failed current updated (subst (λ x. x.0 ≢ ok tt) (sym first) failed) done)
        ]

    apps_v1 :
        (o : Obj) → kind o ≡ "Deployment" → api_version o ≡ "apps/v1" → is_deployment env o ≡ true
    apps_v1 o is at = rw (is, at) refl

    -- For an updated Deployment of apps/v1, where the one in the cluster has annotations, the
    -- object to send has the revision annotation of that one (empty if it has none), and otherwise
    -- the annotations that it had.
    pub prepare_all-deployment :
        (current updated : Obj) (cur : Assoc String) (k : String)
        → kind updated ≡ "Deployment"
        → api_version updated ≡ "apps/v1"
        → annotations current ≡ some cur
        → lookup k (
            or_empty
              (annotations (prepare_all env (default_update_preparations env) current updated).1))
          ≡ (if deployment_revision_annotation == k
              then some (string_at deployment_revision_annotation cur)
              else lookup k (or_empty (annotations updated)))
    prepare_all-deployment current updated cur k is at c =
        rw
          (
            prepared-deployment current updated cur (apps_v1 updated is at) c,
            laws.annotations_set updated _,
          )
          (lookup-insert deployment_revision_annotation k _ _)
