-- ===== src/Client/Updating.antt =====
-- What UpdateWithCurrent of client/client.go sends, under the default preparations and checks.
use locutus.Client.Defaults.{
  UpdatePreparation, cluster_ip_path, prepare_service_for_update, prepare_deployment_for_update,
  default_update_preparations, assign, set_cluster_ip, copy_revision,
}
use locutus.Client.Discovery.{
  ResourceClient, prepare_all, prepare_unstructured_for_update, check_unstructured_for_update,
  update_with_current, send_if, send_checked,
}
use locutus.Prelude.{
  String, Bool, true, false, ◌≡◌, refl, ◌∙◌, ◌⊎◌, inl, inr, Option, none, some, List, [], ◌∷◌,
  subst, All, arith,
}
use locutus.Outcome.{Outcome, ok, err, panic, and_then}
use locutus.Maps.{Assoc}
use locutus.Env.{Env}
use locutus.Env.Laws.{Accessors}

module _ (env : Env) (laws : Accessors env) where
  open env use {
    World, Obj, api_version, kind, resource_version, set_resource_version, annotations,
    set_annotations, nested_string, set_nested_string, marshal_json, unmarshal_service_account,
    update,
  }

  -- A preparation that leaves the resource version as it is, whether it fails or not.
  abbrev pub KeepsVersion : UpdatePreparation env → Type 0
  KeepsVersion p =
      (current updated : Obj) → resource_version (p current updated).1 ≡ resource_version updated

  assign_version :
      (o : Outcome Obj) (u : Obj)
      → ((o' : Obj) → o ≡ ok o' → resource_version o' ≡ resource_version u)
      → resource_version (assign env o u).1 ≡ resource_version u
  assign_version (ok o) u h = h o refl
  assign_version (err e) u h = refl
  assign_version panic u h = refl

  set_cluster_ip_version :
      (ip : Option String) (u : Obj)
      → resource_version (set_cluster_ip env ip u).1 ≡ resource_version u
  set_cluster_ip_version none u = refl
  set_cluster_ip_version (some ip) u =
      assign_version (set_nested_string u ip cluster_ip_path) u
        (laws.version_set_spec u ip "clusterIP")

  and_set_cluster_ip_version :
      (o : Outcome (Option String)) (u : Obj)
      → resource_version (and_then o (set_cluster_ip env) u).1 ≡ resource_version u
  and_set_cluster_ip_version (ok ip) u = set_cluster_ip_version ip u
  and_set_cluster_ip_version (err e) u = refl
  and_set_cluster_ip_version panic u = refl

  prepare_service-KeepsVersion : KeepsVersion (prepare_service_for_update env)
  unfolding prepare_service_for_update
  prepare_service-KeepsVersion current updated =
      ground (arith, and_set_cluster_ip_version (nested_string current cluster_ip_path) updated)

  copy_revision_version :
      (m : Option (Assoc String)) (u : Obj)
      → resource_version (copy_revision env m u).1 ≡ resource_version u
  copy_revision_version none u = refl
  copy_revision_version (some cur) u = laws.version_set_annotations u _

  prepare_deployment-KeepsVersion : KeepsVersion (prepare_deployment_for_update env)
  unfolding prepare_deployment_for_update
  prepare_deployment-KeepsVersion current updated =
      ground (arith, copy_revision_version (annotations current) updated)

  prepare_all_version :
      (ps : List (UpdatePreparation env)) (current updated : Obj)
      → All KeepsVersion ps
      → resource_version (prepare_all env ps current updated).1 ≡ resource_version updated
  unfolding prepare_all
  prepare_all_version [] current updated h = refl
  prepare_all_version (p ∷ ps) current updated h =
      ground (arith, h.0 current updated, prepare_all_version ps current (p current updated).1 h.1)

  pub default-KeepsVersion : All KeepsVersion (default_update_preparations env)
  default-KeepsVersion = (prepare_service-KeepsVersion, (prepare_deployment-KeepsVersion, tt))

  pub prepare_version :
      (rc : ResourceClient env) (current updated : Obj)
      → All KeepsVersion rc.update_preparations
      → resource_version (prepare_unstructured_for_update env rc current updated).1
        ≡ resource_version current
  unfolding prepare_unstructured_for_update
  prepare_version rc current updated h =
      prepare_all_version rc.update_preparations current _ h ∙ laws.version_set updated _

  -- What a call did to the world: nothing, or one Update request with the given version.
  abbrev pub SentOnly : ResourceClient env → String → World → World → Type 0
  SentOnly rc version before after =
      (after ≡ before)
      ⊎ ((u : Obj) × (resource_version u ≡ version) × (after ≡ (update rc.endpoint u before).1))

  send_if_sent :
      (rc : ResourceClient env) (b : Bool) (w : World) (u : Obj)
      → SentOnly rc (resource_version u) w (send_if env rc.endpoint b (w, u)).1.0
  send_if_sent rc false w u = inl refl
  send_if_sent rc true w u = inr (u, refl, ground arith)

  checked_sent :
      (rc : ResourceClient env) (o : Outcome Bool) (w : World) (u : Obj)
      → SentOnly rc (resource_version u) w (and_then o (send_if env rc.endpoint) (w, u)).1.0
  checked_sent rc (ok b) w u = send_if_sent rc b w u
  checked_sent rc (err e) w u = inl refl
  checked_sent rc panic w u = inl refl

  prepared_sent :
      (rc : ResourceClient env) (current : Obj) (o : Outcome (Unit {0})) (w : World) (u : Obj)
      → SentOnly rc
          (resource_version u)
          w
          (and_then o (λ _. send_checked env rc current) (w, u)).1.0
  prepared_sent rc current (ok _) w u =
      checked_sent rc (check_unstructured_for_update env rc current u) w u
  prepared_sent rc current (err e) w u = inl refl
  prepared_sent rc current panic w u = inl refl

  -- Whatever the outcome of UpdateWithCurrent, the world is as it was, or it is what one Update
  -- request made of it, whose object has the resource version of `current`. The preparations are
  -- assumed to leave the resource version of the object alone.
  pub update_with_current_sends :
      (rc : ResourceClient env) (current updated : Obj) (w : World)
      → All KeepsVersion rc.update_preparations
      → SentOnly rc
          (resource_version current)
          w
          (update_with_current env rc current (w, updated)).1.0
  unfolding update_with_current
  update_with_current_sends rc current updated w h =
      let (o, u) = prepare_unstructured_for_update env rc current updated in
      subst (λ v. SentOnly rc v w (and_then o (λ _. send_checked env rc current) (w, u)).1.0)
        (prepare_version rc current updated h) (prepared_sent rc current o w u)
