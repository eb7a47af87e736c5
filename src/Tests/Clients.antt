-- ===== src/Tests/Clients.antt =====
-- Instances of the theorems on client/client.go and rollout/actions.go, on the small cluster.
use locutus.Tests.Cluster.{Thing, single, cluster, cluster_accessors, cluster_api}
use locutus.Prelude.{pos, String, ◌≡◌, refl, subst, true, Option, none, some, [], ◌∷◌, ◌⊎◌}
use locutus.Outcome.{ok}
use locutus.Maps.{Assoc, lookup}
use locutus.Env.{Endpoint, ObjectMeta}
use locutus.Client.{
  ResourceClient, cluster_ip_path, deployment_revision_annotation, or_empty,
  default_update_preparations, prepare_all, prepare_service_for_update,
  prepare_deployment_for_update, prepare_unstructured_for_update, check_all,
  check_unstructured_for_update, check_service_account_for_update, update_with_current,
}
use locutus.Client.Updating.{SentOnly, default-KeepsVersion, update_with_current_sends}
use locutus.Client.Carrying.{prepare_all-service, prepare_all-deployment}
use locutus.Client.ServiceAccounts.{SameMeta, map_sent, default_client, update_with_current-account}
use locutus.Rollout.Actions.{create_or_update, create_if_not_exist}
use locutus.Rollout.Actions.Effects.{
  CanUpdate, create_or_update-stored, Created, Updated, create_if_not_exist-stored,
}

abbrev jobs : Endpoint
jobs = record {
  config = record { group_version = none; api_path = "/apis"; qps = pos 5; burst = pos 10 };
  resource = record { group = ""; version = "v1"; resource = "jobs" };
  namespace = "";
}

abbrev rc : ResourceClient cluster
rc = default_client cluster jobs

abbrev thing : String → String → String → String → Option (Assoc String) → Option String → Thing
thing api kind name version notes ip = single (record {
  api_version = api;
  kind = kind;
  name = name;
  version = version;
  notes = notes;
  ip = ip;
})

abbrev running_service : Thing
running_service = thing "v1" "Service" "web" "12" none (some "10.0.0.1")

abbrev rendered_service : Thing
rendered_service = thing "v1" "Service" "web" "" none none

abbrev running_deployment : Thing
running_deployment =
    thing "apps/v1" "Deployment" "web" "7" (some ((deployment_revision_annotation, "3") ∷ [])) none

abbrev rendered_deployment : Thing
rendered_deployment = thing "apps/v1" "Deployment" "web" "" (some (("team", "infra") ∷ [])) none

abbrev account : Thing
account = thing "v1" "ServiceAccount" "robot" "4" none none

update_with_current_sends_example :
    SentOnly cluster cluster_accessors rc "12" []
      (update_with_current cluster rc running_service ([], rendered_service)).1.0
update_with_current_sends_example =
    update_with_current_sends cluster cluster_accessors rc running_service rendered_service []
      (default-KeepsVersion cluster cluster_accessors)

service_prepared :
    (prepare_all cluster (default_update_preparations cluster) running_service rendered_service).0
    ≡ ok tt
unfolding prepare_all prepare_service_for_update prepare_deployment_for_update
service_prepared = refl

prepare_all-service_example :
    cluster.nested_string
      (prepare_all cluster (default_update_preparations cluster) running_service rendered_service).1
      cluster_ip_path
    ≡ ok (some "10.0.0.1")
prepare_all-service_example =
    prepare_all-service cluster cluster_accessors running_service rendered_service "10.0.0.1" refl
      refl service_prepared

prepare_all-deployment_example :
    lookup deployment_revision_annotation (
      or_empty (
        cluster.annotations
          (prepare_all cluster
            (default_update_preparations cluster)
            running_deployment
            rendered_deployment).1))
    ≡ some "3"
unfolding lookup
prepare_all-deployment_example =
    prepare_all-deployment cluster cluster_accessors running_deployment rendered_deployment
      ((deployment_revision_annotation, "3") ∷ []) deployment_revision_annotation refl refl refl

abbrev robot : ObjectMeta
robot = record { name = "robot"; namespace = ""; labels = none; annotations = none }

update_with_current-account_example :
    (SameMeta cluster cluster_accessors robot robot
      × (update_with_current cluster rc account
            ([], thing "v1" "ServiceAccount" "robot" "" none none)
          ≡ (ok none, ([], account))))
    ⊎ ((¬ SameMeta cluster cluster_accessors robot robot)
        × (update_with_current cluster rc account
              ([], thing "v1" "ServiceAccount" "robot" "" none none)
            ≡ (let (o, w') = cluster.update jobs account [] in
                (map_sent cluster cluster_accessors o, (w', account)))))
update_with_current-account_example =
    update_with_current-account cluster cluster_accessors jobs account
      (thing "v1" "ServiceAccount" "robot" "" none none) robot robot [] refl refl refl

abbrev job : Thing
job = thing "batch/v1" "Job" "backup" "" none none

create_if_not_exist-stored_example :
    ((o : Thing) × (lookup "backup" [] ≡ some o)
      × (create_if_not_exist cluster rc ([], job) ≡ (ok tt, ([], job))))
    ⊎ Created cluster cluster_api rc job [] (create_if_not_exist cluster rc ([], job))
create_if_not_exist-stored_example =
    create_if_not_exist-stored cluster cluster_api rc job [] (λ e. refl)

service_updates :
    (cur : Thing)
    → lookup "web" (("web", running_service) ∷ []) ≡ some cur
    → CanUpdate cluster rc cur rendered_service
unfolding lookup prepare_unstructured_for_update prepare_all prepare_service_for_update
    prepare_deployment_for_update check_unstructured_for_update check_all
    check_service_account_for_update
service_updates cur e =
    let same : running_service ≡ cur = cc in
    subst (λ c. CanUpdate cluster rc c rendered_service) same
      (record { prepares = refl; same_name = refl; wanted = true; checks = refl })

create_or_update-stored_example :
    ((cur : Thing) × (lookup "web" (("web", running_service) ∷ []) ≡ some cur)
      × Updated cluster cluster_api rc rendered_service cur
          (("web", running_service) ∷ [])
          (create_or_update cluster rc (("web", running_service) ∷ [], rendered_service)))
    ⊎ Created cluster cluster_api rc rendered_service
        (("web", running_service) ∷ [])
        (create_or_update cluster rc (("web", running_service) ∷ [], rendered_service))
create_or_update-stored_example =
    create_or_update-stored cluster cluster_api cluster_accessors rc rendered_service
      (("web", running_service) ∷ []) (default-KeepsVersion cluster cluster_accessors)
      service_updates (λ e. refl)
