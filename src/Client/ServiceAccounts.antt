-- ===== src/Client/ServiceAccounts.antt =====
-- CheckServiceAccountForUpdate of client/client.go under UpdateWithCurrent: a ServiceAccount is
-- sent only if its metadata changes, since each update of one would create a secret.
use locutus.Client.Defaults.{
  UpdateCheck, is_service_account, meta_differs, check_service_account_for_update,
  default_update_preparations, default_update_checks,
}
use locutus.Client.Discovery.{
  ResourceClient, prepare_all, check_all, check_unstructured_for_update, update_with_current,
  prepare_unstructured_for_update, send_if, on_world,
}
use locutus.Client.Carrying.{prepare_service-other, prepare_deployment-other, and_true_right}
use locutus.Prelude.{
  String, Bool, true, false, ◌≡◌, refl, sym, ap, ◌∙◌, ◌⊎◌, inl, inr, Option, none, some, ◌&&◌,
  Bool-cases, arith, subst, [], ◌∷◌, eq_iff, ◌==◌,
}
use locutus.Outcome.{Outcome, ok, err, panic, pure, ◌>>=◌}
use locutus.Env.{Env, Endpoint, ObjectMeta}
use locutus.Env.Laws.{Accessors}

account_is_no_service : (k : String) → (k == "ServiceAccount") ≡ true → (k == "Service") ≡ false
account_is_no_service k h =
    subst (λ x. (x == "Service") ≡ false) (sym ((eq_iff k "ServiceAccount").0 h)) refl

account_is_no_deployment :
    (k : String) → (k == "ServiceAccount") ≡ true → (k == "Deployment") ≡ false
account_is_no_deployment k h =
    subst (λ x. (x == "Deployment") ≡ false) (sym ((eq_iff k "ServiceAccount").0 h)) refl

-- A resource client with the preparations and checks that the program installs.
abbrev pub default_client : (env : Env) → Endpoint → ResourceClient env
default_client env ep = record {
  endpoint = ep;
  update_preparations = default_update_preparations env;
  update_checks = default_update_checks env;
}

module _ (env : Env) (laws : Accessors env) where
  open env use {
    World, Obj, api_version, kind, resource_version, set_resource_version, marshal_json,
    unmarshal_service_account, update, equate,
  }

  -- The answer where an Update was sent.
  abbrev pub map_sent : Outcome Obj → Outcome (Option Obj)
  map_sent (ok x) = ok (some x)
  map_sent (err e) = err e
  map_sent panic = panic

  account_kind :
      (u : Obj) (v : String)
      → is_service_account env u ≡ true
      → (kind (set_resource_version u v) == "ServiceAccount") ≡ true
  account_kind u v s =
      rw (laws.kind_set_version u v)
        (and_true_right (api_version u == "v1") (kind u == "ServiceAccount") s)

  prepare-account :
      (ep : Endpoint) (current updated : Obj)
      → is_service_account env updated ≡ true
      → prepare_unstructured_for_update env (default_client env ep) current updated
        ≡ (ok tt, set_resource_version updated (resource_version current))
  unfolding prepare_unstructured_for_update prepare_all
  prepare-account ep current updated s =
      let k = account_kind updated (resource_version current) s in
      rw (
        prepare_service-other env current (set_resource_version updated (resource_version current))
            (account_is_no_service _ k),
        prepare_deployment-other env current
            (set_resource_version updated (resource_version current))
            (account_is_no_deployment _ k),
      )

  check_service_account-account :
      (current updated : Obj) (old new : ObjectMeta)
      → is_service_account env updated ≡ true
      → unmarshal_service_account (marshal_json current) ≡ ok old
      → unmarshal_service_account (marshal_json updated) ≡ ok new
      → check_service_account_for_update env current updated ≡ ok (meta_differs env old new)
  unfolding check_service_account_for_update
  check_service_account-account current updated old new s o n = rw (s, o, n)

  check_all-one :
      (c : UpdateCheck env) (current updated : Obj) (b : Bool)
      → c current updated ≡ ok b
      → check_all env (c ∷ []) current updated ≡ ok b
  unfolding check_all
  check_all-one c current updated true e = rw (e, check_all)
  check_all-one c current updated false e = rw (e, check_all)

  check-account :
      (ep : Endpoint) (current updated : Obj) (old new : ObjectMeta)
      → is_service_account env updated ≡ true
      → unmarshal_service_account (marshal_json current) ≡ ok old
      → unmarshal_service_account (marshal_json updated) ≡ ok new
      → check_unstructured_for_update env (default_client env ep) current updated
        ≡ ok (meta_differs env old new)
  unfolding check_unstructured_for_update
  check-account ep current updated old new s o n =
      check_all-one (check_service_account_for_update env) current updated
        (meta_differs env old new) (check_service_account-account current updated old new s o n)

  sends-account :
      (ep : Endpoint) (current updated : Obj) (old new : ObjectMeta) (w : World)
      → is_service_account env updated ≡ true
      → unmarshal_service_account (marshal_json current) ≡ ok old
      → unmarshal_service_account
          (marshal_json (set_resource_version updated (resource_version current)))
        ≡ ok new
      → update_with_current env (default_client env ep) current (w, updated)
        ≡ send_if env ep
            (meta_differs env old new)
            (w, set_resource_version updated (resource_version current))
  unfolding update_with_current
  sends-account ep current updated old new w s o n =
      let u = set_resource_version updated (resource_version current) in
      let k : is_service_account env u ≡ true =
        rw
          (
            laws.kind_set_version updated (resource_version current),
            laws.api_version_set_version updated (resource_version current),
          )
          s in
      rw (prepare-account ep current updated s, check-account ep current u old new k o n)

  -- What the two accounts have in common. `equate` is cmp.Equal, which tells nil from empty.
  pub record SameMeta (old new : ObjectMeta) : Type 0 where
    pub same_name : old.name ≡ new.name
    pub same_namespace : old.namespace ≡ new.namespace
    pub same_labels : equate old.labels new.labels ≡ true
    pub same_annotations : equate old.annotations new.annotations ≡ true

  all_of :
      (a b c d : Bool)
      → (a && b && c && d) ≡ true
      → (a ≡ true) × (b ≡ true) × (c ≡ true) × (d ≡ true)
  all_of a b c d h = (ground arith, ground arith, ground arith, ground arith)

  every : (a b c d : Bool) → a ≡ true → b ≡ true → c ≡ true → d ≡ true → (a && b && c && d) ≡ true
  every a b c d p q r s = ground arith

  SameMeta-cases :
      (old new : ObjectMeta)
      → (SameMeta old new × (meta_differs env old new ≡ false))
        ⊎ ((¬ SameMeta old new) × (meta_differs env old new ≡ true))
  SameMeta-cases old new =
      let name = old.name == new.name in
      let namespace = old.namespace == new.namespace in
      let labels = equate old.labels new.labels in
      let annotations' = equate old.annotations new.annotations in
      elim (Bool-cases (name && namespace && labels && annotations')) [
        | inl same ↦
            let (n, ns, l, a) = all_of name namespace labels annotations' same in
            inl (
              record {
                same_name = (eq_iff old.name new.name).0 n;
                same_namespace = (eq_iff old.namespace new.namespace).0 ns;
                same_labels = l;
                same_annotations = a;
              },
              rw same refl,
            )
        | inr other ↦ inr (
          (λ s. cc (
              sym other
              ∙ every name namespace labels annotations' ((eq_iff old.name new.name).1 s.same_name)
                  ((eq_iff old.namespace new.namespace).1 s.same_namespace) s.same_labels
                  s.same_annotations)),
          rw other refl,
        )
      ]

  -- For a ServiceAccount that decodes on both sides, UpdateWithCurrent under the default
  -- preparations and check sends nothing, leaves the world as it is and reports no error if the
  -- names, the namespaces, the labels and the annotations are the same. If any of them differs it
  -- sends one Update, with the resource version set, and answers what that does.
  pub update_with_current-account :
      (ep : Endpoint) (current updated : Obj) (old new : ObjectMeta) (w : World)
      → is_service_account env updated ≡ true
      → unmarshal_service_account (marshal_json current) ≡ ok old
      → unmarshal_service_account
          (marshal_json (set_resource_version updated (resource_version current)))
        ≡ ok new
      → (SameMeta old new
          × (update_with_current env (default_client env ep) current (w, updated)
              ≡ (ok none, (w, set_resource_version updated (resource_version current)))))
        ⊎ ((¬ SameMeta old new)
            × (update_with_current env (default_client env ep) current (w, updated) ≡ (
                let (o, w') =
                  update ep (set_resource_version updated (resource_version current)) w in
                (map_sent o, (w', set_resource_version updated (resource_version current))))))
  update_with_current-account ep current updated old new w s o n =
      let u = set_resource_version updated (resource_version current) in
      let sent = sends-account ep current updated old new w s o n in
      elim (SameMeta-cases old new) [
        | inl (same, e) ↦ inl (same, sent ∙ ap (λ b. send_if env ep b (w, u)) e)
        | inr (other, e) ↦
            inr (other, sent ∙ ap (λ b. send_if env ep b (w, u)) e ∙ answered (update ep u w) u)
      ]
    where
      answered :
          (r : Outcome Obj × World) (u : Obj)
          → ((on_world env (λ _. r) >>= λ x. pure (some x)) (w, u))
            ≡ (let (o, w') = r in (map_sent o, (w', u)))
      answered (ok x, w') u = refl
      answered (err x, w') u = refl
      answered (panic, w') u = refl
