-- ===== src/Rollout/Actions/Effects.antt =====
-- What the actions of rollout/actions.go do to an API server that accepts what it is sent.
use locutus.Rollout.Actions.{create_or_update, create_if_not_exist}
use locutus.Prelude.{
  Bool, true, false, ◌≡◌, refl, ap, ◌∙◌, subst, none, some, ◌⊎◌, inl, inr, All, Option-cases,
}
use locutus.Outcome.{Outcome, ok, and_then, pure, ◌>>=◌}
use locutus.Env.{Env}
use locutus.Env.Laws.{Accessors, ApiServer}
use locutus.Client.{
  ResourceClient, prepare_unstructured_for_update, check_unstructured_for_update,
  update_with_current, send_if,
}
use locutus.Client.Updating.{KeepsVersion, prepare_version}

module _ (env : Env) (rc : ResourceClient env) (current u : env.Obj) where
  -- The object as the preparations of an update leave it.
  abbrev pub prepared : Outcome (Unit {0}) × env.Obj
  prepared = prepare_unstructured_for_update env rc current u

  -- The preparations and the checks of an update pass, and the object keeps its name.
  pub record CanUpdate : Type 0 where
    pub prepares : prepared.0 ≡ ok tt
    pub same_name : env.name prepared.1 ≡ env.name u
    pub wanted : Bool
    pub checks : check_unstructured_for_update env rc current prepared.1 ≡ ok wanted

  update_with_current-checked :
      (w : env.World) (can : CanUpdate)
      → update_with_current env rc current (w, u)
        ≡ send_if env rc.endpoint can.wanted (w, prepared.1)
  unfolding update_with_current
  update_with_current-checked w can = rw (can.prepares, can.checks)

module _ (env : Env) (api : ApiServer env) where
  open env use {World, Obj, name, resource_version, create, update}
  open api use {stored}

  -- There was no object of the name, and the one that the Create request of `u` made is there.
  abbrev pub Created :
      ResourceClient env → Obj → World → Outcome (Unit {0}) × (World × Obj) → Type 0
  Created rc u w r =
      (o : Obj) × (w' : World) × (stored w rc.endpoint (name u) ≡ none)
      × (create rc.endpoint u w ≡ (ok o, w'))
      × (r ≡ (ok tt, (w', u)))
      × (stored w' rc.endpoint (name u) ≡ some o)

  -- The checks want no update of the prepared object, and nothing was sent; or they want one, and
  -- what the Update request made of the prepared object, with the current version, is there.
  abbrev pub Updated :
      ResourceClient env → Obj → Obj → World → Outcome (Unit {0}) × (World × Obj) → Type 0
  Updated rc u cur w r =
      let v = (prepared env rc cur u).1 in
      ((check_unstructured_for_update env rc cur v ≡ ok false) × (r ≡ (ok tt, (w, v))))
      ⊎ ((o : Obj) × (w' : World) × (check_unstructured_for_update env rc cur v ≡ ok true)
          × (resource_version v ≡ resource_version cur)
          × (update rc.endpoint v w ≡ (ok o, w'))
          × (r ≡ (ok tt, (w', v)))
          × (stored w' rc.endpoint (name u) ≡ some o))

  -- CreateIfNotExist leaves an object that exists alone, and the whole world with it. Where one
  -- that does not exist has no resource version, a Create request makes it, and it exists
  -- afterwards. No error is reported.
  pub create_if_not_exist-stored :
      (rc : ResourceClient env) (u : Obj) (w : World)
      → (stored w rc.endpoint (name u) ≡ none → resource_version u ≡ "")
      → ((o : Obj) × (stored w rc.endpoint (name u) ≡ some o)
          × (create_if_not_exist env rc (w, u) ≡ (ok tt, (w, u))))
        ⊎ Created rc u w (create_if_not_exist env rc (w, u))
  unfolding create_if_not_exist
  create_if_not_exist-stored rc u w fresh = elim (Option-cases (stored w rc.endpoint (name u))) [
    | inr (o, e) ↦ inl (o, e, rw (api.get_found w rc.endpoint (name u) o e))
    | inl e ↦
        let (x, missing, nf) = api.get_missing w rc.endpoint (name u) e in
        let (o, w', created, there) = api.create_new w rc.endpoint u e (fresh e) in
        inr (o, w', e, created, rw (missing, nf, created), there)
  ]

  update_with_current-Updated :
      (laws : Accessors env) (rc : ResourceClient env) (u cur : Obj) (w : World)
      → All (KeepsVersion env laws) rc.update_preparations
      → (can : CanUpdate env rc cur u) → stored w rc.endpoint (name u) ≡ some cur
      → Updated rc u cur w ((update_with_current env rc cur >>= λ _. pure tt) (w, u))
  update_with_current-Updated laws rc u cur w keeps can there = go can.wanted refl
    where
      v : Obj
      v = (prepared env rc cur u).1

      go :
          (b : Bool)
          → can.wanted ≡ b
          → Updated rc u cur w ((update_with_current env rc cur >>= λ _. pure tt) (w, u))
      go false e =
          let run : update_with_current env rc cur (w, u) ≡ (ok none, (w, v)) =
            update_with_current-checked env rc cur u w can
            ∙ ap (λ b. send_if env rc.endpoint b (w, v)) e in
          inl (can.checks ∙ ap ok e, rw run refl)
      go true e =
          let version = prepare_version env laws rc cur u keeps in
          let (o, w', sent, kept) =
            api.update_current w rc.endpoint v cur (rw can.same_name there) version in
          let run : update_with_current env rc cur (w, u) ≡ (ok (some o), (w', v)) =
            update_with_current-checked env rc cur u w can
            ∙ ap (λ b. send_if env rc.endpoint b (w, v)) e
            ∙ ap
                (λ (r : Outcome Obj × World).
                  let (x, w₁) = r in and_then x (λ y. pure (some y)) (w₁, v))
                sent in
          inr (
            o,
            w',
            can.checks ∙ ap ok e,
            version,
            sent,
            rw run refl,
            subst (λ n. stored w' rc.endpoint n ≡ some o) can.same_name kept,
          )

  -- CreateOrUpdate reports no error, where an object that does not exist has no resource version,
  -- and the preparations and checks of an update of one that exists pass, keep the name, and leave
  -- the resource version alone. If there was no object of the name, there is the one that a Create
  -- request of it made. Otherwise the checks want no update of the prepared object and the world is
  -- as it was, or they want one, and there is what an Update request of the prepared object, with
  -- the resource version of the current one, made.
  pub create_or_update-stored :
      (laws : Accessors env) (rc : ResourceClient env) (u : Obj) (w : World)
      → All (KeepsVersion env laws) rc.update_preparations
      → ((cur : Obj) → stored w rc.endpoint (name u) ≡ some cur → CanUpdate env rc cur u)
      → (stored w rc.endpoint (name u) ≡ none → resource_version u ≡ "")
      → ((cur : Obj) × (stored w rc.endpoint (name u) ≡ some cur)
          × Updated rc u cur w (create_or_update env rc (w, u)))
        ⊎ Created rc u w (create_or_update env rc (w, u))
  unfolding create_or_update
  create_or_update-stored laws rc u w keeps can fresh =
      elim (Option-cases (stored w rc.endpoint (name u))) [
        | inr (cur, e) ↦ inl (
          cur,
          e,
          rw (api.get_found w rc.endpoint (name u) cur e)
              (update_with_current-Updated laws rc u cur w keeps (can cur e) e),
        )
        | inl e ↦
            let (x, missing, nf) = api.get_missing w rc.endpoint (name u) e in
            let (o, w', created, there) = api.create_new w rc.endpoint u e (fresh e) in
            inr (o, w', e, created, rw (missing, nf, created), there)
      ]
