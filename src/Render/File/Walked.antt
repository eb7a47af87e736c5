-- ===== src/Render/File/Walked.antt =====
-- What the renderer of render/file/file.go makes of a directory.
use locutus.Render.Texts.{trim_prefix}
use locutus.Render.File.{
  Visit, failed, directory, file, FileRenderer, Decoders, render_object, render_visits,
  render_files,
}
use locutus.Prelude.{
  ◌⊎◌, eq_iff, String, ◌≡◌, sym, ap, ◌∙◌, subst, inl, inr, Option, none, some, List, [], ◌∷◌, All,
  ◌==◌, ==_refl, Bool-cases, if◌then◌else◌,
}
use locutus.Outcome.{Outcome, ok, err, panic, lift, >>=-eq-ok}
use locutus.Maps.{Assoc, lookup, insert, lookup-insert, lookup-nil}
use locutus.Env.{Env}
use locutus.Rollout.Types.{Rollout, RenderResult}

module _ (env : Env) (d : Decoders env) where
  open env use {World, Obj, read_file}

  abbrev pub Contains : Assoc Obj → String → Type 0
  Contains objects key = (u : Obj) × (lookup key objects ≡ some u)

  -- The file was read, and decodes to the object.
  abbrev pub Decodes : String → Obj → Type 0
  Decodes path u =
      (contents : String) × (w : World) × (w' : World) × (read_file path w ≡ (ok contents, w'))
      × (d.decode_object contents ≡ ok u)

  -- A file that the walk came by has this path in the directory, and decodes to the object.
  abbrev pub DecodedFrom : String → List Visit → String → Obj → Type 0
  DecodedFrom dir [] key u = ⊥
  DecodedFrom dir (failed path e ∷ visits) key u = DecodedFrom dir visits key u
  DecodedFrom dir (directory path ∷ visits) key u = DecodedFrom dir visits key u
  DecodedFrom dir (file path ∷ visits) key u =
      ((trim_prefix path dir ≡ key) × Decodes path u) ⊎ DecodedFrom dir visits key u

  -- No path failed, and there is an object under the path of each file in the directory.
  abbrev pub Visited : String → Assoc Obj → Visit → Type 0
  Visited dir objects (failed path e) = ⊥
  Visited dir objects (directory path) = Unit
  Visited dir objects (file path) = Contains objects (trim_prefix path dir)

  Contains-insert :
      (objects : Assoc Obj) (key k : String) (u : Obj)
      → Contains objects k
      → Contains (insert key u objects) k
  Contains-insert objects key k u (v, h) = elim (Bool-cases (key == k)) [
    | inl same ↦
        (u, lookup-insert key k u objects ∙ ap (λ b. if b then some u else lookup k objects) same)
    | inr other ↦ (
      v,
      lookup-insert key k u objects ∙ ap (λ b. if b then some u else lookup k objects) other ∙ h,
    )
  ]

  render_visits-Visited :
      (dir : String) (visits : List Visit) (objects objects' : Assoc Obj) (w w' : World)
      → render_visits env d dir visits objects w ≡ (ok objects', w')
      → All (Visited dir objects') visits
        × ((k : String) → Contains objects k → Contains objects' k)
  unfolding render_visits
  render_visits-Visited dir [] objects objects' w w' h =
      let same : objects ≡ objects' = cc in (tt, λ k c. subst (λ m. Contains m k) same c)
  render_visits-Visited dir (failed path e ∷ visits) objects objects' w w' h = cc
  render_visits-Visited dir (directory path ∷ visits) objects objects' w w' h =
      let (all, keeps) = render_visits-Visited dir visits objects objects' w w' h in
      ((tt, all), keeps)
  render_visits-Visited dir (file path ∷ visits) objects objects' w w' h =
      let (more, w₁, got, rest) = >>=-eq-ok (render_object env d dir path objects) _ w h in
      let (contents, w₂, was_read, rest') = >>=-eq-ok (read_file path) _ w got in
      let (u, w₃, decoded, last) = >>=-eq-ok (lift (d.decode_object contents)) _ w₂ rest' in
      let key = trim_prefix path dir in
      let same : insert key u objects ≡ more = cc in
      let (all, keeps) = render_visits-Visited dir visits more objects' w₁ w' rest in
      let there : Contains (insert key u objects) key = (
        u,
        lookup-insert key key u objects
            ∙ ap (λ b. if b then some u else lookup key objects) (==_refl key),
      ) in
      (
        (keeps key (subst (λ m. Contains m key) same there), all),
        λ k c. keeps k (subst (λ m. Contains m k) same (Contains-insert objects key k u c)),
      )

  -- Every object was there before, or is one of a file.
  render_visits-DecodedFrom :
      (dir : String) (visits : List Visit) (objects objects' : Assoc Obj) (w w' : World)
      → render_visits env d dir visits objects w ≡ (ok objects', w')
      → (k : String) (u : Obj) → lookup k objects' ≡ some u
      → (lookup k objects ≡ some u) ⊎ DecodedFrom dir visits k u
  unfolding render_visits
  render_visits-DecodedFrom dir [] objects objects' w w' h k u there =
      let same : objects ≡ objects' = cc in inl (ap (lookup k) same ∙ there)
  render_visits-DecodedFrom dir (failed path e ∷ visits) objects objects' w w' h k u there = cc
  render_visits-DecodedFrom dir (directory path ∷ visits) objects objects' w w' h k u there =
      render_visits-DecodedFrom dir visits objects objects' w w' h k u there
  render_visits-DecodedFrom dir (file path ∷ visits) objects objects' w w' h k u there =
      let (more, w₁, got, rest) = >>=-eq-ok (render_object env d dir path objects) _ w h in
      let (contents, w₂, was_read, rest') = >>=-eq-ok (read_file path) _ w got in
      let (v, w₃, decoded, last) = >>=-eq-ok (lift (d.decode_object contents)) _ w₂ rest' in
      let key = trim_prefix path dir in
      let same : insert key v objects ≡ more = cc in
      elim (render_visits-DecodedFrom dir visits more objects' w₁ w' rest k u there) [
        | inr from ↦ inr (inr from)
        | inl before ↦
            let before' : (if key == k then some v else lookup k objects) ≡ some u =
              sym (lookup-insert key k v objects) ∙ ap (lookup k) same ∙ before in
            elim (Bool-cases (key == k)) [
              | inr other ↦ inl (rw other at before')
              | inl this ↦
                  let found = rw this at before' in
                  let is : v ≡ u = cc in
                  inr (
                    inl (
                      (eq_iff key k).0 this,
                      (contents, w, w₂, was_read, ap (λ x. x.0) decoded ∙ ap ok is),
                    ))
            ]
      ]

  -- What the file renderer has done and made.
  pub record Walked (r : FileRenderer env) (w w' : World) (result : RenderResult env) : Type 0 where
    pub visits : List Visit
    pub walked_at : World
    pub was_walked : d.walk r.directory w ≡ (ok visits, walked_at)
    pub visited : All (Visited r.directory result.objects) visits
    pub from :
        (key : String) (u : Obj)
        → lookup key result.objects ≡ some u
        → DecodedFrom r.directory visits key u
    pub contents : String
    pub rollout : Rollout
    pub read_at : World
    pub was_read : read_file r.rollout_file read_at ≡ (ok contents, w')
    pub decoded : d.decode_rollout contents ≡ ok rollout
    pub is_result : result.rollout ≡ some rollout

  -- Where the file renderer returns without an error, it has walked its directory and no path of
  -- the walk failed. The result has an object under the path of every file, without the prefix of
  -- the directory, and each of its objects is what a file of that path that was read decodes to;
  -- and the rollout is what the rollout file, read at the end, decodes to.
  pub render_files-Visited :
      (r : FileRenderer env) (w w' : World) (result : RenderResult env)
      → render_files env d r w ≡ (ok result, w')
      → Walked r w w' result
  unfolding render_files lookup
  render_files-Visited r w w' result h =
      let (visits, w₁, walked, rest) = >>=-eq-ok (d.walk r.directory) _ w h in
      let (objects, w₂, ran, rest') =
        >>=-eq-ok (render_visits env d r.directory visits []) _ w₁ rest in
      let (contents, w₃, was_read, rest'') = >>=-eq-ok (read_file r.rollout_file) _ w₂ rest' in
      let (rollout, w₄, decoded, last) = >>=-eq-ok (lift (d.decode_rollout contents)) _ w₃ rest'' in
      let (all, _) = render_visits-Visited r.directory visits [] objects w₁ w₂ ran in
      let same : objects ≡ result.objects = ap (λ x. objects_of x.0) last in
      let ends : w₃ ≡ w' = ap (λ x. x.1) decoded ∙ ap (λ x. x.1) last in
      record {
        visits = visits;
        walked_at = w₁;
        was_walked = walked;
        visited = subst (λ m. All (Visited r.directory m) visits) same all;
        from = λ key u there. from_file r.directory visits key u (
            render_visits-DecodedFrom r.directory visits [] objects w₁ w₂ ran key u
              (ap (lookup key) same ∙ there));
        contents = contents;
        rollout = rollout;
        read_at = w₂;
        was_read = was_read ∙ ap (λ x. (ok contents, x)) ends;
        decoded = ap (λ x. x.0) decoded;
        is_result = sym (ap (λ x. rollout_of x.0) last);
      }
    where
      from_file :
          (dir : String) (visits : List Visit) (key : String) (u : Obj)
          → (lookup {V = Obj} key [] ≡ some u) ⊎ DecodedFrom dir visits key u
          → DecodedFrom dir visits key u
      from_file dir visits key u (inl e) = absurd (cc (sym (lookup-nil {V = Obj} key) ∙ e))
      from_file dir visits key u (inr from) = from

      objects_of : Outcome (RenderResult env) → Assoc Obj
      objects_of (ok r) = r.objects
      objects_of (err _) = []
      objects_of panic = []

      rollout_of : Outcome (RenderResult env) → Option Rollout
      rollout_of (ok r) = r.rollout
      rollout_of (err _) = none
      rollout_of panic = none
