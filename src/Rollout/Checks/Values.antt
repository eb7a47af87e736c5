-- ===== src/Rollout/Checks/Values.antt =====
-- The values that currentValues of rollout/checks/success_check.go reads are those at the paths
-- that the definition names.
use locutus.Prelude.{
  String, true, ◌≡◌, ◌≢◌, subst, ◌⊎◌, Option, none, some, List, [], ◌∷◌, All, arith, is_some, ◌==◌,
  eq_iff, inl, inr, Bool-cases, ==_refl,
}
use locutus.Outcome.{ok, chain-eq-ok}
use locutus.Maps.{Assoc, lookup, insert, lookup-insert, lookup-nil}
use locutus.Value.{Value, nil}
use locutus.Env.{Env}
use locutus.Rollout.Types.{ExpectedFieldComparisonValue, FieldComparisonValue}
use locutus.Rollout.Checks.Defs.{
  JsonPath, find_result, add_value_path, add_paths, paths_from, values_from,
}

abbrev pub Has : {V : Type 0} → String → Assoc V → Type 0
Has k m = is_some (lookup k m) ≡ true

Has-insert_self : {V : Type 0} (k : String) (v : V) (m : Assoc V) → Has k (insert k v m)
Has-insert_self k v m = rw (lookup-insert, ==_refl)

Has-insert : {V : Type 0} (k j : String) (v : V) (m : Assoc V) → Has j m → Has j (insert k v m)
Has-insert k j v m h = rw lookup-insert (ground arith)

Has-nil : (V : Type 0) (k : String) → ¬ Has {V = V} k []
Has-nil V k h = cc (h, lookup-nil {V = V} k)

Has-cons :
    {V : Type 0} (p k : String) (v : V) (m : Assoc V) → Has k ((p, v) ∷ m) → (p ≡ k) ⊎ Has k m
unfolding lookup
Has-cons p k v m h = elim (Bool-cases (p == k)) [
  | inl e ↦ inl ((eq_iff p k).0 e)
  | inr e ↦ inr (rw e at h)
]

module _ (env : Env) where
  open env use {Obj}

  -- No path of a definition is lost: `ev` finds the paths that it names.
  abbrev pub Covers : {V : Type 0} → Assoc V → ExpectedFieldComparisonValue → Type 0
  Covers m ev =
      Has ev.path m × ((v : FieldComparisonValue) → ev.value ≡ some v → v.path ≢ "" → Has v.path m)

  -- A map that keeps the keys of another.
  abbrev Extends : {V U : Type 0} → Assoc V → Assoc U → Type 0
  Extends m m' = (k : String) → Has k m → Has k m'

  values_from-Extends :
      (u : Obj) (paths : Assoc (JsonPath env)) (res values : Assoc Value)
      → values_from env u paths res ≡ ok values
      → Extends res values × Extends paths values
  unfolding values_from
  values_from-Extends u [] res values e =
      let same : res ≡ values = cc in
      (λ k h. subst (λ m. Has k m) same h, λ k h. absurd (Has-nil (JsonPath env) k h))
  values_from-Extends u ((p, j) ∷ paths) res values e =
      let (v, found, rest) =
        chain-eq-ok (find_result env j u) (λ v. values_from env u paths (insert p v res)) e in
      let (old, new) = values_from-Extends u paths (insert p v res) values rest in
      (
        λ k h. old k (Has-insert p k v res h),
        λ k h. elim (Has-cons p k j paths h) [
          | inl same ↦ subst (λ x. Has x values) same (old p (Has-insert_self p v res))
          | inr later ↦ new k later
        ],
      )

  add_value_path-Covers :
      (o : Option FieldComparisonValue) (paths more : Assoc (JsonPath env))
      → add_value_path env o paths ≡ ok more
      → Extends paths more
        × ((v : FieldComparisonValue) → o ≡ some v → v.path ≢ "" → Has v.path more)
  add_value_path-Covers none paths more e =
      let same : paths ≡ more = cc in (λ k h. subst (λ m. Has k m) same h, λ v q. absurd (cc q))
  add_value_path-Covers (some v) paths more e = elim (Bool-cases (v.path == "")) [
    | inl empty ↦
        let same : paths ≡ more = let e' = rw empty at e in cc in
        (
          λ k h. subst (λ m. Has k m) same h,
          λ v' q named.
              absurd (named (let same' : v' ≡ v = cc in rw same' ((eq_iff v.path "").0 empty))),
        )
    | inr named ↦
        let e' = rw named at e in
        let (p, parsed, inserted) =
          chain-eq-ok (env.parse_path v.path)
            (λ p. ok (insert v.path (record { jsonpath = p; default_value = nil }) paths)) e' in
        let same : insert v.path (record { jsonpath = p; default_value = nil }) paths ≡ more = cc in
        (
          λ k h. subst (λ m. Has k m) same (Has-insert v.path k _ paths h),
          λ v' q _.
              let same' : v ≡ v' = cc in
              subst (λ (x : FieldComparisonValue). Has x.path more) same'
                (subst (λ m. Has v.path m) same (Has-insert_self v.path _ paths)),
        )
  ]

  add_paths-Covers :
      (ev : ExpectedFieldComparisonValue) (paths more : Assoc (JsonPath env))
      → add_paths env ev paths ≡ ok more
      → Extends paths more × Covers more ev
  unfolding add_paths
  add_paths-Covers ev paths more e =
      let (p, parsed, rest) = chain-eq-ok (env.parse_path ev.path) _ e in
      let (keeps, covers) = add_value_path-Covers ev.value _ more rest in
      (
        λ k h. keeps k (Has-insert ev.path k _ paths h),
        (keeps ev.path (Has-insert_self ev.path _ paths), covers),
      )

  Covers-Extends :
      {V U : Type 0} (m : Assoc V) (m' : Assoc U) (ev : ExpectedFieldComparisonValue)
      → Extends m m'
      → Covers m ev
      → Covers m' ev
  Covers-Extends m m' ev keeps (h, hs) = (keeps ev.path h, λ v e named. keeps v.path (hs v e named))

  paths_from-Covers :
      (evs : List ExpectedFieldComparisonValue) (paths more : Assoc (JsonPath env))
      → paths_from env evs paths ≡ ok more
      → Extends paths more × All (Covers more) evs
  unfolding paths_from
  paths_from-Covers [] paths more e =
      let same : paths ≡ more = cc in (λ k h. subst (λ m. Has k m) same h, tt)
  paths_from-Covers (ev ∷ evs) paths more e =
      let (next, added, rest) = chain-eq-ok (add_paths env ev paths) _ e in
      let (keeps, covers) = add_paths-Covers ev paths next added in
      let (keeps', covers') = paths_from-Covers evs next more rest in
      (λ k h. keeps' k (keeps k h), (Covers-Extends next more ev keeps' covers, covers'))

  All-Covers :
      {V U : Type 0} (m : Assoc V) (m' : Assoc U) (evs : List ExpectedFieldComparisonValue)
      → Extends m m'
      → All (Covers m) evs
      → All (Covers m') evs
  All-Covers m m' [] keeps h = tt
  All-Covers m m' (ev ∷ evs) keeps h =
      (Covers-Extends m m' ev keeps h.0, All-Covers m m' evs keeps h.1)

  -- Where NewCheckRunner has parsed the paths of a definition and currentValues has read them from
  -- an object, the values have an entry for the path of every expected value, and for the path that
  -- it is compared with, if it names one: checkComparisons never reads a missing entry.
  pub values_from-Covers :
      (evs : List ExpectedFieldComparisonValue) (paths : Assoc (JsonPath env)) (u : Obj)
      (values : Assoc Value)
      → paths_from env evs [] ≡ ok paths
      → values_from env u paths [] ≡ ok values
      → All (Covers values) evs
  values_from-Covers evs paths u values parsed read =
      All-Covers paths values evs (values_from-Extends u paths [] values read).1
        (paths_from-Covers evs [] paths parsed).1
