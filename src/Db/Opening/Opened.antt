-- ===== src/Db/Opening/Opened.antt =====
-- What FromFile of db/config.go leaves open, and what it refuses.
use locutus.Db.Opening.{
  ConnectionConfig, check_names, new_cockroach_client, conn_string_for, open_connection, open_all,
  open_config, from_file, duplicate_name, connect_with, connected,
}
use locutus.Prelude.{
  String, Bool, false, ◌||◌, ◌≡◌, refl, sym, ap, ◌∙◌, subst, ◌⊎◌, inl, inr, none, some, List, [],
  ◌∷◌, All, ◌==◌, eq_iff, Bool-cases, Option-cases, arith,
}
use locutus.Outcome.{Error, wrap, Outcome, ok, err, panic, pure, lift, wrapping, >>=-eq-ok}
use locutus.Maps.{Assoc, lookup, insert, lookup-insert}
use locutus.Env.{Env}
use locutus.Db.{Connection, Connections, type_cockroachdb}

-- Whether a connection of the configuration has the name.
unfoldable pub has_name : String → List ConnectionConfig → Bool
has_name x [] = false
has_name x (c ∷ cs) = c.name == x || has_name x cs

abbrev pub Distinct : List ConnectionConfig → Type 0
Distinct [] = Unit
Distinct (c ∷ cs) = (has_name c.name cs ≡ false) × Distinct cs

abbrev Fresh : Assoc (Unit {0}) → ConnectionConfig → Type 0
Fresh names c = lookup c.name names ≡ none

not_named :
    (x : String) (cs : List ConnectionConfig) (names : Assoc (Unit {0}))
    → All (Fresh (insert x tt names)) cs
    → (has_name x cs ≡ false) × All (Fresh names) cs
unfolding has_name
not_named x [] names h = (refl, tt)
not_named x (c ∷ cs) names h =
    let (rest, fresh) = not_named x cs names h.1 in
    elim (Bool-cases (x == c.name)) [
      | inl same ↦ absurd (let n = h.0 in cc (rw (lookup-insert x c.name tt names, same) at n))
      | inr other ↦ (
        ground (arith, other, rest, eq_iff x c.name, eq_iff c.name x),
        (let n = h.0 in rw (lookup-insert x c.name tt names, other) at n, fresh),
      )
    ]

check_names-Distinct :
    (cs : List ConnectionConfig) (names : Assoc (Unit {0}))
    → (check_names cs names ≡ ok tt) × Distinct cs × All (Fresh names) cs
      ⊎ ((e : Error) × (check_names cs names ≡ err e))
unfolding check_names
check_names-Distinct [] names = inl (refl, tt, tt)
check_names-Distinct (c ∷ cs) names = elim (Option-cases (lookup c.name names)) [
  | inr (_, taken) ↦ inr (duplicate_name c.name, rw taken)
  | inl free ↦ elim (check_names-Distinct cs (insert c.name tt names)) [
    | inl (passed, distinct, fresh) ↦
        let (unnamed, fresh') = not_named c.name cs names fresh in
        inl (rw free passed, (unnamed, distinct), (free, fresh'))
    | inr (e, failed) ↦ inr (e, rw free failed)
  ]
]

-- The connection of this name is there, and it is one of the type that the program supports.
abbrev pub IsOpened : Assoc Connection → ConnectionConfig → Type 0
IsOpened opened c =
    (conn : Connection) × (lookup c.name opened ≡ some conn) × (conn.type ≡ type_cockroachdb)

IsOpened-insert :
    (name : String) (conn : Connection) (opened : Assoc Connection) (c : ConnectionConfig)
    → conn.type ≡ type_cockroachdb
    → IsOpened opened c
    → IsOpened (insert name conn opened) c
IsOpened-insert name conn opened c t (old, found, is) = elim (Bool-cases (name == c.name)) [
  | inl same ↦ (conn, rw (lookup-insert name c.name conn opened, same), t)
  | inr other ↦ (old, rw (lookup-insert name c.name conn opened, other) found, is)
]

IsOpened-self :
    (conn : Connection) (opened : Assoc Connection) (c : ConnectionConfig)
    → conn.type ≡ type_cockroachdb
    → IsOpened (insert c.name conn opened) c
IsOpened-self conn opened c t =
    (conn, rw (lookup-insert c.name c.name conn opened, (eq_iff c.name c.name).1 refl), t)

module _ (env : Env) where
  open env use {World, read_file, connect_pool, register_metric}

  open_connection-type :
      (d : String) (c : ConnectionConfig) (w w' : World) (conn : Connection)
      → open_connection env d c w ≡ (ok conn, w')
      → conn.type ≡ type_cockroachdb
  unfolding open_connection
  open_connection-type d c w w' conn h = elim (Bool-cases (c.type == type_cockroachdb)) [
    | inr other ↦ absurd (cc (rw other at h))
    | inl same ↦
        let (s, w₁, _, rest) =
          >>=-eq-ok (conn_string_for env d c.cockroachdb) (connect_with env c) w (rw same at h) in
        let (client, w₂, _, last) =
          >>=-eq-ok
            (wrapping (wrap "create cockroachdb client (conn_string: %v): %w" (s ∷ []))
              (new_cockroach_client env s))
            (λ client. pure (connected env c client)) w₁ rest in
        sym (ap (λ x. type_of x.0) last) ∙ (eq_iff c.type type_cockroachdb).0 same
  ]
    where
      type_of : Outcome Connection → String
      type_of (ok x) = x.type
      type_of (err _) = ""
      type_of panic = ""

  open_all-IsOpened :
      (d : String) (cs : List ConnectionConfig) (opened opened' : Assoc Connection) (w w' : World)
      → open_all env d cs opened w ≡ (ok opened', w')
      → All (IsOpened opened') cs
        × ((c : ConnectionConfig) → IsOpened opened c → IsOpened opened' c)
  unfolding open_all
  open_all-IsOpened d [] opened opened' w w' h =
      let same : opened ≡ opened' = cc in (tt, λ c o. subst (λ m. IsOpened m c) same o)
  open_all-IsOpened d (c ∷ cs) opened opened' w w' h =
      let (conn, w₁, got, rest) = >>=-eq-ok (open_connection env d c) _ w h in
      let t = open_connection-type d c w w₁ conn got in
      let (all, keeps) = open_all-IsOpened d cs (insert c.name conn opened) opened' w₁ w' rest in
      (
        (keeps c (IsOpened-self conn opened c t), all),
        λ e o. keeps e (IsOpened-insert c.name conn opened e t o),
      )

  module _ (decode : String → Outcome (List ConnectionConfig)) (file default_file : String) where
    pub from_file-config :
        (contents : String) (configs : List ConnectionConfig) (w w₁ : World)
        → read_file file w ≡ (ok contents, w₁)
        → decode contents ≡ ok configs
        → from_file env decode file default_file w ≡ open_config env default_file configs w₁
    unfolding from_file
    from_file-config contents configs w w₁ r d = rw (r, d)

    -- Where FromFile reads a file that decodes to connections and returns no error, the connections
    -- have different names, and each of them is there under its name, with the one type that is
    -- supported.
    pub from_file-IsOpened :
        (contents : String) (configs : List ConnectionConfig) (w w₁ w' : World)
        (conns : Connections)
        → read_file file w ≡ (ok contents, w₁)
        → decode contents ≡ ok configs
        → from_file env decode file default_file w ≡ (ok conns, w')
        → Distinct configs × All (IsOpened conns.connections) configs
    from_file-IsOpened contents configs w w₁ w' conns r d h =
        let h' = sym (from_file-config contents configs w w₁ r d) ∙ h in
        let (_, w₂, checked, rest) = >>=-eq-ok (lift (check_names configs [])) _ w₁ h' in
        let (opened, w₃, ran, last) = >>=-eq-ok (open_all env default_file configs []) _ w₂ rest in
        let same : opened ≡ conns.connections = ap connections_of (ap (λ x. x.0) last) in
        (
          elim (check_names-Distinct configs []) [
            | inl (_, distinct, _) ↦ distinct
            | inr (e, failed) ↦ absurd (cc)
          ],
          subst (λ m. All (IsOpened m) configs) same
              (open_all-IsOpened default_file configs [] opened w₂ w₃ ran).0,
        )
      where
        connections_of : Outcome Connections → Assoc Connection
        connections_of (ok x) = x.connections
        connections_of (err _) = []
        connections_of panic = []

    -- Where FromFile reads a file that decodes to connections of which two have one name, it
    -- returns an error, and has done nothing but read the file.
    pub from_file-refused :
        (contents : String) (configs : List ConnectionConfig) (w w₁ : World)
        → read_file file w ≡ (ok contents, w₁)
        → decode contents ≡ ok configs
        → ¬ Distinct configs
        → (e : Error) × (from_file env decode file default_file w ≡ (err e, w₁))
    from_file-refused contents configs w w₁ r d twice = elim (check_names-Distinct configs []) [
      | inl (_, distinct, _) ↦ absurd (twice distinct)
      | inr (e, failed) ↦ (e, from_file-config contents configs w w₁ r d ∙ rw failed)
    ]
