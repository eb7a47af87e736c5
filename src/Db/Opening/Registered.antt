-- ===== src/Db/Opening/Registered.antt =====
-- The metric that each client of source/crdb/client.go registers, under FromFile of db/config.go.
use locutus.Db.Opening.{
  ConnectionConfig, check_names, new_cockroach_client, conn_string_for, open_connection, open_all,
  from_file, or_blank, connect_with, connected,
}
use locutus.Db.Opening.Opened.{from_file-config}
use locutus.Prelude.{
  String, not, ◌&&◌, ◌≡◌, ◌≢◌, sym, ap, ◌∙◌, subst, inl, inr, Option, List, [], ◌∷◌, ◌==◌,
  Bool-cases,
}
use locutus.Outcome.{wrap, Outcome, ok, pure, lift, wrapping, >>=-eq-ok, wrapping-eq-ok}
use locutus.Env.{Env}
use locutus.Env.Laws.{Registry}
use locutus.Db.{Connection, Connections, CockroachClient, type_cockroachdb}

abbrev metric : String
metric = "database_transaction_duration_seconds"

module _ (env : Env) (registry : Registry env) where
  open env use {World, read_file, connect_pool, register_metric, parse_conn_string}
  open registry use {Registered}

  -- A client is made only by registering the metric, after a pool is connected.
  new_client-registers :
      (s : String) (w w' : World) (client : CockroachClient)
      → new_cockroach_client env s w ≡ (ok client, w')
      → Registered metric w' × ¬ Registered metric w
  unfolding new_cockroach_client
  new_client-registers s w w' client h =
      let (config, w₁, parsed, rest) =
        >>=-eq-ok (wrapping (wrap "failed to parse DB string: %w" []) (lift (parse_conn_string s)))
          _ w h in
      let (pool, w₂, wrapped, rest') =
        >>=-eq-ok
          (wrapping (wrap "failed to create connection pool (conn config: %#+v): %w" [])
            (connect_pool config))
          _ w₁ rest in
      let (_, w₃, registered, last) = >>=-eq-ok (register_metric metric) _ w₂ rest' in
      let opened = wrapping-eq-ok _ (connect_pool config) w₁ wrapped in
      let unmoved : w ≡ w₁ = ap (λ x. x.1) parsed in
      let unmoved' : w₃ ≡ w' = ap (λ x. x.1) last in
      (
        subst (Registered metric) unmoved' (registry.registers metric w₂ w₃ registered),
        λ before.
            let kept =
              registry.connect_keeps metric config w₁ (subst (Registered metric) unmoved before) in
            let again = subst (Registered metric) (ap (λ x. x.1) opened) kept in
            cc (registry.twice metric w₂ again),
      )

  conn_string-keeps :
      (d : String) (c : Option String) (w w' : World) (s : String)
      → conn_string_for env d c w ≡ (ok s, w')
      → Registered metric w
      → Registered metric w'
  unfolding conn_string_for
  conn_string-keeps d c w w' s h r = elim (Bool-cases (or_blank c == "" && not (d == ""))) [
    | inl default ↦
        let read = wrapping-eq-ok _ (read_file d) w (rw default at h) in
        subst (Registered metric) (ap (λ x. x.1) read) (registry.read_keeps metric d w r)
    | inr given ↦ subst (Registered metric) (ap (λ x. x.1) (rw given at h)) r
  ]

  open_connection-registers :
      (d : String) (c : ConnectionConfig) (w w' : World) (conn : Connection)
      → open_connection env d c w ≡ (ok conn, w')
      → Registered metric w' × ¬ Registered metric w
  unfolding open_connection
  open_connection-registers d c w w' conn h = elim (Bool-cases (c.type == type_cockroachdb)) [
    | inr other ↦ absurd (cc (rw other at h))
    | inl same ↦
        let (s, w₁, got, rest) =
          >>=-eq-ok (conn_string_for env d c.cockroachdb) (connect_with env c) w (rw same at h) in
        let (client, w₂, made, last) =
          >>=-eq-ok
            (wrapping (wrap "create cockroachdb client (conn_string: %v): %w" (s ∷ []))
              (new_cockroach_client env s))
            (λ client. pure (connected env c client)) w₁ rest in
        let made' = wrapping-eq-ok _ (new_cockroach_client env s) w₁ made in
        let (after, before) = new_client-registers s w₁ w₂ client made' in
        (
          subst (Registered metric) (ap (λ x. x.1) last) after,
          λ r. before (conn_string-keeps d c.cockroachdb w w₁ s got r),
        )
  ]

  -- Where a metric can be registered once only, and files and pools take none away, FromFile of two
  -- connections or more never returns connections: each client registers a metric of the same name.
  pub from_file-once :
      (decode : String → Outcome (List ConnectionConfig)) (file default_file contents : String)
      (first second : ConnectionConfig) (others : List ConnectionConfig) (w w₁ w' : World)
      (conns : Connections)
      → read_file file w ≡ (ok contents, w₁)
      → decode contents ≡ ok (first ∷ second ∷ others)
      → from_file env decode file default_file w ≢ (ok conns, w')
  unfolding open_all
  from_file-once decode file default_file contents first second others w w₁ w' conns r d h =
      let configs = first ∷ second ∷ others in
      let h' = sym (from_file-config env decode file default_file contents configs w w₁ r d) ∙ h in
      let (_, w₂, _, rest) = >>=-eq-ok (lift (check_names configs [])) _ w₁ h' in
      let (_, w₃, ran, _) = >>=-eq-ok (open_all env default_file configs []) _ w₂ rest in
      let (a, w₄, got, ran') = >>=-eq-ok (open_connection env default_file first) _ w₂ ran in
      let (b, w₅, got', _) = >>=-eq-ok (open_connection env default_file second) _ w₄ ran' in
      (open_connection-registers default_file second w₄ w₅ b got').1
        (open_connection-registers default_file first w₂ w₄ a got).0
