-- ===== src/Cli/Unconnected.antt =====
-- Main of cli/cli.go with a file of queries and no connections.
use locutus.Cli.{Flags, Outside, Wired, SourceMap, open_connections, database_sources, wire}
use locutus.Prelude.{
  String, false, ◌≡◌, ◌≢◌, refl, sym, ap, ◌∙◌, none, List, [], ◌∷◌, ◌==◌, ==_ne, eq_iff,
}
use locutus.Outcome.{ok, panic, lift, wrapping, wrap, >>=-eq-ok, wrapping-eq-ok}
use locutus.Env.{Env, RestConfig}
use locutus.Source.{SourceQuery, new_database_sources, input_sources, sources_for}
use locutus.Trigger.Resource.{Regexp}
use locutus.Cli.Wiring.{wire-Steps}

module _ (env : Env) (re : Regexp) (out : Outside env re) (flags : Flags) (cfg : RestConfig) where
  open env use {World}

  unconnected :
      (queries : List SourceQuery) → queries ≢ [] → sources_for env none queries [] ≡ panic
  unfolding sources_for
  unconnected [] h = absurd (h refl)
  unconnected (q ∷ qs) h = refl

  never_sourced :
      (sources sources' : SourceMap env re) (w w' : World)
      → (flags.source_database_file == "") ≡ false
      → ((contents : String) (v v' : World)
          → env.read_file flags.source_database_file v ≡ (ok contents, v')
          → out.decode_queries contents ≢ ok [])
      → database_sources env re out flags none sources w ≢ (ok sources', w')
  unfolding database_sources new_database_sources
  never_sourced sources sources' w w' given queried h =
      let (s, v₁, made, rest) =
        >>=-eq-ok (new_database_sources env out.decode_queries none flags.source_database_file) _ w
          (rw given at h) in
      let (contents, v₂, was_read, made') =
        >>=-eq-ok
          (wrapping (wrap "open config file: %w" []) (env.read_file flags.source_database_file)) _ w
          made in
      let (queries, v₃, decoded, last) =
        >>=-eq-ok (wrapping (wrap "parse config file: %w" []) (lift (out.decode_queries contents)))
          _ v₂ made' in
      let decoded' =
        ap (λ x. x.0) (wrapping-eq-ok _ (lift (out.decode_queries contents)) v₂ decoded) in
      let (more, v₄, sourced, _) = >>=-eq-ok (lift (input_sources env s)) _ v₁ rest in
      let same : record { conns = none; queries = queries } ≡ s = cc in
      let nonempty : queries ≢ [] = λ e.
        queried contents _ v₂
          (wrapping-eq-ok _ (env.read_file flags.source_database_file) _ was_read)
          (decoded' ∙ ap ok e) in
      let panics : input_sources env s ≡ panic =
        ap (input_sources env) (sym same) ∙ unconnected queries nonempty in
      cc (ap (λ x. x.0) sourced)

  -- With a file of queries that has some whenever it is read and decodes, and no file of
  -- connections, Main never gets to its run group.
  pub wire-unconnected :
      (w w' : World) (wired : Wired env re)
      → flags.database_connections_file ≡ ""
      → flags.source_database_file ≢ ""
      → ((contents : String) (v v' : World)
          → env.read_file flags.source_database_file v ≡ (ok contents, v')
          → out.decode_queries contents ≢ ok [])
      → wire env re out flags cfg w ≢ (ok wired, w')
  unfolding open_connections
  wire-unconnected w w' wired no_file source queried h =
      let s = wire-Steps env re out flags cfg w w' wired h in
      let is_none : none ≡ s.conns =
        cc (rw ((eq_iff flags.database_connections_file "").1 no_file) at s.opened) in
      never_sourced s.sources_before s.sources s.w₂ s.w₃
        (==_ne flags.source_database_file "" source) queried
        (ap (λ c. database_sources env re out flags c s.sources_before s.w₂) is_none ∙ s.sourced)
