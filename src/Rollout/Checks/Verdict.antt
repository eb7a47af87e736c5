-- ===== src/Rollout/Checks/Verdict.antt =====
-- What a CheckRunner of rollout/checks/success_check.go has seen when its Execute returns no
-- error, and what its two polls do.
use locutus.Prelude.{ℕ, zero, suc, Bool, true, false, ◌≡◌, some, List}
use locutus.Outcome.{Error, Outcome, ok, err, M, is_wait_timeout}
use locutus.Maps.{Assoc}
use locutus.Value.{Value}
use locutus.Env.{Env}
use locutus.Env.Laws.{tries}
use locutus.Client.{ResourceClient, client_for_unstructured}
use locutus.Rollout.Types.{ReportConfig}
use locutus.Rollout.Checks.Defs.{CheckReport, current_values, check_comparisons}
use locutus.Rollout.Checks.Runner.{CheckRunner, send_report, outer_condition}

module _ (env : Env) where
  open env use {World, Obj, name, poll}

  -- The condition was tried so often, and answered false each time.
  abbrev pub FalseTries : M World Bool → ℕ → World → World → Type 0
  FalseTries condition zero w w' = w ≡ w'
  FalseTries condition (suc n) w w' =
      (w₁ : World) × (condition w ≡ (ok false, w₁)) × FalseTries condition n w₁ w'

  -- After some tries that did not suffice, a read of the object, by its name and with the client
  -- for it, showed the expected values.
  abbrev pub Achieved : CheckRunner env → Obj → World → Type 0
  Achieved c u w =
      (rc : ResourceClient env) × (w₁ : World) × (n : ℕ) × (before : World) × (after : World)
      × (values : Assoc Value) × (reports : List CheckReport) × (client_for_unstructured env
            c.client u w
          ≡ (ok rc, w₁))
      × FalseTries (outer_condition env c rc u) n w₁ before
      × (current_values env c.paths rc (name u) before ≡ (ok values, after))
      × (check_comparisons c.comparisons.expected_values values ≡ ok (true, reports))

  -- The tries of the condition ended with a timeout, which was reported to the database, and the
  -- report succeeded.
  abbrev pub ReportedTimeout : CheckRunner env → Obj → World → World → Type 0
  ReportedTimeout c u w w' =
      (rc : ResourceClient env) × (w₁ : World) × (n : ℕ) × (e : Error) × (w₂ : World)
      × (report : ReportConfig) × (client_for_unstructured env c.client u w ≡ (ok rc, w₁))
      × (tries n (outer_condition env c rc u) w₁ ≡ (err e, w₂))
      × (is_wait_timeout e ≡ true)
      × (c.comparisons.report_timeout ≡ some report)
      × (send_report env c.database_connections report w₂ ≡ (ok tt, w'))
