-- ===== src/Rollout/Checks/Failures.antt =====
-- What `checkFailed` and the inner poll of rollout/checks/success_check.go answer.
use locutus.Prelude.{
  not, ◌↔◌, refl, Bool, true, false, ◌≡◌, ◌⊎◌, inl, inr, some, List, [], ◌∷◌, Bool-cases,
  Option-cases,
}
use locutus.Outcome.{Error, wrap, ok, err, wrapping, >>=-eq-ok, wrapping-eq-ok, attempt-eq-ok}
use locutus.Maps.{Assoc, lookup}
use locutus.Value.{Value, object, deep_equal}
use locutus.Value.Laws.{IsPlain, deep_equal_refl}
use locutus.Env.{Env}
use locutus.Client.{ResourceClient}
use locutus.Rollout.Types.{ReportConfig, FailureDefinition}
use locutus.Rollout.Checks.Defs.{CheckReport, current_values, check_comparisons}
use locutus.Rollout.Checks.Runner.{
  Check, CheckRunner, to_fields, send_report, failed_with, check_each, check_failed,
  inner_condition,
}

module _ (env : Env) (c : CheckRunner env) (u : env.Obj) where
  open env use {World, name}

  -- Every failure check ran, one after the other, and passed.
  abbrev pub Passed : List FailureDefinition → World → World → Type 0
  Passed [] w w' = w ≡ w'
  Passed (fd ∷ fds) w w' =
      (check : Check env) × (w₁ : World) × (lookup fd.check_name c.known_checks ≡ some check)
      × (check.execute c.client u w ≡ (ok tt, w₁))
      × Passed fds w₁ w'

  -- This check failed with an error that it recognises, which was reported.
  abbrev pub FailedReported : FailureDefinition → Check env → World → World → Type 0
  FailedReported fd check w w' =
      (e : Error) × (w₁ : World) × (report : ReportConfig) × (check.execute c.client u w
        ≡ (err e, w₁))
      × (fd.report ≡ some report)
      × (check.is_failed_error e ≡ true)
      × (send_report env c.database_connections report w₁ ≡ (ok tt, w'))

  -- Some checks passed, the next one failed and was reported, and the rest did not run.
  abbrev pub Reported : List FailureDefinition → World → World → Type 0
  Reported [] w w' = ⊥
  Reported (fd ∷ fds) w w' =
      (check : Check env) × (lookup fd.check_name c.known_checks ≡ some check)
      × (((w₁ : World) × (check.execute c.client u w ≡ (ok tt, w₁)) × Reported fds w₁ w')
          ⊎ FailedReported fd check w w')

  failed_with-ok :
      (fd : FailureDefinition) (check : Check env) (e : Error) (w w₁ w' : World)
      → check.execute c.client u w ≡ (err e, w₁)
      → failed_with env c fd check e w₁ ≡ (ok tt, w')
      → FailedReported fd check w w'
  failed_with-ok fd check e w w₁ w' failed h = elim (Option-cases fd.report) [
    | inl unset ↦ absurd (cc (rw unset at h))
    | inr (report, set) ↦ elim (Bool-cases (check.is_failed_error e)) [
      | inl known ↦ (
        e,
        w₁,
        report,
        failed,
        set,
        known,
        wrapping-eq-ok (wrap "failed to report failure" [])
            (send_report env c.database_connections report) w₁ (rw (set, known) at h),
      )
      | inr other ↦ absurd (cc (rw (set, other) at h))
    ]
  ]

  check_each-ok :
      (fds : List FailureDefinition) (w w' : World)
      → check_each env c fds u w ≡ (ok tt, w')
      → Passed fds w w' ⊎ Reported fds w w'
  unfolding check_each
  check_each-ok [] w w' h = inl (cc)
  check_each-ok (fd ∷ fds) w w' h = elim (Option-cases (lookup fd.check_name c.known_checks)) [
    | inl unknown ↦ absurd (cc (rw (unknown, check_each) at h))
    | inr (check, found) ↦
        elim (attempt-eq-ok (check.execute c.client u) (λ _. check_each env c fds u)
          (failed_with env c fd check) w (rw (found, check_each) at h)) [
            | inl (_, w₁, passed, rest) ↦ elim (check_each-ok fds w₁ w' rest) [
              | inl all ↦ inl (check, w₁, found, passed, all)
              | inr some_reported ↦ inr (check, found, inl (w₁, passed, some_reported))
            ]
            | inr (e, w₁, failed, rest) ↦
                inr (check, found, inr (failed_with-ok fd check e w w₁ w' failed rest))
          ]
  ]

  -- `checkFailed` returns no error only if every failure check passed, or if the first one that
  -- failed did so with an error that it recognises, and the report of that went through. So a
  -- reported failure does not stop the check, and the failure checks behind it do not run.
  pub check_failed-ok :
      (w w' : World)
      → check_failed env c u w ≡ (ok tt, w')
      → Passed c.failure w w' ⊎ Reported c.failure w w'
  unfolding check_failed
  check_failed-ok w w' h = check_each-ok c.failure w w' h

  answers : (b equal : Bool) → b ≡ not equal → (b ≡ true) ↔ (equal ≡ false)
  answers b true h = ((λ yes. cc), (λ no. cc))
  answers b false h = ((λ yes. refl), (λ no. h))

  -- After outer values that do not suffice, an inner condition that returns without an error
  -- answers true exactly when the values that it read are not DeepEqual to the outer ones, whether
  -- or not those that it read suffice.
  pub inner_condition-changed :
      (rc : ResourceClient env) (outer_values : Assoc Value) (reports : List CheckReport)
      (w w' : World) (b : Bool)
      → check_comparisons c.comparisons.expected_values outer_values ≡ ok (false, reports)
      → inner_condition env c rc u outer_values w ≡ (ok b, w')
      → (inner_values : Assoc Value) × (w₁ : World) × (current_values env c.paths rc (name u) w
          ≡ (ok inner_values, w₁))
        × ((b ≡ true) ↔ (
            deep_equal (object (to_fields outer_values)) (object (to_fields inner_values)) ≡ false))
  unfolding inner_condition
  inner_condition-changed rc outer_values reports w w' b judged h =
      let (inner_values, w₁, read, rest) =
        >>=-eq-ok
          (wrapping (wrap "failed to extract updated status information" [])
            (current_values env c.paths rc (name u)))
          _ w h in
      let rest' = rw judged at rest in
      let (_, w₂, _, last) =
        >>=-eq-ok (wrapping (wrap "check if rollout failed" []) (check_failed env c u)) _ w₁
          rest' in
      (
        inner_values,
        w₁,
        wrapping-eq-ok _ (current_values env c.paths rc (name u)) w read,
        answers b _ (cc),
      )

  -- Where an object shows the values that did not suffice before, and its failure checks pass, the
  -- inner condition answers false, so that the inner poll goes on waiting for progress. The values
  -- hold no NaN and no key twice.
  pub inner_condition-stalled :
      (rc : ResourceClient env) (values : Assoc Value) (reports : List CheckReport)
      (w w₁ w₂ : World)
      → IsPlain (object (to_fields values))
      → check_comparisons c.comparisons.expected_values values ≡ ok (false, reports)
      → current_values env c.paths rc (name u) w ≡ (ok values, w₁)
      → check_failed env c u w₁ ≡ (ok tt, w₂)
      → inner_condition env c rc u values w ≡ (ok false, w₂)
  unfolding inner_condition
  inner_condition-stalled rc values reports w w₁ w₂ plain judged read passed =
      rw (read, judged, passed, deep_equal_refl (object (to_fields values)) plain)
