-- ===== src/Rollout/Checks/Comparing.antt =====
-- The verdict of checkComparisons of rollout/checks/success_check.go.
use locutus.Prelude.{Bool, true, ◌≡◌, ◌≢◌, ◌↔◌, some, List, map, All}
use locutus.Outcome.{Outcome, ok}
use locutus.Maps.{Assoc}
use locutus.Value.{Value, nil, int64, deep_equal}
use locutus.Rollout.Types.{ExpectedFieldComparisonValue, FieldComparisonValue}
use locutus.Rollout.Checks.Defs.{CheckReport, value_at}

-- What a value is compared with: with a path, the value read under it; without, the static value, or
-- the integer where that is not set.
pub data Expects (values : Assoc Value) (v : FieldComparisonValue) : Value → Type 0 where
  of_path : v.path ≢ "" → Expects values v (value_at v.path values)
  of_static : v.path ≡ "" → v.static ≢ nil → Expects values v v.static
  of_integer : v.path ≡ "" → v.static ≡ nil → Expects values v (int64 v.static_int64)

-- The observed value is DeepEqual to the expected one.
abbrev pub Holds : Assoc Value → ExpectedFieldComparisonValue → Type 0
Holds values ev =
    (v : FieldComparisonValue) × (ev.value ≡ some v)
    × (x : Value) × Expects values v x
    × (deep_equal (value_at ev.path values) x ≡ true)

-- A run that ends with a verdict, which is true exactly when every expected value holds, and with
-- one report for each expected value, in order.
abbrev pub Judges :
    List ExpectedFieldComparisonValue → Assoc Value → Outcome (Bool × List CheckReport) → Type 0
Judges evs values o =
    (b : Bool) × (reports : List CheckReport) × (o ≡ ok (b, reports))
    × ((b ≡ true) ↔ All (Holds values) evs)
    × (map (λ r. r.check_name) reports ≡ map (λ ev. ev.name) evs)
