-- ===== src/Rollout/Checks/Defs.antt =====
-- rollout/checks/success_check.go: the values at the paths of a definition, and their comparison
-- with what the definition expects.
use locutus.Prelude.{
  String, Bool, true, false, ◌&&◌, ◌||◌, Option, none, some, List, [], ◌∷◌, ◌==◌, if◌then◌else◌,
}
use locutus.Outcome.{Error, text, external, Outcome, ok, err, panic, chain, M, lift, ◌>>=◌}
use locutus.Maps.{Assoc, lookup, insert}
use locutus.Value.{Value, nil, int64, deep_equal}
use locutus.Env.{Env}
use locutus.Client.{ResourceClient}
use locutus.Rollout.Types.{ExpectedFieldComparisonValue, FieldComparisonValue}

-- strings.HasSuffix
unfoldable pub has_suffix : String → String → Bool
has_suffix String.[] t = String.[] == t
has_suffix (String.◌∷◌ c s) t = String.◌∷◌ c s == t || has_suffix s t

abbrev pub is_nil : Value → Bool
is_nil nil = true
is_nil _ = false

-- m[k] of a map of interface{}: nil where there is no entry
abbrev pub value_at : String → Assoc Value → Value
value_at k m = elim (lookup k m) [ none ↦ nil | some v ↦ v ]

abbrev pub different_amount : Error
different_amount = text "Expected 1 result but found different amount." []

-- The result of `findResult` where no error of jsonpath stops it.
abbrev pub pick_result : Value → List (List Value) → Outcome Value
pick_result default ((v ∷ []) ∷ []) = ok v
pick_result default [] = if is_nil default then err different_amount else ok default
pick_result default _ = err different_amount

pub record CheckReport : Type 0 where
  pub check_name : String
  -- the verdict at the start of the message, and the two values that the message shows
  pub message : String
  pub observed : Value
  pub expected : Value

abbrev pub path_of_value : FieldComparisonValue → Assoc Value → Value
path_of_value v values =
    if v.path == ""
    then (if is_nil v.static then int64 v.static_int64 else v.static)
    else value_at v.path values

abbrev pub compared : String → Value → Value → Bool × CheckReport
compared name v expected =
    let eq = deep_equal v expected in
    (
      eq,
      record {
        check_name = name;
        message = if eq then "field comparison succeeded: " else "field comparison failed: ";
        observed = v;
        expected = expected;
      },
    )

-- The definition's value is a pointer: the function reads through it without a test.
unfoldable pub check_field_comparison :
    ExpectedFieldComparisonValue → Assoc Value → Outcome (Bool × CheckReport)
check_field_comparison ev values = elim ev.value [
  | none ↦ panic
  | some v ↦ ok (compared ev.name (value_at ev.path values) (path_of_value v values))
]

abbrev pub add_report :
    Outcome (Bool × CheckReport)
    → Outcome (Bool × List CheckReport)
    → Outcome (Bool × List CheckReport)
add_report (ok (b, r)) (ok (bs, rs)) = ok (b && bs, r ∷ rs)
add_report (ok (b, r)) (err e) = err e
add_report (ok (b, r)) panic = panic
add_report (err e) _ = err e
add_report panic _ = panic

-- The loop over the expected values: every one is compared, and `success` is false from the first
-- failure on.
unfoldable pub check_comparisons :
    List ExpectedFieldComparisonValue → Assoc Value → Outcome (Bool × List CheckReport)
unfolding check_field_comparison
check_comparisons [] values = ok (true, [])
check_comparisons (ev ∷ evs) values =
    add_report (check_field_comparison ev values) (check_comparisons evs values)

module _ (env : Env) where
  open env use {World, Obj, ParsedPath, parse_path, find_results, get}

  pub record JsonPath : Type 0 where
    pub jsonpath : ParsedPath
    pub default_value : Value

  abbrev pub found_or_failed : Value → List (List Value) → Option String → Outcome Value
  found_or_failed default results none = pick_result default results
  found_or_failed default results (some message) =
      if has_suffix message " is not found"
      then pick_result default results
      else err (external message)

  unfoldable pub find_result : JsonPath → Obj → Outcome Value
  unfolding has_suffix
  find_result j u =
      let (results, failure) = find_results j.jsonpath u in
      found_or_failed j.default_value results failure

  -- paths[ev.Value.ParsedPath], for a value that is compared with another path
  abbrev pub add_value_path :
      Option FieldComparisonValue → Assoc JsonPath → Outcome (Assoc JsonPath)
  add_value_path none paths = ok paths
  add_value_path (some v) paths =
      if v.path == ""
      then ok paths
      else chain (parse_path v.path)
          (λ p. ok (insert v.path (record { jsonpath = p; default_value = nil }) paths))

  unfoldable pub add_paths :
      ExpectedFieldComparisonValue → Assoc JsonPath → Outcome (Assoc JsonPath)
  add_paths ev paths = chain (parse_path ev.path) λ p.
      add_value_path ev.value
        (insert ev.path (record { jsonpath = p; default_value = ev.default }) paths)

  -- the loop of NewCheckRunner
  unfoldable pub paths_from :
      List ExpectedFieldComparisonValue → Assoc JsonPath → Outcome (Assoc JsonPath)
  paths_from [] paths = ok paths
  paths_from (ev ∷ evs) paths = chain (add_paths ev paths) (λ more. paths_from evs more)

  -- The loop of currentValues. Go visits a map in any order, so which of two errors is returned
  -- depends on it; here it is the order of first insertion.
  unfoldable pub values_from : Obj → Assoc JsonPath → Assoc Value → Outcome (Assoc Value)
  values_from u [] res = ok res
  values_from u ((p, j) ∷ paths) res =
      chain (find_result j u) (λ v. values_from u paths (insert p v res))

  unfoldable pub current_values :
      Assoc JsonPath → ResourceClient env → String → M World (Assoc Value)
  current_values paths rc name = do u ← get rc.endpoint name; lift (values_from u paths [])
