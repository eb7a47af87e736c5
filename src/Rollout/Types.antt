-- ===== src/Rollout/Types.antt =====
-- rollout/types/types.go, and render.Result of render/types.go. A pointer that may be nil is an
-- `Option`. A Duration is its nanoseconds; a negative one does not occur in a valid spec.
use locutus.Prelude.{ℕ, ℤ, String, Bool, Option, List}
use locutus.Maps.{Assoc}
use locutus.Value.{Value}
use locutus.Env.{Env}

pub record Metadata : Type 0 where
  pub name : String

pub record DatabaseReportConfig : Type 0 where
  pub database_name : String
  pub stmt : String

pub record ReportConfig : Type 0 where
  pub database : Option DatabaseReportConfig

pub record FailureDefinition : Type 0 where
  pub check_name : String
  pub report : Option ReportConfig

-- `static` is nil where the spec has none; `static_int64` is a 64-bit pattern.
pub record FieldComparisonValue : Type 0 where
  pub path : String
  pub static : Value
  pub static_int64 : ℕ

pub record ExpectedFieldComparisonValue : Type 0 where
  pub name : String
  pub path : String
  pub default : Value
  pub value : Option FieldComparisonValue

pub record FieldComparisons : Type 0 where
  pub expected_values : List ExpectedFieldComparisonValue
  pub timeout : ℤ
  pub progress_timeout : ℤ
  pub poll_interval : ℤ
  pub report_timeout : Option ReportConfig
  pub failure : List FailureDefinition

pub record SuccessDefinition : Type 0 where
  pub field_comparisons : Option FieldComparisons
  pub failure : List FailureDefinition

pub record Step : Type 0 where
  pub name : String
  pub object : String
  pub action : String
  pub success : List SuccessDefinition
  pub continue_on_error : Bool

pub record RolloutGroup : Type 0 where
  pub name : String
  pub parallel : Bool
  pub steps : List Step

pub record RolloutSpec : Type 0 where
  pub parallel : Bool
  pub groups : List RolloutGroup

pub record Rollout : Type 0 where
  pub api_version : String
  pub kind : String
  pub metadata : Option Metadata
  pub spec : Option RolloutSpec

-- render.Result
pub record RenderResult (env : Env) : Type 0 where
  pub objects : Assoc env.Obj
  pub rollout : Option Rollout
