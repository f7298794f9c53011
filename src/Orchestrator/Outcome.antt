-- ===== src/Orchestrator/Outcome.antt =====
-- The outcome of one scenario: pkg/orchestrator/orchestrator.go.
use evidra_bench.Base.{
  String, ℤ, pos, negsuc, Bool, true, false, List, [], ◌∷◌, Option, none, some, ◌≡◌, ◌⊎◌, eqb,
  if◌then◌else◌, not, ◌||◌, ◌↔◌,
}

pub record ScenarioOutcome : Type 0 where
  pub status : String
  pub exit_code : ℤ
  pub passed : Bool
  pub failed : Bool
  pub skipped : Bool
  pub infra : Bool

-- What errors.As finds in the error of a run: an IncompatibleProviderError, an InfraError or neither.
pub data RunError : Type 0 where
  incompatible infra_error other : RunError

-- The fields of harness.RunResult that are read.
pub record HarnessResult : Type 0 where
  pub passed : Bool
  pub exit_code : ℤ

abbrev infra_outcome : ScenarioOutcome
infra_outcome = record {
  status = "error";
  exit_code = negsuc 0;
  passed = false;
  failed = true;
  skipped = false;
  infra = true;
}

abbrev failed_outcome : ℤ → ScenarioOutcome
failed_outcome code = record {
  status = "failed";
  exit_code = code;
  passed = false;
  failed = true;
  skipped = false;
  infra = false;
}

abbrev passed_outcome : ℤ → ScenarioOutcome
passed_outcome code = record {
  status = "passed";
  exit_code = code;
  passed = true;
  failed = false;
  skipped = false;
  infra = false;
}

unfoldable pub classify_scenario_error : Option RunError → ScenarioOutcome
classify_scenario_error none = passed_outcome (pos 0)
classify_scenario_error (some incompatible) = record {
  status = "skipped";
  exit_code = pos 0;
  passed = false;
  failed = false;
  skipped = true;
  infra = false;
}
classify_scenario_error (some infra_error) = infra_outcome
classify_scenario_error (some other) = failed_outcome (pos 1)

unfoldable pub is_zero : ℤ → Bool
is_zero (pos n) = eqb n 0
is_zero (negsuc n) = false

-- A run that ended without an error.
unfoldable pub classify_completed : Option HarnessResult → ScenarioOutcome
classify_completed none = infra_outcome
classify_completed (some r) =
    if r.passed
    then passed_outcome r.exit_code
    else failed_outcome (if is_zero r.exit_code then pos 1 else r.exit_code)

unfoldable pub classify_scenario_result : Option HarnessResult → Option RunError → ScenarioOutcome
classify_scenario_result result none = classify_completed result
classify_scenario_result result (some e) = classify_scenario_error (some e)

-- The profiles that a scenario resolves to; `other_profile` holds any other text.
pub data ExecutionProfile : Type 0 where
  default argocd aws_localstack : ExecutionProfile
  other_profile : String → ExecutionProfile

pub record Scenario : Type 0 where
  pub id : String
  pub profile : ExecutionProfile

-- The first scenario that is refused; `none` is a nil error.
unfoldable pub validate_parallel_profiles : List Scenario → Option Scenario
validate_parallel_profiles [] = none
validate_parallel_profiles (s ∷ rest) = elim s.profile [
  | ExecutionProfile.default ↦ validate_parallel_profiles rest
  | _ ↦ some s
]

-- The run ended without an error, and its result says that it passed.
pub record HasPassed (result : Option HarnessResult) (e : Option RunError) : Type 0 where
  pub no_error : e ≡ none
  pub harness_result : HarnessResult
  pub given : result ≡ some harness_result
  pub pass : harness_result.passed ≡ true

-- The run has an infrastructure error, or neither an error nor a result.
pub IsInfra : Option HarnessResult → Option RunError → Type 0
IsInfra result e = (e ≡ some infra_error) ⊎ ((e ≡ none) × (result ≡ none))

-- What the outcome says of the result and the error.
pub record IsClassified (result : Option HarnessResult) (e : Option RunError) (o : ScenarioOutcome)
    : Type 0 where
  pub passes : (o.passed ≡ true) ↔ HasPassed result e
  pub skips : (o.skipped ≡ true) ↔ (e ≡ some incompatible)
  pub blames : (o.infra ≡ true) ↔ IsInfra result e
  pub fails : o.failed ≡ not (o.passed || o.skipped)
  pub coded : o.failed ≡ true → is_zero o.exit_code ≡ false
  pub reported :
      (r : HarnessResult)
      → e ≡ none
      → result ≡ some r
      → (r.passed || not (is_zero r.exit_code)) ≡ true
      → o.exit_code ≡ r.exit_code
