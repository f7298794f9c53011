-- ===== src/Evaluation/Plan.antt =====
-- The plan of an evaluation, its validation and its fingerprint: pkg/evaluation/plan.go.
use evidra_bench.Base.{
  String, ℕ, ℤ, ◌+◌, Bool, true, false, not, ◌&&◌, ◌||◌, List, [], ◌∷◌, Option, none, some,
  contains, is_nil, is_blank, is_empty, trim_space, is_positive, is_one, if◌then◌else◌,
}

-- A Go string of type TargetKind.
pub data TargetKind : Type 0 where
  model agent : TargetKind
  other : String → TargetKind

pub record CasePlan : Type 0 where
  pub id : String

pub record SuitePlan : Type 0 where
  pub id : String
  pub digest : String
  pub cases : List CasePlan
  pub required_model_capabilities : List String

pub record EnvironmentPlan : Type 0 where
  pub provider : String
  pub profile : String

pub record TargetPlan : Type 0 where
  pub kind : TargetKind
  pub provider : String
  pub model_name : String
  pub adapter : String
  pub command_identity : String
  pub endpoint_class : String
  pub credential_source : String
  pub model_digest : String
  pub parameter_size : String
  pub quantization : String
  pub capability_check : String

pub record Limits : Type 0 where
  pub case_timeout : ℤ
  pub max_turns : ℤ
  pub max_tokens : ℤ

pub record OutputPolicy : Type 0 where
  pub directory : String
  pub formats : List String

pub record Plan : Type 0 where
  pub version : String
  pub suite : SuitePlan
  pub environment : EnvironmentPlan
  pub target : TargetPlan
  pub limits : Limits
  pub attempts : ℤ
  pub output : OutputPolicy

-- The errors of `Validate`, one for each message.
pub data PlanError : Type 0 where
  suite_id_required suite_digest_required no_case : PlanError
  case_id_required : ℕ → PlanError
  duplicate_case : String → PlanError
  provider_required bad_target_kind incomplete_model_target incomplete_agent_target : PlanError
  nonpositive_timeout bad_attempts : PlanError

unfoldable pub is_model : TargetKind → Bool
is_model model = true
is_model _ = false

unfoldable pub is_agent : TargetKind → Bool
is_agent agent = true
is_agent _ = false

-- The loop over the cases, with its index and the ids met so far.
unfoldable pub validate_cases : ℕ → List String → List CasePlan → Option PlanError
validate_cases i seen [] = none
validate_cases i seen (c ∷ cs) =
    let id = trim_space c.id in
    let rest = validate_cases (i + 1) (id ∷ seen) cs in
    if is_empty id
    then some (case_id_required i)
    else if contains seen id
    then some (duplicate_case id)
    else rest

-- The tests behind the loop, in their order.
unfoldable pub validate_target : Plan → Option PlanError
validate_target p =
    if is_blank p.environment.provider
    then some provider_required
    else if not (is_model p.target.kind) && not (is_agent p.target.kind)
    then some bad_target_kind
    else if is_model p.target.kind && (is_blank p.target.provider || is_blank p.target.model_name)
    then some incomplete_model_target
    else if is_agent p.target.kind && is_blank p.target.adapter
    then some incomplete_agent_target
    else if not (is_positive p.limits.case_timeout)
    then some nonpositive_timeout
    else if not (is_one p.attempts)
    then some bad_attempts
    else none

unfoldable pub validate : Plan → Option PlanError
validate p =
    if is_blank p.suite.id
    then some suite_id_required
    else if is_blank p.suite.digest
    then some suite_digest_required
    else if is_nil p.suite.cases
    then some no_case
    else elim (validate_cases 0 [] p.suite.cases) [ some e ↦ some e | none ↦ validate_target p ]

abbrev pub plan_version : String
plan_version = "evaluation-plan.v1"

-- What the fingerprint hashes: all but the output policy and the plan's own version.
pub record PlanIdentity : Type 0 where
  pub version : String
  pub suite : SuitePlan
  pub environment : EnvironmentPlan
  pub target : TargetPlan
  pub limits : Limits
  pub attempts : ℤ

unfoldable pub plan_identity : Plan → PlanIdentity
plan_identity p = record {
  version = plan_version;
  suite = p.suite;
  environment = p.environment;
  target = p.target;
  limits = p.limits;
  attempts = p.attempts;
}
