-- ===== src/Evaluation/Messages.antt =====
-- The texts of the errors of `Plan.Validate`, in pkg/evaluation/plan.go, and of a number in an id.
use evidra_bench.Base.{String, ℤ, pos, negsuc, ◌+◌, [], ◌∷◌, concat, decimal}
use evidra_bench.Evaluation.Plan.{
  PlanError, suite_id_required, suite_digest_required, no_case, case_id_required, duplicate_case,
  provider_required, bad_target_kind, incomplete_model_target, incomplete_agent_target,
  nonpositive_timeout, bad_attempts,
}

unfoldable pub integer_text : ℤ → String
integer_text (pos n) = decimal n
integer_text (negsuc n) = concat ("-" ∷ decimal (n + 1) ∷ [])

unfoldable pub plan_error_text : (String → String) → PlanError → String
plan_error_text quote suite_id_required = "evaluation plan: suite id is required"
plan_error_text quote suite_digest_required = "evaluation plan: suite digest is required"
plan_error_text quote no_case = "evaluation plan: at least one case is required"
plan_error_text quote (case_id_required i) =
    concat ("evaluation plan: case " ∷ decimal i ∷ " id is required" ∷ [])
plan_error_text quote (duplicate_case id) =
    concat ("evaluation plan: duplicate case " ∷ quote id ∷ [])
plan_error_text quote provider_required = "evaluation plan: environment provider is required"
plan_error_text quote bad_target_kind =
    concat ("evaluation plan: target kind must be " ∷ quote "model" ∷ " or " ∷ quote "agent" ∷ [])
plan_error_text quote incomplete_model_target =
    "evaluation plan: model target requires provider and model"
plan_error_text quote incomplete_agent_target = "evaluation plan: agent target requires adapter"
plan_error_text quote nonpositive_timeout = "evaluation plan: positive case timeout is required"
plan_error_text quote bad_attempts = "evaluation plan: attempts must be 1 for the initial runner"
