-- ===== src/Evaluation/Result.antt =====
-- The result document of an evaluation: pkg/evaluation/result.go.
use evidra_bench.Base.{
  String, ℕ, ℤ, ◌+◌, Bool, true, false, not, ◌&&◌, ◌||◌, List, [], ◌∷◌, ltb, length, if◌then◌else◌,
}
use evidra_bench.Evaluation.Verdict.{Verdict, SafetyFinding, EvidenceRef}
use evidra_bench.Evaluation.Termination.{Termination, is_complete_termination}
use evidra_bench.Evaluation.Evidence.{Safety, Evidence}
use evidra_bench.Evaluation.Plan.{SuitePlan, EnvironmentPlan, TargetPlan}

pub record Usage : Type 0 where
  pub known : Bool
  pub prompt_tokens : ℤ
  pub completion_tokens : ℤ

pub record RuntimeInfo : Type 0 where
  pub mode : String
  pub sandbox_image : String

pub record CaseResult : Type 0 where
  pub scenario_id : String
  pub run_id : String
  pub verdict : Verdict
  pub duration : ℤ
  pub exit_code : ℤ
  pub checks_passed : ℕ
  pub checks_total : ℕ
  pub usage : Usage
  pub findings : List SafetyFinding
  pub evidence : List EvidenceRef
  pub termination : Termination
  pub runtime : RuntimeInfo
  pub safety : Safety
  pub manifest : Evidence

pub record CleanupResult : Type 0 where
  pub attempted : Bool
  pub succeeded : Bool
  pub error : String

pub record PreflightEvidence : Type 0 where
  pub kind : String
  pub method : String
  pub usage : Usage

pub record Summary : Type 0 where
  pub total : ℕ
  pub passed : ℕ
  pub failed : ℕ
  pub unsafe : ℕ
  pub incomplete : ℕ

pub record EvaluationResult : Type 0 where
  pub version : String
  pub id : String
  pub plan_fingerprint : String
  pub suite : SuitePlan
  pub environment : EnvironmentPlan
  pub target : TargetPlan
  pub started_at : ℤ
  pub ended_at : ℤ
  pub termination : Termination
  pub cleanup : CleanupResult
  pub preflight : List PreflightEvidence
  pub cases : List CaseResult
  pub summary : Summary

unfoldable pub is_pass : CaseResult → Bool
is_pass c = elim c.verdict [ Verdict.pass ↦ true | _ ↦ false ]

unfoldable pub is_fail : CaseResult → Bool
is_fail c = elim c.verdict [ Verdict.fail ↦ true | _ ↦ false ]

unfoldable pub is_unsafe : CaseResult → Bool
is_unsafe c = elim c.verdict [ Verdict.unsafe ↦ true | _ ↦ false ]

unfoldable pub is_incomplete : CaseResult → Bool
is_incomplete c = elim c.verdict [ Verdict.incomplete ↦ true | _ ↦ false ]

-- One round of the loop: the counter of the case's verdict.
unfoldable pub count_case : Summary → CaseResult → Summary
count_case s c = elim c.verdict [
  | Verdict.pass ↦ record s { passed = s.passed + 1 }
  | Verdict.fail ↦ record s { failed = s.failed + 1 }
  | Verdict.unsafe ↦ record s { unsafe = s.unsafe + 1 }
  | Verdict.incomplete ↦ record s { incomplete = s.incomplete + 1 }
  | _ ↦ s
]

unfoldable pub count_cases : Summary → List CaseResult → Summary
count_cases s [] = s
count_cases s (c ∷ cs) = count_cases (count_case s c) cs

abbrev pub empty_summary : Summary
empty_summary = record { total = 0; passed = 0; failed = 0; unsafe = 0; incomplete = 0 }

unfoldable pub summarize : EvaluationResult → Summary
summarize r = count_cases (record empty_summary { total = length r.cases }) r.cases

unfoldable pub exit_code : EvaluationResult → ℕ
exit_code r =
    if not (is_complete_termination r.termination.kind)
    then 2
    else if r.cleanup.attempted && not r.cleanup.succeeded
    then 2
    else if ltb 0 r.summary.incomplete
    then 2
    else if ltb 0 r.summary.failed || ltb 0 r.summary.unsafe
    then 1
    else 0
