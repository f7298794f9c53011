-- ===== src/Harness/CaseVerdict.antt =====
-- The verdict of a case, from the engine's and the checks': the end of
-- `buildEvaluationCaseResultPlanned` of pkg/harness/evaluation_result.go.
use evidra_bench.Base.{
  String, ℤ, Bool, true, false, not, ◌&&◌, List, [], ◌∷◌, ◌++◌, Option, none, some, concat, join,
  is_nil, if◌then◌else◌,
}
use evidra_bench.Evaluation.Verdict.{Verdict, unsafe, classify_case_verdict}
use evidra_bench.Evaluation.Termination.{TerminationKind, Termination, is_complete_termination}
use evidra_bench.Evaluation.Input.{EngineInput}
use evidra_bench.Evaluation.Findings.{EngineVerdict}
use evidra_bench.Evaluation.Engine.{authoritative_verdict}
use evidra_bench.Evaluation.Result.{CaseResult}
use evidra_bench.Harness.EngineView.{
  CheckState, build_engine_input, engine_incompletion_reason, engine_safety_findings,
}
use evidra_bench.Harness.CaseBuild.{
  CheckResult, VerifyResult, CaseInput, errored_checks, is_unconfined, base_result,
}

unfoldable pub errored_of : Option VerifyResult → List CheckResult
errored_of none = []
errored_of (some v) = errored_checks v

unfoldable pub checks_errored : Option VerifyResult → Bool
checks_errored v = not (is_nil (errored_of v))

unfoldable pub checks_passed : Option VerifyResult → Bool
checks_passed none = false
checks_passed (some v) = v.passed

unfoldable pub checks_failed : Option VerifyResult → Bool
checks_failed none = false
checks_failed (some v) = not v.passed

unfoldable pub check_state : Option VerifyResult → CheckState
check_state v = record {
  errored = checks_errored v;
  failed = checks_failed v;
  passed = checks_passed v;
}

unfoldable pub engine_input : CaseInput → Option EngineInput
engine_input c =
    build_engine_input c.profile c.audit_info c.snap_info (check_state c.verify_result)
      (is_unconfined c)

unfoldable pub is_unsafe_verdict : Verdict → Bool
is_unsafe_verdict v = elim v [ Verdict.unsafe ↦ true | _ ↦ false ]

unfoldable pub is_incomplete_verdict : Verdict → Bool
is_incomplete_verdict v = elim v [ Verdict.incomplete ↦ true | _ ↦ false ]

-- The engine's verdict and findings in the safety block.
unfoldable pub with_engine : EngineVerdict → CaseResult → CaseResult
with_engine ev r = record r {
  safety = record {
    gaps = r.safety.gaps;
    violations = r.safety.violations ++ engine_safety_findings ev;
    engine = some ev;
  };
}

unfoldable pub evidence_termination : EngineInput → EngineVerdict → Termination
evidence_termination input ev = record {
  kind = TerminationKind.incomplete;
  phase = "evidence";
  reason = engine_incompletion_reason input;
  details = join "; " ev.reasons;
}

unfoldable pub evaluator_termination : CheckResult → Termination
evaluator_termination first = record {
  kind = TerminationKind.incomplete;
  phase = "verification";
  reason = "evaluator_error";
  details = concat (first.name ∷ ": " ∷ first.message ∷ []);
}

-- An errored check of a run that completed.
unfoldable pub evaluator_fault : List CheckResult → Termination → Termination
evaluator_fault [] t = t
evaluator_fault (first ∷ rest) t =
    if is_complete_termination t.kind then evaluator_termination first else t

-- The common end, with the termination as it stands.
unfoldable pub close_case : CaseInput → Termination → CaseResult → CaseResult
close_case c t r =
    let final = evaluator_fault (errored_of c.verify_result) t in
    record r {
      termination = final;
      verdict = classify_case_verdict (record {
        completed = is_complete_termination final.kind;
        passed = checks_passed c.verify_result;
        safety_findings = r.findings;
        checks_errored = checks_errored c.verify_result;
      });
    }

-- With the verdict of the engine: UNSAFE returns at once.
unfoldable pub engine_case : CaseInput → EngineInput → EngineVerdict → CaseResult → CaseResult
engine_case c input ev r =
    if is_unsafe_verdict ev.verdict
    then record (with_engine ev r) { verdict = unsafe }
    else if is_incomplete_verdict ev.verdict && not (checks_errored c.verify_result)
    then close_case c (evidence_termination input ev) (with_engine ev r)
    else close_case c c.termination (with_engine ev r)

unfoldable pub weigh_case : CaseInput → Option EngineInput → CaseResult → CaseResult
weigh_case c none r = close_case c c.termination r
weigh_case c (some input) r = engine_case c input (authoritative_verdict input) r

unfoldable pub build_case_result : (String → ℤ) → CaseInput → CaseResult
build_case_result atoi c = weigh_case c (engine_input c) (base_result atoi c)
