-- ===== src/Evaluation/Service.antt =====
-- The lifecycle of an evaluation: `Service.run` of pkg/evaluation/service.go, with `ReleaseLease` of
-- pkg/evaluation/cleanup.go.
use evidra_bench.Base.{
  String, pos, Bool, true, false, not, ◌&&◌, List, [], ◌∷◌, ◌++◌, Option, none, some, is_empty,
  concat, ok, err, is_some, if◌then◌else◌,
}
use evidra_bench.Evaluation.Verdict.{Verdict}
use evidra_bench.Evaluation.Termination.{Termination, TerminationKind}
use evidra_bench.Evaluation.Plan.{Plan, CasePlan, PlanError, validate, plan_identity}
use evidra_bench.Evaluation.Result.{
  CaseResult, CleanupResult, EvaluationResult, empty_summary, summarize,
}
use evidra_bench.Evaluation.World.{checked, acquired, released, executed, Trace, ExecError, World}
use evidra_bench.Evaluation.Messages.{integer_text, plan_error_text}

pub data RunError : Type 0 where
  invalid_plan : PlanError → RunError
  fingerprint_failed preflight_failed acquire_failed cleanup_failed : String → RunError
  missing_provisioner missing_executor invalid_lease : RunError
  case_failed : ExecError → RunError
  joined : RunError → RunError → RunError

-- The result, the error, and the calls made.
pub record Outcome : Type 0 where
  pub result : EvaluationResult
  pub run_error : Option RunError
  pub trace : Trace

abbrev pub result_version : String
result_version = "evaluation-result.v4"

unfoldable pub gives_lease : {L : Type 0} → Option L × Option String → Bool
gives_lease (none, failure) = false
gives_lease (some lease, none) = true
gives_lease (some lease, some e) = false

module _ {L : Type 0} (w : World L) (plan : Plan) where
  unfoldable pub initial_result : EvaluationResult
  unfolding integer_text
  initial_result = record {
    version = result_version;
    id = elim w.new_id [
      | none ↦ concat ("evaluation-" ∷ integer_text (w.now []) ∷ [])
      | some new ↦ new []
    ];
    plan_fingerprint = "";
    suite = plan.suite;
    environment = plan.environment;
    target = plan.target;
    started_at = w.now [];
    ended_at = pos 0;
    termination = record {
      kind = TerminationKind.incomplete;
      phase = "validation";
      reason = "";
      details = "";
    };
    cleanup = record { attempted = false; succeeded = false; error = "" };
    preflight = [];
    cases = [];
    summary = empty_summary;
  }

  -- A return before the execution: an incomplete termination of the phase.
  unfoldable pub stop : EvaluationResult → String → String → String → RunError → Trace → Outcome
  stop r phase reason details e t = record {
    result = record r {
      termination = record {
        kind = TerminationKind.incomplete;
        phase = phase;
        reason = reason;
        details = details;
      };
      ended_at = w.now t;
    };
    run_error = some e;
    trace = t;
  }

  -- The checks in order, nil ones passed over, up to the first that fails.
  unfoldable pub run_preflights :
      List (Option (Trace → Plan → Option String)) → Trace → Option String × Trace
  run_preflights [] t = (none, t)
  run_preflights (none ∷ checks) t = run_preflights checks t
  run_preflights (some check ∷ checks) t = elim (check t plan) [
    | some e ↦ (some e, t ++ (checked ∷ []))
    | none ↦ run_preflights checks (t ++ (checked ∷ []))
  ]

  unfoldable pub named : CasePlan → CaseResult → CaseResult
  named c cr = if is_empty cr.scenario_id then record cr { scenario_id = c.id } else cr

  execution_failure : TerminationKind → ExecError → Termination
  execution_failure kind e = record {
    kind = kind;
    phase = "execution";
    reason = "case_execution_failed";
    details = e.message;
  }

  failed_verdict : Verdict → Verdict
  failed_verdict (Verdict.other s) = if is_empty s then Verdict.incomplete else Verdict.other s
  failed_verdict v = v

  failed_termination : ExecError → Termination → Termination
  failed_termination e t = elim t.kind [
    | TerminationKind.unset ↦ execution_failure TerminationKind.incomplete e
    | _ ↦ t
  ]

  -- A case whose execution failed: the verdict and the termination that it lacks.
  failed_case : ExecError → CaseResult → CaseResult
  unfolding failed_verdict failed_termination
  failed_case e cr = record cr {
    verdict = failed_verdict cr.verdict;
    termination = failed_termination e cr.termination;
  }

  -- `result.Summary = Summarize(result)` and `result.EndedAt = now()`.
  closed : EvaluationResult → Trace → EvaluationResult
  closed r t = let s = record r { summary = summarize r } in record s { ended_at = w.now t }

  unfoldable pub aborted : EvaluationResult → ExecError → CaseResult → Trace → Outcome
  unfolding failed_case closed execution_failure
  aborted r e cr t = record {
    result =
        closed
          (record r {
            cases = r.cases ++ (failed_case e cr ∷ []);
            termination =
                execution_failure
                  (if e.canceled then TerminationKind.cancelled else TerminationKind.incomplete) e;
          })
          t;
    run_error = some (case_failed e);
    trace = t;
  }

  finished : EvaluationResult → Trace → Outcome
  unfolding closed
  finished r t = record {
    result =
        closed
          (record r {
            termination = record {
              kind = TerminationKind.complete;
              phase = "";
              reason = "";
              details = "";
            };
          })
          t;
    run_error = none;
    trace = t;
  }

  unfoldable pub next_result : EvaluationResult → CasePlan → CaseResult → EvaluationResult
  unfolding named
  next_result r c cr = record r { cases = r.cases ++ (named c cr ∷ []) }

  -- The loop over the cases, up to the first that fails.
  unfoldable pub run_cases :
      (Trace → Plan → CasePlan → L → CaseResult × Option ExecError)
      → L
      → List CasePlan
      → EvaluationResult
      → Trace
      → Outcome
  unfolding named aborted finished next_result
  run_cases execute lease [] r t = finished r t
  run_cases execute lease (c ∷ cs) r t =
      let (cr, failure) = execute t plan c lease in
      let t' = t ++ (executed c.id ∷ []) in
      elim failure [
        | some e ↦ aborted r e (named c cr) t'
        | none ↦ run_cases execute lease cs (next_result r c cr) t'
      ]

  -- ReleaseLease on a lease that is there: the cleanup record and the error.
  unfoldable pub release_lease : L → Trace → CleanupResult × Option RunError
  release_lease lease t = elim (w.release t lease) [
    | some e ↦ (record { attempted = true; succeeded = false; error = e }, some (cleanup_failed e))
    | none ↦ (record { attempted = true; succeeded = true; error = "" }, none)
  ]

  unfoldable pub join_errors : Option RunError → Option RunError → Option RunError
  join_errors e none = e
  join_errors none (some c) = some c
  join_errors (some e) (some c) = some (joined e c)

  -- The deferred cleanup of an owned lease.
  unfoldable pub clean_up : L → Outcome → Outcome
  unfolding join_errors closed
  clean_up lease o =
      let (cleanup, failure) = release_lease lease o.trace in
      let t = o.trace ++ (released ∷ []) in
      record {
        result = closed (record (o.result) { cleanup = cleanup }) t;
        run_error = join_errors o.run_error failure;
        trace = t;
      }

  unfoldable pub run_leased :
      (Trace → Plan → CasePlan → L → CaseResult × Option ExecError)
      → Bool
      → L
      → EvaluationResult
      → Trace
      → Outcome
  run_leased execute borrowed lease r t =
      let o = run_cases execute lease plan.suite.cases r t in
      if borrowed then o else clean_up lease o

  unfoldable pub with_lease :
      (Trace → Plan → CasePlan → L → CaseResult × Option ExecError)
      → Bool
      → Option L
      → EvaluationResult
      → Trace
      → Outcome
  unfolding run_leased stop
  with_lease execute borrowed none r t =
      stop r "environment" "invalid_lease" "provisioner returned a nil lease" invalid_lease t
  with_lease execute borrowed (some lease) r t = run_leased execute borrowed lease r t

  unfoldable pub run_acquired :
      (Trace → Plan → CasePlan → L → CaseResult × Option ExecError)
      → Option L × Option String
      → EvaluationResult
      → Trace
      → Outcome
  unfolding with_lease stop
  run_acquired execute (lease, some e) r t =
      stop r "environment" "acquire_failed" e (acquire_failed e) t
  run_acquired execute (lease, none) r t = with_lease execute false lease r t

  -- The environment phase: a borrowed lease, or one of the provisioner.
  unfoldable pub run_environment : Option L → Bool → EvaluationResult → Trace → Outcome
  unfolding run_acquired with_lease stop
  run_environment lease borrowed r t =
      if not borrowed && not (is_some w.provisioner)
      then stop r "environment" "missing_provisioner" "evaluation service: provisioner is required"
          missing_provisioner t
      else elim w.executor [
        | none ↦
            stop r "execution" "missing_executor" "evaluation service: case executor is required"
              missing_executor t
        | some execute ↦ elim w.provisioner [
          | none ↦ with_lease execute borrowed lease r t
          | some acquire ↦
              if borrowed
              then with_lease execute true lease r t
              else run_acquired execute (acquire t plan) r
                  (t ++ (acquired (gives_lease (acquire t plan)) ∷ []))
        ]
      ]

  unfoldable pub run_checked : Option L → Bool → EvaluationResult → Outcome
  unfolding stop
  run_checked lease borrowed r =
      let (failure, t) = run_preflights w.preflights [] in
      elim failure [
        | some e ↦ stop r "preflight" "preflight_failed" e (preflight_failed e) t
        | none ↦ run_environment lease borrowed r t
      ]

  unfoldable pub run : Option L → Bool → Outcome
  unfolding run_checked initial_result stop plan_error_text
  run lease borrowed = elim (validate plan) [
    | some e ↦
        stop initial_result "validation" "invalid_plan" (plan_error_text w.quote e) (invalid_plan e)
          []
    | none ↦ elim (w.hash (plan_identity plan)) [
      | err e ↦ stop initial_result "validation" "fingerprint_failed" e (fingerprint_failed e) []
      | ok fingerprint ↦
          run_checked lease borrowed (record initial_result { plan_fingerprint = fingerprint })
    ]
  ]

  -- Run and RunWithLease.
  unfoldable pub run_owned : Outcome
  run_owned = run none false

  unfoldable pub run_with_lease : Option L → Outcome
  run_with_lease lease = run lease true
