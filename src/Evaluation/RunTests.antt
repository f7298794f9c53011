-- ===== src/Evaluation/RunTests.antt =====
-- The theorems on a run of the service, at a plan of one case that the adapters run to its end.
use evidra_bench.Base.{
  String, pos, true, false, ◌&&◌, [], ◌∷◌, ◌≡◌, refl, ◌↔◌, none, some, ok, all, length, contains,
  trim_space, is_blank, is_positive, is_one,
}
use evidra_bench.Evaluation.Verdict.{Verdict}
use evidra_bench.Evaluation.Evidence.{evidence_for_run, telemetry_source_for, initial_safety}
use evidra_bench.Evaluation.Plan.{
  Plan, TargetKind, is_model, is_agent, validate, validate_cases, validate_target,
}
use evidra_bench.Evaluation.Validity.{is_well_formed, is_runnable, validate_iff}
use evidra_bench.Evaluation.Termination.{TerminationKind, is_complete_termination}
use evidra_bench.Evaluation.Result.{
  CaseResult, EvaluationResult, summarize, count_cases, count_case, is_pass, is_fail, is_unsafe,
  is_incomplete, exit_code,
}
use evidra_bench.Evaluation.World.{World}
use evidra_bench.Evaluation.Service.{
  run, run_owned, run_checked, run_preflights, run_environment, run_acquired, with_lease,
  run_leased, run_cases, next_result, clean_up, release_lease, join_errors, gives_lease,
}
use evidra_bench.Evaluation.Lifecycle.{Settled, run_owned-Settled}
use evidra_bench.Evaluation.Tallies.{unobjectionable}
use evidra_bench.Evaluation.Accounting.{AreResults, IsAccounted, run-IsAccounted, exit_zero}

abbrev plan : Plan
plan = record {
  version = "evaluation-plan.v1";
  suite = record {
    id = "core";
    digest = "d1";
    cases = record { id = "crash-loop" } ∷ [];
    required_model_capabilities = [];
  };
  environment = record { provider = "kind"; profile = "small" };
  target = record {
    kind = TargetKind.agent;
    provider = "";
    model_name = "";
    adapter = "cli";
    command_identity = "";
    endpoint_class = "";
    credential_source = "";
    model_digest = "";
    parameter_size = "";
    quantization = "";
    capability_check = "";
  };
  limits = record { case_timeout = pos 60; max_turns = pos 0; max_tokens = pos 0 };
  attempts = pos 1;
  output = record { directory = "out"; formats = [] };
}

abbrev no_usage : evidra_bench.Evaluation.Result.Usage
no_usage = record { known = false; prompt_tokens = pos 0; completion_tokens = pos 0 }

abbrev case_result : CaseResult
case_result = record {
  scenario_id = "crash-loop";
  run_id = "r1";
  verdict = Verdict.pass;
  duration = pos 5;
  exit_code = pos 0;
  checks_passed = 1;
  checks_total = 1;
  usage = no_usage;
  findings = [];
  evidence = [];
  termination = record { kind = TerminationKind.complete; phase = ""; reason = ""; details = "" };
  runtime = record { mode = ""; sandbox_image = "" };
  safety = initial_safety;
  manifest = evidence_for_run (telemetry_source_for true);
}

-- Adapters that all succeed; a lease is a text.
abbrev world : World String
world = record {
  preflights = none ∷ some (λ t p. none) ∷ [];
  provisioner = some (λ t p. (some "lease", none));
  executor = some (λ t p c lease. (case_result, none));
  release = λ t lease. none;
  new_id = some (λ t. "e1");
  now = λ t. pos (length t);
  hash = λ i. ok "f1";
  quote = λ s. s;
}

validate_iff_example : (validate plan ≡ none) ↔ ((is_well_formed plan && is_runnable plan) ≡ true)
validate_iff_example = validate_iff plan

run_owned-Settled_example : Settled world plan (run_owned world plan).trace
run_owned-Settled_example = run_owned-Settled world plan

run-IsAccounted_example : IsAccounted world plan (run world plan none false)
run-IsAccounted_example = run-IsAccounted world plan none false

exits_zero : exit_code (run world plan none false).result ≡ 0
unfolding run validate validate_cases validate_target is_model is_agent contains run_checked
    run_preflights run_environment run_acquired with_lease run_leased run_cases next_result clean_up
    release_lease join_errors gives_lease summarize count_cases count_case exit_code
    is_complete_termination is_blank trim_space is_positive is_one
exits_zero = refl

exit_zero_example :
    AreResults world plan plan.suite.cases (run world plan none false).result.cases
    × (all unobjectionable (run world plan none false).result.cases ≡ true)
exit_zero_example = exit_zero world plan none false exits_zero
