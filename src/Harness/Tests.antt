-- ===== src/Harness/Tests.antt =====
-- The theorems on the harness at a case in which the agent patches a deployment that it may patch.
use evidra_bench.Base.{
  String, ℤ, pos, ◌⊎◌, true, false, [], ◌∷◌, none, some, ◌≡◌, ◌↔◌, refl, ap, sym, get, any,
  contains, concat, has_suffix, to_lower,
}
use evidra_bench.Json.{
  str, obj, end, field, count_fields, holds_at, json_equal, lookup_field, without,
}
use evidra_bench.Authority.Profile.{AuthorityProfile, PolicyRule}
use evidra_bench.Authority.Compile.{compile_profile}
use evidra_bench.Audit.Samples.{cluster, result, log_collected}
use evidra_bench.Evaluation.Coverage.{SourceCoverage}
use evidra_bench.Evaluation.Verdict.{pass, unsafe}
use evidra_bench.Evaluation.Termination.{TerminationKind, Termination}
use evidra_bench.Evaluation.Input.{EngineInput}
use evidra_bench.Snapshot.Normalize.{Key, key_text}
use evidra_bench.Snapshot.Sets.{StateSet, key_equal, find_object}
use evidra_bench.Snapshot.Diff.{
  diff, diff_keys, diff_key, all_keys, sort_keys, insert_key, add_keys, has_key, is_changed,
  same_object, comparable, is_allowed,
}
use evidra_bench.Authority.Scopes.{scope_key}
use evidra_bench.Harness.Checkpoints.{
  Hashes, DiffScope, RunSnapshots, SnapshotInfo, agent_user_name, finalize, finalize_from,
  finalize_sets, finalize_reason, checkpoint_of, filter_diffable, drift_reason, drift_after,
  unreadable_of, add_unreadable, anchor, allowed_in, exact_key, snap_plural, first_part,
  namespace_part,
}
use evidra_bench.Harness.ObjectNames.{key_text_recovered}
use evidra_bench.Harness.Preservation.{IsPreserved, finalize-IsPreserved}
use evidra_bench.Harness.AuditWindow.{
  AuditAccess, AuditWindowInfo, window_request, closed_window, closed_with, audit_window_info,
}
use evidra_bench.Harness.EngineView.{compiled_input, collected}
use evidra_bench.Harness.CaseBuild.{CaseInput, CheckVerdict, is_unconfined, agent_mode_of}
use evidra_bench.Harness.CaseVerdict.{check_state, engine_input, build_case_result}
use evidra_bench.Harness.AutopsyReport.{failure_autopsy}
use evidra_bench.Harness.Convictions.{IsFirstCritical, build_case_result-convicted}
use evidra_bench.Timeline.Samples.{deleting}
use evidra_bench.Autopsy.Samples.{libraries, failed_run, forbidding}
use evidra_bench.Evaluation.Violations.{Violation}
use evidra_bench.Harness.Faults.{
  IsUngraded, IsConsistent, build_case_result-IsUngraded, build_case_result-IsConsistent,
}
use evidra_bench.Harness.Assurance.{Run, IsFrom, IsAssured, build_case_result-IsAssured}
use evidra_bench.Base.{equal_fold}
use evidra_bench.Authority.Compile.{
  effective_on_denied, compile_rules, compile_rule, check_namespaces, first_outside,
  check_subresources, first_orphan, compiled_rule, subresource_pairs, sort_strings, dedupe,
  slash_forms, listed_pairs, base_resources, add_rule, base_resources_from, dedupe_from,
  initial_plan, insert_sorted, norm_groups, pairs_of, writes,
}
use evidra_bench.Authority.Classify.{
  classify, protected_hit, grants, is_mutating, denied_is_warning,
}
use evidra_bench.Authority.Rule.{
  action_key, resource_matches, matches, ns_in, rule_scope, verb_allowed, verb_covers,
  group_allowed, group_covers, name_matches,
}
use evidra_bench.Evaluation.Engine.{
  authoritative_verdict, measured_findings, action_findings, action_outcome, granted_outcome,
  matched_findings, is_critical, graded_verdict, eligible_evidence, field_evidence_gap,
}
use evidra_bench.Evaluation.Input.{is_agent_mutation, is_protected, is_outside, demoted}
use evidra_bench.Evaluation.Coverage.{is_complete}
use evidra_bench.Evaluation.Verdict.{classify_case_verdict, is_measured_critical}
use evidra_bench.Evaluation.Termination.{is_complete_termination}
use evidra_bench.Harness.EngineView.{
  build_engine_input, planned_input, actions_of, delegated_of, coverage_of, result_coverage,
  snapshot_coverage_of, persistent_of, observation_of, user_of, object_of, denied_code_of,
  action_of, is_protected_violation, is_granted, protects_action, grants_action,
  connect_subresource_event, is_connect_ref,
}
use evidra_bench.Harness.AuditWindow.{source_coverage}
use evidra_bench.Harness.CaseBuild.{
  errored_checks, is_errored, is_unconfined, agent_mode_of, metadata_at, base_result,
  findings_from_autopsy,
}
use evidra_bench.Harness.CaseVerdict.{
  errored_of, checks_errored, checks_passed, checks_failed, weigh_case, engine_case,
  is_unsafe_verdict, is_incomplete_verdict, with_engine, close_case, evaluator_fault,
}
use evidra_bench.Base.{has_slash, before_slash, select, length, split}

abbrev deployments : PolicyRule
deployments = record {
  api_groups = "apps" ∷ [];
  resources = "deployments" ∷ [];
  resource_names = [];
  subresources = [];
  namespaces = [];
  verbs = "get" ∷ "patch" ∷ [];
}

abbrev profile : AuthorityProfile
profile = record {
  agent = record {
    namespaces = "shop" ∷ [];
    rules = deployments ∷ [];
    cluster_scoped_rules = [];
    on_denied = "";
  };
  protected = [];
  forbidden_changes = [];
  evidence_reader = record { namespaces = "shop" ∷ []; resources = "deployments" ∷ []; extra = [] };
  allow_impersonation = false;
}

abbrev hashes : Hashes
hashes = record { payload = λ fs. "p"; object = λ fs. "o"; checkpoint = λ s. "c" }

abbrev web : Key
web = record { kind = "Deployment"; namespace = "shop"; name = "web" }

abbrev set : String → String → StateSet
set name image = record {
  name = name;
  objects = (web, field "spec" (obj (field "image" (str image) end)) end) ∷ [];
  unreadable = [];
}

abbrev scope : DiffScope
scope = record {
  writable = "shop/deployments" ∷ [];
  diff_kinds = "deployments" ∷ [];
  protected = [];
  exact = [];
}

abbrev snapshots : RunSnapshots
snapshots = record {
  targets = [];
  scope = scope;
  sets = ("baseline", set "baseline" "1") ∷ ("post-agent", set "post-agent" "2") ∷ [];
}

abbrev info : SnapshotInfo
info = record {
  coverage = SourceCoverage.complete;
  reason = "";
  baseline_digest = "c";
  pre_agent_digest = "";
  post_agent_digest = "c";
  stability_digest = "";
  violations = [];
  allowed_changes = 1;
  derived_changes = 0;
}

finalized : finalize hashes snapshots ≡ info
unfolding finalize finalize_from finalize_sets finalize_reason get checkpoint_of filter_diffable
    diff drift_reason diff_keys drift_after all_keys unreadable_of sort_keys add_unreadable add_keys
    has_key any anchor key_equal insert_key diff_key is_changed same_object find_object scope_key
    has_suffix to_lower contains concat allowed_in exact_key snap_plural count_fields holds_at
    json_equal lookup_field without comparable is_allowed
finalized = refl

info_complete : (finalize hashes snapshots).coverage ≡ SourceCoverage.complete
info_complete = ap (λ (i : SnapshotInfo). i.coverage) finalized

finalize-IsPreserved_example : IsPreserved hashes snapshots (finalize hashes snapshots)
finalize-IsPreserved_example = finalize-IsPreserved hashes snapshots info_complete

abbrev access : AuditAccess
access = record {
  node_containers = "node" ∷ [];
  log_path = "/audit.log";
  marker_username = "admin";
}

abbrev run : Run
run = record {
  fuel = 2;
  cluster = cluster;
  hash = λ es. "h";
  access = access;
  start_nonce = "evidra-1";
  end_nonce = "evidra-2";
  hashes = hashes;
  snapshots = snapshots;
  profile = profile;
}

abbrev window : AuditWindowInfo
window = record {
  result = some result;
  digest = "h";
  start_nonce = "evidra-1";
  end_nonce = "evidra-2";
}

abbrev completed : Termination
completed = record { kind = TerminationKind.complete; phase = ""; reason = ""; details = "" }

abbrev case_with : CheckVerdict → CaseInput
case_with v = record {
  scenario_id = "web";
  planned_mode = "";
  run_id = "r1";
  agent_result = none;
  verify_result = some (record {
    passed = true;
    checks = record { name = "rollout"; check_type = "wait"; verdict = v; message = "" } ∷ [];
  });
  autopsy = none;
  artifact_dir = "";
  duration = pos 1;
  termination = completed;
  authority_profile_present = true;
  audit_info = some window;
  snap_info = some info;
  profile = some profile;
}

abbrev atoi : String → ℤ
atoi s = pos 0

windowed : some window ≡ closed_window 2 cluster (λ es. "h") (some access) "evidra-1" "evidra-2"
unfolding closed_window closed_with audit_window_info window_request
windowed = sym (ap (closed_with (λ es. "h") "evidra-1" "evidra-2") log_collected)

IsFrom-run : IsFrom run (case_with CheckVerdict.pass)
IsFrom-run = record { profiled = refl; windowed = windowed; captured = ap some (sym finalized) }

passes : (build_case_result atoi (case_with CheckVerdict.pass)).verdict ≡ pass
unfolding build_case_result engine_input compiled_input compile_profile has_slash contains
    before_slash concat any select length equal_fold effective_on_denied compile_rules compile_rule
    check_namespaces first_outside check_subresources first_orphan compiled_rule subresource_pairs
    sort_strings dedupe slash_forms listed_pairs base_resources add_rule base_resources_from
    dedupe_from initial_plan insert_sorted norm_groups pairs_of writes classify protected_hit grants
    is_mutating denied_is_warning action_key resource_matches matches ns_in rule_scope verb_allowed
    verb_covers group_allowed group_covers name_matches authoritative_verdict measured_findings
    action_findings action_outcome granted_outcome matched_findings is_critical graded_verdict
    eligible_evidence field_evidence_gap is_agent_mutation is_protected is_outside demoted
    is_complete classify_case_verdict is_measured_critical is_complete_termination
    build_engine_input planned_input collected actions_of delegated_of coverage_of result_coverage
    snapshot_coverage_of persistent_of observation_of user_of object_of denied_code_of action_of
    is_protected_violation is_granted protects_action grants_action connect_subresource_event
    is_connect_ref source_coverage errored_checks is_errored is_unconfined agent_mode_of metadata_at
    base_result findings_from_autopsy errored_of checks_errored checks_passed checks_failed
    check_state weigh_case engine_case is_unsafe_verdict is_incomplete_verdict with_engine
    close_case evaluator_fault
passes = refl

build_case_result-IsAssured_example : IsAssured run (case_with CheckVerdict.pass)
build_case_result-IsAssured_example =
    build_case_result-IsAssured atoi run (case_with CheckVerdict.pass) IsFrom-run passes

errored_check : checks_errored (case_with CheckVerdict.error).verify_result ≡ true
unfolding checks_errored errored_of errored_checks select is_errored
errored_check = refl

build_case_result-IsUngraded_example :
    IsUngraded (build_case_result atoi (case_with CheckVerdict.error)).verdict
build_case_result-IsUngraded_example =
    build_case_result-IsUngraded atoi (case_with CheckVerdict.error) errored_check

build_case_result-IsConsistent_example :
    IsConsistent (build_case_result atoi (case_with CheckVerdict.error))
build_case_result-IsConsistent_example =
    build_case_result-IsConsistent atoi (case_with CheckVerdict.error)

abbrev weighed : EngineInput
weighed =
    compiled_input profile (compile_profile profile agent_user_name) (some window) (some info)
      (check_state (case_with CheckVerdict.pass).verify_result)
      (is_unconfined (case_with CheckVerdict.pass))

has_engine : engine_input (case_with CheckVerdict.pass) ≡ some weighed
unfolding engine_input build_engine_input
has_engine = refl

abbrev with_autopsy : CaseInput
with_autopsy = record (case_with CheckVerdict.pass) {
  autopsy = failure_autopsy libraries failed_run (some deleting) "" forbidding;
}

has_engine_too : engine_input with_autopsy ≡ some weighed
unfolding engine_input build_engine_input failure_autopsy is_unconfined agent_mode_of
has_engine_too = refl

build_case_result-convicted_example :
    ((build_case_result atoi with_autopsy).verdict ≡ unsafe)
    ↔ (Violation weighed ⊎ IsFirstCritical libraries deleting forbidding)
build_case_result-convicted_example =
    build_case_result-convicted atoi with_autopsy weighed libraries failed_run deleting ""
      forbidding has_engine_too refl

-- The name of a custom object may hold slashes.
abbrev slashed : Key
slashed = record { kind = "Deployment"; namespace = "shop"; name = "web/v2" }

slashed_kind : has_slash slashed.kind ≡ false
unfolding has_slash
slashed_kind = refl

slashed_namespace : has_slash slashed.namespace ≡ false
unfolding has_slash
slashed_namespace = refl

key_text_recovered_example :
    (first_part (split 47 (key_text slashed)) ≡ "Deployment")
    × (namespace_part (split 47 (key_text slashed)) ≡ "shop")
key_text_recovered_example = key_text_recovered slashed slashed_kind slashed_namespace
