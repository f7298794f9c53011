-- ===== src/Harness/CaseBuild.antt =====
-- The result of a case: pkg/harness/evaluation_result.go and metadata.go, with the types of
-- pkg/verifier/types.go and pkg/adapter/types.go that it reads. `atoi` is strconv.Atoi with its error
-- dropped, and the autopsy report is the decoded one, or none.
use evidra_bench.Base.{
  String, ℕ, ℤ, pos, Bool, true, false, not, ◌&&◌, ◌||◌, List, [], ◌∷◌, ◌++◌, Option, none, some,
  ◌==◌, is_empty, is_nil, is_some, get, length, eqb, select, if◌then◌else◌,
}
use evidra_bench.Json.{Json}
use evidra_bench.Authority.Profile.{AuthorityProfile, gap_authority_profile_missing}
use evidra_bench.Evaluation.Coverage.{is_complete}
use evidra_bench.Evaluation.Verdict.{Verdict, FindingSeverity, SafetyFinding}
use evidra_bench.Evaluation.Termination.{Termination}
use evidra_bench.Evaluation.Evidence.{
  Evidence, Safety, AuditSummary, SnapshotSummary, initial_safety, evidence_for_run,
  telemetry_source_for, apply_audit, apply_snapshot, drop_gap, gap_agent_unconfined,
  gap_audit_not_captured, gap_snapshot_not_captured,
}
use evidra_bench.Evaluation.Result.{Usage, CaseResult}
use evidra_bench.Harness.AuditWindow.{AuditWindowInfo, audit_summary}
use evidra_bench.Harness.Checkpoints.{SnapshotInfo, snapshot_summary}

pub data CheckVerdict : Type 0 where
  pass fail skip error : CheckVerdict

pub record CheckResult : Type 0 where
  pub name : String
  pub check_type : String
  pub verdict : CheckVerdict
  pub message : String

pub record VerifyResult : Type 0 where
  pub passed : Bool
  pub checks : List CheckResult

unfoldable pub is_errored : CheckResult → Bool
is_errored c = elim c.verdict [ CheckVerdict.error ↦ true | _ ↦ false ]

unfoldable pub is_passed : CheckResult → Bool
is_passed c = elim c.verdict [ CheckVerdict.pass ↦ true | _ ↦ false ]

unfoldable pub errored_checks : VerifyResult → List CheckResult
errored_checks r = select is_errored r.checks

pub record ToolCallRecord : Type 0 where
  pub tool : String
  pub args : Json
  pub result : String

-- A nil map of metadata reads as an empty one.
pub record RunResult : Type 0 where
  pub exit_code : ℤ
  pub tool_calls : List ToolCallRecord
  pub metadata : List (String × String)

-- A finding of the autopsy report, with its kind and severity as texts.
pub record AutopsyFinding : Type 0 where
  pub kind : String
  pub severity : String
  pub message : String

-- The configuration that the planned mode reads.
pub record RunConfig : Type 0 where
  pub adapter : String
  pub agent_command : String
  pub agent_unconfined : Bool
  pub agent_image : String
  pub agent_bundle_dir : String

abbrev pub mode_mediated : String
mode_mediated = "mediated"

abbrev pub mode_sandboxed : String
mode_sandboxed = "sandboxed"

abbrev pub mode_external_unconfined : String
mode_external_unconfined = "external_unconfined"

abbrev pub mode_remote_unattributed : String
mode_remote_unattributed = "remote_unattributed"

unfoldable pub planned_agent_mode : RunConfig → String
planned_agent_mode c =
    if c.adapter == "a2a"
    then mode_remote_unattributed
    else if not (is_empty c.agent_command) && c.agent_unconfined
    then mode_external_unconfined
    else if not (is_empty c.agent_image)
        || (not (is_empty c.agent_bundle_dir) || not (is_empty c.agent_command))
    then mode_sandboxed
    else mode_mediated

-- The arguments of `buildEvaluationCaseResultPlanned`.
pub record CaseInput : Type 0 where
  pub scenario_id : String
  pub planned_mode : String
  pub run_id : String
  pub agent_result : Option RunResult
  pub verify_result : Option VerifyResult
  pub autopsy : Option (List AutopsyFinding)
  pub artifact_dir : String
  pub duration : ℤ
  pub termination : Termination
  pub authority_profile_present : Bool
  pub audit_info : Option AuditWindowInfo
  pub snap_info : Option SnapshotInfo
  pub profile : Option AuthorityProfile

unfoldable pub text_or_empty : Option String → String
text_or_empty none = ""
text_or_empty (some v) = v

unfoldable pub metadata_at : String → Option RunResult → String
metadata_at key none = ""
metadata_at key (some r) = text_or_empty (get key r.metadata)

unfoldable pub parse_int_meta : (String → ℤ) → Option String → ℤ
parse_int_meta atoi none = pos 0
parse_int_meta atoi (some v) = atoi v

unfoldable pub usage_of : (String → ℤ) → Option RunResult → Usage
usage_of atoi none = record { known = false; prompt_tokens = pos 0; completion_tokens = pos 0 }
usage_of atoi (some r) = record {
  known = is_some (get "prompt_tokens" r.metadata) || is_some (get "completion_tokens" r.metadata);
  prompt_tokens = parse_int_meta atoi (get "prompt_tokens" r.metadata);
  completion_tokens = parse_int_meta atoi (get "completion_tokens" r.metadata);
}

unfoldable pub exit_code_of : Option RunResult → ℤ
exit_code_of none = pos 0
exit_code_of (some r) = r.exit_code

-- The checks that passed, and all.
unfoldable pub count_checks : Option VerifyResult → ℕ × ℕ
count_checks none = (0, 0)
count_checks (some v) = (length (select is_passed v.checks), length v.checks)

unfoldable pub autopsy_severity : String → FindingSeverity
autopsy_severity s =
    if s == "critical"
    then FindingSeverity.critical
    else if s == "warning"
    then FindingSeverity.warning
    else FindingSeverity.info

unfoldable pub finding_of_autopsy : AutopsyFinding → SafetyFinding
finding_of_autopsy f = record {
  kind = f.kind;
  severity = autopsy_severity f.severity;
  measured = f.severity == "critical";
  message = f.message;
  evidence_ref = none;
}

unfoldable pub unsafe_findings : List AutopsyFinding → List SafetyFinding
unsafe_findings [] = []
unsafe_findings (f ∷ fs) =
    let rest = unsafe_findings fs in
    if f.kind == "unsafe_action" then finding_of_autopsy f ∷ rest else rest

unfoldable pub findings_from_autopsy : Option (List AutopsyFinding) → List SafetyFinding
findings_from_autopsy none = []
findings_from_autopsy (some fs) = unsafe_findings fs

unfoldable pub recorded_calls : Option RunResult → Bool
recorded_calls none = false
recorded_calls (some r) = not (is_nil r.tool_calls)

-- Observed metadata win over the planned mode.
unfoldable pub agent_mode_of : CaseInput → String
agent_mode_of c =
    let observed = metadata_at "agent_mode" c.agent_result in
    let image = metadata_at "sandbox_image" c.agent_result in
    if observed == "remote"
    then mode_remote_unattributed
    else if observed == "external-unconfined"
    then mode_external_unconfined
    else if not (is_empty image) || observed == "external-sandboxed"
    then mode_sandboxed
    else if is_empty c.planned_mode
    then mode_mediated
    else c.planned_mode

unfoldable pub is_unconfined : CaseInput → Bool
is_unconfined c = agent_mode_of c == mode_external_unconfined

unfoldable pub add_gap_if : Bool → String → Safety → Safety
add_gap_if false gap s = s
add_gap_if true gap s = record s { gaps = s.gaps ++ (gap ∷ []) }

unfoldable pub initial_gaps : CaseInput → Safety
initial_gaps c =
    add_gap_if (is_unconfined c) gap_agent_unconfined
      (add_gap_if (not c.authority_profile_present) gap_authority_profile_missing initial_safety)

unfoldable pub manifest_audit : Option AuditSummary → Evidence → Evidence
manifest_audit none e = e
manifest_audit (some s) e = apply_audit s e

unfoldable pub safety_audit : Option AuditSummary → Safety → Safety
safety_audit none s = s
safety_audit (some sum) s =
    if is_complete sum.coverage then drop_gap gap_audit_not_captured s else s

unfoldable pub manifest_snapshot : Option SnapshotSummary → Evidence → Evidence
manifest_snapshot none e = e
manifest_snapshot (some s) e = apply_snapshot s e

unfoldable pub safety_snapshot : Option SnapshotSummary → Safety → Safety
safety_snapshot none s = s
safety_snapshot (some sum) s =
    if is_complete sum.coverage && eqb sum.violations 0
    then drop_gap gap_snapshot_not_captured s
    else s

-- The result before the engine; its verdict is the empty text.
unfoldable pub base_result : (String → ℤ) → CaseInput → CaseResult
base_result atoi c =
    let checks = count_checks c.verify_result in
    let audited = audit_summary c.audit_info in
    let captured = snapshot_summary c.snap_info in
    record {
      scenario_id = c.scenario_id;
      run_id = c.run_id;
      verdict = Verdict.other "";
      duration = c.duration;
      exit_code = exit_code_of c.agent_result;
      checks_passed = checks.0;
      checks_total = checks.1;
      usage = usage_of atoi c.agent_result;
      findings = findings_from_autopsy c.autopsy;
      evidence =
          if is_empty c.artifact_dir
          then []
          else record { kind = "artifact_dir"; path = c.artifact_dir } ∷ [];
      termination = c.termination;
      runtime = record {
        mode = agent_mode_of c;
        sandbox_image = metadata_at "sandbox_image" c.agent_result;
      };
      safety = safety_snapshot captured (safety_audit audited (initial_gaps c));
      manifest = manifest_snapshot captured (
          manifest_audit audited
            (evidence_for_run (telemetry_source_for (recorded_calls c.agent_result))));
    }
