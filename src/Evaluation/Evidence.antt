-- ===== src/Evaluation/Evidence.antt =====
-- The evidence manifest and the safety block of a case: pkg/evaluation/evidence.go.
use evidra_bench.Base.{
  String, ℕ, Bool, true, false, not, List, [], ◌∷◌, ◌==◌, Option, none, select, if◌then◌else◌,
}
use evidra_bench.Evaluation.Coverage.{SourceCoverage}
use evidra_bench.Evaluation.Verdict.{SafetyFinding}
use evidra_bench.Evaluation.Findings.{EngineVerdict}

abbrev pub source_api_audit : String
source_api_audit = "api_audit"

abbrev pub source_state_snapshot : String
source_state_snapshot = "state_snapshot"

abbrev pub source_tool_telemetry : String
source_tool_telemetry = "tool_telemetry"

pub record SourceStatus : Type 0 where
  pub name : String
  pub coverage : SourceCoverage
  pub reason : String
  pub digest : String
  pub path : String

pub record Evidence : Type 0 where
  pub semantics_version : String
  pub sources : List SourceStatus

pub record Safety : Type 0 where
  pub gaps : List String
  pub violations : List SafetyFinding
  pub engine : Option EngineVerdict

abbrev pub gap_audit_not_captured : String
gap_audit_not_captured = "api_audit_not_captured"

abbrev pub gap_snapshot_not_captured : String
gap_snapshot_not_captured = "state_snapshot_not_captured"

abbrev pub gap_telemetry_not_sufficient : String
gap_telemetry_not_sufficient = "tool_telemetry_not_sufficient"

abbrev pub gap_agent_unconfined : String
gap_agent_unconfined = "agent_unconfined_execution"

abbrev pub safety_evidence_semantics_version : String
safety_evidence_semantics_version = "safety-evidence.v3"

unfoldable pub initial_safety : Safety
initial_safety = record {
  gaps = gap_audit_not_captured ∷ gap_snapshot_not_captured ∷ gap_telemetry_not_sufficient ∷ [];
  violations = [];
  engine = none;
}

unfoldable pub evidence_for_run : SourceStatus → Evidence
evidence_for_run telemetry = record {
  semantics_version = safety_evidence_semantics_version;
  sources =
      record {
        name = source_api_audit;
        coverage = SourceCoverage.absent;
        reason = gap_audit_not_captured;
        digest = "";
        path = "";
      }
      ∷ record {
        name = source_state_snapshot;
        coverage = SourceCoverage.absent;
        reason = gap_snapshot_not_captured;
        digest = "";
        path = "";
      }
      ∷ telemetry
      ∷ [];
}

unfoldable pub telemetry_source_for : Bool → SourceStatus
telemetry_source_for true = record {
  name = source_tool_telemetry;
  coverage = SourceCoverage.complete;
  reason = "explanatory_only";
  digest = "";
  path = "";
}
telemetry_source_for false = record {
  name = source_tool_telemetry;
  coverage = SourceCoverage.absent;
  reason = "no_tool_telemetry_recorded";
  digest = "";
  path = "";
}

pub record AuditSummary : Type 0 where
  pub observed : Bool
  pub coverage : SourceCoverage
  pub reason : String
  pub path : String
  pub digest : String
  pub event_count : ℕ

pub record SnapshotSummary : Type 0 where
  pub coverage : SourceCoverage
  pub reason : String
  pub baseline_digest : String
  pub post_agent_digest : String
  pub stability_digest : String
  pub violations : ℕ

-- Replaces the first entry of the name, or appends one.
unfoldable pub set_source : String → SourceStatus → List SourceStatus → List SourceStatus
set_source name st [] = st ∷ []
set_source name st (s ∷ rest) = if s.name == name then st ∷ rest else s ∷ set_source name st rest

unfoldable pub apply_audit : AuditSummary → Evidence → Evidence
apply_audit a e = record e {
  sources =
      set_source source_api_audit
        (record {
          name = source_api_audit;
          coverage = a.coverage;
          reason = a.reason;
          digest = a.digest;
          path = a.path;
        })
        e.sources;
}

unfoldable pub apply_snapshot : SnapshotSummary → Evidence → Evidence
apply_snapshot a e = record e {
  sources =
      set_source source_state_snapshot
        (record {
          name = source_state_snapshot;
          coverage = a.coverage;
          reason = a.reason;
          digest = a.post_agent_digest;
          path = "snapshot-post-agent.json";
        })
        e.sources;
}

unfoldable pub is_not : String → String → Bool
is_not gap g = not (g == gap)

unfoldable pub drop_gap : String → Safety → Safety
drop_gap gap s = record s { gaps = select (is_not gap) s.gaps }
