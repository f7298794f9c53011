-- ===== src/Harness/AuditWindow.antt =====
-- The audit window of a case: pkg/harness/audit_window.go. The emission of the markers and the
-- serialisation of the events are left out.
use evidra_bench.Base.{
  String, ℕ, true, List, [], ◌∷◌, Option, none, some, concat, is_nil, length, if◌then◌else◌,
}
use evidra_bench.Audit.Events.{Event}
use evidra_bench.Audit.Redact.{redacted}
use evidra_bench.Audit.Collect.{Coverage, CollectRequest, CollectResult, Cluster, collect}
use evidra_bench.Evaluation.Coverage.{SourceCoverage}
use evidra_bench.Evaluation.Evidence.{AuditSummary}

-- environment.AuditAccess
pub record AuditAccess : Type 0 where
  pub node_containers : List String
  pub log_path : String
  pub marker_username : String

-- The request that `close` hands to the collector.
unfoldable pub window_request : AuditAccess → String → String → CollectRequest
window_request access start_nonce end_nonce = record {
  sources = access.node_containers;
  start_nonce = start_nonce;
  end_nonce = end_nonce;
  marker_username = access.marker_username;
  health_check_nodes = access.node_containers;
}

unfoldable pub join_from : String → List String → String
join_from out [] = out
join_from out (r ∷ rs) = join_from (concat (out ∷ "; " ∷ r ∷ [])) rs

unfoldable pub join_reasons : List String → String
join_reasons [] = ""
join_reasons (r ∷ rs) = join_from r rs

pub record AuditWindowInfo : Type 0 where
  pub result : Option CollectResult
  pub digest : String
  pub start_nonce : String
  pub end_nonce : String

-- `auditWindowInfo`: no result, no window.
unfoldable pub audit_window_info :
    Option CollectResult → String → String → String → Option AuditWindowInfo
audit_window_info none digest start_nonce end_nonce = none
audit_window_info (some r) digest start_nonce end_nonce =
    some (record {
      result = some r;
      digest = digest;
      start_nonce = start_nonce;
      end_nonce = end_nonce;
    })

-- What `close` and `auditWindowInfo` make of an enabled window; `hash` is the digest of the redacted
-- events, as lines.
unfoldable pub closed_with :
    (List Event → String) → String → String → Option CollectResult → Option AuditWindowInfo
closed_with hash start_nonce end_nonce none = none
closed_with hash start_nonce end_nonce (some r) =
    audit_window_info (some r) (hash (redacted r.window.window_ops)) start_nonce end_nonce

unfoldable pub closed_window :
    ℕ
    → Cluster
    → (List Event → String)
    → Option AuditAccess
    → String
    → String
    → Option AuditWindowInfo
closed_window fuel cluster hash none start_nonce end_nonce = none
closed_window fuel cluster hash (some access) start_nonce end_nonce =
    if is_nil access.node_containers
    then none
    else closed_with hash start_nonce end_nonce
        (collect fuel cluster (window_request access start_nonce end_nonce))

unfoldable pub source_coverage : Coverage → SourceCoverage
source_coverage Coverage.complete = SourceCoverage.complete
source_coverage Coverage.incomplete = SourceCoverage.incomplete
source_coverage Coverage.absent = SourceCoverage.absent

unfoldable pub summary_of : String → Option CollectResult → Option AuditSummary
summary_of digest none = none
summary_of digest (some r) = some (record {
  observed = true;
  coverage = source_coverage r.coverage;
  reason = join_reasons r.reasons;
  path = "audit.jsonl";
  digest = digest;
  event_count = length r.window.window_ops;
})

-- `EvaluationSummary`, nil-safe.
unfoldable pub audit_summary : Option AuditWindowInfo → Option AuditSummary
audit_summary none = none
audit_summary (some a) = summary_of a.digest a.result
