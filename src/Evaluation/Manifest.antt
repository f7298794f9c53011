-- ===== src/Evaluation/Manifest.antt =====
-- The sources of a case's evidence manifest: pkg/evaluation/evidence.go.
use evidra_bench.Base.{
  String, Bool, true, false, List, [], ◌∷◌, ◌==◌, ◌≡◌, refl, arith, ◌↔◌, Option, none, some, any,
  eq_iff, eq_refl, Bool-cases, inl, inr, if◌then◌else◌,
}
use evidra_bench.Evaluation.Verdict.{
  pass, CaseClassification, is_measured_critical, classify_case_verdict,
}
use evidra_bench.Evaluation.Evidence.{
  SourceStatus, AuditSummary, SnapshotSummary, set_source, apply_audit, apply_snapshot,
  evidence_for_run, telemetry_source_for,
}

-- The first source of a name.
unfoldable pub source_named : String → List SourceStatus → Option SourceStatus
source_named name [] = none
source_named name (s ∷ rest) = if s.name == name then some s else source_named name rest

-- A status that is set under its own name is the one found under that name, and what is found under
-- any other name is as before.
pub source_named-set_source :
    (st : SourceStatus) (sources : List SourceStatus)
    → (source_named st.name (set_source st.name st sources) ≡ some st)
      × ((other : String)
          → (st.name == other) ≡ false
          → source_named other (set_source st.name st sources) ≡ source_named other sources)
unfolding source_named set_source
source_named-set_source st [] = (ground (arith, eq_refl st.name), λ other h. ground arith)
source_named-set_source st (s ∷ rest) =
    let later = source_named-set_source st rest in
    elim (Bool-cases (s.name == st.name)) [
      | inl e ↦ rw e (
        ground (arith, eq_refl st.name),
        λ other h. ground (arith, eq_iff s.name st.name, eq_iff s.name other, eq_iff st.name other),
      )
      | inr e ↦ rw e (ground (arith, later.0), λ other h. ground (arith, later.1 other))
    ]

-- On the manifest of a run, the audit and the snapshot are entered in either order with one result.
pub apply_comm :
    (a : AuditSummary) (s : SnapshotSummary) (telemetry : Bool)
    → apply_audit a (apply_snapshot s (evidence_for_run (telemetry_source_for telemetry)))
      ≡ apply_snapshot s (apply_audit a (evidence_for_run (telemetry_source_for telemetry)))
unfolding apply_audit apply_snapshot set_source evidence_for_run telemetry_source_for
apply_comm a s true = refl
apply_comm a s false = refl

-- A case passes exactly if it completed and passed, no check errored, and no measured finding is
-- critical.
pub classify_case_verdict-pass :
    (c : CaseClassification)
    → (classify_case_verdict c ≡ pass) ↔ (
        (any is_measured_critical c.safety_findings ≡ false)
        × (c.checks_errored ≡ false)
        × (c.completed ≡ true)
        × (c.passed ≡ true))
unfolding classify_case_verdict
classify_case_verdict-pass c = ground arith
