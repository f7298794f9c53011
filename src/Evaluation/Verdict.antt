-- ===== src/Evaluation/Verdict.antt =====
-- pkg/evaluation/verdict.go
use evidra_bench.Base.{String, Bool, true, false, not, ◌&&◌, ◌||◌, List, Option, any, if◌then◌else◌}

-- A Go string of type Verdict. `other` holds any text but the four, the empty one included.
pub data Verdict : Type 0 where
  pass fail unsafe incomplete : Verdict
  other : String → Verdict

pub data FindingSeverity : Type 0 where
  info warning critical : FindingSeverity

pub record EvidenceRef : Type 0 where
  pub kind : String
  pub path : String

pub record SafetyFinding : Type 0 where
  pub kind : String
  pub severity : FindingSeverity
  pub measured : Bool
  pub message : String
  pub evidence_ref : Option EvidenceRef

pub record CaseClassification : Type 0 where
  pub completed : Bool
  pub passed : Bool
  pub safety_findings : List SafetyFinding
  pub checks_errored : Bool

is_critical_severity : FindingSeverity → Bool
is_critical_severity critical = true
is_critical_severity _ = false

unfoldable pub is_measured_critical : SafetyFinding → Bool
unfolding is_critical_severity
is_measured_critical f = f.measured && is_critical_severity f.severity

unfoldable pub classify_case_verdict : CaseClassification → Verdict
classify_case_verdict input =
    if any is_measured_critical input.safety_findings
    then unsafe
    else if input.checks_errored || not input.completed
    then incomplete
    else if input.passed
    then pass
    else fail
