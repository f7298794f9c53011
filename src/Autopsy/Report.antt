-- ===== src/Autopsy/Report.antt =====
-- The report of a failure autopsy: pkg/autopsy/autopsy.go, its types with add, addAll, has and
-- primaryFailure. The estimated cost, a float that is copied, is left out.
use evidra_bench.Base.{
  String, ℕ, Bool, List, [], ◌∷◌, ◌++◌, Option, none, some, any, to_lower, trim_space, ◌==◌,
  if◌then◌else◌,
}

pub data FailureKind : Type 0 where
  gave_up : FailureKind
  timeout_no_progress : FailureKind
  retry_loop : FailureKind
  premature_success : FailureKind
  wrong_root_cause : FailureKind
  unsafe_action : FailureKind
  irrelevant_action : FailureKind
  missed_diagnostic_step : FailureKind
  tool_misuse : FailureKind
  excessive_token_burn : FailureKind

unfoldable pub kind_text : FailureKind → String
kind_text gave_up = "gave_up"
kind_text timeout_no_progress = "timeout_no_progress"
kind_text retry_loop = "retry_loop"
kind_text premature_success = "premature_success"
kind_text wrong_root_cause = "wrong_root_cause"
kind_text unsafe_action = "unsafe_action"
kind_text irrelevant_action = "irrelevant_action"
kind_text missed_diagnostic_step = "missed_diagnostic_step"
kind_text tool_misuse = "tool_misuse"
kind_text excessive_token_burn = "excessive_token_burn"

-- The comparison of two kinds, which are texts.
unfoldable pub same_kind : FailureKind → FailureKind → Bool
same_kind a b = kind_text a == kind_text b

pub data Severity : Type 0 where
  info : Severity
  warning : Severity
  critical : Severity

unfoldable pub severity_text : Severity → String
severity_text info = "info"
severity_text warning = "warning"
severity_text critical = "critical"

unfoldable pub severity_of : String → Severity → Severity
severity_of value fallback =
    if value == "info"
    then info
    else if value == "warning"
    then warning
    else if value == "critical"
    then critical
    else fallback

unfoldable pub severity_from_hint : String → Severity → Severity
severity_from_hint value fallback = severity_of (to_lower (trim_space value)) fallback

pub data Confidence : Type 0 where
  low : Confidence
  medium : Confidence
  high : Confidence

pub record Finding : Type 0 where
  pub kind : FailureKind
  pub severity : Severity
  pub message : String
  pub evidence : String

pub record Metrics : Type 0 where
  pub turns : ℕ
  pub prompt_tokens : ℕ
  pub completion_tokens : ℕ
  pub total_tokens : ℕ
  pub checks_passed : ℕ
  pub checks_total : ℕ
  pub mutation_count : ℕ
  pub diagnosis_depth : ℕ
  pub total_steps : ℕ

pub record Report : Type 0 where
  pub version : String
  pub outcome : String
  pub primary_failure : Option FailureKind
  pub summary : String
  pub confidence : Confidence
  pub findings : List Finding
  pub metrics : Metrics
  pub wasted_turns : ℕ
  pub wasted_tokens : ℕ

abbrev pub of_kind : FailureKind → Finding → Bool
of_kind kind finding = same_kind finding.kind kind

unfoldable pub has : FailureKind → List Finding → Bool
has kind findings = any (of_kind kind) findings

unfoldable pub add : Finding → List Finding → List Finding
add f findings = findings ++ f ∷ []

-- A finding whose kind the report has is dropped.
unfoldable pub add_all : List Finding → List Finding → List Finding
add_all [] findings = findings
add_all (f ∷ more) findings =
    add_all more (if has f.kind findings then findings else add f findings)

abbrev pub priorities : List FailureKind
priorities =
    premature_success ∷ unsafe_action ∷ gave_up ∷ timeout_no_progress ∷ retry_loop
    ∷ missed_diagnostic_step ∷ tool_misuse ∷ wrong_root_cause ∷ irrelevant_action
    ∷ excessive_token_burn ∷ []

unfoldable pub first_present : List FailureKind → List Finding → Option FailureKind
first_present [] findings = none
first_present (kind ∷ rest) findings =
    if has kind findings then some kind else first_present rest findings

unfoldable pub primary_failure : List Finding → Option FailureKind
primary_failure findings = first_present priorities findings
