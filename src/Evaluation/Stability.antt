-- ===== src/Evaluation/Stability.antt =====
-- What cannot change a verdict: more evidence after UNSAFE, telemetry, the flag of passed checks.
use evidra_bench.Base.{String, ℕ, Bool, List, [], ◌∷◌, ◌++◌, ◌≡◌, refl, inl, inr, ◌≢◌}
use mathlib.Core.List.Memᴰ
use evidra_bench.Evaluation.Verdict.{unsafe}
use evidra_bench.Evaluation.Input.{
  ActionObservation, EngineInput, is_agent_mutation, is_protected, is_outside, demoted,
}
use evidra_bench.Evaluation.Findings.{attempt_class, protected_finding, scope_finding}
use evidra_bench.Evaluation.Violations.{
  Violation, unsafe_iff, Indicts, protected_attempt, outside_scope, forbidden_change,
}
use evidra_bench.Evaluation.Engine.{
  granted_outcome, action_outcome, action_findings, field_evidence_gap, measured_findings,
  eligible_evidence, graded_verdict, unsafe_verdict, authoritative_verdict,
}

abbrev pub extended :
    EngineInput → List ActionObservation → List ActionObservation → List String → EngineInput
extended input before after survivors = record input {
  actions = before ++ (input.actions ++ after);
  persistent_violations = input.persistent_violations ++ survivors;
}

Indicts-extended :
    (input : EngineInput) (before after : List ActionObservation) (survivors : List String)
    (a : ActionObservation)
    → Indicts input a
    → Indicts (extended input before after survivors) a
unfolding is_protected is_outside demoted
Indicts-extended input before after survivors a (protected_attempt p d) = protected_attempt p d
Indicts-extended input before after survivors a (outside_scope o d) = outside_scope o d
Indicts-extended input before after survivors a (forbidden_change q i ff m e) =
    forbidden_change q i ff m e

append_ne_nil : (xs ys : List String) → xs ≢ [] → (xs ++ ys) ≢ []
append_ne_nil [] ys h = absurd (h refl)
append_ne_nil (x ∷ xs) ys h = λ e. cc e

Violation-extended :
    (input : EngineInput) (before after : List ActionObservation) (survivors : List String)
    → Violation input
    → Violation (extended input before after survivors)
unfolding is_agent_mutation
Violation-extended input before after survivors (inl (a, m, acted, why)) = inl (
  a,
  Memᴰ.append_right before (Memᴰ.append_left after m),
  acted,
  Indicts-extended input before after survivors a why,
)
Violation-extended input before after survivors (inr ne) =
    inr (append_ne_nil input.persistent_violations survivors ne)

-- More actions in the window and more surviving changes never soften an UNSAFE verdict.
pub unsafe_monotone :
    (input : EngineInput) (before after : List ActionObservation) (survivors : List String)
    → (authoritative_verdict input).verdict ≡ unsafe
    → (authoritative_verdict (extended input before after survivors)).verdict ≡ unsafe
unsafe_monotone input before after survivors h =
    (unsafe_iff (extended input before after survivors)).1
      (Violation-extended input before after survivors ((unsafe_iff input).0 h))

-- The flag of passed checks and the count of telemetry, set to any values.
abbrev relabelled : EngineInput → ℕ → Bool → EngineInput
relabelled input n b = record input { timeline_observations = n; checks_passed = b }

module _ (input : EngineInput) (n : ℕ) (b : Bool) where
  action_findings-relabelled :
      (actions : List ActionObservation)
      → action_findings (relabelled input n b) actions ≡ action_findings input actions
  unfolding action_findings action_outcome is_agent_mutation is_protected is_outside demoted
      granted_outcome protected_finding scope_finding attempt_class
  action_findings-relabelled [] = refl
  action_findings-relabelled (a ∷ rest) = rw (action_findings-relabelled rest)

  field_evidence_gap-relabelled :
      (actions : List ActionObservation)
      → field_evidence_gap (relabelled input n b) actions ≡ field_evidence_gap input actions
  unfolding field_evidence_gap action_outcome is_agent_mutation is_protected is_outside demoted
      granted_outcome protected_finding scope_finding attempt_class
  field_evidence_gap-relabelled [] = refl
  field_evidence_gap-relabelled (a ∷ rest) = rw (field_evidence_gap-relabelled rest)

  -- Neither the telemetry count nor the flag of passed checks reaches the outcome.
  authoritative_verdict-relabelled :
      authoritative_verdict (relabelled input n b) ≡ authoritative_verdict input
  unfolding authoritative_verdict unsafe_verdict graded_verdict measured_findings eligible_evidence
  authoritative_verdict-relabelled =
      rw (action_findings-relabelled input.actions, field_evidence_gap-relabelled input.actions)
