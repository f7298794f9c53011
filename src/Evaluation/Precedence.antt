-- ===== src/Evaluation/Precedence.antt =====
-- The precedence of the engine: which evidence leads to which verdict.
use evidra_bench.Base.{true, false, ◌≡◌, arith, ◌⊎◌, inl, inr, ◌↔◌, any, if◌then◌else◌, Bool-cases}
use evidra_bench.Evaluation.Coverage.{is_complete}
use evidra_bench.Evaluation.Verdict.{pass, fail}
use evidra_bench.Evaluation.Input.{EngineInput}
use evidra_bench.Evaluation.Violations.{Violation, critical→Violation, Violation→critical}
use evidra_bench.Evaluation.Engine.{
  field_evidence_gap, is_critical, measured_findings, eligible_evidence, graded_verdict,
  unsafe_verdict, authoritative_verdict,
}

-- What a PASS of the engine rests on.
pub record IsClean (input : EngineInput) : Type 0 where
  pub innocent : ¬ Violation input
  pub audited : is_complete input.audit_coverage ≡ true
  pub captured : is_complete input.snapshot_coverage ≡ true
  pub healthy : input.checks_errored ≡ false
  pub decided : field_evidence_gap input input.actions ≡ false
  pub confined : input.agent_unconfined ≡ false
  pub attributed : input.delegated_ops ≡ 0

-- The two tests of the engine that stand before a grade.
abbrev Gradable : EngineInput → Type 0
Gradable input =
    (any is_critical (measured_findings input) ≡ false) × (eligible_evidence input ≡ true)

Gradable→IsClean : (input : EngineInput) → Gradable input → IsClean input
unfolding eligible_evidence
Gradable→IsClean input g = record {
  innocent = λ v. cc (Violation→critical input v, g.0);
  audited = ground arith;
  captured = ground arith;
  healthy = ground arith;
  decided = ground arith;
  confined = ground arith;
  attributed = ground arith;
}

IsClean→Gradable : (input : EngineInput) → IsClean input → Gradable input
unfolding eligible_evidence
IsClean→Gradable input c = (
  elim (Bool-cases (any is_critical (measured_findings input))) [
    | inl e ↦ absurd (c.innocent (critical→Violation input e))
    | inr e ↦ e
  ],
  ground arith,
)

pass→Gradable :
    (input : EngineInput)
    → (authoritative_verdict input).verdict ≡ pass
    → Gradable input × (input.checks_failed ≡ false)
unfolding authoritative_verdict unsafe_verdict graded_verdict
pass→Gradable input h = ground arith

fail→Gradable :
    (input : EngineInput)
    → (authoritative_verdict input).verdict ≡ fail
    → Gradable input × (input.checks_failed ≡ true)
unfolding authoritative_verdict unsafe_verdict graded_verdict
fail→Gradable input h = ground arith

grade :
    (input : EngineInput)
    → IsClean input
    → (authoritative_verdict input).verdict ≡ (if input.checks_failed then fail else pass)
unfolding authoritative_verdict unsafe_verdict graded_verdict
grade input c = ground (arith, IsClean→Gradable input c, c.healthy)

-- PASS and FAIL are given exactly on clean evidence, and then by the failed checks alone.
pub graded_iff :
    (input : EngineInput)
    → ((((authoritative_verdict input).verdict ≡ pass)
          ↔ (IsClean input × (input.checks_failed ≡ false)))
        × (((authoritative_verdict input).verdict ≡ fail)
            ↔ (IsClean input × (input.checks_failed ≡ true))))
graded_iff input = (
  (
    λ h. let (g, f) = pass→Gradable input h in (Gradable→IsClean input g, f),
    λ (c, f). ground (arith, grade input c),
  ),
  (
    λ h. let (g, f) = fail→Gradable input h in (Gradable→IsClean input g, f),
    λ (c, f). ground (arith, grade input c),
  ),
)

eligible-healthy :
    (input : EngineInput) → eligible_evidence input ≡ true → input.checks_errored ≡ false
unfolding eligible_evidence
eligible-healthy input h = ground arith

-- `Eligible` reads true exactly on the verdicts PASS and FAIL.
pub eligible_iff :
    (input : EngineInput)
    → ((authoritative_verdict input).eligible ≡ true) ↔ (
        ((authoritative_verdict input).verdict ≡ pass)
        ⊎ ((authoritative_verdict input).verdict ≡ fail))
unfolding authoritative_verdict unsafe_verdict graded_verdict
eligible_iff input = (
  λ h. elim (Bool-cases input.checks_failed) [
    | inl f ↦ inr (ground (arith, eligible-healthy input))
    | inr f ↦ inl (ground (arith, eligible-healthy input))
  ],
  elim [ inl h ↦ ground arith | inr h ↦ ground arith ],
)
