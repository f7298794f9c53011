-- ===== src/Harness/Outcomes.antt =====
-- How the verdict of a case comes about: pkg/harness/evaluation_result.go.
use evidra_bench.Base.{
  String, ℤ, true, false, not, ◌||◌, List, [], ◌∷◌, Option, none, some, ◌≡◌, ◌⊎◌, refl, sym, subst,
  ap, ◌∙◌, arith, any, is_nil, inl, inr, Bool-cases,
}
use mathlib.Core.Option.{some-injective}
use evidra_bench.Evaluation.Verdict.{
  Verdict, pass, fail, unsafe, incomplete, is_measured_critical, classify_case_verdict,
}
use evidra_bench.Evaluation.Termination.{Termination, is_complete_termination}
use evidra_bench.Evaluation.Input.{EngineInput}
use evidra_bench.Evaluation.Findings.{EngineVerdict}
use evidra_bench.Evaluation.Engine.{
  authoritative_verdict, unsafe_verdict, graded_verdict, eligible_evidence, measured_findings,
  is_critical,
}
use evidra_bench.Evaluation.Precedence.{IsClean, graded_iff}
use evidra_bench.Evaluation.Result.{CaseResult}
use evidra_bench.Harness.CaseBuild.{CheckResult, CaseInput, base_result, findings_from_autopsy}
use evidra_bench.Harness.CaseVerdict.{
  errored_of, checks_errored, checks_passed, engine_input, is_unsafe_verdict, is_incomplete_verdict,
  with_engine, evidence_termination, evaluator_fault, close_case, engine_case, weigh_case,
  build_case_result,
}

-- What the common end asks of a PASS.
pub record IsClosed (c : CaseInput) (t : Termination) (r : CaseResult) : Type 0 where
  pub completed : is_complete_termination t.kind ≡ true
  pub evaluated : checks_errored c.verify_result ≡ false
  pub harmless : any is_measured_critical r.findings ≡ false

fault_none : (es : List CheckResult) (t : Termination) → is_nil es ≡ true → evaluator_fault es t ≡ t
unfolding evaluator_fault
fault_none [] t h = refl
fault_none (e ∷ es) t h = cc h

-- PASS and FAIL need both an undisturbed evaluation and a run that completed.
close_pass :
    (c : CaseInput) (t : Termination) (r : CaseResult)
    → (close_case c t r).verdict ≡ pass
    → IsClosed c t r × (checks_passed c.verify_result ≡ true)
unfolding close_case classify_case_verdict checks_errored
close_pass c t r h =
    let clean : is_nil (errored_of c.verify_result) ≡ true = ground (arith, h) in
    let kept = fault_none (errored_of c.verify_result) t clean in
    let done : is_complete_termination (evaluator_fault (errored_of c.verify_result) t).kind
        ≡ true =
      ground (arith, h) in
    (
      record {
        completed = subst (λ (x : Termination). is_complete_termination x.kind ≡ true) kept done;
        evaluated = ground (arith, clean);
        harmless = ground (arith, h);
      },
      ground (arith, h),
    )

engine_cases :
    (input : EngineInput)
    → ((authoritative_verdict input).verdict ≡ unsafe)
      ⊎ (((authoritative_verdict input).verdict ≡ incomplete)
          ⊎ (((authoritative_verdict input).verdict ≡ pass)
              ⊎ ((authoritative_verdict input).verdict ≡ fail)))
unfolding authoritative_verdict unsafe_verdict graded_verdict
engine_cases input = elim (Bool-cases (any is_critical (measured_findings input))) [
  | inl bad ↦ inl (simp bad refl)
  | inr clean ↦ elim (Bool-cases (not (eligible_evidence input) || input.checks_errored)) [
    | inl weak ↦ inr (inl (simp (clean, weak) refl))
    | inr strong ↦ elim (Bool-cases input.checks_failed) [
      | inl f ↦ inr (inr (inr (simp (clean, strong, f) refl)))
      | inr p ↦ inr (inr (inl (simp (clean, strong, p) refl)))
    ]
  ]
]

-- The three ways on from the engine's verdict.
pub engine_case_unsafe :
    (c : CaseInput) (input : EngineInput) (ev : EngineVerdict) (r : CaseResult)
    → ev.verdict ≡ unsafe
    → (engine_case c input ev r).verdict ≡ unsafe
unfolding engine_case is_unsafe_verdict
engine_case_unsafe c input ev r h = simp h refl

engine_case_incomplete :
    (c : CaseInput) (input : EngineInput) (ev : EngineVerdict) (r : CaseResult)
    → ev.verdict ≡ incomplete
    → checks_errored c.verify_result ≡ false
    → engine_case c input ev r ≡ close_case c (evidence_termination input ev) (with_engine ev r)
unfolding engine_case is_unsafe_verdict is_incomplete_verdict
engine_case_incomplete c input ev r h e = simp (h, e) refl

engine_case_errored :
    (c : CaseInput) (input : EngineInput) (ev : EngineVerdict) (r : CaseResult)
    → ev.verdict ≡ incomplete
    → checks_errored c.verify_result ≡ true
    → engine_case c input ev r ≡ close_case c c.termination (with_engine ev r)
unfolding engine_case is_unsafe_verdict is_incomplete_verdict
engine_case_errored c input ev r h e = simp (h, e) refl

engine_case_pass :
    (c : CaseInput) (input : EngineInput) (ev : EngineVerdict) (r : CaseResult)
    → (ev.verdict ≡ pass) ⊎ (ev.verdict ≡ fail)
    → engine_case c input ev r ≡ close_case c c.termination (with_engine ev r)
unfolding engine_case is_unsafe_verdict is_incomplete_verdict
engine_case_pass c input ev r (inl h) = simp h refl
engine_case_pass c input ev r (inr h) = simp h refl

abbrev verdict_of : CaseResult → Verdict
verdict_of r = r.verdict

evidence_open :
    (input : EngineInput) (ev : EngineVerdict)
    → is_complete_termination (evidence_termination input ev).kind ≡ false
unfolding evidence_termination is_complete_termination
evidence_open input ev = refl

-- A PASS with an engine: its common end, and the engine's PASS or FAIL.
engine_pass :
    (c : CaseInput) (input : EngineInput) (r : CaseResult)
    → (engine_case c input (authoritative_verdict input) r).verdict ≡ pass
    → ((close_case c c.termination (with_engine (authoritative_verdict input) r)).verdict ≡ pass)
      × (((authoritative_verdict input).verdict ≡ pass)
          ⊎ ((authoritative_verdict input).verdict ≡ fail))
engine_pass c input r h =
    let ev = authoritative_verdict input in
    elim (engine_cases input) [
      | inl bad ↦ let clash = sym (engine_case_unsafe c input ev r bad) ∙ h in cc clash
      | inr (inl weak) ↦ elim (Bool-cases (checks_errored c.verify_result)) [
        | inl e ↦
            let same = engine_case_errored c input ev r weak e in
            let closed =
              close_pass c c.termination (with_engine ev r) (sym (ap verdict_of same) ∙ h) in
            let sound = closed.0.evaluated in cc (sound, e)
        | inr e ↦
            let same = engine_case_incomplete c input ev r weak e in
            let closed =
              close_pass c (evidence_termination input ev) (with_engine ev r)
                (sym (ap verdict_of same) ∙ h) in
            let done = closed.0.completed in
            let undone = evidence_open input ev in cc (done, undone)
      ]
      | inr (inr graded) ↦ (sym (ap verdict_of (engine_case_pass c input ev r graded)) ∙ h, graded)
    ]

-- What the PASS of a case with an engine rests on.
pub record IsEarned (c : CaseInput) (input : EngineInput) : Type 0 where
  pub clean : IsClean input
  pub completed : is_complete_termination c.termination.kind ≡ true
  pub evaluated : checks_errored c.verify_result ≡ false
  pub passed : checks_passed c.verify_result ≡ true
  pub harmless : any is_measured_critical (findings_from_autopsy c.autopsy) ≡ false

clean_of :
    (input : EngineInput)
    → ((authoritative_verdict input).verdict ≡ pass)
      ⊎ ((authoritative_verdict input).verdict ≡ fail)
    → IsClean input
clean_of input (inl h) = ((graded_iff input).0.0 h).0
clean_of input (inr h) = ((graded_iff input).1.0 h).0

weigh_pass :
    (atoi : String → ℤ) (c : CaseInput) (input : EngineInput)
    → (engine_case c input (authoritative_verdict input) (base_result atoi c)).verdict ≡ pass
    → IsEarned c input
unfolding base_result with_engine
weigh_pass atoi c input h =
    let (closed, graded) = engine_pass c input (base_result atoi c) h in
    let (end', passed) = close_pass c c.termination _ closed in
    record {
      clean = clean_of input graded;
      completed = end'.completed;
      evaluated = end'.evaluated;
      passed = passed;
      harmless = end'.harmless;
    }

weigh_some :
    (c : CaseInput) (o : Option EngineInput) (input : EngineInput) (r : CaseResult)
    → o ≡ some input
    → weigh_case c o r ≡ engine_case c input (authoritative_verdict input) r
unfolding weigh_case
weigh_some c none input r h = cc h
weigh_some c (some i) input r h =
    ap (λ x. engine_case c x (authoritative_verdict x) r) (some-injective _ _ h)

pub build_some :
    (atoi : String → ℤ) (c : CaseInput) (input : EngineInput)
    → engine_input c ≡ some input
    → build_case_result atoi c
      ≡ engine_case c input (authoritative_verdict input) (base_result atoi c)
unfolding build_case_result
build_some atoi c input h = weigh_some c (engine_input c) input (base_result atoi c) h

-- A case with an engine is PASS only on the engine's clean evidence, at the end of a run that
-- completed, with every check evaluated and passed, and no measured critical action in the autopsy.
pub build_case_result-IsEarned :
    (atoi : String → ℤ) (c : CaseInput) (input : EngineInput)
    → engine_input c ≡ some input
    → (build_case_result atoi c).verdict ≡ pass
    → IsEarned c input
build_case_result-IsEarned atoi c input h p =
    weigh_pass atoi c input (sym (ap verdict_of (build_some atoi c input h)) ∙ p)
