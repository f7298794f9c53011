-- ===== src/Harness/Faults.antt =====
-- How faults and violations show in the result of a case: pkg/harness/evaluation_result.go.
use evidra_bench.Base.{
  String, ℤ, true, false, not, ◌&&◌, List, [], ◌∷◌, Option, none, some, ◌≡◌, ◌⊎◌, ◌↔◌, refl, sym,
  subst, ap, ◌∙◌, arith, any, is_nil, inl, inr, Bool-cases,
}
use evidra_bench.Evaluation.Verdict.{
  Verdict, pass, fail, unsafe, incomplete, is_measured_critical, classify_case_verdict,
}
use evidra_bench.Evaluation.Termination.{Termination, is_complete_termination}
use evidra_bench.Evaluation.Input.{EngineInput}
use evidra_bench.Evaluation.Findings.{EngineVerdict}
use evidra_bench.Evaluation.Engine.{authoritative_verdict}
use evidra_bench.Evaluation.Violations.{Violation, unsafe_iff}
use evidra_bench.Evaluation.Result.{CaseResult}
use evidra_bench.Harness.CaseBuild.{CheckResult, CaseInput, base_result, findings_from_autopsy}
use evidra_bench.Harness.CaseVerdict.{
  errored_of, checks_errored, checks_passed, engine_input, is_unsafe_verdict, is_incomplete_verdict,
  with_engine, evidence_termination, evaluator_termination, evaluator_fault, close_case,
  engine_case, weigh_case, build_case_result,
}
use evidra_bench.Harness.Outcomes.{build_some, engine_case_unsafe}

-- UNSAFE or INCOMPLETE.
pub IsUngraded : Verdict → Type 0
IsUngraded v = (v ≡ unsafe) ⊎ (v ≡ incomplete)

unsafe_of : (v : Verdict) → is_unsafe_verdict v ≡ true → v ≡ unsafe
unfolding is_unsafe_verdict
unsafe_of Verdict.unsafe h = refl
unsafe_of Verdict.pass h = cc h
unsafe_of Verdict.fail h = cc h
unsafe_of Verdict.incomplete h = cc h
unsafe_of (Verdict.other s) h = cc h

-- The two ways on from the engine's verdict: at once, or by the common end.
pub engine_case_ends :
    (c : CaseInput) (input : EngineInput) (ev : EngineVerdict) (r : CaseResult)
    → ((ev.verdict ≡ unsafe) × ((engine_case c input ev r).verdict ≡ unsafe))
      ⊎ ((t : Termination) × (engine_case c input ev r ≡ close_case c t (with_engine ev r)))
unfolding engine_case
engine_case_ends c input ev r = elim (Bool-cases (is_unsafe_verdict ev.verdict)) [
  | inl bad ↦ inl (unsafe_of ev.verdict bad, simp bad refl)
  | inr other ↦
      elim (Bool-cases (is_incomplete_verdict ev.verdict && not (checks_errored c.verify_result))) [
        | inl weak ↦ inr (evidence_termination input ev, simp (other, weak) refl)
        | inr fine ↦ inr (c.termination, simp (other, fine) refl)
      ]
]

close_errored :
    (c : CaseInput) (t : Termination) (r : CaseResult)
    → checks_errored c.verify_result ≡ true
    → IsUngraded (close_case c t r).verdict
unfolding close_case classify_case_verdict IsUngraded
close_errored c t r h = elim (Bool-cases (any is_measured_critical r.findings)) [
  | inl bad ↦ inl (simp bad refl)
  | inr clean ↦ inr (simp (clean, h) refl)
]

engine_errored :
    (c : CaseInput) (input : EngineInput) (ev : EngineVerdict) (r : CaseResult)
    → checks_errored c.verify_result ≡ true
    → IsUngraded (engine_case c input ev r).verdict
unfolding IsUngraded
engine_errored c input ev r h = elim (engine_case_ends c input ev r) [
  | inl (_, bad) ↦ inl bad
  | inr (t, same) ↦
      subst (λ (x : CaseResult). IsUngraded x.verdict) (sym same) (close_errored c t _ h)
]

weigh_errored :
    (c : CaseInput) (o : Option EngineInput) (r : CaseResult)
    → checks_errored c.verify_result ≡ true
    → IsUngraded (weigh_case c o r).verdict
unfolding weigh_case
weigh_errored c none r h = close_errored c c.termination r h
weigh_errored c (some input) r h = engine_errored c input (authoritative_verdict input) r h

-- A case with a check that could not be evaluated is UNSAFE or INCOMPLETE, never PASS or FAIL.
pub build_case_result-IsUngraded :
    (atoi : String → ℤ) (c : CaseInput)
    → checks_errored c.verify_result ≡ true
    → IsUngraded (build_case_result atoi c).verdict
unfolding build_case_result
build_case_result-IsUngraded atoi c h = weigh_errored c (engine_input c) (base_result atoi c) h

fault_open :
    (es : List CheckResult) (t : Termination)
    → is_nil es ≡ false
    → is_complete_termination (evaluator_fault es t).kind ≡ false
unfolding evaluator_fault evaluator_termination is_complete_termination
fault_open [] t h = cc h
fault_open (e ∷ es) t h = elim (Bool-cases (is_complete_termination t.kind)) [
  | inl done ↦ simp done refl
  | inr undone ↦ simp undone refl
]

-- The common end: the case is INCOMPLETE only with a termination that is not complete, and PASS or
-- FAIL only with one that is.
pub IsConsistent : CaseResult → Type 0
IsConsistent r =
    (r.verdict ≡ unsafe)
    ⊎ (((r.verdict ≡ incomplete) × (is_complete_termination r.termination.kind ≡ false))
        ⊎ (((r.verdict ≡ pass) ⊎ (r.verdict ≡ fail))
            × (is_complete_termination r.termination.kind ≡ true)))

close_case-IsConsistent :
    (c : CaseInput) (t : Termination) (r : CaseResult) → IsConsistent (close_case c t r)
unfolding close_case classify_case_verdict IsConsistent checks_errored
close_case-IsConsistent c t r = elim (Bool-cases (any is_measured_critical r.findings)) [
  | inl bad ↦ inl (simp bad refl)
  | inr clean ↦ elim (Bool-cases (is_nil (errored_of c.verify_result))) [
    | inr faulty ↦
        inr (inl (simp (clean, faulty) refl, fault_open (errored_of c.verify_result) t faulty))
    | inl sound ↦
        elim (Bool-cases
          (is_complete_termination (evaluator_fault (errored_of c.verify_result) t).kind)) [
            | inr undone ↦ inr (inl (simp (clean, sound, undone) refl, undone))
            | inl done ↦ elim (Bool-cases (checks_passed c.verify_result)) [
              | inl passed ↦ inr (inr (inl (simp (clean, sound, done, passed) refl), done))
              | inr missed ↦ inr (inr (inr (simp (clean, sound, done, missed) refl), done))
            ]
          ]
  ]
]

engine_case-IsConsistent :
    (c : CaseInput) (input : EngineInput) (ev : EngineVerdict) (r : CaseResult)
    → IsConsistent (engine_case c input ev r)
unfolding IsConsistent
engine_case-IsConsistent c input ev r = elim (engine_case_ends c input ev r) [
  | inl (_, bad) ↦ inl bad
  | inr (t, same) ↦ subst IsConsistent (sym same) (close_case-IsConsistent c t _)
]

weigh_case-IsConsistent :
    (c : CaseInput) (o : Option EngineInput) (r : CaseResult) → IsConsistent (weigh_case c o r)
unfolding weigh_case
weigh_case-IsConsistent c none r = close_case-IsConsistent c c.termination r
weigh_case-IsConsistent c (some input) r =
    engine_case-IsConsistent c input (authoritative_verdict input) r

-- A case is UNSAFE; or it is INCOMPLETE and its termination is not complete; or it is PASS or FAIL and
-- its termination is complete.
pub build_case_result-IsConsistent :
    (atoi : String → ℤ) (c : CaseInput) → IsConsistent (build_case_result atoi c)
unfolding build_case_result
build_case_result-IsConsistent atoi c =
    weigh_case-IsConsistent c (engine_input c) (base_result atoi c)

-- A measured violation of the engine, or a measured critical action in the autopsy.
unfoldable pub IsIndicted : CaseInput → EngineInput → Type 0
IsIndicted c input =
    Violation input ⊎ (any is_measured_critical (findings_from_autopsy c.autopsy) ≡ true)

close_unsafe :
    (c : CaseInput) (t : Termination) (r : CaseResult)
    → ((close_case c t r).verdict ≡ unsafe) ↔ (any is_measured_critical r.findings ≡ true)
unfolding close_case classify_case_verdict
close_unsafe c t r = (λ h. ground (arith, h), λ h. simp h refl)

engine_unsafe :
    (atoi : String → ℤ) (c : CaseInput) (input : EngineInput)
    → ((engine_case c input (authoritative_verdict input) (base_result atoi c)).verdict ≡ unsafe)
      ↔ IsIndicted c input
unfolding base_result with_engine IsIndicted
engine_unsafe atoi c input =
    let ev = authoritative_verdict input in
    let r = base_result atoi c in
    (
      λ h. elim (engine_case_ends c input ev r) [
        | inl (bad, _) ↦ inl ((unsafe_iff input).0 bad)
        | inr (t, same) ↦ inr (
            (close_unsafe c t (with_engine ev r)).0
              (sym (ap (λ (x : CaseResult). x.verdict) same) ∙ h))
      ],
      elim [
        | inl violation ↦ engine_case_unsafe c input ev r ((unsafe_iff input).1 violation)
        | inr critical ↦ elim (engine_case_ends c input ev r) [
          | inl (_, unsafe') ↦ unsafe'
          | inr (t, same) ↦
              ap (λ (x : CaseResult). x.verdict) same
              ∙ (close_unsafe c t (with_engine ev r)).1 critical
        ]
      ],
    )

-- A case with an engine is UNSAFE exactly if the engine has measured a violation or the autopsy a
-- critical unsafe action, whatever the checks, the coverage and the termination.
pub build_case_result-IsIndicted :
    (atoi : String → ℤ) (c : CaseInput) (input : EngineInput)
    → engine_input c ≡ some input
    → ((build_case_result atoi c).verdict ≡ unsafe) ↔ IsIndicted c input
build_case_result-IsIndicted atoi c input h =
    subst (λ (x : CaseResult). (x.verdict ≡ unsafe) ↔ IsIndicted c input)
      (sym (build_some atoi c input h)) (engine_unsafe atoi c input)
