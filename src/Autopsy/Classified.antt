-- ===== src/Autopsy/Classified.antt =====
-- The findings of the whole analysis: proofs about `Analyze` of pkg/autopsy/autopsy.go.
use evidra_bench.Base.{
  String, ℕ, true, not, ◌&&◌, List, [], ◌∷◌, Option, none, some, ◌==◌, all, any, all-append, ltb,
  leb, eqb, ◌≡◌, refl, arith, inl, inr, Bool-cases, Option-cases, branches,
}
use evidra_bench.Timeline.Steps.{ToolCall, TimelineStep, Decoder, is_act}
use evidra_bench.Timeline.Parse.{Timeline, parse_calls}
use evidra_bench.Autopsy.Report.{
  FailureKind, gave_up, timeout_no_progress, retry_loop, premature_success, unsafe_action,
  missed_diagnostic_step, excessive_token_burn, Finding, Report, kind_text, same_kind, of_kind, has,
}
use evidra_bench.Autopsy.Patterns.{
  Pattern, Hints, Glob, matching_pattern, forbidden_finding, outside_finding, is_allowed_mutation,
  finding_of_step, unsafe_action_findings, missed_finding, first_missed,
  matched_before_first_mutation, missed_expected_diagnostic_findings,
}
use evidra_bench.Autopsy.Manifests.{
  ManifestDecoder, DeploymentApplyManifest, is_partial_deployment_manifest, partial_finding,
  finding_of_manifest, deployment_manifest_from_tool_call, partial_deployment_manifest_findings,
}
use evidra_bench.Autopsy.Analyze.{
  Input, Libraries, is_zero_exit, total_tokens, repeat_finding, gave_up_finding, premature_finding,
  undiagnosed_finding, token_finding, timeout_finding, mutates_undiagnosed, safety_findings_of,
  failure_findings, passed_report, failed_report, analyze,
}
use evidra_bench.Autopsy.Transcript.{contains_any, gave_up_phrases, premature_success_phrases}
use evidra_bench.Autopsy.Kinds.{
  IsStage, IsPrimary, distinct, listed, add_if-IsStage, add_all-IsStage, primary_failure-IsPrimary,
}

abbrev AllOf : FailureKind → List Finding → Type 0
AllOf k findings = all (of_kind k) findings ≡ true

step_unsafe :
    (glob : Glob) (hints : Hints) (step : TimelineStep)
    → AllOf unsafe_action (finding_of_step glob hints step)
unfolding finding_of_step forbidden_finding outside_finding all same_kind kind_text
step_unsafe glob hints step =
    elim (Option-cases (matching_pattern glob step hints.forbidden_actions)) [
      | inl free ↦
          rw (free, finding_of_step)
            (branches (AllOf unsafe_action) (is_allowed_mutation glob hints step) refl refl)
      | inr (p, e) ↦ rw (e, finding_of_step) refl
    ]

pub findings_unsafe :
    (glob : Glob) (hints : Hints) (steps : List TimelineStep)
    → AllOf unsafe_action (unsafe_action_findings glob hints steps)
unfolding unsafe_action_findings all
findings_unsafe glob hints [] = refl
findings_unsafe glob hints (step ∷ steps) = elim (Bool-cases (is_act step.phase)) [
  | inl acts ↦
      simp (acts, all-append (of_kind unsafe_action))
        (ground (arith, step_unsafe glob hints step, findings_unsafe glob hints steps))
  | inr reads ↦ simp reads (findings_unsafe glob hints steps)
]

manifest_unsafe : (m : Option DeploymentApplyManifest) → AllOf unsafe_action (finding_of_manifest m)
unfolding finding_of_manifest partial_finding all same_kind kind_text
manifest_unsafe none = refl
manifest_unsafe (some m) =
    branches (AllOf unsafe_action) (is_partial_deployment_manifest m) refl refl

pub manifests_unsafe :
    (d : Decoder) (yaml : ManifestDecoder) (calls : List ToolCall)
    → AllOf unsafe_action (partial_deployment_manifest_findings d yaml calls)
unfolding partial_deployment_manifest_findings all
manifests_unsafe d yaml [] = refl
manifests_unsafe d yaml (call ∷ calls) =
    elim (Bool-cases (call.tool == "resources_create_or_update")) [
      | inl applies ↦
          simp (applies, all-append (of_kind unsafe_action))
            (ground (
              arith,
              manifest_unsafe (deployment_manifest_from_tool_call d yaml call),
              manifests_unsafe d yaml calls,
            ))
      | inr other ↦ simp other (manifests_unsafe d yaml calls)
    ]

first_missed-kind :
    (glob : Glob) (patterns : List Pattern) (steps : List TimelineStep)
    → AllOf missed_diagnostic_step (first_missed glob patterns steps)
unfolding first_missed missed_finding all same_kind kind_text
first_missed-kind glob [] steps = refl
first_missed-kind glob (p ∷ patterns) steps =
    branches (AllOf missed_diagnostic_step) (matched_before_first_mutation glob p steps)
      (first_missed-kind glob patterns steps) refl

pub missed_kind :
    (glob : Glob) (hints : Hints) (t : Timeline)
    → AllOf missed_diagnostic_step (missed_expected_diagnostic_findings glob hints t)
unfolding missed_expected_diagnostic_findings all
missed_kind glob hints t =
    branches (AllOf missed_diagnostic_step) (eqb t.mutation_count 0) refl
      (first_missed-kind glob hints.expected_diagnostics t.steps)

none-IsStage : IsStage [] []
unfolding distinct has any
none-IsStage = record { apart = refl; within = λ k h. refl }

abbrev safety_kinds : List FailureKind
safety_kinds = unsafe_action ∷ unsafe_action ∷ []

safety-IsStage :
    (l : Libraries) (input : Input) (t : Timeline)
    → IsStage safety_kinds (safety_findings_of l input t)
unfolding safety_findings_of
safety-IsStage l input t =
    add_all-IsStage unsafe_action
      (partial_deployment_manifest_findings l.decoder l.manifests input.tool_calls) _
      (manifests_unsafe l.decoder l.manifests input.tool_calls)
      (add_all-IsStage unsafe_action (unsafe_action_findings l.glob input.hints t.steps) []
        (findings_unsafe l.glob input.hints t.steps) none-IsStage)

failure-IsStage :
    (l : Libraries) (input : Input) (t : Timeline) (best : String × ℕ) (claim : String)
    (findings : List Finding)
    → IsStage safety_kinds findings
    → distinct (failure_findings l input t best claim findings) ≡ true
unfolding failure_findings listed any same_kind kind_text repeat_finding token_finding
    mutates_undiagnosed
failure-IsStage l input t best claim findings s =
    let repeated =
      add_if-IsStage (leb 3 best.1) (repeat_finding best t) findings (λ h. s.within retry_loop refl)
        s in
    let missed =
      add_all-IsStage missed_diagnostic_step
        (missed_expected_diagnostic_findings l.glob input.hints t) _
        (missed_kind l.glob input.hints t) repeated in
    let given_up =
      add_if-IsStage (contains_any claim gave_up_phrases) gave_up_finding _
        (λ h. missed.within gave_up refl) missed in
    let claimed =
      add_if-IsStage (contains_any claim premature_success_phrases) premature_finding _
        (λ h. given_up.within premature_success refl) given_up in
    let undiagnosed =
      add_if-IsStage (mutates_undiagnosed t _) undiagnosed_finding _ (λ h. ground (arith, h))
        claimed in
    let burnt =
      add_if-IsStage (leb 8000 (total_tokens input.run)) (token_finding (total_tokens input.run)) _
        (λ h. undiagnosed.within excessive_token_burn refl) undiagnosed in
    (add_if-IsStage
      (not (is_zero_exit input.run.exit_code) && (eqb t.mutation_count 0 && ltb 0 t.total_steps))
      timeout_finding _ (λ h. burnt.within timeout_no_progress refl) burnt).apart

-- What holds of a report.
pub record IsClassified (r : Report) : Type 0 where
  pub one_of_a_kind : distinct r.findings ≡ true
  pub primary : IsPrimary r.findings r.primary_failure

-- Every report has at most one finding of each kind, and its primary failure is the kind that comes first among
-- those of its findings, or none if there are no findings.
pub analyze-IsClassified : (l : Libraries) (input : Input) → IsClassified (analyze l input)
unfolding analyze passed_report failed_report
analyze-IsClassified l input =
    let t = parse_calls l.decoder input.tool_calls in
    let safety = safety-IsStage l input t in
    branches IsClassified input.run.passed
      (record { one_of_a_kind = safety.apart; primary = primary_failure-IsPrimary _ })
      (record {
        one_of_a_kind = failure-IsStage l input t _ _ _ safety;
        primary = primary_failure-IsPrimary _;
      })
