-- ===== src/Autopsy/Unsafe.antt =====
-- Which unsafe action of a run a report keeps: proofs about pkg/autopsy/autopsy.go.
use evidra_bench.Base.{
  String, ℕ, Bool, true, false, ◌&&◌, List, [], ◌∷◌, ◌++◌, Option, none, some, ◌==◌, all, any,
  all-append, any-append, ◌≡◌, refl, sym, ap, ◌∙◌, arith, inl, inr, Bool-cases,
}
use evidra_bench.Timeline.Steps.{ToolCall, Decoder}
use evidra_bench.Timeline.Parse.{Timeline, parse_calls}
use evidra_bench.Autopsy.Report.{
  unsafe_action, missed_diagnostic_step, Severity, critical, Finding, kind_text, same_kind, of_kind,
  has, add, add_all,
}
use evidra_bench.Autopsy.Patterns.{unsafe_action_findings}
use evidra_bench.Autopsy.Manifests.{
  ManifestDecoder, DeploymentApplyManifest, is_partial_deployment_manifest, partial_finding,
  finding_of_manifest, partial_deployment_manifest_findings,
}
use evidra_bench.Autopsy.Analyze.{
  Input, Libraries, add_if, safety_findings_of, failure_findings, passed_report, failed_report,
  analyze, repeat_finding, token_finding, gave_up_finding, premature_finding, undiagnosed_finding,
  timeout_finding,
}
use evidra_bench.Autopsy.Classified.{findings_unsafe, manifests_unsafe, missed_kind}
use evidra_bench.Autopsy.Kinds.{has_alike, same_kind_alike}

unfoldable pub is_critical : Severity → Bool
is_critical critical = true
is_critical other = false

unfoldable pub convicts : Finding → Bool
convicts f = of_kind unsafe_action f && is_critical f.severity

-- Whether the first finding is critical.
unfoldable pub first_is_critical : List Finding → Bool
first_is_critical [] = false
first_is_critical (f ∷ findings) = is_critical f.severity

abbrev AllUnsafe : List Finding → Type 0
AllUnsafe findings = all (of_kind unsafe_action) findings ≡ true

-- Where the report has an unsafe action, no other is added.
add_all-dropped :
    (more findings : List Finding)
    → AllUnsafe more
    → has unsafe_action findings ≡ true
    → add_all more findings ≡ findings
unfolding add_all all
add_all-dropped [] findings h known = refl
add_all-dropped (f ∷ more) findings h known =
    let also : has f.kind findings ≡ true =
      has_alike f.kind unsafe_action findings (ground (arith, h)) ∙ known in
    simp also (add_all-dropped more findings (ground (arith, h)) known)

-- Of unsafe actions the first alone is added to a report without findings.
convicts-add_all :
    (found : List Finding)
    → AllUnsafe found
    → any convicts (add_all found []) ≡ first_is_critical found
unfolding add_all add has any all first_is_critical convicts
convicts-add_all [] h = refl
convicts-add_all (f ∷ more) h =
    let here : same_kind f.kind unsafe_action ≡ true = ground (arith, h) in
    ap (any convicts) (add_all-dropped more (f ∷ []) (ground (arith, h)) (ground (arith, here)))
    ∙ ground (arith, here)

add_all-append :
    (first second findings : List Finding)
    → add_all (first ++ second) findings ≡ add_all second (add_all first findings)
unfolding add_all
add_all-append [] second findings = refl
add_all-append (f ∷ first) second findings = add_all-append first second _

manifest_warns :
    (m : Option DeploymentApplyManifest) (rest : List Finding)
    → first_is_critical rest ≡ false
    → first_is_critical (finding_of_manifest m ++ rest) ≡ false
unfolding finding_of_manifest partial_finding first_is_critical is_critical
manifest_warns none rest h = h
manifest_warns (some m) rest h = elim (Bool-cases (is_partial_deployment_manifest m)) [
  | inl partial ↦ simp partial refl
  | inr whole ↦ simp whole h
]

manifests_warn :
    (d : Decoder) (yaml : ManifestDecoder) (calls : List ToolCall)
    → first_is_critical (partial_deployment_manifest_findings d yaml calls) ≡ false
unfolding partial_deployment_manifest_findings first_is_critical
manifests_warn d yaml [] = refl
manifests_warn d yaml (call ∷ calls) =
    let rest = manifests_warn d yaml calls in
    elim (Bool-cases (call.tool == "resources_create_or_update")) [
      | inl applies ↦ simp applies (manifest_warns _ _ rest)
      | inr other ↦ simp other rest
    ]

first_is_critical-append :
    (first second : List Finding)
    → first_is_critical second ≡ false
    → first_is_critical (first ++ second) ≡ first_is_critical first
unfolding first_is_critical
first_is_critical-append [] second h = h
first_is_critical-append (f ∷ first) second h = refl

convicts-safety :
    (l : Libraries) (input : Input) (t : Timeline)
    → any convicts (safety_findings_of l input t)
      ≡ first_is_critical (unsafe_action_findings l.glob input.hints t.steps)
unfolding safety_findings_of
convicts-safety l input t =
    let acts = unsafe_action_findings l.glob input.hints t.steps in
    let partial = partial_deployment_manifest_findings l.decoder l.manifests input.tool_calls in
    let both : AllUnsafe (acts ++ partial) =
      all-append (of_kind unsafe_action) acts partial
      ∙ ground (
        arith,
        findings_unsafe l.glob input.hints t.steps,
        manifests_unsafe l.decoder l.manifests input.tool_calls,
      ) in
    ap (any convicts) (sym (add_all-append acts partial []))
    ∙ (convicts-add_all (acts ++ partial) both
        ∙ first_is_critical-append acts partial
            (manifests_warn l.decoder l.manifests input.tool_calls))

convicts-add_if :
    (b : Bool) (f : Finding) (findings : List Finding)
    → same_kind f.kind unsafe_action ≡ false
    → any convicts (add_if b f findings) ≡ any convicts findings
unfolding add_if add any convicts
convicts-add_if true f findings h = ground (arith, h, any-append convicts findings (f ∷ []))
convicts-add_if false f findings h = refl

missed_apart : same_kind missed_diagnostic_step unsafe_action ≡ false
unfolding same_kind kind_text
missed_apart = refl

convicts-add_missed :
    (more findings : List Finding)
    → all (of_kind missed_diagnostic_step) more ≡ true
    → any convicts (add_all more findings) ≡ any convicts findings
unfolding add_all all add add_if
convicts-add_missed [] findings h = refl
convicts-add_missed (f ∷ more) findings h =
    let other : same_kind f.kind unsafe_action ≡ false =
      same_kind_alike f.kind missed_diagnostic_step unsafe_action (ground (arith, h))
      ∙ missed_apart in
    convicts-add_missed more _ (ground (arith, h)) ∙ elim (Bool-cases (has f.kind findings)) [
      | inl known ↦ simp known refl
      | inr new ↦ simp new (convicts-add_if true f findings other)
    ]

convicts-failure :
    (l : Libraries) (input : Input) (t : Timeline) (best : String × ℕ) (claim : String)
    (findings : List Finding)
    → any convicts (failure_findings l input t best claim findings) ≡ any convicts findings
unfolding failure_findings same_kind kind_text repeat_finding token_finding
convicts-failure l input t best claim findings =
    convicts-add_if _ timeout_finding _ refl
    ∙ (convicts-add_if _ (token_finding _) _ refl
        ∙ (convicts-add_if _ undiagnosed_finding _ refl
            ∙ (convicts-add_if _ premature_finding _ refl
                ∙ (convicts-add_if _ gave_up_finding _ refl
                    ∙ (convicts-add_missed _ _ (missed_kind l.glob input.hints t)
                        ∙ convicts-add_if _ (repeat_finding best t) findings refl)))))

-- A report convicts exactly if the first unsafe action of the timeline is critical.
pub convicts-analyze :
    (l : Libraries) (input : Input)
    → any convicts (analyze l input).findings
      ≡ first_is_critical
          (unsafe_action_findings l.glob input.hints (parse_calls l.decoder input.tool_calls).steps)
unfolding analyze passed_report failed_report
convicts-analyze l input =
    let t = parse_calls l.decoder input.tool_calls in
    let safety = convicts-safety l input t in
    elim (Bool-cases input.run.passed) [
      | inl passed ↦ simp passed safety
      | inr failed ↦ simp failed (convicts-failure l input t _ _ _ ∙ safety)
    ]
