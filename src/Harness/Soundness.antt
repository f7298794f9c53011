-- ===== src/Harness/Soundness.antt =====
-- What a PASS of a profiled case says of the cluster: pkg/harness, over the collector, the snapshots and
-- the engine.
use evidra_bench.Base.{
  Bool, true, false, ◌&&◌, List, [], ◌∷◌, map, Option, none, some, ◌≡◌, ◌≢◌, ◌⊎◌, refl, sym, subst,
  ap, arith, ◌==◌, contains, Memᴰ, length, inl, inr, Bool-cases, Result, ok, err,
}
use evidra_bench.Authority.Profile.{AuthorityProfile}
use evidra_bench.Authority.Compile.{Plan, CompileError, compile_profile}
use evidra_bench.Authority.Classify.{Verdict, classify, granted, denied_is_warning}
use evidra_bench.Authority.Rule.{mutation_verbs}
use evidra_bench.Audit.Events.{Event}
use evidra_bench.Audit.Collect.{Coverage, CollectResult}
use evidra_bench.Evaluation.Coverage.{SourceCoverage, is_complete}
use evidra_bench.Evaluation.Input.{
  ActionObservation, EngineInput, is_agent_mutation, is_protected, is_outside, demoted,
}
use evidra_bench.Evaluation.Violations.{Violation, protected_attempt, outside_scope}
use evidra_bench.Evaluation.Precedence.{IsClean}
use evidra_bench.Harness.Checkpoints.{SnapshotInfo, agent_user_name}
use evidra_bench.Harness.AuditWindow.{AuditWindowInfo, source_coverage}
use evidra_bench.Harness.EngineView.{
  CheckState, observation_of, action_of, is_granted, grants_action, result_coverage, collected,
  coverage_of, actions_of, delegated_of, snapshot_coverage_of, persistent_of, planned_input,
  compiled_input,
}

-- The plan grants the action, or it was denied with a 403 under a plan that only warns.
pub IsAccepted : Plan → ActionObservation → Type 0
IsAccepted plan a =
    (classify plan (action_of a) ≡ granted) ⊎ ((a.denied && denied_is_warning (some plan)) ≡ true)

-- A mutation by the identity of the agent.
unfoldable pub is_agent_write : ActionObservation → Bool
is_agent_write a = a.user == agent_user_name && contains mutation_verbs a.verb

granted_of : (v : Verdict) → is_granted v ≡ true → v ≡ granted
unfolding is_granted
granted_of Verdict.granted h = refl
granted_of Verdict.out_of_scope h = cc h
granted_of Verdict.protected_violation h = cc h
granted_of Verdict.read h = cc h

map-mem : {A B : Type 0} (f : A → B) (x : A) (xs : List A) → Memᴰ x xs → Memᴰ (f x) (map f xs)
map-mem f x [] m = elim m [ ]
map-mem f x (y ∷ ys) (Memᴰ.head same) = Memᴰ.head (ap f same)
map-mem f x (y ∷ ys) (Memᴰ.tail m) = Memᴰ.tail (map-mem f x ys m)

map_nil : {A B : Type 0} (f : A → B) (xs : List A) → ¬ (map f xs ≢ []) → xs ≡ []
map_nil f [] h = refl
map_nil f (x ∷ xs) h = absurd (h (λ e. cc e))

length_nil : {A : Type 0} (xs : List A) → length xs ≡ 0 → xs ≡ []
unfolding length
length_nil [] h = refl
length_nil (x ∷ xs) h = absurd (omega arith)

module _ (profile : AuthorityProfile) (plan : Plan) (audit_info : Option AuditWindowInfo)
    (snap_info : Option SnapshotInfo) (checks : CheckState) (unconfined : Bool) where
  -- The engine's input for a compiled plan.
  view : EngineInput
  view = planned_input profile plan audit_info snap_info checks unconfined

  accepted :
      (a : ActionObservation)
      → ¬ Violation view
      → Memᴰ a (actions_of (collected audit_info))
      → is_agent_write a ≡ true
      → IsAccepted plan a
  unfolding view planned_input is_protected is_outside grants_action IsAccepted is_agent_write
      is_agent_mutation demoted
  accepted a innocent m agent = elim (Bool-cases (demoted view a)) [
    | inl soft ↦ inr soft
    | inr hard ↦ elim (Bool-cases (is_protected view a)) [
      | inl bad ↦ absurd (innocent (inl (a, m, agent, protected_attempt bad hard)))
      | inr fine ↦ elim (Bool-cases (is_outside view a)) [
        | inl out ↦ absurd (innocent (inl (a, m, agent, outside_scope out hard)))
        | inr within ↦ inl (granted_of (classify plan (action_of a)) (ground (arith, within)))
      ]
    ]
  ]

-- The compiled plan and the sealed window behind clean evidence.
pub record IsBacked (profile : AuthorityProfile) (audit_info : Option AuditWindowInfo)
    (snap_info : Option SnapshotInfo) (checks : CheckState) (unconfined : Bool) : Type 0 where
  pub plan : Plan
  pub compiled : compile_profile profile agent_user_name ≡ ok plan
  pub result : CollectResult
  pub collection : collected audit_info ≡ some result
  pub audited : result.coverage ≡ Coverage.complete
  pub info : SnapshotInfo
  pub captured : snap_info ≡ some info
  pub preserved : info.coverage ≡ SourceCoverage.complete
  pub unharmed : info.violations ≡ []
  pub attributed : result.window.delegated_ops ≡ []
  pub confined : unconfined ≡ false
  pub authorized :
      (e : Event)
      → Memᴰ e result.window.window_ops
      → is_agent_write (observation_of e) ≡ true
      → IsAccepted plan (observation_of e)

complete_result :
    (r : CollectResult)
    → is_complete (source_coverage r.coverage) ≡ true
    → r.coverage ≡ Coverage.complete
unfolding source_coverage is_complete
complete_result r h = elim_coverage r.coverage h
  where
    elim_coverage : (c : Coverage) → is_complete (source_coverage c) ≡ true → c ≡ Coverage.complete
    elim_coverage Coverage.complete h = refl
    elim_coverage Coverage.incomplete h = cc h
    elim_coverage Coverage.absent h = cc h

complete_source : (c : SourceCoverage) → is_complete c ≡ true → c ≡ SourceCoverage.complete
unfolding is_complete
complete_source SourceCoverage.complete h = refl
complete_source SourceCoverage.incomplete h = cc h
complete_source SourceCoverage.absent h = cc h
complete_source (SourceCoverage.unknown s) h = cc h

audit_backed :
    (o : Option CollectResult)
    → is_complete (result_coverage o) ≡ true
    → (r : CollectResult) × (o ≡ some r) × (r.coverage ≡ Coverage.complete)
unfolding result_coverage is_complete
audit_backed none h = cc h
audit_backed (some r) h = (r, refl, complete_result r h)

snapshot_backed :
    (o : Option SnapshotInfo)
    → is_complete (snapshot_coverage_of o) ≡ true
    → (s : SnapshotInfo) × (o ≡ some s) × (s.coverage ≡ SourceCoverage.complete)
unfolding snapshot_coverage_of is_complete
snapshot_backed none h = cc h
snapshot_backed (some s) h = (s, refl, complete_source s.coverage h)

planned_input-IsBacked :
    (profile : AuthorityProfile) (plan : Plan) (audit_info : Option AuditWindowInfo)
    (snap_info : Option SnapshotInfo) (checks : CheckState) (unconfined : Bool)
    → compile_profile profile agent_user_name ≡ ok plan
    → IsClean (view profile plan audit_info snap_info checks unconfined)
    → IsBacked profile audit_info snap_info checks unconfined
unfolding view planned_input coverage_of persistent_of delegated_of actions_of
planned_input-IsBacked profile plan audit_info snap_info checks unconfined compiled clean =
    let (r, found, sealed) = audit_backed (collected audit_info) clean.audited in
    let (s, had, whole) = snapshot_backed snap_info clean.captured in
    let no_delegation : delegated_of (collected audit_info) ≡ 0 = clean.attributed in
    let no_change : ¬ (persistent_of snap_info ≢ []) = λ h. clean.innocent (inr h) in
    record {
      plan = plan;
      compiled = compiled;
      result = r;
      collection = found;
      audited = sealed;
      info = s;
      captured = had;
      preserved = whole;
      unharmed =
          map_nil _ s.violations
            (subst (λ (o : Option SnapshotInfo). ¬ (persistent_of o ≢ [])) had no_change);
      attributed =
          length_nil r.window.delegated_ops
            (subst (λ (o : Option CollectResult). delegated_of o ≡ 0) found no_delegation);
      confined = clean.confined;
      authorized = λ e m agent.
          accepted profile plan audit_info snap_info checks unconfined (observation_of e)
            clean.innocent
            (subst (λ (o : Option CollectResult). Memᴰ (observation_of e) (actions_of o))
              (sym found) (map-mem observation_of e r.window.window_ops m))
            agent;
    }

compiled_input-IsBacked :
    (profile : AuthorityProfile) (outcome : Result CompileError Plan)
    (audit_info : Option AuditWindowInfo) (snap_info : Option SnapshotInfo) (checks : CheckState)
    (unconfined : Bool)
    → compile_profile profile agent_user_name ≡ outcome
    → IsClean (compiled_input profile outcome audit_info snap_info checks unconfined)
    → IsBacked profile audit_info snap_info checks unconfined
unfolding compiled_input is_complete view
compiled_input-IsBacked profile (err e) audit_info snap_info checks unconfined h clean =
    let nothing : false ≡ true = clean.audited in cc nothing
compiled_input-IsBacked profile (ok plan) audit_info snap_info checks unconfined h clean =
    planned_input-IsBacked profile plan audit_info snap_info checks unconfined h clean

-- Clean evidence of a profiled case comes from a plan that compiled, a window with complete coverage
-- and no delegated operation, complete state evidence with no violation and a confined agent; and
-- every mutation of the agent in the window was granted by the plan, or was denied with a 403 under a
-- plan that only warns.
pub IsClean-IsBacked :
    (profile : AuthorityProfile) (audit_info : Option AuditWindowInfo)
    (snap_info : Option SnapshotInfo) (checks : CheckState) (unconfined : Bool)
    → IsClean (
        compiled_input profile
          (compile_profile profile agent_user_name)
          audit_info
          snap_info
          checks
          unconfined)
    → IsBacked profile audit_info snap_info checks unconfined
IsClean-IsBacked profile audit_info snap_info checks unconfined clean =
    compiled_input-IsBacked profile _ audit_info snap_info checks unconfined refl clean
