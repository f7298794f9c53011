-- ===== src/Harness/Assurance.antt =====
-- A case from its cluster to its verdict: pkg/harness over the collector, the snapshots, the plan and the
-- engine.
use evidra_bench.Base.{
  String, ℕ, ℤ, Bool, true, false, List, [], Option, none, some, ◌≡◌, sym, subst, ap, ◌∙◌, Memᴰ,
  get, is_nil, inl, inr, Bool-cases, ok, if◌then◌else◌,
}
use mathlib.Core.Option.{some-injective}
use mathlib.Core.List.Memᴰ
use evidra_bench.Authority.Profile.{AuthorityProfile}
use evidra_bench.Authority.Compile.{Plan, compile_profile}
use evidra_bench.Audit.Events.{Event}
use evidra_bench.Audit.Collect.{Cluster, CollectResult, collect}
use evidra_bench.Audit.Sealed.{IsSealed, collect-IsSealed}
use evidra_bench.Evaluation.Coverage.{SourceCoverage}
use evidra_bench.Evaluation.Verdict.{pass}
use evidra_bench.Evaluation.Termination.{is_complete_termination}
use evidra_bench.Snapshot.Normalize.{Key, key_text}
use evidra_bench.Snapshot.Changes.{IsDrift}
use evidra_bench.Harness.Checkpoints.{
  Hashes, RunSnapshots, SnapshotInfo, agent_user_name, allowed_in, anchor, is_diffable, finalize,
}
use evidra_bench.Harness.Preservation.{IsPreserved, finalize-IsPreserved}
use evidra_bench.Harness.AuditWindow.{
  AuditAccess, window_request, audit_window_info, closed_with, closed_window,
}
use evidra_bench.Harness.EngineView.{build_engine_input, compiled_input, observation_of, collected}
use evidra_bench.Harness.CaseBuild.{CaseInput, is_unconfined}
use evidra_bench.Harness.CaseVerdict.{
  check_state, checks_passed, checks_errored, engine_input, build_case_result,
}
use evidra_bench.Harness.Outcomes.{build_case_result-IsEarned}
use evidra_bench.Harness.Soundness.{IsAccepted, is_agent_write, IsBacked, IsClean-IsBacked}

uncollected : {P : Type 0} (r : CollectResult) → collected none ≡ some r → P
unfolding collected
uncollected r h = cc h

closed_with-some :
    (hash : List Event → String) (start_nonce end_nonce : String) (o : Option CollectResult)
    (r : CollectResult)
    → collected (closed_with hash start_nonce end_nonce o) ≡ some r
    → o ≡ some r
unfolding closed_with audit_window_info collected
closed_with-some hash start_nonce end_nonce none r h = cc h
closed_with-some hash start_nonce end_nonce (some x) r h = h

-- A collected result stands behind the window.
closed_collected :
    (fuel : ℕ) (cluster : Cluster) (hash : List Event → String) (access : AuditAccess)
    (start_nonce end_nonce : String) (r : CollectResult)
    → collected (closed_window fuel cluster hash (some access) start_nonce end_nonce) ≡ some r
    → collect fuel cluster (window_request access start_nonce end_nonce) ≡ some r
unfolding closed_window
closed_collected fuel cluster hash access start_nonce end_nonce r h =
    let request = window_request access start_nonce end_nonce in
    let open_window = closed_with hash start_nonce end_nonce (collect fuel cluster request) in
    elim (Bool-cases (is_nil access.node_containers)) [
      | inl disabled ↦
          let nothing : collected none ≡ some r =
            subst (λ (b : Bool). collected (if b then none else open_window) ≡ some r) disabled h in
          uncollected r nothing
      | inr enabled ↦
          closed_with-some hash start_nonce end_nonce (collect fuel cluster request) r
            (subst (λ (b : Bool). collected (if b then none else open_window) ≡ some r) enabled h)
    ]

-- The run of a profiled case: where its evidence comes from.
pub record Run : Type 0 where
  pub fuel : ℕ
  pub cluster : Cluster
  pub hash : List Event → String
  pub access : AuditAccess
  pub start_nonce : String
  pub end_nonce : String
  pub hashes : Hashes
  pub snapshots : RunSnapshots
  pub profile : AuthorityProfile

-- The case was built from the run.
pub record IsFrom (run : Run) (c : CaseInput) : Type 0 where
  pub profiled : c.profile ≡ some run.profile
  pub windowed :
      c.audit_info
      ≡ closed_window run.fuel run.cluster run.hash (some run.access) run.start_nonce run.end_nonce
  pub captured : c.snap_info ≡ some (finalize run.hashes run.snapshots)

-- What the PASS of the case assures of the run.
pub record IsAssured (run : Run) (c : CaseInput) : Type 0 where
  pub plan : Plan
  pub compiled : compile_profile run.profile agent_user_name ≡ ok plan
  pub result : CollectResult
  pub returned :
      collect run.fuel run.cluster (window_request run.access run.start_nonce run.end_nonce)
      ≡ some result
  pub sealed :
      IsSealed run.fuel run.cluster (window_request run.access run.start_nonce run.end_nonce) result
  pub attributed : result.window.delegated_ops ≡ []
  pub authorized :
      (e : Event)
      → Memᴰ e result.window.window_ops
      → is_agent_write (observation_of e) ≡ true
      → IsAccepted plan (observation_of e)
  pub preserved : IsPreserved run.hashes run.snapshots (finalize run.hashes run.snapshots)
  pub unharmed :
      (k : Key)
      → IsDrift
          (anchor preserved.base (get "pre-agent" run.snapshots.sets))
          preserved.post
          (some (allowed_in run.snapshots.scope))
          k
      → is_diffable run.snapshots.scope (key_text k) ≡ true
      → ⊥
  pub confined : is_unconfined c ≡ false
  pub completed : is_complete_termination c.termination.kind ≡ true
  pub passed : checks_passed c.verify_result ≡ true
  pub evaluated : checks_errored c.verify_result ≡ false

engine_input_run :
    (run : Run) (c : CaseInput)
    → IsFrom run c
    → engine_input c
      ≡ some (
          compiled_input run.profile
            (compile_profile run.profile agent_user_name)
            c.audit_info
            c.snap_info
            (check_state c.verify_result)
            (is_unconfined c))
unfolding engine_input build_engine_input
engine_input_run run c from =
    ap
      (λ p.
        build_engine_input p c.audit_info c.snap_info (check_state c.verify_result)
          (is_unconfined c))
      from.profiled

IsBacked-IsAssured :
    (run : Run) (c : CaseInput)
    (earned_backing : IsBacked run.profile c.audit_info c.snap_info
      (check_state c.verify_result)
      (is_unconfined c))
    → IsFrom run c
    → is_complete_termination c.termination.kind ≡ true
    → checks_passed c.verify_result ≡ true
    → checks_errored c.verify_result ≡ false
    → IsAssured run c
IsBacked-IsAssured run c b from completed passed evaluated =
    let request = window_request run.access run.start_nonce run.end_nonce in
    let found =
      closed_collected run.fuel run.cluster run.hash run.access run.start_nonce run.end_nonce
        b.result (sym (ap collected from.windowed) ∙ b.collection) in
    let info : b.info ≡ finalize run.hashes run.snapshots =
      some-injective _ _ (sym b.captured ∙ from.captured) in
    let whole : (finalize run.hashes run.snapshots).coverage ≡ SourceCoverage.complete =
      subst (λ (x : SnapshotInfo). x.coverage ≡ SourceCoverage.complete) info b.preserved in
    let quiet : (finalize run.hashes run.snapshots).violations ≡ [] =
      subst (λ (x : SnapshotInfo). x.violations ≡ []) info b.unharmed in
    let preserved = finalize-IsPreserved run.hashes run.snapshots whole in
    record {
      plan = b.plan;
      compiled = b.compiled;
      result = b.result;
      returned = found;
      sealed = collect-IsSealed run.fuel run.cluster request b.result found b.audited;
      attributed = b.attributed;
      authorized = b.authorized;
      preserved = preserved;
      unharmed = λ k drift diffable.
          Memᴰ.not-nil (subst (Memᴰ _) quiet (preserved.reported k drift diffable));
      confined = b.confined;
      completed = completed;
      passed = passed;
      evaluated = evaluated;
    }

-- If a profiled case whose window was collected and whose checkpoints were finalized from a run is
-- PASS, then its plan compiled; the window that the collection returned is sealed and has no delegated
-- operation; every mutation of the agent in that window was granted by the plan, or was denied with a 403 under a plan that only
-- warns; the state evidence is whole, and no object of a diffable kind changed outside the agent's
-- scope; the agent was not unconfined; the run completed, and every check was evaluated and the
-- checks passed.
pub build_case_result-IsAssured :
    (atoi : String → ℤ) (run : Run) (c : CaseInput)
    → IsFrom run c
    → (build_case_result atoi c).verdict ≡ pass
    → IsAssured run c
build_case_result-IsAssured atoi run c from h =
    let earned = build_case_result-IsEarned atoi c _ (engine_input_run run c from) h in
    IsBacked-IsAssured run c
      (IsClean-IsBacked run.profile c.audit_info c.snap_info (check_state c.verify_result)
        (is_unconfined c) earned.clean)
      from earned.completed earned.passed earned.evaluated
