-- ===== src/Evaluation/Accounting.antt =====
-- What the summary and the exit code of a run say of its cases.
use evidra_bench.Base.{
  String, Bool, true, false, List, [], ◌∷◌, ◌++◌, ◌≡◌, refl, sym, ap, ◌∙◌, arith, Option, none,
  some, all, Option-cases, subst, inl, inr,
}
use mathlib.Core.List.{append-nil, append_assoc}
use evidra_bench.Evaluation.Termination.{is_complete_termination}
use evidra_bench.Evaluation.Plan.{Plan, CasePlan}
use evidra_bench.Evaluation.Result.{
  CaseResult, EvaluationResult, Summary, empty_summary, count_cases, summarize, exit_code,
}
use evidra_bench.Evaluation.World.{Trace, ExecError, World, executed, acquired}
use evidra_bench.Evaluation.Service.{
  Outcome, RunError, next_result, run_preflights, run_cases, clean_up, release_lease, run_leased,
  with_lease, run_acquired, run_environment, run_checked, aborted, named, join_errors,
  initial_result, invalid_lease, acquire_failed, preflight_failed, missing_provisioner,
  missing_executor, gives_lease, stop, run,
}
use evidra_bench.Evaluation.Lifecycle.{run_cases_of}
use evidra_bench.Evaluation.Tallies.{summarize-counts, unobjectionable, none_counted}

module _ {L : Type 0} (w : World L) (plan : Plan) where
  -- What the executor of the world answers for a case on some lease, without an error, under the id of the
  -- case where the result has none.
  pub record IsResultOf (c : CasePlan) (cr : CaseResult) : Type 0 where
    pub executor : Trace → Plan → CasePlan → L → CaseResult × Option ExecError
    pub given : w.executor ≡ some executor
    pub at_trace : Trace
    pub lease : L
    pub no_error : (executor at_trace plan c lease).1 ≡ none
    pub result : cr ≡ named w plan c (executor at_trace plan c lease).0

  -- The results of the cases, one for each, in their order.
  pub data AreResults : List CasePlan → List CaseResult → Type 0 where
    no_results : AreResults [] []
    next_result_of :
        {c : CasePlan} {cr : CaseResult} {cs : List CasePlan} {crs : List CaseResult}
        → IsResultOf c cr
        → AreResults cs crs
        → AreResults (c ∷ cs) (cr ∷ crs)

  AreResults-append :
      {cs : List CasePlan} {crs : List CaseResult} {c : CasePlan} {cr : CaseResult}
      → AreResults cs crs
      → IsResultOf c cr
      → AreResults (cs ++ c ∷ []) (crs ++ cr ∷ [])
  AreResults-append no_results r = next_result_of r no_results
  AreResults-append (next_result_of q qs) r = next_result_of q (AreResults-append qs r)

  -- What the result of a run says of its cases.
  pub record IsAccounted (o : Outcome) : Type 0 where
    pub exact : o.result.summary ≡ summarize o.result
    pub whole :
        is_complete_termination o.result.termination.kind ≡ true
        → AreResults plan.suite.cases o.result.cases
    pub finished : o.run_error ≡ none → is_complete_termination o.result.termination.kind ≡ true

  stop-IsAccounted :
      (r : EvaluationResult) (phase reason details : String) (e : RunError) (t : Trace)
      → r.cases ≡ []
      → r.summary ≡ empty_summary
      → IsAccounted (stop w plan r phase reason details e t)
  unfolding stop summarize count_cases is_complete_termination
  stop-IsAccounted r phase reason details e t no_cases zero = record {
    exact = rw no_cases zero;
    whole = λ h. cc h;
    finished = λ h. cc h;
  }

  aborted-IsAccounted :
      (r : EvaluationResult) (e : ExecError) (cr : CaseResult) (t : Trace)
      → IsAccounted (aborted w plan r e cr t)
  unfolding aborted is_complete_termination summarize
  aborted-IsAccounted r e cr t = record {
    exact = refl;
    whole = λ h. absurd (ground arith);
    finished = λ h. cc h;
  }

  -- The loop, from a result that holds those of the cases done so far.
  run_cases-IsAccounted :
      (execute : Trace → Plan → CasePlan → L → CaseResult × Option ExecError) (lease : L)
      (done cs : List CasePlan) (r : EvaluationResult) (t : Trace)
      → w.executor ≡ some execute
      → done ++ cs ≡ plan.suite.cases
      → AreResults done r.cases
      → IsAccounted (run_cases w plan execute lease cs r t)
  unfolding run_cases is_complete_termination summarize
  run_cases-IsAccounted execute lease done [] r t there h results = record {
    exact = refl;
    whole = λ _.
        subst (λ (cs : List CasePlan). AreResults cs r.cases) (sym (append-nil done) ∙ h) results;
    finished = λ _. refl;
  }
  run_cases-IsAccounted execute lease done (c ∷ cs) r t there h results =
      elim (Option-cases (execute t plan c lease).1) [
        | inl none_failed ↦
            rw (none_failed, run_cases)
              (run_cases-IsAccounted execute lease (done ++ c ∷ []) cs
                (next_result w plan r c (execute t plan c lease).0) (t ++ (executed c.id ∷ []))
                there (append_assoc done (c ∷ []) cs ∙ h)
                (unfold next_result in
                  AreResults-append results (record {
                    executor = execute;
                    given = there;
                    at_trace = t;
                    lease = lease;
                    no_error = none_failed;
                    result = refl;
                  })))
        | inr (e, failed) ↦
            rw (failed, run_cases)
              (aborted-IsAccounted r e (named w plan c (execute t plan c lease).0)
                (t ++ (executed c.id ∷ [])))
      ]

  joined_none : (e c : Option RunError) → join_errors w plan e c ≡ none → e ≡ none
  unfolding join_errors
  joined_none e none h = h
  joined_none none (some c) h = refl
  joined_none (some e) (some c) h = cc h

  clean_up-IsAccounted :
      (lease : L) (o : Outcome) → IsAccounted o → IsAccounted (clean_up w plan lease o)
  unfolding clean_up summarize
  clean_up-IsAccounted lease o h = record {
    exact = refl;
    whole = h.whole;
    finished = λ e. h.finished (joined_none o.run_error (release_lease w plan lease o.trace).1 e);
  }

  with_lease-IsAccounted :
      (execute : Trace → Plan → CasePlan → L → CaseResult × Option ExecError) (borrowed : Bool)
      (lease : Option L) (r : EvaluationResult) (t : Trace)
      → w.executor ≡ some execute
      → r.cases ≡ []
      → r.summary ≡ empty_summary
      → IsAccounted (with_lease w plan execute borrowed lease r t)
  unfolding with_lease run_leased
  with_lease-IsAccounted execute borrowed none r t there no_cases zero =
      stop-IsAccounted r "environment" "invalid_lease" "provisioner returned a nil lease"
        invalid_lease t no_cases zero
  with_lease-IsAccounted execute true (some lease) r t there no_cases zero =
      run_cases-IsAccounted execute lease [] plan.suite.cases r t there refl
        (rw no_cases no_results)
  with_lease-IsAccounted execute false (some lease) r t there no_cases zero =
      clean_up-IsAccounted lease (run_cases w plan execute lease plan.suite.cases r t) (
        run_cases-IsAccounted execute lease [] plan.suite.cases r t there refl
          (rw no_cases no_results))

  run_acquired-IsAccounted :
      (execute : Trace → Plan → CasePlan → L → CaseResult × Option ExecError)
      (answer : Option L × Option String) (r : EvaluationResult) (t : Trace)
      → w.executor ≡ some execute
      → r.cases ≡ []
      → r.summary ≡ empty_summary
      → IsAccounted (run_acquired w plan execute answer r t)
  unfolding run_acquired
  run_acquired-IsAccounted execute (lease, some e) r t there no_cases zero =
      stop-IsAccounted r "environment" "acquire_failed" e (acquire_failed e) t no_cases zero
  run_acquired-IsAccounted execute (lease, none) r t there no_cases zero =
      with_lease-IsAccounted execute false lease r t there no_cases zero

  run_environment-IsAccounted :
      (lease : Option L) (borrowed : Bool) (r : EvaluationResult) (t : Trace)
      → r.cases ≡ []
      → r.summary ≡ empty_summary
      → IsAccounted (run_environment w plan lease borrowed r t)
  unfolding run_environment
  run_environment-IsAccounted lease true r t no_cases zero = elim (Option-cases w.executor) [
    | inl missing ↦ simp missing (
        stop-IsAccounted r "execution" "missing_executor"
          "evaluation service: case executor is required" missing_executor t no_cases zero)
    | inr (execute, there) ↦
        let done = with_lease-IsAccounted execute true lease r t there no_cases zero in
        elim (Option-cases w.provisioner) [
          | inl missing ↦ simp (missing, there) done
          | inr (acquire, found) ↦ simp (found, there) done
        ]
  ]
  run_environment-IsAccounted lease false r t no_cases zero = elim (Option-cases w.provisioner) [
    | inl missing ↦ simp missing (
        stop-IsAccounted r "environment" "missing_provisioner"
          "evaluation service: provisioner is required" missing_provisioner t no_cases zero)
    | inr (acquire, found) ↦ elim (Option-cases w.executor) [
      | inl missing ↦
          simp (found, missing)
            (stop-IsAccounted r "execution" "missing_executor"
              "evaluation service: case executor is required" missing_executor t no_cases zero)
      | inr (execute, there) ↦
          simp (found, there)
            (run_acquired-IsAccounted execute (acquire t plan) r
              (t ++ (acquired (gives_lease (acquire t plan)) ∷ [])) there no_cases zero)
    ]
  ]

  run_checked-IsAccounted :
      (lease : Option L) (borrowed : Bool) (r : EvaluationResult)
      → r.cases ≡ []
      → r.summary ≡ empty_summary
      → IsAccounted (run_checked w plan lease borrowed r)
  unfolding run_checked
  run_checked-IsAccounted lease borrowed r no_cases zero =
      let t = (run_preflights w plan w.preflights []).1 in
      elim (Option-cases (run_preflights w plan w.preflights []).0) [
        | inr (e, failed) ↦
            rw (failed, run_checked)
              (stop-IsAccounted r "preflight" "preflight_failed" e (preflight_failed e) t no_cases
                zero)
        | inl passed ↦
            rw (passed, run_checked) (run_environment-IsAccounted lease borrowed r t no_cases zero)
      ]

  -- In every run, whatever its adapters answer, the summary is that of the cases, a complete
  -- termination means that the results are, in order and one for each case of the plan, what the executor
  -- answered for that case without an error, and a run without an error ends in one.
  pub run-IsAccounted :
      (lease : Option L) (borrowed : Bool) → IsAccounted (run w plan lease borrowed)
  run-IsAccounted lease borrowed =
      run_cases_of w plan IsAccounted lease borrowed
        (λ reason details e.
          stop-IsAccounted (initial_result w plan) "validation" reason details e []
            (unfold initial_result in refl) (unfold initial_result in refl))
        (λ r no_cases zero. run_checked-IsAccounted lease borrowed r no_cases zero)

-- Exit code 0 of a result: complete, and nothing counted against it.
exit_zero_counts :
    (r : EvaluationResult)
    → exit_code r ≡ 0
    → (is_complete_termination r.termination.kind ≡ true)
      × (r.summary.failed ≡ 0)
      × (r.summary.unsafe ≡ 0)
      × (r.summary.incomplete ≡ 0)
unfolding exit_code
exit_zero_counts r h = ground arith

-- Exit code 0 of a run: the results are, in order and one for each case of the plan, what the executor
-- answered for that case without an error, and none is FAIL, UNSAFE or INCOMPLETE.
pub exit_zero :
    {L : Type 0} (w : World L) (plan : Plan) (lease : Option L) (borrowed : Bool)
    → exit_code (run w plan lease borrowed).result ≡ 0
    → AreResults w plan plan.suite.cases (run w plan lease borrowed).result.cases
      × (all unobjectionable (run w plan lease borrowed).result.cases ≡ true)
exit_zero w plan lease borrowed h =
    let o = run w plan lease borrowed in
    let (complete, no_fail, no_unsafe, no_incomplete) = exit_zero_counts o.result h in
    let accounted = run-IsAccounted w plan lease borrowed in
    let sums = summarize-counts o.result in
    let exact = accounted.exact in
    (
      accounted.whole complete,
      none_counted o.result.cases
          (sym (sums.2) ∙ sym (ap (λ (s : Summary). s.failed) exact) ∙ no_fail)
          (sym (sums.3) ∙ sym (ap (λ (s : Summary). s.unsafe) exact) ∙ no_unsafe)
          (sym (sums.4) ∙ sym (ap (λ (s : Summary). s.incomplete) exact) ∙ no_incomplete),
    )
