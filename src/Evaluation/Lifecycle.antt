-- ===== src/Evaluation/Lifecycle.antt =====
-- The lease over a run of the service, and what a run without an error has done.
use evidra_bench.Base.{
  String, ℕ, ◌+◌, Bool, true, false, List, [], ◌∷◌, ◌++◌, ◌≡◌, refl, arith, Option, none, some,
  count_of, count_of-append, Option-cases, Result-cases, ◌⊎◌, inl, inr, if◌then◌else◌,
}
use evidra_bench.Evaluation.Plan.{Plan, CasePlan, validate, plan_identity}
use evidra_bench.Evaluation.Result.{CaseResult, EvaluationResult, empty_summary}
use evidra_bench.Evaluation.World.{
  Call, checked, acquired, released, executed, Trace, ExecError, World,
}
use evidra_bench.Evaluation.Service.{
  Outcome, next_result, gives_lease, run_preflights, run_cases, clean_up, run_environment, run,
  run_owned, run_with_lease, run_leased, run_acquired, with_lease, stop, run_checked, RunError,
  initial_result,
}

is_release : Call → Bool
is_release released = true
is_release _ = false

is_grant : Call → Bool
is_grant (acquired b) = b
is_grant _ = false

-- How often a lease was given, and how often one was released.
pub grants_in : Trace → ℕ
grants_in t = count_of is_grant t

pub releases_in : Trace → ℕ
releases_in t = count_of is_release t

abbrev pub Counts : ℕ → ℕ → Trace → Type 0
Counts g r t = (grants_in t ≡ g) × (releases_in t ≡ r)

-- One more call adds what it is to the counts.
count_call :
    (g r : ℕ) (t : Trace) (c : Call)
    → Counts g r t
    → Counts
        (g + (if is_grant c then 1 else 0))
        (r + (if is_release c then 1 else 0))
        (t ++ (c ∷ []))
unfolding grants_in releases_in count_of
count_call g r t c h = (
  omega (arith, count_of-append is_grant t (c ∷ []), h.0),
  omega (arith, count_of-append is_release t (c ∷ []), h.1),
)

count_other :
    {g r : ℕ} (t : Trace) (c : Call)
    → is_grant c ≡ false
    → is_release c ≡ false
    → Counts g r t
    → Counts g r (t ++ (c ∷ []))
count_other {g} {r} t c a b h = ground (arith, count_call g r t c h)

no_calls : Counts 0 0 []
unfolding grants_in releases_in count_of
no_calls = (refl, refl)

module _ {L : Type 0} (w : World L) (plan : Plan) where
  run_cases-Counts :
      (execute : Trace → Plan → CasePlan → L → CaseResult × Option ExecError) (lease : L)
      (cs : List CasePlan) (r : EvaluationResult) (t : Trace) (g k : ℕ)
      → Counts g k t
      → Counts g k (run_cases w plan execute lease cs r t).trace
  unfolding run_cases is_grant is_release next_result
  run_cases-Counts execute lease [] r t g k h = h
  run_cases-Counts execute lease (c ∷ cs) r t g k h =
      let more = count_other {g = g} {r = k} t (executed c.id) refl refl h in
      elim (Option-cases (execute t plan c lease).1) [
        | inl none_failed ↦
            rw (none_failed, run_cases)
              (run_cases-Counts execute lease cs (next_result w plan r c (execute t plan c lease).0)
                (t ++ (executed c.id ∷ [])) g k more)
        | inr (e, failed) ↦ rw (failed, run_cases) more
      ]

  run_preflights-Counts :
      (checks : List (Option (Trace → Plan → Option String))) (t : Trace)
      → Counts 0 0 t
      → Counts 0 0 (run_preflights w plan checks t).1
  unfolding run_preflights is_grant is_release
  run_preflights-Counts [] t h = h
  run_preflights-Counts (none ∷ checks) t h = run_preflights-Counts checks t h
  run_preflights-Counts (some check ∷ checks) t h =
      let more = count_other {g = 0} {r = 0} t checked refl refl h in
      elim (Option-cases (check t plan)) [
        | inl passed ↦
            rw (passed, run_preflights) (run_preflights-Counts checks (t ++ (checked ∷ [])) more)
        | inr (e, failed) ↦ rw (failed, run_preflights) more
      ]

  -- No lease was given and none released, or one of each.
  abbrev pub Settled : Trace → Type 0
  Settled t = Counts 0 0 t ⊎ Counts 1 1 t

  run_leased-Counts :
      (execute : Trace → Plan → CasePlan → L → CaseResult × Option ExecError) (lease : L)
      (r : EvaluationResult) (t : Trace)
      → Counts 1 0 t
      → Counts 1 1 (run_leased w plan execute false lease r t).trace
  unfolding run_leased clean_up is_grant is_release
  run_leased-Counts execute lease r t h =
      count_call 1 0 (run_cases w plan execute lease plan.suite.cases r t).trace released
        (run_cases-Counts execute lease plan.suite.cases r t 1 0 h)

  acquired-Counts :
      (b : Bool) (t : Trace) → Counts 0 0 t → Counts (if b then 1 else 0) 0 (t ++ (acquired b ∷ []))
  unfolding is_grant is_release
  acquired-Counts true t h = count_call 0 0 t (acquired true) h
  acquired-Counts false t h = count_call 0 0 t (acquired false) h

  run_acquired-Settled :
      (execute : Trace → Plan → CasePlan → L → CaseResult × Option ExecError)
      (answer : Option L × Option String) (r : EvaluationResult) (t : Trace)
      → Counts 0 0 t
      → Settled
          (run_acquired w plan execute answer r (t ++ (acquired (gives_lease answer) ∷ []))).trace
  unfolding run_acquired gives_lease with_lease stop
  run_acquired-Settled execute (none, some e) r t h = inl (acquired-Counts false t h)
  run_acquired-Settled execute (some lease, some e) r t h = inl (acquired-Counts false t h)
  run_acquired-Settled execute (none, none) r t h = inl (acquired-Counts false t h)
  run_acquired-Settled execute (some lease, none) r t h =
      inr (run_leased-Counts execute lease r (t ++ (acquired true ∷ [])) (acquired-Counts true t h))

  run_environment-Settled :
      (r : EvaluationResult) (t : Trace)
      → Counts 0 0 t
      → Settled (run_environment w plan none false r t).trace
  unfolding run_environment stop
  run_environment-Settled r t h = elim (Option-cases w.provisioner) [
    | inl missing ↦ simp missing (inl h)
    | inr (acquire, found) ↦ elim (Option-cases w.executor) [
      | inl missing ↦ simp (found, missing) (inl h)
      | inr (execute, there) ↦
          simp (found, there) (run_acquired-Settled execute (acquire t plan) r t h)
    ]
  ]

  -- A run ends at once, with no call made, or goes through its checks into the environment.
  pub run_cases_of {ℓ} :
      (P : Outcome → Type ℓ) (lease : Option L) (borrowed : Bool)
      → ((reason details : String) (e : RunError)
          → P (stop w plan (initial_result w plan) "validation" reason details e []))
      → ((r : EvaluationResult)
          → r.cases ≡ []
          → r.summary ≡ empty_summary
          → P (run_checked w plan lease borrowed r))
      → P (run w plan lease borrowed)
  unfolding run initial_result
  run_cases_of P lease borrowed early late = elim (Option-cases (validate plan)) [
    | inr (e, invalid) ↦ rw (invalid, run) (early _ _ _)
    | inl valid ↦ elim (Result-cases (w.hash (plan_identity plan))) [
      | inl (e, failed) ↦ rw (valid, failed, run) (early _ _ _)
      | inr (fingerprint, hashed) ↦
          rw (valid, hashed, run)
            (late (record (initial_result w plan) { plan_fingerprint = fingerprint }) refl refl)
    ]
  ]

  run_checked-Settled : (r : EvaluationResult) → Settled (run_checked w plan none false r).trace
  unfolding run_checked stop
  run_checked-Settled r =
      let counted = run_preflights-Counts w.preflights [] no_calls in
      elim (Option-cases (run_preflights w plan w.preflights []).0) [
        | inr (e, failed) ↦ rw (failed, run_checked) (inl counted)
        | inl passed ↦
            rw (passed, run_checked)
              (run_environment-Settled r (run_preflights w plan w.preflights []).1 counted)
      ]

  -- Over a run on an owned environment, either no lease is given and none released, or one is given
  -- and that one is released.
  pub run_owned-Settled : Settled (run_owned w plan).trace
  unfolding run_owned stop
  run_owned-Settled =
      run_cases_of (λ o. Settled o.trace) none false (λ reason details e. inl no_calls)
        (λ r _ _. run_checked-Settled r)

  borrowed-Counts :
      (execute : Trace → Plan → CasePlan → L → CaseResult × Option ExecError) (lease : Option L)
      (r : EvaluationResult) (t : Trace)
      → Counts 0 0 t
      → Counts 0 0 (with_lease w plan execute true lease r t).trace
  unfolding with_lease run_leased stop
  borrowed-Counts execute none r t h = h
  borrowed-Counts execute (some lease) r t h =
      run_cases-Counts execute lease plan.suite.cases r t 0 0 h

  run_environment-Counts :
      (lease : Option L) (r : EvaluationResult) (t : Trace)
      → Counts 0 0 t
      → Counts 0 0 (run_environment w plan lease true r t).trace
  unfolding run_environment stop
  run_environment-Counts lease r t h = elim (Option-cases w.executor) [
    | inl missing ↦ simp missing h
    | inr (execute, there) ↦ elim (Option-cases w.provisioner) [
      | inl missing ↦ simp (missing, there) (borrowed-Counts execute lease r t h)
      | inr (acquire, found) ↦ simp (found, there) (borrowed-Counts execute lease r t h)
    ]
  ]

  -- A run on a borrowed lease acquires nothing and releases nothing.
  run_with_lease-Counts : (lease : Option L) → Counts 0 0 (run_with_lease w plan lease).trace
  unfolding run_with_lease stop run_checked
  run_with_lease-Counts lease =
      run_cases_of (λ o. Counts 0 0 o.trace) lease true (λ reason details e. no_calls)
        λ r _ _.
          let counted = run_preflights-Counts w.preflights [] no_calls in
          elim (Option-cases (run_preflights w plan w.preflights []).0) [
            | inr (e, failed) ↦ rw (failed, run_checked) counted
            | inl passed ↦
                rw (passed, run_checked)
                  (run_environment-Counts lease r (run_preflights w plan w.preflights []).1 counted)
          ]
