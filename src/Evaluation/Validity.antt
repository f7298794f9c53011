-- ===== src/Evaluation/Validity.antt =====
-- Which plans `Plan.Validate` of pkg/evaluation/plan.go accepts.
use evidra_bench.Base.{
  String, ℕ, ◌+◌, Bool, true, false, not, ◌&&◌, ◌||◌, List, [], ◌∷◌, ◌≡◌, refl, arith, ◌↔◌, none,
  map, all, contains, eq_iff, is_nil, is_empty, is_blank, trim_space, is_positive, is_one,
  Option-cases, inl, inr,
}
use evidra_bench.Evaluation.Plan.{
  TargetKind, Plan, CasePlan, is_model, is_agent, validate, validate_cases, validate_target,
}

unfoldable pub trimmed_id : CasePlan → String
trimmed_id c = trim_space c.id

unfoldable pub nonempty : String → Bool
nonempty s = not (is_empty s)

-- No text stands twice in the list.
unfoldable pub distinct : List String → Bool
distinct [] = true
distinct (x ∷ xs) = not (contains xs x) && distinct xs

unfoldable pub is_new : List String → String → Bool
is_new seen s = not (contains seen s)

is_new-cons :
    (x : String) (seen ids : List String)
    → all (is_new (x ∷ seen)) ids ≡ (not (contains ids x) && all (is_new seen) ids)
unfolding all is_new contains
is_new-cons x seen [] = refl
is_new-cons x seen (y ∷ ids) = ground (arith, is_new-cons x seen ids, eq_iff x y, eq_iff y x)

-- The loop over the cases answers `none` exactly on named, distinct and new ids.
validate_cases_iff :
    (i : ℕ) (seen : List String) (cs : List CasePlan)
    → (validate_cases i seen cs ≡ none) ↔ (
        (all nonempty (map trimmed_id cs)
          && (distinct (map trimmed_id cs) && all (is_new seen) (map trimmed_id cs)))
        ≡ true)
unfolding validate_cases all distinct nonempty trimmed_id is_new
validate_cases_iff i seen [] = (λ _. refl, λ _. refl)
validate_cases_iff i seen (c ∷ cs) =
    let more = validate_cases_iff (i + 1) (trim_space c.id ∷ seen) cs in
    let new = is_new-cons (trim_space c.id) seen (map trimmed_id cs) in
    (λ h. ground (arith, more, new), λ h. ground (arith, more, new))

-- The environment, the target and the limits that the runner takes.
unfoldable pub is_runnable : Plan → Bool
is_runnable p =
    not (is_blank p.environment.provider)
    && (((is_model p.target.kind
            && (not (is_blank p.target.provider) && not (is_blank p.target.model_name)))
          || (is_agent p.target.kind && not (is_blank p.target.adapter)))
        && (is_positive p.limits.case_timeout && is_one p.attempts))

-- The suite is identified and its cases have ids, no two the same up to surrounding space.
unfoldable pub is_well_formed : Plan → Bool
is_well_formed p =
    not (is_blank p.suite.id)
    && (not (is_blank p.suite.digest)
        && (not (is_nil p.suite.cases)
            && (all nonempty (map trimmed_id p.suite.cases)
                && distinct (map trimmed_id p.suite.cases))))

exclusive : (k : TargetKind) → (is_model k && is_agent k) ≡ false
unfolding is_model is_agent
exclusive TargetKind.model = refl
exclusive TargetKind.agent = refl
exclusive (TargetKind.other s) = refl

validate_target_iff : (p : Plan) → (validate_target p ≡ none) ↔ (is_runnable p ≡ true)
unfolding validate_target is_runnable
validate_target_iff p =
    let one = exclusive p.target.kind in (λ h. ground (arith, one), λ h. ground (arith, one))

all_new : (ids : List String) → all (is_new []) ids ≡ true
unfolding all is_new contains
all_new [] = refl
all_new (x ∷ ids) = all_new ids

-- A plan is accepted exactly if its suite has an id and a digest, it has a case, the trimmed ids of
-- its cases are nonempty and distinct, a provider is named, the target is a model with provider and
-- name or an agent with an adapter, the case timeout is positive, and there is one attempt.
pub validate_iff : (p : Plan) → (validate p ≡ none) ↔ ((is_well_formed p && is_runnable p) ≡ true)
unfolding validate is_well_formed
validate_iff p =
    let ids = validate_cases_iff 0 [] p.suite.cases in
    let new = all_new (map trimmed_id p.suite.cases) in
    let target = validate_target_iff p in
    elim (Option-cases (validate_cases 0 [] p.suite.cases)) [
      | inl good ↦ (
        λ h. ground (arith, ids.0 good, new, target.0, rw (good, validate) at h),
        λ h. rw (good, validate) (ground (arith, target.1)),
      )
      | inr (e, bad) ↦ (
        λ h. absurd (ground (arith, rw (bad, validate) at h)),
        λ h. absurd (ground (arith, ids.1, new, bad)),
      )
    ]
