-- ===== src/Authority/Admission.antt =====
-- What a profile that the loader accepts is worth to the compiler.
use evidra_bench.Base.{
  String, ℕ, ◌+◌, Bool, true, false, not, ◌&&◌, List, [], ◌∷◌, ◌==◌, ◌≡◌, refl, ◌∙◌, subst, arith,
  Option, none, some, is_nil, is_empty, any, all, all-append, all_of_contains, all_at, contains,
  contains→Memᴰ, ok, Bool-cases, inl, inr,
}
use evidra_bench.Authority.Profile.{
  AuthorityProfile, PolicyRule, canonical_rbac_verbs, on_denied_unsafe, on_denied_warning,
}
use evidra_bench.Authority.Rule.{Action, mutation_verbs}
use evidra_bench.Authority.Compile.{
  Plan, compiled_rule, check_namespaces, first_outside, compile_rule, add_rule, compile_rules,
  initial_plan, effective_on_denied, compile_profile, dedupe,
}
use evidra_bench.Authority.Classify.{classify, granted}
use evidra_bench.Authority.Rbac.{permits}
use evidra_bench.Authority.Loader.{
  RuleError, LoadError, or_else, first_error, first_error_at, is_canonical_verb, check_verb,
  validate_policy_rule, check_scope, rule_error, cluster_rule_error, placed, check_rule,
  check_cluster_rule, check_on_denied, validate_profile, in_rule, in_cluster_rule,
}
use evidra_bench.Authority.Invariant.{compile_rule_lem}
use evidra_bench.Authority.Lockstep.{is_canonical, effective_rules, granted_permitted}
use evidra_bench.Authority.Sets.{contains-dedupe}

or_else-none {κ} : {E : Type κ} (a b : Option E) → or_else a b ≡ none → (a ≡ none) × (b ≡ none)
unfolding or_else
or_else-none none b h = (refl, h)
or_else-none (some e) b h = cc h

-- The verbs of the rule are canonical.
unfoldable pub verbs_canonical : PolicyRule → Bool
verbs_canonical r = all (contains canonical_rbac_verbs) r.verbs

check_verbs-none :
    (vs : List String)
    → first_error check_verb vs ≡ none
    → all (contains canonical_rbac_verbs) vs ≡ true
unfolding first_error check_verb is_canonical_verb all
check_verbs-none [] h = refl
check_verbs-none (v ∷ vs) h =
    let (now, later) = or_else-none (check_verb v) (first_error check_verb vs) h in
    ground (arith, check_verbs-none vs later, now)

validate_policy_rule-none :
    (r : PolicyRule) → validate_policy_rule r ≡ none → verbs_canonical r ≡ true
unfolding validate_policy_rule verbs_canonical
validate_policy_rule-none r h = elim (Bool-cases (is_nil r.verbs)) [
  | inl e ↦ cc (rw e at h)
  | inr e ↦ check_verbs-none r.verbs (or_else-none _ _ (rw e at h)).0
]

check_scopes-none :
    (agent_ns nss : List String)
    → first_error (check_scope agent_ns) nss ≡ none
    → first_outside (dedupe agent_ns) nss ≡ none
unfolding first_error check_scope first_outside
check_scopes-none agent_ns [] h = refl
check_scopes-none agent_ns (ns ∷ nss) h =
    let (now, later) =
      or_else-none (check_scope agent_ns ns) (first_error (check_scope agent_ns) nss) h in
    ground (arith, now, check_scopes-none agent_ns nss later, contains-dedupe agent_ns ns)

-- What the loader has checked of a rule, as the compiler needs it.
IsAdmitted : List String → Bool → PolicyRule → Type 0
IsAdmitted agent_ns cluster r =
    (verbs_canonical r ≡ true) × (check_namespaces (dedupe agent_ns) cluster r ≡ ok tt)

placed-none :
    (at : ℕ → RuleError → LoadError) (i : ℕ) (e : Option RuleError)
    → placed at i e ≡ none
    → e ≡ none
unfolding placed
placed-none at i none h = refl
placed-none at i (some e) h = cc h

check_rule-none :
    (agent_ns : List String) (i : ℕ) (r : PolicyRule)
    → check_rule agent_ns i r ≡ none
    → IsAdmitted agent_ns false r
unfolding check_rule rule_error IsAdmitted check_namespaces
check_rule-none agent_ns i r h =
    let (shape, scopes) =
      or_else-none (validate_policy_rule r) (first_error (check_scope agent_ns) r.namespaces)
        (placed-none in_rule i (rule_error agent_ns r) h) in
    (
      validate_policy_rule-none r shape,
      rw (check_scopes-none agent_ns r.namespaces scopes, check_namespaces) refl,
    )

check_cluster_rule-none :
    (agent_ns : List String) (i : ℕ) (r : PolicyRule)
    → check_cluster_rule i r ≡ none
    → IsAdmitted agent_ns true r
unfolding check_cluster_rule cluster_rule_error IsAdmitted check_namespaces
check_cluster_rule-none agent_ns i r h = (
  validate_policy_rule-none r
      (or_else-none (validate_policy_rule r) _
        (placed-none in_cluster_rule i (cluster_rule_error r) h)).0,
  refl,
)

unfoldable pub all_canonical : Plan → Bool
all_canonical p = all is_canonical p.all_rules

compiled_rule-is_canonical :
    (cluster : Bool) (r : PolicyRule)
    → verbs_canonical r ≡ true
    → is_canonical (compiled_rule cluster r) ≡ true
unfolding verbs_canonical is_canonical compiled_rule
compiled_rule-is_canonical cluster r h =
    all_of_contains (contains canonical_rbac_verbs) (dedupe r.verbs) λ v m.
      all_at (contains canonical_rbac_verbs)
        (contains→Memᴰ r.verbs v (rw (contains-dedupe r.verbs v) at m)) h

add_rule-canonical :
    (cluster : Bool) (r : PolicyRule) (p : Plan)
    → verbs_canonical r ≡ true
    → all_canonical p ≡ true
    → all_canonical (add_rule cluster (compiled_rule cluster r) p) ≡ true
unfolding all_canonical add_rule all
add_rule-canonical cluster r p canonical h = ground (
  arith,
  h,
  all-append is_canonical p.all_rules (compiled_rule cluster r ∷ []),
  compiled_rule-is_canonical cluster r canonical,
)

compile_rule-ok :
    (agent_ns : List String) (cluster : Bool) (r : PolicyRule)
    → check_namespaces agent_ns cluster r ≡ ok tt
    → compile_rule agent_ns cluster r ≡ ok (compiled_rule cluster r)
compile_rule-ok agent_ns cluster r h = compile_rule_lem agent_ns cluster r ∙ rw h refl

-- The plan that admitted rules compile to.
Compiles : List String → Bool → List PolicyRule → Plan → Type 0
Compiles agent_ns cluster rs p =
    (q : Plan) × (compile_rules (dedupe agent_ns) cluster rs p ≡ ok q) × (all_canonical q ≡ true)

module _ (agent_ns : List String) (cluster : Bool) (check : ℕ → PolicyRule → Option LoadError)
    (sound : (i : ℕ) (r : PolicyRule) → check i r ≡ none → IsAdmitted agent_ns cluster r) where
  compile_rules-Compiles :
      (i : ℕ) (rs : List PolicyRule) (p : Plan)
      → first_error_at check i rs ≡ none
      → all_canonical p ≡ true
      → Compiles agent_ns cluster rs p
  unfolding compile_rules first_error_at Compiles IsAdmitted
  compile_rules-Compiles i [] p h canonical = (p, refl, canonical)
  compile_rules-Compiles i (r ∷ rs) p h canonical =
      let (now, later) = or_else-none (check i r) (first_error_at check (i + 1) rs) h in
      let (verbs, checked) = sound i r now in
      let (q, made, good) =
        compile_rules-Compiles (i + 1) rs (add_rule cluster (compiled_rule cluster r) p) later
          (add_rule-canonical cluster r p verbs canonical) in
      (q, rw (compile_rule-ok (dedupe agent_ns) cluster r checked) made, good)

legal_none :
    (s : String)
    → check_on_denied s ≡ none
    → (not (effective_on_denied s == on_denied_unsafe)
        && not (effective_on_denied s == on_denied_warning))
      ≡ false
unfolding check_on_denied effective_on_denied
legal_none s h = elim (Bool-cases (is_empty s)) [
  | inl e ↦ rw e refl
  | inr e ↦ rw e (ground (arith, h, e))
]

initial_plan-canonical :
    (profile : AuthorityProfile) (identity : String)
    → all_canonical (initial_plan profile identity) ≡ true
unfolding all_canonical initial_plan all
initial_plan-canonical profile identity = refl

-- A profile that the loader accepts compiles, for whatever identity, and the verbs of the plan are
-- ones that RBAC knows.
pub validate_profile-compiles :
    (profile : AuthorityProfile) (identity : String)
    → validate_profile profile ≡ none
    → (p : Plan) × (compile_profile profile identity ≡ ok p) × (all_canonical p ≡ true)
unfolding validate_profile compile_profile Compiles
validate_profile-compiles profile identity h =
    let (denied, rest) = or_else-none _ _ h in
    let (rules, rest') = or_else-none _ _ rest in
    let (wide, more) = or_else-none _ _ rest' in
    let ns = profile.agent.namespaces in
    let (mid, made, good) =
      compile_rules-Compiles ns false (check_rule ns) (check_rule-none ns) 0 profile.agent.rules
        (initial_plan profile identity) rules (initial_plan-canonical profile identity) in
    let (q, made', good') =
      compile_rules-Compiles ns true check_cluster_rule (check_cluster_rule-none ns) 0
        profile.agent.cluster_scoped_rules mid wide good in
    (q, rw (legal_none profile.agent.on_denied denied, made, made') refl, good')

-- For a profile that the loader accepts, the materialised roles permit whatever the compiled plan
-- grants, for a mutation other than `deletecollection`.
pub loaded_granted_permitted :
    (profile : AuthorityProfile) (identity : String) (p : Plan) (a : Action)
    → validate_profile profile ≡ none
    → compile_profile profile identity ≡ ok p
    → contains mutation_verbs a.verb ≡ true
    → (a.verb == "deletecollection") ≡ false
    → classify p a ≡ granted
    → any (permits a) (effective_rules p a.namespace) ≡ true
unfolding all_canonical
loaded_granted_permitted profile identity p a loaded compiled mut single h =
    let (q, made, canonical) = validate_profile-compiles profile identity loaded in
    let same : q ≡ p = cc (made, compiled) in
    granted_permitted profile identity p a compiled
      (subst (λ x. all_canonical x ≡ true) same canonical) mut single h
