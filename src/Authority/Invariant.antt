-- ===== src/Authority/Invariant.antt =====
-- What every compiled plan satisfies, and when compilation fails.
use evidra_bench.Base.{
  map, ap, String, Bool, true, false, ◌||◌, List, [], ◌∷◌, ◌++◌, ◌==◌, ◌≡◌, refl, arith, inl, inr,
  Memᴰ, none, some, all, all-append, select, contains, Bool-cases, Result, ok, err, ◌>>=◌,
  >>=-eq-ok, if◌then◌else◌, sym, ◌∙◌, eq_iff, select-mem, subst, all_at, all_of_contains,
  contains→Memᴰ,
}
use mathlib.Core.List.{append-nil, append_assoc}
use evidra_bench.Authority.Profile.{
  AuthorityProfile, PolicyRule, on_denied_unsafe, on_denied_warning,
}
use evidra_bench.Authority.Rule.{Rule}
use evidra_bench.Authority.Compile.{
  Plan, CompileError, invalid_on_denied, first_outside, compiled_rule, check_namespaces,
  check_subresources, compile_rule, writes, add_rule, compile_rules, initial_plan,
  effective_on_denied, compile_profile, dedupe,
}
use evidra_bench.Authority.Orphans.{first_orphan-subresource_pairs}
use evidra_bench.Authority.Sets.{contains-dedupe}

-- The namespaces of the rule are the agent's.
unfoldable pub in_scope : List String → Rule → Bool
in_scope agent_ns r = all (contains agent_ns) r.namespaces

unfoldable pub is_cluster : Rule → Bool
is_cluster r = r.cluster

pub record IsCompiled (p : Plan) : Type 0 where
  pub writers : p.write_rules ≡ select writes p.all_rules
  pub wide : p.cluster_rules ≡ select is_cluster p.all_rules
  pub scoped : all (in_scope p.agent_namespace) p.all_rules ≡ true

select-append {ℓ} :
    {A : Type ℓ} (p : A → Bool) (xs : List A) (x : A)
    → select p (xs ++ (x ∷ [])) ≡ (if p x then select p xs ++ (x ∷ []) else select p xs)
unfolding select
select-append p [] x = ground arith
select-append p (y ∷ xs) x = ground (arith, select-append p xs x)

check_subresources_lem :
    (cluster : Bool) (r : PolicyRule) → check_subresources (compiled_rule cluster r) ≡ ok tt
unfolding check_subresources compiled_rule
check_subresources_lem cluster r =
    rw (first_orphan-subresource_pairs r.resources r.subresources, check_subresources)

-- A rule fails to compile only for a namespace that the agent does not have.
pub compile_rule_lem :
    (agent_ns : List String) (cluster : Bool) (r : PolicyRule)
    → compile_rule agent_ns cluster r
      ≡ (check_namespaces agent_ns cluster r >>= λ _. ok (compiled_rule cluster r))
unfolding compile_rule
compile_rule_lem agent_ns cluster r = rw (check_subresources_lem cluster r)

pub compile_rule_inv :
    (agent_ns : List String) (cluster : Bool) (r : PolicyRule) (cr : Rule)
    → compile_rule agent_ns cluster r ≡ ok cr
    → (compiled_rule cluster r ≡ cr) × (check_namespaces agent_ns cluster r ≡ ok tt)
compile_rule_inv agent_ns cluster r cr h =
    let (u, done, same) =
      >>=-eq-ok (check_namespaces agent_ns cluster r) (λ _. ok (compiled_rule cluster r))
        (sym (compile_rule_lem agent_ns cluster r) ∙ h) in
    (ground arith, done)

first_outside-none :
    (agent_ns nss : List String)
    → first_outside agent_ns nss ≡ none
    → all (contains agent_ns) nss ≡ true
unfolding first_outside all
first_outside-none agent_ns [] h = refl
first_outside-none agent_ns (ns ∷ nss) h = ground (arith, first_outside-none agent_ns nss)

first_outside-some :
    (agent_ns nss : List String) (ns : String)
    → first_outside agent_ns nss ≡ some ns
    → (contains nss ns ≡ true) × (contains agent_ns ns ≡ false)
unfolding first_outside contains
first_outside-some agent_ns [] ns h = cc
first_outside-some agent_ns (x ∷ nss) ns h = elim (Bool-cases (contains agent_ns x)) [
  | inl e ↦ let (m, o) = first_outside-some agent_ns nss ns (rw e at h) in (ground arith, o)
  | inr e ↦ let same : x ≡ ns = ground arith in (ground (arith, eq_iff x ns), rw (← same) e)
]

outside_none :
    (agent_ns : List String) (r : PolicyRule)
    → check_namespaces agent_ns false r ≡ ok tt
    → first_outside agent_ns r.namespaces ≡ none
unfolding check_namespaces
outside_none agent_ns r h = ground arith

compiled_rule-in_scope :
    (agent_ns : List String) (cluster : Bool) (r : PolicyRule)
    → check_namespaces agent_ns cluster r ≡ ok tt
    → in_scope agent_ns (compiled_rule cluster r) ≡ true
unfolding check_namespaces compiled_rule in_scope
compiled_rule-in_scope agent_ns true r h = unfold all in refl
compiled_rule-in_scope agent_ns false r h =
    let inside = first_outside-none agent_ns r.namespaces (outside_none agent_ns r h) in
    all_of_contains (contains agent_ns) (dedupe r.namespaces) λ s m.
      all_at (contains agent_ns)
        (contains→Memᴰ r.namespaces s (rw (contains-dedupe r.namespaces s) at m)) inside

add_rule-IsCompiled :
    (cluster : Bool) (r : PolicyRule) (p : Plan)
    → in_scope p.agent_namespace (compiled_rule cluster r) ≡ true
    → IsCompiled p
    → IsCompiled (add_rule cluster (compiled_rule cluster r) p)
unfolding add_rule is_cluster compiled_rule all
add_rule-IsCompiled cluster r p s h = record {
  writers = ground (arith, h.writers, select-append writes p.all_rules (compiled_rule cluster r));
  wide = ground (arith, h.wide, select-append is_cluster p.all_rules (compiled_rule cluster r));
  scoped = ground (
    arith,
    h.scoped,
    all-append (in_scope p.agent_namespace) p.all_rules (compiled_rule cluster r ∷ []),
  );
}

-- Along the loop: the rules of the result, and the agent's namespaces kept.
compile_rules-IsCompiled :
    (cluster : Bool) (rs : List PolicyRule) (p : Plan) {q : Plan}
    → compile_rules p.agent_namespace cluster rs p ≡ ok q
    → IsCompiled p
    → IsCompiled q × (q.agent_namespace ≡ p.agent_namespace)
unfolding compile_rules add_rule
compile_rules-IsCompiled cluster [] p {q} h inv =
    let e : p ≡ q = ground arith in (subst IsCompiled e inv, ground arith)
compile_rules-IsCompiled cluster (r ∷ rs) p {q} h inv =
    let (cr, made, rest) =
      >>=-eq-ok (compile_rule p.agent_namespace cluster r)
        (λ x. compile_rules p.agent_namespace cluster rs (add_rule cluster x p)) h in
    let (same, checked) = compile_rule_inv p.agent_namespace cluster r cr made in
    let rest' = rw (← same) at rest in
    compile_rules-IsCompiled cluster rs (add_rule cluster (compiled_rule cluster r) p) {q = q} rest'
      (add_rule-IsCompiled cluster r p (compiled_rule-in_scope p.agent_namespace cluster r checked)
        inv)

abbrev pub legal_on_denied : AuthorityProfile → Bool
legal_on_denied profile =
    let s = effective_on_denied profile.agent.on_denied in
    s == on_denied_unsafe || s == on_denied_warning

unfoldable pub compile_both : AuthorityProfile → String → Result CompileError Plan
compile_both profile identity =
    compile_rules (dedupe profile.agent.namespaces) false profile.agent.rules
      (initial_plan profile identity)
    >>= λ p.
        compile_rules (dedupe profile.agent.namespaces) true profile.agent.cluster_scoped_rules p

pub compile_profile_lem :
    (profile : AuthorityProfile) (identity : String)
    → compile_profile profile identity ≡ (
        if legal_on_denied profile
        then compile_both profile identity
        else err (invalid_on_denied (effective_on_denied profile.agent.on_denied)))
unfolding compile_profile compile_both
compile_profile_lem profile identity = ground arith

pub ok-ne-err : {p : Plan} {e : CompileError} → err e ≡ ok p → ⊥
ok-ne-err h = cc

initial_plan-IsCompiled :
    (profile : AuthorityProfile) (identity : String) → IsCompiled (initial_plan profile identity)
unfolding initial_plan select all
initial_plan-IsCompiled profile identity = record { writers = refl; wide = refl; scoped = refl }

both-IsCompiled :
    (profile : AuthorityProfile) (identity : String) (p : Plan)
    → compile_both profile identity ≡ ok p
    → IsCompiled p
unfolding compile_both initial_plan
both-IsCompiled profile identity p h =
    let (mid, local, wide) =
      >>=-eq-ok
        (compile_rules (dedupe profile.agent.namespaces) false profile.agent.rules
          (initial_plan profile identity))
        (λ x.
          compile_rules (dedupe profile.agent.namespaces) true profile.agent.cluster_scoped_rules x)
        h in
    let (inv, same) =
      compile_rules-IsCompiled false profile.agent.rules (initial_plan profile identity) {q = mid}
        local (initial_plan-IsCompiled profile identity) in
    let wide' = rw (← same) at wide in
    (compile_rules-IsCompiled true profile.agent.cluster_scoped_rules mid {q = p} wide' inv).0

-- The loop appends its rules, compiled, in their order.
compile_rules-all_rules :
    (agent_ns : List String) (cluster : Bool) (rs : List PolicyRule) (p : Plan) {q : Plan}
    → compile_rules agent_ns cluster rs p ≡ ok q
    → q.all_rules ≡ p.all_rules ++ map (compiled_rule cluster) rs
unfolding compile_rules add_rule
compile_rules-all_rules agent_ns cluster [] p {q} h =
    let e : p ≡ q = ground arith in
    ap (λ (x : Plan). x.all_rules) (sym e) ∙ sym (append-nil p.all_rules)
compile_rules-all_rules agent_ns cluster (r ∷ rs) p {q} h =
    let (cr, made, rest) =
      >>=-eq-ok (compile_rule agent_ns cluster r)
        (λ x. compile_rules agent_ns cluster rs (add_rule cluster x p)) h in
    let (same, checked) = compile_rule_inv agent_ns cluster r cr made in
    let rest' = rw (← same) at rest in
    compile_rules-all_rules agent_ns cluster rs (add_rule cluster (compiled_rule cluster r) p)
      {q = q} rest'
    ∙ append_assoc p.all_rules (compiled_rule cluster r ∷ []) (map (compiled_rule cluster) rs)

abbrev pub rules_of : AuthorityProfile → List Rule
rules_of profile =
    map (compiled_rule false) profile.agent.rules
    ++ map (compiled_rule true) profile.agent.cluster_scoped_rules

both-all_rules :
    (profile : AuthorityProfile) (identity : String) (p : Plan)
    → compile_both profile identity ≡ ok p
    → p.all_rules ≡ rules_of profile
unfolding compile_both initial_plan
both-all_rules profile identity p h =
    let agent_ns = dedupe profile.agent.namespaces in
    let (mid, local, wide) =
      >>=-eq-ok (compile_rules agent_ns false profile.agent.rules (initial_plan profile identity))
        (λ x. compile_rules agent_ns true profile.agent.cluster_scoped_rules x) h in
    compile_rules-all_rules agent_ns true profile.agent.cluster_scoped_rules mid {q = p} wide
    ∙ ap (λ l. l ++ map (compiled_rule true) profile.agent.cluster_scoped_rules)
        (compile_rules-all_rules agent_ns false profile.agent.rules (initial_plan profile identity)
          {q = mid} local)

-- If a profile compiles, then the rules of the plan are those of the profile, compiled, in order, the
-- namespaced before the cluster-wide ones; its write rules and cluster rules are exactly those of all its
-- rules that write or are cluster-wide, in order; and the namespaces of every rule are the agent's.
pub compile_profile-IsCompiled :
    (profile : AuthorityProfile) (identity : String) (p : Plan)
    → compile_profile profile identity ≡ ok p
    → IsCompiled p × (p.all_rules ≡ rules_of profile)
compile_profile-IsCompiled profile identity p h = elim (Bool-cases (legal_on_denied profile)) [
  | inl legal ↦
      let both = rw legal at (sym (compile_profile_lem profile identity) ∙ h) in
      (both-IsCompiled profile identity p both, both-all_rules profile identity p both)
  | inr bad ↦ absurd (ok-ne-err (rw bad at (sym (compile_profile_lem profile identity) ∙ h)))
]

pub write_rules-mem :
    (profile : AuthorityProfile) (identity : String) (p : Plan)
    → compile_profile profile identity ≡ ok p
    → {r : Rule} → Memᴰ r p.write_rules
    → Memᴰ r p.all_rules
write_rules-mem profile identity p h {r} m =
    select-mem writes p.all_rules
      (subst (Memᴰ r) (compile_profile-IsCompiled profile identity p h).0.writers m)
