-- ===== src/Authority/Lockstep.antt =====
-- The matcher against the materialised roles: what `classify` grants, RBAC allows.
use evidra_bench.Base.{
  String, Bool, true, false, not, ◌||◌, List, [], ◌∷◌, ◌++◌, ◌==◌, ◌≡◌, refl, arith, eq_iff, inl,
  inr, Memᴰ, any, all, contains, contains→Memᴰ, Memᴰ→contains, find_of_any, any_of_mem, any-append,
  eq_refl, all_at, select, equal_fold, and_iff, Bool-cases, get_list, if◌then◌else◌, ok, ap, ◌∙◌,
  subst,
}
use evidra_bench.Authority.Profile.{AuthorityProfile, canonical_rbac_verbs}
use evidra_bench.Authority.Rule.{
  Action, Rule, mutation_verbs, escalation_verbs, verb_covers, verb_allowed, matches,
  resource_matches, name_matches, group_allowed, ns_in, action_key,
}
use evidra_bench.Authority.Compile.{Plan, compile_profile}
use evidra_bench.Authority.Classify.{classify, granted, grants}
use evidra_bench.Authority.Rbac.{
  RbacRule, safe_wildcard_verbs, is_star, not_escalation, rendered_verbs, render, roles_from,
  add_missing, roles_by_namespace, cluster_rules_of, cluster_role_rules, permits,
}
use evidra_bench.Authority.Roles.{roles_from-Holds_mem, cluster_rules_of-mem}
use evidra_bench.Authority.Invariant.{write_rules-mem}
use evidra_bench.Authority.Sets.{contains-sort_strings, contains-add_missing}

-- Every verb of the rule is one that RBAC knows, as the loader requires.
unfoldable pub is_canonical : Rule → Bool
is_canonical r = all (contains canonical_rbac_verbs) r.verbs

-- Between verbs that RBAC knows and mutation verbs, case folding is equality.
fold_agrees : String → String → Bool
fold_agrees v rv = if equal_fold rv v then rv == v else true

fold_table : all (λ v. all (fold_agrees v) canonical_rbac_verbs) mutation_verbs ≡ true
unfolding all fold_agrees equal_fold
fold_table = refl

fold_exact :
    (v rv : String)
    → contains mutation_verbs v ≡ true
    → contains canonical_rbac_verbs rv ≡ true
    → equal_fold rv v ≡ true
    → rv ≡ v
unfolding fold_agrees
fold_exact v rv hv hr h =
    let row =
      all_at (λ u. all (fold_agrees u) canonical_rbac_verbs) (contains→Memᴰ _ v hv) fold_table in
    let cell : fold_agrees v rv ≡ true = all_at (fold_agrees v) (contains→Memᴰ _ rv hr) row in
    (eq_iff rv v).0 (rw h at cell)

-- Mutation verbs other than `deletecollection` are in the wildcard's expansion.
star_table :
    all (λ v. v == "deletecollection" || contains safe_wildcard_verbs v) mutation_verbs ≡ true
unfolding all contains
star_table = refl

contains-select :
    (p : String → Bool) (xs : List String) (s : String)
    → contains xs s ≡ true
    → p s ≡ true
    → contains (select p xs) s ≡ true
unfolding contains select
contains-select p [] s h k = h
contains-select p (x ∷ xs) s h k = elim (Bool-cases (x == s)) [
  | inl e ↦ let q : p x ≡ true = ap p ((eq_iff x s).0 e) ∙ k in rw q (ground arith)
  | inr e ↦ elim (Bool-cases (p x)) [
    | inl q ↦ rw (q, e) (contains-select p xs s (ground arith) k)
    | inr q ↦ rw q (contains-select p xs s (ground arith) k)
  ]
]

mutation_not_escalation : all (λ v. not (contains escalation_verbs v)) mutation_verbs ≡ true
unfolding all contains
mutation_not_escalation = refl

not_star :
    (verbs : List String) (rv : String)
    → any is_star verbs ≡ false
    → Memᴰ rv verbs
    → (rv == "*") ≡ false
unfolding is_star
not_star verbs rv plain m = elim (Bool-cases (rv == "*")) [
  | inl e ↦ absurd (cc (any_of_mem is_star m e, plain))
  | inr e ↦ e
]

covers_plain :
    (v rv : String)
    → contains mutation_verbs v ≡ true
    → contains canonical_rbac_verbs rv ≡ true
    → (rv == "*") ≡ false
    → verb_covers v rv ≡ true
    → rv ≡ v
unfolding verb_covers
covers_plain v rv mut canon plain h = fold_exact v rv mut canon (rw plain at h)

-- A mutation verb that the matcher allows is among the rendered verbs.
rendered_verbs-mutation :
    (r : Rule) (v : String)
    → is_canonical r ≡ true
    → contains mutation_verbs v ≡ true
    → (v == "deletecollection") ≡ false
    → verb_allowed r v ≡ true
    → contains (rendered_verbs r.verbs) v ≡ true
unfolding verb_allowed is_canonical rendered_verbs
rendered_verbs-mutation r v canon mut single h = elim (Bool-cases (any is_star r.verbs)) [
  | inl star ↦
      rw (star, contains-sort_strings safe_wildcard_verbs v)
        (rw single at (
          all_at (λ u. u == "deletecollection" || contains safe_wildcard_verbs u)
            (contains→Memᴰ _ v mut) star_table))
  | inr plain ↦
      let (rv, m, q) = find_of_any (verb_covers v) r.verbs h in
      let e =
        covers_plain v rv mut (all_at (contains canonical_rbac_verbs) m canon)
          (not_star r.verbs rv plain m) q in
      rw plain (
        unfold not_escalation in
        contains-select not_escalation r.verbs v (Memᴰ→contains (subst (λ u. Memᴰ u r.verbs) e m)) (
          all_at (λ u. not (contains escalation_verbs u)) (contains→Memᴰ _ v mut)
            mutation_not_escalation))
]

contains-resources :
    (r : Rule) (a : Action)
    → resource_matches r a ≡ true
    → contains (render r).resources (action_key a) ≡ true
unfolding resource_matches render action_key
contains-resources r a h =
    rw
      (
        contains-sort_strings (add_missing r.resources r.subresources) (action_key a),
        contains-add_missing r.resources r.subresources (action_key a),
      )
      (ground arith)

-- An action that matches a rule, with a mutation verb other than `deletecollection` that the rule
-- allows, is permitted by the rule as rendered, if the verbs of the rule are ones that RBAC knows.
pub matches→permits :
    (r : Rule) (a : Action)
    → is_canonical r ≡ true
    → contains mutation_verbs a.verb ≡ true
    → (a.verb == "deletecollection") ≡ false
    → matches r a ≡ true
    → verb_allowed r a.verb ≡ true
    → permits a (render r) ≡ true
unfolding matches permits name_matches group_allowed render
matches→permits r a canon mut single m v =
    ground (arith, rendered_verbs-mutation r a.verb canon mut single v, contains-resources r a)

-- The rules that the API server holds for a request in namespace `ns`: the roles of the namespace
-- and the cluster role, which is bound everywhere.
unfoldable pub effective_rules : Plan → String → List RbacRule
effective_rules p ns = get_list ns (roles_by_namespace p) ++ cluster_role_rules p

pub effective_rules-permits :
    (p : Plan) (a : Action) {r : Rule}
    → Memᴰ r p.all_rules
    → ns_in r a.namespace p.agent_namespace ≡ true
    → permits a (render r) ≡ true
    → any (permits a) (effective_rules p a.namespace) ≡ true
unfolding effective_rules ns_in roles_by_namespace cluster_role_rules
effective_rules-permits p a {r} m inside allowed = elim (Bool-cases r.cluster) [
  | inl wide ↦
      rw
        (any-append (permits a) (get_list a.namespace (roles_from p.agent_namespace p.all_rules []))
          (cluster_rules_of p.all_rules))
        (ground (arith, cluster_rules_of-mem (permits a) m wide allowed))
  | inr local ↦
      rw
        (any-append (permits a) (get_list a.namespace (roles_from p.agent_namespace p.all_rules []))
          (cluster_rules_of p.all_rules))
        (ground (
          arith,
          roles_from-Holds_mem (permits a) a.namespace p.agent_namespace [] m local
              (simp local at inside) allowed,
        ))
]

any_of_granted :
    (p : Plan) (a : Action) → classify p a ≡ granted → any (grants p a) p.write_rules ≡ true
unfolding classify
any_of_granted p a h = ground arith

-- What a compiled plan grants, the materialised roles permit, if the verbs of the plan are ones that
-- RBAC knows and the action is a mutation other than `deletecollection`.
pub granted_permitted :
    (profile : AuthorityProfile) (identity : String) (p : Plan) (a : Action)
    → compile_profile profile identity ≡ ok p
    → all is_canonical p.all_rules ≡ true
    → contains mutation_verbs a.verb ≡ true
    → (a.verb == "deletecollection") ≡ false
    → classify p a ≡ granted
    → any (permits a) (effective_rules p a.namespace) ≡ true
unfolding grants
granted_permitted profile identity p a compiled canon mut single h =
    let (r, m, g) = find_of_any (grants p a) p.write_rules (any_of_granted p a h) in
    let listed = write_rules-mem profile identity p compiled m in
    effective_rules-permits p a listed ((and_iff _ _).0 g).0 (
      matches→permits r a (all_at is_canonical listed canon) mut single
        ((and_iff _ _).0 ((and_iff _ _).0 g).1).0 ((and_iff _ _).0 ((and_iff _ _).0 g).1).1)

covers_self : verb_covers "deletecollection" "deletecollection" ≡ true
unfolding verb_covers equal_fold
covers_self = refl

-- A rule that lists both the wildcard and `deletecollection`: the matcher allows the collection
-- write, and the rendered rule refuses it.
pub star_drops_deletecollection :
    (r : Rule)
    → contains r.verbs "*" ≡ true
    → contains r.verbs "deletecollection" ≡ true
    → (verb_allowed r "deletecollection" ≡ true)
      × (contains (render r).verbs "deletecollection" ≡ false)
unfolding render rendered_verbs verb_allowed is_star contains
star_drops_deletecollection r star listed = (
  any_of_mem (verb_covers "deletecollection") (contains→Memᴰ _ _ listed) covers_self,
  rw
      (
        any_of_mem is_star (contains→Memᴰ r.verbs "*" star) (eq_refl "*"),
        contains-sort_strings safe_wildcard_verbs "deletecollection",
      )
      refl,
)
