-- ===== src/Identity/Protection.antt =====
-- What the refusal of grants on protected objects is worth: proofs about ValidateProfileRules of
-- pkg/environment/identity.go and the roles that pkg/authority/plan.go renders.
use evidra_bench.Base.{
  >>=-eq-ok, ok, String, true, false, List, [], ◌∷◌, ◌++◌, ◌≡◌, refl, sym, ap, ◌∙◌, arith, inl, inr,
  Memᴰ, Bool-cases, all, all_at, any, contains, has_slash, is_nil, get_list, if◌then◌else◌,
}
use evidra_bench.Authority.Profile.{AuthorityProfile, PolicyRule, ProtectedResource}
use evidra_bench.Authority.Rule.{Action}
use evidra_bench.Authority.Compile.{Plan, compiled_rule, compile_profile, dedupe}
use evidra_bench.Authority.Rbac.{render, allows, roles_by_namespace}
use evidra_bench.Authority.Gathered.{compile_profile-all, roles_from-Lacks, stays_away}
use evidra_bench.Identity.Collisions.{
  Collision, mutates_by, scope_of, collision_of, rule_collisions, collisions,
  validate_profile_rules,
}
use evidra_bench.Identity.Manifests.{
  Manifest, plan_manifests, identity_manifests, agent_service_account,
}
use evidra_bench.Identity.Bound.{bound_rules, plan_manifests-bound}
use evidra_bench.Identity.Grants.{IsWriteOn, granted-collision, granted-mutates, rule_scope-dedupe}
use evidra_bench.Identity.Slashes.{plain, plain_rule}

nil_before : (xs ys : List Collision) → is_nil (xs ++ ys) ≡ true → is_nil xs ≡ true
nil_before [] ys h = refl
nil_before (x ∷ xs) ys h = h

nil_after : (xs ys : List Collision) → is_nil (xs ++ ys) ≡ true → is_nil ys ≡ true
nil_after [] ys h = h
nil_after (x ∷ xs) ys h = cc

rule_collisions-nil :
    (agent_ns : List String) (rule : PolicyRule) {prot : ProtectedResource}
    {protected : List ProtectedResource}
    → Memᴰ prot protected
    → is_nil (rule_collisions agent_ns rule protected) ≡ true
    → is_nil (collision_of agent_ns rule prot) ≡ true
unfolding rule_collisions
rule_collisions-nil agent_ns rule {prot} (Memᴰ.head {x = x} {xs = rest} same) h =
    ap (λ y. is_nil (collision_of agent_ns rule y)) same
    ∙ nil_before (collision_of agent_ns rule x) (rule_collisions agent_ns rule rest) h
rule_collisions-nil agent_ns rule (Memᴰ.tail {x = x} {xs = rest} m) h =
    rule_collisions-nil agent_ns rule m
      (nil_after (collision_of agent_ns rule x) (rule_collisions agent_ns rule rest) h)

collisions-nil :
    (agent_ns : List String) {rule : PolicyRule} {rules : List PolicyRule}
    (protected : List ProtectedResource)
    → Memᴰ rule rules
    → any mutates_by rule.verbs ≡ true
    → is_nil (collisions agent_ns rules protected) ≡ true
    → is_nil (rule_collisions agent_ns rule protected) ≡ true
unfolding collisions
collisions-nil agent_ns {rule} protected (Memᴰ.head {x = x} {xs = rest} same) m h =
    let m' : any mutates_by x.verbs ≡ true =
      ap (λ (r : PolicyRule). any mutates_by r.verbs) (sym same) ∙ m in
    let h' = rw m' at h in
    ap (λ y. is_nil (rule_collisions agent_ns y protected)) same
    ∙ nil_before (rule_collisions agent_ns x protected) (collisions agent_ns rest protected) h'
collisions-nil agent_ns protected (Memᴰ.tail {x = x} {xs = rest} mem) m h =
    collisions-nil agent_ns protected mem m (
      nil_after (if any mutates_by x.verbs then rule_collisions agent_ns x protected else [])
        (collisions agent_ns rest protected) h)

kept_away :
    (own : List String) (rule : PolicyRule) (prot : ProtectedResource) (a : Action)
    (rules : List PolicyRule) (protected : List ProtectedResource)
    → Memᴰ rule rules
    → Memᴰ prot protected
    → is_nil (collisions own rules protected) ≡ true
    → all plain rule.resources ≡ true
    → has_slash prot.resource ≡ false
    → IsWriteOn prot a
    → stays_away (allows a) prot.namespace (dedupe own) (compiled_rule false rule) ≡ true
unfolding stays_away
kept_away own rule prot a rules protected m mem valid p whole w =
    let known = rule_scope-dedupe own rule prot.namespace in
    elim (Bool-cases (contains (scope_of own rule) prot.namespace)) [
      | inr outside ↦ ground (arith, known, outside)
      | inl inside ↦ elim (Bool-cases (allows a (render (compiled_rule false rule)))) [
        | inr refused ↦ ground (arith, refused)
        | inl allowed ↦
            let found = granted-collision own rule prot a p whole w inside allowed in
            let none =
              rule_collisions-nil own rule mem (
                collisions-nil own protected m (granted-mutates own rule prot a w allowed) valid) in
            absurd (ground (arith, found, none))
      ]
    ]

role_unwritable :
    (profile : AuthorityProfile) (identity : String) (p : Plan) (prot : ProtectedResource)
    (a : Action)
    → compile_profile profile identity ≡ ok p
    → is_nil (validate_profile_rules profile) ≡ true
    → all plain_rule profile.agent.rules ≡ true
    → has_slash prot.resource ≡ false
    → Memᴰ prot profile.protected
    → IsWriteOn prot a
    → any (allows a) (get_list prot.namespace (roles_by_namespace p)) ≡ false
unfolding roles_by_namespace validate_profile_rules stays_away any get_list compiled_rule
role_unwritable profile identity p prot a made valid slashless whole mem w =
    let own = profile.agent.namespaces in
    let (away, same) =
      compile_profile-all (stays_away (allows a) prot.namespace (dedupe own)) profile identity
        {p = p} made
        (λ r m.
          kept_away own r prot a profile.agent.rules profile.protected m mem valid
            (all_at plain_rule m slashless) whole w)
        (λ r m. refl) in
    roles_from-Lacks (allows a) prot.namespace p.agent_namespace p.all_rules [] (rw same away) refl

-- If identityManifests renders the objects of a profile that passes ValidateProfileRules, and the resources
-- of the profile's namespaced rules and a protected resource are written without a slash, then the roles that
-- the objects bind to the agent in the namespace of the protected object hold no rule by which RBAC, its
-- wildcards included, allows an action that writes the object itself.
pub protected_unwritable :
    (profile : AuthorityProfile) (applied : List Manifest) (prot : ProtectedResource) (a : Action)
    → identity_manifests profile ≡ ok applied
    → is_nil (validate_profile_rules profile) ≡ true
    → all plain_rule profile.agent.rules ≡ true
    → has_slash prot.resource ≡ false
    → Memᴰ prot profile.protected
    → IsWriteOn prot a
    → any (allows a) (bound_rules applied agent_service_account prot.namespace) ≡ false
unfolding identity_manifests
protected_unwritable profile applied prot a made valid slashless whole mem w =
    let (p, compiled, same) =
      >>=-eq-ok (compile_profile profile "") (λ p. ok (plan_manifests profile p)) made in
    let none =
      plan_manifests-bound (allows a) prot.namespace profile p
        (role_unwritable profile "" p prot a compiled valid slashless whole mem w) in
    let rendered : plan_manifests profile p ≡ applied = ground arith in rw (← rendered) none
