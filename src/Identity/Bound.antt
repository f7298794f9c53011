-- ===== src/Identity/Bound.antt =====
-- What the objects that pkg/environment/identity.go applies allow a service account in a namespace: the rules
-- of the roles that a binding of the namespace ties to it.
use evidra_bench.Base.{
  String, Bool, true, false, not, ◌&&◌, List, [], ◌∷◌, ◌++◌, Option, none, some, ◌==◌, ◌≡◌, refl,
  sym, ap, ◌∙◌, arith, inl, inr, Bool-cases, all, all-append, any, any-append, concat, contains,
  get_list, has_prefix, eq_iff, if◌then◌else◌, select,
}
use Prim.Native.String
use Prim.Native.String.append
use evidra_bench.Authority.Profile.{AuthorityProfile}
use evidra_bench.Authority.Compile.{Plan, sort_strings}
use evidra_bench.Authority.Rbac.{RbacRule, roles_by_namespace, cluster_role_rules}
use evidra_bench.Identity.Manifests.{
  Manifest, object, role_object, role_binding, cluster_role, cluster_role_binding, agent_roles,
  agent_cluster, evidence_roles, evidence_cluster, evidence_rules, evidence_namespaces,
  evidence_role, role_namespaces, plan_manifests, dns_label, ev_resources, is_widened,
  agent_service_account,
}

unfoldable pub refers : String → Option (String × String) → Bool
refers name none = false
refers name (some (kind, role)) = kind == "Role" && role == name

-- The object ties the role of this name to the account, in the namespace.
unfoldable pub binds : String → String → String → Manifest → Bool
binds sa ns name m =
    m.kind == "RoleBinding"
    && (m.namespace == ns && (refers name m.role_ref && contains m.subjects sa))

unfoldable pub is_bound : List Manifest → String → String → Manifest → Bool
is_bound applied sa ns m =
    m.kind == "Role" && (m.namespace == ns && any (binds sa ns m.name) applied)

unfoldable pub bound_from : List Manifest → String → String → List Manifest → List RbacRule
bound_from applied sa ns [] = []
bound_from applied sa ns (m ∷ rest) =
    let more = bound_from applied sa ns rest in
    if is_bound applied sa ns m then m.rules ++ more else more

-- All rules that the account has in the namespace.
unfoldable pub bound_rules : List Manifest → String → String → List RbacRule
bound_rules applied sa ns = bound_from applied sa ns applied

has_prefix-append : (p s : String) → has_prefix (String.◌++◌ p s) p ≡ true
unfolding has_prefix
has_prefix-append String.[] s = refl
has_prefix-append (String.◌∷◌ c p) s =
    ap (λ t. has_prefix t (String.◌∷◌ c p)) (append.cons c p s)
    ∙ ground (arith, has_prefix-append p s)

-- An agent's role never has the name of the evidence reader's.
other_name :
    (label : String) → (concat ("evidra-agent-role-" ∷ label ∷ []) == evidence_role) ≡ false
unfolding has_prefix concat
other_name label = elim (Bool-cases (concat ("evidra-agent-role-" ∷ label ∷ []) == evidence_role)) [
  | inr apart ↦ apart
  | inl same ↦
      let agents = has_prefix-append "evidra-agent-role-" label in
      let reader : has_prefix evidence_role "evidra-agent-role-" ≡ true =
        ap (λ t. has_prefix t "evidra-agent-role-")
          (sym ((eq_iff (concat ("evidra-agent-role-" ∷ label ∷ [])) evidence_role).0 same))
        ∙ agents in
      cc
]

module _ (q : RbacRule → Bool) (ns : String) where
  unfoldable pub is_harmless : List Manifest → Manifest → Bool
  is_harmless applied m = not (is_bound applied agent_service_account ns m && any q m.rules)

  bound_from-harmless :
      (applied ms : List Manifest)
      → all (is_harmless applied) ms ≡ true
      → any q (bound_from applied agent_service_account ns ms) ≡ false
  unfolding bound_from all any is_harmless
  bound_from-harmless applied [] h = refl
  bound_from-harmless applied (m ∷ ms) h =
      let later = bound_from-harmless applied ms (ground (arith, h)) in
      elim (Bool-cases (is_bound applied agent_service_account ns m)) [
        | inr loose ↦ simp loose later
        | inl tied ↦ simp tied (
            any-append q m.rules (bound_from applied agent_service_account ns ms)
            ∙ ground (arith, h, tied, later))
      ]

  module _ (roles : List (String × List RbacRule)) where
    agent_roles-harmless :
        (applied : List Manifest) (names : List String)
        → any q (get_list ns roles) ≡ false
        → all (is_harmless applied) (agent_roles roles names) ≡ true
    unfolding agent_roles all is_harmless is_bound role_object role_binding object
    agent_roles-harmless applied [] h = refl
    agent_roles-harmless applied (k ∷ names) h =
        let later = agent_roles-harmless applied names h in
        elim (Bool-cases (k == ns)) [
          | inr other ↦ simp other later
          | inl here ↦
              let none : any q (get_list k roles) ≡ false =
                ap (λ n. any q (get_list n roles)) ((eq_iff k ns).0 here) ∙ h in
              ground (arith, none, later)
        ]

    agent_roles-unread :
        (names : List String)
        → any (binds agent_service_account ns evidence_role) (agent_roles roles names) ≡ false
    unfolding agent_roles any binds refers role_object role_binding object contains
    agent_roles-unread [] = refl
    agent_roles-unread (k ∷ names) =
        simp (other_name (dns_label k)) (ground (arith, agent_roles-unread names))

  evidence_roles-unread :
      (rules : List RbacRule) (names : List String)
      → any (binds agent_service_account ns evidence_role) (evidence_roles rules names) ≡ false
  unfolding evidence_roles any binds refers role_object role_binding object contains
  evidence_roles-unread rules [] = refl
  evidence_roles-unread rules (k ∷ names) = ground (arith, evidence_roles-unread rules names)

  evidence_roles-harmless :
      (applied : List Manifest) (rules : List RbacRule) (names : List String)
      → any (binds agent_service_account ns evidence_role) applied ≡ false
      → all (is_harmless applied) (evidence_roles rules names) ≡ true
  unfolding evidence_roles all is_harmless is_bound role_object role_binding object
  evidence_roles-harmless applied rules [] h = refl
  evidence_roles-harmless applied rules (k ∷ names) h =
      ground (arith, h, evidence_roles-harmless applied rules names h)

  agent_cluster-harmless :
      (applied : List Manifest) (rules : List RbacRule)
      → all (is_harmless applied) (agent_cluster rules) ≡ true
  unfolding agent_cluster all is_harmless is_bound cluster_role cluster_role_binding object
  agent_cluster-harmless applied [] = refl
  agent_cluster-harmless applied (r ∷ rules) = refl

  agent_cluster-unread :
      (rules : List RbacRule)
      → any (binds agent_service_account ns evidence_role) (agent_cluster rules) ≡ false
  unfolding agent_cluster any binds cluster_role cluster_role_binding object
  agent_cluster-unread [] = refl
  agent_cluster-unread (r ∷ rules) = refl

  evidence_cluster-harmless :
      (applied : List Manifest) (resources : List String)
      → all (is_harmless applied) (evidence_cluster resources) ≡ true
  unfolding evidence_cluster all is_harmless is_bound cluster_role cluster_role_binding object
  evidence_cluster-harmless applied [] = refl
  evidence_cluster-harmless applied (r ∷ resources) = refl

  evidence_cluster-unread :
      (resources : List String)
      → any (binds agent_service_account ns evidence_role) (evidence_cluster resources) ≡ false
  unfolding evidence_cluster any binds cluster_role cluster_role_binding object
  evidence_cluster-unread [] = refl
  evidence_cluster-unread (r ∷ resources) = refl

  module _ (profile : AuthorityProfile) (p : Plan) where
    abbrev roles : List (String × List RbacRule)
    roles = roles_by_namespace p

    abbrev names : List String
    names = sort_strings (role_namespaces roles)

    abbrev reader : List Manifest
    reader = evidence_roles (evidence_rules profile) (evidence_namespaces profile)

    abbrev widened : List String
    widened = select is_widened (ev_resources profile)

    plan_manifests-unread :
        any (binds agent_service_account ns evidence_role) (plan_manifests profile p) ≡ false
    unfolding plan_manifests any binds object
    plan_manifests-unread =
        let reads = binds agent_service_account ns evidence_role in
        let wide = cluster_role_rules p in
        ground (
          arith,
          any-append reads (agent_roles roles names)
              (agent_cluster wide ++ (reader ++ evidence_cluster widened)),
          any-append reads (agent_cluster wide) (reader ++ evidence_cluster widened),
          any-append reads reader (evidence_cluster widened),
          agent_roles-unread roles names,
          agent_cluster-unread wide,
          evidence_roles-unread (evidence_rules profile) (evidence_namespaces profile),
          evidence_cluster-unread widened,
        )

    plan_manifests-harmless :
        any q (get_list ns roles) ≡ false
        → all (is_harmless (plan_manifests profile p)) (plan_manifests profile p) ≡ true
    unfolding plan_manifests all is_harmless is_bound object
    plan_manifests-harmless h =
        let applied = plan_manifests profile p in
        let safe = is_harmless applied in
        let wide = cluster_role_rules p in
        ground (
          arith,
          all-append safe (agent_roles roles names)
              (agent_cluster wide ++ (reader ++ evidence_cluster widened)),
          all-append safe (agent_cluster wide) (reader ++ evidence_cluster widened),
          all-append safe reader (evidence_cluster widened),
          agent_roles-harmless roles applied names h,
          agent_cluster-harmless applied wide,
          evidence_roles-harmless applied (evidence_rules profile) (evidence_namespaces profile)
              plan_manifests-unread,
          evidence_cluster-harmless applied widened,
        )

    -- What no rule of the plan's role for a namespace allows, the agent is not bound to there.
    pub plan_manifests-bound :
        any q (get_list ns roles) ≡ false
        → any q (bound_rules (plan_manifests profile p) agent_service_account ns) ≡ false
    unfolding bound_rules
    plan_manifests-bound h =
        bound_from-harmless (plan_manifests profile p) (plan_manifests profile p)
          (plan_manifests-harmless h)
