-- ===== src/Authority/Surface.antt =====
-- What the matcher grants lies in the surface that the snapshots take as writable: pkg/authority/plan.go.
use evidra_bench.Base.{
  String, true, List, [], ◌∷◌, map, ◌==◌, ◌≡◌, refl, sym, subst, ◌∙◌, arith, inl, inr, any,
  contains, is_empty, Bool-cases, or_iff, eq_iff, eq_refl, contains-append, find_of_any, Memᴰ,
}
use evidra_bench.Authority.Rule.{
  Action, Rule, ns_in, rule_scope, matches, resource_matches, action_key,
}
use evidra_bench.Authority.Compile.{Plan}
use evidra_bench.Authority.Classify.{classify, granted, grants}
use evidra_bench.Authority.Scopes.{scope_key, diff_scope, scopes_in, scopes_of, writable_scopes}

-- How membership in a scope comes about.
contains-scope_keys :
    (ns res : String) (resources : List String)
    → contains resources res ≡ true
    → contains (map (scope_key ns) resources) (scope_key ns res) ≡ true
unfolding contains
contains-scope_keys ns res [] h = h
contains-scope_keys ns res (r ∷ rs) h = elim (Bool-cases (r == res)) [
  | inl same ↦
      let here : r ≡ res = (eq_iff r res).0 same in
      (or_iff _ _).1 (inl (subst (λ x. (scope_key ns r == scope_key ns x) ≡ true) here (eq_refl _)))
  | inr other ↦ (or_iff _ _).1 (inr (contains-scope_keys ns res rs (ground (arith, other, h))))
]

contains-scopes_in :
    (resources scope : List String) (ns res : String)
    → contains scope ns ≡ true
    → contains resources res ≡ true
    → contains (scopes_in resources scope) (scope_key ns res) ≡ true
unfolding contains scopes_in
contains-scopes_in resources [] ns res h m = h
contains-scopes_in resources (x ∷ xs) ns res h m =
    let apart =
      contains-append (map (scope_key x) resources) (scopes_in resources xs) (scope_key ns res) in
    elim (Bool-cases (x == ns)) [
      | inl same ↦
          let here : ns ≡ x = sym ((eq_iff x ns).0 same) in
          let found =
            subst (λ y. contains (map (scope_key y) resources) (scope_key ns res) ≡ true) here
              (contains-scope_keys ns res resources m) in
          apart ∙ (or_iff _ _).1 (inl found)
      | inr other ↦
          apart
          ∙ (or_iff _ _).1
              (inr (contains-scopes_in resources xs ns res (ground (arith, other, h)) m))
    ]

in_diff_scope :
    (r : Rule) (ns : String) (agent_ns : List String)
    → ns_in r ns agent_ns ≡ true
    → contains (diff_scope agent_ns r) ns ≡ true
unfolding ns_in diff_scope rule_scope contains
in_diff_scope r ns agent_ns h = elim (Bool-cases r.cluster) [
  | inl all ↦
      let e : is_empty ns ≡ true = ground (arith, all, h) in
      let whole : diff_scope agent_ns r ≡ "" ∷ [] = simp all refl in
      let here : contains ("" ∷ []) ns ≡ true =
        (or_iff _ _).1 (inl ((eq_iff "" ns).1 (sym ((eq_iff ns "").0 e)))) in
      subst (λ l. contains l ns ≡ true) (sym whole) here
  | inr part ↦
      let listed : diff_scope agent_ns r ≡ rule_scope r agent_ns = simp part refl in
      let found : contains (rule_scope r agent_ns) ns ≡ true = ground (arith, part, h) in
      subst (λ l. contains l ns ≡ true) (sym listed) found
]

matches_resource :
    (r : Rule) (a : Action)
    → a.subresource ≡ ""
    → matches r a ≡ true
    → contains r.resources a.resource ≡ true
unfolding matches resource_matches action_key
matches_resource r a plain h =
    let e : is_empty a.subresource ≡ true = (eq_iff a.subresource "").1 plain in
    ground (arith, e, h)

scopes_of-mem :
    (agent_ns : List String) (rules : List Rule) (r : Rule) (ns res : String)
    → Memᴰ r rules
    → contains (diff_scope agent_ns r) ns ≡ true
    → contains r.resources res ≡ true
    → contains (scopes_of agent_ns rules) (scope_key ns res) ≡ true
unfolding scopes_of
scopes_of-mem agent_ns [] r ns res none_here h m = elim none_here [ ]
scopes_of-mem agent_ns (x ∷ rules) r ns res (Memᴰ.head same) h m =
    contains-append _ _ _
    ∙ (or_iff _ _).1 (
        inl (
          subst
            (λ y.
              contains (scopes_in y.resources (diff_scope agent_ns y)) (scope_key ns res) ≡ true)
            same (contains-scopes_in r.resources (diff_scope agent_ns r) ns res h m)))
scopes_of-mem agent_ns (x ∷ rules) r ns res (Memᴰ.tail rest) h m =
    contains-append _ _ _ ∙ (or_iff _ _).1 (inr (scopes_of-mem agent_ns rules r ns res rest h m))

granted_rule :
    (p : Plan) (a : Action) → classify p a ≡ granted → any (grants p a) p.write_rules ≡ true
unfolding classify
granted_rule p a h = ground arith

-- A write to an object itself that the matcher grants is in the scopes in which the snapshots let an
-- object change.
pub granted-writable :
    (p : Plan) (a : Action)
    → classify p a ≡ granted
    → a.subresource ≡ ""
    → contains (writable_scopes p) (scope_key a.namespace a.resource) ≡ true
unfolding writable_scopes grants
granted-writable p a h plain =
    let (r, m, g) = find_of_any (grants p a) p.write_rules (granted_rule p a h) in
    let scoped : ns_in r a.namespace p.agent_namespace ≡ true = ground (arith, g) in
    let matched : matches r a ≡ true = ground (arith, g) in
    scopes_of-mem p.agent_namespace p.write_rules r a.namespace a.resource m
      (in_diff_scope r a.namespace p.agent_namespace scoped) (matches_resource r a plain matched)
