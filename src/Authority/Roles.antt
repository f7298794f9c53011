-- ===== src/Authority/Roles.antt =====
-- Where the roles of a plan end up: a rule of a namespace stays in the roles of that namespace.
use evidra_bench.Base.{
  String, Bool, true, false, List, [], ◌∷◌, ◌==◌, ◌≡◌, arith, eq_iff, eq_refl, inl, inr, Memᴰ, any,
  any-append, contains, Bool-cases, append_at, get_list, get_list-append_at, if◌then◌else◌,
}
use evidra_bench.Authority.Rule.{Rule, rule_scope}
use evidra_bench.Authority.Rbac.{RbacRule, render, place, roles_from, cluster_rules_of}

-- Once a rule that passes `q` stands in the roles of `ns`, later rounds keep one there.
module _ (q : RbacRule → Bool) (ns : String) where
  abbrev pub Holds : List (String × List RbacRule) → Type 0
  Holds out = any q (get_list ns out) ≡ true

  append_at-Holds :
      (k : String) (rule : RbacRule) (out : List (String × List RbacRule))
      → Holds out
      → Holds (append_at k rule out)
  append_at-Holds k rule out h =
      rw (get_list-append_at k ns rule out)
        (ground (arith, any-append q (get_list ns out) (rule ∷ [])))

  append_at-Holds_self :
      (rule : RbacRule) (out : List (String × List RbacRule))
      → q rule ≡ true
      → Holds (append_at ns rule out)
  unfolding any
  append_at-Holds_self rule out h =
      rw
        (
          get_list-append_at ns ns rule out,
          eq_refl ns,
          any-append q (get_list ns out) (rule ∷ []),
          h,
        )
        (ground arith)

  place-Holds :
      (rule : RbacRule) (scope : List String) (out : List (String × List RbacRule))
      → Holds out
      → Holds (place rule scope out)
  unfolding place
  place-Holds rule [] out h = h
  place-Holds rule (k ∷ rest) out h =
      place-Holds rule rest (append_at k rule out) (append_at-Holds k rule out h)

  place-Holds_self :
      (rule : RbacRule) (scope : List String) (out : List (String × List RbacRule))
      → contains scope ns ≡ true
      → q rule ≡ true
      → Holds (place rule scope out)
  unfolding place contains
  place-Holds_self rule [] out h k = cc
  place-Holds_self rule (x ∷ rest) out h k = elim (Bool-cases (x == ns)) [
    | inl e ↦
        place-Holds rule rest (append_at x rule out)
          (rw ((eq_iff x ns).0 e) (append_at-Holds_self rule out k))
    | inr e ↦ place-Holds_self rule rest (append_at x rule out) (ground arith) k
  ]

  module _ (agent_ns : List String) where
    roles_from-Holds :
        (rules : List Rule) (out : List (String × List RbacRule))
        → Holds out
        → Holds (roles_from agent_ns rules out)
    unfolding roles_from
    roles_from-Holds [] out h = h
    roles_from-Holds (r ∷ rs) out h = elim (Bool-cases r.cluster) [
      | inl e ↦ simp e (roles_from-Holds rs out h)
      | inr e ↦ simp e (
          roles_from-Holds rs (place (render r) (rule_scope r agent_ns) out)
            (place-Holds (render r) (rule_scope r agent_ns) out h))
    ]

    pub roles_from-Holds_mem :
        {r : Rule} {rules : List Rule} (out : List (String × List RbacRule))
        → Memᴰ r rules
        → r.cluster ≡ false
        → contains (rule_scope r agent_ns) ns ≡ true
        → q (render r) ≡ true
        → Holds (roles_from agent_ns rules out)
    unfolding roles_from
    roles_from-Holds_mem {r} out (Memᴰ.head {x = x} {xs = xs} same) local inside passes =
        rw (← same) (
          simp local (
            roles_from-Holds xs (place (render r) (rule_scope r agent_ns) out)
              (place-Holds_self (render r) (rule_scope r agent_ns) out inside passes)))
    roles_from-Holds_mem out (Memᴰ.tail {x = x} {xs = xs} m) local inside passes =
        roles_from-Holds_mem
          (if x.cluster then out else place (render x) (rule_scope x agent_ns) out) m local inside
          passes

pub cluster_rules_of-mem :
    (q : RbacRule → Bool) {r : Rule} {rules : List Rule}
    → Memᴰ r rules
    → r.cluster ≡ true
    → q (render r) ≡ true
    → any q (cluster_rules_of rules) ≡ true
unfolding cluster_rules_of any
cluster_rules_of-mem q (Memᴰ.head {xs = xs} same) wide passes = rw (← same) (simp (wide, passes))
cluster_rules_of-mem q (Memᴰ.tail {x = x} m) wide passes = elim (Bool-cases x.cluster) [
  | inl e ↦ simp e (ground (arith, cluster_rules_of-mem q m wide passes))
  | inr e ↦ simp e (cluster_rules_of-mem q m wide passes)
]
