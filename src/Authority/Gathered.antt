-- ===== src/Authority/Gathered.antt =====
-- What holds of every rule that `Compile` makes of a profile, and of the roles of one namespace.
use evidra_bench.Base.{
  String, Bool, true, false, not, ◌&&◌, ◌||◌, List, [], ◌∷◌, ◌==◌, ◌≡◌, refl, sym, ◌∙◌, arith, inl,
  inr, Memᴰ, Bool-cases, all, all-append, any, any-append, contains, append_at, get_list,
  get_list-append_at, ok, >>=-eq-ok,
}
use evidra_bench.Authority.Profile.{AuthorityProfile, PolicyRule}
use evidra_bench.Authority.Rule.{Rule, rule_scope}
use evidra_bench.Authority.Compile.{
  Plan, compiled_rule, compile_rule, compile_rules, compile_profile, add_rule, initial_plan, dedupe,
}
use evidra_bench.Authority.Rbac.{RbacRule, render, place, roles_from}
use evidra_bench.Authority.Invariant.{
  compile_rule_inv, compile_both, compile_profile_lem, legal_on_denied, ok-ne-err,
}

module _ (good : Rule → Bool) where
  compile_rules-all :
      (agent_ns : List String) (cluster : Bool) (rs : List PolicyRule) (p : Plan) {q : Plan}
      → compile_rules agent_ns cluster rs p ≡ ok q
      → ((r : PolicyRule) → Memᴰ r rs → good (compiled_rule cluster r) ≡ true)
      → all good p.all_rules ≡ true
      → (all good q.all_rules ≡ true) × (q.agent_namespace ≡ p.agent_namespace)
  unfolding compile_rules add_rule all
  compile_rules-all agent_ns cluster [] p {q} h made old =
      let e : p ≡ q = ground arith in (rw (← e) old, ground arith)
  compile_rules-all agent_ns cluster (r ∷ rs) p {q} h made old =
      let (cr, done, rest) =
        >>=-eq-ok (compile_rule agent_ns cluster r)
          (λ x. compile_rules agent_ns cluster rs (add_rule cluster x p)) h in
      let (same, checked) = compile_rule_inv agent_ns cluster r cr done in
      let rest' = rw (← same) at rest in
      compile_rules-all agent_ns cluster rs (add_rule cluster (compiled_rule cluster r) p) {q = q}
        rest' (λ x m. made x (Memᴰ.tail m))
        (ground (
          arith,
          old,
          made r (Memᴰ.head refl),
          all-append good p.all_rules (compiled_rule cluster r ∷ []),
        ))

  compile_both-all :
      (profile : AuthorityProfile) (identity : String) {p : Plan}
      → compile_both profile identity ≡ ok p
      → ((r : PolicyRule) → Memᴰ r profile.agent.rules → good (compiled_rule false r) ≡ true)
      → ((r : PolicyRule)
          → Memᴰ r profile.agent.cluster_scoped_rules
          → good (compiled_rule true r) ≡ true)
      → (all good p.all_rules ≡ true) × (p.agent_namespace ≡ dedupe profile.agent.namespaces)
  unfolding compile_both initial_plan all
  compile_both-all profile identity {p} h local wide =
      let agent_ns = dedupe profile.agent.namespaces in
      let start = initial_plan profile identity in
      let (mid, first, second) =
        >>=-eq-ok (compile_rules agent_ns false profile.agent.rules start)
          (λ x. compile_rules agent_ns true profile.agent.cluster_scoped_rules x) h in
      let (own, kept) =
        compile_rules-all agent_ns false profile.agent.rules start {q = mid} first local refl in
      let (every, kept') =
        compile_rules-all agent_ns true profile.agent.cluster_scoped_rules mid {q = p} second wide
          own in
      (every, kept' ∙ kept)

  -- What holds of the rules that compilation makes holds of the plan's.
  pub compile_profile-all :
      (profile : AuthorityProfile) (identity : String) {p : Plan}
      → compile_profile profile identity ≡ ok p
      → ((r : PolicyRule) → Memᴰ r profile.agent.rules → good (compiled_rule false r) ≡ true)
      → ((r : PolicyRule)
          → Memᴰ r profile.agent.cluster_scoped_rules
          → good (compiled_rule true r) ≡ true)
      → (all good p.all_rules ≡ true) × (p.agent_namespace ≡ dedupe profile.agent.namespaces)
  compile_profile-all profile identity {p} h local wide =
      elim (Bool-cases (legal_on_denied profile)) [
        | inl legal ↦
            compile_both-all profile identity {p = p}
              (rw legal at (sym (compile_profile_lem profile identity) ∙ h)) local wide
        | inr bad ↦ absurd (ok-ne-err (rw bad at (sym (compile_profile_lem profile identity) ∙ h)))
      ]

-- No rule that passes `q` reaches the roles of `ns`.
module _ (q : RbacRule → Bool) (ns : String) where
  abbrev pub Lacks : List (String × List RbacRule) → Type 0
  Lacks out = any q (get_list ns out) ≡ false

  append_at-Lacks :
      (k : String) (rule : RbacRule) (out : List (String × List RbacRule))
      → ((k == ns) && q rule) ≡ false
      → Lacks out
      → Lacks (append_at k rule out)
  unfolding any
  append_at-Lacks k rule out apart h =
      rw (get_list-append_at k ns rule out)
        (ground (arith, h, apart, any-append q (get_list ns out) (rule ∷ [])))

  place-Lacks :
      (rule : RbacRule) (scope : List String) (out : List (String × List RbacRule))
      → (contains scope ns && q rule) ≡ false
      → Lacks out
      → Lacks (place rule scope out)
  unfolding place contains
  place-Lacks rule [] out apart h = h
  place-Lacks rule (k ∷ rest) out apart h =
      place-Lacks rule rest (append_at k rule out) (ground (arith, apart))
        (append_at-Lacks k rule out (ground (arith, apart)) h)

  unfoldable pub stays_away : List String → Rule → Bool
  stays_away agent_ns r = r.cluster || not (contains (rule_scope r agent_ns) ns && q (render r))

  pub roles_from-Lacks :
      (agent_ns : List String) (rules : List Rule) (out : List (String × List RbacRule))
      → all (stays_away agent_ns) rules ≡ true
      → Lacks out
      → Lacks (roles_from agent_ns rules out)
  unfolding roles_from all stays_away
  roles_from-Lacks agent_ns [] out away h = h
  roles_from-Lacks agent_ns (r ∷ rs) out away h = elim (Bool-cases r.cluster) [
    | inl e ↦ simp e (roles_from-Lacks agent_ns rs out (ground (arith, away)) h)
    | inr e ↦ simp e (
        roles_from-Lacks agent_ns rs (place (render r) (rule_scope r agent_ns) out)
          (ground (arith, away))
          (place-Lacks (render r) (rule_scope r agent_ns) out (ground (arith, away, e)) h))
  ]
