-- ===== src/Identity/Grants.antt =====
-- A grant of a write on a protected object is one that ValidateProfileRules of pkg/environment/identity.go
-- looks for: what the rules of pkg/authority/plan.go grant, against what the profile says.
use evidra_bench.Base.{
  is_empty, String, Bool, true, false, ◌||◌, List, [], ◌∷◌, ◌==◌, ◌≡◌, refl, sym, ap, ◌∙◌, arith,
  inl, inr, Bool-cases, eq_iff, all, any, contains, has_slash, is_nil, select,
}
use evidra_bench.Authority.Profile.{PolicyRule, ProtectedResource}
use evidra_bench.Authority.Rule.{Action, rule_scope, action_key}
use evidra_bench.Authority.Compile.{
  compiled_rule, dedupe, dedupe_from, base_resources, subresource_pairs,
}
use evidra_bench.Authority.Rbac.{
  render, rendered_verbs, is_star, not_escalation, allows, lists_resource, add_missing,
}
use evidra_bench.Authority.Sets.{contains-dedupe, contains-sort_strings, contains-add_missing}
use evidra_bench.Identity.Collisions.{read_verbs, mutates_by, scope_of, reaches, collision_of}
use evidra_bench.Identity.Slashes.{plain, base_resources-plain, subresource_pairs-slash}

-- The action writes the protected object itself.
pub record IsWriteOn (prot : ProtectedResource) (a : Action) : Type 0 where
  pub on_resource : a.resource ≡ prot.resource
  pub itself : a.subresource ≡ ""
  pub on_name : a.name ≡ prot.name
  pub writes : contains read_verbs a.verb ≡ false

contains-select :
    (p : String → Bool) (vs : List String) (v : String)
    → contains (select p vs) v ≡ true
    → contains vs v ≡ true
unfolding select contains
contains-select p [] v h = h
contains-select p (x ∷ vs) v h = elim (Bool-cases (p x)) [
  | inl kept ↦ ground (arith, h, kept, contains-select p vs v)
  | inr dropped ↦ ground (arith, h, dropped, contains-select p vs v)
]

star_contains : (vs : List String) → any is_star vs ≡ true → contains vs "*" ≡ true
unfolding any contains is_star
star_contains [] h = h
star_contains (v ∷ vs) h = ground (arith, h, star_contains vs)

mutates_contains :
    (vs : List String) (v : String)
    → contains vs v ≡ true
    → mutates_by v ≡ true
    → any mutates_by vs ≡ true
unfolding any contains
mutates_contains [] v h m = h
mutates_contains (x ∷ vs) v h m = elim (Bool-cases (x == v)) [
  | inl here ↦
      let also : mutates_by x ≡ true = ap mutates_by ((eq_iff x v).0 here) ∙ m in
      ground (arith, also)
  | inr later ↦ ground (arith, h, later, mutates_contains vs v, m)
]

-- A rendered write comes from a verb that writes.
rendered_mutates :
    (vs : List String) (v : String)
    → contains (rendered_verbs (dedupe vs)) v ≡ true
    → contains read_verbs v ≡ false
    → any mutates_by vs ≡ true
unfolding rendered_verbs mutates_by
rendered_mutates vs v h w = elim (Bool-cases (any is_star (dedupe vs))) [
  | inl starred ↦
      mutates_contains vs "*" (sym (contains-dedupe vs "*") ∙ star_contains (dedupe vs) starred)
        refl
  | inr listed ↦
      let h' = rw listed at h in
      mutates_contains vs v
        (sym (contains-dedupe vs v) ∙ contains-select not_escalation (dedupe vs) v h')
        (ground (arith, w))
]

rendered_resource :
    (rule : PolicyRule) (s : String)
    → all plain rule.resources ≡ true
    → has_slash s ≡ false
    → contains (render (compiled_rule false rule)).resources s ≡ true
    → contains rule.resources s ≡ true
unfolding render compiled_rule
rendered_resource rule s p whole h =
    let bases = base_resources rule.resources in
    let pairs = subresource_pairs rule.resources rule.subresources in
    let either : (contains bases s || contains pairs s) ≡ true =
      sym (contains-add_missing bases pairs s)
      ∙ (sym (contains-sort_strings (add_missing bases pairs) s) ∙ h) in
    elim (Bool-cases (contains bases s)) [
      | inl base ↦ base_resources-plain rule.resources s p base
      | inr other ↦
          let slashed =
            subresource_pairs-slash rule.resources rule.subresources s
              (ground (arith, either, other)) in
          ground (arith, slashed, whole)
    ]

nil_dedupe : (xs : List String) → is_nil (dedupe xs) ≡ is_nil xs
unfolding dedupe dedupe_from contains
nil_dedupe [] = refl
nil_dedupe (x ∷ xs) = refl

pub rule_scope-dedupe :
    (agent_ns : List String) (rule : PolicyRule) (s : String)
    → contains (rule_scope (compiled_rule false rule) (dedupe agent_ns)) s
      ≡ contains (scope_of agent_ns rule) s
unfolding rule_scope scope_of compiled_rule
rule_scope-dedupe agent_ns rule s = ground (
  arith,
  nil_dedupe rule.namespaces,
  contains-dedupe rule.namespaces s,
  contains-dedupe agent_ns s,
)

named_dedupe :
    (names : List String) (s : String)
    → (is_nil (dedupe names) || contains (dedupe names) s) ≡ (is_nil names || contains names s)
named_dedupe names s = rw (nil_dedupe names, contains-dedupe names s)

star_plain : has_slash "*" ≡ false
unfolding has_slash
star_plain = refl

star_writes : contains read_verbs "*" ≡ false
unfolding contains
star_writes = refl

-- A grant of a write on a protected object is what the validation looks for.
module _ (agent_ns : List String) (rule : PolicyRule) (prot : ProtectedResource) (a : Action) where
  abbrev granted : Bool
  granted = allows a (render (compiled_rule false rule))

  on_object : IsWriteOn prot a → action_key a ≡ prot.resource
  unfolding action_key
  on_object w = rw (w.itself) (w.on_resource)

  granted-named :
      IsWriteOn prot a
      → granted ≡ true
      → (is_nil rule.resource_names || contains rule.resource_names prot.name) ≡ true
  unfolding allows render compiled_rule
  granted-named w h =
      let narrowed : (is_nil (dedupe rule.resource_names)
            || contains (dedupe rule.resource_names) a.name)
          ≡ true =
        ground (arith, h) in
      ap (λ n. is_nil rule.resource_names || contains rule.resource_names n) (sym w.on_name)
      ∙ (sym (named_dedupe rule.resource_names a.name) ∙ narrowed)

  granted-listed :
      all plain rule.resources ≡ true
      → has_slash prot.resource ≡ false
      → IsWriteOn prot a
      → granted ≡ true
      → (contains rule.resources prot.resource || contains rule.resources "*") ≡ true
  unfolding allows lists_resource
  granted-listed p whole w h =
      let rendered = (render (compiled_rule false rule)).resources in
      let listed : lists_resource a rendered ≡ true = ground (arith, h) in
      let alone : is_empty a.subresource ≡ true = ap is_empty w.itself in
      let either : (contains rendered "*" || contains rendered prot.resource) ≡ true =
        ground (arith, listed, on_object w, alone) in
      elim (Bool-cases (contains rendered "*")) [
        | inl star ↦ ground (arith, rendered_resource rule "*" p star_plain star)
        | inr other ↦
            ground
              (arith, rendered_resource rule prot.resource p whole (ground (arith, either, other)))
      ]

  pub granted-collision :
      all plain rule.resources ≡ true
      → has_slash prot.resource ≡ false
      → IsWriteOn prot a
      → contains (scope_of agent_ns rule) prot.namespace ≡ true
      → granted ≡ true
      → is_nil (collision_of agent_ns rule prot) ≡ false
  unfolding collision_of reaches
  granted-collision p whole w inside h =
      let named = granted-named w h in
      let listed = granted-listed p whole w h in ground (arith, listed, inside, named)

  pub granted-mutates : IsWriteOn prot a → granted ≡ true → any mutates_by rule.verbs ≡ true
  unfolding allows render compiled_rule
  granted-mutates w h = elim (Bool-cases (contains (rendered_verbs (dedupe rule.verbs)) "*")) [
    | inl star ↦ rendered_mutates rule.verbs "*" star star_writes
    | inr other ↦ rendered_mutates rule.verbs a.verb (ground (arith, h, other)) w.writes
  ]
