-- ===== src/Authority/Loader.antt =====
-- What the loader demands of an authority profile: `validateAuthorityProfile` of
-- pkg/scenario/authority.go.
use evidra_bench.Base.{
  String, ℕ, ◌+◌, Bool, true, false, not, ◌&&◌, ◌||◌, List, [], ◌∷◌, ◌++◌, Option, none, some, ◌==◌,
  any, contains, is_nil, is_empty, is_blank, has_slash, cut, if◌then◌else◌,
}
use evidra_bench.Json.{Json, null}
use evidra_bench.Authority.Profile.{
  AuthorityProfile, ForbiddenFieldChange, PolicyRule, ProtectedResource, canonical_rbac_verbs,
  on_denied_unsafe, on_denied_warning,
}

pub data RuleError : Type 0 where
  verbs_required empty_resource cluster_namespaces : RuleError
  bad_verb bad_resource bad_subresource outside_agent : String → RuleError

pub data ChangeError : Type 0 where
  incomplete_change inexact_change blank_field set_without_value protected_target : ChangeError
  bad_change : String → ChangeError

-- With the place of the rule, entry or change.
pub data LoadError : Type 0 where
  bad_on_denied : String → LoadError
  in_rule in_cluster_rule : ℕ → RuleError → LoadError
  incomplete_protected empty_extra : ℕ → LoadError
  bad_extra_verb : ℕ → String → LoadError
  in_change : ℕ → ChangeError → LoadError
  no_impersonation : LoadError

-- The first error of a sequence of checks.
unfoldable pub or_else {κ} : {E : Type κ} → Option E → Option E → Option E
or_else none later = later
or_else (some e) later = some e

module _ {ℓ κ} {A : Type ℓ} {E : Type κ} where
  unfoldable pub first_error : (A → Option E) → List A → Option E
  first_error check [] = none
  first_error check (x ∷ xs) = or_else (check x) (first_error check xs)

  unfoldable pub first_error_at : (ℕ → A → Option E) → ℕ → List A → Option E
  first_error_at check i [] = none
  first_error_at check i (x ∷ xs) = or_else (check i x) (first_error_at check (i + 1) xs)

unfoldable pub is_canonical_verb : String → Bool
is_canonical_verb v = contains canonical_rbac_verbs v

unfoldable pub check_verb : String → Option RuleError
check_verb v = if is_canonical_verb v then none else some (bad_verb v)

unfoldable pub check_pair : String → Option (String × String) → Option RuleError
check_pair res none = none
check_pair res (some (base, sub)) =
    if is_empty base || (is_empty sub || has_slash sub) then some (bad_resource res) else none

unfoldable pub check_resource : String → Option RuleError
check_resource res = if is_empty res then some empty_resource else check_pair res (cut 47 res)

unfoldable pub check_subresource : String → Option RuleError
check_subresource sub = if is_empty sub || has_slash sub then some (bad_subresource sub) else none

unfoldable pub validate_policy_rule : PolicyRule → Option RuleError
validate_policy_rule r =
    if is_nil r.verbs
    then some verbs_required
    else or_else (first_error check_verb r.verbs) (
        or_else (first_error check_resource r.resources)
          (first_error check_subresource r.subresources))

unfoldable pub check_scope : List String → String → Option RuleError
check_scope agent_ns ns = if contains agent_ns ns then none else some (outside_agent ns)

unfoldable pub rule_error : List String → PolicyRule → Option RuleError
rule_error agent_ns r =
    or_else (validate_policy_rule r) (first_error (check_scope agent_ns) r.namespaces)

unfoldable pub cluster_rule_error : PolicyRule → Option RuleError
cluster_rule_error r =
    or_else (validate_policy_rule r) (if is_nil r.namespaces then none else some cluster_namespaces)

unfoldable pub placed : (ℕ → RuleError → LoadError) → ℕ → Option RuleError → Option LoadError
placed at i none = none
placed at i (some e) = some (at i e)

unfoldable pub check_protected : ℕ → ProtectedResource → Option LoadError
check_protected i pr =
    if is_empty pr.resource || is_empty pr.name then some (incomplete_protected i) else none

unfoldable pub check_extra_verb : ℕ → String → Option LoadError
check_extra_verb i verb = if is_canonical_verb verb then none else some (bad_extra_verb i verb)

-- `resource`, or `resource:verb`.
unfoldable pub check_extra : ℕ → String → Option LoadError
check_extra i entry = elim (cut 58 entry) [
  | none ↦ if is_blank entry then some (empty_extra i) else none
  | some (resource, verb) ↦
      if is_blank resource then some (empty_extra i) else check_extra_verb i verb
]

unfoldable pub is_null : Json → Bool
is_null null = true
is_null _ = false

unfoldable pub targets : ForbiddenFieldChange → ProtectedResource → Bool
targets f pr =
    pr.resource == f.resource && (pr.name == f.resource_name && pr.namespace == f.namespace)

unfoldable pub change_error : List ProtectedResource → ForbiddenFieldChange → Option ChangeError
change_error protected f =
    if is_empty f.resource || is_empty f.field_path
    then some incomplete_change
    else if is_empty f.resource_name || is_empty f.namespace
    then some inexact_change
    else if is_blank f.field_path
    then some blank_field
    else if f.change == "set" && is_null f.value
    then some set_without_value
    else if not (f.change == "removed") && not (f.change == "set")
    then some (bad_change f.change)
    else if any (targets f) protected
    then some protected_target
    else none

unfoldable pub check_change : List ProtectedResource → ℕ → ForbiddenFieldChange → Option LoadError
check_change protected i f = elim (change_error protected f) [
  | none ↦ none
  | some e ↦ some (in_change i e)
]

unfoldable pub impersonates : String → Bool
impersonates v = v == "impersonate" || v == "*"

unfoldable pub rule_impersonates : PolicyRule → Bool
rule_impersonates r = any impersonates r.verbs

unfoldable pub check_impersonation : AuthorityProfile → Option LoadError
check_impersonation p =
    if p.allow_impersonation
    then (if any rule_impersonates (p.agent.rules ++ p.agent.cluster_scoped_rules)
        then none
        else some no_impersonation)
    else none

unfoldable pub check_on_denied : String → Option LoadError
check_on_denied s =
    if is_empty s || (s == on_denied_unsafe || s == on_denied_warning)
    then none
    else some (bad_on_denied s)

unfoldable pub check_rule : List String → ℕ → PolicyRule → Option LoadError
check_rule agent_ns i r = placed in_rule i (rule_error agent_ns r)

unfoldable pub check_cluster_rule : ℕ → PolicyRule → Option LoadError
check_cluster_rule i r = placed in_cluster_rule i (cluster_rule_error r)

unfoldable pub validate_profile : AuthorityProfile → Option LoadError
validate_profile p = or_else (check_on_denied p.agent.on_denied) (
    or_else (first_error_at (check_rule p.agent.namespaces) 0 p.agent.rules) (
      or_else (first_error_at check_cluster_rule 0 p.agent.cluster_scoped_rules) (
        or_else (first_error_at check_protected 0 p.protected) (
          or_else (first_error_at check_extra 0 p.evidence_reader.extra) (
            or_else (first_error_at (check_change p.protected) 0 p.forbidden_changes)
              (check_impersonation p))))))
