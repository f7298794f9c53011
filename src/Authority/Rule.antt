-- ===== src/Authority/Rule.antt =====
-- One compiled rule of the plan, and the tests by which it covers an action.
use evidra_bench.Base.{
  String, Bool, false, not, ◌&&◌, ◌||◌, List, [], ◌∷◌, ◌==◌, any, contains, is_nil, is_empty,
  concat, equal_fold, if◌then◌else◌,
}

-- One observed API action. `subresource` is empty for the resource itself.
pub record Action : Type 0 where
  pub user : String
  pub verb : String
  pub resource : String
  pub namespace : String
  pub name : String
  pub api_group : String
  pub subresource : String

pub record Rule : Type 0 where
  pub api_groups : List String
  pub resources : List String
  pub subresources : List String
  pub resource_names : List String
  pub namespaces : List String
  pub verbs : List String
  pub cluster : Bool

-- evaluation.MutationVerbs
abbrev pub mutation_verbs : List String
mutation_verbs = "create" ∷ "update" ∷ "patch" ∷ "delete" ∷ "deletecollection" ∷ []

abbrev pub escalation_verbs : List String
escalation_verbs = "impersonate" ∷ "escalate" ∷ "bind" ∷ []

-- One round of the loop: does the listed verb `rv` cover `v`?
unfoldable pub verb_covers : String → String → Bool
verb_covers v rv =
    if rv == "*"
    then not (contains escalation_verbs v || v == "deletecollection")
    else equal_fold rv v

unfoldable pub verb_allowed : Rule → String → Bool
verb_allowed r v = any (verb_covers v) r.verbs

unfoldable pub group_covers : String → String → Bool
group_covers g ag = ag == "*" || ag == g

unfoldable pub group_allowed : List String → String → Bool
group_allowed groups g = any (group_covers g) groups

-- The base resource, or `base/sub` for an action on a subresource.
unfoldable pub action_key : Action → String
action_key a =
    if is_empty a.subresource then a.resource else concat (a.resource ∷ "/" ∷ a.subresource ∷ [])

unfoldable pub resource_matches : Rule → Action → Bool
resource_matches r a =
    let key = action_key a in
    if not (contains r.resources a.resource) && not (contains r.resources key)
    then false
    else not (
        not (is_empty a.subresource)
        && (not (contains r.resources key) && not (contains r.subresources key)))

unfoldable pub name_matches : List String → String → Bool
name_matches names name = is_nil names || (not (is_empty name) && contains names name)

unfoldable pub matches : Rule → Action → Bool
matches r a =
    resource_matches r a
    && (group_allowed r.api_groups a.api_group && name_matches r.resource_names a.name)

unfoldable pub rule_scope : Rule → List String → List String
rule_scope r agent_default = if is_nil r.namespaces then agent_default else r.namespaces

unfoldable pub ns_in : Rule → String → List String → Bool
ns_in r ns agent_default =
    if r.cluster then is_empty ns else contains (rule_scope r agent_default) ns
