-- ===== src/Authority/Rbac.antt =====
-- RBAC materialisation: what the API server is told to allow.
use evidra_bench.Base.{
  concat, is_empty, String, Bool, not, ◌&&◌, ◌||◌, List, [], ◌∷◌, ◌++◌, ◌==◌, any, contains, is_nil,
  select, append_at, if◌then◌else◌,
}
use evidra_bench.Authority.Rule.{
  Action, Rule, escalation_verbs, rule_scope, group_covers, action_key,
}
use evidra_bench.Authority.Compile.{Plan, sort_strings}

pub record RbacRule : Type 0 where
  pub api_groups : List String
  pub resources : List String
  pub resource_names : List String
  pub verbs : List String

abbrev pub safe_wildcard_verbs : List String
safe_wildcard_verbs = "create" ∷ "delete" ∷ "get" ∷ "list" ∷ "patch" ∷ "update" ∷ "watch" ∷ []

-- The resources, then each pair that is not there yet.
unfoldable pub add_missing : List String → List String → List String
add_missing out [] = out
add_missing out (sp ∷ rest) = add_missing (if contains out sp then out else out ++ (sp ∷ [])) rest

unfoldable pub is_star : String → Bool
is_star v = v == "*"

unfoldable pub not_escalation : String → Bool
not_escalation v = not (contains escalation_verbs v)

-- The loop breaks at the first star, and what it gathered is then replaced.
unfoldable pub rendered_verbs : List String → List String
rendered_verbs verbs =
    if any is_star verbs then sort_strings safe_wildcard_verbs else select not_escalation verbs

unfoldable pub render : Rule → RbacRule
render r = record {
  api_groups = r.api_groups;
  resources = sort_strings (add_missing r.resources r.subresources);
  resource_names = r.resource_names;
  verbs = rendered_verbs r.verbs;
}

unfoldable pub place :
    RbacRule → List String → List (String × List RbacRule) → List (String × List RbacRule)
place rule [] out = out
place rule (ns ∷ rest) out = place rule rest (append_at ns rule out)

unfoldable pub roles_from :
    List String → List Rule → List (String × List RbacRule) → List (String × List RbacRule)
roles_from agent_ns [] out = out
roles_from agent_ns (r ∷ rs) out =
    roles_from agent_ns rs (if r.cluster then out else place (render r) (rule_scope r agent_ns) out)

unfoldable pub roles_by_namespace : Plan → List (String × List RbacRule)
roles_by_namespace p = roles_from p.agent_namespace p.all_rules []

unfoldable pub cluster_rules_of : List Rule → List RbacRule
cluster_rules_of [] = []
cluster_rules_of (r ∷ rs) =
    if r.cluster then render r ∷ cluster_rules_of rs else cluster_rules_of rs

unfoldable pub cluster_role_rules : Plan → List RbacRule
cluster_role_rules p = cluster_rules_of p.all_rules

-- A rendered rule lists the request itself, without wildcards of verbs or resources: less than RBAC allows.
unfoldable pub permits : Action → RbacRule → Bool
permits a rule =
    contains rule.verbs a.verb
    && (contains rule.resources (action_key a)
        && (any (group_covers a.api_group) rule.api_groups
            && (is_nil rule.resource_names || contains rule.resource_names a.name)))

-- The resource lists of RBAC: a star, the resource with its subresource, or a star with the subresource.
unfoldable pub lists_resource : Action → List String → Bool
lists_resource a resources =
    contains resources "*"
    || (contains resources (action_key a)
        || (not (is_empty a.subresource)
            && contains resources (concat ("*/" ∷ a.subresource ∷ []))))

-- When RBAC allows a request by a rule, wildcards included.
unfoldable pub allows : Action → RbacRule → Bool
allows a rule =
    (contains rule.verbs "*" || contains rule.verbs a.verb)
    && (lists_resource a rule.resources
        && (any (group_covers a.api_group) rule.api_groups
            && (is_nil rule.resource_names || contains rule.resource_names a.name)))
