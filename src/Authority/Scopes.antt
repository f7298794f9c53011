-- ===== src/Authority/Scopes.antt =====
-- The scopes that a plan gives to the snapshots, and its description: `WritableKinds`,
-- `WritableScopes`, `ProtectedKinds` and `Describe` of pkg/authority/plan.go. A Go set is the list of
-- what was put into it.
use evidra_bench.Base.{
  String, List, [], ◌∷◌, ◌++◌, map, Option, none, some, concat, join, is_nil, if◌then◌else◌,
}
use evidra_bench.Authority.Rule.{Rule}
use evidra_bench.Authority.Compile.{Plan, ProtectedRef}

unfoldable pub kinds_of : List Rule → List String
kinds_of [] = []
kinds_of (r ∷ rs) = r.resources ++ kinds_of rs

unfoldable pub writable_kinds : Plan → List String
writable_kinds p = kinds_of p.write_rules

unfoldable pub scope_key : String → String → String
scope_key ns res = concat (ns ∷ "/" ∷ res ∷ [])

unfoldable pub diff_scope : List String → Rule → List String
diff_scope agent_ns r =
    if is_nil (if r.cluster then "" ∷ [] else r.namespaces)
    then agent_ns
    else if r.cluster
    then "" ∷ []
    else r.namespaces

unfoldable pub scopes_in : List String → List String → List String
scopes_in resources [] = []
scopes_in resources (ns ∷ rest) = map (scope_key ns) resources ++ scopes_in resources rest

unfoldable pub scopes_of : List String → List Rule → List String
scopes_of agent_ns [] = []
scopes_of agent_ns (r ∷ rs) = scopes_in r.resources (diff_scope agent_ns r) ++ scopes_of agent_ns rs

unfoldable pub writable_scopes : Plan → List String
writable_scopes p = scopes_of p.agent_namespace p.write_rules

unfoldable pub protected_kind : ProtectedRef → String
protected_kind pr = scope_key pr.namespace pr.resource

unfoldable pub protected_kinds : Plan → List String
protected_kinds p = map protected_kind p.protected

unfoldable pub scope_text : Plan → Rule → String
scope_text p r =
    if r.cluster
    then "cluster"
    else if is_nil r.namespaces
    then join "," p.agent_namespace
    else join "," r.namespaces

unfoldable pub rule_line : Plan → Rule → String
rule_line p r = concat (
    "agent: verbs=["
    ∷ join "," r.verbs
    ∷ "] on "
    ∷ join "," r.resources
    ∷ (if is_nil r.subresources then "" else concat (" + " ∷ join "," r.subresources ∷ []))
    ∷ " (groups=["
    ∷ join "," r.api_groups
    ∷ "]) names=["
    ∷ (if is_nil r.resource_names then "*" else join "," r.resource_names)
    ∷ "] ns=["
    ∷ scope_text p r
    ∷ "]"
    ∷ [])

-- `quote` is the verb %q of fmt.
unfoldable pub protected_line : (String → String) → ProtectedRef → String
protected_line quote pr = concat (
    "protected: "
    ∷ pr.namespace
    ∷ "/"
    ∷ pr.resource
    ∷ "/"
    ∷ pr.name
    ∷ " (group "
    ∷ quote pr.api_group
    ∷ ")"
    ∷ [])

unfoldable pub describe : (String → String) → Option Plan → List String
describe quote none = []
describe quote (some p) = map (rule_line p) p.all_rules ++ map (protected_line quote) p.protected
