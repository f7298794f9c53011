-- ===== src/Identity/Collisions.antt =====
-- The refusal of grants on protected objects: ValidateProfileRules and readVerbs of
-- pkg/environment/identity.go. An entry of the error is a value, without its text.
use evidra_bench.Base.{
  String, Bool, not, ◌&&◌, ◌||◌, List, [], ◌∷◌, ◌++◌, ◌==◌, any, contains, is_nil, if◌then◌else◌,
}
use evidra_bench.Authority.Profile.{AuthorityProfile, PolicyRule, ProtectedResource}

abbrev pub read_verbs : List String
read_verbs = "get" ∷ "list" ∷ "watch" ∷ []

pub data Collision : Type 0 where
  wildcard_grant : PolicyRule → ProtectedResource → Collision
  explicit_grant : PolicyRule → ProtectedResource → Collision

unfoldable pub mutates_by : String → Bool
mutates_by v = v == "*" || not (contains read_verbs v)

unfoldable pub scope_of : List String → PolicyRule → List String
scope_of agent_ns rule = if is_nil rule.namespaces then agent_ns else rule.namespaces

unfoldable pub reaches : List String → PolicyRule → ProtectedResource → Bool
reaches agent_ns rule prot =
    (contains rule.resources prot.resource || contains rule.resources "*")
    && contains (scope_of agent_ns rule) prot.namespace

unfoldable pub collision_of : List String → PolicyRule → ProtectedResource → List Collision
collision_of agent_ns rule prot =
    if reaches agent_ns rule prot
    then (if is_nil rule.resource_names
        then wildcard_grant rule prot ∷ []
        else if contains rule.resource_names prot.name
        then explicit_grant rule prot ∷ []
        else [])
    else []

unfoldable pub rule_collisions : List String → PolicyRule → List ProtectedResource → List Collision
rule_collisions agent_ns rule [] = []
rule_collisions agent_ns rule (prot ∷ rest) =
    collision_of agent_ns rule prot ++ rule_collisions agent_ns rule rest

unfoldable pub collisions : List String → List PolicyRule → List ProtectedResource → List Collision
collisions agent_ns [] protected = []
collisions agent_ns (rule ∷ rules) protected =
    (if any mutates_by rule.verbs then rule_collisions agent_ns rule protected else [])
    ++ collisions agent_ns rules protected

-- What the error names; a profile passes if that is nothing.
unfoldable pub validate_profile_rules : AuthorityProfile → List Collision
validate_profile_rules profile =
    collisions profile.agent.namespaces profile.agent.rules profile.protected
