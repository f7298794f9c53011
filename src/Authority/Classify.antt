-- ===== src/Authority/Classify.antt =====
-- `Classify`: the verdict of the plan on one observed action.
use evidra_bench.Base.{
  Bool, false, not, ◌&&◌, ◌||◌, ◌==◌, any, contains, is_empty, Option, none, some, if◌then◌else◌,
}
use evidra_bench.Authority.Profile.{on_denied_warning}
use evidra_bench.Authority.Rule.{
  Action, Rule, mutation_verbs, matches, ns_in, verb_allowed, action_key,
}
use evidra_bench.Authority.Compile.{Plan, ProtectedRef}

pub data Verdict : Type 0 where
  out_of_scope granted protected_violation read : Verdict

unfoldable pub protects : Action → ProtectedRef → Bool
protects a pr =
    pr.namespace == a.namespace
    && ((pr.resource == a.resource || pr.resource == action_key a)
        && ((is_empty pr.api_group || pr.api_group == a.api_group)
            && (pr.name == a.name || is_empty a.name)))

unfoldable pub protected_hit : Plan → Action → Bool
protected_hit p a = any (protects a) p.protected

unfoldable pub grants : Plan → Action → Rule → Bool
grants p a r = ns_in r a.namespace p.agent_namespace && (matches r a && verb_allowed r a.verb)

unfoldable pub is_mutating : Action → Bool
is_mutating a = contains mutation_verbs a.verb || a.verb == "*"

unfoldable pub classify : Plan → Action → Verdict
classify p a =
    if not (is_mutating a)
    then read
    else if protected_hit p a
    then protected_violation
    else if any (grants p a) p.write_rules
    then granted
    else out_of_scope

-- A nil plan has no warning policy.
unfoldable pub denied_is_warning : Option Plan → Bool
denied_is_warning none = false
denied_is_warning (some p) = p.on_denied == on_denied_warning
