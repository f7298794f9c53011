-- ===== src/Authority/Tests.antt =====
-- The theorems on pkg/authority at a profile with one namespaced and one cluster-wide rule.
use evidra_bench.Base.{
  cut, true, false, [], ◌∷◌, ◌≡◌, refl, none, ok, any, all, contains, has_slash, before_slash,
  concat, equal_fold,
}
use evidra_bench.Authority.Profile.{AuthorityProfile, PolicyRule}
use evidra_bench.Authority.Rule.{
  Action, Rule, mutation_verbs, verb_allowed, verb_covers, matches, resource_matches, name_matches,
  group_allowed, group_covers, action_key, ns_in, rule_scope,
}
use evidra_bench.Authority.Compile.{
  Plan, compile_profile, effective_on_denied, compile_rules, compile_rule, check_namespaces,
  first_outside, check_subresources, first_orphan, compiled_rule, subresource_pairs, sort_strings,
  dedupe, slash_forms, listed_pairs, base_resources, add_rule, base_resources_from, dedupe_from,
  initial_plan, insert_sorted, norm_groups, pairs_of, writes,
}
use evidra_bench.Authority.Scopes.{scope_key, writable_scopes}
use evidra_bench.Authority.Surface.{granted-writable}
use evidra_bench.Authority.Classify.{classify, granted, is_mutating, protected_hit, grants}
use evidra_bench.Authority.Rbac.{permits, render}
use evidra_bench.Authority.Invariant.{IsCompiled, rules_of, compile_profile-IsCompiled}
use evidra_bench.Authority.Loader.{
  validate_profile, or_else, first_error_at, check_on_denied, check_rule, placed, rule_error,
  validate_policy_rule, first_error, check_verb, is_canonical_verb, check_resource, check_pair,
  check_subresource, check_cluster_rule, cluster_rule_error, check_impersonation,
}
use evidra_bench.Authority.Admission.{
  all_canonical, validate_profile-compiles, loaded_granted_permitted,
}
use evidra_bench.Authority.Lockstep.{is_canonical, effective_rules, star_drops_deletecollection}

abbrev deployments : PolicyRule
deployments = record {
  api_groups = "apps" ∷ [];
  resources = "deployments" ∷ [];
  resource_names = [];
  subresources = "scale" ∷ [];
  namespaces = [];
  verbs = "get" ∷ "patch" ∷ [];
}

abbrev nodes : PolicyRule
nodes = record {
  api_groups = [];
  resources = "nodes" ∷ [];
  resource_names = [];
  subresources = [];
  namespaces = [];
  verbs = "*" ∷ [];
}

abbrev profile : AuthorityProfile
profile = record {
  agent = record {
    namespaces = "shop" ∷ [];
    rules = deployments ∷ [];
    cluster_scoped_rules = nodes ∷ [];
    on_denied = "";
  };
  protected = [];
  forbidden_changes = [];
  evidence_reader = record { namespaces = []; resources = []; extra = [] };
  allow_impersonation = false;
}

abbrev deployments_rule : Rule
deployments_rule = record {
  api_groups = "apps" ∷ [];
  resources = "deployments" ∷ [];
  subresources = "deployments/scale" ∷ [];
  resource_names = [];
  namespaces = [];
  verbs = "get" ∷ "patch" ∷ [];
  cluster = false;
}

abbrev nodes_rule : Rule
nodes_rule = record {
  api_groups = "" ∷ [];
  resources = "nodes" ∷ [];
  subresources = [];
  resource_names = [];
  namespaces = [];
  verbs = "*" ∷ [];
  cluster = true;
}

abbrev plan : Plan
plan = record {
  agent_identity = "agent";
  agent_namespace = "shop" ∷ [];
  write_rules = deployments_rule ∷ nodes_rule ∷ [];
  all_rules = deployments_rule ∷ nodes_rule ∷ [];
  cluster_rules = nodes_rule ∷ [];
  protected = [];
  on_denied = "unsafe";
}

compiled : compile_profile profile "agent" ≡ ok plan
unfolding compile_profile effective_on_denied compile_rules compile_rule check_namespaces
    first_outside check_subresources first_orphan compiled_rule subresource_pairs sort_strings
    dedupe slash_forms has_slash listed_pairs contains base_resources add_rule base_resources_from
    dedupe_from initial_plan insert_sorted norm_groups pairs_of writes any before_slash concat
compiled = refl

abbrev scale : Action
scale = record {
  user = "agent";
  verb = "patch";
  resource = "deployments";
  namespace = "shop";
  name = "web";
  api_group = "apps";
  subresource = "scale";
}

compile_profile-IsCompiled_example : IsCompiled plan × (plan.all_rules ≡ rules_of profile)
compile_profile-IsCompiled_example = compile_profile-IsCompiled profile "agent" plan compiled

canonical : all is_canonical plan.all_rules ≡ true
unfolding all is_canonical contains
canonical = refl

patch_mutates : contains mutation_verbs "patch" ≡ true
unfolding contains
patch_mutates = refl

scale_granted : classify plan scale ≡ granted
unfolding classify is_mutating protected_hit any grants ns_in rule_scope contains matches
    resource_matches action_key concat group_allowed group_covers name_matches verb_allowed
    verb_covers equal_fold
scale_granted = refl

scale-matches : matches deployments_rule scale ≡ true
unfolding matches any resource_matches contains action_key concat group_allowed group_covers
    name_matches
scale-matches = refl

patch_allowed : verb_allowed deployments_rule "patch" ≡ true
unfolding verb_allowed any verb_covers equal_fold
patch_allowed = refl

rule_canonical : is_canonical deployments_rule ≡ true
unfolding all is_canonical contains
rule_canonical = refl

abbrev star_rule : Rule
star_rule = record deployments_rule { verbs = "*" ∷ "deletecollection" ∷ [] }

lists_star : contains star_rule.verbs "*" ≡ true
unfolding contains
lists_star = refl

lists_collection : contains star_rule.verbs "deletecollection" ≡ true
unfolding contains
lists_collection = refl

star_drops_deletecollection_example :
    (verb_allowed star_rule "deletecollection" ≡ true)
    × (contains (render star_rule).verbs "deletecollection" ≡ false)
star_drops_deletecollection_example =
    star_drops_deletecollection star_rule lists_star lists_collection

loads : validate_profile profile ≡ none
unfolding validate_profile or_else first_error_at check_on_denied check_rule placed rule_error
    validate_policy_rule first_error check_verb is_canonical_verb contains check_resource check_pair
    cut check_subresource has_slash check_cluster_rule cluster_rule_error check_impersonation
loads = refl

validate_profile-compiles_example :
    (p : Plan) × (compile_profile profile "agent" ≡ ok p) × (all_canonical p ≡ true)
validate_profile-compiles_example = validate_profile-compiles profile "agent" loads

loaded_granted_permitted_example : any (permits scale) (effective_rules plan "shop") ≡ true
loaded_granted_permitted_example =
    loaded_granted_permitted profile "agent" plan scale loads compiled patch_mutates refl
      scale_granted

abbrev whole : Action
whole = record scale { subresource = "" }

whole_granted : classify plan whole ≡ granted
unfolding classify is_mutating protected_hit any grants ns_in rule_scope contains matches
    resource_matches action_key concat group_allowed group_covers name_matches verb_allowed
    verb_covers equal_fold
whole_granted = refl

granted-writable_example : contains (writable_scopes plan) (scope_key "shop" "deployments") ≡ true
granted-writable_example = granted-writable plan whole whole_granted refl
