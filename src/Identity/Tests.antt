-- ===== src/Identity/Tests.antt =====
-- The theorems on pkg/environment/identity.go at a profile that protects one deployment, and runs of its
-- operations.
use evidra_bench.Base.{
  true, false, List, [], ◌∷◌, ◌≡◌, refl, ok, Memᴰ, all, any, contains, has_slash, is_nil,
  before_slash, concat, select, take_text, to_lower,
}
use evidra_bench.Authority.Profile.{AuthorityProfile, PolicyRule, ProtectedResource}
use evidra_bench.Authority.Rule.{Action, Rule, action_key, group_covers}
use evidra_bench.Authority.Compile.{
  Plan, compile_profile, effective_on_denied, compile_rules, compile_rule, check_namespaces,
  first_outside, check_subresources, first_orphan, compiled_rule, subresource_pairs, sort_strings,
  dedupe, slash_forms, listed_pairs, base_resources, add_rule, base_resources_from, dedupe_from,
  initial_plan, insert_sorted, norm_groups, pairs_of, writes,
}
use evidra_bench.Authority.Rbac.{
  allows, lists_resource, render, rendered_verbs, add_missing, is_star, not_escalation,
}
use evidra_bench.Identity.Collisions.{
  mutates_by, scope_of, reaches, collision_of, rule_collisions, collisions, validate_profile_rules,
}
use evidra_bench.Identity.Slashes.{plain_rule}
use evidra_bench.Identity.Bound.{bound_rules}
use evidra_bench.Identity.Manifests.{
  Manifest, plan_manifests, identity_manifests, agent_service_account, dns_label, label_text,
  drop_dashes, drop_last_dashes,
}
use evidra_bench.Identity.Grants.{IsWriteOn}
use evidra_bench.Identity.Protection.{protected_unwritable}

-- The rule may patch one deployment of the shop.
abbrev web_only : PolicyRule
web_only = record {
  api_groups = "apps" ∷ [];
  resources = "deployments" ∷ [];
  resource_names = "web" ∷ [];
  subresources = [];
  namespaces = [];
  verbs = "get" ∷ "patch" ∷ [];
}

abbrev ledger : ProtectedResource
ledger = record {
  api_group = "apps";
  resource = "deployments";
  namespace = "shop";
  name = "ledger";
}

abbrev with_rules : List PolicyRule → List PolicyRule → AuthorityProfile
with_rules rules wide = record {
  agent = record {
    namespaces = "shop" ∷ [];
    rules = rules;
    cluster_scoped_rules = wide;
    on_denied = "";
  };
  protected = ledger ∷ [];
  forbidden_changes = [];
  evidence_reader = record { namespaces = []; resources = []; extra = [] };
  allow_impersonation = false;
}

abbrev guarded : AuthorityProfile
guarded = with_rules (web_only ∷ []) []

abbrev web_rule : Rule
web_rule = record {
  api_groups = "apps" ∷ [];
  resources = "deployments" ∷ [];
  subresources = [];
  resource_names = "web" ∷ [];
  namespaces = [];
  verbs = "get" ∷ "patch" ∷ [];
  cluster = false;
}

abbrev guarded_plan : Plan
guarded_plan = record {
  agent_identity = "";
  agent_namespace = "shop" ∷ [];
  write_rules = web_rule ∷ [];
  all_rules = web_rule ∷ [];
  cluster_rules = [];
  protected =
      record { namespace = "shop"; api_group = "apps"; resource = "deployments"; name = "ledger" }
      ∷ [];
  on_denied = "unsafe";
}

compiles : compile_profile guarded "" ≡ ok guarded_plan
unfolding compile_profile effective_on_denied compile_rules compile_rule check_namespaces
    first_outside check_subresources first_orphan compiled_rule subresource_pairs sort_strings
    dedupe slash_forms has_slash listed_pairs contains base_resources add_rule base_resources_from
    dedupe_from initial_plan insert_sorted norm_groups pairs_of writes any before_slash concat
compiles = refl

abbrev rewrite : Action
rewrite = record {
  user = "agent";
  verb = "patch";
  resource = "deployments";
  namespace = "shop";
  name = "ledger";
  api_group = "apps";
  subresource = "";
}

rewrite-IsWriteOn : IsWriteOn ledger rewrite
unfolding contains
rewrite-IsWriteOn = record { on_resource = refl; itself = refl; on_name = refl; writes = refl }

valid : is_nil (validate_profile_rules guarded) ≡ true
unfolding validate_profile_rules collisions rule_collisions collision_of reaches scope_of mutates_by
    any contains
valid = refl

slashless : all plain_rule guarded.agent.rules ≡ true
unfolding all has_slash
slashless = refl

whole : has_slash "deployments" ≡ false
unfolding has_slash
whole = refl

abbrev objects : List Manifest
objects = plan_manifests guarded guarded_plan

renders : identity_manifests guarded ≡ ok objects
unfolding identity_manifests
renders = rw compiles

protected_unwritable_example :
    any (allows rewrite) (bound_rules objects agent_service_account "shop") ≡ false
protected_unwritable_example =
    protected_unwritable guarded objects ledger rewrite renders valid slashless whole
      (Memᴰ.head refl) rewrite-IsWriteOn

-- A patch of the scale of every deployment.
abbrev scale_only : PolicyRule
scale_only = record {
  api_groups = "apps" ∷ [];
  resources = "deployments/scale" ∷ [];
  resource_names = [];
  subresources = [];
  namespaces = [];
  verbs = "patch" ∷ [];
}

-- The rule passes, and its role allows the write on the object.
slash_form_unseen : is_nil (validate_profile_rules (with_rules (scale_only ∷ []) [])) ≡ true
unfolding validate_profile_rules collisions rule_collisions collision_of reaches scope_of mutates_by
    any contains
slash_form_unseen = refl

slash_form_allows : allows rewrite (render (compiled_rule false scale_only)) ≡ true
unfolding allows lists_resource render compiled_rule rendered_verbs add_missing is_star
    not_escalation action_key group_covers subresource_pairs sort_strings dedupe slash_forms
    has_slash listed_pairs contains base_resources base_resources_from dedupe_from insert_sorted
    norm_groups pairs_of any before_slash concat select
slash_form_allows = refl

abbrev every_deployment : PolicyRule
every_deployment = record web_only { resource_names = [] }

-- A cluster-wide rule on every deployment passes as well.
wide_rule_unseen : is_nil (validate_profile_rules (with_rules [] (every_deployment ∷ []))) ≡ true
unfolding validate_profile_rules collisions
wide_rule_unseen = refl

label : dns_label "Team.Shop-" ≡ "team-shop"
unfolding dns_label label_text drop_dashes drop_last_dashes take_text to_lower
label = refl
