-- ===== src/Identity/Manifests.antt =====
-- The objects that a profile dictates: identityManifests, dnsLabel, evResources, evidenceNamespaces and
-- the builders of objects of pkg/environment/identity.go, with clusterScopedResources of
-- pkg/scenario/loader.go. An object is a record of what its map holds; `panic` is the error of the compiler.
use evidra_bench.Base.{
  String, ℕ, Bool, not, ◌&&◌, ◌||◌, List, [], ◌∷◌, ◌++◌, map, Option, none, some, ◌==◌, Result, ok,
  ◌>>=◌, before_slash, concat, contains, cut, eqb, get_list, is_empty, is_nil, leb, select,
  take_text, to_lower, if◌then◌else◌,
}
use Prim.Native.String
use Prim.Native.Char.{code}
use evidra_bench.Authority.Profile.{AuthorityProfile, ProtectedResource}
use evidra_bench.Authority.Compile.{Plan, CompileError, compile_profile, dedupe, sort_strings}
use evidra_bench.Authority.Rbac.{RbacRule, roles_by_namespace, cluster_role_rules}

abbrev pub identity_namespace : String
identity_namespace = "evidra-system"

abbrev pub agent_service_account : String
agent_service_account = "evidra-agent"

abbrev pub evidence_service_account : String
evidence_service_account = "evidra-evidence"

abbrev pub rbac_version : String
rbac_version = "rbac.authorization.k8s.io/v1"

-- The role that a binding refers to, by kind and name.
pub record Manifest : Type 0 where
  pub api_version : String
  pub kind : String
  pub name : String
  pub namespace : String
  pub rules : List RbacRule
  pub role_ref : Option (String × String)
  pub subjects : List String

unfoldable pub object : String → String → String → String → Manifest
object api_version kind name ns = record {
  api_version = api_version;
  kind = kind;
  name = name;
  namespace = ns;
  rules = [];
  role_ref = none;
  subjects = [];
}

unfoldable pub role_object : String → String → List RbacRule → Manifest
role_object name ns rules = record (object rbac_version "Role" name ns) { rules = rules }

unfoldable pub cluster_role : String → List RbacRule → Manifest
cluster_role name rules = record (object rbac_version "ClusterRole" name "") { rules = rules }

-- A subject is a service account of the identity namespace.
unfoldable pub role_binding : String → String → String → Manifest
role_binding role ns sa =
    record (object rbac_version "RoleBinding" (concat (role ∷ "-binding" ∷ [])) ns) {
      role_ref = some ("Role", role);
      subjects = sa ∷ [];
    }

unfoldable pub cluster_role_binding : String → String → Manifest
cluster_role_binding role sa =
    record (object rbac_version "ClusterRoleBinding" (concat (role ∷ "-binding" ∷ [])) "") {
      role_ref = some ("ClusterRole", role);
      subjects = sa ∷ [];
    }

is_label_code : ℕ → Bool
is_label_code c = (leb 97 c && leb c 122) || (leb 48 c && leb c 57)

unfoldable pub label_text : String → String
unfolding is_label_code
label_text String.[] = ""
label_text (String.◌∷◌ c s) =
    if is_label_code (code c) then String.◌∷◌ c (label_text s) else String.◌++◌ "-" (label_text s)

-- strings.Trim(s, "-")
unfoldable pub drop_dashes : String → String
drop_dashes String.[] = ""
drop_dashes (String.◌∷◌ c s) =
    let rest = drop_dashes s in if eqb (code c) 45 then rest else String.◌∷◌ c s

unfoldable pub drop_last_dashes : String → String
drop_last_dashes String.[] = ""
drop_last_dashes (String.◌∷◌ c s) =
    let rest = drop_last_dashes s in
    if is_empty rest && eqb (code c) 45 then "" else String.◌∷◌ c rest

unfoldable pub dns_label : String → String
dns_label ns = drop_last_dashes (drop_dashes (take_text 40 (label_text (to_lower ns))))

abbrev pub cluster_scoped_resources : List String
cluster_scoped_resources =
    "nodes" ∷ "namespaces" ∷ "persistentvolumes" ∷ "clusterroles" ∷ "clusterrolebindings"
    ∷ "storageclasses" ∷ "priorityclasses" ∷ "customresourcedefinitions"
    ∷ "mutatingwebhookconfigurations" ∷ "validatingwebhookconfigurations" ∷ "apiservices"
    ∷ "csidrivers" ∷ []

-- The dedupe of this file: it drops empty texts.
unfoldable pub dedupe_words : List String → List String
dedupe_words words = dedupe (select (λ w. not (is_empty w)) words)

unfoldable pub ev_resources : AuthorityProfile → List String
ev_resources profile = dedupe_words (
    if is_nil profile.evidence_reader.resources
    then "pods"
      ∷ "services"
      ∷ "endpoints"
      ∷ "events"
      ∷ "namespaces"
      ∷ map (λ (p : ProtectedResource). p.resource) profile.protected
    else profile.evidence_reader.resources)

unfoldable pub evidence_namespaces : AuthorityProfile → List String
evidence_namespaces profile =
    let ns = dedupe_words (
      if is_nil profile.evidence_reader.namespaces
      then profile.agent.namespaces
        ++ map (λ (p : ProtectedResource). p.namespace) profile.protected
      else profile.evidence_reader.namespaces) in
    if is_nil ns then "default" ∷ [] else ns

unfoldable pub is_widened : String → Bool
is_widened r = contains cluster_scoped_resources r && not (r == "namespaces")

abbrev pub reading : List String
reading = "get" ∷ "list" ∷ "watch" ∷ []

abbrev pub ev_groups : List String
ev_groups =
    "" ∷ "apps" ∷ "batch" ∷ "networking.k8s.io" ∷ "rbac.authorization.k8s.io" ∷ "policy"
    ∷ "autoscaling" ∷ []

unfoldable pub extra_group : String → String
extra_group base =
    if contains ("deployments" ∷ "statefulsets" ∷ "daemonsets" ∷ "replicasets" ∷ []) base
    then "apps"
    else ""

unfoldable pub extra_parts : Option (String × String) → String → String × String
extra_parts none extra = (extra, "")
extra_parts (some parts) extra = parts

unfoldable pub extra_rule : String → RbacRule
extra_rule extra =
    let parts = extra_parts (cut 58 extra) extra in
    record {
      api_groups = extra_group (before_slash parts.0) ∷ [];
      resources = parts.0 ∷ [];
      resource_names = [];
      verbs = parts.1 ∷ [];
    }

unfoldable pub group_rule : List String → String → RbacRule
group_rule resources group = record {
  api_groups = group ∷ [];
  resources = resources;
  resource_names = [];
  verbs = reading;
}

unfoldable pub evidence_rules : AuthorityProfile → List RbacRule
evidence_rules profile =
    map (group_rule (select (λ r. not (is_widened r)) (ev_resources profile))) ev_groups
    ++ map extra_rule profile.evidence_reader.extra

unfoldable pub agent_roles : List (String × List RbacRule) → List String → List Manifest
agent_roles roles [] = []
agent_roles roles (ns ∷ rest) =
    let name = concat ("evidra-agent-role-" ∷ dns_label ns ∷ []) in
    role_object name ns (get_list ns roles)
    ∷ role_binding name ns agent_service_account
    ∷ agent_roles roles rest

abbrev pub agent_cluster_role : String
agent_cluster_role = "evidra-agent-cluster-role"

unfoldable pub agent_cluster : List RbacRule → List Manifest
agent_cluster [] = []
agent_cluster (r ∷ rules) =
    cluster_role agent_cluster_role (r ∷ rules)
    ∷ cluster_role_binding agent_cluster_role agent_service_account
    ∷ []

abbrev pub evidence_role : String
evidence_role = "evidra-evidence-role"

unfoldable pub evidence_roles : List RbacRule → List String → List Manifest
evidence_roles rules [] = []
evidence_roles rules (ns ∷ rest) =
    role_object evidence_role ns rules
    ∷ role_binding evidence_role ns evidence_service_account
    ∷ evidence_roles rules rest

abbrev pub review_rule : RbacRule
review_rule = record {
  api_groups = "authorization.k8s.io" ∷ [];
  resources = "subjectaccessreviews" ∷ [];
  resource_names = [];
  verbs = "create" ∷ [];
}

unfoldable pub widened_rule : List String → RbacRule
widened_rule resources = record {
  api_groups =
      "" ∷ "rbac.authorization.k8s.io" ∷ "networking.k8s.io" ∷ "storage.k8s.io"
      ∷ "apiextensions.k8s.io" ∷ [];
  resources = resources;
  resource_names = [];
  verbs = reading;
}

abbrev pub evidence_cluster_role : String
evidence_cluster_role = "evidra-evidence-cluster-role"

unfoldable pub evidence_cluster : List String → List Manifest
evidence_cluster [] = []
evidence_cluster (r ∷ resources) =
    cluster_role evidence_cluster_role (widened_rule (r ∷ resources) ∷ review_rule ∷ [])
    ∷ cluster_role_binding evidence_cluster_role evidence_service_account
    ∷ []

unfoldable pub role_namespaces : List (String × List RbacRule) → List String
role_namespaces [] = []
role_namespaces ((ns, rules) ∷ roles) = ns ∷ role_namespaces roles

unfoldable pub plan_manifests : AuthorityProfile → Plan → List Manifest
plan_manifests profile p =
    let roles = roles_by_namespace p in
    object "v1" "Namespace" identity_namespace ""
    ∷ object "v1" "ServiceAccount" agent_service_account identity_namespace
    ∷ object "v1" "ServiceAccount" evidence_service_account identity_namespace
    ∷ (agent_roles roles (sort_strings (role_namespaces roles))
        ++ (agent_cluster (cluster_role_rules p)
            ++ (evidence_roles (evidence_rules profile) (evidence_namespaces profile)
                ++ evidence_cluster (select is_widened (ev_resources profile)))))

unfoldable pub identity_manifests : AuthorityProfile → Result CompileError (List Manifest)
identity_manifests profile = compile_profile profile "" >>= λ p. ok (plan_manifests profile p)
