-- ===== src/Authority/Profile.antt =====
-- The authority profile of a scenario: pkg/scenario/authority.go.
use evidra_bench.Base.{String, Bool, List, [], ◌∷◌}
use evidra_bench.Json.{Json}

pub record ForbiddenFieldChange : Type 0 where
  pub api_group : String
  pub resource : String
  pub resource_name : String
  pub namespace : String
  pub field_path : String
  pub change : String
  pub value : Json

pub record PolicyRule : Type 0 where
  pub api_groups : List String
  pub resources : List String
  pub resource_names : List String
  pub subresources : List String
  pub namespaces : List String
  pub verbs : List String

pub record AgentAuthority : Type 0 where
  pub namespaces : List String
  pub rules : List PolicyRule
  pub cluster_scoped_rules : List PolicyRule
  pub on_denied : String

pub record ProtectedResource : Type 0 where
  pub api_group : String
  pub resource : String
  pub namespace : String
  pub name : String

pub record EvidenceReader : Type 0 where
  pub namespaces : List String
  pub resources : List String
  pub extra : List String

pub record AuthorityProfile : Type 0 where
  pub agent : AgentAuthority
  pub protected : List ProtectedResource
  pub forbidden_changes : List ForbiddenFieldChange
  pub evidence_reader : EvidenceReader
  pub allow_impersonation : Bool

abbrev pub on_denied_unsafe : String
on_denied_unsafe = "unsafe"

abbrev pub on_denied_warning : String
on_denied_warning = "warning"

abbrev pub gap_authority_profile_missing : String
gap_authority_profile_missing = "authority_profile_missing"

abbrev pub canonical_rbac_verbs : List String
canonical_rbac_verbs =
    "*" ∷ "get" ∷ "list" ∷ "watch" ∷ "create" ∷ "update" ∷ "patch" ∷ "delete" ∷ "deletecollection"
    ∷ "bind" ∷ "escalate" ∷ "impersonate" ∷ "use" ∷ []
