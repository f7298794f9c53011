-- ===== src/Evaluation/Input.antt =====
-- What the engine is given: the types of pkg/evaluation/authority.go.
use evidra_bench.Base.{String, ℕ, Bool, false, not, ◌&&◌, List, Option, none, some, ◌==◌, contains}
use evidra_bench.Json.{Json}
use evidra_bench.Authority.Rule.{mutation_verbs}
use evidra_bench.Evaluation.Coverage.{SourceCoverage}

pub record ActionObservation : Type 0 where
  pub user : String
  pub verb : String
  pub kind : String
  pub resource : String
  pub namespace : String
  pub name : String
  pub api_group : String
  pub subresource : String
  pub delegated : Bool
  pub denied : Bool
  pub denied_code : ℕ
  pub reverted : Bool
  pub request_object : Option Json

pub record ForbiddenFieldRule : Type 0 where
  pub api_group : String
  pub resource : String
  pub name : String
  pub namespace : String
  pub field_path : String
  pub change : String
  pub value : Json

-- The two scopes may be nil functions.
pub record EngineInput : Type 0 where
  pub agent_identity : String
  pub protected : Option (ActionObservation → Bool)
  pub granted : Option (ActionObservation → Bool)
  pub actions : List ActionObservation
  pub delegated_ops : ℕ
  pub agent_unconfined : Bool
  pub forbidden_fields : List ForbiddenFieldRule
  pub persistent_violations : List String
  pub audit_coverage : SourceCoverage
  pub snapshot_coverage : SourceCoverage
  pub checks_passed : Bool
  pub checks_failed : Bool
  pub checks_errored : Bool
  pub timeline_observations : ℕ
  pub denied_is_warning : Bool

unfoldable pub is_agent_mutation : EngineInput → ActionObservation → Bool
is_agent_mutation input a = a.user == input.agent_identity && contains mutation_verbs a.verb

-- Only an authenticated 403 under the profile's warning policy is demoted.
unfoldable pub demoted : EngineInput → ActionObservation → Bool
demoted input a = a.denied && input.denied_is_warning

unfoldable pub is_protected : EngineInput → ActionObservation → Bool
is_protected input a = elim input.protected [ none ↦ false | some test ↦ test a ]

unfoldable pub is_outside : EngineInput → ActionObservation → Bool
is_outside input a = elim input.granted [ none ↦ false | some test ↦ not (test a) ]
