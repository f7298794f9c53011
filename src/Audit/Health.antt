-- ===== src/Audit/Health.antt =====
-- The answer of the health probes of a node: pkg/audit/health.go. The probes themselves run
-- commands in a container and are an argument of the code that uses them.
use evidra_bench.Base.{
  String, Bool, ◌&&◌, List, [], ◌∷◌, Option, none, some, concat, join, if◌then◌else◌,
}

pub record Health : Type 0 where
  pub node : String
  pub manifest_has_flags : Bool
  pub policy_file_present : Bool
  pub log_dir_writable : Bool
  pub detail : String

unfoldable pub is_ok : Health → Bool
is_ok h = h.manifest_has_flags && (h.policy_file_present && h.log_dir_writable)

unfoldable pub described : Health → String
described h = concat (h.node ∷ ": " ∷ h.detail ∷ [])

unfoldable pub failing : List Health → List String
failing [] = []
failing (h ∷ hs) = if is_ok h then failing hs else described h ∷ failing hs

unfoldable pub failures_error : List String → Option String
failures_error [] = none
failures_error (bad ∷ rest) =
    some (concat ("audit health check failed: " ∷ join "; " (bad ∷ rest) ∷ []))

-- The error over several nodes; `none` is a nil error.
unfoldable pub err_unhealthy : List Health → Option String
err_unhealthy healths = failures_error (failing healths)

-- The first node of the list that is not healthy.
unfoldable pub first_unhealthy : (String → Health) → List String → Option Health
first_unhealthy probe [] = none
first_unhealthy probe (node ∷ nodes) =
    if is_ok (probe node) then first_unhealthy probe nodes else some (probe node)
