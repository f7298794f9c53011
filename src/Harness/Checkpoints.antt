-- ===== src/Harness/Checkpoints.antt =====
-- The state evidence of a run: pkg/harness/snapshots.go. The lister, the hashes and the identity of the
-- agent are arguments; the persisted artifacts are left out.
use evidra_bench.Base.{
  String, ℕ, ◌+◌, Bool, false, ◌||◌, List, [], ◌∷◌, ◌++◌, map, Option, none, some, ◌==◌, Result, ok,
  err, contains, concat, decimal, is_empty, is_nil, length, split, to_lower, capitalize, has_suffix,
  trim_suffix, get, put, if◌then◌else◌,
}
use evidra_bench.Json.{Fields}
use evidra_bench.Authority.Profile.{AuthorityProfile, ProtectedResource}
use evidra_bench.Authority.Compile.{Plan, ProtectedRef, CompileError, compile_profile, dedupe}
use evidra_bench.Authority.Scopes.{scope_key, writable_kinds, writable_scopes, protected_kinds}
use evidra_bench.Evaluation.Coverage.{SourceCoverage}
use evidra_bench.Evaluation.Evidence.{SnapshotSummary}
use evidra_bench.Snapshot.Normalize.{Key}
use evidra_bench.Snapshot.Sets.{Target, StateSet, new_set}
use evidra_bench.Snapshot.Diff.{Violation, diff}

-- environment.AgentUserName
abbrev pub agent_user_name : String
agent_user_name = "system:serviceaccount:evidra-system:evidra-agent"

abbrev pub unique_strings : List String → List String
unique_strings = dedupe

abbrev pub skipped_resources : List String
skipped_resources = "events" ∷ "namespaces" ∷ "endpoints" ∷ []

unfoldable pub singular_of : String → String
singular_of r =
    if has_suffix r "ies"
    then concat (trim_suffix r "ies" ∷ "y" ∷ [])
    else if has_suffix r "ses"
    then trim_suffix r "es"
    else if has_suffix r "s"
    then (if has_suffix r "ss" then r else trim_suffix r "s")
    else r

unfoldable pub kind_guess : String → String
kind_guess resource =
    let r = to_lower resource in
    capitalize (if r == "endpoints" then "endpoints" else singular_of r)

unfoldable pub targets_in : String → List String → List Target
targets_in ns [] = []
targets_in ns (res ∷ rest) =
    let more = targets_in ns rest in
    if contains skipped_resources res
    then more
    else record { namespace = ns; resource = res; kind = kind_guess res } ∷ more

unfoldable pub targets_of : List String → List String → List Target
targets_of [] resources = []
targets_of (ns ∷ rest) resources = targets_in ns resources ++ targets_of rest resources

-- The resource name of a kind.
unfoldable pub snap_plural : String → String
snap_plural kind =
    let res = to_lower kind in if has_suffix res "s" then res else concat (res ∷ "s" ∷ [])

unfoldable pub exact_key : String → String → String → String
exact_key ns res name = concat (ns ∷ "/" ∷ res ∷ "/" ∷ name ∷ [])

unfoldable pub exact_of_ref : ProtectedRef → String
exact_of_ref pr = exact_key pr.namespace pr.resource pr.name

unfoldable pub exact_of_resource : ProtectedResource → String
exact_of_resource pr = exact_key pr.namespace pr.resource pr.name

-- The sets of strings that bound the difference.
pub record DiffScope : Type 0 where
  pub writable : List String
  pub diff_kinds : List String
  pub protected : List String
  pub exact : List String

-- Without a plan nothing is writable.
unfoldable pub scope_of : AuthorityProfile → Result CompileError Plan → DiffScope
scope_of profile (ok plan) = record {
  writable = writable_scopes plan;
  diff_kinds = writable_kinds plan;
  protected = protected_kinds plan;
  exact = map exact_of_ref plan.protected;
}
scope_of profile (err e) = record {
  writable = [];
  diff_kinds = [];
  protected = [];
  exact = map exact_of_resource profile.protected;
}

unfoldable pub allowed_in : DiffScope → Key → Bool
allowed_in scope k =
    let res = snap_plural k.kind in
    if contains scope.exact (exact_key k.namespace res k.name)
    then false
    else contains scope.writable (scope_key k.namespace res)

pub record RunSnapshots : Type 0 where
  pub targets : List Target
  pub scope : DiffScope
  pub sets : List (String × StateSet)

unfoldable pub reader_namespaces : AuthorityProfile → List String
reader_namespaces p = unique_strings (p.evidence_reader.namespaces ++ p.agent.namespaces)

unfoldable pub run_snapshots_of : AuthorityProfile → RunSnapshots
run_snapshots_of p = record {
  targets = targets_of (reader_namespaces p) p.evidence_reader.resources;
  scope = scope_of p (compile_profile p agent_user_name);
  sets = [];
}

unfoldable pub new_run_snapshots : Option AuthorityProfile → String → Option RunSnapshots
new_run_snapshots none kubeconfig = none
new_run_snapshots (some p) kubeconfig =
    if is_empty kubeconfig || (is_nil p.evidence_reader.resources || is_nil (reader_namespaces p))
    then none
    else some (run_snapshots_of p)

-- The hashes: of the entries of a Secret, of an object and of a checkpoint.
pub record Hashes : Type 0 where
  pub payload : Fields → String
  pub object : Fields → String
  pub checkpoint : StateSet → String

unfoldable pub capture :
    Hashes → (Target → Result String Fields) → String → Option RunSnapshots → Option RunSnapshots
capture hashes list name none = none
capture hashes list name (some r) =
    some (record r { sets = put name (new_set hashes.payload name r.targets list) r.sets })

-- What `strings.Split(object, "/")` gives at an index, and a kind where there are two parts or fewer.
unfoldable pub first_part : List String → String
first_part [] = ""
first_part (p ∷ ps) = p

unfoldable pub namespace_part : List String → String
namespace_part (kind ∷ ns ∷ name ∷ rest) = ns
namespace_part _ = ""

unfoldable pub is_diffable : DiffScope → String → Bool
is_diffable scope object =
    let parts = split 47 object in
    let res = snap_plural (first_part parts) in
    contains scope.diff_kinds res || contains scope.protected (scope_key (namespace_part parts) res)

-- What is kept, and how many are not.
unfoldable pub filter_diffable : DiffScope → List Violation → List Violation × ℕ
filter_diffable scope [] = ([], 0)
filter_diffable scope (v ∷ vs) =
    let rest = filter_diffable scope vs in
    if is_diffable scope v.object then (v ∷ rest.0, rest.1) else (rest.0, rest.1 + 1)

unfoldable pub join_semi : String → String → String
join_semi existing add = if is_empty existing then add else concat (existing ∷ "; " ∷ add ∷ [])

unfoldable pub add_unreadable : String → List String → String → String
add_unreadable tag [] reason = reason
add_unreadable tag (u ∷ us) reason =
    add_unreadable tag us (join_semi reason (concat (tag ∷ ": " ∷ u ∷ [])))

unfoldable pub unreadable_of : String → Option StateSet → String → String
unreadable_of tag none reason = reason
unreadable_of tag (some s) reason = add_unreadable tag s.unreadable reason

pub record SnapshotInfo : Type 0 where
  pub coverage : SourceCoverage
  pub reason : String
  pub baseline_digest : String
  pub pre_agent_digest : String
  pub post_agent_digest : String
  pub stability_digest : String
  pub violations : List Violation
  pub allowed_changes : ℕ
  pub derived_changes : ℕ

abbrev pub not_captured : SnapshotInfo
not_captured = record {
  coverage = SourceCoverage.absent;
  reason = "checkpoints not captured";
  baseline_digest = "";
  pre_agent_digest = "";
  post_agent_digest = "";
  stability_digest = "";
  violations = [];
  allowed_changes = 0;
  derived_changes = 0;
}

-- The checkpoint before the agent if there is one, else the baseline.
unfoldable pub anchor : StateSet → Option StateSet → StateSet
anchor base none = base
anchor base (some s) = s

unfoldable pub drift_after : Hashes → DiffScope → StateSet → Option StateSet → List Violation
drift_after hashes scope post none = []
drift_after hashes scope post (some stab) =
    (filter_diffable scope (diff hashes.object post stab none).0).0

unfoldable pub drift_reason : List Violation → String → String
drift_reason [] reason = reason
drift_reason (v ∷ vs) reason = join_semi reason (
    concat (
      "state still changing after agent: "
      ∷ decimal (length (v ∷ vs))
      ∷ " objects drifted during stability window"
      ∷ []))

unfoldable pub checkpoint_of : Hashes → Option StateSet → String
checkpoint_of hashes none = ""
checkpoint_of hashes (some s) = hashes.checkpoint s

unfoldable pub finalize_reason :
    Hashes → DiffScope → StateSet → Option StateSet → StateSet → Option StateSet → String
finalize_reason hashes scope base pre post stab =
    drift_reason (drift_after hashes scope post stab) (
      unreadable_of "stability" stab (
        unreadable_of "post-agent" (some post)
          (unreadable_of "pre-agent" pre (unreadable_of "baseline" (some base) ""))))

unfoldable pub finalize_sets :
    Hashes → DiffScope → StateSet → Option StateSet → StateSet → Option StateSet → SnapshotInfo
finalize_sets hashes scope base pre post stab =
    let found = diff hashes.object (anchor base pre) post (some (allowed_in scope)) in
    let kept = filter_diffable scope found.0 in
    let reason = finalize_reason hashes scope base pre post stab in
    record {
      coverage = if is_empty reason then SourceCoverage.complete else SourceCoverage.incomplete;
      reason = reason;
      baseline_digest = hashes.checkpoint base;
      pre_agent_digest = checkpoint_of hashes pre;
      post_agent_digest = hashes.checkpoint post;
      stability_digest = checkpoint_of hashes stab;
      violations = kept.0;
      allowed_changes = found.1;
      derived_changes = kept.1;
    }

unfoldable pub finalize_from :
    Hashes
    → DiffScope
    → Option StateSet
    → Option StateSet
    → Option StateSet
    → Option StateSet
    → SnapshotInfo
finalize_from hashes scope (some base) pre (some post) stab =
    finalize_sets hashes scope base pre post stab
finalize_from hashes scope _ pre _ stab = not_captured

unfoldable pub finalize : Hashes → RunSnapshots → SnapshotInfo
finalize hashes r =
    finalize_from hashes r.scope (get "baseline" r.sets) (get "pre-agent" r.sets)
      (get "post-agent" r.sets) (get "stability" r.sets)

-- `EvaluationSummary`, nil-safe.
unfoldable pub snapshot_summary : Option SnapshotInfo → Option SnapshotSummary
snapshot_summary none = none
snapshot_summary (some a) = some (record {
  coverage = a.coverage;
  reason = a.reason;
  baseline_digest = a.baseline_digest;
  post_agent_digest = a.post_agent_digest;
  stability_digest = a.stability_digest;
  violations = length a.violations;
})
