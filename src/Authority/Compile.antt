-- ===== src/Authority/Compile.antt =====
-- `Compile`: a profile becomes the one plan that all consumers read.
use Prim.Native.Nat.{Ordering}
use Prim.Native.String.{compare}
use evidra_bench.Base.{
  String, Bool, true, false, not, ◌&&◌, ◌||◌, List, [], ◌∷◌, ◌++◌, map, Option, none, some, ◌==◌,
  any, contains, is_nil, is_empty, concat, before_slash, has_slash, Result, ok, err, ◌>>=◌,
  if◌then◌else◌,
}
use evidra_bench.Authority.Profile.{
  AuthorityProfile, PolicyRule, ProtectedResource, on_denied_unsafe, on_denied_warning,
}
use evidra_bench.Authority.Rule.{Rule, mutation_verbs}

pub record ProtectedRef : Type 0 where
  pub namespace : String
  pub api_group : String
  pub resource : String
  pub name : String

pub record Plan : Type 0 where
  pub agent_identity : String
  pub agent_namespace : List String
  pub write_rules : List Rule
  pub all_rules : List Rule
  pub cluster_rules : List Rule
  pub protected : List ProtectedRef
  pub on_denied : String

-- The three errors of `Compile`, with what their messages print.
pub data CompileError : Type 0 where
  invalid_on_denied : String → CompileError
  outside_namespace : List String → String → List String → CompileError
  orphan_subresource : String → List String → CompileError

-- `seen` is what the loop has met.
unfoldable pub dedupe_from : List String → List String → List String
dedupe_from seen [] = []
dedupe_from seen (x ∷ xs) =
    let rest = dedupe_from (if contains seen x then seen else x ∷ seen) xs in
    if contains seen x then rest else x ∷ rest

unfoldable pub dedupe : List String → List String
unfolding dedupe_from
dedupe xs = dedupe_from [] xs

unfoldable pub norm_groups : List String → List String
norm_groups g = if is_nil g then "" ∷ [] else dedupe g

unfoldable pub base_resources_from : List String → List String → List String
base_resources_from out [] = out
base_resources_from out (r ∷ rs) =
    base_resources_from
      (if contains out (before_slash r) then out else out ++ (before_slash r ∷ [])) rs

unfoldable pub base_resources : List String → List String
unfolding base_resources_from
base_resources res = base_resources_from [] res

-- sort.Strings, by insertion: the order of bytes of UTF-8.
unfoldable pub insert_sorted : String → List String → List String
insert_sorted s [] = s ∷ []
insert_sorted s (t ∷ ts) =
    let rest = t ∷ insert_sorted s ts in elim (compare s t) [ Ordering.gt ↦ rest | _ ↦ s ∷ t ∷ ts ]

unfoldable pub sort_strings : List String → List String
unfolding insert_sorted
sort_strings [] = []
sort_strings (s ∷ ss) = insert_sorted s (sort_strings ss)

-- The first loop of `subresourcePairs`: the resources written with a slash.
unfoldable pub slash_forms : List String → List String
slash_forms [] = []
slash_forms (r ∷ rs) = if has_slash r then r ∷ slash_forms rs else slash_forms rs

unfoldable pub pairs_of : String → List String → List String
pairs_of r subs = map (λ sub. concat (r ∷ "/" ∷ sub ∷ [])) subs

-- Its second loop: every plain resource with every listed subresource.
unfoldable pub listed_pairs : List String → List String → List String
unfolding pairs_of
listed_pairs [] subs = []
listed_pairs (r ∷ rs) subs =
    if has_slash r then listed_pairs rs subs else pairs_of r subs ++ listed_pairs rs subs

-- The keys of the set, sorted.
unfoldable pub subresource_pairs : List String → List String → List String
subresource_pairs resources subs =
    sort_strings (dedupe (slash_forms resources ++ listed_pairs resources subs))

-- The first namespace of the rule that the agent does not have.
unfoldable pub first_outside : List String → List String → Option String
first_outside agent_ns [] = none
first_outside agent_ns (ns ∷ rest) =
    if contains agent_ns ns then first_outside agent_ns rest else some ns

-- The first pair whose base is not among the resources.
unfoldable pub first_orphan : List String → List String → Option String
first_orphan resources [] = none
first_orphan resources (sp ∷ rest) =
    if contains resources (before_slash sp) then first_orphan resources rest else some sp

unfoldable pub compiled_rule : Bool → PolicyRule → Rule
compiled_rule cluster r = record {
  api_groups = norm_groups r.api_groups;
  resources = base_resources r.resources;
  subresources = subresource_pairs r.resources r.subresources;
  resource_names = dedupe r.resource_names;
  namespaces = if cluster then [] else dedupe r.namespaces;
  verbs = dedupe r.verbs;
  cluster = cluster;
}

unfoldable pub check_namespaces : List String → Bool → PolicyRule → Result CompileError (Unit {0})
check_namespaces agent_ns true r = ok tt
check_namespaces agent_ns false r = elim (first_outside agent_ns r.namespaces) [
  | none ↦ ok tt
  | some ns ↦ err (outside_namespace r.resources ns agent_ns)
]

unfoldable pub check_subresources : Rule → Result CompileError (Unit {0})
check_subresources cr = elim (first_orphan cr.resources cr.subresources) [
  | none ↦ ok tt
  | some sp ↦ err (orphan_subresource sp cr.resources)
]

unfoldable pub compile_rule : List String → Bool → PolicyRule → Result CompileError Rule
compile_rule agent_ns cluster r = check_namespaces agent_ns cluster r >>= λ _.
    check_subresources (compiled_rule cluster r) >>= λ _. ok (compiled_rule cluster r)

writes_verb : String → Bool
writes_verb v = v == "*" || contains mutation_verbs v

unfoldable pub writes : Rule → Bool
unfolding writes_verb
writes r = any writes_verb r.verbs

-- What one round of the closure appends to the plan.
unfoldable pub add_rule : Bool → Rule → Plan → Plan
add_rule cluster cr p = record p {
  all_rules = p.all_rules ++ (cr ∷ []);
  write_rules = if writes cr then p.write_rules ++ (cr ∷ []) else p.write_rules;
  cluster_rules = if cluster then p.cluster_rules ++ (cr ∷ []) else p.cluster_rules;
}

unfoldable pub compile_rules :
    List String → Bool → List PolicyRule → Plan → Result CompileError Plan
compile_rules agent_ns cluster [] p = ok p
compile_rules agent_ns cluster (r ∷ rs) p = compile_rule agent_ns cluster r >>= λ cr.
    compile_rules agent_ns cluster rs (add_rule cluster cr p)

protected_ref : ProtectedResource → ProtectedRef
protected_ref pr = record {
  namespace = pr.namespace;
  api_group = pr.api_group;
  resource = pr.resource;
  name = pr.name;
}

unfoldable pub effective_on_denied : String → String
effective_on_denied s = if is_empty s then on_denied_unsafe else s

unfoldable pub initial_plan : AuthorityProfile → String → Plan
unfolding protected_ref
initial_plan profile agent_identity = record {
  agent_identity = agent_identity;
  agent_namespace = dedupe profile.agent.namespaces;
  write_rules = [];
  all_rules = [];
  cluster_rules = [];
  protected = map protected_ref profile.protected;
  on_denied = effective_on_denied profile.agent.on_denied;
}

unfoldable pub compile_profile : AuthorityProfile → String → Result CompileError Plan
unfolding initial_plan
compile_profile profile agent_identity =
    let on_denied = effective_on_denied profile.agent.on_denied in
    let agent_ns = dedupe profile.agent.namespaces in
    if not (on_denied == on_denied_unsafe) && not (on_denied == on_denied_warning)
    then err (invalid_on_denied on_denied)
    else (compile_rules agent_ns false profile.agent.rules (initial_plan profile agent_identity)
        >>= λ p. compile_rules agent_ns true profile.agent.cluster_scoped_rules p)

-- No profile, no plan.
unfoldable pub compile : Option AuthorityProfile → String → Result CompileError (Option Plan)
compile none agent_identity = ok none
compile (some profile) agent_identity = compile_profile profile agent_identity >>= λ p. ok (some p)
