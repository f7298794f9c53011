-- ===== src/Audit/Tests.antt =====
-- The theorems on pkg/audit/fields.go at bodies of a deployment.
use evidra_bench.Base.{true, false, List, [], ◌∷◌, ◌≡◌, refl, ◌↔◌, some, any, split, cut}
use evidra_bench.Json.{null, str, arr, obj, nil, cons, Fields, end, field, lookup_field, items_list}
use evidra_bench.Audit.FieldPath.{FieldSegment, parse_field_path, segment_of}
use evidra_bench.Audit.Fields.{
  forbidden_change_matches, walk_merge, body_matches, object_matches, visit_merge, visit_child,
  leaf_matches,
}
use evidra_bench.Audit.Transitions.{Found, walk_merge_iff}
use evidra_bench.Audit.Bodies.{merge_patch_iff, is_object, kept_list_convicted}

abbrev container : Fields
container = field "name" (str "api") (field "readinessProbe" null end)

abbrev body : Fields
body = field "containers" (arr (cons (obj container) nil)) end

abbrev path : List FieldSegment
path =
    record { key = "containers"; pred = "api" } ∷ record { key = "readinessProbe"; pred = "" } ∷ []

walk_merge_iff_example :
    (walk_merge path "removed" null (obj body ∷ []) ≡ true) ↔ Found path "removed" null (obj body)
walk_merge_iff_example = walk_merge_iff path "removed" null (obj body)

merge_patch_iff_example :
    ((forbidden_change_matches
        (some (obj body))
        "containers[name=api].readinessProbe"
        "removed"
        null
        false).0
      ≡ true)
    ↔ Found (parse_field_path "containers[name=api].readinessProbe") "removed" null (obj body)
merge_patch_iff_example = merge_patch_iff body "containers[name=api].readinessProbe" "removed" null

args_path : parse_field_path "args" ≡ record { key = "args"; pred = "" } ∷ []
unfolding parse_field_path segment_of split cut
args_path = refl

abbrev cleared : Fields
cleared = field "args" null end

cleared_convicted :
    (forbidden_change_matches (some (obj cleared)) "args" "removed" null false).0 ≡ true
unfolding forbidden_change_matches parse_field_path segment_of split cut body_matches object_matches
    walk_merge any visit_merge visit_child leaf_matches lookup_field
cleared_convicted = refl

abbrev with_args : Fields
with_args = field "args" (arr (cons (str "--safe") nil)) end

args_kept : lookup_field "args" with_args ≡ some (arr (cons (str "--safe") nil))
unfolding lookup_field
args_kept = refl

args_scalars : any is_object (items_list (cons (str "--safe") nil)) ≡ false
unfolding any is_object items_list
args_scalars = refl

kept_list_convicted_example :
    forbidden_change_matches (some (obj with_args)) "args" "removed" null true ≡ (true, true)
kept_list_convicted_example =
    kept_list_convicted with_args "args" (record { key = "args"; pred = "" })
      (cons (str "--safe") nil) null args_path args_kept args_scalars
