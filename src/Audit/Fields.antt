-- ===== src/Audit/Fields.antt =====
-- Field transitions in request bodies: `ForbiddenChangeMatches` of pkg/audit/fields.go. A body is
-- what `encoding/json` makes of it: `none` for one that is empty or does not decode.
use evidra_bench.Base.{
  String, Bool, true, false, not, ◌&&◌, ◌||◌, List, [], ◌∷◌, ◌==◌, Option, none, some, any, is_nil,
  is_empty, length, eqb, leb, ltb, equal_fold, if◌then◌else◌,
}
use evidra_bench.Json.{
  Json, null, str, arr, obj, Items, nil, cons, Fields, end, field, lookup_field, name_of,
  json_equal,
}
use evidra_bench.Audit.FieldPath.{
  FieldSegment, parse_field_path, rule_path, normalize_pointer, equal_prefix,
}

-- The value of a rule against a raw value, which may be missing.
unfoldable pub json_value_equals : Option Json → Json → Bool
json_value_equals none value = false
json_value_equals (some got) value = json_equal got value

-- The entries of a list that a step selects.
unfoldable pub candidates : String → Items → List Json
candidates pred nil = []
candidates pred (cons (obj fs) xs) =
    let rest = candidates pred xs in
    if not (is_empty pred) && not (name_of fs == pred) then rest else obj fs ∷ rest
candidates pred (cons x xs) = candidates pred xs

unfoldable pub leaf_matches : String → Json → Json → Bool
leaf_matches change value v =
    if change == "removed"
    then (elim v [ null ↦ true | _ ↦ false ])
    else if change == "set"
    then json_value_equals (some v) value
    else false

unfoldable pub descend_merge : String → (List Json → Bool) → Json → Bool
descend_merge pred go (obj fs) = go (obj fs ∷ [])
descend_merge pred go (arr xs) = go (candidates pred xs)
descend_merge pred go v = false

unfoldable pub visit_child :
    FieldSegment → Bool → String → Json → (List Json → Bool) → Option Json → Bool
visit_child seg leaf change value go none = false
visit_child seg leaf change value go (some v) =
    if leaf then leaf_matches change value v else descend_merge seg.pred go v

unfoldable pub visit_merge : FieldSegment → Bool → String → Json → (List Json → Bool) → Json → Bool
visit_merge seg leaf change value go (obj fs) =
    visit_child seg leaf change value go (lookup_field seg.key fs)
visit_merge seg leaf change value go n = false

unfoldable pub walk_merge : List FieldSegment → String → Json → List Json → Bool
walk_merge [] change value nodes = false
walk_merge (seg ∷ rest) change value nodes =
    any (visit_merge seg (is_nil rest) change value (walk_merge rest change value)) nodes

-- What one node says about absence: nothing, "there was a map", or an answer.
pub data AbsentStep : Type 0 where
  skip next : AbsentStep
  stop : Bool → AbsentStep

unfoldable pub absent_child : FieldSegment → Bool → (List Json → Bool) → Option Json → AbsentStep
absent_child seg leaf go none = stop true
absent_child seg leaf go (some (obj fs)) = if go (obj fs ∷ []) then stop true else next
absent_child seg leaf go (some (arr xs)) =
    if is_nil (candidates seg.pred xs)
    then stop true
    else if go (candidates seg.pred xs)
    then stop true
    else next
absent_child seg leaf go (some v) = stop (not leaf)

unfoldable pub absent_step : FieldSegment → Bool → (List Json → Bool) → Json → AbsentStep
absent_step seg leaf go (obj fs) = absent_child seg leaf go (lookup_field seg.key fs)
absent_step seg leaf go n = skip

unfoldable pub absent_nodes : FieldSegment → Bool → (List Json → Bool) → List Json → Bool → Bool
absent_nodes seg leaf go [] any_map = not any_map
absent_nodes seg leaf go (n ∷ ns) any_map = elim (absent_step seg leaf go n) [
  | skip ↦ absent_nodes seg leaf go ns any_map
  | next ↦ absent_nodes seg leaf go ns true
  | stop b ↦ b
]

unfoldable pub absent_walk : List FieldSegment → List Json → Bool
absent_walk [] nodes = false
absent_walk (seg ∷ rest) nodes = absent_nodes seg (is_nil rest) (absent_walk rest) nodes false

pub record PatchOp : Type 0 where
  pub op : String
  pub path : String
  pub value : Option Json

-- A JSON string sets a text field, null leaves it, and any other value is an error.
text_value : String → Json → Option String
text_value old (str s) = some s
text_value old null = some old
text_value old v = none

set_op : PatchOp → Option String → Option PatchOp
set_op o none = none
set_op o (some s) = some (record o { op = s })

set_path : PatchOp → Option String → Option PatchOp
set_path o none = none
set_path o (some s) = some (record o { path = s })

-- Decoding into the struct: keys match up to case, and the last one counts.
decode_entry : PatchOp → String → Json → Option PatchOp
unfolding text_value set_op set_path
decode_entry o k v =
    if equal_fold k "op"
    then set_op o (text_value o.op v)
    else if equal_fold k "path"
    then set_path o (text_value o.path v)
    else if equal_fold k "value"
    then some (record o { value = some v })
    else some o

decode_fields : PatchOp → Fields → Option PatchOp
unfolding decode_entry
decode_fields o end = some o
decode_fields o (field k v rest) = elim (decode_entry o k v) [
  | none ↦ none
  | some o' ↦ decode_fields o' rest
]

abbrev zero_op : PatchOp
zero_op = record { op = ""; path = ""; value = none }

decode_op : Json → Option PatchOp
unfolding decode_fields
decode_op (obj fs) = decode_fields zero_op fs
decode_op null = some zero_op
decode_op v = none

unfoldable pub decode_ops : Items → Option (List PatchOp)
unfolding decode_op
decode_ops nil = some []
decode_ops (cons x xs) = elim (decode_op x) [
  | none ↦ none
  | some o ↦ elim (decode_ops xs) [ none ↦ none | some os ↦ some (o ∷ os) ]
]

-- The first element of a list that is a map with the key.
unfoldable pub first_with : String → Items → Option Json
first_with k nil = none
first_with k (cons (obj fs) xs) =
    let rest = first_with k xs in elim (lookup_field k fs) [ none ↦ rest | some v ↦ some v ]
first_with k (cons x xs) = first_with k xs

step_into : String → Json → Option Json
step_into k (obj fs) = lookup_field k fs
step_into k (arr xs) = first_with k xs
step_into k v = none

unfoldable pub walk_json_value : List String → Json → Option Json
unfolding step_into
walk_json_value [] cur = some cur
walk_json_value (k ∷ ks) cur = elim (step_into k cur) [
  | none ↦ none
  | some v ↦ walk_json_value ks v
]

unfoldable pub walk_raw : List String → Option Json → Option Json
walk_raw keys none = none
walk_raw keys (some v) = walk_json_value keys v

-- rp[len(np):]
unfoldable pub beyond : List String → List String → List String
beyond rp [] = rp
beyond [] (g ∷ gs) = []
beyond (r ∷ rs) (g ∷ gs) = beyond rs gs

unfoldable pub op_removes : List String → List String → PatchOp → Bool
op_removes rp np o = o.op == "remove" && (leb (length np) (length rp) && equal_prefix rp np)

unfoldable pub op_sets : List String → List String → Json → PatchOp → Bool
op_sets rp np value o =
    (o.op == "replace" || o.op == "add")
    && ((eqb (length np) (length rp) && (equal_prefix rp np && json_value_equals o.value value))
        || (ltb (length np) (length rp)
            && (equal_prefix rp np && json_value_equals (walk_raw (beyond rp np) o.value) value)))

unfoldable pub op_matches : List String → String → Json → PatchOp → Bool
op_matches rp change value o =
    let np = normalize_pointer o.path in
    if is_nil np
    then false
    else if change == "removed"
    then op_removes rp np o
    else if change == "set"
    then op_sets rp np value o
    else false

unfoldable pub json_patch_matches : List PatchOp → List FieldSegment → String → Json → Bool
json_patch_matches ops segs change value = any (op_matches (rule_path segs true) change value) ops

unfoldable pub object_matches : Fields → List FieldSegment → String → Json → Bool → Bool
object_matches fs segs change value full_replace =
    walk_merge segs change value (obj fs ∷ [])
    || (full_replace && (change == "removed" && absent_walk segs (obj fs ∷ [])))

-- The answer, and whether the body could be interpreted at all.
unfoldable pub body_matches : Json → List FieldSegment → String → Json → Bool → Bool × Bool
body_matches (arr xs) segs change value full_replace = elim (decode_ops xs) [
  | none ↦ (false, false)
  | some ops ↦ (json_patch_matches ops segs change value, true)
]
body_matches (obj fs) segs change value full_replace =
    (object_matches fs segs change value full_replace, true)
body_matches v segs change value full_replace = (false, false)

unfoldable pub forbidden_change_matches : Option Json → String → String → Json → Bool → Bool × Bool
forbidden_change_matches body field_path change value full_replace =
    let segs = parse_field_path field_path in
    if is_nil segs then (false, false) else elim body [
      | none ↦ (false, false)
      | some v ↦ body_matches v segs change value full_replace
    ]
