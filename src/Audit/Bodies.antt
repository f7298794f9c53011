-- ===== src/Audit/Bodies.antt =====
-- What `ForbiddenChangeMatches` of pkg/audit/fields.go answers on patches and on full bodies.
use evidra_bench.Base.{
  String, Bool, true, false, List, [], ◌∷◌, ◌≡◌, refl, ap, ◌∙◌, arith, Option, none, some, any,
  is_nil, ◌↔◌, Bool-cases, Option-cases, inl, inr,
}
use evidra_bench.Json.{
  Json, null, bool, num, str, arr, obj, Items, nil, cons, Fields, lookup_field, items_list,
}
use evidra_bench.Audit.FieldPath.{FieldSegment, parse_field_path}
use evidra_bench.Audit.Fields.{
  candidates, stop, absent_child, absent_step, absent_nodes, absent_walk, decode_ops,
  object_matches, body_matches, forbidden_change_matches,
}
use evidra_bench.Audit.Transitions.{Found, walk_merge_iff}

on_object :
    (fs : Fields) (path change : String) (value : Json) (full_replace : Bool)
    → is_nil (parse_field_path path) ≡ false
    → forbidden_change_matches (some (obj fs)) path change value full_replace
      ≡ (object_matches fs (parse_field_path path) change value full_replace, true)
unfolding forbidden_change_matches body_matches
on_object fs path change value full_replace h = rw h refl

off_object :
    (body : Option Json) (path change : String) (value : Json) (full_replace : Bool)
    → is_nil (parse_field_path path) ≡ true
    → forbidden_change_matches body path change value full_replace ≡ (false, false)
unfolding forbidden_change_matches
off_object body path change value full_replace h = rw h refl

is_nil→eq {ℓ} : {A : Type ℓ} (xs : List A) → is_nil xs ≡ true → xs ≡ []
is_nil→eq [] h = refl
is_nil→eq (x ∷ xs) h = cc h

no_path {ℓ} : {P : Type ℓ} {change : String} {value n : Json} → Found [] change value n → P
no_path found = elim (found.reached) [ ]

-- A patch that is an object is convicted exactly if the path of the field leads in it to a value
-- that the change forbids.
pub merge_patch_iff :
    (fs : Fields) (path change : String) (value : Json)
    → ((forbidden_change_matches (some (obj fs)) path change value false).0 ≡ true)
      ↔ Found (parse_field_path path) change value (obj fs)
unfolding forbidden_change_matches body_matches object_matches
merge_patch_iff fs path change value = elim (Bool-cases (is_nil (parse_field_path path))) [
  | inl nowhere ↦ (
    λ h. cc (h, off_object (some (obj fs)) path change value false nowhere),
    λ found. no_path (rw (is_nil→eq (parse_field_path path) nowhere) at found),
  )
  | inr somewhere ↦
      let on = on_object fs path change value false somewhere in
      let walk = walk_merge_iff (parse_field_path path) change value (obj fs) in
      (λ h. walk.0 (ground (arith, rw on at h)), λ found. rw on (ground (arith, walk.1 found)))
]

on_body :
    (v : Json) (path change : String) (value : Json) (full_replace : Bool)
    → is_nil (parse_field_path path) ≡ false
    → forbidden_change_matches (some v) path change value full_replace
      ≡ body_matches v (parse_field_path path) change value full_replace
unfolding forbidden_change_matches
on_body v path change value full_replace h = rw h refl

body_interpreted :
    (v : Json) (segs : List FieldSegment) (change : String) (value : Json) (full_replace : Bool)
    → (body_matches v segs change value full_replace).0 ≡ true
    → (body_matches v segs change value full_replace).1 ≡ true
unfolding body_matches
body_interpreted (arr xs) segs change value full_replace h = elim (Option-cases (decode_ops xs)) [
  | inl bad ↦ cc (rw (bad, body_matches) at h)
  | inr (ops, good) ↦ rw (good, body_matches) refl
]
body_interpreted (obj fs) segs change value full_replace h = refl
body_interpreted null segs change value full_replace h = cc h
body_interpreted (bool b) segs change value full_replace h = cc h
body_interpreted (num s) segs change value full_replace h = cc h
body_interpreted (str s) segs change value full_replace h = cc h

-- A body that is convicted has been interpreted.
pub convicted_interpreted :
    (body : Option Json) (path change : String) (value : Json) (full_replace : Bool)
    → (forbidden_change_matches body path change value full_replace).0 ≡ true
    → (forbidden_change_matches body path change value full_replace).1 ≡ true
unfolding forbidden_change_matches body_matches
convicted_interpreted none path change value full_replace h =
    elim (Bool-cases (is_nil (parse_field_path path))) [
      | inl nowhere ↦ cc (h, off_object none path change value full_replace nowhere)
      | inr somewhere ↦ cc (rw somewhere at h)
    ]
convicted_interpreted (some v) path change value full_replace h =
    elim (Bool-cases (is_nil (parse_field_path path))) [
      | inl nowhere ↦ cc (h, off_object (some v) path change value full_replace nowhere)
      | inr somewhere ↦
          let on = on_body v path change value full_replace somewhere in
          rw on (body_interpreted v (parse_field_path path) change value full_replace (rw on at h))
    ]

-- Somewhere along the path, through objects only, a key is missing.
data Omits : List FieldSegment → Fields → Type 0 where
  missing :
      {seg : FieldSegment} {rest : List FieldSegment} {fs : Fields}
      → lookup_field seg.key fs ≡ none
      → Omits (seg ∷ rest) fs
  within :
      {seg : FieldSegment} {rest : List FieldSegment} {fs child : Fields}
      → lookup_field seg.key fs ≡ some (obj child)
      → Omits rest child
      → Omits (seg ∷ rest) fs

stopped :
    (seg : FieldSegment) (ends : Bool) (go : List Json → Bool) (n : Json) (ns : List Json)
    (any_map : Bool)
    → absent_step seg ends go n ≡ stop true
    → absent_nodes seg ends go (n ∷ ns) any_map ≡ true
unfolding absent_nodes
stopped seg ends go n ns any_map h = rw (h, absent_nodes) refl

-- The walk on one object, from what its key holds.
absent_one :
    (seg : FieldSegment) (rest : List FieldSegment) (fs : Fields) (o : Option Json)
    → lookup_field seg.key fs ≡ o
    → absent_child seg (is_nil rest) (absent_walk rest) o ≡ stop true
    → absent_walk (seg ∷ rest) (obj fs ∷ []) ≡ true
unfolding absent_walk absent_step
absent_one seg rest fs o e h =
    stopped seg (is_nil rest) (absent_walk rest) (obj fs) [] false
      (ap (absent_child seg (is_nil rest) (absent_walk rest)) e ∙ h)

Omits-absent :
    {segs : List FieldSegment} {fs : Fields} → Omits segs fs → absent_walk segs (obj fs ∷ []) ≡ true
unfolding absent_child
Omits-absent (Omits.missing {seg = seg} {rest = rest} {fs = fs} e) =
    absent_one seg rest fs none e refl
Omits-absent (Omits.within {seg = seg} {rest = rest} {fs = fs} {child = child} e below) =
    absent_one seg rest fs (some (obj child)) e (rw (Omits-absent below) refl)

absent_convicted :
    (fs : Fields) (path : String) (value : Json)
    → absent_walk (parse_field_path path) (obj fs ∷ []) ≡ true
    → forbidden_change_matches (some (obj fs)) path "removed" value true ≡ (true, true)
unfolding object_matches absent_walk
absent_convicted fs path value h = elim (Bool-cases (is_nil (parse_field_path path))) [
  | inl nowhere ↦ absurd (ground (arith, rw (is_nil→eq (parse_field_path path) nowhere) at h))
  | inr somewhere ↦ rw (on_object fs path "removed" value true somewhere) (
      let both : object_matches fs (parse_field_path path) "removed" value true ≡ true =
        ground (arith, h) in
      ap (λ (b : Bool). (b, true)) both)
]

-- An update whose body leaves out a key of the field's path, reached through objects, is convicted
-- of removing the field.
omission_convicted :
    (fs : Fields) (path : String) (value : Json)
    → Omits (parse_field_path path) fs
    → forbidden_change_matches (some (obj fs)) path "removed" value true ≡ (true, true)
omission_convicted fs path value h = absent_convicted fs path value (Omits-absent h)

unfoldable pub is_object : Json → Bool
is_object (obj fs) = true
is_object v = false

no_candidates :
    (pred : String) (xs : Items)
    → any is_object (items_list xs) ≡ false
    → is_nil (candidates pred xs) ≡ true
unfolding candidates items_list any is_object
no_candidates pred nil h = refl
no_candidates pred (cons (obj fs) xs) h = cc h
no_candidates pred (cons null xs) h = no_candidates pred xs h
no_candidates pred (cons (bool b) xs) h = no_candidates pred xs h
no_candidates pred (cons (num s) xs) h = no_candidates pred xs h
no_candidates pred (cons (str s) xs) h = no_candidates pred xs h
no_candidates pred (cons (arr ys) xs) h = no_candidates pred xs h

-- An update that keeps a field whose value is a list without objects is convicted of removing it,
-- for a path of one step.
pub kept_list_convicted :
    (fs : Fields) (path : String) (seg : FieldSegment) (xs : Items) (value : Json)
    → parse_field_path path ≡ seg ∷ []
    → lookup_field seg.key fs ≡ some (arr xs)
    → any is_object (items_list xs) ≡ false
    → forbidden_change_matches (some (obj fs)) path "removed" value true ≡ (true, true)
unfolding absent_child
kept_list_convicted fs path seg xs value parsed there scalars = absent_convicted fs path value (
    rw parsed
      (absent_one seg [] fs (some (arr xs)) there (rw (no_candidates seg.pred xs scalars) refl)))
