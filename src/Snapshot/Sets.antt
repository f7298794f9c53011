-- ===== src/Snapshot/Sets.antt =====
-- Checkpoints of the cluster's state: `NewSet` of pkg/snapshot/snapshot.go. The lister is an argument.
use evidra_bench.Base.{
  String, Bool, ◌&&◌, List, [], ◌∷◌, ◌++◌, Option, none, some, ◌==◌, concat, is_nil, Result, ok,
  err, if◌then◌else◌,
}
use evidra_bench.Json.{Json, arr, obj, Items, nil, cons, Fields, lookup_field}
use evidra_bench.Snapshot.Normalize.{Key, normalize_object}

pub record Target : Type 0 where
  pub namespace : String
  pub resource : String
  pub kind : String

unfoldable pub key_equal : Key → Key → Bool
key_equal a b = a.kind == b.kind && (a.namespace == b.namespace && a.name == b.name)

-- A map from keys to normal forms: each key once.
abbrev pub Objects : Type 0
Objects = List (Key × Fields)

unfoldable pub find_object : Key → Objects → Option Fields
find_object k [] = none
find_object k ((j, o) ∷ rest) = if key_equal j k then some o else find_object k rest

unfoldable pub put_object : Key → Fields → Objects → Objects
put_object k o [] = (k, o) ∷ []
put_object k o ((j, p) ∷ rest) =
    let more = put_object k o rest in if key_equal j k then (j, o) ∷ rest else (j, p) ∷ more

-- `name` is the checkpoint's, `unreadable` what failed to be read.
pub record StateSet : Type 0 where
  pub name : String
  pub objects : Objects
  pub unreadable : List String

unfoldable pub is_empty_set : StateSet → Bool
is_empty_set s = is_nil s.objects

unfoldable pub add_object : (Fields → String) → Target → Fields → StateSet → StateSet
add_object digest t o s =
    let normal = normalize_object digest o t.kind t.namespace in
    record s { objects = put_object normal.0 normal.1 s.objects }

-- The items that are maps.
unfoldable pub add_items : (Fields → String) → Target → Items → StateSet → StateSet
add_items digest t nil s = s
add_items digest t (cons (obj o) xs) s = add_items digest t xs (add_object digest t o s)
add_items digest t (cons _ xs) s = add_items digest t xs s

unfoldable pub add_list : (Fields → String) → Target → Option Json → StateSet → StateSet
add_list digest t (some (arr xs)) s = add_items digest t xs s
add_list digest t _ s = s

unfoldable pub add_listed : (Fields → String) → Target → Result String Fields → StateSet → StateSet
add_listed digest t (err e) s = record s {
  unreadable = s.unreadable ++ (concat (t.namespace ∷ "/" ∷ t.resource ∷ ": " ∷ e ∷ []) ∷ []);
}
add_listed digest t (ok doc) s = add_list digest t (lookup_field "items" doc) s

unfoldable pub add_targets :
    (Fields → String) → (Target → Result String Fields) → List Target → StateSet → StateSet
add_targets digest list [] s = s
add_targets digest list (t ∷ ts) s = add_targets digest list ts (add_listed digest t (list t) s)

unfoldable pub new_set :
    (Fields → String) → String → List Target → (Target → Result String Fields) → StateSet
new_set digest name targets list =
    add_targets digest list targets (record { name = name; objects = []; unreadable = [] })
