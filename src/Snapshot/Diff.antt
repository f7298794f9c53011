-- ===== src/Snapshot/Diff.antt =====
-- The difference of two checkpoints: pkg/snapshot/diff.go.
use Prim.Native.Nat.{Ordering}
use Prim.Native.String.{compare}
use evidra_bench.Base.{
  String, ℕ, ◌+◌, Bool, false, not, List, [], ◌∷◌, ◌++◌, Option, none, some, any, concat, is_empty,
  byte_length, ltb, take_text, if◌then◌else◌,
}
use evidra_bench.Json.{obj, Fields, without, json_equal}
use evidra_bench.Snapshot.Normalize.{Key, key_text}
use evidra_bench.Snapshot.Sets.{Objects, StateSet, key_equal, find_object}

pub record Violation : Type 0 where
  pub source : String
  pub object : String
  pub kind : String
  pub from : String
  pub to : String

-- A digest is text of ASCII.
unfoldable pub trunc : String → String
trunc d = if ltb 12 (byte_length d) then take_text 12 d else if is_empty d then "-" else d

unfoldable pub violation_text : Violation → String
violation_text v =
    concat (v.kind ∷ " " ∷ v.object ∷ " (" ∷ trunc v.from ∷ " -> " ∷ trunc v.to ∷ ")" ∷ [])

-- The surface that is compared: the object without its status.
unfoldable pub comparable : Fields → Fields
comparable o = without "status" o

unfoldable pub same_object : Option Fields → Option Fields → Bool
same_object (some b) (some a) = json_equal (obj (comparable b)) (obj (comparable a))
same_object _ _ = false

unfoldable pub has_key : Key → List Key → Bool
has_key k ks = any (key_equal k) ks

unfoldable pub add_keys : Objects → List Key → List Key
add_keys [] ks = ks
add_keys ((k, o) ∷ rest) ks = add_keys rest (if has_key k ks then ks else ks ++ (k ∷ []))

-- sort.Slice by the texts of the keys, by insertion.
unfoldable pub insert_key : Key → List Key → List Key
insert_key k [] = k ∷ []
insert_key k (j ∷ js) =
    let rest = j ∷ insert_key k js in
    elim (compare (key_text k) (key_text j)) [ Ordering.gt ↦ rest | _ ↦ k ∷ j ∷ js ]

unfoldable pub sort_keys : List Key → List Key
sort_keys [] = []
sort_keys (k ∷ ks) = insert_key k (sort_keys ks)

unfoldable pub all_keys : StateSet → StateSet → List Key
all_keys before after = sort_keys (add_keys after.objects (add_keys before.objects []))

unfoldable pub change_kind : Option Fields → Option Fields → String
change_kind none a = "created"
change_kind (some b) none = "deleted"
change_kind (some b) (some a) = "modified"

unfoldable pub digest_of : (Fields → String) → Option Fields → String
digest_of digest none = ""
digest_of digest (some o) = digest (comparable o)

unfoldable pub violation_of : (Fields → String) → StateSet → StateSet → Key → Violation
violation_of digest before after k = record {
  source = "snapshot";
  object = key_text k;
  kind = change_kind (find_object k before.objects) (find_object k after.objects);
  from = digest_of digest (find_object k before.objects);
  to = digest_of digest (find_object k after.objects);
}

unfoldable pub is_changed : StateSet → StateSet → Key → Bool
is_changed before after k =
    not (same_object (find_object k before.objects) (find_object k after.objects))

-- A nil function allows nothing.
unfoldable pub is_allowed : Option (Key → Bool) → Key → Bool
is_allowed none k = false
is_allowed (some allowed) k = allowed k

-- One round of the loop.
unfoldable pub diff_key :
    (Fields → String)
    → StateSet
    → StateSet
    → Option (Key → Bool)
    → Key
    → List Violation × ℕ
    → List Violation × ℕ
diff_key digest before after allowed k rest =
    if not (is_changed before after k)
    then rest
    else if is_allowed allowed k
    then (rest.0, rest.1 + 1)
    else (violation_of digest before after k ∷ rest.0, rest.1)

unfoldable pub diff_keys :
    (Fields → String) → StateSet → StateSet → Option (Key → Bool) → List Key → List Violation × ℕ
diff_keys digest before after allowed [] = ([], 0)
diff_keys digest before after allowed (k ∷ ks) =
    diff_key digest before after allowed k (diff_keys digest before after allowed ks)

unfoldable pub diff :
    (Fields → String) → StateSet → StateSet → Option (Key → Bool) → List Violation × ℕ
diff digest before after allowed = diff_keys digest before after allowed (all_keys before after)
