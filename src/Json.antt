-- ===== src/Json.antt =====
-- JSON values as `encoding/json` decodes them into `any`: nil, bool, float64, string, []any and
-- map[string]any. A number is held by the text that `json.Marshal` prints for it.
use evidra_bench.Base.{
  String, Bool, true, false, ◌&&◌, Option, none, some, List, [], ◌∷◌, ◌==◌, ℕ, ◌+◌, eqb,
  if◌then◌else◌,
}

mutual
  pub data Json : Type 0 where
    null : Json
    bool : Bool → Json
    num : String → Json
    str : String → Json
    arr : Items → Json
    obj : Fields → Json

  pub data Items : Type 0 where
    nil : Items
    cons : Json → Items → Items

  -- A map: each key once.
  pub data Fields : Type 0 where
    end : Fields
    field : String → Json → Fields → Fields

unfoldable pub lookup_field : String → Fields → Option Json
lookup_field k end = none
lookup_field k (field j v rest) = if j == k then some v else lookup_field k rest

unfoldable pub count_fields : Fields → ℕ
count_fields end = 0
count_fields (field j v rest) = 1 + count_fields rest

-- `delete(m, k)`
unfoldable pub without : String → Fields → Fields
without k end = end
without k (field j v rest) = let left = without k rest in if j == k then left else field j v left

-- `m[k] = v`
unfoldable pub with_field : String → Json → Fields → Fields
with_field k v end = field k v end
with_field k v (field j w rest) =
    let more = with_field k v rest in if j == k then field j v rest else field j w more

unfoldable pub items_list : Items → List Json
items_list nil = []
items_list (cons x xs) = x ∷ items_list xs

-- The entry `name` as a string; the empty string if there is none or it is no string.
unfoldable pub name_of : Fields → String
name_of fs = elim (lookup_field "name" fs) [ some (str s) ↦ s | _ ↦ "" ]

bool_equal : Bool → Bool → Bool
bool_equal true b = b
bool_equal false true = false
bool_equal false false = true

unfoldable pub holds_at : (Json → Bool) → Option Json → Bool
holds_at p none = false
holds_at p (some v) = p v

-- Equality of the canonical marshalled forms, in which the keys of a map are sorted.
unfoldable mutual
  unfolding bool_equal holds_at

  pub json_equal : Json → Json → Bool
  json_equal null null = true
  json_equal (bool a) (bool b) = bool_equal a b
  json_equal (num a) (num b) = a == b
  json_equal (str a) (str b) = a == b
  json_equal (arr xs) (arr ys) = items_equal xs ys
  json_equal (obj fs) (obj gs) = eqb (count_fields fs) (count_fields gs) && fields_within fs gs
  json_equal _ _ = false

  pub items_equal : Items → Items → Bool
  items_equal nil nil = true
  items_equal (cons x xs) (cons y ys) = json_equal x y && items_equal xs ys
  items_equal _ _ = false

  pub fields_within : Fields → Fields → Bool
  fields_within end gs = true
  fields_within (field k v fs) gs =
      holds_at (json_equal v) (lookup_field k gs) && fields_within fs gs
