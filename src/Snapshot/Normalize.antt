-- ===== src/Snapshot/Normalize.antt =====
-- The normal form of an object: pkg/snapshot/snapshot.go. An object is the map that encoding/json
-- decodes it into; its bytes are the canonical ones, which are equal exactly if `json_equal` holds.
use evidra_bench.Base.{
  String, Bool, false, ◌&&◌, ◌||◌, List, [], ◌∷◌, Option, none, some, ◌==◌, contains, contains_text,
  has_suffix, byte_length, count_code, equal_fold, is_empty, concat, leb, eqb, if◌then◌else◌,
}
use evidra_bench.Json.{
  Json, str, arr, obj, Items, nil, cons, Fields, end, field, lookup_field, count_fields, without,
  with_field,
}

pub record Key : Type 0 where
  pub kind : String
  pub namespace : String
  pub name : String

unfoldable pub key_text : Key → String
key_text k = concat (k.kind ∷ "/" ∷ k.namespace ∷ "/" ∷ k.name ∷ [])

abbrev pub volatile_top : List String
volatile_top =
    "resourceVersion" ∷ "uid" ∷ "creationTimestamp" ∷ "deletionTimestamp"
    ∷ "deletionGracePeriodSeconds" ∷ "managedFields" ∷ "selfLink" ∷ "generation" ∷ []

abbrev pub volatile_annotations : List String
volatile_annotations =
    "control-plane.alpha.kubernetes.io/leader" ∷ "kubectl.kubernetes.io/last-applied-configuration"
    ∷ "leader.election.kubernetes.io/holder" ∷ []

abbrev pub volatile_keys : List String
volatile_keys =
    "lastTransitionTime" ∷ "lastProbeTime" ∷ "lastUpdateTime" ∷ "startTime" ∷ "finishTime"
    ∷ "transitionTime" ∷ "lastScheduleTime" ∷ "lastSyncTime" ∷ "initializationTime"
    ∷ "lastTimestamp" ∷ "firstTimestamp" ∷ "eventTime" ∷ []

unfoldable pub is_volatile_key : String → Bool
is_volatile_key k = contains volatile_keys k

-- 58 is the colon.
unfoldable pub looks_like_timestamp : String → Bool
looks_like_timestamp v =
    leb 20 (byte_length v) && (contains_text v "T" && (has_suffix v "Z" || leb 2 (count_code 58 v)))

-- The entry of a status map that is deleted for its text.
unfoldable pub drops_text : String → String → Bool
drops_text k v =
    (is_volatile_key k && looks_like_timestamp v)
    || (k == "resourceVersion" || k == "controllerRevisionHash")

unfoldable pub drops : String → Json → Bool
drops k (str v) = drops_text k v
drops k _ = false

unfoldable mutual
  unfolding drops

  pub strip_volatile : Fields → Fields
  strip_volatile end = end
  strip_volatile (field k v rest) =
      let left = strip_volatile rest in
      let kept = strip_value v in if drops k v then left else field k kept left

  -- The value of an entry.
  pub strip_value : Json → Json
  strip_value (obj fs) = obj (strip_volatile fs)
  strip_value (arr xs) = arr (strip_items xs)
  strip_value v = v

  -- The maps among the items; a list in a list is left.
  pub strip_items : Items → Items
  strip_items nil = nil
  strip_items (cons x xs) = cons (strip_item x) (strip_items xs)

  pub strip_item : Json → Json
  strip_item (obj fs) = obj (strip_volatile fs)
  strip_item v = v

unfoldable pub without_all : List String → Fields → Fields
without_all [] fs = fs
without_all (k ∷ ks) fs = without_all ks (without k fs)

-- The entry as a map, if it is one: `m, ok := obj[k].(map[string]any)`.
unfoldable pub as_map : Option Json → Option Fields
as_map (some (obj fs)) = some fs
as_map _ = none

unfoldable pub as_text : Option Json → String
as_text (some (str s)) = s
as_text _ = ""

unfoldable pub as_meta : Option Fields → Fields
as_meta none = end
as_meta (some fs) = fs

unfoldable pub or_else : String → String → String
or_else s fallback = if is_empty s then fallback else s

-- The metadata's annotations without the volatile ones; an empty map is deleted.
unfoldable pub put_annotations : Fields → Option Fields → Fields
put_annotations meta none = meta
put_annotations meta (some anns) =
    let kept = without_all volatile_annotations anns in
    if eqb (count_fields kept) 0
    then without "annotations" meta
    else with_field "annotations" (obj kept) meta

unfoldable pub clean_meta : Fields → Fields
clean_meta meta =
    let kept = without_all volatile_top meta in
    put_annotations kept (as_map (lookup_field "annotations" kept))

unfoldable pub put_status : Fields → Option Fields → Fields
put_status o none = o
put_status o (some status) = with_field "status" (obj (strip_volatile status)) o

unfoldable pub put_digest : (Fields → String) → String → Fields → Option Fields → Fields
put_digest digest name o none = o
put_digest digest name o (some payload) =
    with_field name (obj (field "evidra:digest" (str (digest payload)) end)) o

-- `digest` is the hash of the entries of a map in the order of their keys.
unfoldable pub redact_entry : (Fields → String) → String → Fields → Fields
redact_entry digest name o = put_digest digest name o (as_map (lookup_field name o))

unfoldable pub secret_redact : (Fields → String) → String → Fields → Fields
secret_redact digest kind o =
    if equal_fold kind "Secret"
    then redact_entry digest "stringData" (redact_entry digest "data" o)
    else o

unfoldable pub meta_of : Fields → Fields
meta_of o = as_meta (as_map (lookup_field "metadata" o))

unfoldable pub key_of_object : Fields → String → String → Key
key_of_object o fallback_kind fallback_ns = record {
  kind = or_else (as_text (lookup_field "kind" o)) fallback_kind;
  namespace = or_else (as_text (lookup_field "namespace" (meta_of o))) fallback_ns;
  name = as_text (lookup_field "name" (meta_of o));
}

unfoldable pub normalize_object : (Fields → String) → Fields → String → String → Key × Fields
normalize_object digest o fallback_kind fallback_ns =
    let k = key_of_object o fallback_kind fallback_ns in
    let stripped = put_status o (as_map (lookup_field "status" o)) in
    (k, with_field "metadata" (obj (clean_meta (meta_of o))) (secret_redact digest k.kind stripped))
