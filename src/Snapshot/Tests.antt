-- ===== src/Snapshot/Tests.antt =====
-- The theorems on pkg/snapshot at a deployment that changed and a Secret.
use evidra_bench.Base.{
  String, true, [], ◌∷◌, none, some, ◌≡◌, ◌↔◌, refl, Memᴰ, contains, equal_fold,
}
use evidra_bench.Json.{str, obj, Fields, end, field, lookup_field, with_field}
use evidra_bench.Snapshot.Normalize.{
  Key, volatile_top, key_of_object, as_text, or_else, normalize_object,
}
use evidra_bench.Snapshot.Sets.{StateSet}
use evidra_bench.Snapshot.Diff.{Violation, violation_of, diff}
use evidra_bench.Snapshot.Changes.{IsDrift, diff_lem}
use evidra_bench.Snapshot.Volatile.{normalize_object-volatile}
use evidra_bench.Snapshot.Secrets.{digest_entry, normalize_object-redacted}

abbrev digest : Fields → String
digest fs = "0123456789abcdef"

abbrev web : Key
web = record { kind = "Deployment"; namespace = "shop"; name = "web" }

abbrev image : String → Fields
image tag = field "image" (str tag) end

abbrev set : String → StateSet
set tag = record {
  name = "post-agent";
  objects = (web, field "spec" (obj (image tag)) end) ∷ [];
  unreadable = [];
}

abbrev drifted : Violation
drifted = record {
  source = "snapshot";
  object = "Deployment/shop/web";
  kind = "modified";
  from = digest end;
  to = digest end;
}

diff_lem_example : Memᴰ drifted (diff digest (set "1") (set "2") none).0 ↔ (
    (k : Key) × IsDrift (set "1") (set "2") none k
    × (violation_of digest (set "1") (set "2") k ≡ drifted))
diff_lem_example = diff_lem digest (set "1") (set "2") none drifted

abbrev meta : Fields
meta = field "name" (str "web") (field "resourceVersion" (str "7") end)

abbrev spec : Fields
spec = field "kind" (str "Deployment") (field "spec" (obj (image "1")) end)

volatile_listed : contains volatile_top "resourceVersion" ≡ true
unfolding contains
volatile_listed = refl

normalize_object-volatile_example :
    normalize_object digest
      (field "metadata" (obj (with_field "resourceVersion" (str "8") meta)) spec)
      ""
      "shop"
    ≡ normalize_object digest (field "metadata" (obj meta) spec) "" "shop"
normalize_object-volatile_example =
    normalize_object-volatile digest "resourceVersion" (str "8") meta spec "" "shop" volatile_listed

abbrev payload : Fields
payload = field "key" (str "YQ==") end

abbrev secret : Fields
secret = field "kind" (str "secret") (field "data" (obj payload) end)

data_listed : contains ("data" ∷ "stringData" ∷ []) "data" ≡ true
unfolding contains
data_listed = refl

secret_kind : equal_fold (key_of_object secret "" "shop").kind "Secret" ≡ true
unfolding key_of_object lookup_field as_text or_else equal_fold
secret_kind = refl

secret_payload : lookup_field "data" secret ≡ some (obj payload)
unfolding lookup_field
secret_payload = refl

normalize_object-redacted_example :
    lookup_field "data" (normalize_object digest secret "" "shop").1
    ≡ some (digest_entry digest payload)
normalize_object-redacted_example =
    normalize_object-redacted digest "data" secret payload "" "shop" data_listed secret_kind
      secret_payload
