-- ===== src/Snapshot/Volatile.antt =====
-- What the normal form of an object forgets: pkg/snapshot/snapshot.go.
use evidra_bench.Base.{
  String, true, false, List, [], ◌∷◌, Option, none, some, ◌≡◌, refl, sym, subst, ap, ◌∙◌, arith,
  ◌==◌, eq_iff, eq_refl, contains, equal_fold, inl, inr, Bool-cases,
}
use evidra_bench.Json.{Json, obj, Fields, end, field, lookup_field, without, with_field}
use evidra_bench.Snapshot.Normalize.{
  volatile_top, without_all, as_map, as_meta, as_text, or_else, clean_meta, put_annotations,
  put_status, put_digest, redact_entry, secret_redact, meta_of, key_of_object, normalize_object,
}

without-with_field :
    (k : String) (v : Json) (fs : Fields) → without k (with_field k v fs) ≡ without k fs
unfolding without with_field
without-with_field k v end = simp (eq_refl k) refl
without-with_field k v (field j w rest) = elim (Bool-cases (j == k)) [
  | inl same ↦ simp same refl
  | inr other ↦ simp (other, without-with_field k v rest) refl
]

without-with_field_other :
    (g k : String) (v : Json) (fs : Fields)
    → (k == g) ≡ false
    → without g (with_field k v fs) ≡ with_field k v (without g fs)
unfolding without with_field
without-with_field_other g k v end h = simp h refl
without-with_field_other g k v (field j w rest) h = elim (Bool-cases (j == k)) [
  | inl same ↦
      let apart : (j == g) ≡ false = subst (λ x. (x == g) ≡ false) (sym ((eq_iff j k).0 same)) h in
      simp (same, apart) refl
  | inr other ↦ elim (Bool-cases (j == g)) [
    | inl hit ↦ simp (other, hit, without-with_field_other g k v rest h) refl
    | inr miss ↦ simp (other, miss, without-with_field_other g k v rest h) refl
  ]
]

pub lookup-with_field :
    (k : String) (v : Json) (fs : Fields) → lookup_field k (with_field k v fs) ≡ some v
unfolding lookup_field with_field
lookup-with_field k v end = simp (eq_refl k) refl
lookup-with_field k v (field j w rest) = elim (Bool-cases (j == k)) [
  | inl same ↦ simp same refl
  | inr other ↦ simp (other, lookup-with_field k v rest) refl
]

pub lookup-with_field_other :
    (g k : String) (v : Json) (fs : Fields)
    → (k == g) ≡ false
    → lookup_field g (with_field k v fs) ≡ lookup_field g fs
unfolding lookup_field with_field
lookup-with_field_other g k v end h = simp h refl
lookup-with_field_other g k v (field j w rest) h = elim (Bool-cases (j == k)) [
  | inl same ↦
      let apart : (j == g) ≡ false = subst (λ x. (x == g) ≡ false) (sym ((eq_iff j k).0 same)) h in
      simp (same, apart) refl
  | inr other ↦ elim (Bool-cases (j == g)) [
    | inl hit ↦ simp (other, hit, lookup-with_field_other g k v rest h) refl
    | inr miss ↦ simp (other, miss, lookup-with_field_other g k v rest h) refl
  ]
]

without_all-with_field :
    (ks : List String) (k : String) (v : Json) (fs : Fields)
    → contains ks k ≡ true
    → without_all ks (with_field k v fs) ≡ without_all ks fs
unfolding without_all contains
without_all-with_field [] k v fs h = cc h
without_all-with_field (g ∷ ks) k v fs h = elim (Bool-cases (k == g)) [
  | inl same ↦
      let here : k ≡ g = (eq_iff k g).0 same in
      ap (without_all ks)
        (subst (λ x. without x (with_field k v fs) ≡ without x fs) here (without-with_field k v fs))
  | inr other ↦
      let listed : contains ks k ≡ true = ground (arith, h, other, eq_iff g k, eq_iff k g) in
      ap (without_all ks) (without-with_field_other g k v fs other)
      ∙ without_all-with_field ks k v (without g fs) listed
]

clean_meta-with_field :
    (f : String) (v : Json) (m : Fields)
    → contains volatile_top f ≡ true
    → clean_meta (with_field f v m) ≡ clean_meta m
unfolding clean_meta
clean_meta-with_field f v m h =
    ap (λ kept. put_annotations kept (as_map (lookup_field "annotations" kept)))
      (without_all-with_field volatile_top f v m h)

not_volatile :
    (f g : String)
    → contains volatile_top f ≡ true
    → contains volatile_top g ≡ false
    → (f == g) ≡ false
not_volatile f g h k = elim (Bool-cases (f == g)) [
  | inl same ↦
      let clash : contains volatile_top g ≡ true =
        subst (λ x. contains volatile_top x ≡ true) ((eq_iff f g).0 same) h in
      cc (clash, k)
  | inr other ↦ other
]

-- The normal form of an object whose metadata is `m`.
put_status-metadata :
    (x : Json) (o : Fields) (status : Option Fields)
    → put_status (field "metadata" x o) status ≡ field "metadata" x (put_status o status)
unfolding put_status with_field
put_status-metadata x o none = refl
put_status-metadata x o (some s) = refl

put_digest-metadata :
    (digest : Fields → String) (name : String) (x : Json) (o : Fields) (payload : Option Fields)
    → ("metadata" == name) ≡ false
    → put_digest digest name (field "metadata" x o) payload
      ≡ field "metadata" x (put_digest digest name o payload)
unfolding put_digest with_field
put_digest-metadata digest name x o none h = refl
put_digest-metadata digest name x o (some p) h = simp h refl

redact_entry-metadata :
    (digest : Fields → String) (name : String) (x : Json) (o : Fields)
    → ("metadata" == name) ≡ false
    → redact_entry digest name (field "metadata" x o)
      ≡ field "metadata" x (redact_entry digest name o)
unfolding redact_entry lookup_field
redact_entry-metadata digest name x o h =
    let past : lookup_field name (field "metadata" x o) ≡ lookup_field name o = simp h refl in
    ap (λ e. put_digest digest name (field "metadata" x o) (as_map e)) past
    ∙ put_digest-metadata digest name x o (as_map (lookup_field name o)) h

secret_redact-metadata :
    (digest : Fields → String) (kind : String) (x : Json) (o : Fields)
    → secret_redact digest kind (field "metadata" x o)
      ≡ field "metadata" x (secret_redact digest kind o)
unfolding secret_redact
secret_redact-metadata digest kind x o = elim (Bool-cases (equal_fold kind "Secret")) [
  | inl secret ↦ simp secret (
      ap (redact_entry digest "stringData") (redact_entry-metadata digest "data" x o refl)
      ∙ redact_entry-metadata digest "stringData" x (redact_entry digest "data" o) refl)
  | inr plain ↦ simp plain refl
]

normal_metadata :
    (digest : Fields → String) (m o : Fields) (fallback_kind fallback_ns : String)
    → normalize_object digest (field "metadata" (obj m) o) fallback_kind fallback_ns ≡ (
      record {
        kind = or_else (as_text (lookup_field "kind" o)) fallback_kind;
        namespace = or_else (as_text (lookup_field "namespace" m)) fallback_ns;
        name = as_text (lookup_field "name" m);
      },
      field "metadata" (obj (clean_meta m)) (
          secret_redact digest
            (or_else (as_text (lookup_field "kind" o)) fallback_kind)
            (put_status o (as_map (lookup_field "status" o)))),
    )
unfolding normalize_object key_of_object meta_of lookup_field as_map as_meta with_field
normal_metadata digest m o fallback_kind fallback_ns =
    let kind = or_else (as_text (lookup_field "kind" o)) fallback_kind in
    let key = key_of_object (field "metadata" (obj m) o) fallback_kind fallback_ns in
    ap (λ fs. (key, with_field "metadata" (obj (clean_meta m)) fs))
      (ap (secret_redact digest kind)
          (put_status-metadata (obj m) o (as_map (lookup_field "status" o)))
        ∙ secret_redact-metadata digest kind (obj m)
            (put_status o (as_map (lookup_field "status" o))))

-- Setting a volatile field of the metadata to any value, or adding one, changes neither the key nor
-- the normal form of an object. The metadata stand first in the object's map.
pub normalize_object-volatile :
    (digest : Fields → String) (f : String) (v : Json) (m o : Fields)
    (fallback_kind fallback_ns : String)
    → contains volatile_top f ≡ true
    → normalize_object digest
        (field "metadata" (obj (with_field f v m)) o)
        fallback_kind
        fallback_ns
      ≡ normalize_object digest (field "metadata" (obj m) o) fallback_kind fallback_ns
unfolding contains
normalize_object-volatile digest f v m o fallback_kind fallback_ns h =
    let named = lookup-with_field_other "name" f v m (not_volatile f "name" h refl) in
    let spaced = lookup-with_field_other "namespace" f v m (not_volatile f "namespace" h refl) in
    let cleaned = clean_meta-with_field f v m h in
    let kind = or_else (as_text (lookup_field "kind" o)) fallback_kind in
    let rest = secret_redact digest kind (put_status o (as_map (lookup_field "status" o))) in
    let same : (
      record {
        kind = kind;
        namespace = or_else (as_text (lookup_field "namespace" (with_field f v m))) fallback_ns;
        name = as_text (lookup_field "name" (with_field f v m));
      },
      field "metadata" (obj (clean_meta (with_field f v m))) rest,
    )
        ≡ (
          record {
            kind = kind;
            namespace = or_else (as_text (lookup_field "namespace" m)) fallback_ns;
            name = as_text (lookup_field "name" m);
          },
          field "metadata" (obj (clean_meta m)) rest,
        ) =
      λ i. (
        record {
          kind = kind;
          namespace = or_else (as_text (spaced i)) fallback_ns;
          name = as_text (named i);
        },
        field "metadata" (obj (cleaned i)) rest,
      ) in
    normal_metadata digest (with_field f v m) o fallback_kind fallback_ns
    ∙ (same ∙ sym (normal_metadata digest m o fallback_kind fallback_ns))
