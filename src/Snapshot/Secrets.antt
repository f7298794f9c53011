-- ===== src/Snapshot/Secrets.antt =====
-- What the normal form keeps of a Secret: pkg/snapshot/snapshot.go.
use evidra_bench.Base.{
  String, true, false, [], ◌∷◌, Option, none, some, ◌≡◌, refl, sym, subst, ap, ◌∙◌, arith, ◌==◌,
  contains, equal_fold, eq_iff, inl, inr, Bool-cases,
}
use evidra_bench.Json.{Json, str, obj, Fields, end, field, lookup_field}
use evidra_bench.Snapshot.Normalize.{
  as_map, put_status, put_digest, redact_entry, secret_redact, key_of_object, normalize_object,
}
use evidra_bench.Snapshot.Volatile.{lookup-with_field, lookup-with_field_other}

module _ (digest : Fields → String) where
  -- The entry that stands for a payload.
  pub digest_entry : Fields → Json
  digest_entry payload = obj (field "evidra:digest" (str (digest payload)) end)

  lookup-put_status :
      (g : String) (o : Fields) (status : Option Fields)
      → ("status" == g) ≡ false
      → lookup_field g (put_status o status) ≡ lookup_field g o
  unfolding put_status
  lookup-put_status g o none h = refl
  lookup-put_status g o (some s) h = lookup-with_field_other g "status" _ o h

  lookup-put_digest :
      (g name : String) (o : Fields) (payload : Option Fields)
      → (name == g) ≡ false
      → lookup_field g (put_digest digest name o payload) ≡ lookup_field g o
  unfolding put_digest
  lookup-put_digest g name o none h = refl
  lookup-put_digest g name o (some p) h = lookup-with_field_other g name _ o h

  lookup-redact_entry :
      (name : String) (o payload : Fields)
      → lookup_field name o ≡ some (obj payload)
      → lookup_field name (redact_entry digest name o) ≡ some (digest_entry payload)
  unfolding redact_entry put_digest as_map digest_entry
  lookup-redact_entry name o payload h =
      ap (λ e. lookup_field name (put_digest digest name o (as_map e))) h
      ∙ lookup-with_field name _ o

  lookup-redact_entry_other :
      (g name : String) (o : Fields)
      → (name == g) ≡ false
      → lookup_field g (redact_entry digest name o) ≡ lookup_field g o
  unfolding redact_entry
  lookup-redact_entry_other g name o h = lookup-put_digest g name o _ h

  lookup-secret_redact :
      (name kind : String) (o payload : Fields)
      → contains ("data" ∷ "stringData" ∷ []) name ≡ true
      → equal_fold kind "Secret" ≡ true
      → lookup_field name o ≡ some (obj payload)
      → lookup_field name (secret_redact digest kind o) ≡ some (digest_entry payload)
  unfolding secret_redact contains
  lookup-secret_redact name kind o payload listed secret h =
      let redacted = redact_entry digest "stringData" (redact_entry digest "data" o) in
      let form : secret_redact digest kind o ≡ redacted = simp secret refl in
      ap (lookup_field name) form ∙ elim (Bool-cases ("data" == name)) [
        | inl is_data ↦
            subst
              (λ n.
                lookup_field n o ≡ some (obj payload)
                → lookup_field n redacted ≡ some (digest_entry payload))
              ((eq_iff "data" name).0 is_data)
              (λ here.
                lookup-redact_entry_other "data" "stringData" (redact_entry digest "data" o) refl
                ∙ lookup-redact_entry "data" o payload here)
              h
        | inr other ↦
            let text : ("stringData" == name) ≡ true = ground (arith, listed, other) in
            subst
              (λ n.
                lookup_field n o ≡ some (obj payload)
                → lookup_field n redacted ≡ some (digest_entry payload))
              ((eq_iff "stringData" name).0 text)
              (λ here.
                lookup-redact_entry "stringData" (redact_entry digest "data" o) payload
                  (lookup-redact_entry_other "stringData" "data" o refl ∙ here))
              h
      ]

other_entry :
    (other name : String)
    → contains ("data" ∷ "stringData" ∷ []) name ≡ true
    → contains ("data" ∷ "stringData" ∷ []) other ≡ false
    → (other == name) ≡ false
other_entry other name listed unlisted = elim (Bool-cases (other == name)) [
  | inl same ↦
      let clash : contains ("data" ∷ "stringData" ∷ []) other ≡ true =
        subst (λ x. contains ("data" ∷ "stringData" ∷ []) x ≡ true)
          (sym ((eq_iff other name).0 same)) listed in
      cc (clash, unlisted)
  | inr apart ↦ apart
]

-- In the normal form of a Secret, whatever the case of its kind, `data` and `stringData` that are
-- maps are replaced by their digests.
pub normalize_object-redacted :
    (digest : Fields → String) (name : String) (o payload : Fields)
    (fallback_kind fallback_ns : String)
    → contains ("data" ∷ "stringData" ∷ []) name ≡ true
    → equal_fold (key_of_object o fallback_kind fallback_ns).kind "Secret" ≡ true
    → lookup_field name o ≡ some (obj payload)
    → lookup_field name (normalize_object digest o fallback_kind fallback_ns).1
      ≡ some (digest_entry digest payload)
unfolding normalize_object contains
normalize_object-redacted digest name o payload fallback_kind fallback_ns listed secret h =
    let kind = (key_of_object o fallback_kind fallback_ns).kind in
    let stripped = put_status o (as_map (lookup_field "status" o)) in
    lookup-with_field_other name "metadata" _ (secret_redact digest kind stripped)
      (other_entry "metadata" name listed refl)
    ∙ lookup-secret_redact digest name kind stripped payload listed secret
        (lookup-put_status digest name o _ (other_entry "status" name listed refl) ∙ h)
