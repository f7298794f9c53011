-- ===== src/Snapshot/Changes.antt =====
-- What the difference of two checkpoints reports: pkg/snapshot/diff.go.
use evidra_bench.Base.{
  String, ℕ, Bool, true, false, not, ◌&&◌, ◌||◌, List, [], ◌∷◌, Option, ◌≡◌, ◌↔◌, refl, sym, subst,
  ap, ◌∙◌, arith, any, Memᴰ, or_iff, inl, inr, Bool-cases,
}
use evidra_bench.Json.{Fields}
use evidra_bench.Snapshot.Normalize.{Key}
use evidra_bench.Snapshot.Sets.{StateSet}
use evidra_bench.Snapshot.Diff.{
  Violation, violation_of, is_changed, is_allowed, has_key, all_keys, diff_key, diff_keys, diff,
}
use evidra_bench.Snapshot.Keys.{key_equal_iff, key_equal_refl, is_present, has_key-all_keys}

-- An object of one of the sets that is not the same in both, and that the scope does not allow to
-- change.
pub record IsDrift (before after : StateSet) (allowed : Option (Key → Bool)) (k : Key)
    : Type 0 where
  pub present : (is_present k before.objects || is_present k after.objects) ≡ true
  pub changed : is_changed before after k ≡ true
  pub outside : is_allowed allowed k ≡ false

module _ (digest : Fields → String) (before after : StateSet) (allowed : Option (Key → Bool)) where
  -- The key is reported by its round.
  is_reported : Key → Bool
  is_reported k = is_changed before after k && not (is_allowed allowed k)

  diff_key-reported :
      (k : Key) (rest : List Violation × ℕ)
      → is_reported k ≡ true
      → (diff_key digest before after allowed k rest).0
        ≡ violation_of digest before after k ∷ rest.0
  unfolding diff_key is_reported
  diff_key-reported k rest h =
      let changed : is_changed before after k ≡ true = ground (arith, h) in
      let outside : is_allowed allowed k ≡ false = ground (arith, h) in simp (changed, outside) refl

  diff_key-silent :
      (k : Key) (rest : List Violation × ℕ)
      → is_reported k ≡ false
      → (diff_key digest before after allowed k rest).0 ≡ rest.0
  unfolding diff_key is_reported
  diff_key-silent k rest h = elim (Bool-cases (is_changed before after k)) [
    | inl changed ↦
        let inside : is_allowed allowed k ≡ true = ground (arith, h, changed) in
        simp (changed, inside) refl
    | inr same ↦ simp same refl
  ]

  later_key : (k j : Key) (ks : List Key) → has_key k ks ≡ true → has_key k (j ∷ ks) ≡ true
  unfolding has_key any
  later_key k j ks h = ground (arith, h)

  reported_mem :
      (v : Violation) (ks : List Key)
      → Memᴰ v (diff_keys digest before after allowed ks).0
      → (k : Key) × (has_key k ks ≡ true)
        × ((is_reported k ≡ true) × (violation_of digest before after k ≡ v))
  unfolding diff_keys
  reported_mem v [] m = elim m [ ]
  reported_mem v (k ∷ ks) m =
      let rest = diff_keys digest before after allowed ks in
      let deeper : Memᴰ v rest.0
          → (j : Key) × (has_key j (k ∷ ks) ≡ true)
            × ((is_reported j ≡ true) × (violation_of digest before after j ≡ v)) =
        λ later. let (j, h, found) = reported_mem v ks later in (j, later_key j k ks h, found) in
      elim (Bool-cases (is_reported k)) [
        | inl here ↦ elim (subst (Memᴰ v) (diff_key-reported k rest here) m) [
          | Memᴰ.head same ↦
              (k, unfold has_key any in ground (arith, key_equal_refl k), (here, sym same))
          | Memᴰ.tail later ↦ deeper later
        ]
        | inr silent ↦ deeper (subst (Memᴰ v) (diff_key-silent k rest silent) m)
      ]

  mem_reported :
      (k : Key) (ks : List Key)
      → has_key k ks ≡ true
      → is_reported k ≡ true
      → Memᴰ (violation_of digest before after k) (diff_keys digest before after allowed ks).0
  unfolding diff_keys has_key any
  mem_reported k [] h r = cc h
  mem_reported k (j ∷ ks) h r =
      let rest = diff_keys digest before after allowed ks in
      let v = violation_of digest before after k in
      elim ((or_iff _ _).0 h) [
        | inl here ↦
            let same : k ≡ j = (key_equal_iff k j).0 here in
            let told = diff_key-reported j rest (subst (λ x. is_reported x ≡ true) same r) in
            subst (Memᴰ v) (sym told) (Memᴰ.head (ap (violation_of digest before after) same))
        | inr later ↦
            let deeper = mem_reported k ks later r in
            elim (Bool-cases (is_reported j)) [
              | inl told ↦ subst (Memᴰ v) (sym (diff_key-reported j rest told)) (Memᴰ.tail deeper)
              | inr silent ↦ subst (Memᴰ v) (sym (diff_key-silent j rest silent)) deeper
            ]
      ]

  -- The violations of a difference are those of the objects that have changed out of scope: each of
  -- them is reported, and nothing else is.
  pub diff_lem :
      (v : Violation)
      → Memᴰ v (diff digest before after allowed).0
        ↔ ((k : Key) × IsDrift before after allowed k × (violation_of digest before after k ≡ v))
  unfolding diff is_reported
  diff_lem v = (
    λ m.
        let (k, listed, (told, same)) = reported_mem v (all_keys before after) m in
        (
          k,
          record {
            present = sym (has_key-all_keys k before after) ∙ listed;
            changed = ground (arith, told);
            outside = ground (arith, told);
          },
          same,
        ),
    λ (k, drift, same).
        subst (λ w. Memᴰ w (diff_keys digest before after allowed (all_keys before after)).0) same
          (mem_reported k (all_keys before after) (has_key-all_keys k before after ∙ drift.present)
            (ground (arith, drift.changed, drift.outside))),
  )
