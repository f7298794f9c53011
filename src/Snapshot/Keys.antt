-- ===== src/Snapshot/Keys.antt =====
-- Which keys the difference of two checkpoints goes over: pkg/snapshot/diff.go.
use evidra_bench.Base.{
  Bool, true, false, ◌||◌, List, [], ◌∷◌, ◌++◌, Option, none, some, ◌≡◌, ◌↔◌, refl, subst, ap, ◌∙◌,
  arith, any, any-append, eq_iff, eq_refl, inl, inr, Bool-cases, if◌then◌else◌,
}
use evidra_bench.Json.{Fields}
use evidra_bench.Snapshot.Normalize.{Key}
use evidra_bench.Snapshot.Sets.{Objects, StateSet, key_equal, find_object}
use evidra_bench.Snapshot.Diff.{has_key, add_keys, insert_key, sort_keys, all_keys}

pub key_equal_refl : (k : Key) → key_equal k k ≡ true
unfolding key_equal
key_equal_refl k = ground (arith, eq_refl k.kind, eq_refl k.namespace, eq_refl k.name)

pub key_equal_iff : (a b : Key) → (key_equal a b ≡ true) ↔ (a ≡ b)
unfolding key_equal
key_equal_iff a b = (
  λ h.
      let p = (eq_iff a.kind b.kind).0 (ground (arith, h)) in
      let q = (eq_iff a.namespace b.namespace).0 (ground (arith, h)) in
      let r = (eq_iff a.name b.name).0 (ground (arith, h)) in
      λ i. record { kind = p i; namespace = q i; name = r i },
  λ p. subst (λ k. key_equal a k ≡ true) p (key_equal_refl a),
)

unfoldable pub is_held : Option Fields → Bool
is_held none = false
is_held (some o) = true

-- The set has an object of the key.
unfoldable pub is_present : Key → Objects → Bool
unfolding is_held
is_present k os = is_held (find_object k os)

is_present-cons :
    (k j : Key) (o : Fields) (rest : Objects)
    → is_present k ((j, o) ∷ rest) ≡ (key_equal j k || is_present k rest)
unfolding is_present is_held find_object
is_present-cons k j o rest = elim (Bool-cases (key_equal j k)) [
  | inl same ↦ simp same refl
  | inr other ↦ simp other refl
]

key_equal_comm : (a b : Key) → key_equal a b ≡ key_equal b a
unfolding key_equal
key_equal_comm a b = ground (
  arith,
  eq_iff a.kind b.kind,
  eq_iff b.kind a.kind,
  eq_iff a.namespace b.namespace,
  eq_iff b.namespace a.namespace,
  eq_iff a.name b.name,
  eq_iff b.name a.name,
)

has_key-insert_key :
    (j k : Key) (ks : List Key) → has_key k (insert_key j ks) ≡ (key_equal k j || has_key k ks)
unfolding has_key any insert_key
has_key-insert_key j k [] = refl
has_key-insert_key j k (x ∷ xs) = ground (arith, has_key-insert_key j k xs)

has_key-sort_keys : (k : Key) (ks : List Key) → has_key k (sort_keys ks) ≡ has_key k ks
unfolding has_key any sort_keys
has_key-sort_keys k [] = refl
has_key-sort_keys k (x ∷ xs) =
    ground (arith, has_key-insert_key x k (sort_keys xs), has_key-sort_keys k xs)

has_key-known :
    (k j : Key) (ks : List Key)
    → has_key j ks ≡ true
    → has_key k ks ≡ (key_equal j k || has_key k ks)
has_key-known k j ks known = elim (Bool-cases (key_equal j k)) [
  | inl same ↦
      let here : has_key k ks ≡ true =
        subst (λ x. has_key x ks ≡ true) ((key_equal_iff j k).0 same) known in
      ground (arith, here, same)
  | inr other ↦ ground (arith, other)
]

has_key-add_one :
    (k j : Key) (ks : List Key)
    → has_key k (if has_key j ks then ks else ks ++ (j ∷ [])) ≡ (key_equal j k || has_key k ks)
unfolding has_key any
has_key-add_one k j ks = elim (Bool-cases (has_key j ks)) [
  | inl known ↦
      let stays : (if has_key j ks then ks else ks ++ (j ∷ [])) ≡ ks = simp known refl in
      ap (has_key k) stays ∙ has_key-known k j ks known
  | inr fresh ↦
      let grows : (if has_key j ks then ks else ks ++ (j ∷ [])) ≡ ks ++ (j ∷ []) =
        simp fresh refl in
      ap (has_key k) grows
      ∙ ground (arith, any-append (key_equal k) ks (j ∷ []), key_equal_comm k j)
]

has_key-add_keys :
    (k : Key) (os : Objects) (ks : List Key)
    → has_key k (add_keys os ks) ≡ (is_present k os || has_key k ks)
unfolding add_keys is_present find_object
has_key-add_keys k [] ks = refl
has_key-add_keys k ((j, o) ∷ rest) ks = ground (
  arith,
  is_present-cons k j o rest,
  has_key-add_one k j ks,
  has_key-add_keys k rest (if has_key j ks then ks else ks ++ (j ∷ [])),
)

-- The difference goes over the keys of both sets, and no others.
pub has_key-all_keys :
    (k : Key) (before after : StateSet)
    → has_key k (all_keys before after)
      ≡ (is_present k before.objects || is_present k after.objects)
unfolding all_keys has_key any
has_key-all_keys k before after = ground (
  arith,
  has_key-sort_keys k (add_keys after.objects (add_keys before.objects [])),
  has_key-add_keys k after.objects (add_keys before.objects []),
  has_key-add_keys k before.objects [],
)
