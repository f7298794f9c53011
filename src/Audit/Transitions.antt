-- ===== src/Audit/Transitions.antt =====
-- The walk of merge bodies in pkg/audit/fields.go against a description of it as a relation.
use evidra_bench.Base.{
  String, Bool, true, false, not, ◌&&◌, ◌||◌, List, [], ◌∷◌, ◌==◌, ◌≡◌, refl, ap, subst, arith,
  some, is_empty, Memᴰ, find_of_any, any_of_mem, Bool-cases, Option-cases, inl, inr, ◌↔◌, ◌⊎◌,
  if◌then◌else◌,
}
use mathlib.Core.List.Memᴰ
use evidra_bench.Json.{
  Json, null, bool, num, str, arr, obj, Items, nil, cons, Fields, lookup_field, items_list, name_of,
}
use evidra_bench.Audit.FieldPath.{FieldSegment}
use evidra_bench.Audit.Fields.{
  candidates, leaf_matches, descend_merge, visit_child, visit_merge, walk_merge,
}

-- A step enters an object itself, or an object of a list whose name the predicate allows.
pub data Enters (pred : String) : Json → Json → Type 0 where
  itself : {fs : Fields} → Enters pred (obj fs) (obj fs)
  element :
      {xs : Items} {fs : Fields}
      → Memᴰ (obj fs) (items_list xs)
      → (is_empty pred || name_of fs == pred) ≡ true
      → Enters pred (arr xs) (obj fs)

-- The path leads from an object to a value.
pub data Reaches : List FieldSegment → Json → Json → Type 0 where
  leaf :
      {seg : FieldSegment} {fs : Fields} {v : Json}
      → lookup_field seg.key fs ≡ some v
      → Reaches (seg ∷ []) (obj fs) v
  below :
      {seg next : FieldSegment} {rest : List FieldSegment} {fs : Fields} {child m v : Json}
      → lookup_field seg.key fs ≡ some child
      → Enters seg.pred child m
      → Reaches (next ∷ rest) m v
      → Reaches (seg ∷ next ∷ rest) (obj fs) v

Enters-later :
    {pred : String} {x m : Json} {xs : Items}
    → Enters pred (arr xs) m
    → Enters pred (arr (cons x xs)) m
unfolding items_list
Enters-later (Enters.element mem named) = Enters.element (Memᴰ.tail mem) named

head_or_tail {ℓ} : {A : Type ℓ} {x y : A} {ys : List A} → Memᴰ x (y ∷ ys) → (x ≡ y) ⊎ Memᴰ x ys
head_or_tail (Memᴰ.head e) = inl e
head_or_tail (Memᴰ.tail m) = inr m

candidates_sound :
    (pred : String) (xs : Items) (m : Json) → Memᴰ m (candidates pred xs) → Enters pred (arr xs) m
unfolding candidates items_list
candidates_sound pred nil m h = absurd (Memᴰ.not-nil h)
candidates_sound pred (cons (obj fs) xs) m h =
    elim (Bool-cases (not (is_empty pred) && not (name_of fs == pred))) [
      | inl other ↦ Enters-later (candidates_sound pred xs m (rw other at h))
      | inr named ↦ elim (head_or_tail (rw named at h)) [
        | inl e ↦ rw e (Enters.element (Memᴰ.head refl) (ground arith))
        | inr later ↦ Enters-later (candidates_sound pred xs m later)
      ]
    ]
candidates_sound pred (cons null xs) m h = Enters-later (candidates_sound pred xs m h)
candidates_sound pred (cons (bool b) xs) m h = Enters-later (candidates_sound pred xs m h)
candidates_sound pred (cons (num s) xs) m h = Enters-later (candidates_sound pred xs m h)
candidates_sound pred (cons (str s) xs) m h = Enters-later (candidates_sound pred xs m h)
candidates_sound pred (cons (arr ys) xs) m h = Enters-later (candidates_sound pred xs m h)

-- An object of a list that does not begin with one is further down.
is_object : Json → Bool
is_object (obj fs) = true
is_object v = false

further :
    {x : Json} {fs : Fields} (xs : List Json)
    → is_object x ≡ false
    → Memᴰ (obj fs) (x ∷ xs)
    → Memᴰ (obj fs) xs
unfolding is_object
further {x} {fs} xs other m = elim (head_or_tail m) [
  | inl e ↦ absurd (cc (other, ap is_object e))
  | inr later ↦ later
]

fields_name : Json → String
fields_name (obj fs) = name_of fs
fields_name v = ""

candidates_complete :
    (pred : String) (xs : Items) (fs : Fields)
    → Memᴰ (obj fs) (items_list xs)
    → (is_empty pred || name_of fs == pred) ≡ true
    → Memᴰ (obj fs) (candidates pred xs)
unfolding candidates items_list is_object fields_name
candidates_complete pred nil fs m named = absurd (Memᴰ.not-nil m)
candidates_complete pred (cons (obj gs) xs) fs m named =
    elim (Bool-cases (not (is_empty pred) && not (name_of gs == pred))) [
      | inl other ↦ rw other (elim (head_or_tail m) [
        | inl e ↦
            let same : name_of fs ≡ name_of gs = ap fields_name e in
            absurd (ground (arith, rw same at named))
        | inr later ↦ candidates_complete pred xs fs later named
      ])
      | inr this ↦ rw this (elim (head_or_tail m) [
        | inl e ↦ Memᴰ.head e
        | inr later ↦ Memᴰ.tail (candidates_complete pred xs fs later named)
      ])
    ]
candidates_complete pred (cons null xs) fs m named =
    candidates_complete pred xs fs (further (items_list xs) refl m) named
candidates_complete pred (cons (bool b) xs) fs m named =
    candidates_complete pred xs fs (further (items_list xs) refl m) named
candidates_complete pred (cons (num s) xs) fs m named =
    candidates_complete pred xs fs (further (items_list xs) refl m) named
candidates_complete pred (cons (str s) xs) fs m named =
    candidates_complete pred xs fs (further (items_list xs) refl m) named
candidates_complete pred (cons (arr ys) xs) fs m named =
    candidates_complete pred xs fs (further (items_list xs) refl m) named

enter_sound :
    (pred : String) (go : List Json → Bool) (child : Json)
    → descend_merge pred go child ≡ true
    → (ns : List Json) × (go ns ≡ true) × ((m : Json) → Memᴰ m ns → Enters pred child m)
unfolding descend_merge
enter_sound pred go (obj fs) h = (
  obj fs ∷ [],
  h,
  λ m mem. elim (head_or_tail mem) [
    | inl e ↦ rw e Enters.itself
    | inr nowhere ↦ absurd (Memᴰ.not-nil nowhere)
  ],
)
enter_sound pred go (arr xs) h = (candidates pred xs, h, λ m mem. candidates_sound pred xs m mem)
enter_sound pred go null h = cc h
enter_sound pred go (bool b) h = cc h
enter_sound pred go (num s) h = cc h
enter_sound pred go (str s) h = cc h

-- The value that a walk finds at the end of the path.
pub record Found (segs : List FieldSegment) (change : String) (value n : Json) : Type 0 where
  pub at : Json
  pub reached : Reaches segs n at
  pub matched : leaf_matches change value at ≡ true

visit_sound :
    (seg : FieldSegment) (ends : Bool) (change : String) (value : Json) (go : List Json → Bool)
    (n : Json)
    → visit_merge seg ends change value go n ≡ true
    → (fs : Fields) × (v : Json) × (n ≡ obj fs)
      × (lookup_field seg.key fs ≡ some v)
      × ((if ends then leaf_matches change value v else descend_merge seg.pred go v) ≡ true)
unfolding visit_merge visit_child
visit_sound seg ends change value go (obj fs) h = elim (Option-cases (lookup_field seg.key fs)) [
  | inl missing ↦ cc (rw missing at h)
  | inr (v, there) ↦ (fs, v, refl, there, rw there at h)
]
visit_sound seg ends change value go null h = cc h
visit_sound seg ends change value go (bool b) h = cc h
visit_sound seg ends change value go (num s) h = cc h
visit_sound seg ends change value go (str s) h = cc h
visit_sound seg ends change value go (arr xs) h = cc h

walk_sound :
    (segs : List FieldSegment) (change : String) (value : Json) (nodes : List Json)
    → walk_merge segs change value nodes ≡ true
    → (n : Json) × Memᴰ n nodes × Found segs change value n
unfolding walk_merge
walk_sound [] change value nodes h = cc h
walk_sound (seg ∷ []) change value nodes h =
    let (n, mem, here) =
      find_of_any (visit_merge seg true change value (walk_merge [] change value)) nodes h in
    let (fs, v, e, there, good) =
      visit_sound seg true change value (walk_merge [] change value) n here in
    (n, mem, record { at = v; reached = rw e (Reaches.leaf there); matched = good })
walk_sound (seg ∷ next ∷ rest) change value nodes h =
    let go = walk_merge (next ∷ rest) change value in
    let (n, mem, here) = find_of_any (visit_merge seg false change value go) nodes h in
    let (fs, child, e, there, good) = visit_sound seg false change value go n here in
    let (ms, lower, enters) = enter_sound seg.pred go child good in
    let (m, within, found) = walk_sound (next ∷ rest) change value ms lower in
    (
      n,
      mem,
      record {
        at = found.at;
        reached = rw e (Reaches.below there (enters m within) found.reached);
        matched = found.matched;
      },
    )

enter_complete :
    (pred : String) (go : List Json → Bool) (child m : Json)
    → Enters pred child m
    → ((ns : List Json) → Memᴰ m ns → go ns ≡ true)
    → descend_merge pred go child ≡ true
unfolding descend_merge
enter_complete pred go _ _ (Enters.itself {fs = fs}) f = f (obj fs ∷ []) (Memᴰ.head refl)
enter_complete pred go _ _ (Enters.element {xs = xs} {fs = fs} mem named) f =
    f (candidates pred xs) (candidates_complete pred xs fs mem named)

walk_complete :
    {segs : List FieldSegment} {n at : Json} (change : String) (value : Json)
    → Reaches segs n at
    → leaf_matches change value at ≡ true
    → (nodes : List Json) → Memᴰ n nodes
    → walk_merge segs change value nodes ≡ true
unfolding walk_merge visit_merge visit_child
walk_complete change value (Reaches.leaf {seg = seg} there) good nodes mem =
    any_of_mem (visit_merge seg true change value (walk_merge [] change value)) mem (rw there good)
walk_complete change value
      (Reaches.below {seg = seg} {next = next} {rest = rest} {child = child} {m = m} there enters
        reached)
      good nodes mem =
    let go = walk_merge (next ∷ rest) change value in
    any_of_mem (visit_merge seg false change value go) mem (
      rw there (
        enter_complete seg.pred go child m enters
          (λ ns within. walk_complete change value reached good ns within)))

-- The walk over a merge body answers true exactly if its path leads, through objects and through
-- those entries of lists that the predicates allow, from the body to a value that the change
-- forbids: null for `removed`, a value equal to the declared one for `set`.
pub walk_merge_iff :
    (segs : List FieldSegment) (change : String) (value body : Json)
    → (walk_merge segs change value (body ∷ []) ≡ true) ↔ Found segs change value body
walk_merge_iff segs change value body = (
  λ h.
      let (n, mem, found) = walk_sound segs change value (body ∷ []) h in
      elim (head_or_tail mem) [
        | inl e ↦ subst (λ b. Found segs change value b) e found
        | inr nowhere ↦ absurd (Memᴰ.not-nil nowhere)
      ],
  λ found. walk_complete change value found.reached found.matched (body ∷ []) (Memᴰ.head refl),
)
