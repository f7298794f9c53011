-- ===== src/Base/Counters.antt =====
-- Go maps that count, `map[K]int`, as lists of entries.
use Prim.Native.Nat.{ℕ, ◌+◌, ◌≤◌, ◌<◌}
use mathlib.Core.Path.{◌≡◌, refl, sym, ap, ◌∙◌, subst}
use mathlib.Core.Logic.{◌↔◌, inl, inr}
use mathlib.Core.Bool.{Bool, true, false}
use mathlib.Core.List.{List, [], ◌∷◌, Memᴰ}
use Prim.Native.String.{String}
use native.Mathlib.Omega.{arith}
use text.Mathlib.Text.{◌==◌}
use text.Mathlib.TextEquality.{eq_iff}
use evidra_bench.Base.Tests.{leb, leb→le, if◌then◌else◌, Bool-cases}
use evidra_bench.Base.Lists.{count_of, all}

-- The comparison of keys.
pub record Same {ℓ} (K : Type ℓ) : Type ℓ where
  pub same : K → K → Bool
  pub same_iff : (a b : K) → (same a b ≡ true) ↔ (a ≡ b)

module _ {ℓ} {K : Type ℓ} ⦃e : Same K⦄ where
  -- A missing key counts 0.
  unfoldable pub count_at : K → List (K × ℕ) → ℕ
  count_at key [] = 0
  count_at key ((k, n) ∷ m) = if e.same k key then n else count_at key m

  -- `m[key]++`
  unfoldable pub bump : K → List (K × ℕ) → List (K × ℕ)
  bump key [] = (key, 1) ∷ []
  bump key ((k, n) ∷ m) = if e.same k key then (k, n + 1) ∷ m else (k, n) ∷ bump key m

  unfoldable pub tally : List K → List (K × ℕ) → List (K × ℕ)
  tally [] m = m
  tally (k ∷ keys) m = tally keys (bump k m)

  abbrev pub occurrences : K → List K → ℕ
  occurrences key keys = count_of (λ k. e.same k key) keys

  unfoldable pub covers : List (K × ℕ) → List (K × ℕ) → Bool
  covers counts need = all (λ (entry : K × ℕ). leb entry.1 (count_at entry.0 counts)) need

  pub same_refl : (k : K) → e.same k k ≡ true
  same_refl k = (e.same_iff k k).1 refl

  same_sym : (a b : K) → e.same a b ≡ e.same b a
  same_sym a b = elim (Bool-cases (e.same a b)) [
    | inl alike ↦ rw (alike, (e.same_iff b a).1 (sym ((e.same_iff a b).0 alike)))
    | inr apart ↦ elim (Bool-cases (e.same b a)) [
      | inl back ↦ rw (back, (e.same_iff a b).1 (sym ((e.same_iff b a).0 back)))
      | inr also ↦ rw (apart, also)
    ]
  ]

  same_alike : (k j i : K) → e.same k j ≡ true → e.same k i ≡ e.same j i
  same_alike k j i h = ap (λ x. e.same x i) ((e.same_iff k j).0 h)

  same_apart : (i j k : K) → e.same i j ≡ false → e.same i k ≡ true → e.same j k ≡ false
  same_apart i j k apart h = elim (Bool-cases (e.same j k)) [
    | inl alike ↦
        let one : i ≡ j = (e.same_iff i k).0 h ∙ sym ((e.same_iff j k).0 alike) in
        ground (arith, apart, (e.same_iff i j).1 one)
    | inr other ↦ other
  ]

  count_at-bump :
      (j k : K) (m : List (K × ℕ))
      → count_at k (bump j m) ≡ count_at k m + (if e.same j k then 1 else 0)
  unfolding count_at bump
  count_at-bump j k [] = ground arith
  count_at-bump j k ((i, n) ∷ m) = elim (Bool-cases (e.same i j)) [
    | inl alike ↦ ground (arith, same_alike i j k alike)
    | inr apart ↦ ground (arith, apart, same_apart i j k apart, count_at-bump j k m)
  ]

  count_at-tally :
      (k : K) (keys : List K) (m : List (K × ℕ))
      → count_at k (tally keys m) ≡ count_at k m + occurrences k keys
  unfolding tally count_of
  count_at-tally k [] m = omega arith
  count_at-tally k (j ∷ keys) m =
      ground (arith, count_at-tally k keys (bump j m), count_at-bump j k m)

  pub count_at-tally_nil : (k : K) (keys : List K) → count_at k (tally keys []) ≡ occurrences k keys
  unfolding count_at
  count_at-tally_nil k keys = omega (arith, count_at-tally k keys [])

  -- Every key has one entry, of a positive count.
  abbrev pub Exact : List (K × ℕ) → Type 0
  Exact [] = Unit
  Exact ((k, n) ∷ m) = (0 < n) × (count_at k m ≡ 0) × Exact m

  bump-Exact : (j : K) (m : List (K × ℕ)) → Exact m → Exact (bump j m)
  unfolding bump count_at
  bump-Exact j [] h = (omega arith, refl, tt)
  bump-Exact j ((i, n) ∷ m) h = elim (Bool-cases (e.same i j)) [
    | inl alike ↦ simp alike (omega arith, h.1, h.2)
    | inr apart ↦
        let kept : count_at i (bump j m) ≡ 0 =
          ground (arith, apart, h.1, count_at-bump j i m, same_sym i j) in
        simp apart (h.0, kept, bump-Exact j m h.2)
  ]

  pub tally-Exact : (keys : List K) (m : List (K × ℕ)) → Exact m → Exact (tally keys m)
  unfolding tally
  tally-Exact [] m h = h
  tally-Exact (k ∷ keys) m h = tally-Exact keys (bump k m) (bump-Exact k m h)

  count_at-alike : (i k : K) (m : List (K × ℕ)) → e.same i k ≡ true → count_at k m ≡ count_at i m
  count_at-alike i k m h = ap (λ x. count_at x m) (sym ((e.same_iff i k).0 h))

  entry_pos : {k : K} {n : ℕ} (m : List (K × ℕ)) → Exact m → Memᴰ (k, n) m → 0 < n
  entry_pos [] h mem = elim mem [ ]
  entry_pos ((i, n') ∷ m) h (Memᴰ.head q) = subst (λ (x : K × ℕ). 0 < x.1) (sym q) h.0
  entry_pos ((i, n') ∷ m) h (Memᴰ.tail later) = entry_pos m h.2 later

  -- The entry of a key holds its count.
  pub count_at-entry :
      {k : K} {n : ℕ} (m : List (K × ℕ)) → Exact m → Memᴰ (k, n) m → count_at k m ≡ n
  unfolding count_at
  count_at-entry [] h mem = elim mem [ ]
  count_at-entry {k} {n} ((i, n') ∷ m) h (Memᴰ.head q) =
      let key : e.same i k ≡ true = (e.same_iff i k).1 (sym (ap (λ (x : K × ℕ). x.0) q)) in
      let value : n ≡ n' = ap (λ (x : K × ℕ). x.1) q in ground (arith, key, value)
  count_at-entry {k} {n} ((i, n') ∷ m) h (Memᴰ.tail later) =
      ground (arith, h.1, entry_pos m h.2 later, count_at-entry m h.2 later, count_at-alike i k m)

  -- A key that is counted has an entry.
  pub entry-count_at : (k : K) (m : List (K × ℕ)) → 0 < count_at k m → Memᴰ (k, count_at k m) m
  unfolding count_at
  entry-count_at k [] h = absurd (omega arith)
  entry-count_at k ((i, n) ∷ m) h = elim (Bool-cases (e.same i k)) [
    | inl alike ↦ simp alike (Memᴰ.head (ap (λ (x : K). (x, n)) (sym ((e.same_iff i k).0 alike))))
    | inr apart ↦ simp apart (Memᴰ.tail (entry-count_at k m (ground (arith, h, apart))))
  ]

  covers-le :
      (counts need : List (K × ℕ)) (k : K)
      → covers counts need ≡ true
      → count_at k need ≤ count_at k counts
  unfolding covers count_at all
  covers-le counts [] k h = omega arith
  covers-le counts ((i, n) ∷ need) k h = ground (
    arith,
    h,
    leb→le n (count_at i counts),
    count_at-alike i k counts,
    covers-le counts need k (ground (arith, h)),
  )

  le-covers :
      (counts need : List (K × ℕ))
      → Exact need
      → ((k : K) → count_at k need ≤ count_at k counts)
      → covers counts need ≡ true
  unfolding covers count_at all
  le-covers counts [] h below = refl
  le-covers counts ((i, n) ∷ need) h below =
      let first : n ≤ count_at i counts = ground (arith, below i, same_refl i) in
      let rest : covers counts need ≡ true =
        le-covers counts need h.2 (λ k. ground (arith, below k, h.1, count_at-alike i k need)) in
      ground (arith, first, rest)

  -- A tally covers another exactly if every key occurs as often in its list.
  pub covers_iff :
      (have want : List K)
      → (covers (tally have []) (tally want []) ≡ true)
        ↔ ((k : K) → occurrences k want ≤ occurrences k have)
  covers_iff have want = (
    λ h k. omega (
      arith,
      covers-le (tally have []) (tally want []) k h,
      count_at-tally_nil k have,
      count_at-tally_nil k want,
    ),
    λ below.
        le-covers (tally have []) (tally want []) (tally-Exact want [] tt)
          (λ k. omega (arith, below k, count_at-tally_nil k have, count_at-tally_nil k want)),
  )

instance abbrev pub string_same : Same String
string_same = record { same = ◌==◌; same_iff = eq_iff }
