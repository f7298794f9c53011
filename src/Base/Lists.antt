-- ===== src/Base/Lists.antt =====
-- Searching and counting in lists, with the element that a test finds.
use Prim.Native.Nat.{ℕ, suc, ◌+◌}
use Prim.Native.String.{String}
use mathlib.Core.Path.{◌≡◌, refl}
use mathlib.Core.Bool.{Bool, true, false, ◌&&◌, ◌||◌}
use mathlib.Core.Logic.{inl, inr}
use mathlib.Core.List.{List, [], ◌∷◌, ◌++◌, Memᴰ}
use native.Mathlib.Omega.{arith}
use text.Mathlib.Text.{◌==◌}
use text.Mathlib.TextEquality.{eq_iff}
use text.Mathlib.TextPositions.{eq_refl}
use evidra_bench.Base.Tests.{if◌then◌else◌, Bool-cases}

module _ {ℓ} {A : Type ℓ} where
  abbrev pub length : List A → ℕ
  length [] = 0
  length (x ∷ xs) = suc (length xs)

  abbrev pub is_nil : List A → Bool
  is_nil [] = true
  is_nil (x ∷ xs) = false

  unfoldable pub any : (A → Bool) → List A → Bool
  any p [] = false
  any p (x ∷ xs) = p x || any p xs

  unfoldable pub all : (A → Bool) → List A → Bool
  all p [] = true
  all p (x ∷ xs) = p x && all p xs

  -- The elements that pass, in order.
  unfoldable pub select : (A → Bool) → List A → List A
  select p [] = []
  select p (x ∷ xs) = let rest = select p xs in if p x then x ∷ rest else rest

  unfoldable pub count_of : (A → Bool) → List A → ℕ
  count_of p [] = 0
  count_of p (x ∷ xs) = (if p x then 1 else 0) + count_of p xs

  pub length-append : (xs ys : List A) → length (xs ++ ys) ≡ length xs + length ys
  length-append [] ys = omega arith
  length-append (x ∷ xs) ys = omega (arith, length-append xs ys)

module _ {ℓ} {A : Type ℓ} (p : A → Bool) where
  pub find_of_any : (xs : List A) → any p xs ≡ true → (x : A) × Memᴰ x xs × (p x ≡ true)
  unfolding any
  find_of_any [] h = cc
  find_of_any (x ∷ xs) h = elim (Bool-cases (p x)) [
    | inl e ↦ (x, Memᴰ.head refl, e)
    | inr e ↦ let (y, m, q) = find_of_any xs (ground arith) in (y, Memᴰ.tail m, q)
  ]

  pub any_of_mem : {x : A} {xs : List A} → Memᴰ x xs → p x ≡ true → any p xs ≡ true
  unfolding any
  any_of_mem (Memᴰ.head {x = y} e) h = let q : p y ≡ true = rw (← e) h in rw q
  any_of_mem (Memᴰ.tail m) h = ground (arith, any_of_mem m h)

  pub all_at : {x : A} {xs : List A} → Memᴰ x xs → all p xs ≡ true → p x ≡ true
  unfolding all
  all_at (Memᴰ.head e) h = rw e (ground arith)
  all_at (Memᴰ.tail m) h = all_at m (ground arith)

  pub any-append : (xs ys : List A) → any p (xs ++ ys) ≡ (any p xs || any p ys)
  unfolding any
  any-append [] ys = refl
  any-append (x ∷ xs) ys = ground (arith, any-append xs ys)

  pub all-append : (xs ys : List A) → all p (xs ++ ys) ≡ (all p xs && all p ys)
  unfolding all
  all-append [] ys = refl
  all-append (x ∷ xs) ys = ground (arith, all-append xs ys)

  pub count_of-append : (xs ys : List A) → count_of p (xs ++ ys) ≡ count_of p xs + count_of p ys
  unfolding count_of
  count_of-append [] ys = omega arith
  count_of-append (x ∷ xs) ys = ground (arith, count_of-append xs ys)

-- `contains`, a linear scan for a text.
unfoldable pub contains : List String → String → Bool
contains [] s = false
contains (x ∷ xs) s = x == s || contains xs s

pub contains→Memᴰ : (xs : List String) (s : String) → contains xs s ≡ true → Memᴰ s xs
unfolding contains
contains→Memᴰ [] s h = cc
contains→Memᴰ (x ∷ xs) s h = elim (Bool-cases (x == s)) [
  | inl e ↦ Memᴰ.head (ground (arith, eq_iff x s))
  | inr e ↦ Memᴰ.tail (contains→Memᴰ xs s (ground arith))
]

pub Memᴰ→contains : {s : String} {xs : List String} → Memᴰ s xs → contains xs s ≡ true
unfolding contains
Memᴰ→contains {s = s} (Memᴰ.head {x = x} e) = ground (arith, eq_iff x s)
Memᴰ→contains (Memᴰ.tail m) = ground (arith, Memᴰ→contains m)

pub contains-append :
    (xs ys : List String) (s : String) → contains (xs ++ ys) s ≡ (contains xs s || contains ys s)
unfolding contains
contains-append [] ys s = refl
contains-append (x ∷ xs) ys s = ground (arith, contains-append xs ys s)

pub all_of_contains :
    (p : String → Bool) (xs : List String)
    → ((s : String) → contains xs s ≡ true → p s ≡ true)
    → all p xs ≡ true
unfolding all contains
all_of_contains p [] h = refl
all_of_contains p (x ∷ xs) h =
    ground (arith, h x, eq_refl x, all_of_contains p xs (λ s m. h s (ground arith)))

Memᴰ-cons {ℓ} :
    {A : Type ℓ} {x y : A} {zs : List A} (ys : List A)
    → Memᴰ x (y ∷ zs)
    → (Memᴰ x zs → Memᴰ x ys)
    → Memᴰ x (y ∷ ys)
Memᴰ-cons ys (Memᴰ.head e) f = Memᴰ.head e
Memᴰ-cons ys (Memᴰ.tail m) f = Memᴰ.tail (f m)

pub select-mem {ℓ} :
    {A : Type ℓ} (p : A → Bool) {x : A} (xs : List A) → Memᴰ x (select p xs) → Memᴰ x xs
unfolding select
select-mem p [] m = m
select-mem p (y ∷ xs) m = elim (Bool-cases (p y)) [
  | inl e ↦ Memᴰ-cons xs (rw e at m) (select-mem p xs)
  | inr e ↦ Memᴰ.tail (select-mem p xs (rw e at m))
]
