-- ===== src/Authority/Sets.antt =====
-- The set operations of the compiler keep exactly the texts that they are given.
use evidra_bench.Base.{
  String, ◌||◌, List, [], ◌∷◌, ◌++◌, ◌==◌, ◌≡◌, refl, arith, eq_iff, contains, contains-append,
}
use evidra_bench.Authority.Compile.{dedupe, dedupe_from, sort_strings, insert_sorted}
use evidra_bench.Authority.Rbac.{add_missing}

contains-insert_sorted :
    (t : String) (xs : List String) (s : String)
    → contains (insert_sorted t xs) s ≡ (t == s || contains xs s)
unfolding contains insert_sorted
contains-insert_sorted t [] s = refl
contains-insert_sorted t (x ∷ xs) s = ground (arith, contains-insert_sorted t xs s)

pub contains-sort_strings :
    (xs : List String) (s : String) → contains (sort_strings xs) s ≡ contains xs s
unfolding contains sort_strings
contains-sort_strings [] s = refl
contains-sort_strings (x ∷ xs) s =
    ground (arith, contains-insert_sorted x (sort_strings xs) s, contains-sort_strings xs s)

contains-dedupe_from :
    (seen xs : List String) (s : String)
    → (contains seen s || contains (dedupe_from seen xs) s) ≡ (contains seen s || contains xs s)
unfolding contains dedupe_from
contains-dedupe_from seen [] s = refl
contains-dedupe_from seen (x ∷ xs) s =
    ground (arith, contains-dedupe_from seen xs s, contains-dedupe_from (x ∷ seen) xs s, eq_iff x s)

pub contains-dedupe : (xs : List String) (s : String) → contains (dedupe xs) s ≡ contains xs s
unfolding dedupe contains
contains-dedupe xs s = contains-dedupe_from [] xs s

pub contains-add_missing :
    (out xs : List String) (s : String)
    → contains (add_missing out xs) s ≡ (contains out s || contains xs s)
unfolding contains add_missing
contains-add_missing out [] s = ground arith
contains-add_missing out (x ∷ xs) s = ground (
  arith,
  contains-add_missing out xs s,
  contains-add_missing (out ++ (x ∷ [])) xs s,
  contains-append out (x ∷ []) s,
  eq_iff x s,
)
