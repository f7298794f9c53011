-- ===== src/Identity/Slashes.antt =====
-- Resources that are written without a slash, in the rules that pkg/authority/plan.go compiles.
use evidra_bench.Base.{
  String, Bool, true, false, not, ◌||◌, List, [], ◌∷◌, ◌++◌, ◌==◌, ◌≡◌, refl, sym, ap, ◌∙◌, arith,
  inl, inr, Bool-cases, eq_iff, eqb, all, contains, contains-append, concat, has_slash,
  before_slash, if◌then◌else◌,
}
use Prim.Native.String
use Prim.Native.String.append
use Prim.Native.Char.{code, char}
use evidra_bench.Authority.Profile.{PolicyRule}
use evidra_bench.Authority.Compile.{
  base_resources, base_resources_from, slash_forms, pairs_of, listed_pairs, subresource_pairs,
  dedupe,
}
use evidra_bench.Authority.Sets.{contains-sort_strings, contains-dedupe}

abbrev pub plain : String → Bool
plain r = not (has_slash r)

abbrev pub plain_rule : PolicyRule → Bool
plain_rule r = all plain r.resources

before_slash-plain : (s : String) → has_slash s ≡ false → before_slash s ≡ s
unfolding before_slash has_slash
before_slash-plain String.[] h = refl
before_slash-plain (String.◌∷◌ c s) h =
    let here : eqb (code c) 47 ≡ false = ground (arith, h) in
    simp here (ap (String.◌∷◌ c) (before_slash-plain s (ground (arith, h))))

base_from-plain :
    (out resources : List String) (s : String)
    → all plain resources ≡ true
    → contains (base_resources_from out resources) s ≡ true
    → (contains out s || contains resources s) ≡ true
unfolding base_resources_from contains all
base_from-plain out [] s p h = ground (arith, h)
base_from-plain out (r ∷ resources) s p h =
    let same : before_slash r ≡ r = before_slash-plain r (ground (arith, p)) in
    let h' =
      base_from-plain (if contains out (before_slash r) then out else out ++ before_slash r ∷ [])
        resources s (ground (arith, p)) h in
    elim (Bool-cases (contains out (before_slash r))) [
      | inl known ↦ let h'' = rw known at h' in ground (arith, h'')
      | inr new ↦
          let h'' = rw new at h' in
          ground (arith, h'', same, contains-append out (before_slash r ∷ []) s)
    ]

-- The bases of plain resources are resources.
pub base_resources-plain :
    (resources : List String) (s : String)
    → all plain resources ≡ true
    → contains (base_resources resources) s ≡ true
    → contains resources s ≡ true
unfolding base_resources contains
base_resources-plain resources s p h = base_from-plain [] resources s p h

has_slash-append : (s t : String) → has_slash (String.◌++◌ s (String.◌++◌ "/" t)) ≡ true
unfolding has_slash
has_slash-append String.[] t =
    let apart : String.◌++◌ "/" t ≡ String.◌∷◌ (char 47 tt) t =
      append.cons (char 47 tt) "" t ∙ ap (String.◌∷◌ (char 47 tt)) (append.nil t) in
    ap has_slash (append.nil (String.◌++◌ "/" t)) ∙ ap has_slash apart
has_slash-append (String.◌∷◌ c s) t =
    ap has_slash (append.cons c s (String.◌++◌ "/" t)) ∙ ground (arith, has_slash-append s t)

pairs_of-slash :
    (r : String) (subs : List String) (s : String)
    → contains (pairs_of r subs) s ≡ true
    → has_slash s ≡ true
unfolding pairs_of contains concat
pairs_of-slash r [] s h = cc
pairs_of-slash r (sub ∷ subs) s h = elim (Bool-cases (String.◌++◌ r (String.◌++◌ "/" sub) == s)) [
  | inl here ↦
      ap has_slash (sym ((eq_iff (String.◌++◌ r (String.◌++◌ "/" sub)) s).0 here))
      ∙ has_slash-append r sub
  | inr later ↦ pairs_of-slash r subs s (ground (arith, h, later))
]

slash_forms-slash :
    (resources : List String) (s : String)
    → contains (slash_forms resources) s ≡ true
    → has_slash s ≡ true
unfolding slash_forms contains
slash_forms-slash [] s h = cc
slash_forms-slash (r ∷ resources) s h = elim (Bool-cases (has_slash r)) [
  | inl slashed ↦ elim (Bool-cases (r == s)) [
    | inl here ↦ ap has_slash (sym ((eq_iff r s).0 here)) ∙ slashed
    | inr later ↦ slash_forms-slash resources s (ground (arith, h, slashed, later))
  ]
  | inr whole ↦ slash_forms-slash resources s (ground (arith, h, whole))
]

listed_pairs-slash :
    (resources subs : List String) (s : String)
    → contains (listed_pairs resources subs) s ≡ true
    → has_slash s ≡ true
unfolding listed_pairs contains
listed_pairs-slash [] subs s h = cc
listed_pairs-slash (r ∷ resources) subs s h = elim (Bool-cases (has_slash r)) [
  | inl slashed ↦ listed_pairs-slash resources subs s (ground (arith, h, slashed))
  | inr whole ↦
      let h' = rw whole at h in
      elim (Bool-cases (contains (pairs_of r subs) s)) [
        | inl here ↦ pairs_of-slash r subs s here
        | inr later ↦ listed_pairs-slash resources subs s (
            ground
              (arith, h', later, contains-append (pairs_of r subs) (listed_pairs resources subs) s))
      ]
]

-- Every derived pair has a slash.
pub subresource_pairs-slash :
    (resources subs : List String) (s : String)
    → contains (subresource_pairs resources subs) s ≡ true
    → has_slash s ≡ true
unfolding subresource_pairs
subresource_pairs-slash resources subs s h =
    let forms = slash_forms resources in
    let pairs = listed_pairs resources subs in
    let within : contains (forms ++ pairs) s ≡ true =
      sym (contains-dedupe (forms ++ pairs) s)
      ∙ (sym (contains-sort_strings (dedupe (forms ++ pairs)) s) ∙ h) in
    elim (Bool-cases (contains forms s)) [
      | inl form ↦ slash_forms-slash resources s form
      | inr other ↦
          listed_pairs-slash resources subs s
            (ground (arith, within, other, contains-append forms pairs s))
    ]
