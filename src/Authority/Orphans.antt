-- ===== src/Authority/Orphans.antt =====
-- Every pair that the compiler derives has its base resource, so the orphan error is unreachable.
use Prim.Native.Char.{code}
use Prim.Native.String
use text.Mathlib.TextLemmas.{cons-append, nil-append}
use evidra_bench.Base.{
  String, true, false, ◌||◌, List, [], ◌∷◌, ◌++◌, ◌==◌, ◌≡◌, refl, arith, eq_iff, none, contains,
  contains-append, concat, before_slash, has_slash, eqb, or_iff, if◌then◌else◌, Bool-cases, inl,
  inr, ap, sym, ◌∙◌, eq_refl,
}
use evidra_bench.Authority.Compile.{
  base_resources, base_resources_from, slash_forms, listed_pairs, pairs_of, subresource_pairs,
  dedupe, first_orphan,
}
use evidra_bench.Authority.Sets.{contains-sort_strings, contains-dedupe}

before_slash-plain : (r : String) → has_slash r ≡ false → before_slash r ≡ r
unfolding before_slash has_slash
before_slash-plain String.[] h = refl
before_slash-plain (String.◌∷◌ c r) h = ground (arith, before_slash-plain r)

before_slash_idem : (s : String) → before_slash (before_slash s) ≡ before_slash s
unfolding before_slash
before_slash_idem String.[] = refl
before_slash_idem (String.◌∷◌ c s) = elim (Bool-cases (eqb (code c) 47)) [
  | inl e ↦ rw e
  | inr e ↦ rw e (rw (e, before_slash_idem s))
]

before_slash-slash : (t : String) → before_slash (String.◌++◌ "/" t) ≡ ""
unfolding before_slash
before_slash-slash t = rw (cons-append "/" String.[] t)

before_slash-append :
    (r t : String) → has_slash r ≡ false → before_slash (String.◌++◌ r (String.◌++◌ "/" t)) ≡ r
unfolding before_slash has_slash
before_slash-append String.[] t h = rw (nil-append (String.◌++◌ "/" t)) (before_slash-slash t)
before_slash-append (String.◌∷◌ c r) t h =
    rw (cons-append c r (String.◌++◌ "/" t)) (ground (arith, before_slash-append r t))

pairs_of-base :
    (r : String) (subs : List String) (s : String)
    → has_slash r ≡ false
    → contains (pairs_of r subs) s ≡ true
    → before_slash s ≡ r
unfolding contains pairs_of concat
pairs_of-base r [] s plain h = cc
pairs_of-base r (sub ∷ subs) s plain h = elim ((or_iff _ _).0 h) [
  | inl e ↦ ap before_slash (sym ((eq_iff _ s).0 e)) ∙ before_slash-append r sub plain
  | inr e ↦ pairs_of-base r subs s plain e
]

base_resources_from-keeps :
    (out res : List String) (b : String)
    → contains out b ≡ true
    → contains (base_resources_from out res) b ≡ true
unfolding base_resources_from
base_resources_from-keeps out [] b h = h
base_resources_from-keeps out (r ∷ rs) b h = elim (Bool-cases (contains out (before_slash r))) [
  | inl e ↦ rw e (base_resources_from-keeps out rs b h)
  | inr e ↦ rw e (
      base_resources_from-keeps (out ++ (before_slash r ∷ [])) rs b
        (ground (arith, contains-append out (before_slash r ∷ []) b)))
]

-- After a round its base is among the resources.
base_resources_from-head :
    (out : List String) (x : String) (rs : List String) (r : String)
    → (x == r) ≡ true
    → contains (base_resources_from out (x ∷ rs)) (before_slash r) ≡ true
unfolding base_resources_from contains
base_resources_from-head out x rs r e = rw (← (eq_iff x r).0 e) (
    base_resources_from-keeps
      (if contains out (before_slash x) then out else out ++ (before_slash x ∷ [])) rs
      (before_slash x)
      (ground (
        arith,
        contains-append out (before_slash x ∷ []) (before_slash x),
        eq_refl (before_slash x),
      )))

base_resources_from-base :
    (out res : List String) (r : String)
    → contains res r ≡ true
    → contains (base_resources_from out res) (before_slash r) ≡ true
unfolding contains base_resources_from
base_resources_from-base out [] r h = cc
base_resources_from-base out (x ∷ rs) r h = elim (Bool-cases (x == r)) [
  | inl e ↦ base_resources_from-head out x rs r e
  | inr e ↦
      base_resources_from-base
        (if contains out (before_slash x) then out else out ++ (before_slash x ∷ [])) rs r
        (ground arith)
]

pub base_resources-base :
    (res : List String) (r : String)
    → contains res r ≡ true
    → contains (base_resources res) (before_slash r) ≡ true
unfolding base_resources
base_resources-base res r h = base_resources_from-base [] res r h

contains-slash_forms :
    (res : List String) (s : String) → contains (slash_forms res) s ≡ true → contains res s ≡ true
unfolding contains slash_forms
contains-slash_forms [] s h = h
contains-slash_forms (r ∷ rs) s h = ground (arith, contains-slash_forms rs s)

listed_pairs-plain :
    (r : String) (rs subs : List String) (s : String)
    → has_slash r ≡ false
    → (contains (pairs_of r subs) s || contains (listed_pairs rs subs) s) ≡ true
    → (contains (listed_pairs rs subs) s ≡ true → contains rs (before_slash s) ≡ true)
    → contains (r ∷ rs) (before_slash s) ≡ true
unfolding contains
listed_pairs-plain r rs subs s plain h ih = elim ((or_iff _ _).0 h) [
  | inl e ↦ rw (pairs_of-base r subs s plain e) (rw (eq_refl r) refl)
  | inr e ↦ ground (arith, ih e)
]

-- A pair of the second loop has a listed resource before its slash.
listed_pairs-base :
    (res subs : List String) (s : String)
    → contains (listed_pairs res subs) s ≡ true
    → contains res (before_slash s) ≡ true
unfolding contains listed_pairs
listed_pairs-base [] subs s h = h
listed_pairs-base (r ∷ rs) subs s h = elim (Bool-cases (has_slash r)) [
  | inl e ↦ ground (arith, listed_pairs-base rs subs s)
  | inr e ↦
      listed_pairs-plain r rs subs s e
        (rw (← contains-append (pairs_of r subs) (listed_pairs rs subs) s) (rw e at h))
        (listed_pairs-base rs subs s)
]

first_orphan-none :
    (res xs : List String)
    → ((s : String) → contains xs s ≡ true → contains res (before_slash s) ≡ true)
    → first_orphan res xs ≡ none
unfolding first_orphan contains
first_orphan-none res [] h = refl
first_orphan-none res (x ∷ xs) h =
    ground (arith, h x, eq_refl x, first_orphan-none res xs (λ s m. h s (ground arith)))

subresource_pairs-base :
    (res subs : List String) (s : String)
    → contains (subresource_pairs res subs) s ≡ true
    → contains (base_resources res) (before_slash s) ≡ true
unfolding subresource_pairs
subresource_pairs-base res subs s h =
    elim ((or_iff _ _).0 (
      rw
        (
          contains-sort_strings (dedupe (slash_forms res ++ listed_pairs res subs)) s,
          contains-dedupe (slash_forms res ++ listed_pairs res subs) s,
          contains-append (slash_forms res) (listed_pairs res subs) s,
        )
        at h)) [
          | inl e ↦ base_resources-base res s (contains-slash_forms res s e)
          | inr e ↦
              rw (← before_slash_idem s)
                (base_resources-base res (before_slash s) (listed_pairs-base res subs s e))
        ]

-- Every pair that the compiler derives from a rule has its base among the base resources of the rule,
-- so the search for an orphan finds none.
pub first_orphan-subresource_pairs :
    (res subs : List String) → first_orphan (base_resources res) (subresource_pairs res subs) ≡ none
first_orphan-subresource_pairs res subs =
    first_orphan-none (base_resources res) (subresource_pairs res subs)
      (subresource_pairs-base res subs)
