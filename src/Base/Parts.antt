-- ===== src/Base/Parts.antt =====
-- The parts of a text that was joined with slashes.
use Prim.Native.Nat.{ℕ}
use Prim.Native.Char.{Char, char, code}
use Prim.Native.String.{String}
use Prim.Native.String
use Prim.Native.String.append
use mathlib.Core.Path.{◌≡◌, refl, ap, ◌∙◌}
use mathlib.Core.Bool.{false}
use mathlib.Core.List.{List, [], ◌∷◌}
use native.Mathlib.Omega.{arith}
use mathlib.Core.Logic.{inl, inr}
use evidra_bench.Base.Tests.{eqb, Bool-cases}
use evidra_bench.Base.Text.{has_slash}
use evidra_bench.Base.Split.{cons_head, split}

slash_next : (t : String) → split 47 (String.◌++◌ "/" t) ≡ "" ∷ split 47 t
unfolding split
slash_next t =
    let apart : String.◌++◌ "/" t ≡ String.◌∷◌ (char 47 tt) t =
      append.cons (char 47 tt) "" t ∙ ap (String.◌∷◌ (char 47 tt)) (append.nil t) in
    ap (split 47) apart

keeps_head :
    (c : Char) (s : String) (first : String) (rest : List String)
    → eqb (code c) 47 ≡ false
    → split 47 s ≡ first ∷ rest
    → split 47 (String.◌∷◌ c s) ≡ String.◌∷◌ c first ∷ rest
unfolding split
keeps_head c s first rest other h =
    let step : split 47 (String.◌∷◌ c s) ≡ cons_head (String.◌∷◌ c "") (split 47 s) =
      simp other refl in
    step
    ∙ (ap (cons_head (String.◌∷◌ c "")) h
        ∙ ap (λ x. x ∷ rest) (append.cons c "" first ∙ ap (String.◌∷◌ c) (append.nil first)))

-- The first part goes up to the first slash.
pub split-slash :
    (s t : String)
    → has_slash s ≡ false
    → split 47 (String.◌++◌ s (String.◌++◌ "/" t)) ≡ s ∷ split 47 t
unfolding has_slash
split-slash String.[] t h = ap (split 47) (append.nil (String.◌++◌ "/" t)) ∙ slash_next t
split-slash (String.◌∷◌ c s) t h =
    ap (split 47) (append.cons c s (String.◌++◌ "/" t))
    ∙ keeps_head c (String.◌++◌ s (String.◌++◌ "/" t)) s (split 47 t) (ground (arith, h))
        (split-slash s t (ground (arith, h)))

cons_head-cons :
    (c : String) (parts : List String)
    → (first : String) × (rest : List String) × (cons_head c parts ≡ first ∷ rest)
unfolding cons_head
cons_head-cons c [] = (c, [], refl)
cons_head-cons c (s ∷ rest) = (String.◌++◌ c s, rest, refl)

-- There is a last part, which may be empty.
pub split-cons :
    (sep : ℕ) (s : String) → (first : String) × (rest : List String) × (split sep s ≡ first ∷ rest)
unfolding split
split-cons sep String.[] = ("", [], refl)
split-cons sep (String.◌∷◌ c s) = elim (Bool-cases (eqb (code c) sep)) [
  | inl cut_here ↦ ("", split sep s, simp cut_here refl)
  | inr other ↦
      let (first, rest, e) = cons_head-cons (String.◌∷◌ c "") (split sep s) in
      (first, rest, simp other e)
]
