-- ===== src/Base/Words.antt =====
-- Go's words, prefixes and cuts of a text.
use Prim.Native.Char.{code}
use Prim.Native.String.{String}
use mathlib.Core.Path.{◌≡◌, refl}
use mathlib.Core.Bool.{Bool, true, false, ◌&&◌}
use mathlib.Core.Option.{Option, none, some}
use mathlib.Core.List.{List, [], ◌∷◌}
use evidra_bench.Base.Tests.{eqb, if◌then◌else◌}
use evidra_bench.Base.Text.{is_empty, is_space}

unfoldable pub cons_word : String → List String → List String
cons_word w ws = if is_empty w then ws else w ∷ ws

-- The word that a text begins with, which may be empty, and the words after it.
unfoldable pub leading_word : String → String × List String
leading_word String.[] = ("", [])
leading_word (String.◌∷◌ c s) =
    let rest = leading_word s in
    if is_space (code c) then ("", cons_word rest.0 rest.1) else (String.◌∷◌ c rest.0, rest.1)

-- strings.Fields
unfoldable pub fields : String → List String
unfolding leading_word cons_word is_space
fields s = let first = leading_word s in cons_word first.0 first.1

-- strings.HasPrefix
unfoldable pub has_prefix : String → String → Bool
has_prefix s String.[] = true
has_prefix String.[] (String.◌∷◌ d p) = false
has_prefix (String.◌∷◌ c s) (String.◌∷◌ d p) = eqb (code c) (code d) && has_prefix s p

unfoldable pub after_prefix : String → String → String
after_prefix s String.[] = s
after_prefix String.[] (String.◌∷◌ d p) = ""
after_prefix (String.◌∷◌ c s) (String.◌∷◌ d p) = after_prefix s p

-- strings.TrimPrefix
unfoldable pub trim_prefix : String → String → String
unfolding has_prefix after_prefix
trim_prefix s p = if has_prefix s p then after_prefix s p else s

-- strings.Cut, at a separator that is not empty.
unfoldable pub cut_text : String → String → Option (String × String)
unfolding has_prefix after_prefix
cut_text sep String.[] = none
cut_text sep (String.◌∷◌ c s) =
    let rest = cut_text sep s in
    if has_prefix (String.◌∷◌ c s) sep
    then some ("", after_prefix (String.◌∷◌ c s) sep)
    else elim rest [ none ↦ none | some (a, b) ↦ some (String.◌∷◌ c a, b) ]

fields_example : fields "  kubectl get  pods " ≡ "kubectl" ∷ "get" ∷ "pods" ∷ []
unfolding fields
fields_example = refl

prefix_example : trim_prefix "--namespace=shop" "--namespace=" ≡ "shop"
unfolding trim_prefix
prefix_example = refl

cut_example : cut_text " in " "Deployment/web in shop" ≡ some ("Deployment/web", "shop")
unfolding cut_text
cut_example = refl
