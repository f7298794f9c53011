-- ===== src/Base/Split.antt =====
-- Cutting a text at one ASCII byte, as `strings.Split`, `strings.IndexByte` and their kin do.
use Prim.Native.Nat.{ℕ, ◌+◌, ◌-◌, ◌*◌, ◌^◌}
use Prim.Native.Char.{code}
use Prim.Native.String.{String}
use Prim.Native.String
use mathlib.Core.Path.{◌≡◌, refl}
use mathlib.Core.Bool.{Bool, false, ◌&&◌}
use mathlib.Core.Option.{Option, none, some}
use mathlib.Core.List.{List, [], ◌∷◌}
use evidra_bench.Base.Tests.{leb, eqb, if◌then◌else◌}

unfoldable pub cons_head : String → List String → List String
cons_head c [] = c ∷ []
cons_head c (s ∷ rest) = String.◌++◌ c s ∷ rest

-- strings.Split(s, sep) for a separator of one byte.
unfoldable pub split : ℕ → String → List String
unfolding cons_head
split sep String.[] = "" ∷ []
split sep (String.◌∷◌ c s) =
    let rest = split sep s in
    if eqb (code c) sep then "" ∷ rest else cons_head (String.◌∷◌ c String.[]) rest

-- The texts before and after the first `sep`.
unfoldable pub cut : ℕ → String → Option (String × String)
cut sep String.[] = none
cut sep (String.◌∷◌ c s) =
    let rest = cut sep s in
    if eqb (code c) sep
    then some ("", s)
    else elim rest [ none ↦ none | some (a, b) ↦ some (String.◌∷◌ c a, b) ]

unfoldable pub last_is : ℕ → String → Bool
last_is b String.[] = false
last_is b (String.◌∷◌ c String.[]) = eqb (code c) b
last_is b (String.◌∷◌ c (String.◌∷◌ d s)) = last_is b (String.◌∷◌ d s)

unfoldable pub drop_last : String → String
drop_last String.[] = ""
drop_last (String.◌∷◌ c String.[]) = ""
drop_last (String.◌∷◌ c (String.◌∷◌ d s)) = String.◌∷◌ c (drop_last (String.◌∷◌ d s))

-- strings.ReplaceAll(s, "~" + d, to)
unfoldable pub unescape : ℕ → String → String → String
unescape d to String.[] = ""
unescape d to (String.◌∷◌ c String.[]) = String.◌∷◌ c String.[]
unescape d to (String.◌∷◌ c (String.◌∷◌ e s)) =
    let skip = String.◌++◌ to (unescape d to s) in
    let keep = String.◌∷◌ c (unescape d to (String.◌∷◌ e s)) in
    if eqb (code c) 126 && eqb (code e) d then skip else keep

-- The value of a run of decimal digits.
digits_value : ℕ → String → Option ℕ
digits_value n String.[] = some n
digits_value n (String.◌∷◌ c s) =
    let rest = digits_value (n * 10 + (code c - 48)) s in
    if leb 48 (code c) && leb (code c) 57 then rest else none

within : ℕ → Option ℕ → Bool
within limit none = false
within limit (some n) = leb n limit

unsigned_int : ℕ → String → Bool
unfolding digits_value within
unsigned_int limit String.[] = false
unsigned_int limit (String.◌∷◌ c s) = within limit (digits_value 0 (String.◌∷◌ c s))

-- Does strconv.Atoi accept the text? One sign, digits, and the range of a 64-bit int.
unfoldable pub is_int : String → Bool
unfolding unsigned_int
is_int String.[] = false
is_int (String.◌∷◌ c s) =
    if eqb (code c) 45
    then unsigned_int (2 ^ 63) s
    else if eqb (code c) 43
    then unsigned_int (2 ^ 63 - 1) s
    else unsigned_int (2 ^ 63 - 1) (String.◌∷◌ c s)

-- strings.TrimPrefix(s, "/")
unfoldable pub trim_slash : String → String
trim_slash String.[] = ""
trim_slash (String.◌∷◌ c s) = if eqb (code c) 47 then s else String.◌∷◌ c s

split_example : split 46 "a..b" ≡ "a" ∷ "" ∷ "b" ∷ []
unfolding split
split_example = refl

cut_example : cut 61 "name=api=x" ≡ some ("name", "api=x")
unfolding cut
cut_example = refl

unescape_example : unescape 49 "/" "a~1b~0" ≡ "a/b~0"
unfolding unescape
unescape_example = refl
