-- ===== src/Base/Text.antt =====
-- Text as Go's `strings` and `fmt` packages read it. A text is a native `String`.
use Prim.Native.Nat.{ℕ, zero, suc, ◌+◌, ◌/◌, ◌%◌}
use Prim.Native.Char.{code}
use Prim.Native.String.{String}
use Prim.Native.String
use mathlib.Core.Path.{◌≡◌, refl}
use mathlib.Core.Bool.{Bool, true, false, ◌&&◌, ◌||◌}
use mathlib.Core.List.{List, [], ◌∷◌}
use native.Mathlib.Omega.{arith}
use text.Mathlib.Text.{◌==◌}
use text.Mathlib.TextEquality.{eq_iff}
use evidra_bench.Base.Tests.{ltb, leb, eqb, if◌then◌else◌}

-- Go's `+` on strings, any number of them.
unfoldable pub concat : List String → String
concat [] = ""
concat (s ∷ []) = s
concat (s ∷ rest) = String.◌++◌ s (concat rest)

abbrev pub is_empty : String → Bool
is_empty s = s == ""

abbrev pub codes : String → List ℕ
codes String.[] = []
codes (String.◌∷◌ c s) = code c ∷ codes s

codes_equal : List ℕ → List ℕ → Bool
codes_equal [] [] = true
codes_equal (a ∷ as') (b ∷ bs) = eqb a b && codes_equal as' bs
codes_equal _ _ = false

-- The representative of a code point under simple case folding: the ASCII letters, with the two
-- points outside ASCII that fold onto one of them. Other points stand for themselves.
fold_code : ℕ → ℕ
fold_code c =
    if leb 65 c && leb c 90
    then c + 32
    else if eqb c 0x212a
    then 107
    else if eqb c 0x17f
    then 115
    else c

fold_codes : String → List ℕ
unfolding fold_code
fold_codes String.[] = []
fold_codes (String.◌∷◌ c s) = fold_code (code c) ∷ fold_codes s

-- strings.EqualFold
unfoldable pub equal_fold : String → String → Bool
unfolding fold_codes codes_equal
equal_fold s t = codes_equal (fold_codes s) (fold_codes t)

codes_equal_refl : (l : List ℕ) → codes_equal l l ≡ true
unfolding codes_equal
codes_equal_refl [] = refl
codes_equal_refl (a ∷ l) = ground (arith, codes_equal_refl l)

pub equal_fold_refl : (s : String) → equal_fold s s ≡ true
unfolding equal_fold
equal_fold_refl s = codes_equal_refl (fold_codes s)

-- The text before the first slash, as `strings.Cut(s, "/")` returns it; all of it if there is none.
unfoldable pub before_slash : String → String
before_slash String.[] = ""
before_slash (String.◌∷◌ c s) =
    let rest = before_slash s in if eqb (code c) 47 then "" else String.◌∷◌ c rest

-- strings.Contains(s, "/")
unfoldable pub has_slash : String → Bool
has_slash String.[] = false
has_slash (String.◌∷◌ c s) = eqb (code c) 47 || has_slash s

-- strings.Join(list, sep)
unfoldable pub join : String → List String → String
join sep [] = ""
join sep (s ∷ []) = s
join sep (s ∷ rest) = String.◌++◌ s (String.◌++◌ sep (join sep rest))

starts_codes : List ℕ → List ℕ → Bool
starts_codes s [] = true
starts_codes [] (b ∷ t) = false
starts_codes (a ∷ s) (b ∷ t) = eqb a b && starts_codes s t

contains_codes : List ℕ → List ℕ → Bool
unfolding starts_codes
contains_codes [] t = starts_codes [] t
contains_codes (a ∷ s) t = starts_codes (a ∷ s) t || contains_codes s t

-- strings.Contains
unfoldable pub contains_text : String → String → Bool
unfolding contains_codes
contains_text s t = contains_codes (codes s) (codes t)

digit : ℕ → String
digit d =
    if eqb d 0
    then "0"
    else if eqb d 1
    then "1"
    else if eqb d 2
    then "2"
    else if eqb d 3
    then "3"
    else if eqb d 4
    then "4"
    else if eqb d 5
    then "5"
    else if eqb d 6
    then "6"
    else if eqb d 7
    then "7"
    else if eqb d 8
    then "8"
    else "9"

decimal_fuel : ℕ → ℕ → String → String
unfolding digit
decimal_fuel zero n acc = acc
decimal_fuel (suc k) n acc =
    let more = decimal_fuel k (n / 10) (String.◌++◌ (digit (n % 10)) acc) in
    if ltb n 10 then String.◌++◌ (digit n) acc else more

-- The `%d` of a number: n + 1 rounds are enough, since the number falls in each.
unfoldable pub decimal : ℕ → String
unfolding decimal_fuel
decimal n = decimal_fuel (suc n) n ""

pub beq_false : (s t : String) → (s ≡ t → ⊥) → (s == t) ≡ false
beq_false s t h = ground (arith, eq_iff s t)

fold_example : equal_fold "Create" "cREATE" ≡ true
unfolding equal_fold
fold_example = refl

before_slash_example : before_slash "pods/exec" ≡ "pods"
unfolding before_slash
before_slash_example = refl

decimal_example : decimal 2047 ≡ "2047"
unfolding decimal
decimal_example = refl

contains_example : contains_text "/api/v1/pods/x/exec?command=ls" "/exec" ≡ true
unfolding contains_text
contains_example = refl

-- unicode.IsSpace
unfoldable pub is_space : ℕ → Bool
is_space c =
    (leb 9 c && leb c 13)
    || (eqb c 32
        || (eqb c 0x85
            || (eqb c 0xa0
                || (eqb c 0x1680
                    || ((leb 0x2000 c && leb c 0x200a)
                        || (eqb c 0x2028
                            || (eqb c 0x2029
                                || (eqb c 0x202f || (eqb c 0x205f || eqb c 0x3000)))))))))

trim_left : String → String
trim_left String.[] = ""
trim_left (String.◌∷◌ c s) =
    let rest = trim_left s in if is_space (code c) then rest else String.◌∷◌ c s

trim_right : String → String
trim_right String.[] = ""
trim_right (String.◌∷◌ c s) =
    let rest = trim_right s in if is_empty rest && is_space (code c) then "" else String.◌∷◌ c rest

-- strings.TrimSpace
unfoldable pub trim_space : String → String
unfolding trim_left trim_right is_space
trim_space s = trim_right (trim_left s)

unfoldable pub is_blank : String → Bool
is_blank s = is_empty (trim_space s)

trim_example : trim_space "  a b  " ≡ "a b"
unfolding trim_space
trim_example = refl
