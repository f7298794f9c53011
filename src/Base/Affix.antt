-- ===== src/Base/Affix.antt =====
-- Go's suffixes, cases and lengths of a text.
use Prim.Native.Nat.{ℕ, zero, suc, ◌+◌, ◌-◌}
use Prim.Native.Char.{Char, code}
use Prim.Native.String.{String}
use Prim.Native.String
use mathlib.Core.Path.{◌≡◌, refl}
use mathlib.Core.Bool.{Bool, ◌&&◌, ◌||◌}
use text.Mathlib.Text.{◌==◌}
use evidra_bench.Base.Tests.{ltb, leb, eqb, if◌then◌else◌}
use evidra_bench.Base.Text.{is_empty}

-- The length in bytes of UTF-8: `len(s)`.
unfoldable pub byte_length : String → ℕ
byte_length String.[] = 0
byte_length (String.◌∷◌ c s) =
    (if ltb (code c) 0x80
      then 1
      else if ltb (code c) 0x800
      then 2
      else if ltb (code c) 0x10000
      then 3
      else 4)
    + byte_length s

-- strings.HasSuffix
unfoldable pub has_suffix : String → String → Bool
has_suffix String.[] suffix = is_empty suffix
has_suffix (String.◌∷◌ c s) suffix = String.◌∷◌ c s == suffix || has_suffix s suffix

-- strings.TrimSuffix, of a suffix that is not empty
unfoldable pub trim_suffix : String → String → String
trim_suffix String.[] suffix = ""
trim_suffix (String.◌∷◌ c s) suffix =
    let rest = trim_suffix s suffix in if String.◌∷◌ c s == suffix then "" else String.◌∷◌ c rest

-- The number of characters with the code: strings.Count of a text of one character.
unfoldable pub count_code : ℕ → String → ℕ
count_code n String.[] = 0
count_code n (String.◌∷◌ c s) = (if eqb (code c) n then 1 else 0) + count_code n s

-- The first `n` characters; of a text of ASCII, `s[:n]`.
unfoldable pub take_text : ℕ → String → String
take_text zero s = ""
take_text (suc n) String.[] = ""
take_text (suc n) (String.◌∷◌ c s) = String.◌∷◌ c (take_text n s)

suffix_example : trim_suffix "deployments" "s" ≡ "deployment"
unfolding trim_suffix
suffix_example = refl

-- strings.ToLower and strings.ToUpper, on the letters of ASCII.
lower_char : Char → Char
lower_char c =
    if leb 65 (code c) && leb (code c) 90
    then String.char_at "abcdefghijklmnopqrstuvwxyz" (code c - 65)
    else c

upper_char : Char → Char
upper_char c =
    if leb 97 (code c) && leb (code c) 122
    then String.char_at "ABCDEFGHIJKLMNOPQRSTUVWXYZ" (code c - 97)
    else c

unfoldable pub to_lower : String → String
unfolding lower_char
to_lower String.[] = ""
to_lower (String.◌∷◌ c s) = String.◌∷◌ (lower_char c) (to_lower s)

-- strings.ToUpper(s[:1]) + s[1:]; Go panics at the empty text.
unfoldable pub capitalize : String → String
unfolding upper_char
capitalize String.[] = ""
capitalize (String.◌∷◌ c s) = String.◌∷◌ (upper_char c) s

lower_example : to_lower "NetworkPolicy" ≡ "networkpolicy"
unfolding to_lower
lower_example = refl

upper_example : capitalize "networkpolicy" ≡ "Networkpolicy"
unfolding capitalize
upper_example = refl
