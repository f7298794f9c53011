-- ===== src/Audit/FieldPath.antt =====
-- Field paths of the rules and JSON pointers of the patches: pkg/audit/fields.go.
use evidra_bench.Base.{
  String, Bool, true, false, not, ◌&&◌, ◌||◌, List, [], ◌∷◌, ◌==◌, ◌≡◌, refl, none, some, map,
  is_empty, split, cut, last_is, drop_last, unescape, is_int, trim_slash, if◌then◌else◌,
}

-- One step of a dotted path. An empty `pred` restricts nothing.
pub record FieldSegment : Type 0 where
  pub key : String
  pub pred : String

-- The selector of `containers[name=api]`, from the text between the brackets.
unfoldable pub selector : String → String
selector expr = elim (cut 61 expr) [ none ↦ "" | some (k, v) ↦ if k == "name" then v else "" ]

unfoldable pub segment_of : String → FieldSegment
unfolding selector
segment_of part = elim (cut 91 part) [
  | none ↦ record { key = part; pred = "" }
  | some (key, rest) ↦
      if last_is 93 part
      then record { key = key; pred = selector (drop_last rest) }
      else record { key = part; pred = "" }
]

segments_of : List String → List FieldSegment
segments_of [] = []
segments_of (part ∷ parts) =
    if is_empty part then segments_of parts else segment_of part ∷ segments_of parts

unfoldable pub parse_field_path : String → List FieldSegment
unfolding segments_of
parse_field_path field = segments_of (split 46 field)

unfoldable pub rule_path : List FieldSegment → Bool → List String
rule_path [] with_index = []
rule_path (s ∷ segs) with_index =
    if with_index && not (is_empty s.pred)
    then s.key ∷ "*" ∷ rule_path segs with_index
    else s.key ∷ rule_path segs with_index

normalize_segment : String → String
normalize_segment seg =
    let plain = unescape 48 "~" (unescape 49 "/" seg) in if is_int plain then "*" else plain

unfoldable pub normalize_pointer : String → List String
unfolding normalize_segment
normalize_pointer p =
    let q = trim_slash p in if is_empty q then [] else map normalize_segment (split 47 q)

-- The code indexes the rule by the positions of `got`, and its callers see to it that `got` is no
-- longer than the rule.
unfoldable pub equal_prefix : List String → List String → Bool
equal_prefix rule [] = true
equal_prefix [] (g ∷ gs) = false
equal_prefix (r ∷ rs) (g ∷ gs) = (r == g || (r == "*" || g == "*")) && equal_prefix rs gs

path_example :
    parse_field_path "spec.containers[name=api].image"
    ≡ record { key = "spec"; pred = "" }
      ∷ record { key = "containers"; pred = "api" }
      ∷ record { key = "image"; pred = "" }
      ∷ []
unfolding parse_field_path segment_of split cut last_is drop_last
path_example = refl

pointer_example :
    normalize_pointer "/spec/containers/0/a~1b" ≡ "spec" ∷ "containers" ∷ "*" ∷ "a/b" ∷ []
unfolding normalize_pointer split unescape is_int trim_slash
pointer_example = refl
