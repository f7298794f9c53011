-- ===== src/Autopsy/Tokens.antt =====
-- The tokens of a command: resourceKindAliases to commandTokensMatch, and containsVerbTokens, of
-- pkg/autopsy/autopsy.go.
use evidra_bench.Base.{
  String, Bool, true, false, not, ◌&&◌, ◌||◌, List, [], ◌∷◌, ◌++◌, none, some, ◌==◌, concat, covers,
  string_same, tally, contains_text, cut, fields, has_prefix, is_nil, to_lower, trim_prefix,
  trim_space, if◌then◌else◌, ◌≡◌, refl,
}
use evidra_bench.Timeline.Commands.{word_at}

abbrev pub resource_kind_aliases : List (String × String)
resource_kind_aliases =
    ("deploy", "deployment")
    ∷ ("deployments", "deployment")
    ∷ ("svc", "service")
    ∷ ("services", "service")
    ∷ ("po", "pod")
    ∷ ("pods", "pod")
    ∷ ("cm", "configmap")
    ∷ ("configmaps", "configmap")
    ∷ ("ns", "namespace")
    ∷ ("namespaces", "namespace")
    ∷ ("secrets", "secret")
    ∷ ("nodes", "node")
    ∷ []

unfoldable pub canonical_kind : String → String
canonical_kind kind = word_at resource_kind_aliases (to_lower kind) (to_lower kind)

unfoldable pub canonical_resource_token : String → String
canonical_resource_token token =
    let text = trim_space token in
    elim (cut 47 text) [
      | none ↦ canonical_kind text
      | some (kind, name) ↦ concat (canonical_kind kind ∷ "/" ∷ to_lower name ∷ [])
    ]

-- The tokens of a word that has no value after it.
unfoldable pub token_of : String → List String
token_of word =
    if has_prefix word "--namespace="
    then "-n" ∷ trim_prefix word "--namespace=" ∷ []
    else word ∷ []

unfoldable pub tokens_of : List String → List String
tokens_of [] = []
tokens_of (w ∷ []) = if to_lower w == "--namespace" then "-n" ∷ [] else token_of (to_lower w)
tokens_of (w ∷ v ∷ rest) =
    let skipped = tokens_of rest in
    let next = tokens_of (v ∷ rest) in
    if to_lower w == "--namespace"
    then "-n" ∷ to_lower v ∷ skipped
    else token_of (to_lower w) ++ next

unfoldable pub tokenize_command : String → List String
tokenize_command cmd = tokens_of (fields cmd)

unfoldable pub command_tokens_match : String → String → Bool
command_tokens_match pattern cmd =
    let want = tokenize_command pattern in
    not (is_nil want) && covers (tally (tokenize_command cmd) []) (tally want [])

unfoldable pub begins_with_verb : List String → List String → Bool
begins_with_verb cmd [] = true
begins_with_verb [] (v ∷ verb) = false
begins_with_verb (c ∷ cmd) (v ∷ verb) = (c == v || contains_text c v) && begins_with_verb cmd verb

unfoldable pub verb_within : List String → List String → Bool
verb_within [] verb = false
verb_within (c ∷ cmd) verb = begins_with_verb (c ∷ cmd) verb || verb_within cmd verb

unfoldable pub contains_verb_tokens : List String → List String → Bool
contains_verb_tokens cmd verb = is_nil verb || verb_within cmd verb

tokens_example :
    tokenize_command "kubectl --namespace Shop get --namespace=x pods"
    ≡ "kubectl" ∷ "-n" ∷ "shop" ∷ "get" ∷ "-n" ∷ "x" ∷ "pods" ∷ []
unfolding tokenize_command tokens_of token_of fields to_lower has_prefix trim_prefix
tokens_example = refl
