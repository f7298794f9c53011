-- ===== src/Timeline/Commands.antt =====
-- The commands of an agent: parseCommand to formatSummary of pkg/bench/timeline_parse.go.
use evidra_bench.Base.{
  String, ℕ, Bool, false, not, ◌&&◌, ◌||◌, List, [], ◌∷◌, Option, none, some, ◌==◌, contains,
  contains_text, concat, is_empty, join, fields, has_prefix, if◌then◌else◌,
}

-- mutationSubcommands
unfoldable pub mutation_subcommands : String → Option (List String)
mutation_subcommands tool =
    if tool == "kubectl"
    then some (
        "apply" ∷ "create" ∷ "patch" ∷ "replace" ∷ "delete" ∷ "set" ∷ "annotate" ∷ "label"
        ∷ "rollout" ∷ "scale" ∷ "taint" ∷ "cordon" ∷ "uncordon" ∷ "drain" ∷ [])
    else if tool == "helm"
    then some ("install" ∷ "upgrade" ∷ "uninstall" ∷ "rollback" ∷ [])
    else if tool == "terraform"
    then some ("apply" ∷ "destroy" ∷ "import" ∷ [])
    else if tool == "argocd"
    then some ("sync" ∷ "delete" ∷ [])
    else none

abbrev pub diagnosis_commands : List String
diagnosis_commands = "describe" ∷ "logs" ∷ "events" ∷ []

abbrev pub read_only_rollout : List String
read_only_rollout = "status" ∷ "history" ∷ []

pub record Command : Type 0 where
  pub infra_tool : String
  pub subcommand : String
  pub rest : String

-- The tool, the subcommand and the rest, of the words of a command.
unfoldable pub command_of : List String → Command
command_of [] = record { infra_tool = ""; subcommand = ""; rest = "" }
command_of (tool ∷ []) = record { infra_tool = tool; subcommand = ""; rest = "" }
command_of (tool ∷ sub ∷ words) = record {
  infra_tool = tool;
  subcommand = sub;
  rest = join " " words;
}

unfoldable pub parse_command : String → Command
parse_command cmd = command_of (fields cmd)

-- Whether the third word is a rollout subcommand that only reads.
unfoldable pub reads_rollout : List String → Bool
reads_rollout (a ∷ b ∷ word ∷ rest) = contains read_only_rollout word
reads_rollout words = false

unfoldable pub is_mutation_of : Option (List String) → String → String → String → Bool
is_mutation_of none tool sub cmd = false
is_mutation_of (some subs) tool sub cmd =
    contains subs sub && not ((tool == "kubectl" && sub == "rollout") && reads_rollout (fields cmd))

unfoldable pub is_mutation_cmd : String → String → String → Bool
is_mutation_cmd tool sub cmd = is_mutation_of (mutation_subcommands tool) tool sub cmd

unfoldable pub is_diagnosis : String → String → String → Bool
is_diagnosis tool sub cmd =
    tool == "kubectl"
    && (contains diagnosis_commands sub
        || (sub == "get"
            && ((contains_text cmd " -o yaml"
                  || (contains_text cmd " -o json"
                      || (contains_text cmd " -oyaml" || contains_text cmd " -ojson")))
                || contains_text cmd " events")))

unfoldable pub namespace_of : List String → String
namespace_of [] = ""
namespace_of (w ∷ []) = ""
namespace_of (w ∷ v ∷ rest) =
    let later = namespace_of (v ∷ rest) in if w == "-n" || w == "--namespace" then v else later

unfoldable pub extract_namespace : String → String
extract_namespace cmd = namespace_of (fields cmd)

-- The first word that is no flag.
unfoldable pub first_argument : List String → String
first_argument [] = ""
first_argument (w ∷ rest) = if has_prefix w "-" then first_argument rest else w

unfoldable pub extract_resource : String → String
extract_resource rest = first_argument (fields rest)

unfoldable pub extract_exit_code : String → ℕ
extract_exit_code result =
    if contains_text result "exit status 1" || contains_text result "exit code 1"
    then 1
    else if has_prefix result "error:" || has_prefix result "Error"
    then 1
    else 0

unfoldable pub format_summary : String → String → String → String
format_summary verb resource ns =
    if is_empty resource
    then (if is_empty ns then verb else concat (verb ∷ " in " ∷ ns ∷ []))
    else if is_empty ns
    then concat (verb ∷ " " ∷ resource ∷ [])
    else concat (verb ∷ " " ∷ resource ∷ " in " ∷ ns ∷ [])

-- The entry of a table of words, or another word.
unfoldable pub word_at : List (String × String) → String → String → String
word_at [] key other = other
word_at ((k, v) ∷ table) key other = if k == key then v else word_at table key other

abbrev pub mutation_verbs : List (String × String)
mutation_verbs =
    ("apply", "Applied")
    ∷ ("create_or_update", "Applied")
    ∷ ("create", "Created")
    ∷ ("patch", "Patched")
    ∷ ("delete", "Deleted")
    ∷ ("replace", "Replaced")
    ∷ ("scale", "Scaled")
    ∷ ("rollout", "Rolled out")
    ∷ ("label", "Labeled")
    ∷ ("annotate", "Annotated")
    ∷ ("drain", "Drained")
    ∷ ("cordon", "Cordoned")
    ∷ ("uncordon", "Uncordoned")
    ∷ ("taint", "Tainted")
    ∷ ("install", "Installed")
    ∷ ("upgrade", "Upgraded")
    ∷ ("uninstall", "Uninstalled")
    ∷ ("rollback", "Rolled back")
    ∷ []

abbrev pub read_verbs : List (String × String)
read_verbs =
    ("get", "Listed")
    ∷ ("describe", "Described")
    ∷ ("logs", "Checked logs for")
    ∷ ("rollout", "Checked rollout of")
    ∷ []

unfoldable pub build_mutation_summary : String → String → String → String
build_mutation_summary sub resource ns =
    format_summary (word_at mutation_verbs sub (concat ("Ran " ∷ sub ∷ []))) resource ns

unfoldable pub build_read_summary : String → String → String → String
build_read_summary sub resource ns =
    format_summary (word_at read_verbs sub (concat ("Ran " ∷ sub ∷ " on" ∷ []))) resource ns
