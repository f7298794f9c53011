-- ===== src/Autopsy/Transcript.antt =====
-- What the agent said at the end: finalAssistantText and isTranscriptRoleLine of pkg/autopsy/autopsy.go.
use evidra_bench.Base.{
  String, Bool, true, false, ◌&&◌, ◌||◌, List, [], ◌∷◌, ◌++◌, none, some, any, byte_length,
  contains_text, cut, has_prefix, is_empty, join, leb, split, to_lower, trim_prefix, trim_space,
  if◌then◌else◌, ◌≡◌, refl,
}

abbrev pub gave_up_phrases : List String
gave_up_phrases =
    "cannot continue" ∷ "can't continue" ∷ "unable to continue" ∷ "i give up" ∷ "cannot proceed"
    ∷ "can't proceed" ∷ []

abbrev pub premature_success_phrases : List String
premature_success_phrases =
    "everything is working" ∷ "deployment is fixed" ∷ "issue is fixed" ∷ "problem is fixed"
    ∷ "successfully fixed" ∷ "successfully resolved" ∷ "task is complete" ∷ []

unfoldable pub contains_any : String → List String → Bool
contains_any text phrases = any (contains_text (to_lower text)) phrases

-- A line that begins with a role in brackets, which ends the line or has a space after it.
unfoldable pub is_transcript_role_line : String → Bool
is_transcript_role_line line = has_prefix line "[" && (elim (cut 93 line) [
  | none ↦ false
  | some (role, rest) ↦ leb 2 (byte_length role) && (is_empty rest || has_prefix rest " ")
])

-- The variables of the loop.
pub record Reading : Type 0 where
  pub current : List String
  pub last : String
  pub collecting : Bool

unfoldable pub said : Reading → String
said r = if r.collecting then trim_space (join "\n" r.current) else r.last

unfoldable pub take_line : String → Reading → Reading
take_line line r =
    if has_prefix line "[assistant]"
    then record {
      current = trim_space (trim_prefix line "[assistant]") ∷ [];
      last = said r;
      collecting = true;
    }
    else if is_transcript_role_line line
    then record {
      current = if r.collecting then [] else r.current;
      last = said r;
      collecting = false;
    }
    else record r { current = if r.collecting then r.current ++ line ∷ [] else r.current }

unfoldable pub take_lines : List String → Reading → Reading
take_lines [] r = r
take_lines (line ∷ lines) r = take_lines lines (take_line line r)

abbrev pub initial_reading : Reading
initial_reading = record { current = []; last = ""; collecting = false }

-- The text, and whether an assistant said it.
unfoldable pub final_assistant_text : String → String × Bool
final_assistant_text transcript =
    let last = said (take_lines (split 10 transcript) initial_reading) in
    if is_empty last then (transcript, false) else (last, true)

final_example :
    final_assistant_text "[assistant] hm\n[tool] x\n[assistant] The issue\n[1] is fixed\n[tool]"
    ≡ ("The issue", true)
unfolding final_assistant_text take_lines take_line said is_transcript_role_line has_prefix
    trim_prefix trim_space join split cut byte_length
final_example = refl
