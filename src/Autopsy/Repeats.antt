-- ===== src/Autopsy/Repeats.antt =====
-- Repeated commands: commandFingerprint to normalizeResult of pkg/autopsy/autopsy.go. A Go map is a list of
-- its entries; `order` is the order in which `range` gives them, which Go leaves open.
use evidra_bench.Base.{
  String, ℕ, Bool, true, false, not, ◌&&◌, ◌||◌, List, [], ◌∷◌, Option, none, some, ◌==◌, concat,
  contains, contains_text, decimal, eqb, fields, is_empty, join, ltb, to_lower, if◌then◌else◌, Same,
  tally, ◌≡◌, ◌↔◌, arith, eq_iff,
}
use evidra_bench.Timeline.Steps.{ToolCall, TimelineStep, Decoder, is_act}
use evidra_bench.Timeline.Parse.{Timeline, command_or_empty}
use evidra_bench.Timeline.Commands.{read_only_rollout}

pub record CommandFingerprint : Type 0 where
  pub command : String
  pub result : String

unfoldable pub same_fingerprint : CommandFingerprint → CommandFingerprint → Bool
same_fingerprint a b = a.command == b.command && a.result == b.result

pub same_fingerprint_iff : (a b : CommandFingerprint) → (same_fingerprint a b ≡ true) ↔ (a ≡ b)
unfolding same_fingerprint
same_fingerprint_iff a b = (
  λ h. ground (arith, h, eq_iff a.command b.command, eq_iff a.result b.result),
  λ h. ground (arith, h, eq_iff a.command b.command, eq_iff a.result b.result),
)

instance abbrev pub fingerprint_same : Same CommandFingerprint
fingerprint_same = record { same = same_fingerprint; same_iff = same_fingerprint_iff }

abbrev pub FingerprintCounts : Type 0
FingerprintCounts = List (CommandFingerprint × ℕ)

unfoldable pub normalize_command : String → String
normalize_command cmd = to_lower (join " " (fields cmd))

unfoldable pub normalize_result : String → String
normalize_result result = to_lower (join " " (fields result))

-- The fingerprint of a call that counts.
unfoldable pub fingerprint_of : Decoder → ToolCall → Option CommandFingerprint
fingerprint_of d call =
    let cmd = normalize_command (command_or_empty (d.command call.args)) in
    if not (call.tool == "run_command") || is_empty cmd
    then none
    else some (record { command = cmd; result = normalize_result call.result })

unfoldable pub fingerprints : Decoder → List ToolCall → List CommandFingerprint
fingerprints d [] = []
fingerprints d (call ∷ calls) =
    let rest = fingerprints d calls in
    elim (fingerprint_of d call) [ none ↦ rest | some fp ↦ fp ∷ rest ]

unfoldable pub best_of : FingerprintCounts → String × ℕ → String × ℕ
best_of [] best = best
best_of ((fp, n) ∷ m) best = best_of m (if ltb best.1 n then (fp.command, n) else best)

unfoldable pub most_repeated_command :
    Decoder → (FingerprintCounts → FingerprintCounts) → List ToolCall → String × ℕ
most_repeated_command d order calls = best_of (order (tally (fingerprints d calls) [])) ("", 0)

unfoldable pub reads_only : List String → String → Bool
reads_only (tool ∷ sub ∷ rest) cmd =
    tool == "kubectl"
    && (contains ("get" ∷ "describe" ∷ "logs" ∷ "top" ∷ []) sub
        || ((sub == "rollout"
              && (elim rest [ [] ↦ false | word ∷ more ↦ contains read_only_rollout word ]))
            || (sub == "exec" && contains_text (concat (" " ∷ cmd ∷ " " ∷ [])) " cat ")))
reads_only words cmd = false

unfoldable pub likely_read_only_command : String → Bool
likely_read_only_command cmd = reads_only (fields cmd) cmd

unfoldable pub repeated_command_is_read_only : String → List TimelineStep → Bool
repeated_command_is_read_only cmd [] = likely_read_only_command cmd
repeated_command_is_read_only cmd (step ∷ steps) =
    if normalize_command step.command == cmd
    then not (is_act step.phase)
    else repeated_command_is_read_only cmd steps

unfoldable pub retry_loop_message : String → ℕ → Timeline → String
retry_loop_message cmd count t = concat (
    "Repeated the same "
    ∷ (if repeated_command_is_read_only cmd t.steps
        then "read-only diagnostic command"
        else "command")
    ∷ " "
    ∷ decimal count
    ∷ " times."
    ∷ (if eqb t.mutation_count 0
        then " No mutation was observed before the failed run ended."
        else "")
    ∷ [])
