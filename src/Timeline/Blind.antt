-- ===== src/Timeline/Blind.antt =====
-- What the timeline of pkg/bench/timeline_parse.go does not see.
use evidra_bench.Base.{
  String, ℕ, ◌+◌, Bool, true, false, not, List, [], ◌∷◌, Option, none, some, ◌==◌, contains, all,
  has_prefix, fields, ◌≡◌, refl, ◌∙◌, arith, inl, inr, Bool-cases, branches, eq_iff, subst, sym,
}
use evidra_bench.Timeline.Commands.{
  mutation_subcommands, command_of, parse_command, is_mutation_of, is_mutation_cmd,
}
use evidra_bench.Timeline.Steps.{is_act, same_phase, read_phase, ToolCall, TimelineStep, Decoder}
use evidra_bench.Timeline.Parse.{
  ParseState, command_step, record_step, record_mcp, take_call, take_calls, initial_parse,
  parse_calls,
}

abbrev plain : String → Bool
plain s = not (has_prefix s "-")

contains_flag :
    (words : List String) (flag : String)
    → all plain words ≡ true
    → has_prefix flag "-" ≡ true
    → contains words flag ≡ false
unfolding contains all
contains_flag [] flag h dashed = refl
contains_flag (w ∷ words) flag h dashed =
    let unlike : (w == flag) ≡ false = elim (Bool-cases (w == flag)) [
      | inl same ↦
          let also : has_prefix w "-" ≡ true =
            subst (λ t. has_prefix t "-" ≡ true) (sym ((eq_iff w flag).0 same)) dashed in
          ground (arith, h, also)
      | inr other ↦ other
    ] in
    ground (arith, h, unlike, contains_flag words flag (ground (arith, h)) dashed)

abbrev Plain : Option (List String) → Type 0
Plain none = Unit
Plain (some subs) = all plain subs ≡ true

-- No table holds a flag.
subcommands-Plain : (tool : String) → Plain (mutation_subcommands tool)
unfolding all mutation_subcommands has_prefix
subcommands-Plain tool = branches Plain (tool == "kubectl") refl (
    branches Plain (tool == "helm") refl
      (branches Plain (tool == "terraform") refl (branches Plain (tool == "argocd") refl tt)))

unmutating :
    (subs : Option (List String)) (tool flag cmd : String)
    → Plain subs
    → has_prefix flag "-" ≡ true
    → is_mutation_of subs tool flag cmd ≡ false
unfolding is_mutation_of
unmutating none tool flag cmd p dashed = refl
unmutating (some subs) tool flag cmd p dashed = ground (arith, contains_flag subs flag p dashed)

read_phase-is_act : (seen diagnostic : Bool) → is_act (read_phase seen diagnostic) ≡ false
unfolding read_phase is_act same_phase
read_phase-is_act seen diagnostic = ground arith

-- A command whose second word is a flag, as in `kubectl -n shop delete pod web`, is no mutation of the timeline,
-- whatever it does.
pub command_step-flagged :
    (index : ℕ) (call : ToolCall) (cmd tool flag : String) (rest : List String) (seen : Bool)
    (reads : ℕ)
    → fields cmd ≡ tool ∷ flag ∷ rest
    → has_prefix flag "-" ≡ true
    → is_act (command_step index call cmd seen reads).phase ≡ false
unfolding command_step parse_command command_of is_mutation_cmd
command_step-flagged index call cmd tool flag rest seen reads words dashed =
    let still =
      unmutating (mutation_subcommands tool) tool flag cmd (subcommands-Plain tool) dashed in
    simp (words, still) (read_phase-is_act seen _)

record_mcp-diagnosis_depth :
    (step : Option TimelineStep) (s : ParseState)
    → (record_mcp step s).timeline.diagnosis_depth ≡ s.timeline.diagnosis_depth
unfolding record_mcp record_step
record_mcp-diagnosis_depth none s = refl
record_mcp-diagnosis_depth (some step) s = refl

abbrev pub by_server : ToolCall → Bool
by_server call = not (call.tool == "run_command")

take_calls-undiagnosed :
    (d : Decoder) (index : ℕ) (calls : List ToolCall) (s : ParseState)
    → all by_server calls ≡ true
    → (take_calls d index calls s).timeline.diagnosis_depth ≡ s.timeline.diagnosis_depth
unfolding take_calls take_call all
take_calls-undiagnosed d index [] s h = refl
take_calls-undiagnosed d index (call ∷ rest) s h =
    let other : (call.tool == "run_command") ≡ false = ground (arith, h) in
    take_calls-undiagnosed d (index + 1) rest _ (ground (arith, h))
    ∙ simp other (record_mcp-diagnosis_depth _ s)

-- In a run that only calls the tools of the server the diagnosis has depth 0, whatever its calls read.
pub parse_calls-undiagnosed :
    (d : Decoder) (calls : List ToolCall)
    → all by_server calls ≡ true
    → (parse_calls d calls).diagnosis_depth ≡ 0
unfolding parse_calls
parse_calls-undiagnosed d calls h = take_calls-undiagnosed d 0 calls initial_parse h
