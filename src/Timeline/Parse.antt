-- ===== src/Timeline/Parse.antt =====
-- The loop over the tool calls of a run: `Parse` of pkg/bench/timeline_parse.go.
use evidra_bench.Base.{
  String, ℕ, ◌+◌, Bool, true, false, ◌||◌, List, [], ◌∷◌, ◌++◌, Option, none, some, ◌==◌, length,
  ltb, if◌then◌else◌,
}
use evidra_bench.Timeline.Commands.{
  parse_command, is_mutation_cmd, is_diagnosis, extract_namespace, extract_resource,
  extract_exit_code, build_mutation_summary, build_read_summary,
}
use evidra_bench.Timeline.Steps.{
  Phase, act, diagnose, same_phase, is_act, ToolCall, TimelineStep, Decoder, read_phase,
  parse_mcp_tool_call,
}

-- The counts of the phases are a function of the phase.
pub record Timeline : Type 0 where
  pub steps : List TimelineStep
  pub phase_count : Phase → ℕ
  pub mutation_count : ℕ
  pub total_steps : ℕ
  pub diagnosis_depth : ℕ

-- The variables of the loop.
pub record ParseState : Type 0 where
  pub timeline : Timeline
  pub seen_mutation : Bool
  pub read_only_count : ℕ

unfoldable pub command_or_empty : Option String → String
command_or_empty none = ""
command_or_empty (some cmd) = cmd

unfoldable pub command_step : ℕ → ToolCall → String → Bool → ℕ → TimelineStep
command_step index call cmd seen_mutation read_only_count =
    let c = parse_command cmd in
    let ns = extract_namespace cmd in
    let res = extract_resource c.rest in
    let mutates = is_mutation_cmd c.infra_tool c.subcommand cmd in
    record {
      index = index;
      phase =
          if mutates
          then act
          else read_phase seen_mutation
              (is_diagnosis c.infra_tool c.subcommand cmd || ltb 0 read_only_count);
      tool = call.tool;
      operation = c.subcommand;
      command = cmd;
      resource = res;
      namespace = ns;
      exit_code = extract_exit_code call.result;
      summary =
          if mutates
          then build_mutation_summary c.subcommand res ns
          else build_read_summary c.subcommand res ns;
    }

unfoldable pub count_phase : Phase → (Phase → ℕ) → Phase → ℕ
count_phase p counts q = if same_phase p q then counts q + 1 else counts q

-- A step is appended and counted; only a command adds to the depth of the diagnosis.
unfoldable pub record_step : Bool → TimelineStep → ParseState → ParseState
record_step is_command step s =
    let t = s.timeline in
    let mutates = is_act step.phase in
    record {
      timeline = record {
        steps = t.steps ++ step ∷ [];
        phase_count = count_phase step.phase t.phase_count;
        mutation_count = if mutates then t.mutation_count + 1 else t.mutation_count;
        total_steps = t.total_steps;
        diagnosis_depth =
            if is_command
            then (if same_phase step.phase diagnose
                then t.diagnosis_depth + 1
                else t.diagnosis_depth)
            else t.diagnosis_depth;
      };
      seen_mutation = if mutates then true else s.seen_mutation;
      read_only_count = if mutates then s.read_only_count else s.read_only_count + 1;
    }

unfoldable pub record_mcp : Option TimelineStep → ParseState → ParseState
record_mcp none s = s
record_mcp (some step) s = record_step false step s

unfoldable pub take_call : Decoder → ℕ → ToolCall → ParseState → ParseState
take_call d index call s =
    if call.tool == "run_command"
    then record_step true
        (command_step index call (command_or_empty (d.command call.args)) s.seen_mutation
          s.read_only_count)
        s
    else record_mcp (parse_mcp_tool_call d index call s.seen_mutation s.read_only_count) s

unfoldable pub take_calls : Decoder → ℕ → List ToolCall → ParseState → ParseState
take_calls d index [] s = s
take_calls d index (call ∷ rest) s = take_calls d (index + 1) rest (take_call d index call s)

abbrev pub empty_timeline : Timeline
empty_timeline = record {
  steps = [];
  phase_count = λ p. 0;
  mutation_count = 0;
  total_steps = 0;
  diagnosis_depth = 0;
}

abbrev pub initial_parse : ParseState
initial_parse = record { timeline = empty_timeline; seen_mutation = false; read_only_count = 0 }

unfoldable pub parse_calls : Decoder → List ToolCall → Timeline
parse_calls d calls =
    let t = (take_calls d 0 calls initial_parse).timeline in
    record t { total_steps = length t.steps }
