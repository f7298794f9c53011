-- ===== src/Timeline/Counts.antt =====
-- The counters and the order of the phases of a timeline, of pkg/bench/timeline_parse.go.
use evidra_bench.Base.{
  String, ℕ, ◌+◌, ◌≤◌, Bool, true, false, not, ◌&&◌, ◌||◌, List, [], ◌∷◌, ◌++◌, Option, none, some,
  ◌==◌, length, count_of, any, ltb, ◌≡◌, refl, inl, inr, arith, Bool-cases, branches, any-append,
  count_of-append, contains,
}
use evidra_bench.Timeline.Commands.{parse_command, is_mutation_cmd}
use evidra_bench.Timeline.Steps.{
  Phase, discover, diagnose, decide, act, verify, explain, same_phase, is_act, ToolCall,
  TimelineStep, Decoder, read_phase, KubernetesResourceRef, mutation_step, read_step,
  parse_mcp_tool_call, read_tools, is_mcp_diagnostic_tool,
}
use evidra_bench.Timeline.Parse.{
  Timeline, ParseState, command_step, command_or_empty, count_phase, record_step, record_mcp,
  take_call, take_calls, initial_parse, parse_calls,
}

-- The phases that a step may have before the first mutation, and after it.
unfoldable pub phase_fits : Bool → Phase → Bool
phase_fits seen act = true
phase_fits seen verify = seen
phase_fits seen discover = not seen
phase_fits seen diagnose = not seen
phase_fits seen other = false

abbrev pub acts : TimelineStep → Bool
acts step = is_act step.phase

unfoldable pub in_order : Bool → List TimelineStep → Bool
in_order seen [] = true
in_order seen (step ∷ steps) = phase_fits seen step.phase && in_order (seen || acts step) steps

in_order-append :
    (seen : Bool) (steps : List TimelineStep) (step : TimelineStep)
    → in_order seen (steps ++ step ∷ [])
      ≡ (in_order seen steps && phase_fits (seen || any acts steps) step.phase)
unfolding in_order any
in_order-append seen [] step = ground arith
in_order-append seen (first ∷ steps) step =
    ground (arith, in_order-append (seen || acts first) steps step)

pub record IsCounted (t : Timeline) : Type 0 where
  pub mutations : t.mutation_count ≡ count_of acts t.steps
  pub phases : (p : Phase) → t.phase_count p ≡ count_of (λ step. same_phase step.phase p) t.steps
  pub ordered : in_order false t.steps ≡ true
  pub one_discovery : t.phase_count discover ≤ 1
  pub depth : t.diagnosis_depth ≤ t.phase_count diagnose

record IsParsing (s : ParseState) : Type 0 where
  counted : IsCounted s.timeline
  seen : s.seen_mutation ≡ any acts s.timeline.steps
  reads : s.timeline.phase_count discover ≤ s.read_only_count

-- The phase of the next step in a state.
record IsNext (s : ParseState) (p : Phase) : Type 0 where
  fits : phase_fits s.seen_mutation p ≡ true
  first_read : same_phase p discover ≡ true → s.read_only_count ≡ 0

read_phase-IsNext :
    (s : ParseState) (diagnostic : Bool)
    → (ltb 0 s.read_only_count ≡ true → diagnostic ≡ true)
    → IsNext s (read_phase s.seen_mutation diagnostic)
unfolding read_phase phase_fits same_phase
read_phase-IsNext s diagnostic h = record { fits = ground arith; first_read = ground arith }

act-IsNext : (s : ParseState) → IsNext s act
unfolding phase_fits same_phase
act-IsNext s = record { fits = refl; first_read = λ h. cc }

command_step-IsNext :
    (s : ParseState) (index : ℕ) (call : ToolCall) (cmd : String)
    → IsNext s (command_step index call cmd s.seen_mutation s.read_only_count).phase
unfolding command_step
command_step-IsNext s index call cmd =
    let c = parse_command cmd in
    elim (Bool-cases (is_mutation_cmd c.infra_tool c.subcommand cmd)) [
      | inl mutates ↦ simp mutates (act-IsNext s)
      | inr reads ↦ simp reads (read_phase-IsNext s _ (λ h. ground (arith, h)))
    ]

data NextOf (s : ParseState) : Option TimelineStep → Type 0 where
  skipped : NextOf s none
  stepped : {step : TimelineStep} → IsNext s step.phase → NextOf s (some step)

parse_mcp_tool_call-IsNext :
    (d : Decoder) (s : ParseState) (index : ℕ) (call : ToolCall)
    → NextOf s (parse_mcp_tool_call d index call s.seen_mutation s.read_only_count)
unfolding parse_mcp_tool_call mutation_step read_step
parse_mcp_tool_call-IsNext d s index call =
    let mutated = λ (operation : String) (ref : KubernetesResourceRef).
      stepped {step = mutation_step index call operation ref} (act-IsNext s) in
    branches (NextOf s) (call.tool == "resources_create_or_update") (mutated _ _) (
      branches (NextOf s) (call.tool == "resources_delete") (mutated _ _) (
        branches (NextOf s) (call.tool == "pods_delete") (mutated _ _) (
          branches (NextOf s) (call.tool == "resources_scale") (mutated _ _) (
            branches (NextOf s) (contains read_tools call.tool)
              (stepped {step = read_step index call s.seen_mutation s.read_only_count _} (
                read_phase-IsNext s (ltb 0 s.read_only_count || is_mcp_diagnostic_tool call.tool)
                  (λ h. ground (arith, h))))
              skipped))))

act_undiscovered : (p : Phase) → is_act p ≡ true → same_phase p discover ≡ false
unfolding is_act same_phase
act_undiscovered discover h = cc
act_undiscovered act h = refl
act_undiscovered diagnose h = refl
act_undiscovered decide h = refl
act_undiscovered verify h = refl
act_undiscovered explain h = refl

record_step-IsParsing :
    (is_command : Bool) (step : TimelineStep) (s : ParseState)
    → IsNext s step.phase
    → IsParsing s
    → IsParsing (record_step is_command step s)
unfolding record_step count_phase count_of any
record_step-IsParsing is_command step s next p = record {
  counted = record {
    mutations =
        ground (arith, p.counted.mutations, count_of-append acts s.timeline.steps (step ∷ []));
    phases = λ q. ground (
      arith,
      p.counted.phases q,
      count_of-append (λ step. same_phase step.phase q) s.timeline.steps (step ∷ []),
    );
    ordered =
        ground (
          arith,
          p.counted.ordered,
          p.seen,
          next.fits,
          in_order-append false s.timeline.steps step,
        );
    one_discovery = elim (Bool-cases (same_phase step.phase discover)) [
      | inl first ↦ simp first (omega (arith, next.first_read first, p.reads))
      | inr later ↦ simp later p.counted.one_discovery
    ];
    depth = ground (arith, p.counted.depth);
  };
  seen = ground (arith, p.seen, any-append acts s.timeline.steps (step ∷ []));
  reads = ground (arith, p.reads, act_undiscovered step.phase);
}

record_mcp-IsParsing :
    {s : ParseState} {step : Option TimelineStep}
    → NextOf s step
    → IsParsing s
    → IsParsing (record_mcp step s)
unfolding record_mcp
record_mcp-IsParsing skipped p = p
record_mcp-IsParsing (stepped next) p = record_step-IsParsing false _ _ next p

take_call-IsParsing :
    (d : Decoder) (index : ℕ) (call : ToolCall) (s : ParseState)
    → IsParsing s
    → IsParsing (take_call d index call s)
unfolding take_call
take_call-IsParsing d index call s p =
    branches IsParsing (call.tool == "run_command")
      (record_step-IsParsing true _ s
        (command_step-IsNext s index call (command_or_empty (d.command call.args))) p)
      (record_mcp-IsParsing (parse_mcp_tool_call-IsNext d s index call) p)

take_calls-IsParsing :
    (d : Decoder) (index : ℕ) (calls : List ToolCall) (s : ParseState)
    → IsParsing s
    → IsParsing (take_calls d index calls s)
unfolding take_calls
take_calls-IsParsing d index [] s p = p
take_calls-IsParsing d index (call ∷ rest) s p =
    take_calls-IsParsing d (index + 1) rest _ (take_call-IsParsing d index call s p)

initial_parse-IsParsing : IsParsing initial_parse
unfolding count_of any in_order
initial_parse-IsParsing = record {
  counted = record {
    mutations = refl;
    phases = λ p. refl;
    ordered = refl;
    one_discovery = omega arith;
    depth = omega arith;
  };
  seen = refl;
  reads = omega arith;
}

-- In a timeline the number of mutations, of the steps and of the steps of every phase are what its steps count;
-- before the first mutation every step is a discovery or a diagnosis, and after it a mutation or a
-- verification; at most one step is a discovery; and the depth of the diagnosis is at most the number of
-- the diagnoses.
pub parse_calls-IsCounted :
    (d : Decoder) (calls : List ToolCall)
    → IsCounted (parse_calls d calls)
      × ((parse_calls d calls).total_steps ≡ length (parse_calls d calls).steps)
unfolding parse_calls
parse_calls-IsCounted d calls =
    let c = (take_calls-IsParsing d 0 calls initial_parse initial_parse-IsParsing).counted in
    (
      record {
        mutations = c.mutations;
        phases = c.phases;
        ordered = c.ordered;
        one_discovery = c.one_discovery;
        depth = c.depth;
      },
      refl,
    )
