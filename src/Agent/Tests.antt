-- ===== src/Agent/Tests.antt =====
-- The theorems on the agent loop at a run with one tool call.
use evidra_bench.Base.{
  String, suc, pos, negsuc, true, List, [], ◌∷◌, none, ◌≡◌, refl, eqb, ok, length, count_of,
  if◌then◌else◌,
}
use evidra_bench.Agent.Messages.{ToolCall, Message, ChatResponse, is_done}
use evidra_bench.Agent.Context.{build_context_window}
use evidra_bench.Agent.Loop.{
  Peers, LoopConfig, LoopResult, assistant_message, tool_message, tool_results, add_usage,
  reset_window, heard, served, on_response, take_turn, loop_result, follow, run_turns, turn_limit,
  initial_loop, run_loop,
}
use evidra_bench.Agent.Recent.{IsRecent, build_context_window-IsRecent}
use evidra_bench.Agent.Turns.{IsQuiet, IsBounded, run_loop-IsBounded}

abbrev message : String → String → Message
message role content = record {
  role = role;
  content = content;
  reasoning_content = "";
  tool_calls = [];
  tool_call_id = "";
}

abbrev call : ToolCall
call = record { id = "t1"; name = "kubectl"; arguments = "get pods" }

abbrev response : List ToolCall → ChatResponse
response calls = record {
  content = "";
  reasoning_content = "";
  tool_calls = calls;
  usage = record { prompt_tokens = 10; completion_tokens = 2 };
}

-- One tool call in the first turn, and none in the second.
abbrev peers : Peers
peers = record {
  chat = λ turn ms. ok (response (if eqb turn 0 then call ∷ [] else []));
  execute = λ turn ms tc. "web-1";
  injected = λ turn. [];
  memory_reset = λ turn. none;
}

abbrev config : LoopConfig
config = record {
  max_turns = pos 0;
  memory_window = negsuc 0;
  system_prompt = "s";
  task_prompt = "t";
}

abbrev result : LoopResult
result = record {
  turns = 5;
  messages =
      message "system" "s"
      ∷ message "user" "t"
      ∷ record (message "assistant" "") { tool_calls = call ∷ [] }
      ∷ record (message "tool" "web-1") { tool_call_id = "t1" }
      ∷ message "assistant" ""
      ∷ [];
  total_usage = record { prompt_tokens = 20; completion_tokens = 4 };
  final_output = "";
  completed = true;
  memory_window = negsuc 0;
}

runs : run_loop peers config ≡ ok result
unfolding run_loop turn_limit initial_loop run_turns follow take_turn on_response is_done heard
    served assistant_message tool_results tool_message add_usage reset_window loop_result length
    build_context_window
runs = refl

quiet : IsQuiet peers
unfolding IsQuiet count_of
quiet = λ turn. refl

run_loop-IsBounded_example : IsBounded (turn_limit config.max_turns) result
run_loop-IsBounded_example = run_loop-IsBounded peers config result quiet runs

build_context_window-IsRecent_example :
    (kept : List Message) × (build_context_window
        (message "system" "s"
          ∷ message "user" "t"
          ∷ (message "assistant" "a" ∷ message "tool" "r" ∷ message "assistant" "b" ∷ []))
        (pos (suc 0))
      ≡ message "system" "s" ∷ message "user" "t" ∷ kept)
    × IsRecent
        (suc 0)
        (message "assistant" "a" ∷ message "tool" "r" ∷ message "assistant" "b" ∷ [])
        kept
build_context_window-IsRecent_example =
    build_context_window-IsRecent 0 (message "system" "s") (message "user" "t")
      (message "assistant" "a" ∷ message "tool" "r" ∷ message "assistant" "b" ∷ [])
