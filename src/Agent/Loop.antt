-- ===== src/Agent/Loop.antt =====
-- The loop over the turns of an agent: `RunLoop` of pkg/agent/loop.go. The provider, the executor and the
-- two channels are functions of the turn.
use evidra_bench.Base.{
  String, ℕ, zero, suc, ◌+◌, ℤ, pos, negsuc, Bool, true, false, List, [], ◌∷◌, ◌++◌, Option, none,
  some, Result, ok, err, concat, decimal, length, if◌then◌else◌,
}
use evidra_bench.Agent.Messages.{ToolCall, Message, Usage, ChatResponse, is_done}
use evidra_bench.Agent.Context.{build_context_window}

pub record Peers : Type 0 where
  pub chat : ℕ → List Message → Result String ChatResponse
  pub execute : ℕ → List Message → ToolCall → String
  pub injected : ℕ → List Message
  pub memory_reset : ℕ → Option ℤ

pub record LoopConfig : Type 0 where
  pub max_turns : ℤ
  pub memory_window : ℤ
  pub system_prompt : String
  pub task_prompt : String

-- The variables of the loop.
pub record LoopState : Type 0 where
  pub messages : List Message
  pub total_usage : Usage
  pub memory_window : ℤ

pub record LoopResult : Type 0 where
  pub turns : ℕ
  pub messages : List Message
  pub total_usage : Usage
  pub final_output : String
  pub completed : Bool
  pub memory_window : ℤ

-- A turn ends with the error of the provider, with the last answer, or with another turn to come.
pub data Progress : Type 0 where
  chat_failed : String → Progress
  answered : LoopState → String → Progress
  ongoing : LoopState → Progress

abbrev text_message : String → String → Message
text_message role content = record {
  role = role;
  content = content;
  reasoning_content = "";
  tool_calls = [];
  tool_call_id = "";
}

unfoldable pub assistant_message : ChatResponse → Message
assistant_message r = record {
  role = "assistant";
  content = r.content;
  reasoning_content = r.reasoning_content;
  tool_calls = r.tool_calls;
  tool_call_id = "";
}

unfoldable pub tool_message : String → ToolCall → Message
tool_message result tc = record {
  role = "tool";
  content = result;
  reasoning_content = "";
  tool_calls = [];
  tool_call_id = tc.id;
}

-- The messages of the tool calls, each executed after the messages before it.
unfoldable pub tool_results : Peers → ℕ → List Message → List ToolCall → List Message
tool_results p turn history [] = []
tool_results p turn history (tc ∷ rest) =
    let m = tool_message (p.execute turn history tc) tc in
    m ∷ tool_results p turn (history ++ (m ∷ [])) rest

unfoldable pub add_usage : Usage → Usage → Usage
add_usage total u = record {
  prompt_tokens = total.prompt_tokens + u.prompt_tokens;
  completion_tokens = total.completion_tokens + u.completion_tokens;
}

unfoldable pub reset_window : ℤ → Option ℤ → ℤ
reset_window window none = window
reset_window window (some w) = w

-- The state with the assistant's message.
unfoldable pub heard : ChatResponse → LoopState → LoopState
heard r s = record s {
  messages = s.messages ++ (assistant_message r ∷ []);
  total_usage = add_usage s.total_usage r.usage;
}

-- Then the tool calls, the injected messages and the change of the window.
unfoldable pub served : Peers → ℕ → ChatResponse → LoopState → LoopState
served p turn r s = record s {
  messages = s.messages ++ (tool_results p turn s.messages r.tool_calls ++ p.injected turn);
  memory_window = reset_window s.memory_window (p.memory_reset turn);
}

unfoldable pub on_response : Peers → ℕ → LoopState → Result String ChatResponse → Progress
on_response p turn s (err e) =
    chat_failed (concat ("agent.RunLoop: turn " ∷ decimal (turn + 1) ∷ ": " ∷ e ∷ []))
on_response p turn s (ok r) =
    if is_done r then answered (heard r s) r.content else ongoing (served p turn r (heard r s))

unfoldable pub take_turn : Peers → ℕ → LoopState → Progress
take_turn p turn s =
    on_response p turn s (p.chat turn (build_context_window s.messages s.memory_window))

unfoldable pub loop_result : LoopState → String → Bool → LoopResult
loop_result s final_output completed = record {
  turns = length s.messages;
  messages = s.messages;
  total_usage = s.total_usage;
  final_output = final_output;
  completed = completed;
  memory_window = s.memory_window;
}

unfoldable pub follow : (LoopState → Result String LoopResult) → Progress → Result String LoopResult
follow next (chat_failed e) = err e
follow next (answered s output) = ok (loop_result s output true)
follow next (ongoing s) = next s

-- The turns that are left.
unfoldable pub run_turns : ℕ → Peers → ℕ → LoopState → Result String LoopResult
run_turns zero p turn s = ok (loop_result s "" false)
run_turns (suc left) p turn s = follow (run_turns left p (turn + 1)) (take_turn p turn s)

unfoldable pub turn_limit : ℤ → ℕ
turn_limit (pos zero) = 25
turn_limit (pos (suc n)) = suc n
turn_limit (negsuc n) = 25

unfoldable pub initial_loop : LoopConfig → LoopState
initial_loop cfg = record {
  messages = text_message "system" cfg.system_prompt ∷ text_message "user" cfg.task_prompt ∷ [];
  total_usage = record { prompt_tokens = 0; completion_tokens = 0 };
  memory_window = cfg.memory_window;
}

unfoldable pub run_loop : Peers → LoopConfig → Result String LoopResult
run_loop p cfg = run_turns (turn_limit cfg.max_turns) p 0 (initial_loop cfg)
