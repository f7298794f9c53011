-- ===== src/Agent/Messages.antt =====
-- The messages of a conversation: pkg/agent/provider.go.
use evidra_bench.Base.{String, ℕ, Bool, List, ◌==◌, is_nil}

pub record ToolCall : Type 0 where
  pub id : String
  pub name : String
  pub arguments : String

pub record Message : Type 0 where
  pub role : String
  pub content : String
  pub reasoning_content : String
  pub tool_calls : List ToolCall
  pub tool_call_id : String

-- The two counts of tokens that the loop sums.
pub record Usage : Type 0 where
  pub prompt_tokens : ℕ
  pub completion_tokens : ℕ

pub record ChatResponse : Type 0 where
  pub content : String
  pub reasoning_content : String
  pub tool_calls : List ToolCall
  pub usage : Usage

unfoldable pub is_done : ChatResponse → Bool
is_done r = is_nil r.tool_calls

unfoldable pub is_assistant : Message → Bool
is_assistant m = m.role == "assistant"
