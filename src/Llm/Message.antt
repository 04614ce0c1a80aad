-- ===== src/Llm/Message.antt =====
-- The types of internal/llm/types.go. Of a chat response, the fields that the program reads.
use agent_util.Common.{ℕ, ◌+◌, Option, none, some, List, [], Text}

pub record FunctionCall : Type 0 where
  pub name : Text
  pub arguments : Text

pub record ToolCall : Type 0 where
  pub id : Text
  pub type : Text
  pub function : FunctionCall

pub record Message : Type 0 where
  pub role : Text
  pub content : Option Text
  pub tool_calls : List ToolCall
  pub tool_call_id : Text

pub record Usage : Type 0 where
  pub prompt_tokens : ℕ
  pub completion_tokens : ℕ
  pub total_tokens : ℕ

pub record Choice : Type 0 where
  pub message : Message
  pub finish_reason : Text

pub record ChatResponse : Type 0 where
  pub choices : List Choice
  pub usage : Usage

pub record ChatRequest : Type 0 where
  pub messages : List Message
  pub json_mode : Option Text

abbrev content_or_empty : Option Text → Text
content_or_empty none = []
content_or_empty (some text) = text

-- Message.ContentString
unfoldable pub content_string : Message → Text
content_string m = content_or_empty m.content

-- the zero value of Usage
abbrev pub no_usage : Usage
no_usage = record { prompt_tokens = 0; completion_tokens = 0; total_tokens = 0 }

-- the three `+=` with which the engine adds one usage to another
unfoldable pub add_usage : Usage → Usage → Usage
add_usage a b = record {
  prompt_tokens = a.prompt_tokens + b.prompt_tokens;
  completion_tokens = a.completion_tokens + b.completion_tokens;
  total_tokens = a.total_tokens + b.total_tokens;
}

-- llm.Message{Role: role, Content: llm.StringPtr(content)}
abbrev pub plain_message : Text → Text → Message
plain_message role content = record {
  role = role;
  content = some content;
  tool_calls = [];
  tool_call_id = [];
}
