-- ===== src/Engine/State/Messages.antt =====
-- internal/engine/message.go, and the walks of engine.go over a history.
use agent_util.Common.{
  ℕ, zero, suc, Bool, true, false, ◌&&◌, ◌||◌, Option, none, some, List, [], ◌∷◌, Text, txt,
  text_eq, if◌then◌else◌, length, any_of, has_prefix, not,
}
use agent_util.Llm.Message.{Message, ToolCall, content_string, plain_message}
use agent_util.Engine.Prompt.{}

-- message.go
abbrev pub user_message : Text → Message
user_message content = plain_message (txt "user") content

abbrev pub system_message : Text → Message
system_message content = plain_message (txt "system") content

abbrev pub assistant_message : Text → Message
assistant_message content = plain_message (txt "assistant") content

abbrev pub marshalled_or : Text → Option Text → Text
marshalled_or arguments none = arguments
marshalled_or arguments (some text) = text

unfoldable pub tool_call_message : (Text → Option Text) → Text → Text → Text → Message
tool_call_message marshal_string call_id tool_name arguments = record {
  role = txt "assistant";
  content = none;
  tool_calls =
      record {
        id = call_id;
        type = txt "function";
        function = record {
          name = tool_name;
          arguments = marshalled_or arguments (marshal_string arguments);
        };
      }
      ∷ [];
  tool_call_id = [];
}

unfoldable pub tool_result_message : Text → Text → Message
tool_result_message call_id content = record {
  role = txt "tool";
  content = some content;
  tool_calls = [];
  tool_call_id = call_id;
}

unfoldable pub is_user : Message → Bool
is_user m = text_eq m.role (txt "user")

abbrev pub last_of : Bool → Option ℕ → Option ℕ
last_of here (some i) = some (suc i)
last_of true none = some 0
last_of false none = none

-- the index of the last user message, if there is one
unfoldable pub last_user : List Message → Option ℕ
last_user [] = none
last_user (m ∷ ms) = last_of (is_user m) (last_user ms)

abbrev pub index_or : ℕ → Option ℕ → ℕ
index_or n none = n
index_or n (some i) = i

unfoldable pub find_last_user_index : List Message → ℕ
find_last_user_index history = index_or (length history) (last_user history)

-- the loop of buildMessages, which puts `m` before the message of an index or at the end
unfoldable pub insert_message : ℕ → Message → List Message → List Message
insert_message n m [] = m ∷ []
insert_message zero m (x ∷ xs) = m ∷ x ∷ xs
insert_message (suc n) m (x ∷ xs) = x ∷ insert_message n m xs

-- the part of toolAlreadySucceeded that a loop reads, the newest message first
unfoldable pub success_ids : List Message → List Text
success_ids [] = []
success_ids (m ∷ ms) =
    let rest = success_ids ms in
    if is_user m
    then []
    else if text_eq m.role (txt "tool") && not (has_prefix (txt "Error:") (content_string m))
    then m.tool_call_id ∷ rest
    else rest

unfoldable pub called_with : Text → List Text → List ToolCall → Bool
called_with name ids calls =
    any_of
      (λ (tc : ToolCall).
        text_eq tc.function.name name && any_of (λ (id : Text). text_eq id tc.id) ids)
      calls

unfoldable pub any_success : Text → List Text → List Message → Bool
any_success name ids [] = false
any_success name ids (m ∷ ms) =
    let rest = any_success name ids ms in
    if is_user m
    then false
    else text_eq m.role (txt "assistant") && called_with name ids m.tool_calls || rest
