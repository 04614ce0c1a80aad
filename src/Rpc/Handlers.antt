-- ===== src/Rpc/Handlers.antt =====
-- internal/rpc/handlers.go: the handlers of the methods, each as it runs alone; Handlers.Runs has
-- the orders in which concurrent ones take the locks. The MCP clients are left out. The parameters
-- of a handler are those that json.Unmarshal gives, or its error.
pub mod Agent
pub mod Registrations
pub mod Dispatch
pub mod Runs
pub mod Sessions
pub mod Laws
pub mod Ready
use agent_util.Common.{
  ℕ, zero, suc, ◌+◌, ◌==◌, ◌⊎◌, inl, inr, Bool, true, false, Option, none, some, List, [], ◌∷◌,
  ◌++◌, map, Text, txt, text_eq, length, Map, insert, ℤ, if◌then◌else◌,
}
use agent_util.Common.Floats.{Floats}
use agent_util.Llm.Message.{Message, ToolCall, Usage, content_string}
use agent_util.Context.Estimate.{Unicode}
use agent_util.Engine.Calls
use agent_util.Engine.Calls.{register_tool, history, summarize}
use agent_util.Engine.Errors.{Error, error_text, tripwire, router_parse, wrap, wrap_two}
use agent_util.Engine.Exec.{Result, ok, err, Exec}
use agent_util.Engine.Delegate.{Delegation}
use agent_util.Engine.History.{full_step}
use agent_util.Engine.Registry.{Definition}
use agent_util.Engine.Run.{run}
use agent_util.Engine.State.{Engine, State, RunResult, Outside}
use agent_util.Protocol.Message.{
  version, library_version, RpcError, err_code_invalid_params, err_code_internal,
  err_code_agent_busy, err_code_guard_denied, err_code_tripwire,
}
use agent_util.Protocol.Methods.{
  ServerInfoResult, AgentRunParams, AgentRunResult, AgentConfigureParams, ToolDefinition,
  GuardDefinition, SessionMessage, SessionToolCall, SessionInjectParams, SessionInjectResult,
}
use agent_util.Protocol.Registration.{
  AgentAbortResult, AgentConfigureResult, ToolRegisterParams, ToolRegisterResult,
  GuardRegisterParams, GuardRegisterResult, VerifierDefinition, VerifierRegisterParams,
  VerifierRegisterResult, JudgeRegisterParams, JudgeRegisterResult, SessionHistoryResult,
  ContextSummarizeResult,
}
use agent_util.Rpc.Registry.{
  RemoteRegistry, add_input_guard, add_tool_call_guard, add_output_guard, add_verifier,
  add_goal_judge,
}
use agent_util.Engine.Builtin.{Std}
use agent_util.Rpc.Remote.{
  Sender, Codec, new_remote_input_guard, new_remote_tool_call_guard, new_remote_output_guard,
  new_remote_verifier, new_remote_tool, should_terminate,
}

-- what a handler returns
pub data Answer (A : Type 0) : Type 0 where
  answered : A → Answer A
  refused : RpcError → Answer A

-- an RPCError without data
abbrev pub rpc_error : ℤ → Text → RpcError
rpc_error code message = record { code = code; message = message; details = none }

module _ {A : Type 0} where
  -- unmarshalParams
  unfoldable pub unmarshal_params : Result A → Answer A
  unmarshal_params (ok p) = answered p
  unmarshal_params (err e) =
      refused (rpc_error err_code_invalid_params (txt "invalid params: " ++ error_text e))

pub record Handlers (fl : Floats) (W : Type 0) : Type 0 where
  pub eng : Engine fl W
  pub state : State fl W
  -- the number of the run whose context the cancel function belongs to
  pub run_cancel : Option ℕ
  pub remote : RemoteRegistry W

-- handleServerInfo
abbrev methods : List Text
methods =
    txt "server.info"
    ∷ txt "agent.run"
    ∷ txt "agent.abort"
    ∷ txt "agent.configure"
    ∷ txt "tool.register"
    ∷ txt "tool.execute"
    ∷ txt "mcp.register"
    ∷ txt "guard.register"
    ∷ txt "guard.execute"
    ∷ txt "verifier.register"
    ∷ txt "verifier.execute"
    ∷ txt "judge.register"
    ∷ txt "judge.evaluate"
    ∷ txt "llm.execute"
    ∷ txt "session.history"
    ∷ txt "session.inject"
    ∷ txt "context.summarize"
    ∷ txt "stream.delta"
    ∷ txt "stream.end"
    ∷ txt "context.status"
    ∷ []

abbrev features : Map Text Bool
features =
    (txt "remote_tools", true)
    ∷ (txt "remote_guards", true)
    ∷ (txt "remote_verifiers", true)
    ∷ (txt "remote_judge", true)
    ∷ (txt "streaming", true)
    ∷ (txt "context_status", true)
    ∷ (txt "session_injection", true)
    ∷ (txt "llm_execute", true)
    ∷ []

unfoldable pub handle_server_info : ServerInfoResult
handle_server_info = record {
  library_version = library_version;
  protocol_version = version;
  methods = methods;
  features = features;
}

-- the messages of a session and those of the model
unfoldable pub session_call : ToolCall → SessionToolCall
session_call c = record { id = c.id; name = c.function.name; arguments = c.function.arguments }

unfoldable pub session_message : Message → SessionMessage
session_message m = record {
  role = m.role;
  content = content_string m;
  tool_calls = map session_call m.tool_calls;
  tool_call_id = m.tool_call_id;
}

unfoldable pub tool_call_of : SessionToolCall → ToolCall
tool_call_of c = record {
  id = c.id;
  type = txt "function";
  function = record { name = c.name; arguments = c.arguments };
}

unfoldable pub message_of : SessionMessage → Message
message_of m = record {
  role = m.role;
  content = some m.content;
  tool_calls = map tool_call_of m.tool_calls;
  tool_call_id = m.tool_call_id;
}

abbrev position_of : Text → Text
position_of [] = txt "append"
position_of (b ∷ bs) = b ∷ bs

abbrev summary_answer : Result Text → Answer ContextSummarizeResult
summary_answer (err e) =
    refused (rpc_error err_code_internal (txt "context.summarize: " ++ error_text e))
summary_answer (ok summary) = answered (record { summary = summary; length = length summary })

module _ (fl : Floats) {W : Type 0} where
  -- the start of handleAgentRun under the lock, and its deferred function
  unfoldable pub begin_run : ℕ → Handlers fl W → Option RpcError × Handlers fl W
  begin_run n h = elim h.run_cancel [
    | none ↦ (none, record h { run_cancel = some n })
    | some m ↦ (some (rpc_error err_code_agent_busy (txt "agent.run is already in progress")), h)
  ]

  unfoldable pub end_run : Handlers fl W → Handlers fl W
  end_run h = record h { run_cancel = none }

  -- the start of handleAgentConfigure under the lock
  unfoldable pub refuse_if_busy : Handlers fl W → Option RpcError
  refuse_if_busy h = elim h.run_cancel [
    | none ↦ none
    | some m ↦ some (
        rpc_error err_code_agent_busy
          (txt "agent.configure is not allowed while agent.run is in progress"))
  ]

  -- handleAgentAbort, with the run that it cancels
  unfoldable pub handle_agent_abort : Handlers fl W → AgentAbortResult × Option ℕ
  handle_agent_abort h = elim h.run_cancel [
    | none ↦ (record { aborted = false }, none)
    | some n ↦ (record { aborted = true }, some n)
  ]

  unfoldable pub handle_session_history : Handlers fl W → SessionHistoryResult
  handle_session_history h =
      let msgs = map session_message (history fl h.state) in
      record { messages = msgs; count = length msgs }

  unfoldable pub handle_context_summarize :
      Handlers fl W → Answer ContextSummarizeResult × Handlers fl W
  handle_context_summarize h =
      let (r, s) = summarize fl h.eng h.state in (summary_answer r, record h { state = s })

  module _ (u : Unicode) where
    unfoldable pub handle_session_inject :
        Result SessionInjectParams → Handlers fl W → Answer SessionInjectResult × Handlers fl W
    handle_session_inject (err e) h = (unmarshal_params (err e), h)
    handle_session_inject (ok p) h =
        let msgs = map message_of p.messages in
        let s = Calls.inject fl u msgs (position_of p.position) h.state in
        (
          answered (record { injected = length msgs; total = length (history fl s) }),
          record h { state = s },
        )
