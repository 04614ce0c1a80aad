-- ===== src/Rpc/Handlers/Dispatch.antt =====
-- internal/rpc/handlers.go, RegisterAll: the methods with their handlers, and calls that follow one
-- another. A call of agent.run has the number of its context.
use agent_util.Common.{ℕ, Option, List, [], ◌∷◌, Text, Map}
use agent_util.Common.Floats.{Floats}
use agent_util.Context.Estimate.{Unicode}
use agent_util.Engine.Builtin.{Std}
use agent_util.Engine.Delegate.{Delegation}
use agent_util.Engine.Exec.{Result}
use agent_util.Engine.State.{Outside}
use agent_util.Protocol.Methods.{AgentRunParams, AgentConfigureParams, SessionInjectParams}
use agent_util.Protocol.Registration.{
  ToolRegisterParams, GuardRegisterParams, VerifierRegisterParams, JudgeRegisterParams,
}
use agent_util.Rpc.Configure.{Wrapper}
use agent_util.Rpc.Handlers.{Handlers, handle_session_inject, handle_context_summarize}
use agent_util.Rpc.Handlers.Agent.{handle_agent_run, handle_agent_configure}
use agent_util.Rpc.Handlers.Registrations.{
  handle_tool_register, handle_guard_register, handle_verifier_register, handle_judge_register,
}
use agent_util.Rpc.Remote.{Sender, Codec}

-- the calls that may change the handlers
pub data Call (Float : Type 0) : Type 0 where
  agent_run : ℕ → Result AgentRunParams → Call Float
  agent_configure : Result (AgentConfigureParams Float) → Call Float
  tool_register : Result ToolRegisterParams → Call Float
  guard_register : Result GuardRegisterParams → Call Float
  verifier_register : Result VerifierRegisterParams → Call Float
  judge_register : Result JudgeRegisterParams → Call Float
  session_inject : Result SessionInjectParams → Call Float
  context_summarize : Call Float

-- what the handlers use of the server and of the program's surroundings
pub record Services (fl : Floats) (W : Type 0) : Type 0 where
  pub codec : Codec
  pub server : Sender W
  pub out : Outside W
  pub delegation : Delegation W
  pub marshal_map : Map Text Text → Option Text
  pub quote : Text → Text
  pub std : Std
  pub marshal_indent : Text → Option Text
  pub wrapper : Wrapper fl.Float W

module _ (fl : Floats) {W : Type 0} (u : Unicode) (v : Services fl W) where
  unfoldable pub handle_call : Call fl.Float → Handlers fl W → Handlers fl W
  handle_call (agent_run n p) h =
      (handle_agent_run fl u v.out v.delegation v.marshal_map v.wrapper.notify n p h).1
  handle_call (agent_configure p) h =
      (handle_agent_configure fl u v.quote v.std v.marshal_indent v.wrapper p h).1
  handle_call (tool_register p) h = (handle_tool_register fl u v.codec v.server p h).1
  handle_call (guard_register p) h = (handle_guard_register fl u v.codec v.server p h).1
  handle_call (verifier_register p) h = (handle_verifier_register fl u v.codec v.server p h).1
  handle_call (judge_register p) h = (handle_judge_register fl u v.codec v.server p h).1
  handle_call (session_inject p) h = (handle_session_inject fl u p h).1
  handle_call context_summarize h = (handle_context_summarize fl h).1

  unfoldable pub handle_calls : List (Call fl.Float) → Handlers fl W → Handlers fl W
  handle_calls [] h = h
  handle_calls (c ∷ cs) h = handle_calls cs (handle_call c h)
