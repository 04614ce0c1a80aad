-- ===== src/Engine/Step.antt =====
-- A step of internal/engine/engine.go and router.go: the compaction, the router, the tools and
-- the chat. The virtual tools of delegate.go and coordinator.go are parameters of toolStep.
mod Parts
mod Chat
mod Router
mod Calls
pub mod History
pub mod Tools
pub mod Access
unfoldable pub use Parts.*
unfoldable pub use Chat.*
unfoldable pub use Router.*
unfoldable pub use Calls.*
use agent_util.Common.{
  ℕ, zero, suc, ◌+◌, ◌-◌, Bool, true, false, ◌&&◌, ◌||◌, Option, none, some, List, [], ◌∷◌, ◌++◌,
  Text, txt, text_eq, ltb, ◌==◌, if◌then◌else◌, length, Map, lookup, insert, text_key,
}
use agent_util.Common.Floats.{Floats}
use agent_util.Llm.Message.{
  Message, Usage, Choice, ChatRequest, ChatResponse, content_string, no_usage, add_usage,
}
use agent_util.Llm.FixJson.{fix_json}
use agent_util.Context.Estimate.{Unicode}
use agent_util.Context.Compaction.{CompactionConfig}
use agent_util.Context.Manager.{
  Manager, CompactResult, done, failed, usage_ratio, token_count, compact,
}
use agent_util.Engine.Errors.{
  Error, empty_response, tripwire, router_parse, wrap, other, error_text,
}
use agent_util.Engine.Exec.{
  Result, ok, err, Exec, pure, raise, from_result, gets, modify_state, bind_result, ◌>>=◌, ◌>>◌,
  map_error, wrapping,
}
use agent_util.Engine.Guard.{
  GuardDecision, allow, deny, GuardResult, GuardRegistry, run_input, run_tool_call, run_output,
}
use agent_util.Engine.Permission.{
  PermissionDecision, perm_denied, perm_allowed, perm_ask, AuditEntry, PermissionChecker,
  check_permission,
}
use agent_util.Engine.Verify.{Verifier, VerifyResult, run_all}
use agent_util.Engine.Registry.{
  Tool, Executed, executed, broken, ToolResult, zero_if_missing, get, len,
}
use agent_util.Engine.State.{
  ResultKind, continue, terminal, LoopResult, RouterResponse, StreamEvent, Outside, Engine, State,
  user_message, assistant_message, tool_call_message, tool_result_message, add_message,
  build_messages, build_router_messages, tool_already_succeeded, available_tool_names,
  emit_context_status,
}

module _ (fl : Floats) (u : Unicode) {W : Type 0} (out : Outside W) (e : Engine fl W) where
  module _
      (delegate_step coordinate_step : RouterResponse → Usage → Exec (State fl W) LoopResult) where
    -- what toolStep does with the choice of the router
    unfoldable pub routed : ℕ → RouterResponse → Usage → Exec (State fl W) LoopResult
    routed turn rr usage s =
        if text_eq rr.tool (txt "none")
        then chat_step_with_router_usage fl u out e turn usage s
        else if text_eq rr.tool (txt "delegate_task") && e.delegate_enabled
        then delegate_step rr usage s
        else if text_eq rr.tool (txt "coordinate_tasks") && e.coordinator_enabled
        then coordinate_step rr usage s
        else if tool_already_succeeded fl u e rr.tool s
        then chat_step_with_router_usage fl u out e turn usage s
        else with_tool fl u out e (get rr.tool e.registry) rr usage s

    unfoldable pub tool_step : ℕ → Exec (State fl W) LoopResult
    tool_step turn = wrapping (wrap (txt "tool step")) (router_step fl u out e) >>= λ (rr, usage).
        routed turn rr usage

    abbrev after_compact : ℕ → CompactResult × Manager fl.Float × W → Exec (State fl W) (Unit {0})
    after_compact before (failed er, m, w) s = (err er, record s { manager = m; world = w })
    after_compact before (done, m, w) s = (
      ok tt,
      emit_context_status fl u e (txt "compacted") [] (before - token_count fl m)
          (record s { manager = m; world = w }),
    )

    abbrev compact_if : Option (CompactionConfig W fl.Float) → Exec (State fl W) (Unit {0})
    compact_if none s = (ok tt, s)
    compact_if (some cfg) s =
        if fl.less (usage_ratio fl s.manager) s.manager.threshold
        then (ok tt, s)
        else after_compact (token_count fl s.manager) (compact fl u cfg s.manager s.world) s

    unfoldable pub maybe_compact : Exec (State fl W) (Unit {0})
    maybe_compact = compact_if e.compaction

    -- stepWithTurn
    unfoldable pub step_with_turn : ℕ → Exec (State fl W) LoopResult
    step_with_turn turn =
        wrapping (wrap (txt "compaction")) maybe_compact
        >> (if len e.registry == 0 then chat_step fl u out e turn else tool_step turn)
