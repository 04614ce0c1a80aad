-- ===== src/Rpc/Configure/Rebuild.antt =====
-- internal/rpc/configure.go: rebuildEngine.
use agent_util.Common.{
  ◌||◌, Option, none, some, List, [], ◌∷◌, ◌++◌, Text, txt, text_eq, if◌then◌else◌, text_key,
}
use agent_util.Common.Floats.{Floats}
use agent_util.Llm.Message.{Message, ChatRequest, ChatResponse}
use agent_util.Context.Estimate.{Unicode}
use agent_util.Context.Manager.{messages}
use agent_util.Engine.Builtin.{Std}
use agent_util.Engine.Errors.{wrap, other}
use agent_util.Engine.Exec.{Result, ok, err}
use agent_util.Engine.New.{new_engine}
use agent_util.Engine.Options.{default_engine_config, with_tools}
use agent_util.Engine.Registry.{registered_tools}
use agent_util.Engine.State.{StreamEvent, Engine, State, add_message}
use agent_util.Protocol.Methods.{LlmConfig, AgentConfigureParams}
use agent_util.Rpc.Registry.{RemoteRegistry}
use agent_util.Rpc.Configure.{Wrapper, Draft, ◌>>=◌}
use agent_util.Rpc.Configure.Fields.{
  set_basics, set_permission, set_streaming, set_reminder, set_tool_scope, set_router, carry_over,
}
use agent_util.Rpc.Configure.Names.{set_compaction, set_guards, set_verify, set_loop, set_judge}

-- the driver of the model: its completer, its streamer, and the names that are applied
abbrev pub Driver : Type 0 → Type 0
Driver W =
    (ChatRequest → W → Result ChatResponse × W)
    × Option (ChatRequest → W → Result (List StreamEvent) × W)
    × List Text

module _ (fl : Floats) {W : Type 0} where
  module _ (u : Unicode) where
    -- the loop over the history of the previous engine
    unfoldable pub add_messages : List Message → State fl W → State fl W
    add_messages [] s = s
    add_messages (m ∷ ms) s = add_messages ms (add_message fl u m s)

    -- an error of New is a name that two tools have
    abbrev pub built :
        List Message
        → List Text
        → Option (Engine fl W × State fl W)
        → Result ((Engine fl W × State fl W) × List Text)
    built history applied none = err (wrap (txt "rebuild engine") (other (txt "duplicate tool")))
    built history applied (some (e, s)) = ok ((e, add_messages history s), applied)

  module _ (quote : Text → Text) where
    unfoldable pub set_llm : Wrapper fl.Float W → Engine fl W → Option LlmConfig → Result (Driver W)
    set_llm wrapper prev none = ok (prev.completer, prev.streamer, [])
    set_llm wrapper prev (some c) =
        if text_eq c.mode [] || text_eq c.mode (txt "http")
        then ok (prev.completer, prev.streamer, txt "llm" ∷ [])
        else if text_eq c.mode (txt "remote")
        then ok (wrapper.new_remote_completer c.timeout_seconds, none, txt "llm" ∷ [])
        else err (
            other
              (txt "llm.mode: unknown value " ++ (quote c.mode ++ txt " (expected http|remote)")))

    module _ (std : Std) (remote : RemoteRegistry W) where
      -- rebuildEngine up to the tools
      unfoldable pub draft :
          Wrapper fl.Float W → Engine fl W → AgentConfigureParams fl.Float → Result (Draft fl W)
      draft wrapper prev p =
          set_compaction fl quote prev p.compaction
            (set_basics fl p (record { config = default_engine_config fl; applied = [] }))
          >>= λ d1.
              set_guards fl quote std remote p.guards (set_permission fl p.permission d1) >>= λ d2.
              set_verify fl quote std remote p.verify d2 >>= λ d3.
              set_loop fl quote p.loop (
                set_streaming fl wrapper p.streaming
                  (set_reminder fl p.reminder (set_tool_scope fl p.tool_scope d3)))
              >>= λ d4.
                  set_judge fl quote std remote p.judge (set_router fl wrapper p.router d4)
                  >>= λ d5. ok (carry_over fl prev p d5)

      module _ (u : Unicode) (marshal_indent : Text → Option Text) where
        unfoldable pub rebuild_engine :
            Wrapper fl.Float W
            → Engine fl W
            → State fl W
            → AgentConfigureParams fl.Float
            → Result ((Engine fl W × State fl W) × List Text)
        rebuild_engine wrapper prev s p = draft wrapper prev p >>= λ d.
            set_llm wrapper prev p.llm >>= λ (completer, streamer, names).
            built u (messages fl s.manager) (d.applied ++ names) (
              new_engine fl u marshal_indent completer streamer
                (with_tools fl (registered_tools prev.registry) d.config) s.world)
