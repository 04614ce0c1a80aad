-- ===== src/Rpc/Handlers/Laws.antt =====
-- internal/rpc/handlers.go: what calls of the handlers keep, and what agent.configure then does.
use agent_util.Common.{ℕ, suc, ◌≡◌, sym, ap₂, ◌∙◌, Option, none, some, List, [], ◌∷◌, Text, ◌+◌}
use agent_util.Common.Floats.{Floats}
use agent_util.Context.Estimate.{Unicode}
use agent_util.Context.Manager.{token_count}
use agent_util.Engine.Calls.{register_tool}
use agent_util.Engine.Calls.Laws.{Registered, Counted, register_tool-Counted}
use agent_util.Engine.Exec.{Result, ok, err}
use agent_util.Engine.New.{EngineConfig, new_engine}
use agent_util.Engine.New.Counts.{new_engine-Counted}
use agent_util.Engine.State.{Engine, State}
use agent_util.Protocol.Methods.{ToolDefinition}
use agent_util.Protocol.Registration.{ToolRegisterParams}
use agent_util.Rpc.Handlers.{Handlers}
use agent_util.Rpc.Handlers.Agent.{}
use agent_util.Rpc.Handlers.Registrations.{
  handle_tool_register, register_tools, after_register, definition_from,
}
use agent_util.Rpc.Handlers.Dispatch.{Services}
use agent_util.Rpc.Remote.{new_remote_tool}

module _ (fl : Floats) {W : Type 0} (u : Unicode) (v : Services fl W) where
  -- the handlers after the loop of tool.register
  abbrev after_tools : List ToolDefinition → ℕ → Handlers fl W → Handlers fl W
  after_tools defs n h = (register_tools fl u v.codec v.server defs n h).1

  module _ (P : Handlers fl W → Type 0)
      (k : (def : ToolDefinition) (h : Handlers fl W)
        → P h
        → Registered fl u
            (λ es. P (record h { eng = es.0; state = es.1 }))
            (register_tool fl u
              (new_remote_tool v.codec (definition_from def) v.server)
              (h.eng, h.state))) where
    after_register-keeps :
        (name : Text) (defs : List ToolDefinition) (n : ℕ) (r : Option (Engine fl W × State fl W))
        (h : Handlers fl W)
        → ((h' : Handlers fl W) → P h' → P (after_tools defs n h'))
        → Registered fl u (λ es. P (record h { eng = es.0; state = es.1 })) r
        → P h
        → P
            (after_register fl u v.codec v.server name
              (register_tools fl u v.codec v.server defs n)
              r
              h).1
    after_register-keeps name defs n none h f r p = p
    after_register-keeps name defs n (some (e, s)) h f r p = f (record h { eng = e; state = s }) r

    register_tools-keeps :
        (defs : List ToolDefinition) (n : ℕ) (h : Handlers fl W) → P h → P (after_tools defs n h)
    unfolding register_tools
    register_tools-keeps [] n h p = p
    register_tools-keeps (def ∷ defs) n h p =
        after_register-keeps def.name defs (suc n) _ h (register_tools-keeps defs (suc n))
          (k def h p) p

    pub tool_register-keeps :
        (r : Result ToolRegisterParams) (h : Handlers fl W)
        → P h
        → P (handle_tool_register fl u v.codec v.server r h).1
    unfolding handle_tool_register
    tool_register-keeps (err e) h p = p
    tool_register-keeps (ok r) h p = register_tools-keeps r.tools 0 h p

  -- Where the handlers hold an engine that New built, tool.register leaves the token count of the
  -- context, reserved tokens included, as New computed it, whatever tools it registers.
  pub tool_register-token_count :
      (cfg : EngineConfig fl W) (r : Result ToolRegisterParams) (h : Handlers fl W)
      → new_engine fl u v.marshal_indent h.eng.completer h.eng.streamer cfg h.state.world
        ≡ some (h.eng, h.state)
      → token_count fl (handle_tool_register fl u v.codec v.server r h).1.state.manager
        ≡ token_count fl h.state.manager
  unfolding token_count
  tool_register-token_count cfg r h e =
      let (d, c, reserved, count) =
        new_engine-Counted fl u v.marshal_indent h.eng.completer h.eng.streamer cfg h.state.world
          h.eng h.state e in
      let n = h.eng.prompt_builder.cached_tokens in
      let (d', c', reserved', count') =
        tool_register-keeps (λ h'. Counted fl u n 0 (h'.eng, h'.state))
          (λ def h' p. register_tool-Counted fl u n 0 _ h'.eng h'.state p) r h
          (d, c, reserved, count) in
      ap₂ (λ (a b : ℕ). a + b) (reserved' ∙ sym reserved) (count' ∙ sym count)
