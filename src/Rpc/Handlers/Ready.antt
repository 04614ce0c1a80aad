-- ===== src/Rpc/Handlers/Ready.antt =====
-- internal/rpc/handlers.go: agent.configure after any calls of the handlers.
use agent_util.Common.{
  ℕ, ◌≡◌, refl, subst, sym, ◌∙◌, Bool-cases, inl, inr, Option, none, some, List, [], ◌∷◌, ◌++◌,
  Text, text_eq,
}
use agent_util.Common.Floats.{Floats}
use agent_util.Context.Estimate.{Unicode}
use agent_util.Engine.Calls.{register_tool, history}
use agent_util.Engine.Calls.Laws.{IsFilled, Registered, Registered-map, register_tool-IsFilled}
use agent_util.Engine.Exec.{Result, ok, err}
use agent_util.Engine.State.{Engine, State}
use agent_util.Protocol.Methods.{ToolDefinition, AgentRunParams, AgentConfigureParams}
use agent_util.Protocol.Message.{RpcError}
use agent_util.Protocol.Registration.{JudgeRegisterParams, AgentConfigureResult}
use agent_util.Rpc.Configure.{Draft}
use agent_util.Rpc.Configure.Rebuild.{Driver, draft, set_llm, rebuild_engine}
use agent_util.Rpc.Configure.Laws.{rebuild_engine-IsRebuilt}
use agent_util.Rpc.Configure.Tools.{Holds}
use agent_util.Rpc.Handlers.{
  Answer, answered, Handlers, begin_run, end_run, refuse_if_busy, handle_session_inject,
  handle_context_summarize,
}
use agent_util.Rpc.Handlers.Agent.{
  handle_agent_run, run_admitted, handle_agent_configure, apply_configure, configured,
  configure_unless,
}
use agent_util.Rpc.Handlers.Registrations.{
  definition_from, handle_guard_register, handle_verifier_register, handle_judge_register,
}
use agent_util.Rpc.Handlers.Dispatch.{
  Call, agent_run, agent_configure, tool_register, guard_register, verifier_register,
  judge_register, session_inject, context_summarize, Services, handle_call, handle_calls,
}
use agent_util.Rpc.Remote.{new_remote_tool}
use agent_util.Rpc.Handlers.Laws.{tool_register-keeps}

module _ (fl : Floats) {W : Type 0} (u : Unicode) (v : Services fl W) where
  -- no run is in progress, and registrations filled the registry of the engine
  abbrev pub IsReady : Handlers fl W → Type 0
  IsReady h = (h.run_cancel ≡ none) × IsFilled h.eng.registry

  -- what may change and keeps this
  abbrev Like : Handlers fl W → Handlers fl W → Type 0
  Like h h' = (h'.run_cancel ≡ h.run_cancel) × (h'.eng.registry ≡ h.eng.registry)

  Like-IsReady : (h h' : Handlers fl W) → Like h h' → IsReady h → IsReady h'
  Like-IsReady h h' (c, r) (i, f) = (c ∙ i, subst IsFilled (sym r) f)

  run_admitted-Like :
      (p : Result AgentRunParams) (h : Handlers fl W)
      → Like h (run_admitted fl u v.out v.delegation v.marshal_map v.wrapper.notify p h).1
  unfolding run_admitted
  run_admitted-Like (err e) h = (refl, refl)
  run_admitted-Like (ok p) h = (refl, refl)

  agent_run-IsReady :
      (n : ℕ) (p : Result AgentRunParams) (h : Handlers fl W)
      → IsReady h
      → IsReady (handle_agent_run fl u v.out v.delegation v.marshal_map v.wrapper.notify n p h).1
  unfolding handle_agent_run begin_run end_run
  agent_run-IsReady n p h (i, f) =
      let like = run_admitted-Like p (record h { run_cancel = some n }) in
      rw i (refl, (f.0, like.1 ∙ f.1))

  abbrev IsBuilt : Handlers fl W → Result ((Engine fl W × State fl W) × List Text) → Type 0
  IsBuilt h r = Holds (λ x. x.0.0.registry ≡ h.eng.registry) r

  module _ (p : AgentConfigureParams fl.Float) (h : Handlers fl W) where
    rebuilt-IsBuilt :
        (d : Draft fl W) (c : Driver W)
        → IsFilled h.eng.registry
        → draft fl v.quote v.std h.remote v.wrapper h.eng p ≡ ok d
        → set_llm fl v.quote v.wrapper h.eng p.llm ≡ ok c
        → IsBuilt h
            (rebuild_engine fl v.quote v.std h.remote u v.marshal_indent v.wrapper h.eng h.state p)
    rebuilt-IsBuilt d c (ts, f) drafted driven =
        let (e, s, r, _, registry, _, _, _, _, _) =
          rebuild_engine-IsRebuilt fl u v.quote v.std h.remote v.marshal_indent v.wrapper h.eng
            h.state p ts d c f drafted driven in
        rw r registry

    rebuild-IsBuilt :
        (x : Result (Draft fl W)) (y : Result (Driver W))
        → IsFilled h.eng.registry
        → draft fl v.quote v.std h.remote v.wrapper h.eng p ≡ x
        → set_llm fl v.quote v.wrapper h.eng p.llm ≡ y
        → IsBuilt h
            (rebuild_engine fl v.quote v.std h.remote u v.marshal_indent v.wrapper h.eng h.state p)
    unfolding rebuild_engine
    rebuild-IsBuilt (err e) y f drafted driven = rw drafted tt
    rebuild-IsBuilt (ok d) (err e) f drafted driven = rw (drafted, driven) tt
    rebuild-IsBuilt (ok d) (ok c) f drafted driven = rebuilt-IsBuilt d c f drafted driven

  configured-Like :
      (h : Handlers fl W) (r : Result ((Engine fl W × State fl W) × List Text))
      → IsBuilt h r
      → Like h (configured fl u v.quote v.std v.marshal_indent v.wrapper h r).1
  configured-Like h (err e) b = (refl, refl)
  configured-Like h (ok ((e, s), applied)) b = (refl, b)

  apply_configure-IsReady :
      (p : Result (AgentConfigureParams fl.Float)) (h : Handlers fl W)
      → IsReady h
      → IsReady (apply_configure fl u v.quote v.std v.marshal_indent v.wrapper p h).1
  unfolding apply_configure
  apply_configure-IsReady (err e) h i = i
  apply_configure-IsReady (ok p) h i =
      let r =
        rebuild_engine fl v.quote v.std h.remote u v.marshal_indent v.wrapper h.eng h.state p in
      Like-IsReady h (configured fl u v.quote v.std v.marshal_indent v.wrapper h r).1
        (configured-Like h r (rebuild-IsBuilt p h _ _ i.1 refl refl)) i

  unless-IsReady :
      (o : Option RpcError) (p : Result (AgentConfigureParams fl.Float)) (h : Handlers fl W)
      → IsReady h
      → IsReady (configure_unless fl u v.quote v.std v.marshal_indent v.wrapper o p h).1
  unless-IsReady (some e) p h i = i
  unless-IsReady none p h i = apply_configure-IsReady p h i

  judge_register-Like :
      (p : JudgeRegisterParams) (h : Handlers fl W)
      → Like h (handle_judge_register fl u v.codec v.server (ok p) h).1
  unfolding handle_judge_register
  judge_register-Like p h = elim (Bool-cases (text_eq p.name [])) [
    | inl e ↦ rw e (refl, refl)
    | inr e ↦ rw e (refl, refl)
  ]

  tool_register-IsReady :
      (def : ToolDefinition) (h : Handlers fl W)
      → IsReady h
      → Registered fl u
          (λ es. IsReady (record h { eng = es.0; state = es.1 }))
          (register_tool fl u
            (new_remote_tool v.codec (definition_from def) v.server)
            (h.eng, h.state))
  tool_register-IsReady def h (i, f) =
      Registered-map fl u (λ es. IsFilled es.0.registry)
        (λ es. IsReady (record h { eng = es.0; state = es.1 })) (λ es filled. (i, filled))
        (register_tool fl u (new_remote_tool v.codec (definition_from def) v.server)
          (h.eng, h.state))
        (register_tool-IsFilled fl u _ h.eng h.state f)

  handle_call-IsReady :
      (c : Call fl.Float) (h : Handlers fl W) → IsReady h → IsReady (handle_call fl u v c h)
  unfolding handle_call handle_guard_register handle_verifier_register handle_judge_register
      handle_session_inject handle_context_summarize handle_agent_configure
  handle_call-IsReady (agent_run n p) h i = agent_run-IsReady n p h i
  handle_call-IsReady (agent_configure p) h i = unless-IsReady (refuse_if_busy fl h) p h i
  handle_call-IsReady (tool_register r) h i =
      tool_register-keeps fl u v IsReady tool_register-IsReady r h i
  handle_call-IsReady (guard_register (err e)) h i = i
  handle_call-IsReady (guard_register (ok p)) h i = i
  handle_call-IsReady (verifier_register (err e)) h i = i
  handle_call-IsReady (verifier_register (ok p)) h i = i
  handle_call-IsReady (judge_register (err e)) h i = i
  handle_call-IsReady (judge_register (ok p)) h i =
      Like-IsReady h (handle_judge_register fl u v.codec v.server (ok p) h).1
        (judge_register-Like p h) i
  handle_call-IsReady (session_inject (err e)) h i = i
  handle_call-IsReady (session_inject (ok p)) h i = i
  handle_call-IsReady context_summarize h i = i

  handle_calls-IsReady :
      (cs : List (Call fl.Float)) (h : Handlers fl W)
      → IsReady h
      → IsReady (handle_calls fl u v cs h)
  unfolding handle_calls
  handle_calls-IsReady [] h i = i
  handle_calls-IsReady (c ∷ cs) h i =
      handle_calls-IsReady cs (handle_call fl u v c h) (handle_call-IsReady c h i)

  module _ (p : AgentConfigureParams fl.Float) (h : Handlers fl W) (d : Draft fl W)
      (c : Driver W) where
    -- what agent.configure answers, and what its engine takes over
    abbrev pub IsConfigured : Answer AgentConfigureResult × Handlers fl W → Type 0
    IsConfigured (a, h') =
        (a ≡ answered (record { applied = d.applied ++ c.2 }))
        × (h'.eng.registry ≡ h.eng.registry)
        × (h'.eng.completer ≡ c.0)
        × (h'.eng.skill_tool_names ≡ [])
        × (p.guards ≡ none → h'.eng.guards ≡ none)
        × (p.permission ≡ none → h'.eng.perm_checker ≡ none)
        × (history fl h'.state ≡ history fl h.state)
        × (h'.state.world ≡ h.state.world)

    handle_agent_configure-IsConfigured :
        IsReady h
        → draft fl v.quote v.std h.remote v.wrapper h.eng p ≡ ok d
        → set_llm fl v.quote v.wrapper h.eng p.llm ≡ ok c
        → IsConfigured
            (handle_agent_configure fl u v.quote v.std v.marshal_indent v.wrapper (ok p) h)
    unfolding handle_agent_configure refuse_if_busy apply_configure history
    handle_agent_configure-IsConfigured (idle, (ts, f)) drafted driven =
        let (e, s, r, completer, registry, skills, guards, policy, same, world) =
          rebuild_engine-IsRebuilt fl u v.quote v.std h.remote v.marshal_indent v.wrapper h.eng
            h.state p ts d c f drafted driven in
        rw (idle, r) (refl, registry, completer, skills, guards, policy, same, world)

  -- After any calls of the handlers, refused ones included, from handlers with an engine whose tools
  -- registrations brought and without a run in progress: if the parameters of agent.configure can be
  -- resolved and the driver of the model is known, then agent.configure succeeds. It answers with the
  -- names that were applied; the new engine has all tools, the history and the chosen driver; no skill
  -- keeps its mark as a skill; and the guards and the permission policy of the previous engine are
  -- gone where the parameters give none.
  pub handle_calls-IsConfigured :
      (cs : List (Call fl.Float)) (h : Handlers fl W) (p : AgentConfigureParams fl.Float)
      (d : Draft fl W) (c : Driver W)
      → IsReady h
      → draft fl v.quote v.std
          (handle_calls fl u v cs h).remote
          v.wrapper
          (handle_calls fl u v cs h).eng
          p
        ≡ ok d
      → set_llm fl v.quote v.wrapper (handle_calls fl u v cs h).eng p.llm ≡ ok c
      → IsConfigured p (handle_calls fl u v cs h) d c (
          handle_agent_configure fl u v.quote v.std v.marshal_indent v.wrapper
            (ok p)
            (handle_calls fl u v cs h))
  handle_calls-IsConfigured cs h p d c i drafted driven =
      handle_agent_configure-IsConfigured p (handle_calls fl u v cs h) d c
        (handle_calls-IsReady cs h i) drafted driven
