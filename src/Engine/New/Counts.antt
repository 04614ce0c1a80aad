-- ===== src/Engine/New/Counts.antt =====
-- The reserved tokens of an engine that New in internal/engine/engine.go builds.
use agent_util.Common.{◌≡◌, refl, sym, subst, ◌∙◌, List, Option, none, some, Text}
use agent_util.Common.Floats.{Floats}
use agent_util.Llm.Message.{ChatRequest, ChatResponse}
use agent_util.Context.Estimate.{Unicode}
use agent_util.Context.Manager.{new_manager, on_threshold}
use agent_util.Engine.Calls.Laws.{Counted, estimate_lem, set_reserved_fields}
use agent_util.Engine.Exec.{Result}
use agent_util.Engine.New.{
  EngineConfig, new_engine, with_registry, init_prompt_builder, register_skills,
}
use agent_util.Engine.Registry.{Registry, register_all, new_registry}
use agent_util.Engine.State.{StreamEvent, Engine, State}

module _ (fl : Floats) (u : Unicode) {W : Type 0} (marshal_indent : Text → Option Text)
    (completer : ChatRequest → W → Result ChatResponse × W)
    (streamer : Option (ChatRequest → W → Result (List StreamEvent) × W)) where
  abbrev IsCounted : Option (Engine fl W × State fl W) → Type 0
  IsCounted none = Unit
  IsCounted (some (e, s)) = Counted fl u e.prompt_builder.cached_tokens 0 (e, s)

  with_registry-IsCounted :
      (cfg : EngineConfig fl W) (w : W) (r : Option (Registry W))
      → IsCounted (with_registry fl u marshal_indent completer streamer cfg w r)
  unfolding new_manager on_threshold
  with_registry-IsCounted cfg w none = tt
  with_registry-IsCounted cfg w (some r) =
      let (d, c, same) =
        estimate_lem fl u
          (init_prompt_builder fl u marshal_indent cfg
            (register_skills fl u marshal_indent cfg.skills r).0)
          (none, w) in
      let (reserved, count) =
        set_reserved_fields fl _ (on_threshold fl 0 (new_manager fl cfg.token_limit none)) in
      (d, refl, reserved ∙ sym c, count)

  new_engine-IsCounted :
      (cfg : EngineConfig fl W) (w : W)
      → IsCounted (new_engine fl u marshal_indent completer streamer cfg w)
  unfolding new_engine
  new_engine-IsCounted cfg w = with_registry-IsCounted cfg w (register_all cfg.tools new_registry)

  pub new_engine-Counted :
      (cfg : EngineConfig fl W) (w : W) (e : Engine fl W) (s : State fl W)
      → new_engine fl u marshal_indent completer streamer cfg w ≡ some (e, s)
      → Counted fl u e.prompt_builder.cached_tokens 0 (e, s)
  new_engine-Counted cfg w e s h = subst IsCounted h (new_engine-IsCounted cfg w)
