-- ===== src/Engine/New/Laws.antt =====
-- The engine that New in internal/engine/engine.go builds without skills.
use agent_util.Common.{if◌then◌else◌, ℕ, ◌≡◌, refl, ap, ◌∙◌, Option, none, some, List, [], Text}
use agent_util.Common.Floats.{Floats}
use agent_util.Llm.Message.{ChatRequest, ChatResponse}
use agent_util.Context.Estimate.{Unicode}
use agent_util.Context.Manager.{Manager, messages, new_manager, on_threshold, set_reserved}
use agent_util.Context.Manager.Invariant.{check_threshold_fields}
use agent_util.Engine.Exec.{Result}
use agent_util.Engine.Guard.{has_guards}
use agent_util.Engine.New.{EngineConfig, new_engine, with_registry, register_skills, checker_of}
use agent_util.Engine.Registry.{Tool, Registry, register_all, new_registry}
use agent_util.Engine.State.{StreamEvent, Engine, State}

module _ (fl : Floats) (u : Unicode) {W : Type 0} (marshal_indent : Text → Option Text)
    (completer : ChatRequest → W → Result ChatResponse × W)
    (streamer : Option (ChatRequest → W → Result (List StreamEvent) × W)) where
  -- what New gives if its tools make the registry
  abbrev pub IsNew : EngineConfig fl W → W → Registry W → Option (Engine fl W × State fl W) → Type 0
  IsNew cfg w reg r =
      (e : Engine fl W) × (s : State fl W) × (r ≡ some (e, s))
      × (e.completer ≡ completer)
      × (e.registry ≡ reg)
      × (e.skill_tool_names ≡ [])
      × (e.guards ≡ (if has_guards cfg.guards then some cfg.guards else none))
      × (e.perm_checker ≡ checker_of fl u marshal_indent cfg.permission_policy cfg.user_approver)
      × (messages fl s.manager ≡ [])
      × (s.world ≡ w)

  set_reserved_entries : (n : ℕ) (m : Manager fl.Float) → (set_reserved fl n m).entries ≡ m.entries
  unfolding set_reserved
  set_reserved_entries n m = (check_threshold_fields fl (record m { reserved_tokens = n })).0

  register_skills-nil :
      (skills : List (Tool W)) (r : Registry W)
      → skills ≡ []
      → register_skills fl u marshal_indent skills r ≡ (r, [])
  unfolding register_skills
  register_skills-nil skills r h = rw h refl

  on_threshold_entries :
      (limit n : ℕ)
      → messages fl (set_reserved fl n (on_threshold fl 0 (new_manager fl limit none))) ≡ []
  unfolding messages on_threshold new_manager
  on_threshold_entries limit n =
      rw (set_reserved_entries n (on_threshold fl 0 (new_manager fl limit none))) refl

  with_registry-IsNew :
      (cfg : EngineConfig fl W) (w : W) (reg : Registry W) (r : Option (Registry W))
      → r ≡ some reg
      → cfg.skills ≡ []
      → IsNew cfg w reg (with_registry fl u marshal_indent completer streamer cfg w r)
  with_registry-IsNew cfg w reg none h k = cc
  with_registry-IsNew cfg w reg (some r) h k =
      let same : r ≡ reg = cc in
      let skills = register_skills-nil cfg.skills r k in
      (
        _,
        _,
        refl,
        refl,
        ap (λ (x : Registry W × List Text). x.0) skills ∙ same,
        ap (λ (x : Registry W × List Text). x.1) skills,
        refl,
        refl,
        on_threshold_entries cfg.token_limit _,
        refl,
      )

  pub new_engine-IsNew :
      (cfg : EngineConfig fl W) (w : W) (reg : Registry W)
      → register_all cfg.tools new_registry ≡ some reg
      → cfg.skills ≡ []
      → IsNew cfg w reg (new_engine fl u marshal_indent completer streamer cfg w)
  unfolding new_engine
  new_engine-IsNew cfg w reg h k =
      with_registry-IsNew cfg w reg (register_all cfg.tools new_registry) h k
