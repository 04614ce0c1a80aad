-- ===== src/Rpc/Configure/Tools.antt =====
-- internal/rpc/configure.go: what the parts of a configuration do to the tools and the skills of
-- the draft.
pub mod Names
use agent_util.Common.{
  ℕ, ◌≡◌, refl, ◌∙◌, subst, Bool, true, false, Option, none, some, List, [], ◌∷◌, Text,
  if◌then◌else◌, txt,
}
use agent_util.Common.Floats.{Floats}
use agent_util.Engine.Builtin.{Std}
use agent_util.Engine.Errors.{wrap}
use agent_util.Engine.Exec.{Result, ok, err, map_error}
use agent_util.Engine.Guard.{new_guard_registry}
use agent_util.Engine.Judge.{loop_type_from_string, build_builtin_goal_judge}
use agent_util.Engine.New.{EngineConfig}
use agent_util.Engine.Options.{
  Opt, with_compaction, with_loop_type, with_goal_judge, with_router_completer, with_input_guard,
  with_tool_call_guard, with_output_guard, with_verifiers, with_max_step_retries,
  with_max_consecutive_failures, with_max_turns, with_system_prompt, with_token_limit,
  with_work_dir, with_delegate_max_chars, with_delegate_enabled, with_coordinate_max_chars,
  with_coordinator_enabled, with_reminder_threshold,
}
use agent_util.Engine.State.{LoopType, Judged, Engine}
use agent_util.Protocol.Methods.{
  DelegateConfig, CoordinatorConfig, CompactionParams, PermissionConfig, GuardsConfig, VerifyConfig,
  ToolScopeConfig, ReminderConfig, StreamingConfig, LoopConfig, RouterConfig, JudgeConfig,
  AgentConfigureParams,
}
use agent_util.Rpc.Registry.{RemoteRegistry, lookup_goal_judge}
use agent_util.Rpc.Configure.{
  Wrapper, Draft, ◌>>=◌, mark, add_opt, or_true, or_false, opt_if, field,
}
use agent_util.Rpc.Configure.Fields.{
  set_delegate, set_coordinator, set_permission, set_tool_scope, set_reminder, set_streaming,
  set_router, carry_over, reminder_section, router_at, carry_if, stream_if, status_if, set_basics,
}
use agent_util.Rpc.Configure.Names.{
  set_compaction, set_guards, set_verify, set_loop, set_judge, loop_named, loop_if, judge_from,
  judge_named, judge_builtin, summarizer_of, compaction_of, resolve_each,
}
use agent_util.Rpc.Configure.Rebuild.{draft}

-- what holds of a result that is no error
module _ {A : Type 0} where
  abbrev pub Holds : (A → Type 0) → Result A → Type 0
  Holds P (ok a) = P a
  Holds P (err e) = Unit

  pub Holds-any : (r : Result A) → Holds (λ a. Unit) r
  Holds-any (ok a) = tt
  Holds-any (err e) = tt

  pub if-Holds :
      (P : A → Type 0) (b : Bool) (x y : Result A)
      → Holds P x
      → Holds P y
      → Holds P (if b then x else y)
  if-Holds P true x y h k = h
  if-Holds P false x y h k = k

  pub Holds-ok : (P : A → Type 0) (r : Result A) (a : A) → Holds P r → r ≡ ok a → P a
  Holds-ok P (ok b) a h e = let same : b ≡ a = cc in subst P same h
  Holds-ok P (err x) a h e = cc

module _ {A B : Type 0} (P : A → Type 0) (Q : B → Type 0) where
  pub Holds-bind :
      (r : Result A) (f : A → Result B)
      → Holds P r
      → ((a : A) → P a → Holds Q (f a))
      → Holds Q (r >>= f)
  Holds-bind (ok a) f h k = k a h
  Holds-bind (err e) f h k = tt

module _ (fl : Floats) {W : Type 0} (p : AgentConfigureParams fl.Float) where
  -- no option brings tools or skills, nor guards or a policy unless the parameters have them
  abbrev pub Bare : EngineConfig fl W → Type 0
  Bare c =
      (c.tools ≡ [])
      × (c.skills ≡ [])
      × (p.guards ≡ none → c.guards ≡ new_guard_registry)
      × (p.permission ≡ none → c.permission_policy ≡ none)

  abbrev pub IsBare : Draft fl W → Type 0
  IsBare d = Bare d.config

  -- an option that keeps this
  abbrev pub Keeps : Opt fl W → Type 0
  Keeps o = (c : EngineConfig fl W) → Bare c → Bare (o c)

  module _ {A : Type 0} (o : A → Opt fl W) (k : (a : A) → Keeps (o a)) where
    pub opt_if-IsBare : (a : Option A) (d : Draft fl W) → IsBare d → IsBare (opt_if o a d)
    opt_if-IsBare none d h = h
    opt_if-IsBare (some a) d h = k a d.config h

    field-IsBare :
        (name : Text) (a : Option A) (d : Draft fl W) → IsBare d → IsBare (field name o a d)
    field-IsBare name none d h = h
    field-IsBare name (some a) d h = k a d.config h

  if-IsBare : (b : Bool) (x y : Draft fl W) → IsBare x → IsBare y → IsBare (if b then x else y)
  if-IsBare true x y h k = h
  if-IsBare false x y h k = k

  reminder_section-IsBare :
      (content : Text) (d : Draft fl W) → IsBare d → IsBare (reminder_section fl content d)
  reminder_section-IsBare [] d h = h
  reminder_section-IsBare (b ∷ bs) d h = h

  status_if-IsBare :
      (w : Wrapper fl.Float W) (b : Bool) (d : Draft fl W) → IsBare d → IsBare (status_if fl w b d)
  status_if-IsBare w true d h = h
  status_if-IsBare w false d h = h

  module _ (d : Draft fl W) (h : IsBare d) where
    set_delegate-IsBare : (c : Option DelegateConfig) → IsBare (set_delegate fl c d)
    unfolding set_delegate
    set_delegate-IsBare none = h
    set_delegate-IsBare (some c) =
        opt_if-IsBare (with_delegate_max_chars fl) (λ a c b. b) c.max_chars _
          (opt_if-IsBare (with_delegate_enabled fl) (λ a c b. b) c.enabled d h)

    set_coordinator-IsBare : (c : Option CoordinatorConfig) → IsBare (set_coordinator fl c d)
    unfolding set_coordinator
    set_coordinator-IsBare none = h
    set_coordinator-IsBare (some c) =
        opt_if-IsBare (with_coordinate_max_chars fl) (λ a c b. b) c.max_chars _
          (opt_if-IsBare (with_coordinator_enabled fl) (λ a c b. b) c.enabled d h)

    pub set_permission-IsBare :
        (c : Option PermissionConfig) → p.permission ≡ c → IsBare (set_permission fl c d)
    unfolding set_permission
    set_permission-IsBare none e = h
    set_permission-IsBare (some c) e =
        let (t, s, g, q) = h in if-IsBare (or_true c.enabled) _ _ (t, s, g, (λ n. cc)) h

    pub set_tool_scope-IsBare : (c : Option ToolScopeConfig) → IsBare (set_tool_scope fl c d)
    unfolding set_tool_scope
    set_tool_scope-IsBare none = h
    set_tool_scope-IsBare (some c) = h

    pub set_reminder-IsBare : (c : Option ReminderConfig) → IsBare (set_reminder fl c d)
    unfolding set_reminder
    set_reminder-IsBare none = h
    set_reminder-IsBare (some c) =
        reminder_section-IsBare c.content _
          (opt_if-IsBare (with_reminder_threshold fl) (λ a c b. b) c.threshold d h)

    stream_if-IsBare : (w : Wrapper fl.Float W) (b : Bool) → IsBare (stream_if fl w b d)
    stream_if-IsBare w true = h
    stream_if-IsBare w false = h

    pub set_streaming-IsBare :
        (w : Wrapper fl.Float W) (c : Option StreamingConfig) → IsBare (set_streaming fl w c d)
    unfolding set_streaming
    set_streaming-IsBare w none = h
    set_streaming-IsBare w (some c) =
        status_if-IsBare w (or_false c.context_status) _ (stream_if-IsBare w (or_false c.enabled))

    router_at-IsBare :
        (w : Wrapper fl.Float W) (endpoint : Text) (c : RouterConfig)
        → IsBare (router_at fl w endpoint c d)
    router_at-IsBare w [] c = h
    router_at-IsBare w (b ∷ bs) c = h

    pub set_router-IsBare :
        (w : Wrapper fl.Float W) (c : Option RouterConfig) → IsBare (set_router fl w c d)
    unfolding set_router
    set_router-IsBare w none = h
    set_router-IsBare w (some c) = router_at-IsBare w c.endpoint c

    module _ (prev : Engine fl W) where
      carry_if-IsBare :
          {A B : Type 0}
          → (o : A → Opt fl W) (k : (a : A) → Keeps (o a)) (b : Option B) (a : Option A)
            (d' : Draft fl W)
          → IsBare d'
          → IsBare (carry_if fl o b a d')
      carry_if-IsBare o k none a d' h' = opt_if-IsBare o k a d' h'
      carry_if-IsBare o k (some b) a d' h' = h'

      pub carry_over-IsBare : IsBare (carry_over fl prev p d)
      unfolding carry_over
      carry_over-IsBare =
          carry_if-IsBare (with_loop_type fl) (λ a c b. b) p.loop (some prev.loop_type) _
            (carry_if-IsBare (with_goal_judge fl) (λ a c b. b) p.judge prev.goal_judge _
              (carry_if-IsBare (with_router_completer fl) (λ a c b. b) p.router
                prev.router_completer d h))

  pub set_basics-IsBare : (d : Draft fl W) → IsBare d → IsBare (set_basics fl p d)
  set_basics-IsBare d h =
      set_coordinator-IsBare _
        (set_delegate-IsBare _
          (field-IsBare (with_work_dir fl) (λ a c b. b) _ p.work_dir _
            (field-IsBare (with_token_limit fl) (λ a c b. b) _ p.token_limit _
              (field-IsBare (with_system_prompt fl) (λ a c b. b) _ p.system_prompt _
                (field-IsBare (with_max_turns fl) (λ a c b. b) _ p.max_turns d h))))
          p.delegate)
        p.coordinator
