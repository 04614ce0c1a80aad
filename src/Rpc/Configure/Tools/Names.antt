-- ===== src/Rpc/Configure/Tools/Names.antt =====
-- internal/rpc/configure.go: the parts of a configuration that name something, and the whole draft.
use agent_util.Common.{
  ◌≡◌, refl, ℕ, refl, Bool, true, false, Option, none, some, List, [], ◌∷◌, Text, txt,
}
use agent_util.Common.Floats.{Floats}
use agent_util.Engine.Builtin.{Std}
use agent_util.Engine.Errors.{wrap}
use agent_util.Engine.Exec.{Result, ok, map_error}
use agent_util.Engine.Guard.{GuardRegistry}
use agent_util.Engine.New.{EngineConfig}
use agent_util.Engine.Judge.{loop_type_from_string, build_builtin_goal_judge}
use agent_util.Engine.Options.{
  Opt, with_compaction, with_input_guard, with_tool_call_guard, with_output_guard, with_verifiers,
  with_max_step_retries, with_max_consecutive_failures,
}
use agent_util.Engine.State.{LoopType, Judged, Engine}
use agent_util.Protocol.Methods.{
  CompactionParams, GuardsConfig, VerifyConfig, LoopConfig, JudgeConfig, AgentConfigureParams,
}
use agent_util.Rpc.Registry.{RemoteRegistry, lookup_goal_judge}
use agent_util.Rpc.Configure.{Wrapper, Draft, mark, add_opt, or_true}
use agent_util.Rpc.Configure.Names.{
  set_compaction, set_guards, set_verify, set_loop, set_judge, loop_named, loop_if, judge_from,
  judge_named, judge_builtin, summarizer_of, compaction_of, resolve_each,
}
use agent_util.Rpc.Configure.Rebuild.{draft}
use agent_util.Rpc.Configure.Tools.{
  Holds, Holds-any, if-Holds, Holds-bind, Bare, IsBare, Keeps, opt_if-IsBare, set_basics-IsBare,
  carry_over-IsBare, set_permission-IsBare, set_tool_scope-IsBare, set_reminder-IsBare,
  set_streaming-IsBare, set_router-IsBare,
}

module _ (fl : Floats) {W : Type 0} (p : AgentConfigureParams fl.Float) where
  module _ {A : Type 0} (o : A → Opt fl W) (k : (a : A) → Keeps fl p (o a)) where
    module _ (quote : Text → Text) (std : Std) (remote : RemoteRegistry W) where
      resolve_each-IsBare :
          (stage : Text) (resolve : Text → Result A) (names : List Text) (d : Draft fl W)
          → IsBare fl p d
          → Holds (IsBare fl p) (resolve_each fl quote std remote stage resolve o names d)
      resolve_each-IsBare stage resolve [] d h = h
      resolve_each-IsBare stage resolve (name ∷ names) d h =
          Holds-bind (λ a. Unit) (IsBare fl p) (map_error (wrap stage) (resolve name)) _
            (Holds-any _)
            (λ a u. resolve_each-IsBare stage resolve names (add_opt (o a) d) (k a d.config h))

  module _ (d : Draft fl W) (h : IsBare fl p d) where
    module _ (quote : Text → Text) where
      loop_if-IsBare :
          (name : Text) (r : LoopType × Bool) → Holds (IsBare fl p) (loop_if fl quote name r d)
      loop_if-IsBare name (t, true) = h
      loop_if-IsBare name (t, false) = tt

      loop_named-IsBare : (name : Text) → Holds (IsBare fl p) (loop_named fl quote name d)
      loop_named-IsBare [] = h
      loop_named-IsBare (b ∷ bs) = loop_if-IsBare (b ∷ bs) (loop_type_from_string (b ∷ bs))

      set_loop-IsBare : (c : Option LoopConfig) → Holds (IsBare fl p) (set_loop fl quote c d)
      unfolding set_loop
      set_loop-IsBare none = h
      set_loop-IsBare (some c) = loop_named-IsBare c.type

      set_compaction-IsBare :
          (prev : Engine fl W) (c : Option (CompactionParams fl.Float))
          → Holds (IsBare fl p) (set_compaction fl quote prev c d)
      unfolding set_compaction
      set_compaction-IsBare prev none = h
      set_compaction-IsBare prev (some c) =
          if-Holds (IsBare fl p) (or_true c.enabled) _ _
            (Holds-bind (λ a. Unit) (IsBare fl p)
              (summarizer_of fl quote prev.completer c.summarizer (compaction_of fl quote c))
              (λ cfg. ok (mark (txt "compaction") (add_opt (with_compaction fl cfg) d)))
              (Holds-any _) (λ cfg t. h))
            h

      module _ (std : Std) (remote : RemoteRegistry W) where
        given :
            (c : GuardsConfig)
            → p.guards ≡ some c
            → (cfg : EngineConfig fl W) (guards : GuardRegistry W) → Bare fl p cfg
            → Bare fl p (record cfg { guards = guards })
        given c e cfg guards (t, s, g, q) = (t, s, (λ n. cc), q)

        set_guards-IsBare :
            (c : Option GuardsConfig)
            → p.guards ≡ c
            → Holds (IsBare fl p) (set_guards fl quote std remote c d)
        unfolding set_guards
        set_guards-IsBare none e = h
        set_guards-IsBare (some c) e =
            Holds-bind (IsBare fl p) (IsBare fl p)
              (resolve_each fl quote std remote _ _ _ c.input d) _
              (resolve_each-IsBare (with_input_guard fl) (λ a cfg b. given c e cfg _ b) quote std
                remote _ _ c.input d h)
              (λ d1 h1.
                Holds-bind (IsBare fl p) (IsBare fl p)
                  (resolve_each fl quote std remote _ _ _ c.tool_call d1) _
                  (resolve_each-IsBare (with_tool_call_guard fl) (λ a cfg b. given c e cfg _ b)
                    quote std remote _ _ c.tool_call d1 h1)
                  (λ d2 h2.
                    Holds-bind (IsBare fl p) (IsBare fl p)
                      (resolve_each fl quote std remote _ _ _ c.output d2) _
                      (resolve_each-IsBare (with_output_guard fl) (λ a cfg b. given c e cfg _ b)
                        quote std remote _ _ c.output d2 h2)
                      (λ d3 h3. h3)))

        set_verify-IsBare :
            (c : Option VerifyConfig) → Holds (IsBare fl p) (set_verify fl quote std remote c d)
        unfolding set_verify
        set_verify-IsBare none = h
        set_verify-IsBare (some c) =
            Holds-bind (IsBare fl p) (IsBare fl p)
              (resolve_each fl quote std remote _ _ _ c.verifiers d) _
              (resolve_each-IsBare (λ v. with_verifiers fl (v ∷ [])) (λ a c b. b) quote std remote _
                _ c.verifiers d h)
              (λ d1 h1.
                opt_if-IsBare fl p (with_max_consecutive_failures fl) (λ a c b. b)
                  c.max_consecutive_failures _
                  (opt_if-IsBare fl p (with_max_step_retries fl) (λ a c b. b) c.max_step_retries d1
                    h1))

        judge_named-IsBare :
            (name : Text) (j : Option (Text → ℕ → W → Judged × W))
            → Holds (IsBare fl p) (judge_named fl quote std remote name j d)
        judge_named-IsBare name none = tt
        judge_named-IsBare name (some j) = h

        judge_builtin-IsBare :
            (name : Text) → Holds (IsBare fl p) (judge_builtin fl quote std remote name d)
        judge_builtin-IsBare [] = h
        judge_builtin-IsBare (b ∷ bs) =
            Holds-bind (λ a. Unit) (IsBare fl p)
              (map_error (wrap (txt "judge.builtin")) (build_builtin_goal_judge quote (b ∷ bs))) _
              (Holds-any _) (λ j t. h)

        judge_from-IsBare :
            (name builtin : Text)
            → Holds (IsBare fl p) (judge_from fl quote std remote name builtin d)
        judge_from-IsBare [] builtin = judge_builtin-IsBare builtin
        judge_from-IsBare (b ∷ bs) builtin =
            judge_named-IsBare (b ∷ bs) (lookup_goal_judge (b ∷ bs) remote)

        set_judge-IsBare :
            (c : Option JudgeConfig) → Holds (IsBare fl p) (set_judge fl quote std remote c d)
        unfolding set_judge
        set_judge-IsBare none = h
        set_judge-IsBare (some c) = judge_from-IsBare c.name c.builtin

  pub draft-IsBare :
      (quote : Text → Text) (std : Std) (remote : RemoteRegistry W) (w : Wrapper fl.Float W)
      (prev : Engine fl W)
      → Holds (IsBare fl p) (draft fl quote std remote w prev p)
  unfolding draft
  draft-IsBare quote std remote w prev =
      Holds-bind (IsBare fl p) (IsBare fl p) (set_compaction fl quote prev p.compaction _) _
        (set_compaction-IsBare _ (set_basics-IsBare fl p _ (refl, refl, (λ n. refl), (λ n. refl)))
          quote prev p.compaction)
        (λ d1 h1.
          Holds-bind (IsBare fl p) (IsBare fl p) (set_guards fl quote std remote p.guards _) _
            (set_guards-IsBare _ (set_permission-IsBare fl p d1 h1 p.permission refl) quote std
              remote p.guards refl)
            (λ d2 h2.
              Holds-bind (IsBare fl p) (IsBare fl p) (set_verify fl quote std remote p.verify d2) _
                (set_verify-IsBare d2 h2 quote std remote p.verify)
                (λ d3 h3.
                  Holds-bind (IsBare fl p) (IsBare fl p) (set_loop fl quote p.loop _) _
                    (set_loop-IsBare _
                      (set_streaming-IsBare fl p _
                        (set_reminder-IsBare fl p _ (set_tool_scope-IsBare fl p d3 h3 p.tool_scope)
                          p.reminder)
                        w p.streaming)
                      quote p.loop)
                    (λ d4 h4.
                      Holds-bind (IsBare fl p) (IsBare fl p)
                        (set_judge fl quote std remote p.judge _) _
                        (set_judge-IsBare _ (set_router-IsBare fl p d4 h4 w p.router) quote std
                          remote p.judge)
                        (λ d5 h5. carry_over-IsBare fl p d5 h5 prev)))))
