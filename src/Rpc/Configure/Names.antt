-- ===== src/Rpc/Configure/Names.antt =====
-- internal/rpc/configure.go: the fields of agent.configure that name something, and may fail.
use agent_util.Common.{
  ℕ, Bool, true, false, Option, none, some, List, [], ◌∷◌, ◌++◌, Text, txt, text_eq, if◌then◌else◌,
  text_key,
}
use agent_util.Common.Floats.{Floats}
use agent_util.Llm.Message.{ChatRequest, ChatResponse}
use agent_util.Context.Compaction.{CompactionConfig}
use agent_util.Engine.Builtin
use agent_util.Engine.Builtin.{Std, llm_summarizer}
use agent_util.Engine.Errors.{wrap, other}
use agent_util.Engine.Exec.{Result, ok, err, map_error}
use agent_util.Engine.Guard.{Guard}
use agent_util.Engine.Judge.{loop_type_from_string, build_builtin_goal_judge}
use agent_util.Engine.Options.{
  Opt, with_compaction, with_max_step_retries, with_max_consecutive_failures, with_verifiers,
  with_input_guard, with_tool_call_guard, with_output_guard, with_loop_type, with_goal_judge,
}
use agent_util.Engine.State.{LoopType, Judged, Engine}
use agent_util.Engine.Verify.{Verifier}
use agent_util.Protocol.Methods.{
  CompactionParams, GuardsConfig, VerifyConfig, LoopConfig, JudgeConfig,
}
use agent_util.Rpc.Registry.{
  RemoteRegistry, lookup_input_guard, lookup_tool_call_guard, lookup_output_guard, lookup_verifier,
  lookup_goal_judge,
}
use agent_util.Rpc.Configure.{Draft, or_true, or_value, ◌>>=◌, mark, add_opt, opt_if}

module _ (fl : Floats) {W : Type 0} where
  module _ (quote : Text → Text) where
    abbrev pub summarizer_of :
        (ChatRequest → W → Result ChatResponse × W)
        → Text
        → CompactionConfig W fl.Float
        → Result (CompactionConfig W fl.Float)
    summarizer_of completer [] cfg = ok cfg
    summarizer_of completer (c ∷ cs) cfg =
        if text_eq (c ∷ cs) (txt "llm")
        then ok (record cfg { summarizer = some (llm_summarizer completer) })
        else err (
            other (
              txt "compaction.summarizer: unknown name "
              ++ (quote (c ∷ cs) ++ txt " (available: llm)")))

    -- DefaultCompactionConfig with the values that are given
    abbrev pub compaction_of : CompactionParams fl.Float → CompactionConfig W fl.Float
    compaction_of c = record {
      budget_max_chars = or_value 2000 c.budget_max_chars;
      keep_last = or_value 6 c.keep_last;
      target_ratio = or_value (fl.literal 6 10) c.target_ratio;
      summarizer = none;
    }

    unfoldable pub set_compaction :
        Engine fl W → Option (CompactionParams fl.Float) → Draft fl W → Result (Draft fl W)
    set_compaction prev none d = ok d
    set_compaction prev (some c) d =
        if or_true c.enabled
        then (summarizer_of prev.completer c.summarizer (compaction_of c) >>= λ cfg.
            ok (mark (txt "compaction") (add_opt (with_compaction fl cfg) d)))
        else ok (mark (txt "compaction") d)

    abbrev pub loop_if : Text → LoopType × Bool → Draft fl W → Result (Draft fl W)
    loop_if name (t, true) d = ok (mark (txt "loop") (add_opt (with_loop_type fl t) d))
    loop_if name (t, false) d =
        err
          (other (txt "loop.type: unknown value " ++ (quote name ++ txt " (expected react|reaf)")))

    abbrev pub loop_named : Text → Draft fl W → Result (Draft fl W)
    loop_named [] d = ok d
    loop_named (b ∷ bs) d = loop_if (b ∷ bs) (loop_type_from_string (b ∷ bs)) d

    unfoldable pub set_loop : Option LoopConfig → Draft fl W → Result (Draft fl W)
    set_loop none d = ok d
    set_loop (some c) d = loop_named c.type d

    module _ (std : Std) (remote : RemoteRegistry W) where
      abbrev resolved : {A : Type 0} → Text → Text → Option A → Option A → Result A
      resolved kind name (some builtin) registered = ok builtin
      resolved kind name none (some registered) = ok registered
      resolved kind name none none = err (
          other (
            txt "unknown "
            ++ (kind
                ++ (txt ": " ++ (quote name ++ txt " (not registered as builtin or remote)")))))

      unfoldable pub resolve_input_guard : Text → Result (Guard W Text)
      resolve_input_guard name =
          resolved (txt "input guard") name (Builtin.input_guard std name)
            (lookup_input_guard name remote)

      unfoldable pub resolve_tool_call_guard : Text → Result (Guard W (Text × Text))
      resolve_tool_call_guard name =
          resolved (txt "tool_call guard") name (Builtin.tool_call_guard std name)
            (lookup_tool_call_guard name remote)

      unfoldable pub resolve_output_guard : Text → Result (Guard W Text)
      resolve_output_guard name =
          resolved (txt "output guard") name (Builtin.output_guard std name)
            (lookup_output_guard name remote)

      unfoldable pub resolve_verifier : Text → Result (Verifier W)
      resolve_verifier name =
          resolved (txt "verifier") name (Builtin.verifier std name) (lookup_verifier name remote)

      -- the loop over the names of a list, each resolved and added
      abbrev pub resolve_each :
          {A : Type 0}
          → Text
          → (Text → Result A)
          → (A → Opt fl W)
          → List Text
          → Draft fl W
          → Result (Draft fl W)
      resolve_each stage resolve o [] d = ok d
      resolve_each stage resolve o (name ∷ names) d = map_error (wrap stage) (resolve name) >>= λ a.
          resolve_each stage resolve o names (add_opt (o a) d)

      unfoldable pub set_guards : Option GuardsConfig → Draft fl W → Result (Draft fl W)
      set_guards none d = ok d
      set_guards (some c) d =
          resolve_each (txt "guards.input") resolve_input_guard (with_input_guard fl) c.input d
          >>= λ d1.
              resolve_each (txt "guards.tool_call") resolve_tool_call_guard
                (with_tool_call_guard fl) c.tool_call d1
              >>= λ d2.
                  resolve_each (txt "guards.output") resolve_output_guard (with_output_guard fl)
                    c.output d2
                  >>= λ d3. ok (mark (txt "guards") d3)

      unfoldable pub set_verify : Option VerifyConfig → Draft fl W → Result (Draft fl W)
      set_verify none d = ok d
      set_verify (some c) d =
          resolve_each (txt "verify.verifiers") resolve_verifier (λ v. with_verifiers fl (v ∷ []))
            c.verifiers d
          >>= λ d1. ok (
              mark (txt "verify") (
                opt_if (with_max_consecutive_failures fl) c.max_consecutive_failures
                  (opt_if (with_max_step_retries fl) c.max_step_retries d1)))

      abbrev pub judge_named :
          Text → Option (Text → ℕ → W → Judged × W) → Draft fl W → Result (Draft fl W)
      judge_named name none d = err (
          other (
            txt "judge.name: "
            ++ (quote name ++ txt " not registered (call judge.register first)")))
      judge_named name (some j) d = ok (mark (txt "judge") (add_opt (with_goal_judge fl j) d))

      abbrev pub judge_builtin : Text → Draft fl W → Result (Draft fl W)
      judge_builtin [] d = ok d
      judge_builtin (c ∷ cs) d =
          map_error (wrap (txt "judge.builtin")) (build_builtin_goal_judge quote (c ∷ cs)) >>= λ j.
          ok (mark (txt "judge") (add_opt (with_goal_judge fl j) d))

      abbrev pub judge_from : Text → Text → Draft fl W → Result (Draft fl W)
      judge_from [] builtin d = judge_builtin builtin d
      judge_from (b ∷ bs) builtin d = judge_named (b ∷ bs) (lookup_goal_judge (b ∷ bs) remote) d

      unfoldable pub set_judge : Option JudgeConfig → Draft fl W → Result (Draft fl W)
      set_judge none d = ok d
      set_judge (some c) d = judge_from c.name c.builtin d
