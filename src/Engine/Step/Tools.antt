-- ===== src/Engine/Step/Tools.antt =====
-- What the tools and the compaction of a step of internal/engine/engine.go do to the history.
use agent_util.Common.{
  ℕ, ◌-◌, refl, Bool, true, false, ◌&&◌, inl, inr, Option, none, some, [], ◌∷◌, ◌++◌, Text, txt,
  text_eq, if◌then◌else◌, Bool-cases, length, ltb, ◌==◌,
}
use agent_util.Common.Floats.{Floats}
use agent_util.Llm.Message.{Message, Usage}
use agent_util.Context.Estimate.{Unicode}
use agent_util.Context.Compaction.{CompactionConfig}
use agent_util.Context.Manager.{
  Manager, CompactResult, done, failed, add, compact, usage_ratio, token_count,
}
use agent_util.Engine.Errors.{wrap}
use agent_util.Engine.Exec.{Exec, map_error}
use agent_util.Engine.Guard.{GuardDecision, allow, deny, GuardRegistry, run_tool_call}
use agent_util.Engine.Permission.{
  PermissionDecision, perm_denied, perm_allowed, perm_ask, PermissionChecker, check_permission,
}
use agent_util.Engine.Verify.{run_all}
use agent_util.Engine.Registry.{Tool, get, len}
use agent_util.Engine.State.{
  LoopResult, RouterResponse, Outside, Engine, State, tool_call_message, tool_result_message,
  tool_already_succeeded,
}
use agent_util.Engine.Step.{
  chat_step, router_step, record_tool_not_found, by_call_guard, guarded_call, by_permission,
  checked_access, check_tool_access, execute_and_record, run_verification, verified_or,
  after_execution, if_passed, with_tool, routed, tool_step, after_compact, compact_if,
  maybe_compact, step_with_turn,
}
use agent_util.Engine.Run.History.{emit_context_status-manager}
use agent_util.Engine.Step.History.{
  IsPlain, Holds-any, AnswersPlain, bind_keeps, add_message-keeps, record_call-keeps,
  chat_step-keeps, chat_step_with_router_usage-keeps, router_step-keeps,
}

module _ (fl : Floats) (u : Unicode) {W : Type 0} (out : Outside W) (e : Engine fl W) where
  module _ (P : Manager fl.Float → Type 0)
      (adds : (msg : Message) (m : Manager fl.Float) → IsPlain msg → P m → P (add fl u msg m))
      (pairs : (hex name arguments content : Text) (m : Manager fl.Float)
        → P m
        → P (
            add fl u (tool_result_message (txt "call_" ++ hex) content) (
              add fl u
                (tool_call_message out.marshal_string (txt "call_" ++ hex) name arguments)
                m)))
      (compacts : (cfg : CompactionConfig W fl.Float) (m : Manager fl.Float) (w : W)
        → P m
        → P (compact fl u cfg m w).1) where
    by_call_guard-keeps :
        (d : GuardDecision) (reason : Text) (rr : RouterResponse) (usage : Usage) (s : State fl W)
        → P s.manager
        → P (by_call_guard fl u out e d reason rr usage s).1.manager
    by_call_guard-keeps GuardDecision.tripwire reason rr usage s p = p
    by_call_guard-keeps deny reason rr usage s p =
        record_call-keeps fl u out e P adds pairs compacts rr _ s p
    by_call_guard-keeps allow reason rr usage s p = p

    guarded_call-keeps :
        (guards : Option (GuardRegistry W)) (rr : RouterResponse) (usage : Usage) (s : State fl W)
        → P s.manager
        → P (guarded_call fl u out e guards rr usage s).1.manager
    guarded_call-keeps none rr usage s p = p
    guarded_call-keeps (some guards) rr usage s p =
        let (gr, w) = run_tool_call out.cancelled guards rr.tool rr.arguments s.world in
        by_call_guard-keeps gr.decision gr.reason rr usage (record s { world = w }) p

    by_permission-keeps :
        (d : PermissionDecision) (rr : RouterResponse) (usage : Usage) (s : State fl W)
        → P s.manager
        → P (by_permission fl u out e d rr usage s).1.manager
    by_permission-keeps perm_denied rr usage s p =
        record_call-keeps fl u out e P adds pairs compacts rr _ s p
    by_permission-keeps perm_allowed rr usage s p = guarded_call-keeps e.guards rr usage s p
    by_permission-keeps perm_ask rr usage s p = guarded_call-keeps e.guards rr usage s p

    checked_access-keeps :
        (pc : Option (PermissionChecker W)) (t : Tool W) (rr : RouterResponse) (usage : Usage)
        (s : State fl W)
        → P s.manager
        → P (checked_access fl u out e pc t rr usage s).1.manager
    checked_access-keeps none t rr usage s p = guarded_call-keeps e.guards rr usage s p
    checked_access-keeps (some pc) t rr usage s p =
        let (decision, entry, w) = check_permission t.name rr.arguments t.is_read_only pc s.world in
        by_permission-keeps decision rr usage
          (record s { audit = s.audit ++ (entry ∷ []); world = w }) p

    execute_and_record-keeps :
        (t : Tool W) (rr : RouterResponse) (s : State fl W)
        → P s.manager
        → P (execute_and_record fl u out e t rr s).1.manager
    unfolding execute_and_record
    execute_and_record-keeps t rr s p = record_call-keeps fl u out e P adds pairs compacts rr _ _ p

    run_verification-keeps :
        (rr : RouterResponse) (content : Text) (usage : Usage) (s : State fl W)
        → P s.manager
        → P (run_verification fl u out e rr content usage s).1.manager
    unfolding run_verification text_eq txt
    run_verification-keeps rr content usage s p =
        let (vr, w) = run_all out.cancelled rr.tool rr.arguments content e.verifiers s.world in
        elim (Bool-cases vr.passed) [
          | inl passed ↦ simp passed p
          | inr not_passed ↦
              simp not_passed (
                add_message-keeps fl u out e P adds pairs compacts _ (record s { world = w }) refl
                  p)
        ]

    verified_or-keeps :
        (lr : LoopResult) (r : Option LoopResult × State fl W)
        → P r.1.manager
        → P (verified_or fl u out e lr r).1.manager
    verified_or-keeps lr (none, s) p = p
    verified_or-keeps lr (some failure, s) p = p

    after_execution-keeps :
        (usage : Usage) (rr : RouterResponse) (r : (Text × Text) × State fl W)
        → P r.1.manager
        → P (after_execution fl u out e usage rr r).1.manager
    after_execution-keeps usage rr ((content, reason), s) p =
        elim (Bool-cases (text_eq reason (txt "tool_use") && ltb 0 (length e.verifiers))) [
          | inl checked ↦ rw checked (
              verified_or-keeps _ (run_verification fl u out e rr content usage s)
                (run_verification-keeps rr content usage s p))
          | inr unchecked ↦ rw unchecked p
        ]

    if_passed-keeps :
        (t : Tool W) (rr : RouterResponse) (usage : Usage) (blocked : Option LoopResult)
        (s : State fl W)
        → P s.manager
        → P (if_passed fl u out e t rr usage blocked s).1.manager
    if_passed-keeps t rr usage (some lr) s p = p
    if_passed-keeps t rr usage none s p =
        after_execution-keeps usage rr (execute_and_record fl u out e t rr s)
          (execute_and_record-keeps t rr s p)

    with_tool-keeps :
        (found : Option (Tool W)) (rr : RouterResponse) (usage : Usage) (s : State fl W)
        → P s.manager
        → P (with_tool fl u out e found rr usage s).1.manager
    unfolding record_tool_not_found check_tool_access
    with_tool-keeps none rr usage s p = record_call-keeps fl u out e P adds pairs compacts rr _ s p
    with_tool-keeps (some t) rr usage s p =
        let (r, s') = checked_access fl u out e e.perm_checker t rr usage s in
        bind_keeps fl u out e P adds pairs compacts (λ b. Unit {0}) r
          (λ blocked. if_passed fl u out e t rr usage blocked) s' (Holds-any r)
          (checked_access-keeps e.perm_checker t rr usage s p)
          (λ blocked s'' q p'. if_passed-keeps t rr usage blocked s'' p')

    module _ (plain : AnswersPlain fl u out e)
        (delegate_step coordinate_step : RouterResponse → Usage → Exec (State fl W) LoopResult)
        (delegates : (rr : RouterResponse) (usage : Usage) (s : State fl W)
          → P s.manager
          → P (delegate_step rr usage s).1.manager)
        (coordinates : (rr : RouterResponse) (usage : Usage) (s : State fl W)
          → P s.manager
          → P (coordinate_step rr usage s).1.manager) where
      routed-keeps :
          (turn : ℕ) (rr : RouterResponse) (usage : Usage) (s : State fl W)
          → P s.manager
          → P (routed fl u out e delegate_step coordinate_step turn rr usage s).1.manager
      unfolding routed
      routed-keeps turn rr usage s p =
          let chat =
            chat_step_with_router_usage-keeps fl u out e P adds pairs compacts plain turn usage s
              p in
          elim (Bool-cases (text_eq rr.tool (txt "none"))) [
            | inl direct ↦ rw direct chat
            | inr chosen ↦
                elim (Bool-cases (text_eq rr.tool (txt "delegate_task") && e.delegate_enabled)) [
                  | inl delegated ↦ simp (chosen, delegated) (delegates rr usage s p)
                  | inr d ↦
                      elim (Bool-cases
                        (text_eq rr.tool (txt "coordinate_tasks") && e.coordinator_enabled)) [
                          | inl coordinated ↦
                              simp (chosen, d, coordinated) (coordinates rr usage s p)
                          | inr c ↦ elim (Bool-cases (tool_already_succeeded fl u e rr.tool s)) [
                            | inl before ↦ simp (chosen, d, c, before) chat
                            | inr first ↦
                                simp (chosen, d, c, first)
                                  (with_tool-keeps (get rr.tool e.registry) rr usage s p)
                          ]
                        ]
                ]
          ]

      tool_step-keeps :
          (turn : ℕ) (s : State fl W)
          → P s.manager
          → P (tool_step fl u out e delegate_step coordinate_step turn s).1.manager
      unfolding tool_step
      tool_step-keeps turn s p =
          let (r, s') = router_step fl u out e s in
          bind_keeps fl u out e P adds pairs compacts (λ x. Unit {0})
            (map_error (wrap (txt "tool step")) r)
            (λ (rr, usage). routed fl u out e delegate_step coordinate_step turn rr usage) s'
            (Holds-any (map_error (wrap (txt "tool step")) r))
            (router_step-keeps fl u out e P adds pairs compacts s p)
            (λ (rr, usage) s'' q p'. routed-keeps turn rr usage s'' p')

      after_compact-keeps :
          (before : ℕ) (r : CompactResult × Manager fl.Float × W) (s : State fl W)
          → P r.1
          → P (after_compact fl u out e delegate_step coordinate_step before r s).1.manager
      after_compact-keeps before (failed er, m, w) s p = p
      after_compact-keeps before (done, m, w) s p =
          rw
            (emit_context_status-manager fl u out e (txt "compacted") [] (before - token_count fl m)
              (record s { manager = m; world = w }))
            p

      compact_if-keeps :
          (cfg : Option (CompactionConfig W fl.Float)) (s : State fl W)
          → P s.manager
          → P (compact_if fl u out e delegate_step coordinate_step cfg s).1.manager
      compact_if-keeps none s p = p
      compact_if-keeps (some cfg) s p =
          elim (Bool-cases (fl.less (usage_ratio fl s.manager) s.manager.threshold)) [
            | inl below ↦ rw below p
            | inr reached ↦ rw reached (
                after_compact-keeps (token_count fl s.manager) (compact fl u cfg s.manager s.world)
                  s (compacts cfg s.manager s.world p))
          ]

      chosen_step-keeps :
          (is_empty : Bool) (turn : ℕ) (s : State fl W)
          → P s.manager
          → P
              ((if is_empty
                  then chat_step fl u out e turn
                  else tool_step fl u out e delegate_step coordinate_step turn)
                s).1.manager
      chosen_step-keeps true turn s p =
          chat_step-keeps fl u out e P adds pairs compacts plain turn s p
      chosen_step-keeps false turn s p = tool_step-keeps turn s p

      -- what holds of the manager before and after each of its changes holds after a step
      pub step_with_turn-keeps :
          (turn : ℕ) (s : State fl W)
          → P s.manager
          → P (step_with_turn fl u out e delegate_step coordinate_step turn s).1.manager
      unfolding step_with_turn maybe_compact
      step_with_turn-keeps turn s p =
          let (r, s') = compact_if fl u out e delegate_step coordinate_step e.compaction s in
          bind_keeps fl u out e P adds pairs compacts (λ x. Unit {0})
            (map_error (wrap (txt "compaction")) r) _ s'
            (Holds-any (map_error (wrap (txt "compaction")) r)) (compact_if-keeps e.compaction s p)
            (λ x s'' q p'. chosen_step-keeps (len e.registry == 0) turn s'' p')
