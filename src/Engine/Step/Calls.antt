-- ===== src/Engine/Step/Calls.antt =====
-- internal/engine/engine.go: the call of a tool, with checkToolAccess, executeAndRecord and
-- runVerification.
use agent_util.Common.{
  ℕ, ◌+◌, ◌&&◌, Option, none, some, [], ◌∷◌, ◌++◌, Text, txt, text_eq, ltb, if◌then◌else◌, length,
  Map, lookup, insert, text_key,
}
use agent_util.Common.Floats.{Floats}
use agent_util.Llm.Message.{Usage}
use agent_util.Context.Estimate.{Unicode}
use agent_util.Context.Manager.{}
use agent_util.Engine.Errors.{tripwire}
use agent_util.Engine.Exec.{Result, ok, err, Exec, ◌>>=◌}
use agent_util.Engine.Guard.{GuardDecision, allow, deny, GuardRegistry, run_tool_call}
use agent_util.Engine.Permission.{
  PermissionDecision, perm_denied, perm_allowed, perm_ask, PermissionChecker, check_permission,
}
use agent_util.Engine.Verify.{run_all}
use agent_util.Engine.Registry.{Tool, Executed, executed, broken, zero_if_missing}
use agent_util.Engine.State.{
  LoopResult, RouterResponse, Outside, Engine, State, user_message, tool_call_message,
  tool_result_message, add_message, available_tool_names,
}
use agent_util.Engine.Step.Parts.{with_world, going_on}

module _ (fl : Floats) (u : Unicode) {W : Type 0} (out : Outside W) (e : Engine fl W) where
  -- generateCallID
  unfoldable pub generate_call_id : State fl W → Text × State fl W
  generate_call_id s = let (hex, s') = with_world out.random_hex s in (txt "call_" ++ hex, s')

  -- a call and its result, under a new id
  unfoldable pub record_call : RouterResponse → Text → State fl W → State fl W
  record_call rr content s =
      let (call_id, s') = generate_call_id s in
      add_message fl u (tool_result_message call_id content)
        (add_message fl u (tool_call_message out.marshal_string call_id rr.tool rr.arguments) s')

  unfoldable pub record_tool_not_found :
      RouterResponse → Usage → State fl W → LoopResult × State fl W
  record_tool_not_found rr usage s = (
    going_on (txt "tool_not_found") usage,
    record_call rr
        (txt "Error: tool "
          ++ (out.quote rr.tool
              ++ (txt " not found. Available tools: " ++ available_tool_names fl u e)))
        s,
  )

  -- the answer of checkToolAccess: nothing, or a result that ends the step
  abbrev pub by_call_guard :
      GuardDecision → Text → RouterResponse → Usage → Exec (State fl W) (Option LoopResult)
  by_call_guard GuardDecision.tripwire reason rr usage s =
      (err (tripwire (txt "tool_call") reason), s)
  by_call_guard deny reason rr usage s = (
    ok (some (going_on (txt "guard_blocked") usage)),
    record_call rr (txt "Blocked by guard: " ++ reason) s,
  )
  by_call_guard allow reason rr usage s = (ok none, s)

  abbrev pub guarded_call :
      Option (GuardRegistry W) → RouterResponse → Usage → Exec (State fl W) (Option LoopResult)
  guarded_call none rr usage s = (ok none, s)
  guarded_call (some guards) rr usage s =
      let (gr, s') = with_world (run_tool_call out.cancelled guards rr.tool rr.arguments) s in
      by_call_guard gr.decision gr.reason rr usage s'

  abbrev pub by_permission :
      PermissionDecision → RouterResponse → Usage → Exec (State fl W) (Option LoopResult)
  by_permission perm_denied rr usage s = (
    ok (some (going_on (txt "permission_denied") usage)),
    record_call rr
        (txt "Permission denied: tool "
          ++ (out.quote rr.tool ++ txt " is not allowed by the current policy."))
        s,
  )
  by_permission perm_allowed rr usage s = guarded_call e.guards rr usage s
  by_permission perm_ask rr usage s = guarded_call e.guards rr usage s

  abbrev pub checked_access :
      Option (PermissionChecker W)
      → Tool W
      → RouterResponse
      → Usage
      → Exec (State fl W) (Option LoopResult)
  checked_access none t rr usage s = guarded_call e.guards rr usage s
  checked_access (some pc) t rr usage s =
      let (decision, entry, w) = check_permission t.name rr.arguments t.is_read_only pc s.world in
      by_permission decision rr usage (record s { audit = s.audit ++ (entry ∷ []); world = w })

  unfoldable pub check_tool_access :
      Tool W → RouterResponse → Usage → Exec (State fl W) (Option LoopResult)
  check_tool_access t rr usage = checked_access e.perm_checker t rr usage

  abbrev pub count_call : Text → Option (Map Text ℕ) → Option (Map Text ℕ)
  count_call name none = none
  count_call name (some calls) = some (insert name (zero_if_missing (lookup name calls) + 1) calls)

  -- the content and the reason of the three cases
  abbrev pub outcome : Text → Executed → Text × Text
  outcome name (broken er) =
      (txt "Error executing tool " ++ (out.quote name ++ (txt ": " ++ er)), txt "tool_error")
  outcome name (executed r) =
      if r.is_error
      then (txt "Error: " ++ r.content, txt "tool_error")
      else (r.content, txt "tool_use")

  unfoldable pub execute_and_record :
      Tool W → RouterResponse → State fl W → (Text × Text) × State fl W
  execute_and_record t rr s =
      let s1 = record s { tool_calls = count_call rr.tool s.tool_calls } in
      let (answer, s2) = with_world (t.execute e.work_dir rr.arguments) s1 in
      let (content, reason) = outcome rr.tool answer in
      ((content, reason), record_call rr content s2)

  unfoldable pub run_verification :
      RouterResponse → Text → Usage → State fl W → Option LoopResult × State fl W
  run_verification rr content usage s =
      let (vr, s') =
        with_world (run_all out.cancelled rr.tool rr.arguments content e.verifiers) s in
      if vr.passed then (none, s') else (
        some (going_on (txt "verify_failed") usage),
        add_message fl u
            (user_message (
              txt "[Verification Failed]\n"
              ++ (vr.summary ++ txt "\nPlease fix the issues and try again.")))
            s',
      )

  abbrev pub verified_or :
      LoopResult → Option LoopResult × State fl W → Result LoopResult × State fl W
  verified_or lr (none, s) = (ok lr, s)
  verified_or lr (some failure, s) = (ok failure, s)

  abbrev pub after_execution :
      Usage → RouterResponse → (Text × Text) × State fl W → Result LoopResult × State fl W
  after_execution usage rr ((content, reason), s) =
      if text_eq reason (txt "tool_use") && ltb 0 (length e.verifiers)
      then verified_or (going_on reason usage) (run_verification rr content usage s)
      else (ok (going_on reason usage), s)

  abbrev pub if_passed :
      Tool W → RouterResponse → Usage → Option LoopResult → Exec (State fl W) LoopResult
  if_passed t rr usage (some lr) s = (ok lr, s)
  if_passed t rr usage none s = after_execution usage rr (execute_and_record t rr s)

  abbrev pub with_tool : Option (Tool W) → RouterResponse → Usage → Exec (State fl W) LoopResult
  with_tool none rr usage s = let (lr, s') = record_tool_not_found rr usage s in (ok lr, s')
  with_tool (some t) rr usage s =
      (check_tool_access t rr usage >>= λ blocked. if_passed t rr usage blocked) s
