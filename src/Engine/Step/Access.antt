-- ===== src/Engine/Step/Access.antt =====
-- checkToolAccess of internal/engine/engine.go before a tool runs.
use agent_util.Common.{◌≡◌, refl, Option, none, some, [], ◌∷◌, ◌++◌, Text}
use agent_util.Common.Floats.{Floats}
use agent_util.Llm.Message.{Usage}
use agent_util.Context.Estimate.{Unicode}
use agent_util.Engine.Exec.{Result, ok, err, bind_result}
use agent_util.Engine.Guard.{GuardDecision, allow, deny, GuardRegistry, run_tool_call}
use agent_util.Engine.Permission.{
  PermissionDecision, perm_denied, perm_allowed, perm_ask, PermissionChecker, AuditEntry,
  check_permission,
}
use agent_util.Engine.Permission.Laws.{AuditAgrees, check_permission_audited}
use agent_util.Engine.Registry.{Tool, Executed}
use agent_util.Engine.State.{LoopResult, RouterResponse, Outside, Engine, State, add_message}
use agent_util.Engine.Step.{
  with_tool, check_tool_access, checked_access, by_permission, guarded_call, by_call_guard,
  if_passed, record_call, generate_call_id,
}

module _ (fl : Floats) (u : Unicode) {W : Type 0} (out : Outside W) (e : Engine fl W) where
  -- the permission check and the guards let the call pass
  abbrev Permits : Option (PermissionChecker W) → Tool W → RouterResponse → W → Type 0
  Permits none t rr w = Unit {0}
  Permits (some pc) t rr w =
      (check_permission t.name rr.arguments t.is_read_only pc w).0 ≡ perm_allowed

  abbrev after_permission : Option (PermissionChecker W) → Tool W → RouterResponse → W → W
  after_permission none t rr w = w
  after_permission (some pc) t rr w = (check_permission t.name rr.arguments t.is_read_only pc w).2

  abbrev Guarded : Option (GuardRegistry W) → RouterResponse → W → Type 0
  Guarded none rr w = Unit {0}
  Guarded (some guards) rr w =
      (run_tool_call out.cancelled guards rr.tool rr.arguments w).0.decision ≡ allow

  -- the answer is that the tool may run, or the counts of calls are as they were
  abbrev Gate : Type 0 → State fl W → Result (Option LoopResult) × State fl W → Type 0
  Gate Free s (ok none, s') = Free × (s'.tool_calls ≡ s.tool_calls)
  Gate Free s (ok (some lr), s') = s'.tool_calls ≡ s.tool_calls
  Gate Free s (err er, s') = s'.tool_calls ≡ s.tool_calls

  record_call-tool_calls :
      (rr : RouterResponse) (content : Text) (s : State fl W)
      → (record_call fl u out e rr content s).tool_calls ≡ s.tool_calls
  unfolding record_call generate_call_id add_message
  record_call-tool_calls rr content s = refl

  by_call_guard-Gate :
      (d : GuardDecision) (reason : Text) (rr : RouterResponse) (usage : Usage) (s : State fl W)
      → Gate (d ≡ allow) s (by_call_guard fl u out e d reason rr usage s)
  by_call_guard-Gate GuardDecision.tripwire reason rr usage s = refl
  by_call_guard-Gate deny reason rr usage s = record_call-tool_calls rr _ s
  by_call_guard-Gate allow reason rr usage s = (refl, refl)

  guarded_call-Gate :
      (guards : Option (GuardRegistry W)) (rr : RouterResponse) (usage : Usage) (s : State fl W)
      → Gate (Guarded guards rr s.world) s (guarded_call fl u out e guards rr usage s)
  guarded_call-Gate none rr usage s = (tt, refl)
  guarded_call-Gate (some guards) rr usage s =
      let (gr, w) = run_tool_call out.cancelled guards rr.tool rr.arguments s.world in
      by_call_guard-Gate gr.decision gr.reason rr usage (record s { world = w })

  by_permission-Gate :
      (d : PermissionDecision) (rr : RouterResponse) (usage : Usage) (s : State fl W)
      → (d ≡ perm_ask → ⊥)
      → Gate
          ((d ≡ perm_allowed) × Guarded e.guards rr s.world)
          s
          (by_permission fl u out e d rr usage s)
  by_permission-Gate perm_denied rr usage s n = record_call-tool_calls rr _ s
  by_permission-Gate perm_ask rr usage s n = absurd (n refl)
  by_permission-Gate perm_allowed rr usage s n =
      both (guarded_call fl u out e e.guards rr usage s) (guarded_call-Gate e.guards rr usage s)
    where
      both :
          (r : Result (Option LoopResult) × State fl W)
          → Gate (Guarded e.guards rr s.world) s r
          → Gate ((perm_allowed ≡ perm_allowed) × Guarded e.guards rr s.world) s r
      both (ok none, s') (g, same) = ((refl, g), same)
      both (ok (some lr), s') g = g
      both (err er, s') g = g

  never_ask :
      (t : Tool W) (rr : RouterResponse) (pc : PermissionChecker W) (w : W)
      (r : PermissionDecision × AuditEntry × W)
      → AuditAgrees t.name rr.arguments t.is_read_only pc w r
      → r.0 ≡ perm_ask
      → ⊥
  never_ask t rr pc w (perm_ask, entry, w') h p = h
  never_ask t rr pc w (perm_allowed, entry, w') h p = cc
  never_ask t rr pc w (perm_denied, entry, w') h p = cc

  checked_access-Gate :
      (pc : Option (PermissionChecker W)) (t : Tool W) (rr : RouterResponse) (usage : Usage)
      (s : State fl W)
      → Gate
          (Permits pc t rr s.world × Guarded e.guards rr (after_permission pc t rr s.world))
          s
          (checked_access fl u out e pc t rr usage s)
  checked_access-Gate none t rr usage s =
      no_checker (guarded_call fl u out e e.guards rr usage s)
        (guarded_call-Gate e.guards rr usage s)
    where
      no_checker :
          (r : Result (Option LoopResult) × State fl W)
          → Gate (Guarded e.guards rr s.world) s r
          → Gate (Unit {0} × Guarded e.guards rr s.world) s r
      no_checker (ok none, s') (g, same) = ((tt, g), same)
      no_checker (ok (some lr), s') g = g
      no_checker (err er, s') g = g
  checked_access-Gate (some pc) t rr usage s =
      let checked = check_permission t.name rr.arguments t.is_read_only pc s.world in
      by_permission-Gate checked.0 rr usage
        (record s { audit = s.audit ++ (checked.1 ∷ []); world = checked.2 })
        (never_ask t rr pc s.world checked
          (check_permission_audited t.name rr.arguments t.is_read_only pc s.world))

  blocked_call :
      (t : Tool W) (rr : RouterResponse) (usage : Usage) (s : State fl W)
      (f : Text → Text → W → Executed × W) (Free : Type 0)
      (r : Result (Option LoopResult) × State fl W)
      → (Free → ⊥)
      → Gate Free s r
      → ((bind_result r.0 (λ blocked. if_passed fl u out e t rr usage blocked) r.1).1.tool_calls
          ≡ s.tool_calls)
        × (bind_result r.0
              (λ blocked. if_passed fl u out e (record t { execute = f }) rr usage blocked)
              r.1
            ≡ bind_result r.0 (λ blocked. if_passed fl u out e t rr usage blocked) r.1)
  blocked_call t rr usage s f Free (ok none, s') n (free, same) = absurd (n free)
  blocked_call t rr usage s f Free (ok (some lr), s') n same = (same, refl)
  blocked_call t rr usage s f Free (err er, s') n same = (same, refl)

  same_access :
      (pc : Option (PermissionChecker W)) (t : Tool W) (rr : RouterResponse) (usage : Usage)
      (s : State fl W) (f : Text → Text → W → Executed × W)
      → checked_access fl u out e pc (record t { execute = f }) rr usage s
        ≡ checked_access fl u out e pc t rr usage s
  same_access none t rr usage s f = refl
  same_access (some pc) t rr usage s f = refl

  -- A call of a registered tool that the permission checker does not allow, or that the guards for
  -- tool calls do not let pass, is not counted, and its outcome is the same whatever the tool would
  -- do: the tool is not run.
  pub with_tool-blocked :
      (t : Tool W) (rr : RouterResponse) (usage : Usage) (s : State fl W)
      (f : Text → Text → W → Executed × W)
      → (Permits e.perm_checker t rr s.world
            × Guarded e.guards rr (after_permission e.perm_checker t rr s.world)
          → ⊥)
      → ((with_tool fl u out e (some t) rr usage s).1.tool_calls ≡ s.tool_calls)
        × (with_tool fl u out e (some (record t { execute = f })) rr usage s
            ≡ with_tool fl u out e (some t) rr usage s)
  unfolding check_tool_access
  with_tool-blocked t rr usage s f n =
      let (uncounted, same) =
        blocked_call t rr usage s f _ (checked_access fl u out e e.perm_checker t rr usage s) n
          (checked_access-Gate e.perm_checker t rr usage s) in
      (uncounted, rw (same_access e.perm_checker t rr usage s f) same)
