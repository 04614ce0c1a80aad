-- ===== src/Rpc/Configure/Fields.antt =====
-- internal/rpc/configure.go: the fields of agent.configure that cannot fail.
use agent_util.Common.{
  Bool, true, false, Option, none, some, List, [], ◌∷◌, Text, txt, if◌then◌else◌, Map, insert,
  text_key,
}
use agent_util.Common.Floats.{Floats}
use agent_util.Engine.Options.{
  Opt, with_max_turns, with_system_prompt, with_token_limit, with_delegate_enabled,
  with_delegate_max_chars, with_coordinator_enabled, with_coordinate_max_chars, with_work_dir,
  with_dynamic_section, with_reminder_threshold, with_tool_scope, with_permission_policy,
  with_streaming, with_stream_callback, with_context_status_callback, with_loop_type,
  with_router_completer, with_goal_judge,
}
use agent_util.Engine.Permission.{PermissionRule}
use agent_util.Engine.Prompt.{scope_manual}
use agent_util.Engine.Registry.{ToolScope}
use agent_util.Engine.State.{Engine}
use agent_util.Protocol.Methods.{
  DelegateConfig, CoordinatorConfig, PermissionConfig, ToolScopeConfig, ReminderConfig,
  StreamingConfig, RouterConfig, AgentConfigureParams,
}
use agent_util.Rpc.Notifier.{stream_delta, context_status_with_event}
use agent_util.Rpc.Registry.{}
use agent_util.Rpc.Configure.{
  Wrapper, Draft, or_true, or_false, or_value, mark, add_opt, opt_if, field,
}

abbrev rules : List Text → List PermissionRule
rules [] = []
rules (name ∷ names) = record { tool_name = name; reason = [] } ∷ rules names

abbrev always : List Text → Map Text Bool → Map Text Bool
always [] m = m
always (name ∷ names) m = always names (insert name true m)

abbrev scope_of : ToolScopeConfig → ToolScope
scope_of c = record {
  max_tools = or_value 0 c.max_tools;
  include_always = always c.include_always [];
  tool_budget = c.tool_budget;
}

module _ (fl : Floats) {W : Type 0} where
  unfoldable pub set_delegate : Option DelegateConfig → Draft fl W → Draft fl W
  set_delegate none d = d
  set_delegate (some c) d = mark (txt "delegate") (
      opt_if (with_delegate_max_chars fl) c.max_chars
        (opt_if (with_delegate_enabled fl) c.enabled d))

  unfoldable pub set_coordinator : Option CoordinatorConfig → Draft fl W → Draft fl W
  set_coordinator none d = d
  set_coordinator (some c) d = mark (txt "coordinator") (
      opt_if (with_coordinate_max_chars fl) c.max_chars
        (opt_if (with_coordinator_enabled fl) c.enabled d))

  unfoldable pub set_permission : Option PermissionConfig → Draft fl W → Draft fl W
  set_permission none d = d
  set_permission (some c) d = mark (txt "permission") (
      if or_true c.enabled
      then add_opt
          (with_permission_policy fl
            (record { deny_rules = rules c.deny; allow_rules = rules c.allow }))
          d
      else d)

  unfoldable pub set_tool_scope : Option ToolScopeConfig → Draft fl W → Draft fl W
  set_tool_scope none d = d
  set_tool_scope (some c) d = mark (txt "tool_scope") (add_opt (with_tool_scope fl (scope_of c)) d)

  abbrev pub reminder_section : Text → Draft fl W → Draft fl W
  reminder_section [] d = d
  reminder_section (c ∷ cs) d =
      add_opt
        (with_dynamic_section fl (record {
          key = txt "reminder";
          priority = 90;
          scope = scope_manual;
          content = c ∷ cs;
          dynamic = none;
          required = false;
        }))
        d

  unfoldable pub set_reminder : Option ReminderConfig → Draft fl W → Draft fl W
  set_reminder none d = d
  set_reminder (some c) d =
      mark (txt "reminder")
        (reminder_section c.content (opt_if (with_reminder_threshold fl) c.threshold d))

  module _ (wrapper : Wrapper fl.Float W) where
    abbrev pub stream_if : Bool → Draft fl W → Draft fl W
    stream_if false d = add_opt (with_streaming fl false) d
    stream_if true d =
        add_opt (with_stream_callback fl (stream_delta wrapper.notify))
          (add_opt (with_streaming fl true) d)

    abbrev pub status_if : Bool → Draft fl W → Draft fl W
    status_if false d = d
    status_if true d =
        add_opt (with_context_status_callback fl (context_status_with_event wrapper.notify)) d

    unfoldable pub set_streaming : Option StreamingConfig → Draft fl W → Draft fl W
    set_streaming none d = d
    set_streaming (some c) d =
        mark (txt "streaming")
          (status_if (or_false c.context_status) (stream_if (or_false c.enabled) d))

    abbrev pub router_at : Text → RouterConfig → Draft fl W → Draft fl W
    router_at [] c d = d
    router_at (b ∷ bs) c d =
        mark (txt "router") (add_opt (with_router_completer fl (wrapper.new_client c)) d)

    unfoldable pub set_router : Option RouterConfig → Draft fl W → Draft fl W
    set_router none d = d
    set_router (some c) d = router_at c.endpoint c d

  -- the values of the previous engine where nothing is configured
  abbrev pub carry_if :
      {A B : Type 0} → (A → Opt fl W) → Option B → Option A → Draft fl W → Draft fl W
  carry_if o none previous d = opt_if o previous d
  carry_if o (some configured) previous d = d

  unfoldable pub carry_over : Engine fl W → AgentConfigureParams fl.Float → Draft fl W → Draft fl W
  carry_over prev p d =
      let routed = carry_if (with_router_completer fl) p.router prev.router_completer d in
      let judged = carry_if (with_goal_judge fl) p.judge prev.goal_judge routed in
      carry_if (with_loop_type fl) p.loop (some prev.loop_type) judged

  -- the fields that cannot fail, before those that can
  abbrev pub set_basics : AgentConfigureParams fl.Float → Draft fl W → Draft fl W
  set_basics p d = set_coordinator p.coordinator (
      set_delegate p.delegate (
        field (txt "work_dir") (with_work_dir fl) p.work_dir (
          field (txt "token_limit") (with_token_limit fl) p.token_limit (
            field (txt "system_prompt") (with_system_prompt fl) p.system_prompt
              (field (txt "max_turns") (with_max_turns fl) p.max_turns d)))))
