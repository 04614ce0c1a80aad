-- ===== src/Engine/State.antt =====
-- The Engine of internal/engine/engine.go: its configuration, the state that a run changes, and
-- the messages that it sends. `Outside` holds what the sources call and are not theirs: the
-- standard library, and the clock and the random numbers behind a step's backoff.
mod Types
mod Messages
unfoldable pub use Types.*
unfoldable pub use Messages.*
use agent_util.Common.{
  ℕ, zero, suc, Bool, true, false, ◌&&◌, ◌||◌, Option, none, some, List, [], ◌∷◌, ◌++◌, map,
  reverse, Text, txt, text_eq, ltb, ◌==◌, if◌then◌else◌, length, any_of, Map, has_prefix, not, join,
}
use agent_util.Common.Floats.{Floats}
use agent_util.Llm.Message.{
  Message, ToolCall, Usage, ChatRequest, ChatResponse, content_string, plain_message,
}
use agent_util.Llm.FixJson.Merge.{Json}
use agent_util.Context.Estimate.{Unicode}
use agent_util.Context.Compaction.{CompactionConfig}
use agent_util.Context.Manager.{Manager, add, messages, usage_ratio, token_count}
use agent_util.Engine.Errors.{Error}
use agent_util.Engine.Exec.{Result}
use agent_util.Engine.Guard.{GuardRegistry}
use agent_util.Engine.Permission.{PermissionChecker, AuditEntry}
use agent_util.Engine.Verify.{Verifier}
use agent_util.Engine.Registry.{Registry, Definition, definitions}
use agent_util.Engine.Prompt.{
  PromptBuilder, build_system_prompt, build_router_system_prompt, resolve,
}

module _ (fl : Floats) (u : Unicode) {W : Type 0} where
  unfoldable pub add_message : Message → State fl W → State fl W
  add_message m s = record s { manager = add fl u m s.manager }

module _ (fl : Floats) (u : Unicode) {W : Type 0} (e : Engine fl W) where
  abbrev pub view : State fl W → Option (Map Text ℕ) × W
  view s = (s.tool_calls, s.world)

  abbrev text_or_empty : Option Text → Text
  text_or_empty none = []
  text_or_empty (some text) = text

  unfoldable pub build_reminder : State fl W → ℕ → Text
  build_reminder s history_len =
      if e.reminder_threshold == 0
      then []
      else if ltb history_len e.reminder_threshold
      then []
      else text_or_empty (resolve (txt "reminder") e.prompt_builder (view s))

  abbrev system_part : Text → List Message
  system_part [] = []
  system_part (c ∷ cs) = system_message (c ∷ cs) ∷ []

  abbrev history_part : Text → List Message → List Message
  history_part [] history = history
  history_part (c ∷ cs) history =
      insert_message (find_last_user_index history)
        (user_message (txt "[System Reminder] " ++ (c ∷ cs))) history

  unfoldable pub build_messages : State fl W → List Message
  build_messages s =
      let history = messages fl s.manager in
      system_part (build_system_prompt e.prompt_builder (view s))
      ++ history_part (build_reminder s (length history)) history

  unfoldable pub build_router_messages : State fl W → List Message
  build_router_messages s =
      system_message (build_router_system_prompt e.prompt_builder (view s)) ∷ messages fl s.manager

  unfoldable pub tool_already_succeeded : Text → State fl W → Bool
  tool_already_succeeded name s =
      let newest_first = reverse (messages fl s.manager) in
      any_of (λ (known : Text). text_eq known name) e.skill_tool_names
      && any_success name (success_ids newest_first) newest_first

  unfoldable pub available_tool_names : Text
  available_tool_names = join (txt ", ") (map (λ (d : Definition). d.name) (definitions e.registry))

  abbrev pub notified :
      Option (ContextStatus fl.Float → W → W) → ContextStatus fl.Float → State fl W → State fl W
  notified none status s = s
  notified (some callback) status s = record s { world = callback status s.world }

  -- emitContextStatusWith
  unfoldable pub emit_context_status : Text → Text → ℕ → State fl W → State fl W
  emit_context_status event last_role delta s =
      notified e.context_status_callback
        (record {
          usage_ratio = usage_ratio fl s.manager;
          token_count = token_count fl s.manager;
          token_limit = s.manager.token_limit;
          event = event;
          last_role = last_role;
          compaction_delta = delta;
        })
        s
