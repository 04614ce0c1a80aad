-- ===== src/Rpc/Configure.antt =====
-- internal/rpc/configure.go: the draft that rebuildEngine fills, a list of options for the
-- configuration so far. The notifier, the server and the remote registry are not nil.
pub mod Fields
pub mod Names
pub mod Rebuild
pub mod Tools
pub mod Laws
use agent_util.Common.{
  ℕ, zero, suc, ◌-◌, Bool, true, false, ◌||◌, Option, none, some, List, [], ◌∷◌, ◌++◌, Text, txt,
  text_eq, ltb, if◌then◌else◌, length, Map, insert, text_key,
}
use agent_util.Common.Floats.{Floats}
use agent_util.Llm.Message.{Message, ChatRequest, ChatResponse}
use agent_util.Context.Compaction.{CompactionConfig}
use agent_util.Context.Estimate.{Unicode}
use agent_util.Context.Manager.{messages}
use agent_util.Engine.Builtin
use agent_util.Engine.Builtin.{Std, llm_summarizer}
use agent_util.Engine.Errors.{Error, wrap, other}
use agent_util.Engine.Exec.{Result, ok, err, map_error}
use agent_util.Engine.Guard.{Guard}
use agent_util.Engine.Judge.{loop_type_from_string, build_builtin_goal_judge}
use agent_util.Engine.New.{EngineConfig, new_engine}
use agent_util.Engine.Options.{
  Opt, default_engine_config, with_max_turns, with_system_prompt, with_tools, with_token_limit,
  with_compaction, with_delegate_enabled, with_delegate_max_chars, with_coordinator_enabled,
  with_coordinate_max_chars, with_work_dir, with_dynamic_section, with_reminder_threshold,
  with_tool_scope, with_max_step_retries, with_max_consecutive_failures, with_verifiers,
  with_permission_policy, with_input_guard, with_tool_call_guard, with_output_guard, with_streaming,
  with_stream_callback, with_context_status_callback, with_loop_type, with_router_completer,
  with_goal_judge,
}
use agent_util.Engine.Permission.{PermissionRule}
use agent_util.Engine.Prompt.{scope_manual}
use agent_util.Engine.Registry.{ToolScope, registered_tools}
use agent_util.Engine.State.{
  LoopType, StreamEvent, ContextStatus, Judged, Engine, State, add_message,
}
use agent_util.Engine.Verify.{Verifier}
use agent_util.Protocol.Methods.{
  DelegateConfig, CoordinatorConfig, CompactionParams, PermissionConfig, GuardsConfig, VerifyConfig,
  ToolScopeConfig, ReminderConfig, StreamingConfig, LoopConfig, RouterConfig, JudgeConfig,
  LlmConfig, AgentConfigureParams,
}
use agent_util.Rpc.Notifier.{Notification, stream_delta, context_status_with_event}
use agent_util.Rpc.Registry.{
  RemoteRegistry, lookup_input_guard, lookup_tool_call_guard, lookup_output_guard, lookup_verifier,
  lookup_goal_judge,
}

-- what the server gives: its notifications, a RemoteCompleter with a timeout in seconds, and the
-- client of an endpoint
pub record Wrapper (Float W : Type 0) : Type 0 where
  pub notify : Text → Notification Float → W → W
  pub new_remote_completer : ℕ → ChatRequest → W → Result ChatResponse × W
  pub new_client : RouterConfig → ChatRequest → W → Result ChatResponse × W

pub record Draft (fl : Floats) (W : Type 0) : Type 0 where
  pub config : EngineConfig fl W
  pub applied : List Text

abbrev pub or_true : Option Bool → Bool
or_true none = true
or_true (some b) = b

abbrev pub or_false : Option Bool → Bool
or_false none = false
or_false (some b) = b

module _ {A : Type 0} where
  abbrev pub or_value : A → Option A → A
  or_value a none = a
  or_value a (some b) = b

module _ {A B : Type 0} where
  infixl 10 ◌>>=◌
  abbrev pub ◌>>=◌ : Result A → (A → Result B) → Result B
  ok a >>= f = f a
  err e >>= f = err e

module _ {fl : Floats} {W : Type 0} where
  -- applied = append(applied, name)
  abbrev pub mark : Text → Draft fl W → Draft fl W
  mark name d = record d { applied = d.applied ++ (name ∷ []) }

  -- opts = append(opts, o)
  abbrev pub add_opt : Opt fl W → Draft fl W → Draft fl W
  add_opt o d = record d { config = o d.config }

  -- the option of a field that may be absent
  abbrev pub opt_if : {A : Type 0} → (A → Opt fl W) → Option A → Draft fl W → Draft fl W
  opt_if o none d = d
  opt_if o (some a) d = add_opt (o a) d

  abbrev pub field : {A : Type 0} → Text → (A → Opt fl W) → Option A → Draft fl W → Draft fl W
  field name o none d = d
  field name o (some a) d = mark name (add_opt (o a) d)
