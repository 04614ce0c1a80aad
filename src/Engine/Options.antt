-- ===== src/Engine/Options.antt =====
-- internal/engine/option.go: an option is what it makes of a configuration. The writers of logs are
-- not modelled.
use agent_util.Common.{
  ℕ, Bool, true, false, Option, none, some, List, [], ◌∷◌, ◌++◌, Text, txt, Map,
}
use agent_util.Common.Floats.{Floats}
use agent_util.Llm.Message.{ChatRequest, ChatResponse}
use agent_util.Context.Compaction.{CompactionConfig}
use agent_util.Engine.Exec.{Result}
use agent_util.Engine.Guard.{Guard, new_guard_registry, add_input, add_tool_call, add_output}
use agent_util.Engine.New.{EngineConfig, MemoryEntry}
use agent_util.Engine.Permission.{PermissionPolicy, Approval}
use agent_util.Engine.Prompt.{Section}
use agent_util.Engine.Registry.{Tool, ToolScope}
use agent_util.Engine.State.{LoopType, react, StepEvent, ContextStatus, Judged}
use agent_util.Engine.Verify.{Verifier}

abbrev pub Opt : Floats → Type 0 → Type 0
Opt fl W = EngineConfig fl W → EngineConfig fl W

module _ (fl : Floats) {W : Type 0} where
  -- defaultEngineConfig
  abbrev pub default_engine_config : EngineConfig fl W
  default_engine_config = record {
    max_turns = 10;
    system_prompt = txt "You are a helpful assistant.";
    tools = [];
    token_limit = 8192;
    compaction = none;
    delegate_enabled = true;
    delegate_max_chars = 1500;
    work_dir = [];
    coordinator_enabled = true;
    coordinate_max_chars = 3000;
    coordinator_max_parallelism = 10;
    dynamic_sections = [];
    reminder_threshold = 8;
    memory_entries = [];
    tool_scope = none;
    max_step_retries = 2;
    max_consecutive_failures = 3;
    verifiers = [];
    permission_policy = none;
    user_approver = none;
    guards = new_guard_registry;
    step_callback = none;
    streaming_enabled = false;
    stream_callback = none;
    context_status_callback = none;
    skills = [];
    router_completer = none;
    goal_judge = none;
    loop_type = react;
  }

  abbrev pub with_max_turns : ℕ → Opt fl W
  with_max_turns n c = record c { max_turns = n }

  abbrev pub with_system_prompt : Text → Opt fl W
  with_system_prompt prompt c = record c { system_prompt = prompt }

  abbrev pub with_tools : List (Tool W) → Opt fl W
  with_tools tools c = record c { tools = c.tools ++ tools }

  abbrev pub with_token_limit : ℕ → Opt fl W
  with_token_limit n c = record c { token_limit = n }

  abbrev pub with_compaction : CompactionConfig W fl.Float → Opt fl W
  with_compaction cfg c = record c { compaction = some cfg }

  abbrev pub with_delegate_enabled : Bool → Opt fl W
  with_delegate_enabled enabled c = record c { delegate_enabled = enabled }

  abbrev pub with_delegate_max_chars : ℕ → Opt fl W
  with_delegate_max_chars n c = record c { delegate_max_chars = n }

  abbrev pub with_coordinator_enabled : Bool → Opt fl W
  with_coordinator_enabled enabled c = record c { coordinator_enabled = enabled }

  abbrev pub with_coordinate_max_chars : ℕ → Opt fl W
  with_coordinate_max_chars n c = record c { coordinate_max_chars = n }

  abbrev pub with_coordinator_max_parallelism : ℕ → Opt fl W
  with_coordinator_max_parallelism n c = record c { coordinator_max_parallelism = n }

  abbrev pub with_work_dir : Text → Opt fl W
  with_work_dir dir c = record c { work_dir = dir }

  abbrev pub with_dynamic_section : Section (Option (Map Text ℕ) × W) → Opt fl W
  with_dynamic_section s c = record c { dynamic_sections = c.dynamic_sections ++ (s ∷ []) }

  abbrev pub with_reminder_threshold : ℕ → Opt fl W
  with_reminder_threshold n c = record c { reminder_threshold = n }

  abbrev pub with_memory_entries : List MemoryEntry → Opt fl W
  with_memory_entries entries c = record c { memory_entries = c.memory_entries ++ entries }

  abbrev pub with_tool_scope : ToolScope → Opt fl W
  with_tool_scope scope c = record c { tool_scope = some scope }

  abbrev pub with_max_step_retries : ℕ → Opt fl W
  with_max_step_retries n c = record c { max_step_retries = n }

  abbrev pub with_max_consecutive_failures : ℕ → Opt fl W
  with_max_consecutive_failures n c = record c { max_consecutive_failures = n }

  abbrev pub with_verifiers : List (Verifier W) → Opt fl W
  with_verifiers vs c = record c { verifiers = c.verifiers ++ vs }

  abbrev pub with_permission_policy : PermissionPolicy → Opt fl W
  with_permission_policy policy c = record c { permission_policy = some policy }

  abbrev pub with_user_approver : Option (Text → Text → W → Approval × W) → Opt fl W
  with_user_approver approver c = record c { user_approver = approver }

  -- the variadic options of guards, with one guard
  abbrev pub with_input_guard : Guard W Text → Opt fl W
  with_input_guard g c = record c { guards = add_input g c.guards }

  abbrev pub with_tool_call_guard : Guard W (Text × Text) → Opt fl W
  with_tool_call_guard g c = record c { guards = add_tool_call g c.guards }

  abbrev pub with_output_guard : Guard W Text → Opt fl W
  with_output_guard g c = record c { guards = add_output g c.guards }

  abbrev pub with_step_callback : (StepEvent fl.Float → W → W) → Opt fl W
  with_step_callback cb c = record c { step_callback = some cb }

  abbrev pub with_streaming : Bool → Opt fl W
  with_streaming enabled c = record c { streaming_enabled = enabled }

  abbrev pub with_stream_callback : (Text → ℕ → W → W) → Opt fl W
  with_stream_callback cb c = record c { stream_callback = some cb }

  abbrev pub with_context_status_callback : (ContextStatus fl.Float → W → W) → Opt fl W
  with_context_status_callback cb c = record c { context_status_callback = some cb }

  -- the skills that the loader finds in the directories
  abbrev pub with_skills : List (Tool W) → Opt fl W
  with_skills skills c = record c { skills = c.skills ++ skills }

  abbrev pub with_loop_type : LoopType → Opt fl W
  with_loop_type t c = record c { loop_type = t }

  abbrev pub with_router_completer : (ChatRequest → W → Result ChatResponse × W) → Opt fl W
  with_router_completer completer c = record c { router_completer = some completer }

  abbrev pub with_goal_judge : (Text → ℕ → W → Judged × W) → Opt fl W
  with_goal_judge j c = record c { goal_judge = some j }
