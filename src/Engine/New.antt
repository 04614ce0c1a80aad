-- ===== src/Engine/New.antt =====
-- New of internal/engine/engine.go, with the options of option.go; Fork is in the child module.
-- The skills that the loader found are a list of tools.
pub mod Fork
pub mod Laws
pub mod Counts
use agent_util.Common.{
  ℕ, ◌-◌, Bool, true, false, ◌||◌, Option, none, some, List, [], ◌∷◌, ◌++◌, map, Text, txt, text_eq,
  ltb, if◌then◌else◌, length, Map,
}
use agent_util.Common.Floats.{Floats}
use agent_util.Llm.Message.{ChatRequest, ChatResponse}
use agent_util.Context.Estimate.{Unicode}
use agent_util.Context.Compaction.{CompactionConfig}
use agent_util.Context.Manager.{new_manager, on_threshold, set_reserved}
use agent_util.Engine.Exec.{Result}
use agent_util.Engine.Guard.{Guard, GuardRegistry, has_guards}
use agent_util.Engine.Permission.{PermissionPolicy, PermissionChecker, Approval}
use agent_util.Engine.Prompt.{
  Section, PromptBuilder, scope_all, scope_router, new_prompt_builder, add_section,
  estimate_reserved_tokens,
}
use agent_util.Engine.Registry.{
  Tool, ToolScope, Registry, new_registry, register, register_all, registered_or, format_for_prompt,
  scoped_format_for_prompt,
}
use agent_util.Engine.RouterTexts.{delegate_tool_def, coordinator_tool_def, router_instructions}
use agent_util.Engine.State.{StreamEvent, StepEvent, ContextStatus, Judged, LoopType, Engine, State}
use agent_util.Engine.Verify.{Verifier}

pub record MemoryEntry : Type 0 where
  pub key : Text
  pub summary : Text
  pub path : Text

pub record EngineConfig (fl : Floats) (W : Type 0) : Type 0 where
  pub max_turns : ℕ
  pub system_prompt : Text
  pub tools : List (Tool W)
  pub token_limit : ℕ
  pub compaction : Option (CompactionConfig W fl.Float)
  pub delegate_enabled : Bool
  pub delegate_max_chars : ℕ
  pub work_dir : Text
  pub coordinator_enabled : Bool
  pub coordinate_max_chars : ℕ
  pub coordinator_max_parallelism : ℕ
  pub dynamic_sections : List (Section (Option (Map Text ℕ) × W))
  pub reminder_threshold : ℕ
  pub memory_entries : List MemoryEntry
  pub tool_scope : Option ToolScope
  pub max_step_retries : ℕ
  pub max_consecutive_failures : ℕ
  pub verifiers : List (Verifier W)
  pub permission_policy : Option PermissionPolicy
  pub user_approver : Option (Text → Text → W → Approval × W)
  pub guards : GuardRegistry W
  pub step_callback : Option (StepEvent fl.Float → W → W)
  pub streaming_enabled : Bool
  pub stream_callback : Option (Text → ℕ → W → W)
  pub context_status_callback : Option (ContextStatus fl.Float → W → W)
  pub skills : List (Tool W)
  pub router_completer : Option (ChatRequest → W → Result ChatResponse × W)
  pub goal_judge : Option (Text → ℕ → W → Judged × W)
  pub loop_type : LoopType

-- FormatForPrompt of a MemoryIndex; the dash is " — " in UTF-8
unfoldable pub memory_lines : List MemoryEntry → Text
memory_lines [] = []
memory_lines (m ∷ ms) =
    txt "- ["
    ++ (m.key
        ++ (txt "] "
            ++ (m.summary
                ++ ((0x20 ∷ 0xe2 ∷ 0x80 ∷ 0x94 ∷ 0x20 ∷ [])
                    ++ (m.path ++ (txt "\n" ++ memory_lines ms))))))

unfoldable pub format_memory : List MemoryEntry → Text
format_memory [] = []
format_memory (m ∷ ms) =
    txt "## Knowledge Index\n\n"
    ++ (memory_lines (m ∷ ms) ++ txt "\nTo read details, use read_file with the path.\n")

-- what a dynamic section reads: the counts of tool calls, and the world
abbrev View : Type 0 → Type 0
View W = Option (Map Text ℕ) × W

module _ (fl : Floats) (u : Unicode) {W : Type 0} (marshal_indent : Text → Option Text) where
  abbrev scoped_text : Option ToolScope → Registry W → View W → Text
  scoped_text none reg (calls, w) = format_for_prompt marshal_indent reg
  scoped_text (some scope) reg (calls, w) = scoped_format_for_prompt marshal_indent scope calls reg

  abbrev tools_text : EngineConfig fl W → Registry W → View W → Text
  tools_text cfg reg view =
      scoped_text cfg.tool_scope reg view
      ++ ((if cfg.delegate_enabled then delegate_tool_def else [])
          ++ (if cfg.coordinator_enabled then coordinator_tool_def else []))

  unfoldable pub add_sections :
      List (Section (View W)) → PromptBuilder (View W) → PromptBuilder (View W)
  add_sections [] pb = pb
  add_sections (sec ∷ secs) pb = add_sections secs (add_section sec pb)

  abbrev system_section : Text → List (Section (View W))
  system_section [] = []
  system_section (c ∷ cs) =
      record {
        key = txt "system";
        priority = 0;
        scope = scope_all;
        content = c ∷ cs;
        dynamic = none;
        required = true;
      }
      ∷ []

  abbrev memory_section : List MemoryEntry → List (Section (View W))
  memory_section [] = []
  memory_section (m ∷ ms) =
      record {
        key = txt "memory_index";
        priority = 20;
        scope = scope_router;
        content = [];
        dynamic = some (λ view. format_memory (m ∷ ms));
        required = false;
      }
      ∷ []

  -- initPromptBuilder
  unfoldable pub init_prompt_builder : EngineConfig fl W → Registry W → PromptBuilder (View W)
  init_prompt_builder cfg reg =
      let tools : Section (View W) = record {
        key = txt "tools";
        priority = 10;
        scope = scope_router;
        content = [];
        dynamic = some (tools_text cfg reg);
        required = false;
      } in
      let instructions : Section (View W) = record {
        key = txt "instructions";
        priority = 89;
        scope = scope_router;
        content = router_instructions;
        dynamic = none;
        required = true;
      } in
      add_sections
        (system_section cfg.system_prompt
          ++ (tools ∷ instructions ∷ (memory_section cfg.memory_entries ++ cfg.dynamic_sections)))
        new_prompt_builder

  abbrev name_if : Option (Registry W) → Text → List Text → List Text
  name_if none name names = names
  name_if (some r) name names = name ∷ names

  -- the skills that are registered, and their names
  unfoldable pub register_skills : List (Tool W) → Registry W → Registry W × List Text
  register_skills [] r = (r, [])
  register_skills (t ∷ ts) r =
      let (r', names) = register_skills ts (registered_or r (register t r)) in
      (r', name_if (register t r) t.name names)

  abbrev checker_of :
      Option PermissionPolicy
      → Option (Text → Text → W → Approval × W)
      → Option (PermissionChecker W)
  checker_of none approver = none
  checker_of (some policy) approver = some (record { policy = policy; approver = approver })

  module _ (completer : ChatRequest → W → Result ChatResponse × W)
      (streamer : Option (ChatRequest → W → Result (List StreamEvent) × W)) where
    abbrev pub with_registry :
        EngineConfig fl W → W → Option (Registry W) → Option (Engine fl W × State fl W)
    with_registry cfg w none = none
    with_registry cfg w (some tools) =
        let (reg, skill_names) = register_skills cfg.skills tools in
        let (reserved, builder) =
          estimate_reserved_tokens fl u (init_prompt_builder cfg reg) (none, w) in
        let manager = on_threshold fl 0 (new_manager fl cfg.token_limit none) in
        some (
          record {
            completer = completer;
            streamer = streamer;
            router_completer = cfg.router_completer;
            max_turns = cfg.max_turns;
            registry = reg;
            compaction = cfg.compaction;
            delegate_enabled = cfg.delegate_enabled;
            coordinator_enabled = cfg.coordinator_enabled;
            delegate_max_chars = cfg.delegate_max_chars;
            coordinate_max_chars = cfg.coordinate_max_chars;
            coordinator_max_parallelism = cfg.coordinator_max_parallelism;
            work_dir = cfg.work_dir;
            prompt_builder = builder;
            prompt_of = init_prompt_builder cfg;
            reminder_threshold = cfg.reminder_threshold;
            max_step_retries = cfg.max_step_retries;
            max_consecutive_failures = cfg.max_consecutive_failures;
            verifiers = cfg.verifiers;
            perm_checker = checker_of cfg.permission_policy cfg.user_approver;
            guards = if has_guards cfg.guards then some cfg.guards else none;
            step_callback = cfg.step_callback;
            streaming_enabled = cfg.streaming_enabled;
            stream_callback = cfg.stream_callback;
            context_status_callback = cfg.context_status_callback;
            skill_tool_names = skill_names;
            goal_judge = cfg.goal_judge;
            loop_type = cfg.loop_type;
          },
          record {
            manager = set_reserved fl reserved manager;
            tool_calls = none;
            audit = [];
            world = w;
          },
        )

    -- New: `none` is the error of a duplicate tool
    unfoldable pub new_engine : EngineConfig fl W → W → Option (Engine fl W × State fl W)
    new_engine cfg w = with_registry cfg w (register_all cfg.tools new_registry)
