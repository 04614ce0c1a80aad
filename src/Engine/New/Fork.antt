-- ===== src/Engine/New/Fork.antt =====
-- Fork of internal/engine/engine.go, and the run of a child engine. A panic of mustNew, which would
-- end the program, is an error of the run here. The audit log of a child is its own.
pub mod Laws
use agent_util.Common.{ℕ, Bool, true, false, Option, none, some, List, [], ◌∷◌, Text, txt}
use agent_util.Common.Floats.{Floats}
use agent_util.Llm.Message.{Usage}
use agent_util.Context.Estimate.{Unicode}
use agent_util.Engine.Errors.{Error, other}
use agent_util.Engine.Exec.{Result, ok, err, Exec}
use agent_util.Engine.Guard.{GuardRegistry, new_guard_registry}
use agent_util.Engine.Permission.{PermissionPolicy, PermissionChecker}
use agent_util.Engine.Registry.{registered_tools}
use agent_util.Engine.New.{EngineConfig, new_engine}
use agent_util.Engine.State.{LoopResult, RunResult, RouterResponse, Outside, Engine, State}
use agent_util.Engine.Step.{step_with_turn}
use agent_util.Engine.Run.{run}

abbrev policy_of : {W : Type 0} → Option (PermissionChecker W) → Option PermissionPolicy
policy_of none = none
policy_of (some pc) = some pc.policy

abbrev guards_of : {W : Type 0} → Option (GuardRegistry W) → GuardRegistry W
guards_of none = new_guard_registry
guards_of (some guards) = guards

abbrev dir_or : Text → Option Text → Text
dir_or work_dir none = work_dir
dir_or work_dir (some dir) = dir

module _ (fl : Floats) (u : Unicode) {W : Type 0} (out : Outside W)
    (marshal_indent : Text → Option Text) (e : Engine fl W) where
  -- the options that Fork passes to New, with a system prompt and a directory of the caller
  unfoldable pub fork_config : ℕ → Text → Option Text → EngineConfig fl W
  fork_config token_limit prompt dir = record {
    max_turns = e.max_turns;
    system_prompt = prompt;
    tools = registered_tools e.registry;
    token_limit = token_limit;
    compaction = e.compaction;
    delegate_enabled = false;
    delegate_max_chars = e.delegate_max_chars;
    work_dir = dir_or e.work_dir dir;
    coordinator_enabled = false;
    coordinate_max_chars = e.coordinate_max_chars;
    coordinator_max_parallelism = e.coordinator_max_parallelism;
    dynamic_sections = [];
    reminder_threshold = 8;
    memory_entries = [];
    tool_scope = none;
    max_step_retries = e.max_step_retries;
    max_consecutive_failures = e.max_consecutive_failures;
    verifiers = e.verifiers;
    permission_policy = policy_of e.perm_checker;
    user_approver = none;
    guards = guards_of e.guards;
    step_callback = none;
    streaming_enabled = false;
    stream_callback = none;
    context_status_callback = none;
    skills = [];
    router_completer = e.router_completer;
    goal_judge = e.goal_judge;
    loop_type = e.loop_type;
  }

  abbrev with_skills : Option (Engine fl W × State fl W) → Option (Engine fl W × State fl W)
  with_skills none = none
  with_skills (some (child, s)) = some (record child { skill_tool_names = e.skill_tool_names }, s)

  -- Fork
  unfoldable pub fork : ℕ → Text → Option Text → W → Option (Engine fl W × State fl W)
  fork token_limit prompt dir w =
      with_skills (
        new_engine fl u marshal_indent e.completer e.streamer (fork_config token_limit prompt dir)
          w)

  -- the virtual tools of a child, which are switched off
  abbrev pub switched_off : RouterResponse → Usage → Exec (State fl W) LoopResult
  switched_off rr usage s = (err (other []), s)

  abbrev child_runs : Text → W → Option (Engine fl W × State fl W) → Result RunResult × W
  child_runs task w none = (err (other (txt "engine: internal error in Fork/Session")), w)
  child_runs task w (some (child, s)) =
      let (r, s') =
        run fl u out child (step_with_turn fl u out child switched_off switched_off) task s in
      (r, s'.world)

  -- Fork and Run
  unfoldable pub run_child : ℕ → Text → Option Text → Text → W → Result RunResult × W
  run_child token_limit prompt dir task w = child_runs task w (fork token_limit prompt dir w)
