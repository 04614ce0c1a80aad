-- ===== src/Engine/Delegate.antt =====
-- internal/engine/delegate.go and coordinator.go. The source runs the tasks of coordinate_tasks in
-- parallel, each with an engine of its own; the model runs them in order.
pub mod History
use agent_util.Common.{
  ℕ, suc, ◌+◌, ◌/◌, Bool, true, false, ◌&&◌, Option, none, some, List, [], ◌∷◌, ◌++◌, Text, txt,
  text_eq, ltb, ◌==◌, if◌then◌else◌, length, take, decimal,
}
use agent_util.Common.Floats.{Floats}
use agent_util.Llm.Message.{Usage}
use agent_util.Context.Estimate.{Unicode}
use agent_util.Engine.Errors.{Error, error_text}
use agent_util.Engine.Exec.{Result, ok, err, Exec}
use agent_util.Engine.State.{LoopResult, RunResult, RouterResponse, Outside, Engine, State}
use agent_util.Engine.New.Fork.{run_child}
use agent_util.Engine.Step.{going_on, with_world, record_call}

pub record DelegateArgs : Type 0 where
  pub task : Text
  pub context : Text
  pub mode : Text

pub record CoordinateTask : Type 0 where
  pub id : Text
  pub task : Text

pub record CoordinateResult : Type 0 where
  pub id : Text
  pub result : Result RunResult

-- a git worktree: its directory
pub record Worktrees (W : Type 0) : Type 0 where
  pub create : Text → W → Option Text × W
  pub cleanup : Text → W → W

pub record Delegation (W : Type 0) : Type 0 where
  pub unmarshal_delegate : Text → Result DelegateArgs
  pub unmarshal_coordinate : Text → Result (List CoordinateTask)
  pub worktrees : Worktrees W
  -- json.MarshalIndent of a raw message
  pub marshal_indent : Text → Option Text

unfoldable pub build_delegate_system_prompt : DelegateArgs → Text
build_delegate_system_prompt da =
    let prompt =
      txt "You are a focused assistant working on a specific subtask. "
      ++ txt "Complete the task thoroughly and provide a clear, concise result.\n" in
    if text_eq da.context []
    then prompt
    else prompt ++ (txt "\n## Context\n" ++ (da.context ++ txt "\n"))

-- content[:max] and a note, if there is a limit and the content is longer
unfoldable pub cut_content : Text → ℕ → Text → Text
cut_content lead max_chars content =
    if ltb 0 max_chars && ltb max_chars (length content)
    then take max_chars content
      ++ (lead
          ++ (txt "[... truncated, original: " ++ (decimal (length content) ++ txt " chars ...]")))
    else content

unfoldable pub condense_delegate_result : ℕ → RunResult → Text
condense_delegate_result max_chars r =
    txt "[Subtask result ("
    ++ (decimal r.turns
        ++ (txt " turns, "
            ++ (decimal r.usage.total_tokens
                ++ (txt " tokens)]\n" ++ cut_content (txt "\n\n") max_chars r.response))))

abbrev child_content : ℕ → Result RunResult → Text
child_content max_chars (ok r) = condense_delegate_result max_chars r
child_content max_chars (err er) = txt "Subtask failed: " ++ error_text er

abbrev task_part : ℕ → Text → Result RunResult → Text
task_part budget id (err er) =
    txt "\n--- Task " ++ (id ++ (txt ": FAILED ---\n" ++ (error_text er ++ txt "\n")))
task_part budget id (ok r) =
    txt "\n--- Task "
    ++ (id
        ++ (txt " ("
            ++ (decimal r.turns
                ++ (txt " turns, "
                    ++ (decimal r.usage.total_tokens
                        ++ (txt " tokens) ---\n"
                            ++ (cut_content (txt "\n") budget r.response ++ txt "\n")))))))

unfoldable pub task_parts : ℕ → List CoordinateResult → Text
task_parts budget [] = []
task_parts budget (r ∷ rs) = task_part budget r.id r.result ++ task_parts budget rs

unfoldable pub aggregate_results : ℕ → List CoordinateResult → Text
aggregate_results max_chars rs =
    let budget = if ltb 0 max_chars && ltb 0 (length rs) then max_chars / length rs else 0 in
    txt "[Coordinated results: "
    ++ (decimal (length rs) ++ (txt " tasks]\n" ++ task_parts budget rs))

module _ (fl : Floats) (u : Unicode) {W : Type 0} (out : Outside W) (e : Engine fl W)
    (d : Delegation W) where
  -- the call and its result under the name of the virtual tool
  abbrev record_as : Text → RouterResponse → Text → State fl W → State fl W
  record_as name rr content s = record_call fl u out e (record rr { tool = name }) content s

  abbrev reported :
      Text → Text → RouterResponse → Usage → Text → State fl W → Result LoopResult × State fl W
  reported name reason rr usage content s =
      (ok (going_on reason usage), record_as name rr content s)

  unfoldable pub run_delegate_child :
      Option Text → DelegateArgs → RouterResponse → Usage → Exec (State fl W) LoopResult
  run_delegate_child dir da rr usage s =
      let (r, s') =
        with_world
          (run_child fl u out d.marshal_indent e s.manager.token_limit
            (build_delegate_system_prompt da) dir da.task)
          s in
      reported (txt "delegate_task") (txt "delegate_task") rr usage
        (child_content e.delegate_max_chars r) s'

  abbrev cleaned : Text → Result LoopResult × State fl W → Result LoopResult × State fl W
  cleaned dir (r, s) = (r, record s { world = d.worktrees.cleanup dir s.world })

  abbrev in_worktree :
      Option Text → DelegateArgs → RouterResponse → Usage → Exec (State fl W) LoopResult
  in_worktree none da rr usage s =
      run_delegate_child none (record da { mode = txt "fork" }) rr usage s
  in_worktree (some dir) da rr usage s = cleaned dir (run_delegate_child (some dir) da rr usage s)

  unfoldable pub worktree_step :
      DelegateArgs → RouterResponse → Usage → Exec (State fl W) LoopResult
  worktree_step da rr usage s =
      let repo_dir = if text_eq e.work_dir [] then txt "." else e.work_dir in
      let (dir, s') = with_world (d.worktrees.create repo_dir) s in in_worktree dir da rr usage s'

  abbrev delegated : Result DelegateArgs → RouterResponse → Usage → Exec (State fl W) LoopResult
  delegated (err er) rr usage s =
      reported (txt "delegate_task") (txt "delegate_parse_error") rr usage
        (txt "Error: invalid arguments: " ++ error_text er) s
  delegated (ok da) rr usage s =
      if text_eq da.task []
      then reported (txt "delegate_task") (txt "delegate_parse_error") rr usage
          (txt "Error: task is required") s
      else if text_eq da.mode (txt "worktree")
      then worktree_step da rr usage s
      else run_delegate_child none da rr usage s

  unfoldable pub delegate_step : RouterResponse → Usage → Exec (State fl W) LoopResult
  delegate_step rr usage s = delegated (d.unmarshal_delegate rr.arguments) rr usage s

  -- runParallel
  unfoldable pub run_parallel : ℕ → List CoordinateTask → W → List CoordinateResult × W
  run_parallel token_limit [] w = ([], w)
  run_parallel token_limit (t ∷ ts) w =
      let da : DelegateArgs = record { task = t.task; context = []; mode = [] } in
      let (r, w1) =
        run_child fl u out d.marshal_indent e token_limit (build_delegate_system_prompt da) none
          t.task w in
      let (rs, w2) = run_parallel token_limit ts w1 in (record { id = t.id; result = r } ∷ rs, w2)

  abbrev coordinated :
      Result (List CoordinateTask) → RouterResponse → Usage → Exec (State fl W) LoopResult
  coordinated (err er) rr usage s =
      reported (txt "coordinate_tasks") (txt "coordinate_parse_error") rr usage
        (txt "Error: invalid arguments: " ++ error_text er) s
  coordinated (ok []) rr usage s =
      reported (txt "coordinate_tasks") (txt "coordinate_parse_error") rr usage
        (txt "Error: tasks array is required and must not be empty") s
  coordinated (ok (t ∷ ts)) rr usage s =
      let (rs, s') = with_world (run_parallel s.manager.token_limit (t ∷ ts)) s in
      reported (txt "coordinate_tasks") (txt "coordinate_tasks") rr usage
        (aggregate_results e.coordinate_max_chars rs) s'

  unfoldable pub coordinate_step : RouterResponse → Usage → Exec (State fl W) LoopResult
  coordinate_step rr usage s = coordinated (d.unmarshal_coordinate rr.arguments) rr usage s
