-- ===== src/Engine/Run.antt =====
-- Run of internal/engine/engine.go. The loop runs by the turns that are left; the step of a turn
-- is an argument. The session id, a hint for the completer's cache, is left out.
pub mod Bounds
pub mod Limits
pub mod Input
pub mod History
use agent_util.Common.{
  ℕ, zero, suc, ◌+◌, Bool, true, false, ◌&&◌, ◌||◌, Option, none, some, List, [], ◌∷◌, ◌++◌, Text,
  txt, text_eq, leb, if◌then◌else◌, decimal, Map,
}
use agent_util.Common.Floats.{Floats}
use agent_util.Llm.Message.{Usage, content_string, no_usage, add_usage}
use agent_util.Context.Estimate.{Unicode}
use agent_util.Context.Manager.{usage_ratio, token_count}
use agent_util.Engine.Errors.{
  Error, ErrorClass, transient, user_fixable, max_step_retries, tripwire, wrap, wrap_two,
  error_text, classify_error,
}
use agent_util.Engine.Exec.{Result, ok, err, Exec}
use agent_util.Engine.Guard.{GuardDecision, allow, deny, GuardRegistry, run_input}
use agent_util.Engine.State.{
  ResultKind, continue, terminal, LoopResult, RunResult, StepEvent, Judged, judged, judge_failed,
  Outside, Engine, State, user_message, add_message, emit_context_status,
}
use agent_util.Engine.Step.{going_on, with_world}

unfoldable pub is_failure_reason : Text → Bool
is_failure_reason reason =
    text_eq reason (txt "tool_error")
    || text_eq reason (txt "tool_not_found")
    || text_eq reason (txt "verify_failed")
    || text_eq reason (txt "permission_denied")
    || text_eq reason (txt "guard_blocked")

-- the variables of the loop
pub record Vars : Type 0 where
  pub total_usage : Usage
  pub step_retries : ℕ
  pub consecutive_failures : ℕ
  pub last_assistant_text : Text

abbrev pub start : Vars
start = record {
  total_usage = no_usage;
  step_retries = 0;
  consecutive_failures = 0;
  last_assistant_text = [];
}

abbrev pub result_of : Text → Text → Usage → ℕ → RunResult
result_of response reason usage turns = record {
  response = response;
  reason = reason;
  usage = usage;
  turns = turns;
}

abbrev pub turn_text : ℕ → Text
turn_text turn = txt "turn " ++ decimal turn

abbrev later_text : Text → Text → Text
later_text old [] = old
later_text old (c ∷ cs) = c ∷ cs

-- the variables after a step that succeeded
unfoldable pub after_success : LoopResult → Vars → Vars
after_success lr v = record v {
  total_usage = add_usage v.total_usage lr.usage;
  step_retries = 0;
  last_assistant_text = later_text v.last_assistant_text (content_string lr.message);
}

abbrev response_of : ResultKind → LoopResult → Text
response_of continue lr = []
response_of terminal lr = content_string lr.message

abbrev is_terminal : ResultKind → Bool
is_terminal continue = false
is_terminal terminal = true

abbrev reason_or : Text → LoopResult → LoopResult
reason_or [] lr = lr
reason_or (c ∷ cs) lr = record lr { reason = c ∷ cs }

-- the answer of the judge
unfoldable pub by_judge : Judged → LoopResult → LoopResult
by_judge (judge_failed er) lr = lr
by_judge (judged false reason) lr = going_on (txt "judge_continue") lr.usage
by_judge (judged true reason) lr = reason_or reason lr

module _ (fl : Floats) (u : Unicode) {W : Type 0} (out : Outside W) (e : Engine fl W) where
  abbrev step_event : ℕ → LoopResult → State fl W → StepEvent fl.Float
  step_event turn lr s = record {
    turn = suc turn;
    reason = lr.reason;
    usage_ratio = usage_ratio fl s.manager;
    token_count = token_count fl s.manager;
    token_limit = s.manager.token_limit;
    response = response_of lr.kind lr;
  }

  abbrev told_step : Option (StepEvent fl.Float → W → W) → ℕ → LoopResult → State fl W → State fl W
  told_step none turn lr s = s
  told_step (some callback) turn lr s = record s { world = callback (step_event turn lr s) s.world }

  abbrev ask_judge :
      Option (Text → ℕ → W → Judged × W) → ℕ → LoopResult → State fl W → LoopResult × State fl W
  ask_judge none turn lr s = (lr, s)
  ask_judge (some judge) turn lr s =
      let (answer, w) = judge (content_string lr.message) (suc turn) s.world in
      (by_judge answer lr, record s { world = w })

  unfoldable pub judged_step : ℕ → LoopResult → State fl W → LoopResult × State fl W
  judged_step turn lr s =
      if is_terminal lr.kind && text_eq lr.reason (txt "completed")
      then ask_judge e.goal_judge turn lr s
      else (lr, s)

  abbrev woken :
      Vars → (Vars → Exec (State fl W) RunResult) → Option Error × W → Exec (State fl W) RunResult
  woken v rest (some er, w) s = (err er, record s { world = w })
  woken v rest (none, w) s =
      rest (record v { step_retries = suc v.step_retries }) (record s { world = w })

  -- what the loop does with an error of a step, by its class
  unfoldable pub by_class :
      ErrorClass
      → Error
      → ℕ
      → Vars
      → (Vars → Exec (State fl W) RunResult)
      → Exec (State fl W) RunResult
  by_class transient er turn v rest s =
      if leb e.max_step_retries v.step_retries
      then (err (wrap_two (turn_text turn) max_step_retries er), s)
      else woken v rest (out.sleep_backoff v.step_retries s.world) s
  by_class user_fixable er turn v rest s = (
    ok (
        result_of (txt "User intervention required: " ++ error_text er) (txt "user_fixable")
          v.total_usage (suc turn)),
    s,
  )
  by_class _ er turn v rest s = (err (wrap (turn_text turn) er), s)

  -- the switch on the kind of a step's result
  unfoldable pub by_kind :
      ResultKind
      → LoopResult
      → ℕ
      → Vars
      → (Vars → Exec (State fl W) RunResult)
      → Exec (State fl W) RunResult
  by_kind terminal lr turn v rest s =
      (ok (result_of (content_string lr.message) lr.reason v.total_usage (suc turn)), s)
  by_kind continue lr turn v rest s =
      let failures = suc v.consecutive_failures in
      if is_failure_reason lr.reason
      then if leb e.max_consecutive_failures failures
        then (
          ok (
              result_of (txt "Stopped: " ++ (decimal failures ++ txt " consecutive failures"))
                (txt "max_consecutive_failures") v.total_usage (suc turn)),
          s,
        )
        else rest (record v { consecutive_failures = failures }) s
      else rest (record v { consecutive_failures = 0 }) s

  abbrev pub judged_kind :
      LoopResult × State fl W
      → ℕ
      → Vars
      → (Vars → Exec (State fl W) RunResult)
      → Result RunResult × State fl W
  judged_kind (lr, s) turn v rest = by_kind lr.kind lr turn v rest s

  unfoldable pub after_step :
      Result LoopResult × State fl W
      → ℕ
      → Vars
      → (Vars → Exec (State fl W) RunResult)
      → Result RunResult × State fl W
  after_step (err er, s) turn v rest = by_class (classify_error er) er turn v rest s
  after_step (ok lr, s) turn v rest =
      judged_kind (judged_step turn lr (told_step e.step_callback turn lr s)) turn
        (after_success lr v) rest

  abbrev pub partial_response : Text → Text
  partial_response [] =
      txt "Stopped after " ++ (decimal e.max_turns ++ txt " turns (max_turns reached)")
  partial_response (c ∷ cs) = c ∷ cs

  module _ (step : ℕ → Exec (State fl W) LoopResult) where
    unfoldable pub run_loop : ℕ → ℕ → Vars → Exec (State fl W) RunResult
    run_loop zero turn v s = (
      ok (
          result_of (partial_response v.last_assistant_text) (txt "max_turns") v.total_usage
            e.max_turns),
      s,
    )
    run_loop (suc left) turn v s =
        let rest = λ (v' : Vars) (s' : State fl W). run_loop left (suc turn) v' s' in
        let s1 = emit_context_status fl u e [] [] 0 s in
        if out.cancelled s.world
        then (err (out.context_error s.world), s)
        else after_step (step (suc turn) s1) turn v rest

    abbrev start_run : Text → State fl W → State fl W
    start_run input s =
        let s1 =
          emit_context_status fl u e (txt "user_added") (txt "user") 0
            (add_message fl u (user_message input) s) in
        record s1 { tool_calls = some [] }

    abbrev admitted : GuardDecision → Text → Text → Exec (State fl W) RunResult
    admitted GuardDecision.tripwire reason input s = (err (tripwire (txt "input") reason), s)
    admitted deny reason input s =
        (ok (result_of (txt "Input rejected: " ++ reason) (txt "input_denied") no_usage 0), s)
    admitted allow reason input s = run_loop e.max_turns 0 start (start_run input s)

    abbrev guarded_input : Option (GuardRegistry W) → Text → Exec (State fl W) RunResult
    guarded_input none input s = run_loop e.max_turns 0 start (start_run input s)
    guarded_input (some guards) input s =
        let (gr, s') = with_world (run_input out.cancelled guards input) s in
        admitted gr.decision gr.reason input s'

    -- Run
    unfoldable pub run : Text → Exec (State fl W) RunResult
    run input = guarded_input e.guards input
