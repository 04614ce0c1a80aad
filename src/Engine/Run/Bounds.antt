-- ===== src/Engine/Run/Bounds.antt =====
-- The number of turns of Run in internal/engine/engine.go.
use agent_util.Common.{
  ℕ, zero, suc, ◌+◌, ◌≤◌, inl, inr, Option, none, some, [], arith, Text, leb, Bool-cases,
}
use agent_util.Common.Floats.{Floats}
use agent_util.Context.Estimate.{Unicode}
use agent_util.Engine.Errors.{
  Error, ErrorClass, transient, user_fixable, llm_recoverable, fatal, classify_error,
}
use agent_util.Engine.Exec.{Result, ok, err, Exec}
use agent_util.Engine.Guard.{GuardDecision, allow, deny, GuardRegistry, run_input}
use agent_util.Engine.State.{
  ResultKind, continue, terminal, LoopResult, RunResult, Outside, Engine, State,
  emit_context_status,
}
use agent_util.Engine.Run.{
  is_failure_reason, Vars, after_success, by_class, by_kind, judged_step, woken, after_step,
  told_step, run_loop, admitted, guarded_input, run, start_run, start,
}

module _ (fl : Floats) (u : Unicode) {W : Type 0} (out : Outside W) (e : Engine fl W) where
  -- a result within the limit, or an error
  abbrev pub IsWithin : Result RunResult → Type 0
  IsWithin (ok r) = r.turns ≤ e.max_turns
  IsWithin (err er) = Unit {0}

  abbrev Rest : Type 0
  Rest = Vars → Exec (State fl W) RunResult

  abbrev AllWithin : Rest → Type 0
  AllWithin rest = (v : Vars) (s : State fl W) → IsWithin (rest v s).0

  woken-IsWithin :
      (v : Vars) (rest : Rest) (slept : Option Error × W) (s : State fl W)
      → AllWithin rest
      → IsWithin (woken fl u out e v rest slept s).0
  woken-IsWithin v rest (some er, w) s all = tt
  woken-IsWithin v rest (none, w) s all =
      all (record v { step_retries = suc v.step_retries }) (record s { world = w })

  by_class-IsWithin :
      (class : ErrorClass) (er : Error) (turn : ℕ) (v : Vars) (rest : Rest) (s : State fl W)
      → suc turn ≤ e.max_turns
      → AllWithin rest
      → IsWithin (by_class fl u out e class er turn v rest s).0
  unfolding by_class
  by_class-IsWithin transient er turn v rest s lt all =
      elim (Bool-cases (leb e.max_step_retries v.step_retries)) [
        | inl over ↦ rw over tt
        | inr below ↦
            rw below (woken-IsWithin v rest (out.sleep_backoff v.step_retries s.world) s all)
      ]
  by_class-IsWithin user_fixable er turn v rest s lt all = lt
  by_class-IsWithin llm_recoverable er turn v rest s lt all = tt
  by_class-IsWithin fatal er turn v rest s lt all = tt

  by_kind-IsWithin :
      (kind : ResultKind) (lr : LoopResult) (turn : ℕ) (v : Vars) (rest : Rest) (s : State fl W)
      → suc turn ≤ e.max_turns
      → AllWithin rest
      → IsWithin (by_kind fl u out e kind lr turn v rest s).0
  unfolding by_kind
  by_kind-IsWithin terminal lr turn v rest s lt all = lt
  by_kind-IsWithin continue lr turn v rest s lt all =
      elim (Bool-cases (is_failure_reason lr.reason)) [
        | inl failed ↦
            elim (Bool-cases (leb e.max_consecutive_failures (suc v.consecutive_failures))) [
              | inl over ↦ rw (failed, over) lt
              | inr below ↦
                  rw (failed, below)
                    (all (record v { consecutive_failures = suc v.consecutive_failures }) s)
            ]
        | inr fine ↦ rw fine (all (record v { consecutive_failures = 0 }) s)
      ]

  after_step-IsWithin :
      (r : Result LoopResult × State fl W) (turn : ℕ) (v : Vars) (rest : Rest)
      → suc turn ≤ e.max_turns
      → AllWithin rest
      → IsWithin (after_step fl u out e r turn v rest).0
  unfolding after_step
  after_step-IsWithin (err er, s) turn v rest lt all =
      by_class-IsWithin (classify_error er) er turn v rest s lt all
  after_step-IsWithin (ok lr, s) turn v rest lt all =
      let (lr', s') =
        judged_step fl u out e turn lr (told_step fl u out e e.step_callback turn lr s) in
      by_kind-IsWithin lr'.kind lr' turn (after_success lr v) rest s' lt all

  module _ (step : ℕ → Exec (State fl W) LoopResult) where
    run_loop-IsWithin :
        (left turn : ℕ) (v : Vars) (s : State fl W)
        → turn + left ≤ e.max_turns
        → IsWithin (run_loop fl u out e step left turn v s).0
    unfolding run_loop
    run_loop-IsWithin zero turn v s le = omega arith
    run_loop-IsWithin (suc left) turn v s le = elim (Bool-cases (out.cancelled s.world)) [
      | inl cancelled ↦ rw cancelled tt
      | inr running ↦ rw running (
          after_step-IsWithin (step (suc turn) (emit_context_status fl u e [] [] 0 s)) turn v
            (λ v' s'. run_loop fl u out e step left (suc turn) v' s') (omega arith)
            (λ v' s'. run_loop-IsWithin left (suc turn) v' s' (omega arith)))
    ]

    admitted-IsWithin :
        (d : GuardDecision) (reason input : Text) (s : State fl W)
        → IsWithin (admitted fl u out e step d reason input s).0
    admitted-IsWithin GuardDecision.tripwire reason input s = tt
    admitted-IsWithin deny reason input s = omega arith
    admitted-IsWithin allow reason input s =
        run_loop-IsWithin e.max_turns 0 start (start_run fl u out e step input s) (omega arith)

    guarded_input-IsWithin :
        (guards : Option (GuardRegistry W)) (input : Text) (s : State fl W)
        → IsWithin (guarded_input fl u out e step guards input s).0
    guarded_input-IsWithin none input s =
        run_loop-IsWithin e.max_turns 0 start (start_run fl u out e step input s) (omega arith)
    guarded_input-IsWithin (some guards) input s =
        let (gr, w) = run_input out.cancelled guards input s.world in
        admitted-IsWithin gr.decision gr.reason input (record s { world = w })

    -- Whatever a step does, a run ends, and a result that it returns reports at most as many
    -- turns as the engine's limit.
    pub run-IsWithin : (input : Text) (s : State fl W) → IsWithin (run fl u out e step input s).0
    unfolding run
    run-IsWithin input s = guarded_input-IsWithin e.guards input s
