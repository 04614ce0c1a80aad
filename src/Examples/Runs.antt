-- ===== src/Examples/Runs.antt =====
-- Properties of whole runs with a concrete engine.
use agent_util.Common.{ℕ, ◌<◌, ◌≤◌, ◌≡◌, refl, true, none, some, [], ◌∷◌, txt, text_eq, arith}
use agent_util.Llm.Message.{no_usage}
use agent_util.Context.Compaction.Boundary.{paired_from}
use agent_util.Context.Manager.{new_manager}
use agent_util.Context.Manager.Invariant.{IsConsistent, new_manager-IsConsistent}
use agent_util.Context.Manager.Pairing.{HoldsPairs}
use agent_util.Engine.Errors.{
  Error, transient, router_parse, empty_response, wrap_two, max_step_retries, classify_error,
  is_canceled, is_tripwire, is_router_parse,
}
use agent_util.Engine.Exec.{Result, ok, err, Exec}
use agent_util.Engine.Guard.{GuardRegistry, run_input}
use agent_util.Engine.Guard.Laws.{Passing}
use agent_util.Engine.State.{LoopResult, RunResult, Engine, State}
use agent_util.Engine.Step.{going_on}
use agent_util.Engine.Step.History.{AnswersPlain}
use agent_util.Engine.Run.{
  run, run_loop, start, result_of, partial_response, turn_text, is_failure_reason,
}
use agent_util.Engine.Run.Bounds.{IsWithin, run-IsWithin}
use agent_util.Engine.Run.Input.{IsRefused, run-IsRefused}
use agent_util.Engine.Run.Limits.{run_loop-transient, run_loop-failures}
use agent_util.Engine.History.{full_step, run-HoldsPairs, run-IsConsistent}
use agent_util.Engine.New.Fork.{fork}
use agent_util.Engine.New.Fork.Laws.{IsSafe, fork-IsSafe}
use agent_util.Examples.Setting.{
  shell, reader, fixed_point, latin, surroundings, engine, delegation, fresh, refusing,
}

abbrev one_run : Result RunResult × State fixed_point ℕ
one_run =
    run fixed_point latin surroundings engine
      (full_step fixed_point latin surroundings engine delegation) (txt "list the files") fresh

engine-AnswersPlain : AnswersPlain fixed_point latin surroundings engine
unfolding text_eq txt
engine-AnswersPlain req w = refl

fresh-HoldsPairs : HoldsPairs fixed_point latin fresh.manager
unfolding new_manager paired_from
fresh-HoldsPairs = refl

run-HoldsPairs_example : HoldsPairs fixed_point latin one_run.1.manager
run-HoldsPairs_example =
    run-HoldsPairs fixed_point latin surroundings engine delegation (txt "list the files") fresh
      engine-AnswersPlain fresh-HoldsPairs

run-IsConsistent_example : IsConsistent fixed_point latin one_run.1.manager
run-IsConsistent_example =
    run-IsConsistent fixed_point latin surroundings engine delegation (txt "list the files") fresh
      engine-AnswersPlain (new_manager-IsConsistent fixed_point latin 100 none)

run-IsWithin_example : IsWithin fixed_point latin surroundings engine one_run.0
run-IsWithin_example =
    run-IsWithin fixed_point latin surroundings engine
      (full_step fixed_point latin surroundings engine delegation) (txt "list the files") fresh

abbrev strict_guards : GuardRegistry ℕ
strict_guards = record { input_guards = refusing ∷ []; tool_call_guards = []; output_guards = [] }

abbrev strict : Engine fixed_point ℕ
strict = record engine { guards = some strict_guards }

refusing-Passing : (w : ℕ) × Passing surroundings.cancelled (txt "hi") (refusing ∷ []) 0 w → ⊥
refusing-Passing (w, Passing.past go passes more) = cc

abbrev strict_step : ℕ → Exec (State fixed_point ℕ) LoopResult
strict_step = full_step fixed_point latin surroundings strict delegation

run-IsRefused_example :
    IsRefused fixed_point latin surroundings strict
      (run fixed_point latin surroundings strict strict_step (txt "hi") fresh).0
    × ((run fixed_point latin surroundings strict strict_step (txt "hi") fresh).1
        ≡ record fresh { world = (run_input surroundings.cancelled strict_guards (txt "hi") 0).1 })
run-IsRefused_example =
    run-IsRefused fixed_point latin surroundings strict strict_step strict_guards (txt "hi") fresh
      refl refusing-Passing

abbrev lost : Error
lost = router_parse empty_response

abbrev failing_step : ℕ → Exec (State fixed_point ℕ) LoopResult
failing_step turn s = (err lost, s)

lost_class : classify_error lost ≡ transient
unfolding classify_error is_canceled is_tripwire is_router_parse
lost_class = refl

run_loop-transient_example :
    (2 < 4
      → (run_loop fixed_point latin surroundings engine failing_step 4 0 start fresh).0
        ≡ err (wrap_two (turn_text 2) max_step_retries lost))
    × (4 ≤ 2
        → (run_loop fixed_point latin surroundings engine failing_step 4 0 start fresh).0
          ≡ ok (
              result_of
                (partial_response fixed_point latin surroundings engine [])
                (txt "max_turns")
                no_usage
                4))
run_loop-transient_example =
    run_loop-transient fixed_point latin surroundings engine failing_step (λ w. refl) lost
      lost_class (λ turn s. refl) (λ n w. refl) fresh

abbrev erring_step : ℕ → Exec (State fixed_point ℕ) LoopResult
erring_step turn s = (ok (going_on (txt "tool_error") no_usage), s)

tool_error_fails : is_failure_reason (txt "tool_error") ≡ true
unfolding is_failure_reason text_eq txt
tool_error_fails = refl

run_loop-failures_example :
    (r : RunResult) × ((run_loop fixed_point latin surroundings engine erring_step 4 0 start
        fresh).0
      ≡ ok r)
    × (r.reason ≡ txt "max_consecutive_failures")
    × (r.turns ≡ 3)
run_loop-failures_example =
    run_loop-failures fixed_point latin surroundings engine erring_step (λ w. refl)
      (λ turn s. (going_on (txt "tool_error") no_usage, refl, refl, tool_error_fails)) fresh
      (omega arith) (omega arith)

fork-IsSafe_example :
    IsSafe fixed_point latin surroundings
      (λ s. some s)
      engine
      (fork fixed_point latin surroundings (λ s. some s) engine 100 (txt "You are a child.") none 0)
fork-IsSafe_example =
    fork-IsSafe fixed_point latin surroundings (λ s. some s) engine (shell ∷ reader ∷ []) 100
      (txt "You are a child.") none 0 refl
