-- ===== src/Engine/History.antt =====
-- The history of an Engine of internal/engine/engine.go over a whole run, with the steps that the
-- engine takes.
use agent_util.Common.{ℕ, refl, ◌++◌, Text, txt, text_eq, text_eq_refl, any_of}
use agent_util.Common.Floats.{Floats}
use agent_util.Context.Estimate.{Unicode}
use agent_util.Context.Compaction.{has_call}
use agent_util.Context.Manager.{Manager, add, entry_of}
use agent_util.Context.Manager.Invariant.{IsConsistent, add-IsConsistent, compact-IsConsistent}
use agent_util.Context.Manager.Pairing.{
  HoldsPairs, add-HoldsPairs, add_call-HoldsPairs, compact-HoldsPairs,
}
use agent_util.Engine.Exec.{Exec}
use agent_util.Engine.State.{
  LoopResult, Outside, Engine, State, user_message, tool_call_message, tool_result_message,
}
use agent_util.Engine.Delegate.{Delegation, delegate_step, coordinate_step}
use agent_util.Engine.Delegate.History.{delegate_step-keeps, coordinate_step-keeps}
use agent_util.Engine.Step.{step_with_turn}
use agent_util.Engine.Step.History.{AnswersPlain}
use agent_util.Engine.Step.Tools.{step_with_turn-keeps}
use agent_util.Engine.Run.{run}
use agent_util.Engine.Run.History.{run-keeps}

module _ (fl : Floats) (u : Unicode) {W : Type 0} (out : Outside W) (e : Engine fl W) where
  call_and_result :
      (hex name arguments content : Text) (m : Manager fl.Float)
      → HoldsPairs fl u m
      → HoldsPairs fl u (
          add fl u
            (tool_result_message (txt "call_" ++ hex) content)
            (add fl u (tool_call_message out.marshal_string (txt "call_" ++ hex) name arguments) m))
  unfolding tool_result_message tool_call_message has_call entry_of any_of txt text_eq
  call_and_result hex name arguments content m h =
      let id = txt "call_" ++ hex in
      add_call-HoldsPairs fl u (tool_call_message out.marshal_string id name arguments)
        (tool_result_message id content) m refl refl (rw (text_eq_refl hex)) h

  module _ (d : Delegation W) where
    -- the step of a run, with the virtual tools
    abbrev pub full_step : ℕ → Exec (State fl W) LoopResult
    full_step =
        step_with_turn fl u out e (delegate_step fl u out e d) (coordinate_step fl u out e d)

    -- If the completer never answers with a message of the role `tool`, then after a run on a
    -- history in which each tool result stands directly behind the message that holds its call, the
    -- history is such a one, whether the run returned a result or an error.
    pub run-HoldsPairs :
        (input : Text) (s : State fl W)
        → AnswersPlain fl u out e
        → HoldsPairs fl u s.manager
        → HoldsPairs fl u (run fl u out e full_step input s).1.manager
    unfolding text_eq txt
    run-HoldsPairs input s plain h =
        run-keeps fl u out e (HoldsPairs fl u) full_step
          (step_with_turn-keeps fl u out e (HoldsPairs fl u) (add-HoldsPairs fl u) call_and_result
            (compact-HoldsPairs fl u) plain (delegate_step fl u out e d)
            (coordinate_step fl u out e d)
            (delegate_step-keeps fl u out e d (HoldsPairs fl u) call_and_result)
            (coordinate_step-keeps fl u out e d (HoldsPairs fl u) call_and_result))
          (λ m text p. add-HoldsPairs fl u (user_message text) m refl p) input s h

    -- If the completer never answers with a message of the role `tool`, then a run keeps the
    -- bookkeeping of the context: every entry carries the estimate of its message, the token count
    -- is their sum, and the observers were told `exceeded` and `recovered` in turns.
    pub run-IsConsistent :
        (input : Text) (s : State fl W)
        → AnswersPlain fl u out e
        → IsConsistent fl u s.manager
        → IsConsistent fl u (run fl u out e full_step input s).1.manager
    run-IsConsistent input s plain h =
        run-keeps fl u out e (IsConsistent fl u) full_step
          (step_with_turn-keeps fl u out e (IsConsistent fl u)
            (λ msg m t p. add-IsConsistent fl u msg m p)
            (λ hex name arguments content m p.
              add-IsConsistent fl u _ _ (add-IsConsistent fl u _ m p))
            (compact-IsConsistent fl u) plain (delegate_step fl u out e d)
            (coordinate_step fl u out e d)
            (delegate_step-keeps fl u out e d (IsConsistent fl u) (λ hex name arguments content m p.
              add-IsConsistent fl u _ _ (add-IsConsistent fl u _ m p)))
            (coordinate_step-keeps fl u out e d (IsConsistent fl u)
              (λ hex name arguments content m p.
                add-IsConsistent fl u _ _ (add-IsConsistent fl u _ m p))))
          (λ m text p. add-IsConsistent fl u (user_message text) m p) input s h
