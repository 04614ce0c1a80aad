-- ===== src/Engine/Delegate/History.antt =====
-- What the virtual tools of internal/engine/delegate.go and coordinator.go do to the history.
use agent_util.Common.{
  inl, inr, Option, none, some, List, [], ◌∷◌, ◌++◌, Text, txt, text_eq, Bool-cases,
}
use agent_util.Common.Floats.{Floats}
use agent_util.Llm.Message.{Usage}
use agent_util.Context.Estimate.{Unicode}
use agent_util.Context.Manager.{Manager, add}
use agent_util.Engine.Exec.{Result, ok, err}
use agent_util.Engine.State.{
  RouterResponse, Outside, Engine, State, add_message, tool_call_message, tool_result_message,
}
use agent_util.Engine.Step.{record_call, generate_call_id}
use agent_util.Engine.Delegate.{
  DelegateArgs, CoordinateTask, Delegation, run_delegate_child, in_worktree, worktree_step,
  delegated, delegate_step, coordinated, coordinate_step, reported,
}

module _ (fl : Floats) (u : Unicode) {W : Type 0} (out : Outside W) (e : Engine fl W)
    (d : Delegation W) where
  module _ (P : Manager fl.Float → Type 0)
      (pairs : (hex name arguments content : Text) (m : Manager fl.Float)
        → P m
        → P (
            add fl u (tool_result_message (txt "call_" ++ hex) content) (
              add fl u
                (tool_call_message out.marshal_string (txt "call_" ++ hex) name arguments)
                m))) where
    reported-keeps :
        (name reason : Text) (rr : RouterResponse) (usage : Usage) (content : Text) (s : State fl W)
        → P s.manager
        → P (reported fl u out e d name reason rr usage content s).1.manager
    unfolding record_call generate_call_id add_message
    reported-keeps name reason rr usage content s p =
        pairs (out.random_hex s.world).0 name rr.arguments content s.manager p

    run_delegate_child-keeps :
        (dir : Option Text) (da : DelegateArgs) (rr : RouterResponse) (usage : Usage)
        (s : State fl W)
        → P s.manager
        → P (run_delegate_child fl u out e d dir da rr usage s).1.manager
    unfolding run_delegate_child
    run_delegate_child-keeps dir da rr usage s p = reported-keeps _ [] rr usage _ _ p

    in_worktree-keeps :
        (dir : Option Text) (da : DelegateArgs) (rr : RouterResponse) (usage : Usage)
        (s : State fl W)
        → P s.manager
        → P (in_worktree fl u out e d dir da rr usage s).1.manager
    in_worktree-keeps none da rr usage s p = run_delegate_child-keeps none _ rr usage s p
    in_worktree-keeps (some dir) da rr usage s p =
        run_delegate_child-keeps (some dir) da rr usage s p

    delegated-keeps :
        (parsed : Result DelegateArgs) (rr : RouterResponse) (usage : Usage) (s : State fl W)
        → P s.manager
        → P (delegated fl u out e d parsed rr usage s).1.manager
    unfolding worktree_step
    delegated-keeps (err er) rr usage s p = reported-keeps _ [] rr usage _ s p
    delegated-keeps (ok da) rr usage s p = elim (Bool-cases (text_eq da.task [])) [
      | inl no_task ↦ simp no_task (reported-keeps _ [] rr usage _ s p)
      | inr a_task ↦ elim (Bool-cases (text_eq da.mode (txt "worktree"))) [
        | inl apart ↦ simp (a_task, apart) (in_worktree-keeps _ da rr usage _ p)
        | inr forked ↦ simp (a_task, forked) (run_delegate_child-keeps none da rr usage s p)
      ]
    ]

    pub delegate_step-keeps :
        (rr : RouterResponse) (usage : Usage) (s : State fl W)
        → P s.manager
        → P (delegate_step fl u out e d rr usage s).1.manager
    unfolding delegate_step
    delegate_step-keeps rr usage s p =
        delegated-keeps (d.unmarshal_delegate rr.arguments) rr usage s p

    coordinated-keeps :
        (parsed : Result (List CoordinateTask)) (rr : RouterResponse) (usage : Usage)
        (s : State fl W)
        → P s.manager
        → P (coordinated fl u out e d parsed rr usage s).1.manager
    coordinated-keeps (err er) rr usage s p = reported-keeps _ [] rr usage _ s p
    coordinated-keeps (ok []) rr usage s p = reported-keeps _ [] rr usage _ s p
    coordinated-keeps (ok (t ∷ ts)) rr usage s p = reported-keeps _ [] rr usage _ _ p

    pub coordinate_step-keeps :
        (rr : RouterResponse) (usage : Usage) (s : State fl W)
        → P s.manager
        → P (coordinate_step fl u out e d rr usage s).1.manager
    unfolding coordinate_step
    coordinate_step-keeps rr usage s p =
        coordinated-keeps (d.unmarshal_coordinate rr.arguments) rr usage s p
