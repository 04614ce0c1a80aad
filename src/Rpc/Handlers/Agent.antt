-- ===== src/Rpc/Handlers/Agent.antt =====
-- internal/rpc/handlers.go: agent.run and agent.configure, each call as it runs alone.
use agent_util.Common.{
  ℕ, ◌==◌, Option, none, some, List, [], ◌∷◌, Text, txt, text_eq, Map, if◌then◌else◌,
}
use agent_util.Common.Floats.{Floats}
use agent_util.Context.Estimate.{Unicode}
use agent_util.Engine.Errors.{Error, error_text, tripwire, router_parse, wrap, wrap_two}
use agent_util.Engine.Exec.{Result, ok, err}
use agent_util.Engine.Delegate.{Delegation}
use agent_util.Engine.History.{full_step}
use agent_util.Engine.Run.{run}
use agent_util.Engine.State.{Engine, State, RunResult, Outside}
use agent_util.Protocol.Message.{
  RpcError, err_code_invalid_params, err_code_internal, err_code_guard_denied, err_code_tripwire,
}
use agent_util.Protocol.Methods.{AgentRunParams, AgentRunResult, AgentConfigureParams}
use agent_util.Protocol.Registration.{AgentConfigureResult}
use agent_util.Rpc.Registry.{}
use agent_util.Engine.Builtin.{Std}
use agent_util.Rpc.Notifier.{Notification, stream_end}
use agent_util.Rpc.Configure.{Wrapper}
use agent_util.Rpc.Configure.Rebuild.{rebuild_engine}
use agent_util.Rpc.Remote.{}
use agent_util.Rpc.Handlers.{
  Answer, answered, refused, rpc_error, unmarshal_params, Handlers, begin_run, end_run,
  refuse_if_busy,
}

abbrev first_of : Option (Text × Text) → Option (Text × Text) → Option (Text × Text)
first_of none b = b
first_of (some a) b = some a

-- errors.As(err, &tw): the source and the reason of the first tripwire in the chain
unfoldable pub as_tripwire : Error → Option (Text × Text)
as_tripwire (tripwire source reason) = some (source, reason)
as_tripwire (router_parse e) = as_tripwire e
as_tripwire (wrap text e) = as_tripwire e
as_tripwire (wrap_two text d e) = first_of (as_tripwire d) (as_tripwire e)
as_tripwire _ = none

abbrev trim_from : Text → Text → Option Text
trim_from [] s = some s
trim_from (p ∷ ps) [] = none
trim_from (p ∷ ps) (c ∷ cs) = if p == c then trim_from ps cs else none

-- strings.TrimPrefix
abbrev trim_prefix : Text → Text → Text
trim_prefix s prefix = elim (trim_from prefix s) [ none ↦ s | some rest ↦ rest ]

-- json.Marshal of a map of texts, whose error is ignored
module _ (marshal_map : Map Text Text → Option Text) where
  abbrev of_error : Error → Option (Text × Text) → RpcError
  of_error e none = rpc_error err_code_internal (error_text e)
  of_error e (some (source, reason)) = record {
    code = err_code_tripwire;
    message = error_text (tripwire source reason);
    details =
        marshal_map
          ((txt "decision", txt "tripwire") ∷ (txt "source", source) ∷ (txt "reason", reason) ∷ []);
  }

  -- what agent.run answers, and what its StreamEnd tells
  unfoldable pub run_answer : Result RunResult → Answer AgentRunResult × Text × ℕ
  run_answer (err e) = (refused (of_error e (as_tripwire e)), txt "error", 0)
  run_answer (ok r) =
      if text_eq r.reason (txt "input_denied")
      then (
        refused (record {
          code = err_code_guard_denied;
          message = r.response;
          details = marshal_map (
              (txt "decision", txt "deny")
              ∷ (txt "reason", trim_prefix r.response (txt "Input rejected: "))
              ∷ []);
        }),
        r.reason,
        r.turns,
      )
      else (
        answered (record {
          response = r.response;
          reason = r.reason;
          turns = r.turns;
          usage = record {
            prompt_tokens = r.usage.prompt_tokens;
            completion_tokens = r.usage.completion_tokens;
            total_tokens = r.usage.total_tokens;
          };
        }),
        r.reason,
        r.turns,
      )

module _ (fl : Floats) {W : Type 0} (u : Unicode) where
  module _ (out : Outside W) (d : Delegation W) (marshal_map : Map Text Text → Option Text)
      (notify : Text → Notification fl.Float → W → W) where
    abbrev pub told :
        Answer AgentRunResult × Text × ℕ → Handlers fl W → Answer AgentRunResult × Handlers fl W
    told (a, reason, turns) h = (
      a,
      record h { state = record h.state { world = stream_end notify reason turns h.state.world } },
    )

    -- the part of handleAgentRun between its start and its deferred function
    unfoldable pub run_admitted :
        Result AgentRunParams → Handlers fl W → Answer AgentRunResult × Handlers fl W
    run_admitted (err e) h = (unmarshal_params (err e), h)
    run_admitted (ok p) h =
        let (r, s) = run fl u out h.eng (full_step fl u out h.eng d) p.prompt h.state in
        told (run_answer marshal_map r) (record h { state = s })

    abbrev pub run_unless :
        Option RpcError
        → Result AgentRunParams
        → Handlers fl W
        → Answer AgentRunResult × Handlers fl W
    run_unless (some e) p h = (refused e, h)
    run_unless none p h = let (a, h') = run_admitted p h in (a, end_run fl h')

    -- a call of handleAgentRun beside which no other one runs
    unfoldable pub handle_agent_run :
        ℕ → Result AgentRunParams → Handlers fl W → Answer AgentRunResult × Handlers fl W
    handle_agent_run n p h = let (e, h') = begin_run fl n h in run_unless e p h'

  module _ (quote : Text → Text) (std : Std) (marshal_indent : Text → Option Text)
      (wrapper : Wrapper fl.Float W) where
    abbrev pub configured :
        Handlers fl W
        → Result ((Engine fl W × State fl W) × List Text)
        → Answer AgentConfigureResult × Handlers fl W
    configured h (err e) = (refused (rpc_error err_code_invalid_params (error_text e)), h)
    configured h (ok ((e, s), applied)) =
        (answered (record { applied = applied }), record h { eng = e; state = s })

    -- the part of handleAgentConfigure under the lock of the engine
    unfoldable pub apply_configure :
        Result (AgentConfigureParams fl.Float)
        → Handlers fl W
        → Answer AgentConfigureResult × Handlers fl W
    apply_configure (err e) h = (unmarshal_params (err e), h)
    apply_configure (ok p) h =
        configured h (rebuild_engine fl quote std h.remote u marshal_indent wrapper h.eng h.state p)

    abbrev pub configure_unless :
        Option RpcError
        → Result (AgentConfigureParams fl.Float)
        → Handlers fl W
        → Answer AgentConfigureResult × Handlers fl W
    configure_unless (some e) p h = (refused e, h)
    configure_unless none p h = apply_configure p h

    -- a call of handleAgentConfigure beside which no run begins
    unfoldable pub handle_agent_configure :
        Result (AgentConfigureParams fl.Float)
        → Handlers fl W
        → Answer AgentConfigureResult × Handlers fl W
    handle_agent_configure p h = configure_unless (refuse_if_busy fl h) p h
