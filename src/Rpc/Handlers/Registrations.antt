-- ===== src/Rpc/Handlers/Registrations.antt =====
-- internal/rpc/handlers.go: the handlers with which a wrapper registers its tools, guards, verifiers
-- and judges.
use agent_util.Common.{
  ℕ, suc, ◌⊎◌, inl, inr, Option, none, some, List, [], ◌∷◌, ◌++◌, Text, txt, text_eq, if◌then◌else◌,
}
use agent_util.Common.Floats.{Floats}
use agent_util.Context.Estimate.{Unicode}
use agent_util.Engine.Calls.{register_tool}
use agent_util.Engine.Exec.{Result, ok, err}
use agent_util.Engine.Registry.{Definition}
use agent_util.Engine.State.{Engine, State}
use agent_util.Protocol.Message.{RpcError, err_code_invalid_params}
use agent_util.Protocol.Methods.{ToolDefinition, GuardDefinition}
use agent_util.Protocol.Registration.{
  ToolRegisterParams, ToolRegisterResult, GuardRegisterParams, GuardRegisterResult,
  VerifierDefinition, VerifierRegisterParams, VerifierRegisterResult, JudgeRegisterParams,
  JudgeRegisterResult,
}
use agent_util.Rpc.Registry.{
  RemoteRegistry, add_input_guard, add_tool_call_guard, add_output_guard, add_verifier,
  add_goal_judge,
}
use agent_util.Rpc.Remote.{
  Sender, Codec, new_remote_input_guard, new_remote_tool_call_guard, new_remote_output_guard,
  new_remote_verifier, new_remote_tool, should_terminate,
}
use agent_util.Rpc.Handlers.{Answer, answered, refused, rpc_error, unmarshal_params, Handlers}

abbrev pub definition_from : ToolDefinition → Definition
definition_from d = record {
  name = d.name;
  description = d.description;
  parameters = d.parameters;
  read_only = d.read_only;
}

module _ {A : Type 0} where
  abbrev of_option : RpcError → Option A → RpcError ⊎ A
  of_option e none = inl e
  of_option e (some a) = inr a

module _ (fl : Floats) {W : Type 0} (u : Unicode) where
  module _ (codec : Codec) (server : Sender W) where
    abbrev pub after_register :
        Text
        → (Handlers fl W → Answer ToolRegisterResult × Handlers fl W)
        → Option (Engine fl W × State fl W)
        → Handlers fl W
        → Answer ToolRegisterResult × Handlers fl W
    after_register name rest (some (e, s)) h = rest (record h { eng = e; state = s })
    after_register name rest none h = (
      refused (
          rpc_error err_code_invalid_params (
            txt "register tool "
            ++ (codec.quote name ++ (txt ": register tool: duplicate name " ++ codec.quote name)))),
      h,
    )

    -- the loop of handleToolRegister, with the number of tools that are registered
    unfoldable pub register_tools :
        List ToolDefinition → ℕ → Handlers fl W → Answer ToolRegisterResult × Handlers fl W
    register_tools [] n h = (answered (record { registered = n }), h)
    register_tools (def ∷ defs) n h =
        after_register def.name (register_tools defs (suc n))
          (register_tool fl u (new_remote_tool codec (definition_from def) server) (h.eng, h.state))
          h

    unfoldable pub handle_tool_register :
        Result ToolRegisterParams → Handlers fl W → Answer ToolRegisterResult × Handlers fl W
    handle_tool_register (err e) h = (unmarshal_params (err e), h)
    handle_tool_register (ok p) h = register_tools p.tools 0 h

    abbrev add_guard : GuardDefinition → RemoteRegistry W → Option (RemoteRegistry W)
    add_guard def r =
        if text_eq def.stage (txt "input")
        then some (add_input_guard (new_remote_input_guard codec def.name (some server)) r)
        else if text_eq def.stage (txt "tool_call")
        then some (add_tool_call_guard (new_remote_tool_call_guard codec def.name (some server)) r)
        else if text_eq def.stage (txt "output")
        then some (add_output_guard (new_remote_output_guard codec def.name (some server)) r)
        else none

    abbrev unknown_stage : GuardDefinition → RpcError
    unknown_stage def = rpc_error err_code_invalid_params (
        txt "guard "
        ++ (codec.quote def.name
            ++ (txt ": unknown stage "
                ++ (codec.quote def.stage ++ txt " (expected input|tool_call|output)"))))

    abbrev unnamed : Text → RpcError
    unnamed what = rpc_error err_code_invalid_params (what ++ txt " name must not be empty")

    unfoldable pub register_guards :
        List GuardDefinition → ℕ → RemoteRegistry W → Answer GuardRegisterResult × RemoteRegistry W
    register_guards [] n r = (answered (record { registered = n }), r)
    register_guards (def ∷ defs) n r =
        let added = add_guard def r in
        elim (if text_eq def.name []
          then inl (unnamed (txt "guard"))
          else of_option (unknown_stage def) added) [
            | inl e ↦ (refused e, r)
            | inr r' ↦ register_guards defs (suc n) r'
          ]

    unfoldable pub handle_guard_register :
        Result GuardRegisterParams → Handlers fl W → Answer GuardRegisterResult × Handlers fl W
    handle_guard_register (err e) h = (unmarshal_params (err e), h)
    handle_guard_register (ok p) h =
        let (a, r) = register_guards p.guards 0 h.remote in (a, record h { remote = r })

    unfoldable pub register_verifiers :
        List VerifierDefinition
        → ℕ
        → RemoteRegistry W
        → Answer VerifierRegisterResult × RemoteRegistry W
    register_verifiers [] n r = (answered (record { registered = n }), r)
    register_verifiers (def ∷ defs) n r =
        let rest =
          register_verifiers defs (suc n)
            (add_verifier (new_remote_verifier codec def.name (some server)) r) in
        if text_eq def.name [] then (refused (unnamed (txt "verifier")), r) else rest

    unfoldable pub handle_verifier_register :
        Result VerifierRegisterParams
        → Handlers fl W
        → Answer VerifierRegisterResult × Handlers fl W
    handle_verifier_register (err e) h = (unmarshal_params (err e), h)
    handle_verifier_register (ok p) h =
        let (a, r) = register_verifiers p.verifiers 0 h.remote in (a, record h { remote = r })

    unfoldable pub handle_judge_register :
        Result JudgeRegisterParams → Handlers fl W → Answer JudgeRegisterResult × Handlers fl W
    handle_judge_register (err e) h = (unmarshal_params (err e), h)
    handle_judge_register (ok p) h =
        if text_eq p.name [] then (refused (unnamed (txt "judge")), h) else (
          answered (record { registered = 1 }),
          record h {
            remote = add_goal_judge p.name (should_terminate codec (some server) p.name) h.remote;
          },
        )
