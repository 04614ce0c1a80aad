-- ===== src/Rpc/Remote.antt =====
-- internal/rpc/remote_guard.go, remote_verifier.go, remote_tool.go, remote_goal_judge.go and
-- remote_completer.go: what the wrapper implements, as the engine sees it. A sender is a Server or
-- the interface remoteSender, and `none` is a nil one; its context with a timeout is part of the
-- world `W`, as is the session id of a context.
pub mod Laws
use agent_util.Common.{
  ℕ, suc, Bool, true, false, Option, none, some, List, [], ◌∷◌, ◌++◌, Text, txt, text_eq, length,
  if◌then◌else◌,
}
use agent_util.Llm.Message.{ChatRequest, ChatResponse}
use agent_util.Engine.Errors.{Error, wrap, other, error_text}
use agent_util.Engine.Exec.{Result, ok, err, map_error}
use agent_util.Engine.Guard.{
  GuardDecision, allow, deny, tripwire, GuardResult, Guard, Checked, checked, bare,
}
use agent_util.Engine.Registry.{Tool, Executed, executed, broken, Definition}
use agent_util.Engine.State.{Judged, judged, judge_failed}
use agent_util.Engine.Verify.{Verifier, VerifyResult, Verified, verified}
use agent_util.Protocol.Message.{Response, RpcError}
use agent_util.Protocol.Methods.{
  GuardExecuteParams, GuardExecuteResult, VerifierExecuteParams, VerifierExecuteResult,
  ToolExecuteParams, ToolExecuteResult, JudgeEvaluateParams, JudgeEvaluateResult, LlmExecuteParams,
  LlmExecuteResult,
}

-- the parameters that SendRequest is given
pub data Params : Type 0 where
  guard_params : GuardExecuteParams → Params
  verifier_params : VerifierExecuteParams → Params
  tool_params : ToolExecuteParams → Params
  judge_params : JudgeEvaluateParams → Params
  llm_params : LlmExecuteParams → Params

-- what SendRequest returns: an error, or a response that may be nil
pub data Reply : Type 0 where
  unsent : Error → Reply
  replied : Option Response → Reply

pub record Sender (W : Type 0) : Type 0 where
  pub send_request : Text → Params → W → Reply × W

-- json.Unmarshal of a result, json.Marshal of a chat request, and the verb %q
pub record Codec : Type 0 where
  pub guard_result : Text → Result GuardExecuteResult
  pub verifier_result : Text → Result VerifierExecuteResult
  pub tool_result : Text → Result ToolExecuteResult
  pub judge_result : Text → Result JudgeEvaluateResult
  pub llm_result : Text → Result LlmExecuteResult
  pub chat_response : Text → Result ChatResponse
  pub marshal_request : ChatRequest → Result Text
  pub quote : Text → Text

-- the bytes of a raw message that may be absent
abbrev pub raw : Option Text → Text
raw none = []
raw (some text) = text

abbrev pub no_params : Text → Text → GuardExecuteParams
no_params name stage = record {
  name = name;
  stage = stage;
  input = [];
  tool_name = [];
  args = [];
  output = [];
}

module _ (codec : Codec) where
  unfoldable pub fail_closed_guard : Text → Text → GuardResult
  fail_closed_guard name reason =
      bare deny (txt "remote guard " ++ (codec.quote name ++ (txt " error: " ++ reason)))

  -- decisionFromString
  unfoldable pub decision_from_string : Text → Result GuardDecision
  decision_from_string s =
      if text_eq s (txt "allow")
      then ok allow
      else if text_eq s (txt "deny")
      then ok deny
      else if text_eq s (txt "tripwire")
      then ok tripwire
      else err (other (txt "unknown decision " ++ codec.quote s))

  abbrev decided : Text → GuardExecuteResult → Result GuardDecision → GuardResult
  decided name r (err e) = fail_closed_guard name (error_text e)
  decided name r (ok decision) = record {
    decision = decision;
    reason = r.reason;
    details = r.details;
  }

  abbrev decoded_guard : Text → Result GuardExecuteResult → GuardResult
  decoded_guard name (err e) = fail_closed_guard name (txt "decode result: " ++ error_text e)
  decoded_guard name (ok r) = decided name r (decision_from_string r.decision)

  abbrev answered_guard : Text → Option RpcError → Option Text → GuardResult
  answered_guard name (some e) result = fail_closed_guard name (txt "rpc error: " ++ e.message)
  answered_guard name none result = decoded_guard name (codec.guard_result (raw result))

  -- the result of a guard from the answer of the wrapper
  unfoldable pub guard_reply : Text → Reply → GuardResult
  guard_reply name (unsent e) = fail_closed_guard name (txt "transport: " ++ error_text e)
  guard_reply name (replied none) = fail_closed_guard name (txt "empty response")
  guard_reply name (replied (some resp)) = answered_guard name resp.error resp.result

  unfoldable pub fail_closed_verify : Text → Text → VerifyResult
  fail_closed_verify name reason = record {
    passed = false;
    summary = txt "remote verifier " ++ (codec.quote name ++ (txt " error: " ++ reason));
    details = [];
  }

  abbrev decoded_verify : Text → Result VerifierExecuteResult → VerifyResult
  decoded_verify name (err e) = fail_closed_verify name (txt "decode result: " ++ error_text e)
  decoded_verify name (ok r) = record {
    passed = r.passed;
    summary = r.summary;
    details = r.details;
  }

  unfoldable pub verify_reply : Text → Reply → VerifyResult
  verify_reply name (unsent e) = fail_closed_verify name (txt "transport: " ++ error_text e)
  verify_reply name (replied none) = fail_closed_verify name (txt "empty response")
  verify_reply name (replied (some resp)) = elim resp.error [
    | some e ↦ fail_closed_verify name (txt "rpc error: " ++ e.message)
    | none ↦ decoded_verify name (codec.verifier_result (raw resp.result))
  ]

  abbrev decoded_judge : Result JudgeEvaluateResult → Judged
  decoded_judge (err e) = judged false []
  decoded_judge (ok r) = judged r.terminate r.reason

  unfoldable pub judge_reply : Reply → Judged
  judge_reply (unsent e) = judged false []
  judge_reply (replied none) = judged false []
  judge_reply (replied (some resp)) = elim resp.error [
    | some e ↦ judged false []
    | none ↦ decoded_judge (codec.judge_result (raw resp.result))
  ]

  abbrev decoded_tool : Text → Result ToolExecuteResult → Executed
  decoded_tool name (err e) =
      broken
        (error_text (wrap (txt "remote tool " ++ (codec.quote name ++ txt ": unmarshal result")) e))
  decoded_tool name (ok r) = executed (record { content = r.content; is_error = r.is_error })

  -- Execute would panic on a nil response, which SendRequest of a Server does not return without
  -- an error
  unfoldable pub tool_reply : Text → Reply → Executed
  tool_reply name (unsent e) = broken (error_text (wrap (txt "remote tool " ++ codec.quote name) e))
  tool_reply name (replied none) = broken (txt "nil response")
  tool_reply name (replied (some resp)) = elim resp.error [
    | some e ↦ executed (record { content = e.message; is_error = true })
    | none ↦ decoded_tool name (codec.tool_result (raw resp.result))
  ]

  abbrev decoded_llm : Result LlmExecuteResult → Result ChatResponse
  decoded_llm (err e) = err (wrap (txt "remote llm: unmarshal result") e)
  decoded_llm (ok r) = elim r.response [
    | [] ↦ err (other (txt "remote llm: empty response"))
    | b ∷ bs ↦
        map_error (wrap (txt "remote llm: unmarshal chat response")) (codec.chat_response (b ∷ bs))
  ]

  unfoldable pub llm_reply : Reply → Result ChatResponse
  llm_reply (unsent e) = err (wrap (txt "remote llm") e)
  llm_reply (replied none) = err (other (txt "nil response"))
  llm_reply (replied (some resp)) = elim resp.error [
    | some e ↦ err (other (txt "remote llm: wrapper returned error: " ++ e.message))
    | none ↦ decoded_llm (codec.llm_result (raw resp.result))
  ]

  module _ {W : Type 0} where
    -- executeRemoteGuard
    unfoldable pub execute_remote_guard :
        Option (Sender W) → Text → GuardExecuteParams → W → Checked × W
    execute_remote_guard none name params w =
        (checked (fail_closed_guard name (txt "remote server unavailable")), w)
    execute_remote_guard (some server) name params w =
        let (reply, w') = server.send_request (txt "guard.execute") (guard_params params) w in
        (checked (guard_reply name reply), w')

    unfoldable pub new_remote_input_guard : Text → Option (Sender W) → Guard W Text
    new_remote_input_guard name server = record {
      name = name;
      check = λ input.
          execute_remote_guard server name
            (record (no_params name (txt "input")) { input = input });
    }

    unfoldable pub new_remote_tool_call_guard : Text → Option (Sender W) → Guard W (Text × Text)
    new_remote_tool_call_guard name server = record {
      name = name;
      check = λ call.
          execute_remote_guard server name
            (record (no_params name (txt "tool_call")) { tool_name = call.0; args = call.1 });
    }

    unfoldable pub new_remote_output_guard : Text → Option (Sender W) → Guard W Text
    new_remote_output_guard name server = record {
      name = name;
      check = λ output.
          execute_remote_guard server name
            (record (no_params name (txt "output")) { output = output });
    }

    unfoldable pub remote_verify : Option (Sender W) → Text → Text → Text → Text → W → Verified × W
    remote_verify none name tool_name args result w =
        (verified (fail_closed_verify name (txt "remote server unavailable")), w)
    remote_verify (some server) name tool_name args result w =
        let params =
          verifier_params
            (record { name = name; tool_name = tool_name; args = args; result = result }) in
        let (reply, w') = server.send_request (txt "verifier.execute") params w in
        (verified (verify_reply name reply), w')

    unfoldable pub new_remote_verifier : Text → Option (Sender W) → Verifier W
    new_remote_verifier name server = record { name = name; verify = remote_verify server name }

    -- ShouldTerminate of a RemoteGoalJudge
    unfoldable pub should_terminate : Option (Sender W) → Text → Text → ℕ → W → Judged × W
    should_terminate none name response turn w = (
      judge_failed
          (other (txt "remote judge " ++ (codec.quote name ++ txt ": server unavailable"))),
      w,
    )
    should_terminate (some server) name response turn w =
        let params = judge_params (record { name = name; response = response; turn = turn }) in
        let (reply, w') = server.send_request (txt "judge.evaluate") params w in
        (judge_reply reply, w')

    -- NewRemoteTool, whose Execute does not use the working directory
    unfoldable pub new_remote_tool : Definition → Sender W → Tool W
    new_remote_tool def server = record {
      name = def.name;
      description = def.description;
      parameters = def.parameters;
      is_read_only = def.read_only;
      execute = λ work_dir args w.
          let (reply, w') =
            server.send_request (txt "tool.execute")
              (tool_params (record { name = def.name; args = args })) w in
          (tool_reply def.name reply, w');
    }

    -- ChatCompletion of a RemoteCompleter with its call index
    unfoldable pub remote_completion :
        (session_id : W → Text) → Sender W → ChatRequest → ℕ → W → Result ChatResponse × ℕ × W
    remote_completion session_id server req call_index w = elim (codec.marshal_request req) [
      | err e ↦ (err (wrap (txt "remote llm: marshal request") e), call_index, w)
      | ok request ↦
          let params =
            llm_params
              (record { request = request; session_id = session_id w; call_index = call_index }) in
          let (reply, w') = server.send_request (txt "llm.execute") params w in
          (llm_reply reply, suc call_index, w')
    ]
