-- ===== src/Examples/Remote.antt =====
-- Properties of the server, of what the wrapper implements and of what the program brings, at
-- concrete inputs.
use agent_util.Common.{
  ℕ, suc, ◌+◌, ◌++◌, ◌^◌, ◌≡◌, refl, Bool, true, false, none, some, List, [], ◌∷◌, arith, Text, txt,
  text_eq, any_of, lookup, ℤ, pos, int_key, if◌then◌else◌, All, decimal,
}
use agent_util.Llm.Message.{content_string}
use agent_util.Engine.Exec.{ok, err}
use agent_util.Engine.Errors.{other}
use agent_util.Engine.Guard.{allow, run_guards, GuardRegistry}
use agent_util.Engine.State.{Engine, LoopResult}
use agent_util.Engine.Step.{chat_step}
use agent_util.Engine.Builtin.{Std, secret_leak_guard}
use agent_util.Engine.Builtin.Laws.{IsClean, chat_step-IsClean}
use agent_util.Engine.Judge.{min_length_judge, contains_judge, build_builtin_goal_judge}
use agent_util.Engine.Judge.Laws.{build_builtin_goal_judge_lem}
use agent_util.Protocol.Message.{Response}
use agent_util.Rpc.Pending.{done, register}
use agent_util.Rpc.Remote.{Sender, Codec, Reply, replied, Params}
use agent_util.Rpc.Server
use agent_util.Rpc.Server.{
  Outgoing, Decoder, Call, Server, new_server, Event, line, begin, send, receive, return, result,
  cancel, clean_up, pick, step, run, begin_request, serve_line, dispatch, dispatch_response,
  received, give_up,
}
use agent_util.Rpc.Server.Safety.{run-IsDone}
use agent_util.Rpc.Server.Owned.{IsFor}
use agent_util.Rpc.Server.Correlation.{run-IsFor}
use agent_util.Rpc.Server.Counts.{answered, in_progress, asked_in}
use agent_util.Rpc.Server.Answers.{run-answered}
use agent_util.Rpc.Server.Liveness.{run-wakes, run-releases, Ends}
use agent_util.Examples.Setting.{fixed_point, latin, allowing, engine, surroundings, fresh}

abbrev pub pong : Response
pong = record { jsonrpc = txt "2.0"; result = some (txt "{}"); error = none; id = some (pos 1) }

-- the line "r" is a response to the request 1, and every other a request 7
abbrev wire : Decoder
wire = record {
  probe_method = λ text. if text_eq text (txt "r") then some none else some (some (txt "ping"));
  response = λ text. some pong;
  request = λ text.
      some (record { jsonrpc = txt "2.0"; method = txt "ping"; params = none; id = some (pos 7) });
}

abbrev working : List Outgoing → Outgoing → Bool
working out m = false

abbrev methods : List Text
methods = txt "ping" ∷ []

abbrev asking : List Event
asking = begin (txt "guard.execute") (some (txt "{}")) ∷ send 0 ∷ []

abbrev schedule : List Event
schedule =
    line (txt "q")
    ∷ begin (txt "guard.execute") (some (txt "{}"))
    ∷ send 0
    ∷ line (txt "r")
    ∷ return 0 (result (some (txt "1")))
    ∷ receive 0
    ∷ cancel
    ∷ clean_up
    ∷ []

run-IsDone_example : (s : Server) × (run working wire methods schedule new_server ≡ done s)
run-IsDone_example = run-IsDone working wire methods schedule

run-IsFor_example :
    (s : Server) × (run working wire methods schedule new_server ≡ done s) × All IsFor s.returned
run-IsFor_example = run-IsFor working wire methods schedule

run-answered_example :
    (s : Server) × (run working wire methods schedule new_server ≡ done s)
    × (answered (pos 7) s + in_progress (pos 7) s
        ≡ asked_in working wire methods (pos 7) schedule new_server)
run-answered_example = run-answered working (λ out m. refl) (pos 7) wire methods schedule

-- the state in which the caller of request 1 waits
abbrev waiting : Server
waiting = record new_server {
  next_id = 1;
  requests = (register (pos 1) new_server.requests).1;
  output =
      Server.asks (record {
        jsonrpc = txt "2.0";
        method = txt "guard.execute";
        params = some (txt "{}");
        id = some (pos 1);
      })
      ∷ [];
  calls = record { id = pos 1; channel = 0 } ∷ [];
}

run-wakes_example :
    (t : Server) × (run working wire methods (line (txt "r") ∷ receive 0 ∷ []) waiting ≡ done t)
    × (t.returned ≡ (pos 1, Server.response pong) ∷ [])
    × (t.calls ≡ [])
unfolding run step begin_request register pick lookup txt text_eq agent_util.Common.insert
run-wakes_example =
    run-wakes working wire methods asking waiting 0 (record { id = pos 1; channel = 0 }) [] b'r' []
      pong refl refl refl refl refl refl refl refl

run-releases_example :
    Ends working wire methods waiting
      (record { id = pos 1; channel = 0 })
      []
      Server.request_cancelled
      (run working wire methods (cancel ∷ clean_up ∷ receive 0 ∷ []) waiting)
    × Ends working wire methods waiting
        (record { id = pos 1; channel = 0 })
        []
        Server.context_done
        (run working wire methods (cancel ∷ clean_up ∷ give_up 0 ∷ []) waiting)
unfolding run step begin_request register pick lookup agent_util.Common.insert
run-releases_example =
    run-releases working wire methods asking waiting 0 (record { id = pos 1; channel = 0 }) [] refl
      refl refl

abbrev pub codec : Codec
codec = record {
  guard_result = λ text. ok (record { decision = text; reason = []; details = [] });
  verifier_result = λ text. err (other []);
  tool_result = λ text. err (other []);
  judge_result = λ text. err (other []);
  llm_result = λ text. err (other []);
  chat_response = λ text. err (other []);
  marshal_request = λ req. err (other []);
  quote = λ text. text;
}

-- a wrapper that allows everything
abbrev pub wrapper : Sender ℕ
wrapper = record {
  send_request =
      λ method params w. (replied (some (record pong { result = some (txt "allow") })), suc w);
}

build_builtin_goal_judge_lem_example :
    (build_builtin_goal_judge {W = ℕ} (λ s. s) (txt "min_length:" ++ decimal 30)
      ≡ ok (min_length_judge (λ s. s) 30))
    × (build_builtin_goal_judge {W = ℕ} (λ s. s) (txt "contains:" ++ (b'F' ∷ txt ":NAL"))
        ≡ ok (contains_judge (λ s. s) (b'F' ∷ txt ":NAL")))
build_builtin_goal_judge_lem_example =
    build_builtin_goal_judge_lem (λ s. s) 30 b'F' (txt ":NAL") (omega arith)

-- a matcher for which every pattern is the literal text of a key
abbrev pub literal : Std
literal = record {
  matches = λ p text. text_eq text (txt "AKIA");
  to_lower = λ s. s;
  unmarshal_map = λ s. none;
  unmarshal_error = λ s. none;
}

abbrev keeper : GuardRegistry ℕ
keeper = record {
  input_guards = [];
  tool_call_guards = [];
  output_guards = allowing ∷ secret_leak_guard literal ∷ [];
}

abbrev careful : Engine fixed_point ℕ
careful = record engine { guards = some keeper }

abbrev reply : LoopResult
reply =
    agent_util.Engine.Step.completed (txt "completed")
      (agent_util.Llm.Message.plain_message (txt "assistant") (txt "{}"))
      (record { prompt_tokens = 3; completion_tokens = 2; total_tokens = 5 })

chat_step-IsClean_example :
    IsClean literal fixed_point latin surroundings careful keeper (allowing ∷ []) [] reply
unfolding chat_step agent_util.Engine.Step.complete agent_util.Engine.State.build_messages
    agent_util.Engine.Guard.run_output run_guards content_string
    agent_util.Engine.Builtin.check_secret_leak agent_util.Common.keep_if text_eq txt
chat_step-IsClean_example =
    chat_step-IsClean literal fixed_point latin surroundings careful keeper (allowing ∷ []) [] 0
      fresh (chat_step fixed_point latin surroundings careful 0 fresh).1 reply refl refl refl
