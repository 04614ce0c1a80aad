-- ===== src/Examples/Services.antt =====
-- Properties of the sessions and the retries at concrete inputs.
use agent_util.Common.{
  ℕ, suc, ◌+◌, ◌*◌, ◌-◌, ◌<◌, ◌≤◌, ◌≡◌, refl, false, none, some, [], ◌∷◌, txt, arith, decimal,
}
use agent_util.Llm.Message.{no_usage}
use agent_util.Engine.Errors.{canceled}
use agent_util.Engine.Exec.{ok}
use agent_util.Engine.State.{RunResult}
use agent_util.Engine.Session.{ProgressFile, SessionRunner, session_loop, new_tasks}
use agent_util.Engine.Session.Laws.{
  IsDone, count_open, session_loop-IsDone, session_loop_lem, limit_error,
}
use agent_util.Llm.Retry.{Client, do_with_retry, parse_retry_after}
use agent_util.Llm.Retry.Laws.{IsFine, do_with_retry-IsFine, parse_retry_after-decimal}

abbrev good_result : RunResult
good_result = record {
  response = txt "all done";
  reason = txt "completed";
  usage = no_usage;
  turns = 1;
}

abbrev runner : SessionRunner ℕ
runner = record {
  max_sessions = 2;
  load = λ w. (ok none, w);
  save = λ p w. (none, suc w);
  now = λ w. (txt "now", w);
  run_engine = λ prompt task w. (ok good_result, suc w);
  cancelled = λ w. false;
  context_error = λ w. canceled;
}

abbrev progress : ProgressFile
progress = record {
  tasks = new_tasks 0 (txt "first" ∷ txt "second" ∷ []);
  started_at = txt "now";
  updated_at = txt "now";
}

session_loop-IsDone_example : IsDone runner (session_loop runner 3 progress 0)
session_loop-IsDone_example = session_loop-IsDone runner 3 progress 0

session_loop_lem_example :
    (count_open progress.tasks < 2
      → ((session_loop runner 2 progress 0).1 ≡ none)
        × (count_open (session_loop runner 2 progress 0).0.tasks ≡ 0))
    × (2 ≤ count_open progress.tasks
        → ((session_loop runner 2 progress 0).1 ≡ some (limit_error runner))
          × (count_open (session_loop runner 2 progress 0).0.tasks ≡ count_open progress.tasks - 2))
session_loop_lem_example =
    session_loop_lem runner (λ p w. refl) (λ w. refl) (λ prompt task w. (good_result, refl)) 2
      progress 0

-- a client whose server is always overloaded; its world counts the requests
abbrev client : Client ℕ
client = record {
  max_retries = 3;
  send = λ w. (ok (record { status_code = 503; retry_after = txt "2"; body = [] }), suc w);
  cancelled = λ w. false;
  context_error = λ w. canceled;
  calc_backoff = λ n w. (1000000000, w);
  sleep = λ n w. (none, w);
}

abbrev requests : ℕ → ℕ
requests w = w

do_with_retry-IsFine_example :
    IsFine client requests
      (λ w. refl)
      (λ n w. refl)
      (λ n w. refl)
      (0 + suc 3)
      (do_with_retry client 0)
do_with_retry-IsFine_example =
    do_with_retry-IsFine client requests (λ w. refl) (λ n w. refl) (λ n w. refl) 0

parse_retry_after-decimal_example : parse_retry_after (decimal 120) ≡ 120 * 1000000000
parse_retry_after-decimal_example = parse_retry_after-decimal 120 (omega arith)
