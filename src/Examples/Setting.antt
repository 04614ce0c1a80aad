-- ===== src/Examples/Setting.antt =====
-- Concrete stand-ins for what the models leave open: fixed-point numbers for the floats, a world that
-- counts, tools, guards, a checker and an engine.
use agent_util.Common.{
  ℕ, suc, ◌+◌, ◌*◌, ◌/◌, true, false, Option, none, some, List, [], ◌∷◌, Text, txt, ltb, leb, Map,
}
use agent_util.Common.Floats.{Floats}
use agent_util.Llm.Message.{Message, plain_message}
use agent_util.Llm.FixJson.Merge.{Json}
use agent_util.Context.Estimate.{Unicode}
use agent_util.Context.Compaction.{Entry, CompactionConfig, summary}
use agent_util.Context.Manager.{new_manager}
use agent_util.Engine.Errors.{canceled}
use agent_util.Engine.Exec.{ok}
use agent_util.Engine.Guard.{Guard, deny, allow, checked}
use agent_util.Engine.Permission.{PermissionRule, PermissionChecker, approved}
use agent_util.Engine.Registry.{Tool, executed, register_each, new_registry}
use agent_util.Engine.Prompt.{Section, scope_all, add_section, new_prompt_builder}
use agent_util.Engine.State.{react, Outside, Engine, State, tool_call_message, tool_result_message}
use agent_util.Engine.Delegate.{Delegation}

abbrev pub fixed_point : Floats
fixed_point = record {
  Float = ℕ;
  of_int = λ n. n * 10000;
  literal = λ n d. n * 10000 / d;
  plus = λ a b. a + b;
  divide = λ a b. a * 10000 / b;
  less = ltb;
  at_least = λ a b. leb b a;
  truncate = λ a. a / 10000;
}

abbrev pub latin : Unicode
latin = record {
  han = λ r. false;
  hiragana = λ r. false;
  katakana = λ r. false;
  hangul = λ r. false;
}

abbrev pub trusting_json : Json
trusting_json = record {
  valid = λ s. true;
  unmarshal_object = λ s. none;
  marshal_object = λ m. none;
}

abbrev pub shell : Tool ℕ
shell = record {
  name = txt "shell";
  description = txt "runs a command";
  parameters = txt "{}";
  is_read_only = false;
  execute = λ dir args w. (executed (record { content = args; is_error = false }), suc w);
}

abbrev pub reader : Tool ℕ
reader = record shell { name = txt "reader"; is_read_only = true }

abbrev pub refusing : {I : Type 0} → Guard ℕ I
refusing = record {
  name = txt "refusing";
  check = λ input w. (checked (record { decision = deny; reason = txt "no"; details = [] }), suc w);
}

abbrev pub allowing : {I : Type 0} → Guard ℕ I
allowing = record {
  name = txt "allowing";
  check = λ input w. (checked (record { decision = allow; reason = []; details = [] }), suc w);
}

abbrev pub rule : Text → PermissionRule
rule name = record { tool_name = name; reason = txt "policy" }

abbrev pub no_shell : PermissionChecker ℕ
no_shell = record {
  policy = record { deny_rules = rule (txt "shell") ∷ []; allow_rules = rule (txt "*") ∷ [] };
  approver = some (λ name args w. (approved, suc w));
}

abbrev pub section : Text → ℕ → Section (Option (Map Text ℕ) × ℕ)
section key priority = record {
  key = key;
  priority = priority;
  scope = scope_all;
  content = key;
  dynamic = none;
  required = true;
}

abbrev pub surroundings : Outside ℕ
surroundings = record {
  json = trusting_json;
  quote = λ s. s;
  marshal_string = λ s. some s;
  unmarshal_router = λ s. ok (record { tool = txt "shell"; arguments = txt "{}"; reasoning = [] });
  random_hex = λ w. (txt "0a", suc w);
  cancelled = λ w. false;
  context_error = λ w. canceled;
  sleep_backoff = λ n w. (none, suc w);
}

-- an engine with two tools whose completer always gives the same answer
abbrev pub engine : Engine fixed_point ℕ
engine = record {
  completer = λ req w. (
    ok (record {
      choices =
          record {
            message = plain_message (txt "assistant") (txt "{}");
            finish_reason = txt "stop";
          }
          ∷ [];
      usage = record { prompt_tokens = 3; completion_tokens = 2; total_tokens = 5 };
    }),
    suc w,
  );
  streamer = none;
  router_completer = none;
  max_turns = 4;
  registry = register_each (shell ∷ reader ∷ []) new_registry;
  compaction = some (record {
    budget_max_chars = 20;
    keep_last = 2;
    target_ratio = 5000;
    summarizer = some (λ msgs w. (summary (txt "short"), suc w));
  });
  delegate_enabled = true;
  coordinator_enabled = true;
  delegate_max_chars = 100;
  coordinate_max_chars = 100;
  coordinator_max_parallelism = 10;
  work_dir = txt "/work";
  prompt_builder = add_section (section (txt "system") 0) new_prompt_builder;
  prompt_of = λ reg. add_section (section (txt "system") 0) new_prompt_builder;
  reminder_threshold = 0;
  max_step_retries = 2;
  max_consecutive_failures = 3;
  verifiers = [];
  perm_checker = some no_shell;
  guards = some (record {
    input_guards = allowing ∷ [];
    tool_call_guards = allowing ∷ [];
    output_guards = allowing ∷ [];
  });
  step_callback = none;
  streaming_enabled = false;
  stream_callback = none;
  context_status_callback = none;
  skill_tool_names = [];
  goal_judge = none;
  loop_type = react;
}

abbrev pub delegation : Delegation ℕ
delegation = record {
  unmarshal_delegate = λ s. ok (record { task = s; context = []; mode = [] });
  unmarshal_coordinate = λ s. ok [];
  worktrees = record { create = λ dir w. (none, w); cleanup = λ dir w. w };
  marshal_indent = λ s. some s;
}

abbrev pub fresh : State fixed_point ℕ
fresh = record {
  manager = new_manager fixed_point 100 none;
  tool_calls = none;
  audit = [];
  world = 0;
}

abbrev pub entry : Message → Entry
entry m = record { message = m; tokens = 4 }

-- a question, a call, its result and an answer
abbrev pub history : List Entry
history =
    entry (plain_message (txt "user") (txt "question"))
    ∷ entry (tool_call_message (λ s. some s) (txt "call_1") (txt "shell") (txt "{}"))
    ∷ entry
        (tool_result_message (txt "call_1") (txt "a long result of the tool that runs a command"))
    ∷ entry (plain_message (txt "assistant") (txt "answer"))
    ∷ []

abbrev pub config : CompactionConfig ℕ ℕ
config = record {
  budget_max_chars = 20;
  keep_last = 2;
  target_ratio = 1;
  summarizer = some (λ msgs w. (summary (txt "short"), suc w));
}
