-- ===== src/Examples/Handlers.antt =====
-- Properties of the handlers at concrete inputs.
use agent_util.Common.{
  false, ℕ, suc, ◌++◌, ◌≡◌, ◌↔◌, refl, Option, none, some, List, [], ◌∷◌, Text, txt, arith,
}
use agent_util.Context.Manager.{token_count}
use agent_util.Engine.Exec.{Result, ok, err}
use agent_util.Engine.Errors.{other}
use agent_util.Engine.New.{new_engine}
use agent_util.Engine.Options.{default_engine_config}
use agent_util.Engine.Registry.{register_each, new_registry}
use agent_util.Engine.State.{Engine, State}
use agent_util.Protocol.Methods.{AgentConfigureParams, SessionMessage, SessionInjectParams}
use agent_util.Protocol.Registration.{ToolRegisterParams}
use agent_util.Rpc.Configure.{Wrapper, Draft}
use agent_util.Rpc.Configure.Rebuild.{Driver, draft, set_llm}
use agent_util.Rpc.Registry.{new_remote_registry}
use agent_util.Rpc.Handlers.{
  Handlers, answered, begin_run, handle_agent_abort, handle_session_history, handle_session_inject,
}
use agent_util.Rpc.Handlers.Agent.{handle_agent_configure}
use agent_util.Rpc.Handlers.Dispatch.{
  Services, Call, agent_run, tool_register, session_inject, handle_calls,
}
use agent_util.Rpc.Handlers.Laws.{tool_register-token_count}
use agent_util.Rpc.Handlers.Ready.{IsConfigured, handle_calls-IsConfigured}
use agent_util.Rpc.Handlers.Registrations.{handle_tool_register}
use agent_util.Rpc.Handlers.Runs.{Event, call, work, leave, abort, run, idle, IsExclusive, to_list}
use agent_util.Rpc.Handlers.Runs.Exclusion.{run-IsExclusive}
use agent_util.Rpc.Handlers.Sessions.{session_inject-history}
use agent_util.Examples.Setting.{
  fixed_point, latin, engine, surroundings, delegation, fresh, shell, reader,
}
use agent_util.Examples.Remote.{codec, wrapper, literal}

abbrev waiting : Handlers fixed_point ℕ
waiting = record { eng = engine; state = fresh; run_cancel = none; remote = new_remote_registry }

-- a run, a second one that is refused, an abort, the end of the run, and another run
abbrev two_runs : List (Event fixed_point ℕ)
two_runs = call ∷ call ∷ work 0 (λ s. s) ∷ abort ∷ leave 0 ∷ call ∷ []

run-IsExclusive_example :
    IsExclusive fixed_point (run fixed_point two_runs (idle fixed_point waiting))
    × (to_list
          (handle_agent_abort fixed_point
            (run fixed_point two_runs (idle fixed_point waiting)).handlers).1
        ≡ (run fixed_point two_runs (idle fixed_point waiting)).active)
    × (((begin_run fixed_point
            (run fixed_point two_runs (idle fixed_point waiting)).next
            (run fixed_point two_runs (idle fixed_point waiting)).handlers).0
          ≡ none)
        ↔ ((run fixed_point two_runs (idle fixed_point waiting)).active ≡ []))
run-IsExclusive_example = run-IsExclusive fixed_point two_runs waiting refl

abbrev note : SessionMessage
note = record { role = txt "user"; content = txt "a note"; tool_calls = []; tool_call_id = [] }

abbrev first_note : SessionInjectParams
first_note = record { messages = note ∷ []; position = txt "prepend" }

session_inject-history_example :
    ((handle_session_history fixed_point
        (handle_session_inject fixed_point latin (ok first_note) waiting).1).messages
      ≡ note ∷ [])
    × ((handle_session_inject fixed_point latin (ok first_note) waiting).0
        ≡ answered (record { injected = 1; total = 1 }))
unfolding handle_session_history handle_session_inject agent_util.Common.text_eq
    agent_util.Engine.Calls.history txt agent_util.Context.Manager.messages
    agent_util.Context.Manager.new_manager agent_util.Engine.Calls.inject
    agent_util.Context.Manager.inject agent_util.Context.Manager.replace_entries
    agent_util.Context.Manager.check_threshold
session_inject-history_example = session_inject-history fixed_point latin first_note waiting

abbrev services : Services fixed_point ℕ
services = record {
  codec = codec;
  server = wrapper;
  out = surroundings;
  delegation = delegation;
  marshal_map = λ m. none;
  quote = λ text. text;
  std = literal;
  marshal_indent = λ text. some text;
  wrapper = record {
    notify = λ method n w. suc w;
    new_remote_completer = λ seconds req w. (err (other []), w);
    new_client = λ c req w. (err (other []), w);
  };
}

abbrev remote_tools : Result ToolRegisterParams
remote_tools = ok (record {
  tools =
      record {
        name = txt "remote";
        description = txt "d";
        parameters = txt "{}";
        read_only = false;
      }
      ∷ [];
})

-- the handlers with the engine that New builds without options
abbrev built_or : Option (Engine fixed_point ℕ × State fixed_point ℕ) → Handlers fixed_point ℕ
built_or none = waiting
built_or (some (e, s)) = record waiting { eng = e; state = s }

abbrev built : Handlers fixed_point ℕ
built = built_or (
    new_engine fixed_point latin (λ text. some text) engine.completer none
      (default_engine_config fixed_point) 0)

tool_register-token_count_example :
    token_count fixed_point
      (handle_tool_register fixed_point latin codec wrapper remote_tools built).1.state.manager
    ≡ token_count fixed_point built.state.manager
unfolding new_engine agent_util.Engine.Registry.register_all
tool_register-token_count_example =
    tool_register-token_count fixed_point latin services (default_engine_config fixed_point)
      remote_tools built refl

abbrev no_change : AgentConfigureParams ℕ
no_change = record {
  max_turns = some 3;
  system_prompt = none;
  token_limit = none;
  work_dir = none;
  delegate = none;
  coordinator = none;
  compaction = none;
  permission = none;
  guards = none;
  verify = none;
  tool_scope = none;
  reminder = none;
  streaming = none;
  loop = none;
  router = none;
  judge = none;
  llm = none;
}

abbrev earlier : List (Call ℕ)
earlier = session_inject (ok first_note) ∷ tool_register (err (other (txt "EOF"))) ∷ []

abbrev drafted : Draft fixed_point ℕ
drafted = record {
  config = record (default_engine_config fixed_point) { max_turns = 3 };
  applied = txt "max_turns" ∷ [];
}

abbrev later : Handlers fixed_point ℕ
later = handle_calls fixed_point latin services earlier waiting

abbrev driver : Driver ℕ
driver = (later.eng.completer, later.eng.streamer, [])

handle_calls-IsConfigured_example :
    IsConfigured fixed_point latin services no_change later drafted driver (
      handle_agent_configure fixed_point latin services.quote services.std services.marshal_indent
        services.wrapper
        (ok no_change)
        later)
unfolding handle_calls draft set_llm agent_util.Rpc.Configure.Names.set_compaction
    agent_util.Rpc.Configure.Names.set_guards agent_util.Rpc.Configure.Names.set_verify
    agent_util.Rpc.Configure.Names.set_loop agent_util.Rpc.Configure.Names.set_judge
    agent_util.Rpc.Configure.Fields.carry_over agent_util.Rpc.Handlers.Dispatch.handle_call
    handle_session_inject handle_tool_register agent_util.Rpc.Configure.Fields.set_router
    agent_util.Rpc.Configure.Fields.set_streaming agent_util.Rpc.Configure.Fields.set_reminder
    agent_util.Rpc.Configure.Fields.set_tool_scope agent_util.Rpc.Configure.Fields.set_permission
    agent_util.Rpc.Configure.Fields.set_coordinator agent_util.Rpc.Configure.Fields.set_delegate txt
handle_calls-IsConfigured_example =
    handle_calls-IsConfigured fixed_point latin services earlier waiting no_change drafted driver
      (refl, (shell ∷ reader ∷ [], refl)) refl refl
