-- ===== src/Engine/Calls.antt =====
-- internal/engine/engine.go: what the handlers call besides Run, that is RegisterTool, Tools, History,
-- Inject and Summarize. The sections of the prompt read the registry that the engine has when they
-- are resolved.
pub mod Laws
use agent_util.Common.{ℕ, ◌+◌, Option, none, some, List, [], ◌∷◌, ◌++◌, map, Text, txt}
use agent_util.Common.Floats.{Floats}
use agent_util.Llm.Message.{Message, ChatRequest, ChatResponse, Choice, content_string}
use agent_util.Context.Estimate.{Unicode}
use agent_util.Context.Manager
use agent_util.Context.Manager.{messages, set_reserved}
use agent_util.Engine.Errors.{Error, empty_response, wrap}
use agent_util.Engine.Exec.{Result, ok, err}
use agent_util.Engine.Prompt.{PromptBuilder, estimate_reserved_tokens}
use agent_util.Engine.Registry.{Tool, Registry, register}
use agent_util.Engine.State.{Engine, State, user_message}

-- summarizePrompt, in UTF-8
abbrev summarize_prompt : Text
summarize_prompt =
    0xe4 ∷ 0xb8 ∷ 0x8a ∷ 0xe8 ∷ 0xa8 ∷ 0x98 ∷ 0xe3 ∷ 0x81 ∷ 0xae ∷ 0xe4 ∷ 0xbc ∷ 0x9a ∷ 0xe8 ∷ 0xa9
    ∷ 0xb1 ∷ 0xe3 ∷ 0x82 ∷ 0x92 ∷ 0x32 ∷ 0xe3 ∷ 0x80 ∷ 0x9c ∷ 0x33 ∷ 0xe6 ∷ 0x96 ∷ 0x87 ∷ 0xe3
    ∷ 0x81 ∷ 0xa7 ∷ 0xe7 ∷ 0xb0 ∷ 0xa1 ∷ 0xe6 ∷ 0xbd ∷ 0x94 ∷ 0xe3 ∷ 0x81 ∷ 0xab ∷ 0xe8 ∷ 0xa6
    ∷ 0x81 ∷ 0xe7 ∷ 0xb4 ∷ 0x84 ∷ 0xe3 ∷ 0x81 ∷ 0x97 ∷ 0xe3 ∷ 0x81 ∷ 0xa6 ∷ 0xe3 ∷ 0x81 ∷ 0x8f
    ∷ 0xe3 ∷ 0x81 ∷ 0xa0 ∷ 0xe3 ∷ 0x81 ∷ 0x95 ∷ 0xe3 ∷ 0x81 ∷ 0x84 ∷ 0xe3 ∷ 0x80 ∷ 0x82 ∷ 0xe9
    ∷ 0x87 ∷ 0x8d ∷ 0xe8 ∷ 0xa6 ∷ 0x81 ∷ 0xe3 ∷ 0x81 ∷ 0xaa ∷ 0xe3 ∷ 0x83 ∷ 0x88 ∷ 0xe3 ∷ 0x83
    ∷ 0x94 ∷ 0xe3 ∷ 0x83 ∷ 0x83 ∷ 0xe3 ∷ 0x82 ∷ 0xaf ∷ 0xe3 ∷ 0x81 ∷ 0xa8 ∷ 0xe7 ∷ 0xb5 ∷ 0x90
    ∷ 0xe6 ∷ 0x9e ∷ 0x9c ∷ 0xe3 ∷ 0x81 ∷ 0xab ∷ 0xe7 ∷ 0x84 ∷ 0xa6 ∷ 0xe7 ∷ 0x82 ∷ 0xb9 ∷ 0xe3
    ∷ 0x82 ∷ 0x92 ∷ 0xe5 ∷ 0xbd ∷ 0x93 ∷ 0xe3 ∷ 0x81 ∷ 0xa6 ∷ 0xe3 ∷ 0x81 ∷ 0xa6 ∷ 0xe3 ∷ 0x81
    ∷ 0x8f ∷ 0xe3 ∷ 0x81 ∷ 0xa0 ∷ 0xe3 ∷ 0x81 ∷ 0x95 ∷ 0xe3 ∷ 0x81 ∷ 0x84 ∷ 0xe3 ∷ 0x80 ∷ 0x82 ∷ []

abbrev first_choice : List Choice → Result Text
first_choice [] = err (wrap (txt "summarize") empty_response)
first_choice (c ∷ cs) = ok (content_string c.message)

abbrev summarized : Result ChatResponse → Result Text
summarized (err e) = err (wrap (txt "summarize") e)
summarized (ok resp) = first_choice resp.choices

module _ (fl : Floats) {W : Type 0} where
  unfoldable pub history : State fl W → List Message
  history s = messages fl s.manager

  abbrev summarize_all : Engine fl W → List Message → W → Result Text × W
  summarize_all e [] w = (ok [], w)
  summarize_all e (m ∷ ms) w =
      let (answer, w') =
        e.completer
          (record { messages = m ∷ (ms ++ (user_message summarize_prompt ∷ [])); json_mode = none })
          w in
      (summarized answer, w')

  unfoldable pub summarize : Engine fl W → State fl W → Result Text × State fl W
  summarize e s = let (r, w) = summarize_all e (history s) s.world in (r, record s { world = w })

module _ (fl : Floats) (u : Unicode) {W : Type 0} where
  -- the engine with another registry: its prompt builder keeps its cache and its flag
  abbrev with_tools_of : Registry W → Engine fl W → Engine fl W
  with_tools_of reg e = record e {
    registry = reg;
    prompt_builder = record (e.prompt_of reg) {
      cached_tokens = e.prompt_builder.cached_tokens;
      dirty = e.prompt_builder.dirty;
    };
  }

  unfoldable pub update_reserved_tokens : Engine fl W × State fl W → Engine fl W × State fl W
  update_reserved_tokens (e, s) =
      let (reserved, builder) =
        estimate_reserved_tokens fl u e.prompt_builder (s.tool_calls, s.world) in
      (
        record e { prompt_builder = builder },
        record s { manager = set_reserved fl reserved s.manager },
      )

  abbrev registered_with :
      Option (Registry W) → Engine fl W × State fl W → Option (Engine fl W × State fl W)
  registered_with none es = none
  registered_with (some reg) (e, s) = some (update_reserved_tokens (with_tools_of reg e, s))

  -- RegisterTool: `none` is the error of a duplicate name
  unfoldable pub register_tool :
      Tool W → Engine fl W × State fl W → Option (Engine fl W × State fl W)
  register_tool t (e, s) = registered_with (register t e.registry) (e, s)

  unfoldable pub inject : List Message → Text → State fl W → State fl W
  inject msgs position s = record s { manager = Manager.inject fl u msgs position s.manager }
