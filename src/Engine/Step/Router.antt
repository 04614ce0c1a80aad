-- ===== src/Engine/Step/Router.antt =====
-- internal/engine/router.go: routerStep, with ParseContent of internal/llm/client.go.
use agent_util.Common.{
  Option, none, some, List, [], ◌∷◌, Text, txt, text_eq, if◌then◌else◌, text_key,
}
use agent_util.Common.Floats.{Floats}
use agent_util.Llm.Message.{Usage, Choice, ChatRequest, ChatResponse, content_string}
use agent_util.Llm.FixJson.{fix_json}
use agent_util.Context.Estimate.{Unicode}
use agent_util.Context.Manager.{}
use agent_util.Engine.Errors.{empty_response, router_parse, wrap, other}
use agent_util.Engine.Exec.{Result, err, Exec, pure, from_result, gets, ◌>>=◌, map_error, wrapping}
use agent_util.Engine.Guard.{}
use agent_util.Engine.Permission.{}
use agent_util.Engine.Registry.{}
use agent_util.Engine.State.{RouterResponse, Outside, Engine, State, build_router_messages}
use agent_util.Engine.Step.Parts.{with_world}
use agent_util.Engine.Step.Chat.{complete}

abbrev pub or_none : RouterResponse → RouterResponse
or_none rr = if text_eq rr.tool [] then record rr { tool = txt "none" } else rr

module _ (fl : Floats) (u : Unicode) {W : Type 0} (out : Outside W) (e : Engine fl W) where
  -- llm.ParseContent
  abbrev pub parse_raw : Text → Result RouterResponse
  parse_raw [] = err (other (txt "parse content: empty content"))
  parse_raw (c ∷ cs) =
      map_error (wrap (txt "parse content")) (out.unmarshal_router (fix_json out.json (c ∷ cs)))

  abbrev pub parse_choices : List Choice → Result RouterResponse
  parse_choices [] = err (wrap (txt "parse content") empty_response)
  parse_choices (choice ∷ choices) = parse_raw (content_string choice.message)

  unfoldable pub parse_content : ChatResponse → Result RouterResponse
  parse_content resp = parse_choices resp.choices

  abbrev pub router_complete :
      Option (ChatRequest → W → Result ChatResponse × W)
      → ChatRequest
      → Exec (State fl W) ChatResponse
  router_complete none req = complete fl u out e req 0
  router_complete (some completer) req = with_world (completer req)

  unfoldable pub router_step : Exec (State fl W) (RouterResponse × Usage)
  router_step = gets (build_router_messages fl u e) >>= λ msgs.
      wrapping (wrap (txt "router step")) (
        router_complete e.router_completer
          (record { messages = msgs; json_mode = some (txt "json_object") }))
      >>= λ resp. wrapping router_parse (from_result (parse_content resp)) >>= λ rr.
          pure (or_none rr, resp.usage)
