-- ===== src/Engine/Step/Chat.antt =====
-- internal/engine/engine.go: complete, chatStep and chatStepWithRouterUsage.
use agent_util.Common.{
  ℕ, Option, none, some, List, [], ◌∷◌, ◌++◌, Text, txt, if◌then◌else◌, text_key,
}
use agent_util.Common.Floats.{Floats}
use agent_util.Llm.Message.{
  Message, Usage, Choice, ChatRequest, ChatResponse, content_string, no_usage, add_usage,
}
use agent_util.Context.Estimate.{Unicode}
use agent_util.Context.Manager.{}
use agent_util.Engine.Errors.{Error, empty_response, tripwire, wrap}
use agent_util.Engine.Exec.{
  Result, ok, err, Exec, pure, raise, gets, modify_state, ◌>>=◌, ◌>>◌, wrapping,
}
use agent_util.Engine.Guard.{GuardDecision, allow, deny, GuardRegistry, run_output}
use agent_util.Engine.Permission.{}
use agent_util.Engine.Registry.{}
use agent_util.Engine.State.{
  LoopResult, StreamEvent, Outside, Engine, State, assistant_message, add_message, build_messages,
}
use agent_util.Engine.Step.Parts.{with_world, completed}

abbrev pub stream_result : Result (Text × Text) → Result ChatResponse
stream_result (err er) = err er
stream_result (ok (full, finish_reason)) = ok (record {
  choices = record { message = assistant_message full; finish_reason = finish_reason } ∷ [];
  usage = no_usage;
})

abbrev pub finish_of : Text → Text → Text
finish_of old [] = old
finish_of old (c ∷ cs) = c ∷ cs

abbrev pub safe_message : Message
safe_message = assistant_message (txt "I cannot provide that response.")

module _ (fl : Floats) (u : Unicode) {W : Type 0} (out : Outside W) (e : Engine fl W) where
  abbrev pub told : (Text → ℕ → W → W) → Text → ℕ → W → W
  told callback [] turn w = w
  told callback (c ∷ cs) turn w = callback (c ∷ cs) turn w

  abbrev pub stream_event :
      Option Error → W → (W → Result (Text × Text) × W) → Result (Text × Text) × W
  stream_event (some er) w rest = (err (wrap (txt "stream event") er), w)
  stream_event none w rest = rest w

  -- the loop of complete over the events of the stream
  unfoldable pub stream_loop :
      (Text → ℕ → W → W) → ℕ → List StreamEvent → Text → Text → W → Result (Text × Text) × W
  stream_loop callback turn [] full finish_reason w = (ok (full, finish_reason), w)
  stream_loop callback turn (evt ∷ evts) full finish_reason w =
      let rest = λ (w' : W).
        stream_loop callback turn evts (full ++ evt.delta)
          (finish_of finish_reason evt.finish_reason) (told callback evt.delta turn w') in
      stream_event evt.failure w rest

  abbrev pub streamed :
      (Text → ℕ → W → W) → ℕ → Result (List StreamEvent) × W → Result ChatResponse × W
  streamed callback turn (err er, w) = (err (wrap (txt "stream start") er), w)
  streamed callback turn (ok evts, w) =
      let (r, w') = stream_loop callback turn evts [] [] w in (stream_result r, w')

  abbrev pub by_stream :
      Option (Text → ℕ → W → W)
      → Option (ChatRequest → W → Result (List StreamEvent) × W)
      → ChatRequest
      → ℕ
      → W
      → Result ChatResponse × W
  by_stream none streamer req turn w = e.completer req w
  by_stream (some callback) none req turn w = e.completer req w
  by_stream (some callback) (some streamer) req turn w = streamed callback turn (streamer req w)

  unfoldable pub complete : ChatRequest → ℕ → Exec (State fl W) ChatResponse
  complete req turn = with_world (λ w.
      if e.streaming_enabled
      then by_stream e.stream_callback e.streamer req turn w
      else e.completer req w)

  abbrev pub by_output_guard : GuardDecision → Text → Message → Usage → Exec (State fl W) LoopResult
  by_output_guard GuardDecision.tripwire reason msg usage = raise (tripwire (txt "output") reason)
  by_output_guard deny reason msg usage =
      modify_state (add_message fl u safe_message)
      >> pure (completed (txt "output_blocked") safe_message usage)
  by_output_guard allow reason msg usage =
      modify_state (add_message fl u msg) >> pure (completed (txt "completed") msg usage)

  abbrev pub guarded_output :
      Option (GuardRegistry W) → Message → Usage → Exec (State fl W) LoopResult
  guarded_output none msg usage s =
      (modify_state (add_message fl u msg) >> pure (completed (txt "completed") msg usage)) s
  guarded_output (some guards) msg usage s =
      let (gr, s') = with_world (run_output out.cancelled guards (content_string msg)) s in
      by_output_guard gr.decision gr.reason msg usage s'

  abbrev pub answered : List Choice → Usage → Exec (State fl W) LoopResult
  answered [] usage = raise (wrap (txt "chat step") empty_response)
  answered (choice ∷ choices) usage = guarded_output e.guards choice.message usage

  unfoldable pub chat_step : ℕ → Exec (State fl W) LoopResult
  chat_step turn = gets (build_messages fl u e) >>= λ msgs.
      wrapping (wrap (txt "chat completion"))
        (complete (record { messages = msgs; json_mode = none }) turn)
      >>= λ resp. answered resp.choices resp.usage

  unfoldable pub chat_step_with_router_usage : ℕ → Usage → Exec (State fl W) LoopResult
  chat_step_with_router_usage turn router_usage =
      chat_step turn >>= λ lr. pure (record lr { usage = add_usage lr.usage router_usage })
