-- ===== src/Engine/Step/History.antt =====
-- What a step of internal/engine/engine.go does to the history: it adds messages that are no tool
-- results, it adds a call with its result, or it compacts.
use agent_util.Common.{
  ℕ, ◌≡◌, refl, false, inl, inr, Option, none, some, List, [], ◌∷◌, ◌++◌, Text, txt, text_eq,
  Bool-cases,
}
use agent_util.Common.Floats.{Floats}
use agent_util.Llm.Message.{
  Message, Usage, Choice, ChatRequest, ChatResponse, content_string, add_usage,
}
use agent_util.Context.Estimate.{Unicode}
use agent_util.Context.Compaction.{CompactionConfig}
use agent_util.Context.Manager.{Manager, add, compact}
use agent_util.Engine.Errors.{Error, wrap, router_parse}
use agent_util.Engine.Exec.{Result, ok, err, Exec, bind_result, map_error}
use agent_util.Engine.Guard.{GuardDecision, allow, deny, GuardRegistry, run_output}
use agent_util.Engine.Permission.{}
use agent_util.Engine.State.{
  RouterResponse, StreamEvent, Outside, Engine, State, tool_call_message, tool_result_message,
  add_message, build_messages, build_router_messages,
}
use agent_util.Engine.Step.{
  stream_result, stream_loop, streamed, by_stream, complete, safe_message, by_output_guard,
  guarded_output, answered, chat_step, chat_step_with_router_usage, parse_content, router_complete,
  router_step, generate_call_id, record_call,
}

abbrev pub IsPlain : Message → Type 0
IsPlain m = text_eq m.role (txt "tool") ≡ false

-- the message that the engine takes from a response is no tool result
abbrev pub FirstIsPlain : List Choice → Type 0
FirstIsPlain [] = Unit {0}
FirstIsPlain (choice ∷ choices) = IsPlain choice.message

-- what holds of a result, if it is no error
abbrev pub Holds : {A : Type 0} → (A → Type 0) → Result A → Type 0
Holds Q (ok a) = Q a
Holds Q (err er) = Unit {0}

map_error-Holds :
    {A : Type 0} (Q : A → Type 0) (f : Error → Error) (r : Result A)
    → Holds Q r
    → Holds Q (map_error f r)
map_error-Holds Q f (ok a) h = h
map_error-Holds Q f (err er) h = tt

pub Holds-any : {A : Type 0} (r : Result A) → Holds (λ a. Unit {0}) r
Holds-any (ok a) = tt
Holds-any (err er) = tt

abbrev ResponsePlain : ChatResponse → Type 0
ResponsePlain resp = FirstIsPlain resp.choices

module _ (fl : Floats) (u : Unicode) {W : Type 0} (out : Outside W) (e : Engine fl W) where
  -- the completer answers with no tool result
  abbrev pub AnswersPlain : Type 0
  AnswersPlain = (req : ChatRequest) (w : W) → Holds ResponsePlain (e.completer req w).0

  stream_result_plain : (r : Result (Text × Text)) → Holds ResponsePlain (stream_result r)
  unfolding txt text_eq
  stream_result_plain (ok (full, finish_reason)) = refl
  stream_result_plain (err er) = tt

  streamed_plain :
      (callback : Text → ℕ → W → W) (turn : ℕ) (r : Result (List StreamEvent) × W)
      → Holds ResponsePlain (streamed fl u out e callback turn r).0
  streamed_plain callback turn (ok evts, w) =
      stream_result_plain (stream_loop fl u out e callback turn evts [] [] w).0
  streamed_plain callback turn (err er, w) = tt

  module _ (plain : AnswersPlain) where
    by_stream_plain :
        (callback : Option (Text → ℕ → W → W))
        (streamer : Option (ChatRequest → W → Result (List StreamEvent) × W)) (req : ChatRequest)
        (turn : ℕ) (w : W)
        → Holds ResponsePlain (by_stream fl u out e callback streamer req turn w).0
    by_stream_plain none streamer req turn w = plain req w
    by_stream_plain (some callback) none req turn w = plain req w
    by_stream_plain (some callback) (some streamer) req turn w =
        streamed_plain callback turn (streamer req w)

    complete_plain :
        (req : ChatRequest) (turn : ℕ) (s : State fl W)
        → Holds ResponsePlain (complete fl u out e req turn s).0
    unfolding complete
    complete_plain req turn s = elim (Bool-cases e.streaming_enabled) [
      | inl streaming ↦
          simp streaming (by_stream_plain e.stream_callback e.streamer req turn s.world)
      | inr whole ↦ simp whole (plain req s.world)
    ]

  module _ (P : Manager fl.Float → Type 0)
      (adds : (msg : Message) (m : Manager fl.Float) → IsPlain msg → P m → P (add fl u msg m))
      (pairs : (hex name arguments content : Text) (m : Manager fl.Float)
        → P m
        → P (
            add fl u (tool_result_message (txt "call_" ++ hex) content) (
              add fl u
                (tool_call_message out.marshal_string (txt "call_" ++ hex) name arguments)
                m)))
      (compacts : (cfg : CompactionConfig W fl.Float) (m : Manager fl.Float) (w : W)
        → P m
        → P (compact fl u cfg m w).1) where
    pub bind_keeps :
        {A B : Type 0} (Q : A → Type 0) (r : Result A) (f : A → Exec (State fl W) B)
        (s : State fl W)
        → Holds Q r
        → P s.manager
        → ((a : A) (s' : State fl W) → Q a → P s'.manager → P (f a s').1.manager)
        → P (bind_result r f s).1.manager
    bind_keeps Q (ok a) f s q p k = k a s q p
    bind_keeps Q (err er) f s q p k = p

    complete-keeps :
        (req : ChatRequest) (turn : ℕ) (s : State fl W)
        → P s.manager
        → P (complete fl u out e req turn s).1.manager
    unfolding complete
    complete-keeps req turn s p = p

    pub add_message-keeps :
        (msg : Message) (s : State fl W)
        → IsPlain msg
        → P s.manager
        → P (add_message fl u msg s).manager
    unfolding add_message
    add_message-keeps msg s h p = adds msg s.manager h p

    pub record_call-keeps :
        (rr : RouterResponse) (content : Text) (s : State fl W)
        → P s.manager
        → P (record_call fl u out e rr content s).manager
    unfolding record_call generate_call_id add_message
    record_call-keeps rr content s p =
        pairs (out.random_hex s.world).0 rr.tool rr.arguments content s.manager p

    by_output_guard-keeps :
        (d : GuardDecision) (reason : Text) (msg : Message) (usage : Usage) (s : State fl W)
        → IsPlain msg
        → P s.manager
        → P (by_output_guard fl u out e d reason msg usage s).1.manager
    unfolding txt text_eq
    by_output_guard-keeps GuardDecision.tripwire reason msg usage s h p = p
    by_output_guard-keeps deny reason msg usage s h p = add_message-keeps safe_message s refl p
    by_output_guard-keeps allow reason msg usage s h p = add_message-keeps msg s h p

    guarded_output-keeps :
        (guards : Option (GuardRegistry W)) (msg : Message) (usage : Usage) (s : State fl W)
        → IsPlain msg
        → P s.manager
        → P (guarded_output fl u out e guards msg usage s).1.manager
    guarded_output-keeps none msg usage s h p = add_message-keeps msg s h p
    guarded_output-keeps (some guards) msg usage s h p =
        let (gr, w) = run_output out.cancelled guards (content_string msg) s.world in
        by_output_guard-keeps gr.decision gr.reason msg usage (record s { world = w }) h p

    answered-keeps :
        (choices : List Choice) (usage : Usage) (s : State fl W)
        → FirstIsPlain choices
        → P s.manager
        → P (answered fl u out e choices usage s).1.manager
    answered-keeps [] usage s h p = p
    answered-keeps (choice ∷ choices) usage s h p =
        guarded_output-keeps e.guards choice.message usage s h p

    module _ (plain : AnswersPlain) where
      pub chat_step-keeps :
          (turn : ℕ) (s : State fl W) → P s.manager → P (chat_step fl u out e turn s).1.manager
      unfolding chat_step
      chat_step-keeps turn s p =
          let req : ChatRequest = record { messages = build_messages fl u e s; json_mode = none } in
          let (r, s') = complete fl u out e req turn s in
          bind_keeps ResponsePlain (map_error (wrap (txt "chat completion")) r)
            (λ resp. answered fl u out e resp.choices resp.usage) s'
            (map_error-Holds ResponsePlain (wrap (txt "chat completion")) r
              (complete_plain plain req turn s))
            (complete-keeps req turn s p) (λ resp s''. answered-keeps resp.choices resp.usage s'')

      pub chat_step_with_router_usage-keeps :
          (turn : ℕ) (router_usage : Usage) (s : State fl W)
          → P s.manager
          → P (chat_step_with_router_usage fl u out e turn router_usage s).1.manager
      unfolding chat_step_with_router_usage
      chat_step_with_router_usage-keeps turn router_usage s p =
          let (r, s') = chat_step fl u out e turn s in
          bind_keeps (λ lr. Unit {0}) r
            (λ lr s''. (ok (record lr { usage = add_usage lr.usage router_usage }), s'')) s'
            (Holds-any r) (chat_step-keeps turn s p) (λ lr s'' q p'. p')

    router_complete-keeps :
        (completer : Option (ChatRequest → W → Result ChatResponse × W)) (req : ChatRequest)
        (s : State fl W)
        → P s.manager
        → P (router_complete fl u out e completer req s).1.manager
    router_complete-keeps none req s p = complete-keeps req 0 s p
    router_complete-keeps (some completer) req s p = p

    pub router_step-keeps : (s : State fl W) → P s.manager → P (router_step fl u out e s).1.manager
    unfolding router_step
    router_step-keeps s p =
        let req : ChatRequest = record {
          messages = build_router_messages fl u e s;
          json_mode = some (txt "json_object");
        } in
        let (r, s') = router_complete fl u out e e.router_completer req s in
        bind_keeps (λ resp. Unit {0}) (map_error (wrap (txt "router step")) r) _ s'
          (Holds-any (map_error (wrap (txt "router step")) r))
          (router_complete-keeps e.router_completer req s p)
          (λ resp s'' q p'.
            bind_keeps (λ rr. Unit {0}) (map_error router_parse (parse_content fl u out e resp)) _
              s'' (Holds-any (map_error router_parse (parse_content fl u out e resp))) p'
              (λ rr s3 q' p3. p3))
