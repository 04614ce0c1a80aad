-- ===== src/Rpc/Server.antt =====
-- internal/rpc/server.go. The goroutines share the server, and an event is one of their atomic
-- steps: a line that Serve reads, a caller of SendRequest that begins or comes to its end, a
-- handler that returns, and the shutdown. A schedule is a list of events, in any order. A handler
-- is what it returns, which its event chooses.
pub mod Schedule
pub mod Safety
pub mod Owned
pub mod Correlation
pub mod Counts
pub mod Answers
pub mod Liveness
use agent_util.Common.{
  ℕ, zero, suc, ◌+◌, Bool, true, false, Option, none, some, List, [], ◌∷◌, ◌++◌, Text, txt, text_eq,
  if◌then◌else◌, any_of, ℤ, pos,
}
use agent_util.Protocol.Message.{
  Request, Response, RpcError, version, err_code_parse, err_code_invalid_request,
  err_code_method_not_found, err_code_internal, is_notification, new_response, new_error_response,
}
use agent_util.Rpc.Pending.{
  Channel, PendingRequests, Outcome, done, blocks, panics, new_pending_requests, update, register,
  resolve, cancel_all,
}

-- a message that is written to stdout
pub data Outgoing : Type 0 where
  asks : Request → Outgoing
  answers : Response → Outgoing

-- json.Unmarshal of a line into the types that dispatch uses; `method` is that of the probe
pub record Decoder : Type 0 where
  pub probe_method : Text → Option (Option Text)
  pub response : Text → Option Response
  pub request : Text → Option Request

-- what a handler returns: an error, or a result with what json.Marshal makes of it
pub data Handled : Type 0 where
  failed : RpcError → Handled
  result : Option Text → Handled

-- a caller of SendRequest that waits at its select
pub record Call : Type 0 where
  pub id : ℤ
  pub channel : ℕ

-- what SendRequest returns
pub data Sent : Type 0 where
  response : Response → Sent
  marshal_failed write_failed request_cancelled context_done : Sent

-- the server, the callers that have registered, those that wait and those that have returned, and
-- the handlers that run
pub record Server : Type 0 where
  pub next_id : ℕ
  pub requests : PendingRequests
  pub output : List Outgoing
  pub prepared : List (Call × Request)
  pub calls : List Call
  pub returned : List (ℤ × Sent)
  pub running : List Request
  pub cancelled : Bool
  pub stopped : Bool

-- New
abbrev pub new_server : Server
new_server = record {
  next_id = 0;
  requests = new_pending_requests;
  output = [];
  prepared = [];
  calls = [];
  returned = [];
  running = [];
  cancelled = false;
  stopped = false;
}

pub data Event : Type 0 where
  -- Serve reads a line, or the end of the input
  line : Text → Event
  end_of_input : Event
  -- SendRequest with a method and what json.Marshal makes of the parameters
  begin : Text → Option Text → Event
  -- the registered caller with an index writes its request
  send : ℕ → Event
  -- the waiting caller with an index receives from its channel, or its context is done
  receive give_up : ℕ → Event
  -- the running handler with an index returns
  return : ℕ → Handled → Event
  -- Notify
  notify : Text → Option Text → Event
  -- the context is done, and the goroutine that waits for that cleans up
  cancel clean_up : Event

module _ {A : Type 0} where
  -- the element with an index, and the list without it
  unfoldable pub pick : ℕ → List A → Option (A × List A)
  pick n [] = none
  pick zero (x ∷ xs) = some (x, xs)
  pick (suc n) (x ∷ xs) = elim (pick n xs) [ none ↦ none | some (y, ys) ↦ some (y, x ∷ ys) ]

-- `fails` says of the messages that were written and the next one whether its write fails
module _ (fails : List Outgoing → Outgoing → Bool) where
  unfoldable pub write : Outgoing → Server → Server
  write m s = if fails s.output m then s else record s { output = s.output ++ (m ∷ []) }

  unfoldable pub write_error : Option ℤ → ℤ → Text → Server → Server
  write_error id code message = write (answers (new_error_response id code message))

  unfoldable pub write_result : Option ℤ → Option Text → Server → Server
  write_result id none = write_error id err_code_internal (txt "Internal error")
  write_result id (some encoded) = write (answers (new_response id encoded))

  -- the end of SendRequest for a caller
  abbrev pub finish : ℤ → Sent → Server → Server
  finish id outcome s = record s { returned = s.returned ++ ((id, outcome) ∷ []) }

  abbrev pub request_of : ℕ → Text → Text → Request
  request_of n method encoded = record {
    jsonrpc = version;
    method = method;
    params = some encoded;
    id = some (pos n);
  }

  -- SendRequest up to the write
  unfoldable pub begin_request : Text → Option Text → Server → Server
  begin_request method none s =
      finish (pos (suc s.next_id)) marshal_failed (record s { next_id = suc s.next_id })
  begin_request method (some encoded) s =
      let n = suc s.next_id in
      let (ch, requests) = register (pos n) s.requests in
      record s {
        next_id = n;
        requests = requests;
        prepared =
            s.prepared ++ ((record { id = pos n; channel = ch }, request_of n method encoded) ∷ []);
      }

  -- the write of SendRequest
  abbrev pub send_at : Option ((Call × Request) × List (Call × Request)) → Server → Server
  send_at none s = s
  send_at (some ((c, req), rest)) s =
      if fails s.output (asks req)
      then finish c.id write_failed (record s { prepared = rest })
      else record s {
        prepared = rest;
        output = s.output ++ (asks req ∷ []);
        calls = s.calls ++ (c ∷ []);
      }

  -- `resp, ok := <-ch` of a caller: it waits while the channel is empty and open
  unfoldable pub received : Call → List Call → Option Response → Bool → Server → Server
  received c rest (some resp) shut s = finish c.id (response resp) (record s {
    calls = rest;
    requests = record s.requests {
      channels = update s.requests.channels c.channel (record { buffer = none; closed = shut });
    };
  })
  received c rest none true s = finish c.id request_cancelled (record s { calls = rest })
  received c rest none false s = s

  abbrev pub receive_at : Option (Call × List Call) → Server → Server
  receive_at none s = s
  receive_at (some (c, rest)) s =
      let ch = s.requests.channels c.channel in received c rest ch.buffer ch.closed s

  abbrev pub give_up_at : Option (Call × List Call) → Server → Server
  give_up_at none s = s
  give_up_at (some (c, rest)) s = finish c.id context_done (record s { calls = rest })

  -- the rest of the goroutine of a request
  unfoldable pub handled : Request → Handled → Server → Server
  handled req (failed e) s =
      if is_notification req then s else write_error req.id e.code e.message s
  handled req (result encoded) s = if is_notification req then s else write_result req.id encoded s

  abbrev pub return_at : Option (Request × List Request) → Handled → Server → Server
  return_at none h s = s
  return_at (some (req, rest)) h s = handled req h (record s { running = rest })

  unfoldable pub notify_with : Text → Option Text → Server → Server
  notify_with method none s = s
  notify_with method (some encoded) s =
      write (asks (record { jsonrpc = version; method = method; params = some encoded; id = none }))
        s

  abbrev with_requests : Server → Outcome PendingRequests → Outcome Server
  with_requests s (done p) = done (record s { requests = p })
  with_requests s blocks = blocks
  with_requests s panics = panics

  module _ (decode : Decoder) (handlers : List Text) where
    unfoldable pub dispatch_request : Request → Server → Server
    dispatch_request req s =
        if text_eq req.jsonrpc version
        then if any_of (λ (m : Text). text_eq m req.method) handlers
          then record s { running = s.running ++ (req ∷ []) }
          else if is_notification req
          then s
          else write_error req.id err_code_method_not_found (txt "Method not found: " ++ req.method)
              s
        else write_error req.id err_code_invalid_request (txt "Invalid JSONRPC version") s

    unfoldable pub dispatch_response : Option Response → Server → Outcome Server
    dispatch_response none s = done s
    dispatch_response (some resp) s = with_requests s (resolve resp.id resp s.requests)

    abbrev dispatch_method : Text → Option Request → Server → Server
    dispatch_method text none s = write_error none err_code_parse (txt "Parse error") s
    dispatch_method text (some req) s = dispatch_request req s

    abbrev dispatch_probed : Text → Option (Option Text) → Server → Outcome Server
    dispatch_probed text none s = done (write_error none err_code_parse (txt "Parse error") s)
    dispatch_probed text (some none) s = dispatch_response (decode.response text) s
    dispatch_probed text (some (some method)) s =
        done (dispatch_method text (decode.request text) s)

    unfoldable pub dispatch : Text → Server → Outcome Server
    dispatch text s = dispatch_probed text (decode.probe_method text) s

    -- an iteration of the loop of Serve
    unfoldable pub serve_line : Text → Server → Outcome Server
    serve_line text s =
        if s.stopped
        then done s
        else if s.cancelled
        then done (record s { stopped = true })
        else elim text [ [] ↦ done s | c ∷ cs ↦ dispatch (c ∷ cs) s ]

    unfoldable pub step : Event → Server → Outcome Server
    step (line text) s = serve_line text s
    step end_of_input s = done (record s { stopped = true })
    step (begin method encoded) s = done (begin_request method encoded s)
    step (send n) s = done (send_at (pick n s.prepared) s)
    step (receive n) s = done (receive_at (pick n s.calls) s)
    step (give_up n) s = done (give_up_at (pick n s.calls) s)
    step (return n h) s = done (return_at (pick n s.running) h s)
    step (notify method encoded) s = done (notify_with method encoded s)
    step cancel s = done (record s { cancelled = true })
    step clean_up s = if s.cancelled then with_requests s (cancel_all s.requests) else done s

    unfoldable pub run : List Event → Server → Outcome Server
    run [] s = done s
    run (e ∷ es) s = elim (step e s) [ done s' ↦ run es s' | blocks ↦ blocks | panics ↦ panics ]
