-- ===== src/Rpc/Server/Correlation.antt =====
-- internal/rpc/server.go and pending.go: requests of the core and the responses to them.
use agent_util.Common.{
  ℕ, suc, ◌≡◌, refl, ap, subst, ◌∙◌, Bool, true, false, inl, inr, Option, none, some, Option-cases,
  List, [], ◌∷◌, arith, Text, ℤ, pos, int_key, if◌then◌else◌, All, All-append,
}
use agent_util.Protocol.Message.{Request, Response}
use agent_util.Rpc.Pending.{PendingRequests, Outcome, done, blocks, panics, register}
use agent_util.Rpc.Server
use agent_util.Rpc.Server.{
  Outgoing, Decoder, Handled, Call, Sent, Server, new_server, Event, line, end_of_input, begin,
  send, receive, give_up, return, notify, cancel, clean_up, pick, write, write_error, write_result,
  begin_request, send_at, received, receive_at, give_up_at, handled, return_at, notify_with,
  dispatch_request, dispatch_response, dispatch, serve_line, step, run,
}
use agent_util.Rpc.Server.Safety.{run-IsDone}
use agent_util.Rpc.Server.Schedule.{Picked, pick-Picked, Then, Then-if, Then-bind}
use agent_util.Rpc.Server.Owned.{
  Owns, claim, IsFor, Owned, IsOwned, SameParts, SameParts-Owned, finish-Owned, register-Owned,
  Filled-taken, with_entries, resolve-Owned, cancel_all-Owned,
}

module _ (fails : List Outgoing → Outgoing → Bool) where
  write-SameParts : (m : Outgoing) (s : Server) → SameParts s (write fails m s)
  unfolding write
  write-SameParts m s = (ground arith, ground arith, ground arith, ground arith)

  handled-SameParts :
      (req : Request) (h : Handled) (s : Server) → SameParts s (handled fails req h s)
  unfolding handled write_error write_result write
  handled-SameParts req (Server.failed e) s =
      (ground arith, ground arith, ground arith, ground arith)
  handled-SameParts req (Server.result none) s =
      (ground arith, ground arith, ground arith, ground arith)
  handled-SameParts req (Server.result (some encoded)) s =
      (ground arith, ground arith, ground arith, ground arith)

  receive_at-Owned :
      (owner : ℕ → ℤ) (o : Option (Call × List Call)) (s : Server)
      → Picked (λ c. Owns owner s.requests.next_channel (claim c)) o
      → Owned owner s
      → Owned owner (receive_at fails o s)
  unfolding received
  receive_at-Owned owner none s p o = o
  receive_at-Owned owner (some (c, rest)) s p o =
      by_buffer (s.requests.channels c.channel).buffer (s.requests.channels c.channel).closed refl
    where
      left : (q : PendingRequests) → q ≡ s.requests → Owned owner (record s { calls = rest })
      left q e = record {
        entries = o.entries;
        waiting = p.1;
        registered = o.registered;
        filled = o.filled;
        answered = o.answered;
      }

      by_buffer :
          (b : Option Response) (shut : Bool)
          → (s.requests.channels c.channel).buffer ≡ b
          → Owned owner (received fails c rest b shut s)
      by_buffer none true e =
          finish-Owned owner c.id Server.request_cancelled _ tt (left s.requests refl)
      by_buffer none false e = o
      by_buffer (some resp) shut e =
          finish-Owned owner c.id (Server.response resp) _
            (o.filled c.channel resp e ∙ ap some (p.0.0))
            (with_entries owner (record s { calls = rest }) s.requests.pending _ o.entries
              (Filled-taken owner c.channel shut s.requests.channels o.filled)
              (left s.requests refl))

  give_up_at-Owned :
      (owner : ℕ → ℤ) (o : Option (Call × List Call)) (s : Server)
      → Picked (λ c. Owns owner s.requests.next_channel (claim c)) o
      → Owned owner s
      → Owned owner (give_up_at fails o s)
  give_up_at-Owned owner none s p o = o
  give_up_at-Owned owner (some (c, rest)) s p o =
      finish-Owned owner c.id Server.context_done _ tt (record {
        entries = o.entries;
        waiting = p.1;
        registered = o.registered;
        filled = o.filled;
        answered = o.answered;
      })

  send_at-Owned :
      (owner : ℕ → ℤ) (o : Option ((Call × Request) × List (Call × Request))) (s : Server)
      → Picked (λ p. Owns owner s.requests.next_channel (claim p.0)) o
      → Owned owner s
      → Owned owner (send_at fails o s)
  send_at-Owned owner none s p o = o
  send_at-Owned owner (some ((c, req), rest)) s p o =
      if-Owned (fails s.output (Server.asks req)) _ _
        (finish-Owned owner c.id Server.write_failed _ tt (record {
          entries = o.entries;
          waiting = o.waiting;
          registered = p.1;
          filled = o.filled;
          answered = o.answered;
        }))
        (record {
          entries = o.entries;
          waiting = All-append _ s.calls _ o.waiting (p.0, tt);
          registered = p.1;
          filled = o.filled;
          answered = o.answered;
        })
    where
      if-Owned :
          (b : Bool) (x y : Server)
          → Owned owner x
          → Owned owner y
          → Owned owner (if b then x else y)
      if-Owned true x y h k = h
      if-Owned false x y h k = k

  module _ (decode : Decoder) (handlers : List Text) where
    dispatch_request-SameParts :
        (req : Request) (s : Server) → SameParts s (dispatch_request fails decode handlers req s)
    unfolding dispatch_request write_error write
    dispatch_request-SameParts req s = (ground arith, ground arith, ground arith, ground arith)

    with_requests-Owned :
        (owner : ℕ → ℤ) (s : Server) (r : Outcome PendingRequests)
        → Then (λ q. Owned owner (record s { requests = q })) r
        → Then IsOwned (Server.with_requests fails s r)
    with_requests-Owned owner s (done q) h = (owner, h)
    with_requests-Owned owner s blocks h = tt
    with_requests-Owned owner s panics h = tt

    stopped-Owned : (s : Server) → IsOwned s → IsOwned (record s { stopped = true })
    stopped-Owned s (owner, o) = (owner, SameParts-Owned owner s _ (refl, refl, refl, refl) o)

    response-Owned :
        (o : Option Response) (s : Server)
        → IsOwned s
        → Then IsOwned (dispatch_response fails decode handlers o s)
    unfolding dispatch_response
    response-Owned none s h = h
    response-Owned (some resp) s (owner, o) =
        with_requests-Owned owner s _ (resolve-Owned owner resp.id resp s refl o)

    dispatch-Owned :
        (text : Text) (probed : Option (Option Text)) (s : Server)
        → decode.probe_method text ≡ probed
        → IsOwned s
        → Then IsOwned (dispatch fails decode handlers text s)
    unfolding dispatch write_error
    dispatch-Owned text none s e (owner, o) =
        rw (e, dispatch) (owner, SameParts-Owned owner s _ (write-SameParts _ s) o)
    dispatch-Owned text (some none) s e (owner, o) =
        rw (e, dispatch) (response-Owned (decode.response text) s (owner, o))
    dispatch-Owned text (some (some method)) s e (owner, o) =
        rw (e, dispatch)
          (elim (Option-cases (decode.request text)) [
            | inl bad ↦ rw bad (owner, SameParts-Owned owner s _ (write-SameParts _ s) o)
            | inr (req, good) ↦
                rw good (owner, SameParts-Owned owner s _ (dispatch_request-SameParts req s) o)
          ])

    step-Owned :
        (e : Event) (s : Server) → IsOwned s → Then IsOwned (step fails decode handlers e s)
    unfolding step serve_line begin_request notify_with register
    step-Owned (line []) s h =
        Then-if IsOwned s.stopped _ _ h (Then-if IsOwned s.cancelled _ _ (stopped-Owned s h) h)
    step-Owned (line (b ∷ bs)) s h =
        Then-if IsOwned s.stopped _ _ h
          (Then-if IsOwned s.cancelled _ _ (stopped-Owned s h) (dispatch-Owned (b ∷ bs) _ s refl h))
    step-Owned end_of_input s h = stopped-Owned s h
    step-Owned (begin method none) s (owner, o) = (
      owner,
      finish-Owned owner (pos (suc s.next_id)) Server.marshal_failed _ tt
          (SameParts-Owned owner s _ (refl, refl, refl, refl) o),
    )
    step-Owned (begin method (some encoded)) s (owner, o) =
        (_, register-Owned owner (pos (suc s.next_id)) _ (suc s.next_id) s o)
    step-Owned (send n) s (owner, o) =
        (owner, send_at-Owned owner _ s (pick-Picked _ n s.prepared o.registered) o)
    step-Owned (receive n) s (owner, o) =
        (owner, receive_at-Owned owner _ s (pick-Picked _ n s.calls o.waiting) o)
    step-Owned (give_up n) s (owner, o) =
        (owner, give_up_at-Owned owner _ s (pick-Picked _ n s.calls o.waiting) o)
    step-Owned (return n h) s (owner, o) =
        (owner, SameParts-Owned owner s _ (ended (pick n s.running)) o)
      where
        ended : (r : Option (Request × List Request)) → SameParts s (return_at fails r h s)
        ended none = (refl, refl, refl, refl)
        ended (some (req, rest)) = handled-SameParts req h (record s { running = rest })
    step-Owned (notify method none) s h = h
    step-Owned (notify method (some encoded)) s (owner, o) =
        (owner, SameParts-Owned owner s _ (write-SameParts _ s) o)
    step-Owned cancel s (owner, o) = (owner, SameParts-Owned owner s _ (refl, refl, refl, refl) o)
    step-Owned clean_up s (owner, o) =
        Then-if IsOwned s.cancelled _ _ (with_requests-Owned owner s _ (cancel_all-Owned owner s o))
          (owner, o)

    run-Owned :
        (es : List Event) (s : Server) → IsOwned s → Then IsOwned (run fails decode handlers es s)
    unfolding run
    run-Owned [] s h = h
    run-Owned (e ∷ es) s h =
        Then-bind IsOwned IsOwned (run fails decode handlers es) (step fails decode handlers e s)
          (step-Owned e s h) (run-Owned es)

    new-Owned : IsOwned new_server
    new-Owned = (
      λ _. pos 0,
      record {
        entries = tt;
        waiting = tt;
        registered = tt;
        filled = λ ch resp e. cc;
        answered = tt;
      },
    )

    -- Whatever the goroutines do, in any order, and whichever writes fail: every schedule runs to
    -- its end from a new server, and each response that a caller of SendRequest got carries the id
    -- that the caller's request has.
    pub run-IsFor :
        (es : List Event)
        → (s : Server) × (run fails decode handlers es new_server ≡ done s) × All IsFor s.returned
    run-IsFor es =
        let (s, e) = run-IsDone fails decode handlers es in
        (s, e, (subst (Then IsOwned) e (run-Owned es new_server new-Owned)).1.answered)
