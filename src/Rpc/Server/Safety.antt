-- ===== src/Rpc/Server/Safety.antt =====
-- internal/rpc/server.go: sends on channels and closes of them, over the schedules of the
-- goroutines.
use agent_util.Common.{
  ℕ, ◌≡◌, refl, sym, subst, ◌∙◌, Bool, true, false, inl, inr, Option, none, some, Option-cases,
  List, [], ◌∷◌, arith, Text, Map, ℤ, if◌then◌else◌,
}
use agent_util.Protocol.Message.{Request, Response}
use agent_util.Rpc.Pending.{Channel, Outcome, done}
use agent_util.Rpc.Pending.Laws.{
  Differs, Ready, IsReady, Ready-update, register-IsReady, resolve-done, cancel_all-done,
}
use agent_util.Rpc.Server.{
  Outgoing, Decoder, Handled, Call, Server, new_server, Event, line, end_of_input, begin, send,
  receive, give_up, return, notify, cancel, clean_up, pick, write, write_error, write_result,
  begin_request, send_at, received, receive_at, give_up_at, handled, return_at, notify_with,
  dispatch_request, dispatch_response, dispatch, serve_line, step, run,
}
use agent_util.Rpc.Server

filled-Differs :
    (n c : ℕ) (resp : Response) (channels : ℕ → Channel) (m : Map ℤ ℕ)
    → (channels c).buffer ≡ some resp
    → Ready n channels m
    → Differs c m
filled-Differs n c resp channels [] e r = tt
filled-Differs n c resp channels ((id, k) ∷ m) e r =
    (ground arith, filled-Differs n c resp channels m e r.3)

module _ (fails : List Outgoing → Outgoing → Bool) where
  received-IsReady :
      (c : Call) (rest : List Call) (b : Option Response) (shut : Bool) (s : Server)
      → (s.requests.channels c.channel).buffer ≡ b
      → IsReady s.requests
      → IsReady (received fails c rest b shut s).requests
  unfolding received
  received-IsReady c rest none true s e r = r
  received-IsReady c rest none false s e r = r
  received-IsReady c rest (some resp) shut s e r =
      let q = s.requests in
      Ready-update q.next_channel c.channel _ q.channels q.pending
        (filled-Differs q.next_channel c.channel resp q.channels q.pending e r) r

  receive_at-IsReady :
      (o : Option (Call × List Call)) (s : Server)
      → IsReady s.requests
      → IsReady (receive_at fails o s).requests
  receive_at-IsReady none s r = r
  receive_at-IsReady (some (c, rest)) s r = received-IsReady c rest _ _ s refl r

  write-requests : (m : Outgoing) (s : Server) → (write fails m s).requests ≡ s.requests
  unfolding write
  write-requests m s = ground arith

  handled-requests :
      (req : Request) (h : Handled) (s : Server) → (handled fails req h s).requests ≡ s.requests
  unfolding handled write_error write_result write
  handled-requests req (Server.failed e) s = ground arith
  handled-requests req (Server.result none) s = ground arith
  handled-requests req (Server.result (some encoded)) s = ground arith

  module _ (decode : Decoder) (handlers : List Text) where
    dispatch_request-requests :
        (req : Request) (s : Server)
        → (dispatch_request fails decode handlers req s).requests ≡ s.requests
    unfolding dispatch_request write_error write
    dispatch_request-requests req s = ground arith

    -- what each step is to show
    abbrev Goes : Outcome Server → Type 0
    Goes o = (s' : Server) × (o ≡ done s') × IsReady s'.requests

    Goes-if : (b : Bool) (x y : Outcome Server) → Goes x → Goes y → Goes (if b then x else y)
    Goes-if true x y g h = g
    Goes-if false x y g h = h

    keeps : (s s' : Server) → s'.requests ≡ s.requests → IsReady s.requests → Goes (done s')
    keeps s s' e r = (s', refl, rw e r)

    response-Goes :
        (o : Option Response) (s : Server)
        → IsReady s.requests
        → Goes (dispatch_response fails decode handlers o s)
    unfolding dispatch_response
    response-Goes none s r = (s, refl, r)
    response-Goes (some resp) s r =
        let (q, e, ready) = resolve-done resp.id resp s.requests r in
        (record s { requests = q }, rw e refl, ready)

    dispatch-Goes :
        (text : Text) (probed : Option (Option Text)) (s : Server)
        → decode.probe_method text ≡ probed
        → IsReady s.requests
        → Goes (dispatch fails decode handlers text s)
    unfolding dispatch write_error write
    dispatch-Goes text none s e r = rw (e, dispatch) (keeps s _ (ground arith) r)
    dispatch-Goes text (some none) s e r =
        rw (e, dispatch) (response-Goes (decode.response text) s r)
    dispatch-Goes text (some (some method)) s e r =
        rw (e, dispatch)
          (elim (Option-cases (decode.request text)) [
            | inl bad ↦ rw bad (keeps s _ (ground arith) r)
            | inr (req, good) ↦ rw good (keeps s _ (dispatch_request-requests req s) r)
          ])

    serve_line-Goes :
        (text : Text) (s : Server)
        → IsReady s.requests
        → Goes (serve_line fails decode handlers text s)
    unfolding serve_line
    serve_line-Goes text s r =
        Goes-if s.stopped _ _ (s, refl, r) (Goes-if s.cancelled _ _ (_, refl, r) (by_text text))
      where
        by_text :
            (t : Text)
            → Goes (elim t [ [] ↦ done s | b ∷ bs ↦ dispatch fails decode handlers (b ∷ bs) s ])
        by_text [] = (s, refl, r)
        by_text (b ∷ bs) = dispatch-Goes (b ∷ bs) _ s refl r

    step-Goes :
        (e : Event) (s : Server) → IsReady s.requests → Goes (step fails decode handlers e s)
    unfolding step begin_request notify_with write
    step-Goes (line text) s r = serve_line-Goes text s r
    step-Goes end_of_input s r = (_, refl, r)
    step-Goes (begin method none) s r = (_, refl, r)
    step-Goes (begin method (some encoded)) s r = (_, refl, register-IsReady _ s.requests r)
    step-Goes (send n) s r = keeps s _ (sent (pick n s.prepared)) r
      where
        sent :
            (o : Option ((Call × Request) × List (Call × Request)))
            → (send_at fails o s).requests ≡ s.requests
        sent none = refl
        sent (some ((c, req), rest)) = ground arith
    step-Goes (receive n) s r = (_, refl, receive_at-IsReady (pick n s.calls) s r)
    step-Goes (give_up n) s r = keeps s _ (gave (pick n s.calls)) r
      where
        gave : (o : Option (Call × List Call)) → (give_up_at fails o s).requests ≡ s.requests
        gave none = refl
        gave (some (c, rest)) = refl
    step-Goes (return n h) s r = keeps s _ (ended (pick n s.running)) r
      where
        ended :
            (o : Option (Request × List Request)) → (return_at fails o h s).requests ≡ s.requests
        ended none = refl
        ended (some (req, rest)) = handled-requests req h (record s { running = rest })
    step-Goes (notify method none) s r = (_, refl, r)
    step-Goes (notify method (some encoded)) s r = keeps s _ (write-requests _ s) r
    step-Goes cancel s r = (_, refl, r)
    step-Goes clean_up s r =
        let (q, e, ready, empty) = cancel_all-done s.requests r in
        Goes-if s.cancelled _ _ (record s { requests = q }, rw e refl, ready) (s, refl, r)

    run-Goes :
        (es : List Event) (s : Server) → IsReady s.requests → Goes (run fails decode handlers es s)
    unfolding run
    run-Goes [] s r = (s, refl, r)
    run-Goes (e ∷ es) s r =
        let (s', went, ready) = step-Goes e s r in rw (went, run) (run-Goes es s' ready)

    pub run-IsReady :
        (es : List Event) (s : Server)
        → run fails decode handlers es new_server ≡ done s
        → IsReady s.requests
    run-IsReady es s e =
        let (t, f, r) = run-Goes es new_server tt in
        let same : done t ≡ done s = sym f ∙ e in
        let equal : t ≡ s = cc in subst (λ (x : Server). IsReady x.requests) equal r

    -- Whatever the goroutines do, in any order, and whichever writes fail: from a new server, no
    -- send to a channel of a pending request blocks, and no channel is closed twice or sent to when
    -- closed; every schedule runs to its end.
    pub run-IsDone :
        (es : List Event) → (s : Server) × (run fails decode handlers es new_server ≡ done s)
    run-IsDone es = let (s, e, r) = run-Goes es new_server tt in (s, e)
