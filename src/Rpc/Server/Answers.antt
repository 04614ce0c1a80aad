-- ===== src/Rpc/Server/Answers.antt =====
-- internal/rpc/server.go: the responses that the server sends for the requests it reads.
use agent_util.Common.{
  ℕ, ◌+◌, ◌≡◌, refl, subst, Bool, true, false, Option, none, some, List, [], ◌∷◌, ◌++◌, arith, Text,
  text_eq, any_of, ℤ, int_key, if◌then◌else◌,
}
use agent_util.Protocol.Message.{Request, Response, version, is_notification}
use agent_util.Rpc.Pending.{PendingRequests, Outcome, done, blocks, panics, cancel_all}
use agent_util.Rpc.Server.{
  Outgoing, asks, answers, Decoder, Handled, Call, Server, new_server, Event, line, end_of_input,
  begin, send, receive, give_up, return, notify, cancel, clean_up, pick, write, write_error,
  write_result, begin_request, send_at, received, receive_at, give_up_at, handled, return_at,
  notify_with, dispatch_request, dispatch_response, dispatch, serve_line, step, run,
}
use agent_util.Rpc.Server
use agent_util.Rpc.Server.Safety.{run-IsDone}
use agent_util.Rpc.Server.Schedule.{Then, Then-if}
use agent_util.Rpc.Server.Counts.{
  count_if, count_if-append, has_id, answered, in_progress, asked_by, asked, asked_in, total,
  pick-Counted, total-write, total-reply, total-return_at, total-send_at, total-receive_at,
  total-give_up_at,
}

module _ (fails : List Outgoing → Outgoing → Bool)
    (writes : (out : List Outgoing) (m : Outgoing) → fails out m ≡ false) (id : ℤ) where
  module _ (decode : Decoder) (handlers : List Text) where
    total-if :
        (n : ℕ) (b : Bool) (x y : Server)
        → total id x ≡ n
        → total id y ≡ n
        → total id (if b then x else y) ≡ n
    total-if n true x y h k = h
    total-if n false x y h k = k

    total-started :
        (req : Request) (s : Server)
        → total id (record s { running = s.running ++ (req ∷ []) })
          ≡ total id s + (if has_id id req.id then 1 else 0)
    unfolding answered in_progress count_if
    total-started req s =
        omega (arith, count_if-append (λ (r : Request). has_id id r.id) s.running (req ∷ []))

    total-dispatch_request :
        (req : Request) (s : Server)
        → total id (dispatch_request fails decode handlers req s)
          ≡ total id s + (if has_id id req.id then 1 else 0)
    unfolding dispatch_request write_error is_notification
    total-dispatch_request req s =
        total-if _ (text_eq req.jsonrpc version) _ _
          (total-if _ (any_of (λ (m : Text). text_eq m req.method) handlers) _ _
            (total-started req s) (total-reply fails writes id req.id _ s refl))
          (total-write fails writes id _ s)

    abbrev Adds : ℕ → ℕ → Outcome Server → Type 0
    Adds before n = Then (λ s'. total id s' ≡ before + n)

    total-with_requests :
        (s : Server) (r : Outcome PendingRequests)
        → Adds (total id s) 0 (Server.with_requests fails s r)
    unfolding answered in_progress
    total-with_requests s (done q) = omega arith
    total-with_requests s blocks = tt
    total-with_requests s panics = tt

    total-dispatch_response :
        (o : Option Response) (s : Server)
        → Adds (total id s) 0 (dispatch_response fails decode handlers o s)
    unfolding dispatch_response
    total-dispatch_response none s = omega arith
    total-dispatch_response (some resp) s = total-with_requests s _

    total-dispatch :
        (text : Text) (probed : Option (Option Text)) (asked_for : Option Request) (s : Server)
        → decode.probe_method text ≡ probed
        → decode.request text ≡ asked_for
        → Adds (total id s) (asked_by id probed asked_for) (dispatch fails decode handlers text s)
    unfolding dispatch write_error
    total-dispatch text none o s e f = rw (e, dispatch) (total-write fails writes id _ s)
    total-dispatch text (some none) o s e f =
        rw (e, dispatch) (total-dispatch_response (decode.response text) s)
    total-dispatch text (some (some method)) none s e f =
        rw (e, dispatch) (rw f (total-write fails writes id _ s))
    total-dispatch text (some (some method)) (some req) s e f =
        rw (e, dispatch) (rw f (total-dispatch_request req s))

    Adds-if :
        (n i j : ℕ) (b : Bool) (x y : Outcome Server)
        → Adds n i x
        → Adds n j y
        → Adds n (if b then i else j) (if b then x else y)
    Adds-if n i j true x y h k = h
    Adds-if n i j false x y h k = k

    total-same : (s s' : Server) → total id s' ≡ total id s → total id s' ≡ total id s + 0
    total-same s s' e = omega (arith, e)

    total-untouched :
        (s s' : Server)
        → s'.output ≡ s.output
        → s'.running ≡ s.running
        → total id s' ≡ total id s + 0
    unfolding answered in_progress
    total-untouched s s' o r = rw (o, r) (omega arith)

    total-step :
        (e : Event) (s : Server)
        → Adds (total id s) (asked decode id s e) (step fails decode handlers e s)
    unfolding step asked serve_line begin_request notify_with
    total-step (line []) s =
        Then-if (λ s'. total id s' ≡ total id s + 0) s.stopped _ _ (total-untouched s s refl refl)
          (Then-if (λ s'. total id s' ≡ total id s + 0) s.cancelled _ _
            (total-untouched s _ refl refl) (total-untouched s s refl refl))
    total-step (line (c ∷ cs)) s =
        Adds-if (total id s) 0 _ s.stopped _ _ (total-untouched s s refl refl) (
          Adds-if (total id s) 0 _ s.cancelled _ _ (total-untouched s _ refl refl)
            (total-dispatch (c ∷ cs) _ _ s refl refl))
    total-step end_of_input s = total-untouched s _ refl refl
    total-step (begin method none) s = total-untouched s _ refl refl
    total-step (begin method (some encoded)) s = total-untouched s _ refl refl
    total-step (send n) s = total-same s _ (total-send_at fails writes id (pick n s.prepared) s)
    total-step (receive n) s = total-same s _ (total-receive_at fails writes id (pick n s.calls) s)
    total-step (give_up n) s = total-same s _ (total-give_up_at fails writes id (pick n s.calls) s)
    total-step (return n h) s = total-same s _ (
        total-return_at fails writes id (pick n s.running) h s
          (pick-Counted (λ (r : Request). has_id id r.id) n s.running))
    total-step (notify method none) s = total-untouched s s refl refl
    total-step (notify method (some encoded)) s = total-write fails writes id _ s
    total-step cancel s = total-untouched s _ refl refl
    total-step clean_up s =
        Then-if (λ s'. total id s' ≡ total id s + 0) s.cancelled _ _
          (total-with_requests s (cancel_all s.requests)) (total-untouched s s refl refl)

    total-run :
        (es : List Event) (s : Server)
        → Adds
            (total id s)
            (asked_in fails decode handlers id es s)
            (run fails decode handlers es s)
    unfolding run asked_in
    total-run [] s = omega arith
    total-run (e ∷ es) s = after (step fails decode handlers e s) (total-step e s) (total-run es)
      where
        after :
            (o : Outcome Server)
            → Adds (total id s) (asked decode id s e) o
            → ((s' : Server)
                → Adds
                    (total id s')
                    (asked_in fails decode handlers id es s')
                    (run fails decode handlers es s'))
            → Adds
                (total id s)
                (asked decode id s e + (elim o [
                  | done s' ↦ asked_in fails decode handlers id es s'
                  | blocks ↦ 0
                  | panics ↦ 0
                ]))
                (elim o [
                  | done s' ↦ run fails decode handlers es s'
                  | blocks ↦ blocks
                  | panics ↦ panics
                ])
        after blocks h rest = tt
        after panics h rest = tt
        after (done s') h rest = more (run fails decode handlers es s') (rest s')
          where
            more :
                (r : Outcome Server)
                → Adds (total id s') (asked_in fails decode handlers id es s') r
                → Adds
                    (total id s)
                    (asked decode id s e + asked_in fails decode handlers id es s')
                    r
            more (done t) k = omega (arith, h, k)
            more blocks k = tt
            more panics k = tt

    -- Where no write fails: whatever the goroutines do, in any order, every schedule runs to its end
    -- from a new server, and at its end the answers with an id that were written and the requests
    -- with that id whose handlers still run are as many as the requests with that id that Serve
    -- dispatched.
    pub run-answered :
        (es : List Event)
        → (s : Server) × (run fails decode handlers es new_server ≡ done s)
          × (answered id s + in_progress id s ≡ asked_in fails decode handlers id es new_server)
    unfolding answered in_progress count_if
    run-answered es =
        let (s, e) = run-IsDone fails decode handlers es in
        let counted =
          subst (Adds 0 (asked_in fails decode handlers id es new_server)) e
            (total-run es new_server) in
        (s, e, omega (arith, counted))
