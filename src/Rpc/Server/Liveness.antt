-- ===== src/Rpc/Server/Liveness.antt =====
-- internal/rpc/server.go and pending.go: a caller that waits for a pending request.
use agent_util.Common.{
  ℕ, ◌≡◌, refl, ap, subst, ◌∙◌, Bool, true, false, Bool-cases, inl, inr, Option, none, some, List,
  [], ◌∷◌, ◌++◌, arith, Text, Map, lookup, delete, ℤ, int_key, if◌then◌else◌,
}
use agent_util.Protocol.Message.{Response}
use agent_util.Rpc.Pending.{
  Channel, new_channel, PendingRequests, Outcome, done, blocks, panics, update, close, resolve,
  resolve_found, close_all, cancel_all,
}
use agent_util.Rpc.Pending
use agent_util.Rpc.Pending.Laws.{Differs, Ready, IsReady, Ready-update, found-Ready}
use agent_util.Rpc.Server.{
  Outgoing, Decoder, Call, Server, new_server, Event, line, receive, cancel, give_up, clean_up,
  pick, received, receive_at, give_up_at, dispatch_response, dispatch, serve_line, step, run,
}
use agent_util.Rpc.Server
use agent_util.Rpc.Server.Safety.{run-IsReady}

abbrev closed_channel : Channel
closed_channel = record { buffer = none; closed = true }

-- what CancelAll leaves: the channels of the entries closed, and the others as they were
abbrev Closes : (ℕ → Channel) → Map ℤ ℕ → (ℕ → Channel) → Type 0
Closes channels m closed =
    ((ch : ℕ) → Differs ch m → closed ch ≡ channels ch)
    × ((id : ℤ) (ch : ℕ) → lookup id m ≡ some ch → closed ch ≡ closed_channel)

Closes-cons :
    (n : ℕ) (channels : ℕ → Channel) (id : ℤ) (ch : ℕ) (m : Map ℤ ℕ) (closed : ℕ → Channel)
    → Ready n channels ((id, ch) ∷ m)
    → Closes (update channels ch closed_channel) m closed
    → Closes channels ((id, ch) ∷ m) closed
unfolding lookup update
Closes-cons n channels id ch m closed r (others, entries) = (
  λ k d. others k d.1 ∙ ground arith,
  λ j k e. elim (Bool-cases (int_key.beq id j)) [
    | inl same ↦
        let here : ch ≡ k = ground arith in
        subst (λ x. closed x ≡ closed_channel) here (others ch r.2 ∙ ground arith)
    | inr other ↦ entries j k (ground arith)
  ],
)

close_all-Closes :
    (n : ℕ) (channels : ℕ → Channel) (m : Map ℤ ℕ)
    → Ready n channels m
    → (closed : ℕ → Channel) × (close_all m channels ≡ done closed) × Closes channels m closed
unfolding close_all close lookup
close_all-Closes n channels [] r = (channels, refl, (λ ch d. refl, λ id ch e. cc))
close_all-Closes n channels ((id, ch) ∷ m) r =
    let rest =
      close_all-Closes n (update channels ch closed_channel) m
        (Ready-update n ch closed_channel channels m r.2 r.3) in
    (rest.0, rw (r.0, close_all) rest.1, Closes-cons n channels id ch m rest.0 r rest.2)

if_false : {A : Type 0} (b : Bool) (x y : A) → b ≡ false → (if b then x else y) ≡ y
if_false b x y e = rw e refl

if_true : {A : Type 0} (b : Bool) (x y : A) → b ≡ true → (if b then x else y) ≡ x
if_true b x y e = rw e refl

resolves :
    (p : PendingRequests) (id : ℤ) (ch : ℕ) (resp : Response) (of : Option ℤ)
    → IsReady p
    → lookup id p.pending ≡ some ch
    → of ≡ some id
    → resolve of resp p
      ≡ done (record p {
        pending = delete id p.pending;
        channels = update p.channels ch (record { buffer = some resp; closed = false });
      })
unfolding resolve resolve_found Pending.send
resolves p id ch resp of r e f =
    let (fresh, below, apart) = found-Ready p.next_channel ch id p.channels p.pending r e in
    rw (f, resolve) (rw (e, resolve_found, fresh, Pending.send) refl)

module _ (fails : List Outgoing → Outgoing → Bool) (decode : Decoder) (handlers : List Text) where
  -- the caller with an index waits, and its request is pending
  module _ (s : Server) (n : ℕ) (c : Call) (rest : List Call)
      (waits : pick n s.calls ≡ some (c, rest)) where
    wakes_by :
        (q : PendingRequests) (b : Option Response) (shut : Bool)
        → (q.channels c.channel).buffer ≡ b
        → (q.channels c.channel).closed ≡ shut
        → step fails decode handlers (receive n) (record s { requests = q })
          ≡ done (received fails c rest b shut (record s { requests = q }))
    unfolding step
    wakes_by q b shut e f = rw (waits, receive_at, e, f) refl

  run-cons :
      (e : Event) (es : List Event) (s s' : Server)
      → step fails decode handlers e s ≡ done s'
      → run fails decode handlers (e ∷ es) s ≡ run fails decode handlers es s'
  unfolding run
  run-cons e es s s' h = rw (h, run) refl

  serves :
      (s : Server) (b : ℕ) (bs : Text) (resp : Response)
      → s.stopped ≡ false
      → s.cancelled ≡ false
      → decode.probe_method (b ∷ bs) ≡ some none
      → decode.response (b ∷ bs) ≡ some resp
      → step fails decode handlers (line (b ∷ bs)) s
        ≡ Server.with_requests fails s (resolve resp.id resp s.requests)
  unfolding step serve_line dispatch dispatch_response
  serves s b bs resp on live probed decoded =
      if_false s.stopped _ _ on
      ∙ if_false s.cancelled _ _ live
      ∙ rw (probed, dispatch) (rw (decoded, dispatch_response) refl)

  -- In a state that a schedule reaches, let a caller wait for the response to its pending request.
  -- If Serve then reads a response with that id, the caller's next step returns that response, and
  -- the caller waits no more.
  pub run-wakes :
      (es : List Event) (s : Server) (n : ℕ) (c : Call) (rest : List Call) (b : ℕ) (bs : Text)
      (resp : Response)
      → run fails decode handlers es new_server ≡ done s
      → pick n s.calls ≡ some (c, rest)
      → lookup c.id s.requests.pending ≡ some c.channel
      → s.stopped ≡ false
      → s.cancelled ≡ false
      → decode.probe_method (b ∷ bs) ≡ some none
      → decode.response (b ∷ bs) ≡ some resp
      → resp.id ≡ some c.id
      → (t : Server) × (run fails decode handlers (line (b ∷ bs) ∷ receive n ∷ []) s ≡ done t)
        × (t.returned ≡ s.returned ++ ((c.id, Server.response resp) ∷ []))
        × (t.calls ≡ rest)
  unfolding run received update
  run-wakes es s n c rest b bs resp reached waits pending on live probed decoded same =
      let q : PendingRequests = record s.requests {
        pending = delete c.id s.requests.pending;
        channels =
            update s.requests.channels c.channel (record { buffer = some resp; closed = false });
      } in
      let ready = run-IsReady fails decode handlers es s reached in
      let read = serves s b bs resp on live probed decoded in
      let resolved = resolves s.requests c.id c.channel resp resp.id ready pending same in
      let woken = wakes_by s n c rest waits q (some resp) false (ground arith) (ground arith) in
      (
        received fails c rest (some resp) false (record s { requests = q }),
        run-cons (line (b ∷ bs)) (receive n ∷ []) s (record s { requests = q })
              (read ∙ ap (Server.with_requests fails s) resolved)
            ∙ run-cons (receive n) [] _ _ woken,
        refl,
        refl,
      )

  cancels :
      (s : Server) → step fails decode handlers cancel s ≡ done (record s { cancelled = true })
  unfolding step
  cancels s = refl

  cleans :
      (s : Server) (closed : ℕ → Channel)
      → s.cancelled ≡ true
      → close_all s.requests.pending s.requests.channels ≡ done closed
      → step fails decode handlers clean_up s
        ≡ done (record s { requests = record s.requests { pending = []; channels = closed } })
  unfolding step cancel_all
  cleans s closed c e = if_true s.cancelled _ _ c ∙ rw (e, cancel_all) refl

  cancels_and_cleans :
      (s : Server) (closed : ℕ → Channel)
      → close_all s.requests.pending s.requests.channels ≡ done closed
      → (es : List Event)
      → run fails decode handlers (cancel ∷ clean_up ∷ es) s
        ≡ run fails decode handlers es (record s {
          cancelled = true;
          requests = record s.requests { pending = []; channels = closed };
        })
  cancels_and_cleans s closed e es =
      run-cons cancel (clean_up ∷ es) s (record s { cancelled = true }) (cancels s)
      ∙ run-cons clean_up es (record s { cancelled = true }) _
          (cleans (record s { cancelled = true }) closed refl e)

  gives_up :
      (s : Server) (q : PendingRequests) (n : ℕ) (c : Call) (rest : List Call)
      → pick n s.calls ≡ some (c, rest)
      → step fails decode handlers (give_up n) (record s { requests = q })
        ≡ done (give_up_at fails (some (c, rest)) (record s { requests = q }))
  unfolding step
  gives_up s q n c rest waits = rw waits refl

  -- the call of a state has returned with an outcome, and no request is pending
  abbrev pub Ends : Server → Call → List Call → Server.Sent → Outcome Server → Type 0
  Ends s c rest outcome r =
      (t : Server) × (r ≡ done t)
      × (t.returned ≡ s.returned ++ ((c.id, outcome) ∷ []))
      × (t.calls ≡ rest)
      × (t.requests.pending ≡ [])

  -- In a state that a schedule reaches, let a caller wait for the response to its pending request.
  -- If the context is then done, the shutdown closes the channels and the caller steps next, it
  -- waits no more and no request is pending: if its select takes the channel, it returns the error
  -- of a cancelled request, and if it takes its own context, that context's error.
  pub run-releases :
      (es : List Event) (s : Server) (n : ℕ) (c : Call) (rest : List Call)
      → run fails decode handlers es new_server ≡ done s
      → pick n s.calls ≡ some (c, rest)
      → lookup c.id s.requests.pending ≡ some c.channel
      → Ends s c rest Server.request_cancelled
          (run fails decode handlers (cancel ∷ clean_up ∷ receive n ∷ []) s)
        × Ends s c rest Server.context_done
            (run fails decode handlers (cancel ∷ clean_up ∷ give_up n ∷ []) s)
  unfolding run received
  run-releases es s n c rest reached waits pending =
      let ready = run-IsReady fails decode handlers es s reached in
      let (closed, e, closes) =
        close_all-Closes s.requests.next_channel s.requests.channels s.requests.pending ready in
      let q : PendingRequests = record s.requests { pending = []; channels = closed } in
      let shut = closes.1 c.id c.channel pending in
      let s' : Server = record s { cancelled = true } in
      let woken = wakes_by s' n c rest waits q none true (ground arith) (ground arith) in
      let begun = cancels_and_cleans s closed e in
      (
        (
          received fails c rest none true (record s' { requests = q }),
          begun (receive n ∷ []) ∙ run-cons (receive n) [] _ _ woken,
          refl,
          refl,
          refl,
        ),
        (
          give_up_at fails (some (c, rest)) (record s' { requests = q }),
          begun (give_up n ∷ []) ∙ run-cons (give_up n) [] _ _ (gives_up s' q n c rest waits),
          refl,
          refl,
          refl,
        ),
      )
