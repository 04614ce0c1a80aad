-- ===== src/Rpc/Server/Owned.antt =====
-- internal/rpc/pending.go and server.go: the channels, the callers and the ids of their requests.
use agent_util.Common.{
  ℕ, suc, ◌<◌, ◌≡◌, ◌==◌, ◌∙◌, Bool, false, inl, inr, Option, none, some, Option-cases, [], ◌∷◌,
  ◌++◌, arith, Map, lookup, delete, ℤ, int_key, int_eq_iff, if◌then◌else◌, All, All-append, All-map,
  All-insert, All-delete, All-lookup,
}
use agent_util.Protocol.Message.{Request, Response}
use agent_util.Rpc.Pending.{
  Channel, new_channel, PendingRequests, Outcome, done, blocks, panics, new_pending_requests,
  update, register, resolve, resolve_found, close, close_all, cancel_all,
}
use agent_util.Rpc.Pending
use agent_util.Rpc.Server.{
  Outgoing, Decoder, Handled, Call, Sent, Server, new_server, Event, line, end_of_input, begin,
  send, receive, give_up, return, notify, cancel, clean_up, pick, write, write_error, write_result,
  begin_request, send_at, received, receive_at, give_up_at, handled, return_at, notify_with,
  dispatch_request, dispatch_response, dispatch, serve_line, step, run,
}
use agent_util.Rpc.Server
use agent_util.Rpc.Server.Schedule.{Then, Then-if, Then-bind}

-- a channel below `n` belongs to an id
abbrev pub Owns : (ℕ → ℤ) → ℕ → ℤ × ℕ → Type 0
Owns owner n (id, ch) = (owner ch ≡ id) × (ch < n)

abbrev pub claim : Call → ℤ × ℕ
claim c = (c.id, c.channel)

abbrev pub Filled : (ℕ → ℤ) → (ℕ → Channel) → Type 0
Filled owner channels =
    (ch : ℕ) (resp : Response) → (channels ch).buffer ≡ some resp → resp.id ≡ some (owner ch)

-- A response is for the id of the caller that got it.
abbrev pub IsFor : ℤ × Sent → Type 0
IsFor (id, Server.response resp) = resp.id ≡ some id
IsFor (id, Server.marshal_failed) = Unit
IsFor (id, Server.write_failed) = Unit
IsFor (id, Server.request_cancelled) = Unit
IsFor (id, Server.context_done) = Unit

pub record Owned (owner : ℕ → ℤ) (s : Server) : Type 0 where
  pub entries : All (Owns owner s.requests.next_channel) s.requests.pending
  pub waiting : All (λ c. Owns owner s.requests.next_channel (claim c)) s.calls
  pub registered : All (λ p. Owns owner s.requests.next_channel (claim p.0)) s.prepared
  pub filled : Filled owner s.requests.channels
  pub answered : All IsFor s.returned

abbrev pub IsOwned : Server → Type 0
IsOwned s = (owner : ℕ → ℤ) × Owned owner s

-- the parts that the invariant reads
abbrev pub SameParts : Server → Server → Type 0
SameParts s s' =
    (s'.requests ≡ s.requests)
    × (s'.calls ≡ s.calls)
    × (s'.prepared ≡ s.prepared)
    × (s'.returned ≡ s.returned)

pub SameParts-Owned :
    (owner : ℕ → ℤ) (s s' : Server) → SameParts s s' → Owned owner s → Owned owner s'
SameParts-Owned owner s s' (r, c, p, a) o = record {
  entries = rw r o.entries;
  waiting = rw (r, c) o.waiting;
  registered = rw (r, p) o.registered;
  filled = rw r o.filled;
  answered = rw a o.answered;
}

pub finish-Owned :
    (owner : ℕ → ℤ) (id : ℤ) (outcome : Sent) (s : Server)
    → IsFor (id, outcome)
    → Owned owner s
    → Owned owner (record s { returned = s.returned ++ ((id, outcome) ∷ []) })
finish-Owned owner id outcome s f o = record {
  entries = o.entries;
  waiting = o.waiting;
  registered = o.registered;
  filled = o.filled;
  answered = All-append IsFor s.returned _ o.answered (f, tt);
}

pub own : (ℕ → ℤ) → ℕ → ℤ → ℕ → ℤ
own owner n id k = if n == k then id else owner k

Owns-own :
    (owner : ℕ → ℤ) (n : ℕ) (id : ℤ) (x : ℤ × ℕ) → Owns owner n x → Owns (own owner n id) (suc n) x
unfolding own
Owns-own owner n id x h = (ground arith, omega arith)

Owns-new : (owner : ℕ → ℤ) (n : ℕ) (id : ℤ) → Owns (own owner n id) (suc n) (id, n)
unfolding own
Owns-new owner n id = (ground arith, omega arith)

Filled-new :
    (owner : ℕ → ℤ) (n : ℕ) (id : ℤ) (channels : ℕ → Channel)
    → Filled owner channels
    → Filled (own owner n id) (update channels n new_channel)
unfolding own update
Filled-new owner n id channels f ch resp e = ground (arith, f ch resp)

pub register-Owned :
    (owner : ℕ → ℤ) (id : ℤ) (req : Request) (n : ℕ) (s : Server)
    → Owned owner s
    → Owned (own owner s.requests.next_channel id) (record s {
      next_id = n;
      requests = (register id s.requests).1;
      prepared = s.prepared ++ ((record { id = id; channel = s.requests.next_channel }, req) ∷ []);
    })
unfolding register
register-Owned owner id req n s o =
    let ch = s.requests.next_channel in
    let later = Owns-own owner ch id in
    record {
      entries =
          All-insert _ id ch s.requests.pending (Owns-new owner ch id)
            (All-map _ _ s.requests.pending later o.entries);
      waiting = All-map _ _ s.calls (λ c. later (claim c)) o.waiting;
      registered =
          All-append _ s.prepared _ (All-map _ _ s.prepared (λ p. later (claim p.0)) o.registered)
            (Owns-new owner ch id, tt);
      filled = Filled-new owner ch id s.requests.channels o.filled;
      answered = o.answered;
    }

Filled-sent :
    (owner : ℕ → ℤ) (ch : ℕ) (resp : Response) (shut : Bool) (channels : ℕ → Channel)
    → resp.id ≡ some (owner ch)
    → Filled owner channels
    → Filled owner (update channels ch (record { buffer = some resp; closed = shut }))
unfolding update
Filled-sent owner ch resp shut channels e f k r h = ground (arith, f k r)

pub Filled-taken :
    (owner : ℕ → ℤ) (ch : ℕ) (shut : Bool) (channels : ℕ → Channel)
    → Filled owner channels
    → Filled owner (update channels ch (record { buffer = none; closed = shut }))
unfolding update
Filled-taken owner ch shut channels f k r h = ground (arith, f k r)

pub with_entries :
    (owner : ℕ → ℤ) (s : Server) (m : Map ℤ ℕ) (channels : ℕ → Channel)
    → All (Owns owner s.requests.next_channel) m
    → Filled owner channels
    → Owned owner s
    → Owned owner (record s { requests = record s.requests { pending = m; channels = channels } })
with_entries owner s m channels e f o = record {
  entries = e;
  waiting = o.waiting;
  registered = o.registered;
  filled = f;
  answered = o.answered;
}

sent-Owned :
    (owner : ℕ → ℤ) (ch : ℕ) (resp : Response) (m : Map ℤ ℕ) (s : Server)
    → resp.id ≡ some (owner ch)
    → All (Owns owner s.requests.next_channel) m
    → Owned owner s
    → Then
        (λ q. Owned owner (record s { requests = q }))
        (Pending.send ch resp (record s.requests { pending = m }))
unfolding Pending.send
sent-Owned owner ch resp m s i e o =
    Then-if _ (s.requests.channels ch).closed panics _ tt
      (by_buffer (s.requests.channels ch).buffer)
  where
    by_buffer :
        (b : Option Response)
        → Then
            (λ q. Owned owner (record s { requests = q }))
            (elim b [
              | some waiting ↦ blocks
              | none ↦ done (record s.requests {
                pending = m;
                channels =
                    update s.requests.channels ch (record { buffer = some resp; closed = false });
              })
            ])
    by_buffer (some waiting) = tt
    by_buffer none =
        with_entries owner s m _ e (Filled-sent owner ch resp false s.requests.channels i o.filled)
          o

pub resolve-Owned :
    (owner : ℕ → ℤ) (id : Option ℤ) (resp : Response) (s : Server)
    → resp.id ≡ id
    → Owned owner s
    → Then (λ q. Owned owner (record s { requests = q })) (resolve id resp s.requests)
unfolding resolve resolve_found
resolve-Owned owner none resp s i o = o
resolve-Owned owner (some id) resp s i o = elim (Option-cases (lookup id s.requests.pending)) [
  | inl missing ↦ rw (missing, resolve_found) o
  | inr (ch, e) ↦
      let own_it =
        All-lookup (Owns owner s.requests.next_channel) id ch s.requests.pending
          (λ j same h. (h.0 ∙ (int_eq_iff j id).0 same, h.1)) e o.entries in
      rw (e, resolve_found)
        (sent-Owned owner ch resp (delete id s.requests.pending) s (rw (own_it.0) i)
          (All-delete _ id s.requests.pending o.entries) o)
]

close-Filled :
    (owner : ℕ → ℤ) (ch : ℕ) (channels : ℕ → Channel)
    → Filled owner channels
    → Then (Filled owner) (close ch channels)
unfolding close update
close-Filled owner ch channels f =
    Then-if (Filled owner) (channels ch).closed panics _ tt (λ k r h. ground (arith, f k r))

close_all-Filled :
    (owner : ℕ → ℤ) (m : Map ℤ ℕ) (channels : ℕ → Channel)
    → Filled owner channels
    → Then (Filled owner) (close_all m channels)
unfolding close_all
close_all-Filled owner [] channels f = f
close_all-Filled owner ((id, ch) ∷ m) channels f =
    Then-bind (Filled owner) (Filled owner) (close_all m) (close ch channels)
      (close-Filled owner ch channels f) (close_all-Filled owner m)

pub cancel_all-Owned :
    (owner : ℕ → ℤ) (s : Server)
    → Owned owner s
    → Then (λ q. Owned owner (record s { requests = q })) (cancel_all s.requests)
unfolding cancel_all
cancel_all-Owned owner s o =
    Then-bind (Filled owner) (λ q. Owned owner (record s { requests = q }))
      (λ channels. done (record s.requests { pending = []; channels = channels }))
      (close_all s.requests.pending s.requests.channels)
      (close_all-Filled owner s.requests.pending s.requests.channels o.filled)
      (λ channels f. with_entries owner s [] channels tt f o)
