-- ===== src/Rpc/Server/Counts.antt =====
-- internal/rpc/server.go: how many requests with an id were asked, are in progress and were answered,
-- and what writes and ends of calls change of that.
use agent_util.Common.{
  ℕ, zero, suc, ◌+◌, ◌≡◌, refl, Bool, true, false, Option, none, some, List, [], ◌∷◌, ◌++◌, arith,
  Text, ℤ, int_eq, int_key, if◌then◌else◌,
}
use agent_util.Protocol.Message.{Request, Response, is_notification, is_none}
use agent_util.Rpc.Pending.{done, blocks, panics}
use agent_util.Rpc.Server.{
  Outgoing, asks, answers, Decoder, Handled, Call, Server, new_server, Event, line, end_of_input,
  begin, send, receive, give_up, return, notify, cancel, clean_up, pick, write, write_error,
  write_result, begin_request, send_at, received, receive_at, give_up_at, handled, return_at,
  notify_with, dispatch_request, dispatch_response, dispatch, serve_line, step, run,
}
use agent_util.Rpc.Server

unfoldable pub count_if : {A : Type 0} → (A → Bool) → List A → ℕ
count_if p [] = 0
count_if p (x ∷ xs) = (if p x then 1 else 0) + count_if p xs

pub count_if-append :
    {A : Type 0} (p : A → Bool) (xs ys : List A)
    → count_if p (xs ++ ys) ≡ count_if p xs + count_if p ys
unfolding count_if
count_if-append p [] ys = omega arith
count_if-append p (x ∷ xs) ys = omega (arith, count_if-append p xs ys)

abbrev pub has_id : ℤ → Option ℤ → Bool
has_id id none = false
has_id id (some i) = int_eq i id

abbrev pub is_answer : ℤ → Outgoing → Bool
is_answer id (asks req) = false
is_answer id (answers resp) = has_id id resp.id

-- the answers to an id that were written, and the handlers of requests with the id that run
unfoldable pub answered : ℤ → Server → ℕ
answered id s = count_if (is_answer id) s.output

unfoldable pub in_progress : ℤ → Server → ℕ
in_progress id s = count_if (λ (r : Request). has_id id r.id) s.running

abbrev pub asked_by : ℤ → Option (Option Text) → Option Request → ℕ
asked_by id (some (some method)) (some req) = if has_id id req.id then 1 else 0
asked_by id (some (some method)) none = 0
asked_by id (some none) o = 0
asked_by id none o = 0

module _ (decode : Decoder) where
  -- whether the event is a line that Serve dispatches, and holds a request with the id
  unfoldable pub asked : ℤ → Server → Event → ℕ
  asked id s (line []) = 0
  asked id s (line (c ∷ cs)) =
      if s.stopped
      then 0
      else if s.cancelled
      then 0
      else asked_by id (decode.probe_method (c ∷ cs)) (decode.request (c ∷ cs))
  asked id s _ = 0

-- the requests with the id that a schedule has Serve dispatch
unfoldable pub asked_in :
    (fails : List Outgoing → Outgoing → Bool) (decode : Decoder) (handlers : List Text)
    → ℤ
    → List Event
    → Server
    → ℕ
asked_in fails decode handlers id [] s = 0
asked_in fails decode handlers id (e ∷ es) s =
    asked decode id s e + (elim (step fails decode handlers e s) [
      | done s' ↦ asked_in fails decode handlers id es s'
      | blocks ↦ 0
      | panics ↦ 0
    ])

abbrev pub total : ℤ → Server → ℕ
total id s = answered id s + in_progress id s

module _ {A : Type 0} (p : A → Bool) where
  -- a picked element and the rest count as much as the list
  abbrev pub Counted : List A → Option (A × List A) → Type 0
  Counted xs none = Unit
  Counted xs (some (x, rest)) = count_if p xs ≡ (if p x then 1 else 0) + count_if p rest

  Counted-cons :
      (y : A) (ys : List A) (o : Option (A × List A))
      → Counted ys o
      → Counted (y ∷ ys) (elim o [ none ↦ none | some (z, zs) ↦ some (z, y ∷ zs) ])
  unfolding count_if
  Counted-cons y ys none h = tt
  Counted-cons y ys (some (z, zs)) h = omega (arith, h)

  pub pick-Counted : (n : ℕ) (xs : List A) → Counted xs (pick n xs)
  unfolding pick count_if
  pick-Counted n [] = tt
  pick-Counted zero (y ∷ ys) = refl
  pick-Counted (suc n) (y ∷ ys) = Counted-cons y ys (pick n ys) (pick-Counted n ys)

module _ (fails : List Outgoing → Outgoing → Bool)
    (writes : (out : List Outgoing) (m : Outgoing) → fails out m ≡ false) (id : ℤ) where
  answered-write :
      (m : Outgoing) (s : Server)
      → answered id (write fails m s) ≡ answered id s + (if is_answer id m then 1 else 0)
  unfolding write answered count_if
  answered-write m s =
      rw (writes s.output m) (omega (arith, count_if-append (is_answer id) s.output (m ∷ [])))

  in_progress-write :
      (m : Outgoing) (s : Server) → in_progress id (write fails m s) ≡ in_progress id s
  unfolding write in_progress
  in_progress-write m s = rw (writes s.output m) refl

  pub total-write :
      (m : Outgoing) (s : Server)
      → total id (write fails m s) ≡ total id s + (if is_answer id m then 1 else 0)
  total-write m s = omega (arith, answered-write m s, in_progress-write m s)

  pub total-reply :
      (rid : Option ℤ) (m : Outgoing) (s : Server)
      → is_answer id m ≡ has_id id rid
      → total id (if is_none rid then s else write fails m s)
        ≡ total id s + (if has_id id rid then 1 else 0)
  unfolding is_none
  total-reply none m s e = omega arith
  total-reply (some i) m s e = rw (← e) (total-write m s)

  -- the goroutine of a request ends with one answer, or with none to a notification
  total-handled :
      (req : Request) (h : Handled) (s : Server)
      → total id (handled fails req h s) ≡ total id s + (if has_id id req.id then 1 else 0)
  unfolding handled write_error write_result is_notification
  total-handled req (Server.failed e) s = total-reply req.id _ s refl
  total-handled req (Server.result none) s = total-reply req.id _ s refl
  total-handled req (Server.result (some encoded)) s = total-reply req.id _ s refl

  pub total-return_at :
      (o : Option (Request × List Request)) (h : Handled) (s : Server)
      → Counted (λ (r : Request). has_id id r.id) s.running o
      → total id (return_at fails o h s) ≡ total id s
  unfolding answered in_progress
  total-return_at none h s c = refl
  total-return_at (some (req, rest)) h s c =
      omega (arith, total-handled req h (record s { running = rest }), c)

  pub total-send_at :
      (o : Option ((Call × Request) × List (Call × Request))) (s : Server)
      → total id (send_at fails o s) ≡ total id s
  unfolding answered in_progress count_if
  total-send_at none s = refl
  total-send_at (some ((c, req), rest)) s =
      rw (writes s.output (asks req))
        (omega (arith, count_if-append (is_answer id) s.output (asks req ∷ [])))

  total-received :
      (c : Call) (rest : List Call) (b : Option Response) (shut : Bool) (s : Server)
      → total id (received fails c rest b shut s) ≡ total id s
  unfolding received answered in_progress
  total-received c rest none true s = refl
  total-received c rest none false s = refl
  total-received c rest (some resp) shut s = refl

  pub total-receive_at :
      (o : Option (Call × List Call)) (s : Server) → total id (receive_at fails o s) ≡ total id s
  total-receive_at none s = refl
  total-receive_at (some (c, rest)) s = total-received c rest _ _ s

  pub total-give_up_at :
      (o : Option (Call × List Call)) (s : Server) → total id (give_up_at fails o s) ≡ total id s
  unfolding answered in_progress
  total-give_up_at none s = refl
  total-give_up_at (some (c, rest)) s = refl
