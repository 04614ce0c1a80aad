-- ===== src/Rpc/Handlers/Sessions.antt =====
-- internal/rpc/handlers.go: session.inject and session.history.
use agent_util.Common.{
  suc, inl, inr, Bool-cases, ◌≡◌, refl, ◌∙◌, ap, List, [], ◌∷◌, ◌++◌, map, map-append, Text, txt,
  text_eq, length, if◌then◌else◌,
}
use agent_util.Common.Floats.{Floats}
use agent_util.Llm.Message.{Message, content_string}
use agent_util.Context.Compaction.{Entry, total_tokens}
use agent_util.Context.Estimate.{Unicode}
use agent_util.Context.Manager as Managers
use agent_util.Context.Manager.{Manager, messages, entry_of, replace_entries}
use agent_util.Context.Manager.Invariant.{check_threshold_fields}
use agent_util.Engine.Calls
use agent_util.Engine.State.{State}
use agent_util.Engine.Calls.{history}
use agent_util.Engine.Exec.{ok}
use agent_util.Protocol.Methods.{SessionMessage, SessionToolCall, SessionInjectParams}
use agent_util.Rpc.Handlers.{
  Handlers, answered, session_call, tool_call_of, session_message, message_of, position_of,
  handle_session_inject, handle_session_history,
}

session_calls : (cs : List SessionToolCall) → map session_call (map tool_call_of cs) ≡ cs
unfolding session_call tool_call_of
session_calls [] = refl
session_calls (c ∷ cs) = ap (λ l. c ∷ l) (session_calls cs)

session_message-message_of : (m : SessionMessage) → session_message (message_of m) ≡ m
unfolding session_message message_of content_string
session_message-message_of m = rw (session_calls m.tool_calls) refl

session_messages : (ms : List SessionMessage) → map session_message (map message_of ms) ≡ ms
session_messages [] = refl
session_messages (m ∷ ms) = rw (session_message-message_of m, session_messages ms) refl

-- where the messages go: an empty list changes nothing
module _ {A : Type 0} where
  abbrev pub injected_at : Text → List A → List A → List A
  injected_at position [] old = old
  injected_at position (m ∷ ms) old =
      if text_eq position (txt "prepend")
      then m ∷ (ms ++ old)
      else if text_eq position (txt "replace")
      then m ∷ ms
      else old ++ (m ∷ ms)

module _ {A B : Type 0} (f : A → B) where
  map-injected_at :
      (position : Text) (ms old : List A)
      → map f (injected_at position ms old) ≡ injected_at position (map f ms) (map f old)
  map-injected_at position [] old = refl
  map-injected_at position (m ∷ ms) old = elim (Bool-cases (text_eq position (txt "prepend"))) [
    | inl p ↦ rw (p, map-append f ms old) refl
    | inr p ↦ elim (Bool-cases (text_eq position (txt "replace"))) [
      | inl r ↦ rw (p, r) refl
      | inr r ↦ rw (p, r) (map-append f old (m ∷ ms))
    ]
  ]

length-map : {A B : Type 0} (f : A → B) (xs : List A) → length (map f xs) ≡ length xs
length-map f [] = refl
length-map f (x ∷ xs) = ap suc (length-map f xs)

module _ (fl : Floats) (u : Unicode) where
  messages-replace_entries :
      (es : List Entry) (m : Manager fl.Float)
      → messages fl (replace_entries fl es m) ≡ map (λ (e : Entry). e.message) es
  unfolding messages replace_entries
  messages-replace_entries es m =
      rw (check_threshold_fields fl (record m { entries = es; token_count = total_tokens es })).0
        refl

  messages_of_entries :
      (ms : List Message) → map (λ (e : Entry). e.message) (map (entry_of fl u) ms) ≡ ms
  unfolding entry_of
  messages_of_entries [] = refl
  messages_of_entries (m ∷ ms) = ap (λ l. m ∷ l) (messages_of_entries ms)

  messages-inject :
      (ms : List Message) (position : Text) (m : Manager fl.Float)
      → messages fl (Managers.inject fl u ms position m) ≡ injected_at position ms (messages fl m)
  unfolding Managers.inject messages
  messages-inject [] position m = refl
  messages-inject (msg ∷ ms) position m =
      let new = entry_of fl u msg ∷ map (entry_of fl u) ms in
      let plain = messages_of_entries (msg ∷ ms) in
      elim (Bool-cases (text_eq position (txt "prepend"))) [
        | inl p ↦ rw p (
            messages-replace_entries (new ++ m.entries) m
            ∙ map-append (λ (e : Entry). e.message) new m.entries
            ∙ ap (λ l. l ++ messages fl m) plain)
        | inr p ↦ elim (Bool-cases (text_eq position (txt "replace"))) [
          | inl r ↦ rw (p, r) (messages-replace_entries new m ∙ plain)
          | inr r ↦
              rw (p, r)
                (messages-replace_entries (m.entries ++ new) m
                  ∙ map-append (λ (e : Entry). e.message) m.entries new
                  ∙ ap (λ l. messages fl m ++ l) plain)
        ]
      ]

  module _ {W : Type 0} where
    history-inject :
        (ms : List SessionMessage) (position : Text) (s : State fl W)
        → map session_message (history fl (Calls.inject fl u (map message_of ms) position s))
          ≡ injected_at position ms (map session_message (history fl s))
    unfolding history Calls.inject
    history-inject ms position s =
        ap (map session_message) (messages-inject (map message_of ms) position s.manager)
        ∙ map-injected_at session_message position (map message_of ms) (messages fl s.manager)
        ∙ rw (session_messages ms) refl

    -- What session.history tells after a session.inject: the given messages exactly as they were
    -- given, before the old ones for the position `prepend`, in their place for `replace`, and behind
    -- them for any other position; an empty list changes nothing, for `replace` too. The answer counts
    -- the given messages and all that the history then has.
    pub session_inject-history :
        (p : SessionInjectParams) (h : Handlers fl W)
        → ((handle_session_history fl (handle_session_inject fl u (ok p) h).1).messages
            ≡ injected_at
                (position_of p.position)
                p.messages
                (handle_session_history fl h).messages)
          × ((handle_session_inject fl u (ok p) h).0
              ≡ answered (record {
                injected = length p.messages;
                total = (handle_session_history fl (handle_session_inject fl u (ok p) h).1).count;
              }))
    unfolding handle_session_history handle_session_inject
    session_inject-history p h = (
      history-inject p.messages (position_of p.position) h.state,
      rw (length-map message_of p.messages, length-map session_message _) refl,
    )
