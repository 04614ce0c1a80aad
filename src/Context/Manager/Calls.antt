-- ===== src/Context/Manager/Calls.antt =====
-- A Manager of internal/context/manager.go after any calls of its methods.
use agent_util.Common.{
  ℕ, ◌+◌, ◌≢◌, Option, List, [], ◌∷◌, ◌++◌, map, Text, txt, text_eq, Bool-cases, inl, inr,
}
use agent_util.Common.Floats.{Floats}
use agent_util.Llm.Message.{Message}
use agent_util.Context.Estimate.{Unicode, estimate_tokens}
use agent_util.Context.Compaction.{Entry, CompactionConfig, total_tokens}
use agent_util.Context.Compaction.Counted.{}
use agent_util.Context.Manager.Invariant.{
  IsCurrent, check_threshold-IsCurrent, IsConsistent, new_manager-IsConsistent, add-IsConsistent,
  set_reserved-IsConsistent, on_threshold-IsConsistent, inject-IsConsistent, compact-IsConsistent,
}
use agent_util.Context.Manager.{
  Manager, new_manager, set_reserved, on_threshold, replace_entries, entry_of, add, inject, compact,
}

module _ (fl : Floats) where
  module _ (m : Manager fl.Float) (limited : m.token_limit ≢ 0) (watched : m.observers ≢ []) where
    set_reserved-IsCurrent : (n : ℕ) → IsCurrent fl (set_reserved fl n m)
    unfolding set_reserved
    set_reserved-IsCurrent n =
        check_threshold-IsCurrent fl (record m { reserved_tokens = n }) limited watched

    replace_entries-IsCurrent : (es : List Entry) → IsCurrent fl (replace_entries fl es m)
    unfolding replace_entries
    replace_entries-IsCurrent es =
        check_threshold-IsCurrent fl (record m { entries = es; token_count = total_tokens es })
          limited watched

    module _ (u : Unicode) where
      add-IsCurrent : (msg : Message) → IsCurrent fl (add fl u msg m)
      unfolding add
      add-IsCurrent msg =
          check_threshold-IsCurrent fl
            (record m {
              entries = m.entries ++ (entry_of fl u msg ∷ []);
              token_count = m.token_count + estimate_tokens fl u msg;
            })
            limited watched

      inject-IsCurrent :
          (msg : Message) (msgs : List Message) (position : Text)
          → IsCurrent fl (inject fl u (msg ∷ msgs) position m)
      unfolding inject
      inject-IsCurrent msg msgs position =
          let new = map (entry_of fl u) (msg ∷ msgs) in
          elim (Bool-cases (text_eq position (txt "prepend"))) [
            | inl front ↦ rw front (replace_entries-IsCurrent (new ++ m.entries))
            | inr other ↦ elim (Bool-cases (text_eq position (txt "replace"))) [
              | inl all ↦ rw (other, all) (replace_entries-IsCurrent new)
              | inr back ↦ rw (other, back) (replace_entries-IsCurrent (m.entries ++ new))
            ]
          ]

      -- With a limit and an observer, after a message is added, tokens are reserved, or messages
      -- are injected, the flag says whether the usage has reached the threshold.
      pub flag-IsCurrent :
          (msg : Message) (msgs : List Message) (position : Text) (n : ℕ)
          → IsCurrent fl (add fl u msg m)
            × IsCurrent fl (set_reserved fl n m)
            × IsCurrent fl (inject fl u (msg ∷ msgs) position m)
      flag-IsCurrent msg msgs position n =
          (add-IsCurrent msg, set_reserved-IsCurrent n, inject-IsCurrent msg msgs position)

module _ (fl : Floats) (u : Unicode) (W : Type 0) where
  -- a call of a method that changes the manager
  pub data Call : Type 0 where
    add_call : Message → Call
    reserve : ℕ → Call
    watch : ℕ → Call
    inject_call : List Message → Text → Call
    compact_call : CompactionConfig W fl.Float → Call

  pub call : Call → Manager fl.Float × W → Manager fl.Float × W
  call (add_call msg) (m, w) = (add fl u msg m, w)
  call (reserve n) (m, w) = (set_reserved fl n m, w)
  call (watch o) (m, w) = (on_threshold fl o m, w)
  call (inject_call msgs position) (m, w) = (inject fl u msgs position m, w)
  call (compact_call cfg) (m, w) = let (_, m', w') = compact fl u cfg m w in (m', w')

  pub call_all : List Call → Manager fl.Float × W → Manager fl.Float × W
  call_all [] s = s
  call_all (c ∷ cs) s = call_all cs (call c s)

  call-IsConsistent :
      (c : Call) (s : Manager fl.Float × W) → IsConsistent fl u s.0 → IsConsistent fl u (call c s).0
  unfolding call
  call-IsConsistent (add_call msg) (m, w) h = add-IsConsistent fl u msg m h
  call-IsConsistent (reserve n) (m, w) h = set_reserved-IsConsistent fl u n m h
  call-IsConsistent (watch o) (m, w) h = on_threshold-IsConsistent fl u o m h
  call-IsConsistent (inject_call msgs position) (m, w) h =
      inject-IsConsistent fl u msgs position m h
  call-IsConsistent (compact_call cfg) (m, w) h = compact-IsConsistent fl u cfg m w h

  call_all-IsConsistent :
      (cs : List Call) (s : Manager fl.Float × W)
      → IsConsistent fl u s.0
      → IsConsistent fl u (call_all cs s).0
  unfolding call_all
  call_all-IsConsistent [] s h = h
  call_all-IsConsistent (c ∷ cs) s h = call_all-IsConsistent cs (call c s) (call-IsConsistent c s h)

  -- After any calls on a new manager, every entry carries the estimate of its message, the
  -- token count is the sum of those, and the observers were told `exceeded` and `recovered` in
  -- turns, beginning with `exceeded`, the last of which is the state that the manager holds.
  pub manager-IsConsistent :
      (limit : ℕ) (option : Option fl.Float) (cs : List Call) (w : W)
      → IsConsistent fl u (call_all cs (new_manager fl limit option, w)).0
  manager-IsConsistent limit option cs w =
      call_all-IsConsistent cs (new_manager fl limit option, w)
        (new_manager-IsConsistent fl u limit option)
