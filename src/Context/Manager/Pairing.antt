-- ===== src/Context/Manager/Pairing.antt =====
-- Methods of internal/context/manager.go on a history in which each tool result stands directly
-- behind the message that holds its call.
use agent_util.Common.{
  ◌+◌, ◌≡◌, true, false, inl, inr, Option, none, some, List, [], ◌∷◌, ◌++◌, arith, txt, text_eq,
  Bool-cases,
}
use agent_util.Common.Floats.{Floats}
use agent_util.Llm.Message.{Message}
use agent_util.Context.Estimate.{Unicode, estimate_tokens}
use agent_util.Context.Compaction.{
  Entry, CompactionConfig, Compacted, ok, err, is_tool, has_call, total_tokens,
}
use agent_util.Context.Compaction.Boundary.{calls, answered, paired_from, IsPaired}
use agent_util.Context.Compaction.Pairing.{PairedResult, run_compaction-IsPaired}
use agent_util.Context.Manager.{
  Manager, replace_entries, entry_of, add, replaced, compact, usage_ratio,
}
use agent_util.Context.Manager.Invariant.{check_threshold_fields}

paired_from-append_plain :
    (prev : Option Entry) (es : List Entry) (e : Entry)
    → is_tool e ≡ false
    → paired_from prev es ≡ true
    → paired_from prev (es ++ (e ∷ [])) ≡ true
unfolding paired_from answered
paired_from-append_plain prev [] e t h = rw t
paired_from-append_plain prev (x ∷ es) e t h =
    ground (arith, paired_from-append_plain (some x) es e t)

paired_from-append_call :
    (prev : Option Entry) (es : List Entry) (c e : Entry)
    → is_tool c ≡ false
    → text_eq e.message.tool_call_id [] ≡ false
    → has_call e.message.tool_call_id c ≡ true
    → paired_from prev es ≡ true
    → paired_from prev ((es ++ (c ∷ [])) ++ (e ∷ [])) ≡ true
unfolding paired_from answered calls
paired_from-append_call prev [] c e t n k h = ground arith
paired_from-append_call prev (x ∷ es) c e t n k h =
    ground (arith, paired_from-append_call (some x) es c e t n k)

module _ (fl : Floats) (u : Unicode) where
  abbrev pub HoldsPairs : Manager fl.Float → Type 0
  HoldsPairs m = IsPaired m.entries

  add-entries :
      (msg : Message) (m : Manager fl.Float)
      → (add fl u msg m).entries ≡ m.entries ++ (entry_of fl u msg ∷ [])
  unfolding add
  add-entries msg m =
      (check_threshold_fields fl (record m {
        entries = m.entries ++ (entry_of fl u msg ∷ []);
        token_count = m.token_count + estimate_tokens fl u msg;
      })).0

  pub add-HoldsPairs :
      (msg : Message) (m : Manager fl.Float)
      → text_eq msg.role (txt "tool") ≡ false
      → HoldsPairs m
      → HoldsPairs (add fl u msg m)
  unfolding entry_of is_tool
  add-HoldsPairs msg m t h =
      rw (add-entries msg m) (paired_from-append_plain none m.entries (entry_of fl u msg) t h)

  pub add_call-HoldsPairs :
      (call result : Message) (m : Manager fl.Float)
      → text_eq call.role (txt "tool") ≡ false
      → text_eq result.tool_call_id [] ≡ false
      → has_call result.tool_call_id (entry_of fl u call) ≡ true
      → HoldsPairs m
      → HoldsPairs (add fl u result (add fl u call m))
  unfolding entry_of is_tool
  add_call-HoldsPairs call result m t n k h =
      rw (add-entries result (add fl u call m), add-entries call m)
        (paired_from-append_call none m.entries (entry_of fl u call) (entry_of fl u result) t n k h)

  replaced-HoldsPairs :
      {W : Type 0} (m : Manager fl.Float) (r : Compacted × W)
      → PairedResult fl u r.0
      → HoldsPairs m
      → HoldsPairs (replaced fl u m r).1
  unfolding replace_entries
  replaced-HoldsPairs m (ok es, w) k h =
      rw (check_threshold_fields fl (record m { entries = es; token_count = total_tokens es })).0 k
  replaced-HoldsPairs m (err e, w) k h = h

  pub compact-HoldsPairs :
      {W : Type 0} (cfg : CompactionConfig W fl.Float) (m : Manager fl.Float) (w : W)
      → HoldsPairs m
      → HoldsPairs (compact fl u cfg m w).1
  unfolding compact
  compact-HoldsPairs cfg m w h = elim (Bool-cases (fl.less (usage_ratio fl m) m.threshold)) [
    | inl low ↦ rw low h
    | inr high ↦ rw high (
        replaced-HoldsPairs m _
          (run_compaction-IsPaired fl u m.entries m.reserved_tokens m.token_limit cfg w h) h)
  ]
