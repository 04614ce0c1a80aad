-- ===== src/Context/Compaction/Pairing.antt =====
-- internal/context/compaction.go: tool results and their calls under the cascade.
use agent_util.Common.{
  ℕ, zero, suc, ◌-◌, ◌<◌, ◌≡◌, refl, ap, ◌∙◌, inl, inr, true, Option, none, some, List, [], ◌∷◌,
  ◌++◌, map, arith, Text, txt, text_eq, ◌==◌, leb, length, take, drop, Bool-cases,
}
use agent_util.Common.Floats.{Floats}
use agent_util.Llm.Message.{Message}
use agent_util.Context.Estimate.{Unicode}
use agent_util.Context.Compaction.{
  Entry, CompactionConfig, Compacted, ok, err, Summary, summary, failed, is_tool, has_call,
  adjust_keep_boundary, with_content, trim_entry, budget_trim, mask_entry, mask_first,
  observation_mask, make_marker_entry, snip, summarized, compact, run_compaction,
}
use agent_util.Context.Compaction.Stages.{run_compaction_stops}
use agent_util.Context.Compaction.Boundary.{
  calls, answered, paired_from, IsPaired, paired_drop_boundary,
}

-- two histories whose messages differ in their contents alone
abbrev IsSameShape : Entry → Entry → Type 0
IsSameShape d e =
    (d.message.role ≡ e.message.role)
    × (d.message.tool_calls ≡ e.message.tool_calls)
    × (d.message.tool_call_id ≡ e.message.tool_call_id)

answered_same :
    (p q : Option Entry) (d e : Entry)
    → ((id : Text) → calls id p ≡ calls id q)
    → IsSameShape d e
    → answered p d ≡ answered q e
unfolding answered is_tool
answered_same p q d e h s = ground (arith, h e.message.tool_call_id)

calls_same : (d e : Entry) (id : Text) → IsSameShape d e → calls id (some d) ≡ calls id (some e)
unfolding calls is_tool has_call
calls_same d e id s = ground arith

-- a change of contents keeps the pairs
module _ (f : Entry → Entry) (same : (e : Entry) → IsSameShape (f e) e) where
  paired_map :
      (p q : Option Entry) (es : List Entry)
      → ((id : Text) → calls id p ≡ calls id q)
      → paired_from p (map f es) ≡ paired_from q es
  unfolding paired_from
  paired_map p q [] h = refl
  paired_map p q (e ∷ es) h =
      rw (answered_same p q (f e) e h (same e))
        (rw (paired_map (some (f e)) (some e) es (λ id. calls_same (f e) e id (same e))))

  paired_first_part :
      (p q : Option Entry) (n : ℕ) (es : List Entry)
      → ((id : Text) → calls id p ≡ calls id q)
      → paired_from p (map f (take n es) ++ drop n es) ≡ paired_from q es
  unfolding paired_from
  paired_first_part p q zero [] h = refl
  paired_first_part p q zero (e ∷ es) h = rw (answered_same p q e e h (refl, refl, refl))
  paired_first_part p q (suc n) [] h = refl
  paired_first_part p q (suc n) (e ∷ es) h =
      rw (answered_same p q (f e) e h (same e))
        (rw (paired_first_part (some (f e)) (some e) n es (λ id. calls_same (f e) e id (same e))))

module _ (fl : Floats) (u : Unicode) where
  trim_entry_same : (max_chars : ℕ) (e : Entry) → IsSameShape (trim_entry fl u max_chars e) e
  unfolding trim_entry with_content
  trim_entry_same max_chars e = ground arith

  mask_entry_same : (e : Entry) → IsSameShape (mask_entry fl u e) e
  unfolding mask_entry with_content
  mask_entry_same e = ground arith

  mask_first_lem :
      (n : ℕ) (es : List Entry)
      → mask_first fl u n es ≡ map (mask_entry fl u) (take n es) ++ drop n es
  unfolding mask_first
  mask_first_lem zero es = refl
  mask_first_lem (suc n) [] = refl
  mask_first_lem (suc n) (e ∷ es) = ap (λ t. mask_entry fl u e ∷ t) (mask_first_lem n es)

  budget_trim-IsPaired :
      (es : List Entry) (max_chars : ℕ) → IsPaired es → IsPaired (budget_trim fl u es max_chars)
  unfolding budget_trim
  budget_trim-IsPaired es max_chars h = elim (Bool-cases (max_chars == 0)) [
    | inl off ↦ rw off h
    | inr on ↦ rw on (
        paired_map (trim_entry fl u max_chars) (trim_entry_same max_chars) none none es (λ id. refl)
        ∙ h)
  ]

  observation_mask-IsPaired :
      (es : List Entry) (keep_last : ℕ)
      → IsPaired es
      → IsPaired (observation_mask fl u es keep_last)
  unfolding observation_mask
  observation_mask-IsPaired es keep_last h = elim (Bool-cases (leb (length es) keep_last)) [
    | inl all ↦ rw all h
    | inr some_old ↦
        rw (some_old, mask_first_lem (length es - keep_last) es)
          (paired_first_part (mask_entry fl u) mask_entry_same none none (length es - keep_last) es
              (λ id. refl)
            ∙ h)
  ]

  -- a marker is a user message
  marker_plain : (text : Text) (p : Option Entry) → answered p (make_marker_entry fl u text) ≡ true
  unfolding answered make_marker_entry is_tool text_eq txt
  marker_plain text p = refl

  marker-IsPaired :
      (text : Text) (es : List Entry)
      → ((p : Option Entry) → paired_from p es ≡ true)
      → IsPaired (make_marker_entry fl u text ∷ es)
  unfolding paired_from
  marker-IsPaired text es h = rw (marker_plain text none) (h (some (make_marker_entry fl u text)))

  behind_marker :
      (es : List Entry) (keep_last : ℕ) (text : Text)
      → IsPaired es
      → keep_last < length es
      → IsPaired (make_marker_entry fl u text ∷ drop (adjust_keep_boundary es keep_last) es)
  behind_marker es keep_last text h lt =
      marker-IsPaired text (drop (adjust_keep_boundary es keep_last) es)
        (λ p. paired_drop_boundary p es keep_last h lt)

  -- Snipping a history whose tool results follow their calls leaves such a history.
  pub snip-IsPaired :
      (es : List Entry) (keep_last : ℕ) → IsPaired es → IsPaired (snip fl u es keep_last)
  unfolding snip
  snip-IsPaired es keep_last h = elim (Bool-cases (leb (length es) keep_last)) [
    | inl all ↦ rw all h
    | inr old ↦ elim (Bool-cases (adjust_keep_boundary es keep_last == 0)) [
      | inl none_cut ↦ rw (old, none_cut) h
      | inr cut ↦ rw (old, cut) (behind_marker es keep_last _ h (ground arith))
    ]
  ]

  abbrev pub PairedResult : Compacted → Type 0
  PairedResult (ok es) = IsPaired es
  PairedResult (err e) = Unit {0}

  summarized-IsPaired :
      {W : Type 0} (es : List Entry) (keep_last : ℕ) (r : Summary × W)
      → IsPaired es
      → keep_last < length es
      → PairedResult (summarized fl u es (adjust_keep_boundary es keep_last) r).0
  summarized-IsPaired es keep_last (failed e, w) h lt = tt
  summarized-IsPaired es keep_last (summary text, w) h lt = behind_marker es keep_last _ h lt

  compact-IsPaired :
      {W : Type 0} (es : List Entry) (keep_last : ℕ) (s : Option (List Message → W → Summary × W))
      (w : W)
      → IsPaired es
      → PairedResult (compact fl u es keep_last s w).0
  unfolding compact
  compact-IsPaired es keep_last none w h = h
  compact-IsPaired es keep_last (some f) w h = elim (Bool-cases (leb (length es) keep_last)) [
    | inl all ↦ rw all h
    | inr old ↦ elim (Bool-cases (adjust_keep_boundary es keep_last == 0)) [
      | inl none_cut ↦ rw (old, none_cut) h
      | inr cut ↦ rw (old, cut) (summarized-IsPaired es keep_last _ h (ground arith))
    ]
  ]

  -- In a history in which each tool result stands directly behind the message that holds its
  -- call, it does so after the cascade too, at whichever stage that stops and whatever the
  -- summariser answers.
  pub run_compaction-IsPaired :
      {W : Type 0} (es : List Entry) (reserved token_limit : ℕ) (cfg : CompactionConfig W fl.Float)
      (w : W)
      → IsPaired es
      → PairedResult (run_compaction fl u es reserved token_limit cfg w).0
  run_compaction-IsPaired es reserved token_limit cfg w h =
      let first = budget_trim-IsPaired es cfg.budget_max_chars h in
      let second = observation_mask-IsPaired _ cfg.keep_last first in
      let third = snip-IsPaired _ cfg.keep_last second in
      run_compaction_stops fl u cfg (λ r. PairedResult r.0) es reserved token_limit w first second
        third (compact-IsPaired _ cfg.keep_last cfg.summarizer w third)
