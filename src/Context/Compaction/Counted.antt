-- ===== src/Context/Compaction/Counted.antt =====
-- internal/context/compaction.go: the token estimates of the entries that the cascade leaves or
-- makes.
use agent_util.Common.{
  ℕ, zero, suc, ◌-◌, ◌≡◌, refl, inl, inr, Option, none, some, List, [], ◌∷◌, ◌++◌, map, arith, ◌==◌,
  leb, length, drop, Bool-cases,
}
use agent_util.Common.Floats.{Floats}
use agent_util.Llm.Message.{Message}
use agent_util.Context.Estimate.{Unicode, estimate_tokens}
use agent_util.Context.Compaction.{
  Entry, CompactionConfig, Compacted, ok, err, Summary, summary, failed, adjust_keep_boundary,
  with_content, trim_entry, budget_trim, mask_entry, mask_first, observation_mask,
  make_marker_entry, snip, summarized, compact, run_compaction,
}
use agent_util.Context.Compaction.Stages.{run_compaction_stops}

module _ (fl : Floats) (u : Unicode) where
  abbrev pub IsCounted : Entry → Type 0
  IsCounted e = e.tokens ≡ estimate_tokens fl u e.message

  abbrev pub AllCounted : List Entry → Type 0
  AllCounted [] = Unit {0}
  AllCounted (e ∷ es) = IsCounted e × AllCounted es

  pub AllCounted-append :
      (xs ys : List Entry) → AllCounted xs → AllCounted ys → AllCounted (xs ++ ys)
  AllCounted-append [] ys h k = k
  AllCounted-append (x ∷ xs) ys h k = (h.0, AllCounted-append xs ys h.1 k)

  AllCounted-drop : (n : ℕ) (es : List Entry) → AllCounted es → AllCounted (drop n es)
  AllCounted-drop zero es h = h
  AllCounted-drop (suc n) [] h = h
  AllCounted-drop (suc n) (e ∷ es) h = AllCounted-drop n es h.1

  trim_entry-IsCounted : (n : ℕ) (e : Entry) → IsCounted e → IsCounted (trim_entry fl u n e)
  unfolding trim_entry with_content
  trim_entry-IsCounted n e h = ground arith

  mask_entry-IsCounted : (e : Entry) → IsCounted e → IsCounted (mask_entry fl u e)
  unfolding mask_entry with_content
  mask_entry-IsCounted e h = ground arith

  map-AllCounted :
      (f : Entry → Entry)
      → ((e : Entry) → IsCounted e → IsCounted (f e))
      → (es : List Entry) → AllCounted es
      → AllCounted (map f es)
  map-AllCounted f keep [] h = h
  map-AllCounted f keep (e ∷ es) h = (keep e h.0, map-AllCounted f keep es h.1)

  mask_first-AllCounted :
      (n : ℕ) (es : List Entry) → AllCounted es → AllCounted (mask_first fl u n es)
  unfolding mask_first
  mask_first-AllCounted zero es h = h
  mask_first-AllCounted (suc n) [] h = h
  mask_first-AllCounted (suc n) (e ∷ es) h =
      (mask_entry-IsCounted e h.0, mask_first-AllCounted n es h.1)

  budget_trim-AllCounted :
      (es : List Entry) (n : ℕ) → AllCounted es → AllCounted (budget_trim fl u es n)
  unfolding budget_trim
  budget_trim-AllCounted es n h = elim (Bool-cases (n == 0)) [
    | inl off ↦ rw off h
    | inr on ↦ rw on (map-AllCounted (trim_entry fl u n) (trim_entry-IsCounted n) es h)
  ]

  observation_mask-AllCounted :
      (es : List Entry) (k : ℕ) → AllCounted es → AllCounted (observation_mask fl u es k)
  unfolding observation_mask
  observation_mask-AllCounted es k h = elim (Bool-cases (leb (length es) k)) [
    | inl all ↦ rw all h
    | inr old ↦ rw old (mask_first-AllCounted (length es - k) es h)
  ]

  marker-IsCounted : (text : List ℕ) → IsCounted (make_marker_entry fl u text)
  unfolding make_marker_entry
  marker-IsCounted text = refl

  snip-AllCounted : (es : List Entry) (k : ℕ) → AllCounted es → AllCounted (snip fl u es k)
  unfolding snip
  snip-AllCounted es k h = elim (Bool-cases (leb (length es) k)) [
    | inl all ↦ rw all h
    | inr old ↦ elim (Bool-cases (adjust_keep_boundary es k == 0)) [
      | inl none_cut ↦ rw (old, none_cut) h
      | inr cut ↦
          rw (old, cut) (marker-IsCounted _, AllCounted-drop (adjust_keep_boundary es k) es h)
    ]
  ]

  abbrev pub CountedResult : Compacted → Type 0
  CountedResult (ok es) = AllCounted es
  CountedResult (err e) = Unit {0}

  summarized-AllCounted :
      {W : Type 0} (es : List Entry) (cut : ℕ) (r : Summary × W)
      → AllCounted es
      → CountedResult (summarized fl u es cut r).0
  summarized-AllCounted es cut (failed e, w) h = tt
  summarized-AllCounted es cut (summary text, w) h = (marker-IsCounted _, AllCounted-drop cut es h)

  compact-AllCounted :
      {W : Type 0} (es : List Entry) (k : ℕ) (s : Option (List Message → W → Summary × W)) (w : W)
      → AllCounted es
      → CountedResult (compact fl u es k s w).0
  unfolding compact
  compact-AllCounted es k none w h = h
  compact-AllCounted es k (some f) w h = elim (Bool-cases (leb (length es) k)) [
    | inl all ↦ rw all h
    | inr old ↦ elim (Bool-cases (adjust_keep_boundary es k == 0)) [
      | inl none_cut ↦ rw (old, none_cut) h
      | inr cut ↦ rw (old, cut) (summarized-AllCounted es (adjust_keep_boundary es k) _ h)
    ]
  ]

  pub run_compaction-AllCounted :
      {W : Type 0} (es : List Entry) (reserved token_limit : ℕ) (cfg : CompactionConfig W fl.Float)
      (w : W)
      → AllCounted es
      → CountedResult (run_compaction fl u es reserved token_limit cfg w).0
  run_compaction-AllCounted es reserved token_limit cfg w h =
      let k = cfg.keep_last in
      let first = budget_trim-AllCounted es cfg.budget_max_chars h in
      let second = observation_mask-AllCounted _ k first in
      let third = snip-AllCounted _ k second in
      run_compaction_stops fl u cfg (λ r. CountedResult r.0) es reserved token_limit w first second
        third (compact-AllCounted _ k cfg.summarizer w third)
