-- ===== src/Context/Compaction/Tail.antt =====
-- What the cascade of internal/context/compaction.go leaves alone: the last `keep_last` messages,
-- of which only the first stage shortens long tool results.
use agent_util.Common.{
  ℕ, zero, suc, ◌+◌, ◌-◌, ◌≤◌, ◌<◌, ◌≡◌, refl, sym, ap, ◌∙◌, none, some, Option, List, [], ◌∷◌,
  ◌++◌, arith, ◌==◌, leb, length, take, drop, Bool-cases, inl, inr, length-append, length-drop,
  length-map, take-append-drop,
}
use agent_util.Common.Floats.{Floats}
use agent_util.Llm.Message.{Message}
use agent_util.Context.Estimate.{Unicode}
use agent_util.Context.Compaction.{
  Entry, CompactionConfig, Compacted, ok, err, Summary, summary, failed, adjust_keep_boundary,
  trim_entry, budget_trim, mask_first, observation_mask, snip, summarized, compact, run_compaction,
}
use agent_util.Context.Compaction.Stages.{trimmed, run_compaction_stops}
use agent_util.Context.Compaction.Boundary.{adjust_keep_boundary-le}

abbrev pub last_n : ℕ → List Entry → List Entry
last_n k es = drop (length es - k) es

last_n-append :
    (k : ℕ) (front es : List Entry) → k ≤ length es → last_n k (front ++ es) ≡ last_n k es
last_n-append k [] es h = refl
last_n-append k (e ∷ front) es h =
    let step : suc (length (front ++ es)) - k ≡ suc (length (front ++ es) - k) =
      omega (arith, length-append front es) in
    rw step (last_n-append k front es h)

last_n-drop : (k c : ℕ) (es : List Entry) → c + k ≤ length es → last_n k (drop c es) ≡ last_n k es
last_n-drop k c es h =
    sym (last_n-append k (take c es) (drop c es) (omega (arith, length-drop c es)))
    ∙ ap (last_n k) (take-append-drop c es)

-- a stage that has not more entries than before, and keeps the last `k`
record KeepsLast (k : ℕ) (before after : List Entry) : Type 0 where
  fewer : length after ≤ length before
  enough : k ≤ length before → k ≤ length after
  same : k ≤ length before → last_n k after ≡ last_n k before

KeepsLast-refl : (k : ℕ) (es : List Entry) → KeepsLast k es es
KeepsLast-refl k es = record { fewer = omega arith; enough = λ h. h; same = λ h. refl }

KeepsLast-trans : {k : ℕ} {a b c : List Entry} → KeepsLast k a b → KeepsLast k b c → KeepsLast k a c
KeepsLast-trans p q = record {
  fewer = omega (arith, p.fewer, q.fewer);
  enough = λ h. q.enough (p.enough h);
  same = λ h. q.same (p.enough h) ∙ p.same h;
}

-- one entry in place of the first ones
KeepsLast-cut :
    (k c : ℕ) (m : Entry) (es : List Entry)
    → 0 < c
    → c + k ≤ length es
    → KeepsLast k es (m ∷ drop c es)
KeepsLast-cut k c m es pos h =
    let len : length (drop c es) ≡ length es - c = length-drop c es in
    record {
      fewer = omega arith;
      enough = λ _. omega arith;
      same = λ _. last_n-append k (m ∷ []) (drop c es) (omega arith) ∙ last_n-drop k c es h;
    }

module _ (fl : Floats) (u : Unicode) where
  length-mask_first : (n : ℕ) (es : List Entry) → length (mask_first fl u n es) ≡ length es
  unfolding mask_first
  length-mask_first zero es = refl
  length-mask_first (suc n) [] = refl
  length-mask_first (suc n) (e ∷ es) = ap suc (length-mask_first n es)

  drop-mask_first : (n : ℕ) (es : List Entry) → drop n (mask_first fl u n es) ≡ drop n es
  unfolding mask_first
  drop-mask_first zero es = refl
  drop-mask_first (suc n) [] = refl
  drop-mask_first (suc n) (e ∷ es) = drop-mask_first n es

  observation_mask-KeepsLast :
      (es : List Entry) (k : ℕ) → KeepsLast k es (observation_mask fl u es k)
  unfolding observation_mask
  observation_mask-KeepsLast es k = elim (Bool-cases (leb (length es) k)) [
    | inl all ↦ rw all (KeepsLast-refl k es)
    | inr old ↦
        let n = length es - k in
        let len : length (mask_first fl u n es) ≡ length es = length-mask_first n es in
        rw old (record {
          fewer = omega arith;
          enough = λ h. omega arith;
          same = λ h. rw len (drop-mask_first n es);
        })
  ]

  snip-KeepsLast : (es : List Entry) (k : ℕ) → KeepsLast k es (snip fl u es k)
  unfolding snip
  snip-KeepsLast es k = elim (Bool-cases (leb (length es) k)) [
    | inl all ↦ rw all (KeepsLast-refl k es)
    | inr old ↦ elim (Bool-cases (adjust_keep_boundary es k == 0)) [
      | inl none_cut ↦ rw (old, none_cut) (KeepsLast-refl k es)
      | inr cut ↦
          rw (old, cut)
            (KeepsLast-cut k (adjust_keep_boundary es k) _ es (ground arith)
              (adjust_keep_boundary-le es k (ground arith)))
    ]
  ]

  -- what the cascade promises of its result, if it is no error
  abbrev KeptResult : ℕ → List Entry → Compacted → Type 0
  KeptResult k es (ok after) = KeepsLast k es after
  KeptResult k es (err e) = Unit {0}

  summarized-KeepsLast :
      {W : Type 0} (es : List Entry) (k : ℕ) (r : Summary × W)
      → 0 < adjust_keep_boundary es k
      → k < length es
      → KeptResult k es (summarized fl u es (adjust_keep_boundary es k) r).0
  summarized-KeepsLast es k (failed e, w) pos lt = tt
  summarized-KeepsLast es k (summary text, w) pos lt =
      KeepsLast-cut k (adjust_keep_boundary es k) _ es pos (adjust_keep_boundary-le es k lt)

  compact-KeepsLast :
      {W : Type 0} (es : List Entry) (k : ℕ) (s : Option (List Message → W → Summary × W)) (w : W)
      → KeptResult k es (compact fl u es k s w).0
  unfolding compact
  compact-KeepsLast es k none w = KeepsLast-refl k es
  compact-KeepsLast es k (some f) w = elim (Bool-cases (leb (length es) k)) [
    | inl all ↦ rw all (KeepsLast-refl k es)
    | inr old ↦ elim (Bool-cases (adjust_keep_boundary es k == 0)) [
      | inl none_cut ↦ rw (old, none_cut) (KeepsLast-refl k es)
      | inr cut ↦ rw (old, cut) (summarized-KeepsLast es k _ (ground arith) (ground arith))
    ]
  ]

  KeptResult-trans :
      {k : ℕ} {a b : List Entry} (r : Compacted)
      → KeepsLast k a b
      → KeptResult k b r
      → KeptResult k a r
  KeptResult-trans (ok c) p q = KeepsLast-trans p q
  KeptResult-trans (err e) p q = tt

  length-budget_trim : (es : List Entry) (n : ℕ) → length (budget_trim fl u es n) ≡ length es
  unfolding budget_trim
  length-budget_trim es n = ground (arith, length-map (trim_entry fl u n) es)

  run_compaction-KeptResult :
      {W : Type 0} (es : List Entry) (reserved token_limit : ℕ) (cfg : CompactionConfig W fl.Float)
      (w : W)
      → KeptResult cfg.keep_last
          (trimmed fl u cfg es)
          (run_compaction fl u es reserved token_limit cfg w).0
  run_compaction-KeptResult es reserved token_limit cfg w =
      let k = cfg.keep_last in
      let start = trimmed fl u cfg es in
      let second = observation_mask-KeepsLast start k in
      let third = KeepsLast-trans second (snip-KeepsLast _ k) in
      run_compaction_stops fl u cfg (λ r. KeptResult k start r.0) es reserved token_limit w
        (KeepsLast-refl k start) second third
        (KeptResult-trans _ third (compact-KeepsLast _ k cfg.summarizer w))

  -- Let the cascade answer with the entries `after`. There are not more of them than before. If
  -- the history had `keep_last` messages at least, then `after` has so many too, and its last
  -- `keep_last` ones are those of the history after the first stage, which shortens tool results.
  pub run_compaction_keeps_last :
      {W : Type 0} (es : List Entry) (reserved token_limit : ℕ) (cfg : CompactionConfig W fl.Float)
      (w : W) {after : List Entry}
      → (run_compaction fl u es reserved token_limit cfg w).0 ≡ ok after
      → (length after ≤ length es)
        × (cfg.keep_last ≤ length es
            → (cfg.keep_last ≤ length after)
              × (last_n cfg.keep_last after
                  ≡ last_n cfg.keep_last (budget_trim fl u es cfg.budget_max_chars)))
  run_compaction_keeps_last es reserved token_limit cfg w {after} e =
      let kept : KeepsLast cfg.keep_last (trimmed fl u cfg es) after =
        rw e at (run_compaction-KeptResult es reserved token_limit cfg w) in
      let len = length-budget_trim es cfg.budget_max_chars in
      (omega (arith, kept.fewer), λ h. (kept.enough (omega arith), kept.same (omega arith)))
