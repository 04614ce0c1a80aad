-- ===== src/Context/Compaction/Stages.antt =====
-- The three pure stages of runCompaction, and the rule that what holds of each stop of the cascade
-- holds of its result.
use agent_util.Common.{ℕ, List, three_tests}
use agent_util.Common.Floats.{Floats}
use agent_util.Context.Estimate.{Unicode}
use agent_util.Context.Compaction.{
  Entry, CompactionConfig, Compacted, ok, budget_trim, observation_mask, snip, compact, usage_ratio,
  run_compaction,
}

module _ (fl : Floats) (u : Unicode) {W : Type 0} (cfg : CompactionConfig W fl.Float) where
  abbrev pub trimmed : List Entry → List Entry
  trimmed es = budget_trim fl u es cfg.budget_max_chars

  abbrev pub masked : List Entry → List Entry
  masked es = observation_mask fl u (trimmed es) cfg.keep_last

  abbrev pub snipped : List Entry → List Entry
  snipped es = snip fl u (masked es) cfg.keep_last

  pub run_compaction_stops {ℓ} :
      (P : Compacted × W → Type ℓ) (es : List Entry) (reserved token_limit : ℕ) (w : W)
      → P (ok (trimmed es), w)
      → P (ok (masked es), w)
      → P (ok (snipped es), w)
      → P (compact fl u (snipped es) cfg.keep_last cfg.summarizer w)
      → P (run_compaction fl u es reserved token_limit cfg w)
  unfolding run_compaction
  run_compaction_stops P es reserved token_limit w =
      three_tests P (fl.less (usage_ratio fl u (trimmed es) reserved token_limit) cfg.target_ratio)
        (fl.less (usage_ratio fl u (masked es) reserved token_limit) cfg.target_ratio)
        (fl.less (usage_ratio fl u (snipped es) reserved token_limit) cfg.target_ratio)
        (ok (trimmed es), w) (ok (masked es), w) (ok (snipped es), w)
        (compact fl u (snipped es) cfg.keep_last cfg.summarizer w)
