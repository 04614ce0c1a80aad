-- ===== src/Context/Compaction/Idempotence.antt =====
-- internal/context/compaction.go: the first two stages run twice.
use agent_util.Common.{
  ℕ, zero, suc, ◌-◌, ◌≡◌, refl, ap, ap₂, ◌⊎◌, inl, inr, true, List, [], ◌∷◌, ◌++◌, map, arith, Text,
  txt, text_eq, text_eq_refl, contains, contains-append, decimal, ◌==◌, leb, length, take,
  Bool-cases,
}
use agent_util.Common.Floats.{Floats}
use agent_util.Llm.Message.{content_string}
use agent_util.Context.Estimate.{Unicode}
use agent_util.Context.Compaction.{
  Entry, is_tool, masked_content, with_content, truncated, trim_entry, budget_trim, mask_entry,
  mask_first, observation_mask,
}

map_idem {ℓ} :
    {A : Type ℓ} (f : A → A) (xs : List A) → ((x : A) → f (f x) ≡ f x) → map f (map f xs) ≡ map f xs
map_idem f [] h = refl
map_idem f (x ∷ xs) h = rw (h x) (ap (λ t. f x ∷ t) (map_idem f xs h))

module _ (fl : Floats) (u : Unicode) where
  with_content_lem :
      (e : Entry) (text : Text)
      → (is_tool (with_content fl u e text) ≡ is_tool e)
        × (content_string (with_content fl u e text).message ≡ text)
  unfolding with_content is_tool content_string
  with_content_lem e text = (refl, refl)

  truncated-contains :
      (n : ℕ) (content : Text)
      → contains (txt "\n\n[... truncated") (truncated fl u n content) ≡ true
  unfolding truncated
  truncated-contains n content =
      contains-append (txt "\n\n[... truncated") (take n content)
        (txt ", original: " ++ (decimal (length content) ++ txt " bytes ...]"))

  -- a tool result that was shortened is recognised by its marker
  trim_entry_marked :
      (n : ℕ) (e : Entry)
      → contains (txt "\n\n[... truncated") (content_string e.message) ≡ true
      → trim_entry fl u n e ≡ e
  unfolding trim_entry
  trim_entry_marked n e h = rw h (ground arith)

  trim_entry-cases :
      (n : ℕ) (e : Entry)
      → (trim_entry fl u n e ≡ e)
        ⊎ (trim_entry fl u n e ≡ with_content fl u e (truncated fl u n (content_string e.message)))
  unfolding trim_entry
  trim_entry-cases n e = ground arith

  trim_entry_idem :
      (n : ℕ) (e : Entry) → trim_entry fl u n (trim_entry fl u n e) ≡ trim_entry fl u n e
  trim_entry_idem n e = elim (trim_entry-cases n e) [
    | inl same ↦ ap (trim_entry fl u n) same
    | inr cut ↦
        let text = truncated fl u n (content_string e.message) in
        let marked : contains (txt "\n\n[... truncated")
              (content_string (with_content fl u e text).message)
            ≡ true =
          rw (with_content_lem e text).1 (truncated-contains n (content_string e.message)) in
        rw cut (trim_entry_marked n (with_content fl u e text) marked)
  ]

  mask_entry_masked :
      (e : Entry) → content_string e.message ≡ masked_content → mask_entry fl u e ≡ e
  unfolding mask_entry
  mask_entry_masked e h =
      let same : text_eq (content_string e.message) masked_content ≡ true =
        rw h (text_eq_refl masked_content) in
      rw same (ground arith)

  mask_entry-cases :
      (e : Entry)
      → (mask_entry fl u e ≡ e) ⊎ (mask_entry fl u e ≡ with_content fl u e masked_content)
  unfolding mask_entry
  mask_entry-cases e = ground arith

  mask_entry_idem : (e : Entry) → mask_entry fl u (mask_entry fl u e) ≡ mask_entry fl u e
  mask_entry_idem e = elim (mask_entry-cases e) [
    | inl same ↦ ap (mask_entry fl u) same
    | inr cut ↦ rw cut (
        mask_entry_masked (with_content fl u e masked_content)
          (with_content_lem e masked_content).1)
  ]

  length-mask_first : (n : ℕ) (es : List Entry) → length (mask_first fl u n es) ≡ length es
  unfolding mask_first
  length-mask_first zero es = refl
  length-mask_first (suc n) [] = refl
  length-mask_first (suc n) (e ∷ es) = ap suc (length-mask_first n es)

  mask_first_idem :
      (n : ℕ) (es : List Entry) → mask_first fl u n (mask_first fl u n es) ≡ mask_first fl u n es
  unfolding mask_first
  mask_first_idem zero es = refl
  mask_first_idem (suc n) [] = refl
  mask_first_idem (suc n) (e ∷ es) = ap₂ (λ x t. x ∷ t) (mask_entry_idem e) (mask_first_idem n es)

  -- Shortening tool results a second time changes nothing, and masking them a second time
  -- changes nothing either.
  pub stages_idem :
      (es : List Entry) (max_chars keep_last : ℕ)
      → (budget_trim fl u (budget_trim fl u es max_chars) max_chars ≡ budget_trim fl u es max_chars)
        × (observation_mask fl u (observation_mask fl u es keep_last) keep_last
            ≡ observation_mask fl u es keep_last)
  unfolding budget_trim observation_mask
  stages_idem es max_chars keep_last = (
    elim (Bool-cases (max_chars == 0)) [
      | inl off ↦ rw off
      | inr on ↦ rw on (map_idem (trim_entry fl u max_chars) es (trim_entry_idem max_chars))
    ],
    elim (Bool-cases (leb (length es) keep_last)) [
      | inl all ↦ rw all (rw all)
      | inr old ↦
          let n = length es - keep_last in
          rw old (rw (length-mask_first n es) (rw old (mask_first_idem n es)))
    ],
  )
