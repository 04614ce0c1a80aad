-- ===== src/Engine/Prompt/Laws.antt =====
-- The system prompts of internal/engine/prompt.go.
use agent_util.Common.{
  ◌≡◌, refl, ap, ◌∙◌, Bool, true, false, inl, inr, List, [], ◌∷◌, arith, Text, keep_if, Bool-cases,
  txt, join,
}
use agent_util.Engine.Prompt.{
  Section, text_less, section_less, insert_sorted, sort_sections, PromptBuilder, sorted_sections,
  all_sections, build_system_prompt, build_router_system_prompt, build, parts_of, in_mode,
  scope_all, scope_router,
}

text_less_asym : (s t : Text) → text_less s t ≡ true → text_less t s ≡ false
unfolding text_less
text_less_asym [] [] h = refl
text_less_asym [] (y ∷ ys) h = refl
text_less_asym (x ∷ xs) [] h = cc
text_less_asym (x ∷ xs) (y ∷ ys) h = ground (arith, text_less_asym xs ys)

text_less_total : (s t : Text) → text_less s t ≡ false → text_less t s ≡ false → s ≡ t
unfolding text_less
text_less_total [] [] h k = refl
text_less_total [] (y ∷ ys) h k = cc
text_less_total (x ∷ xs) [] h k = cc
text_less_total (x ∷ xs) (y ∷ ys) h k = ground (arith, text_less_total xs ys)

-- what is not above `s` is below all that `s` is below
text_less_weak :
    (s t r : Text) → text_less s t ≡ true → text_less s r ≡ false → text_less r t ≡ true
unfolding text_less
text_less_weak [] [] r h k = cc
text_less_weak [] (y ∷ ys) [] h k = refl
text_less_weak [] (y ∷ ys) (z ∷ zs) h k = cc
text_less_weak (x ∷ xs) [] r h k = cc
text_less_weak (x ∷ xs) (y ∷ ys) [] h k = refl
text_less_weak (x ∷ xs) (y ∷ ys) (z ∷ zs) h k = ground (arith, text_less_weak xs ys zs)

module _ {S : Type 0} where
  section_less_asym : (a b : Section S) → section_less a b ≡ true → section_less b a ≡ false
  unfolding section_less
  section_less_asym a b h = ground (arith, text_less_asym a.key b.key)

  section_less_total :
      (a b : Section S) → (a.key ≡ b.key → ⊥) → section_less a b ≡ false → section_less b a ≡ true
  unfolding section_less
  section_less_total a b n h = ground (arith, n, text_less_total a.key b.key)

  section_less_weak :
      (a b c : Section S)
      → section_less a b ≡ true
      → section_less a c ≡ false
      → section_less c b ≡ true
  unfolding section_less
  section_less_weak a b c h k = ground (arith, text_less_weak a.key b.key c.key)

  insert_sorted_comm :
      (a b : Section S) (xs : List (Section S))
      → (a.key ≡ b.key → ⊥)
      → insert_sorted a (insert_sorted b xs) ≡ insert_sorted b (insert_sorted a xs)
  unfolding insert_sorted
  insert_sorted_comm a b [] n =
      ground (arith, section_less_asym a b, section_less_asym b a, section_less_total a b n)
  insert_sorted_comm a b (c ∷ cs) n = ground (
    arith,
    section_less_asym a b,
    section_less_asym b a,
    section_less_total a b n,
    section_less_weak c a b,
    section_less_weak c b a,
    insert_sorted_comm a b cs n,
  )

  -- two orders of the same sections: neighbours with different keys have changed places
  pub data Reordered : List (Section S) → List (Section S) → Type 0 where
    same : {xs : List (Section S)} → Reordered xs xs
    keep :
        (a : Section S) {xs ys : List (Section S)} → Reordered xs ys → Reordered (a ∷ xs) (a ∷ ys)
    swap :
        (a b : Section S) {xs : List (Section S)}
        → (a.key ≡ b.key → ⊥)
        → Reordered (a ∷ b ∷ xs) (b ∷ a ∷ xs)
    chain : {xs ys zs : List (Section S)} → Reordered xs ys → Reordered ys zs → Reordered xs zs

  sort_sections-Reordered :
      {xs ys : List (Section S)} → Reordered xs ys → sort_sections xs ≡ sort_sections ys
  unfolding sort_sections
  sort_sections-Reordered same = refl
  sort_sections-Reordered (keep a r) = ap (λ l. insert_sorted a l) (sort_sections-Reordered r)
  sort_sections-Reordered (swap a b {xs} n) = insert_sorted_comm a b (sort_sections xs) n
  sort_sections-Reordered (chain r q) = sort_sections-Reordered r ∙ sort_sections-Reordered q

  keep_if-Reordered :
      (p : Section S → Bool) {xs ys : List (Section S)}
      → Reordered xs ys
      → Reordered (keep_if p xs) (keep_if p ys)
  unfolding keep_if
  keep_if-Reordered p same = same
  keep_if-Reordered p (keep a r) = elim (Bool-cases (p a)) [
    | inl yes_a ↦ rw yes_a (keep a (keep_if-Reordered p r))
    | inr no_a ↦ rw no_a (keep_if-Reordered p r)
  ]
  keep_if-Reordered p (swap a b n) = elim (Bool-cases (p a)) [
    | inl yes_a ↦ elim (Bool-cases (p b)) [
      | inl yes_b ↦ rw (yes_a, yes_b) (swap a b n)
      | inr no_b ↦ rw (yes_a, no_b) same
    ]
    | inr no_a ↦ elim (Bool-cases (p b)) [
      | inl yes_b ↦ rw (no_a, yes_b) same
      | inr no_b ↦ rw (no_a, no_b) same
    ]
  ]
  keep_if-Reordered p (chain r q) = chain (keep_if-Reordered p r) (keep_if-Reordered p q)

  -- The prompts do not depend on the order in which the map of sections is traversed: if the
  -- sections of two builders differ only in their order, where sections with different keys have
  -- changed places, then both give the same system prompt and the same router prompt.
  pub prompts-Reordered :
      (pb pq : PromptBuilder S) (s : S)
      → Reordered (all_sections pb) (all_sections pq)
      → (build_system_prompt pb s ≡ build_system_prompt pq s)
        × (build_router_system_prompt pb s ≡ build_router_system_prompt pq s)
  unfolding build_system_prompt build_router_system_prompt build sorted_sections
  prompts-Reordered pb pq s r =
      let parts = λ (secs : List (Section S)). join (txt "\n\n") (parts_of secs s) in
      (
        ap parts
            (sort_sections-Reordered (keep_if-Reordered (λ sec. in_mode scope_all sec.scope) r)),
        ap parts
            (sort_sections-Reordered (keep_if-Reordered (λ sec. in_mode scope_router sec.scope) r)),
      )
