-- ===== src/Engine/Prompt.antt =====
-- internal/engine/prompt.go. A dynamic section reads the state `S` of its engine. The source
-- ranges over a map and then sorts by priority and key; the keys are distinct, so that the order
-- is the same from any order of the map. Priorities are not negative.
pub mod Laws
use agent_util.Common.{
  ℕ, ◌+◌, Bool, true, false, not, ◌&&◌, ◌||◌, Option, none, some, List, [], ◌∷◌, ◌++◌, map, Text,
  txt, ltb, leb, ◌==◌, if◌then◌else◌, keep_if, join, Map, lookup, insert, delete, text_key, length,
}
use agent_util.Common.Floats.{Floats}
use agent_util.Context.Estimate.{Unicode, estimate_text_tokens}

pub data SectionScope : Type 0 where
  scope_all scope_router scope_manual : SectionScope

pub record Section (S : Type 0) : Type 0 where
  pub key : Text
  pub priority : ℕ
  pub scope : SectionScope
  pub content : Text
  pub dynamic : Option (S → Text)
  pub required : Bool

pub record PromptBuilder (S : Type 0) : Type 0 where
  pub sections : Map Text (Section S)
  pub dirty : Bool
  pub cached_tokens : ℕ

-- Go's `<` on strings: by bytes, a proper prefix first
unfoldable pub text_less : Text → Text → Bool
text_less [] [] = false
text_less [] (y ∷ ys) = true
text_less (x ∷ xs) [] = false
text_less (x ∷ xs) (y ∷ ys) = ltb x y || x == y && text_less xs ys

abbrev is_some {ℓ} : {A : Type ℓ} → Option A → Bool
is_some none = false
is_some (some x) = true

abbrev in_mode : SectionScope → SectionScope → Bool
in_mode mode scope_manual = false
in_mode scope_all scope_all = true
in_mode scope_all scope_router = false
in_mode scope_router scope = true
in_mode scope_manual scope = false

abbrev cons_part : Text → List Text → List Text
cons_part [] rest = rest
cons_part (c ∷ cs) rest = (c ∷ cs) ∷ rest

abbrev is_manual : SectionScope → Bool
is_manual scope_manual = true
is_manual _ = false

module _ (fl : Floats) (u : Unicode) where
  abbrev text_tokens : Text → ℕ
  text_tokens [] = 0
  text_tokens (c ∷ cs) = estimate_text_tokens fl u (c ∷ cs)

module _ {S : Type 0} where
  abbrev resolve_with : Option (S → Text) → Text → S → Text
  resolve_with none content s = content
  resolve_with (some f) content s = f s

  -- Section.resolve
  unfoldable pub resolve_section : Section S → S → Text
  resolve_section sec s = resolve_with sec.dynamic sec.content s

  abbrev pub new_prompt_builder : PromptBuilder S
  new_prompt_builder = record { sections = []; dirty = true; cached_tokens = 0 }

  -- Add, Remove, Has and Resolve
  unfoldable pub add_section : Section S → PromptBuilder S → PromptBuilder S
  add_section sec pb = record pb { sections = insert sec.key sec pb.sections; dirty = true }

  unfoldable pub has : Text → PromptBuilder S → Bool
  has key pb = is_some (lookup key pb.sections)

  unfoldable pub remove : Text → PromptBuilder S → PromptBuilder S
  unfolding has
  remove key pb =
      if has key pb then record pb { sections = delete key pb.sections; dirty = true } else pb

  abbrev resolved : Option (Section S) → S → Option Text
  resolved none s = none
  resolved (some sec) s = some (resolve_section sec s)

  unfoldable pub resolve : Text → PromptBuilder S → S → Option Text
  resolve key pb s = resolved (lookup key pb.sections) s

  unfoldable pub section_less : Section S → Section S → Bool
  section_less a b =
      if a.priority == b.priority then text_less a.key b.key else ltb a.priority b.priority

  -- sort.Slice
  unfoldable pub insert_sorted : Section S → List (Section S) → List (Section S)
  insert_sorted a [] = a ∷ []
  insert_sorted a (b ∷ bs) =
      let rest = insert_sorted a bs in if section_less b a then b ∷ rest else a ∷ b ∷ bs

  unfoldable pub sort_sections : List (Section S) → List (Section S)
  sort_sections [] = []
  sort_sections (a ∷ bs) = insert_sorted a (sort_sections bs)

  abbrev pub all_sections : PromptBuilder S → List (Section S)
  all_sections pb = map (λ (entry : Text × Section S). entry.1) pb.sections

  unfoldable pub sorted_sections : SectionScope → PromptBuilder S → List (Section S)
  sorted_sections mode pb =
      sort_sections (keep_if (λ (sec : Section S). in_mode mode sec.scope) (all_sections pb))

  unfoldable pub parts_of : List (Section S) → S → List Text
  parts_of [] s = []
  parts_of (sec ∷ secs) s = cons_part (resolve_section sec s) (parts_of secs s)

  unfoldable pub build : SectionScope → PromptBuilder S → S → Text
  build mode pb s = join (txt "\n\n") (parts_of (sorted_sections mode pb) s)

  -- BuildSystemPrompt and BuildRouterSystemPrompt
  unfoldable pub build_system_prompt : PromptBuilder S → S → Text
  build_system_prompt pb s = build scope_all pb s

  unfoldable pub build_router_system_prompt : PromptBuilder S → S → Text
  build_router_system_prompt pb s = build scope_router pb s

  module _ (fl : Floats) (u : Unicode) where
    unfoldable pub manual_tokens : List (Section S) → S → ℕ
    manual_tokens [] s = 0
    manual_tokens (sec ∷ secs) s =
        let rest = manual_tokens secs s in
        if is_manual sec.scope then text_tokens fl u (resolve_section sec s) + rest else rest

    -- EstimateReservedTokens, which keeps what it computed
    unfoldable pub estimate_reserved_tokens : PromptBuilder S → S → ℕ × PromptBuilder S
    estimate_reserved_tokens pb s =
        let tokens =
          estimate_text_tokens fl u (build_router_system_prompt pb s)
          + manual_tokens (all_sections pb) s in
        if not pb.dirty
        then (pb.cached_tokens, pb)
        else (tokens, record pb { cached_tokens = tokens; dirty = false })
