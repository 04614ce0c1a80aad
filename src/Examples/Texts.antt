-- ===== src/Examples/Texts.antt =====
-- Properties of the JSON repair and of the prompts at concrete texts.
use agent_util.Common.{
  ℕ, ◌≡◌, refl, true, Option, none, List, [], ◌∷◌, Text, txt, contains, Map, text_eq, text_eq_refl,
  subst, ◌++◌, length, some, false,
}
use agent_util.Llm.FixJson.{fix_json}
use agent_util.Llm.FixJson.Passes.{outside, advance, fix_unmatched_brackets, bracket_loop}
use agent_util.Llm.FixJson.Brackets.{
  scan, fix_unmatched_brackets_closes, fix_unmatched_brackets_inside,
}
use agent_util.Llm.FixJson.Number.{Number, number_text, unsigned}
use agent_util.Llm.FixJson.Value.{
  Value, Items, Fields, byte, short, unicode, plain, encode, encode_chars, encode_char, encode_byte,
  short_escape, hex_digit,
}
use agent_util.Llm.FixJson.WellFormed.{fix_json-encode}
use agent_util.Engine.Prompt.{
  Section, build_system_prompt, build_router_system_prompt, PromptBuilder,
}
use agent_util.Engine.Prompt.Laws.{swap, prompts-Reordered}
use agent_util.Examples.Setting.{trusting_json, section}

-- -1.5e3
abbrev amount : Number
amount = record {
  negative = true;
  whole = some (record { first = 0; others = [] });
  fraction = some (record { first = 5; others = [] });
  exponent = some (false, unsigned, record { first = 3; others = [] });
}

-- {"tool":"a\n\u003c","arguments":[-1.5e3,null]}
abbrev sample : Value
sample = Value.object (
    Fields.field (plain (txt "tool")) (Value.string (byte b'a' ∷ short 5 ∷ unicode 0 0 3 12 ∷ [])) (
      Fields.field (plain (txt "arguments"))
        (Value.array (Items.cons (Value.number amount) (Items.cons Value.null Items.nil)))
        Fields.end))

fix_json-encode_example : fix_json trusting_json (encode sample []) ≡ encode sample []
unfolding contains encode encode_chars encode_char encode_byte short_escape hex_digit number_text
    txt
fix_json-encode_example = fix_json-encode trusting_json sample refl refl

fix_unmatched_brackets_closes_example :
    (bracket_loop outside [] (fix_unmatched_brackets (txt "{[1")) ≡ [])
    × (fix_unmatched_brackets (fix_unmatched_brackets (txt "{[1"))
        ≡ fix_unmatched_brackets (txt "{[1"))
unfolding scan advance txt
fix_unmatched_brackets_closes_example = fix_unmatched_brackets_closes (txt "{[1") refl

fix_unmatched_brackets_inside_example :
    (closers : Text) × (fix_unmatched_brackets (txt "{\"a") ≡ txt "{\"a" ++ closers)
    × (length closers ≡ length (bracket_loop outside [] (txt "{\"a")))
    × (bracket_loop outside [] (txt "{\"a" ++ (b'"' ∷ closers)) ≡ [])
    × (bracket_loop outside [] (fix_unmatched_brackets (txt "{\"a"))
        ≡ bracket_loop outside [] (txt "{\"a"))
unfolding scan advance txt
fix_unmatched_brackets_inside_example = fix_unmatched_brackets_inside (txt "{\"a") refl refl

abbrev PromptState : Type 0
PromptState = Option (Map Text ℕ) × ℕ

abbrev builder : List (Text × Section PromptState) → PromptBuilder PromptState
builder secs = record { sections = secs; dirty = true; cached_tokens = 0 }

abbrev one_order : PromptBuilder PromptState
one_order = builder ((txt "a", section (txt "a") 1) ∷ (txt "b", section (txt "b") 0) ∷ [])

abbrev other_order : PromptBuilder PromptState
other_order = builder ((txt "b", section (txt "b") 0) ∷ (txt "a", section (txt "a") 1) ∷ [])

different : txt "a" ≡ txt "b" → ⊥
unfolding txt text_eq
different h =
    let same : text_eq (txt "a") (txt "b") ≡ true =
      subst (λ t. text_eq (txt "a") t ≡ true) h (text_eq_refl (txt "a")) in
    cc

prompts-Reordered_example :
    (build_system_prompt one_order (none, 0) ≡ build_system_prompt other_order (none, 0))
    × (build_router_system_prompt one_order (none, 0)
        ≡ build_router_system_prompt other_order (none, 0))
prompts-Reordered_example =
    prompts-Reordered one_order other_order (none, 0)
      (swap (section (txt "a") 1) (section (txt "b") 0) different)
