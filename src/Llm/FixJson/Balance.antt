-- ===== src/Llm/FixJson/Balance.antt =====
-- internal/llm/fixjson.go: the stack of fixUnmatchedBrackets over the text of a JSON value.
use agent_util.Common.{
  ℕ, ◌≤◌, ◌≡◌, ◌≢◌, ◌++◌, refl, ◌∙◌, Bool, true, false, List, [], ◌∷◌, arith, Text, ◌==◌,
}
use agent_util.Llm.FixJson.Passes.{
  Scan, outside, is_escape, advance, pop_closer, bracket, bracket_loop, close_all,
  fix_unmatched_brackets,
}
use agent_util.Llm.FixJson.Number.{number_text, IsMark, AllMarks, number_text-AllMarks}
use agent_util.Llm.FixJson.Value.{
  Value, null, bool, number, string, array, object, Items, nil, cons, Fields, end, field,
  StringPart, byte, short, unicode, hex_digit, hex_digit-IsHex, short_escape, encode_byte,
  encode_char, encode_chars, encode_string, encode, encode_items, encode_more, encode_fields,
  encode_others,
}

abbrev inside : Scan
inside = record { in_string = true; escaped = false }

-- the loop outside a string, by the stack and the text
abbrev after : List ℕ → Text → List ℕ
after = bracket_loop outside

after_byte :
    (stack : List ℕ) (b : ℕ) (rest : Text)
    → bracket_loop inside stack (encode_byte b rest) ≡ bracket_loop inside stack rest
unfolding bracket_loop encode_byte advance bracket is_escape
after_byte stack b rest = ground arith

after_pair :
    (stack : List ℕ) (c : ℕ) (rest : Text)
    → bracket_loop inside stack (b'\\' ∷ c ∷ rest) ≡ bracket_loop inside stack rest
unfolding bracket_loop advance bracket is_escape
after_pair stack c rest = ground arith

after_hex :
    (stack : List ℕ) (c : ℕ) (rest : Text)
    → 48 ≤ c
    → c ≢ 92
    → bracket_loop inside stack (c ∷ rest) ≡ bracket_loop inside stack rest
unfolding bracket_loop advance bracket is_escape
after_hex stack c rest h k = ground arith

after_digit :
    (stack : List ℕ) (n : ℕ) (rest : Text)
    → bracket_loop inside stack (hex_digit n ∷ rest) ≡ bracket_loop inside stack rest
after_digit stack n rest =
    let (low, no_escape) = hex_digit-IsHex n in after_hex stack (hex_digit n) rest low no_escape

after_char :
    (stack : List ℕ) (p : StringPart) (rest : Text)
    → bracket_loop inside stack (encode_char p rest) ≡ bracket_loop inside stack rest
unfolding encode_char
after_char stack (byte b) rest = after_byte stack b rest
after_char stack (short n) rest = after_pair stack (short_escape n) rest
after_char stack (unicode a b c d) rest =
    after_pair stack b'u' (hex_digit a ∷ hex_digit b ∷ hex_digit c ∷ hex_digit d ∷ rest)
    ∙ after_digit stack a (hex_digit b ∷ hex_digit c ∷ hex_digit d ∷ rest)
    ∙ after_digit stack b (hex_digit c ∷ hex_digit d ∷ rest)
    ∙ after_digit stack c (hex_digit d ∷ rest)
    ∙ after_digit stack d rest

after_chars :
    (stack : List ℕ) (s : List StringPart) (rest : Text)
    → bracket_loop inside stack (encode_chars s rest) ≡ bracket_loop inside stack rest
unfolding encode_chars
after_chars stack [] rest = refl
after_chars stack (p ∷ ps) rest =
    after_char stack p (encode_chars ps rest) ∙ after_chars stack ps rest

after_string :
    (stack : List ℕ) (s : List StringPart) (rest : Text)
    → after stack (encode_string s rest) ≡ after stack rest
unfolding encode_string bracket_loop advance bracket is_escape
after_string stack s rest = after_chars stack s (b'"' ∷ rest)

abbrev IsPlain : ℕ → Type 0
IsPlain b =
    ((b == b'"') ≡ false)
    × ((b == b'{') ≡ false)
    × ((b == b'[') ≡ false)
    × ((b == b'}') ≡ false)
    × ((b == b']') ≡ false)

after_plain :
    (stack : List ℕ) (b : ℕ) (rest : Text) → IsPlain b → after stack (b ∷ rest) ≡ after stack rest
unfolding bracket_loop advance bracket is_escape
after_plain stack b rest h = ground arith

mark-IsPlain : (b : ℕ) → IsMark b → IsPlain b
mark-IsPlain b h = ground arith

after_marks :
    (stack : List ℕ) (w rest : Text) → AllMarks w → after stack (w ++ rest) ≡ after stack rest
after_marks stack [] rest h = refl
after_marks stack (b ∷ bs) rest h =
    after_plain stack b (bs ++ rest) (mark-IsPlain b h.0) ∙ after_marks stack bs rest h.1

after_null : (stack : List ℕ) (rest : Text) → after stack (encode null rest) ≡ after stack rest
unfolding encode bracket_loop advance bracket is_escape
after_null stack rest = refl

after_bool :
    (stack : List ℕ) (b : Bool) (rest : Text)
    → after stack (encode (bool b) rest) ≡ after stack rest
unfolding encode bracket_loop advance bracket is_escape
after_bool stack true rest = refl
after_bool stack false rest = refl

-- a bracket that is opened around a text that keeps the stack
after_array :
    (stack : List ℕ) (rest : Text)
    → (after stack (b'[' ∷ rest) ≡ after (b']' ∷ stack) rest)
      × (after (b']' ∷ stack) (b']' ∷ rest) ≡ after stack rest)
unfolding bracket_loop advance bracket is_escape pop_closer
after_array stack rest = (refl, refl)

after_object :
    (stack : List ℕ) (rest : Text)
    → (after stack (b'{' ∷ rest) ≡ after (b'}' ∷ stack) rest)
      × (after (b'}' ∷ stack) (b'}' ∷ rest) ≡ after stack rest)
unfolding bracket_loop advance bracket is_escape pop_closer
after_object stack rest = (refl, refl)

after_separator :
    (stack : List ℕ) (rest : Text)
    → (after stack (b',' ∷ rest) ≡ after stack rest)
      × (after stack (b':' ∷ rest) ≡ after stack rest)
unfolding bracket_loop advance bracket is_escape
after_separator stack rest = (refl, refl)

mutual
  unfolding encode

  after_value :
      (stack : List ℕ) (v : Value) (rest : Text) → after stack (encode v rest) ≡ after stack rest
  after_value stack null rest = after_null stack rest
  after_value stack (bool b) rest = after_bool stack b rest
  after_value stack (number n) rest =
      after_marks stack (number_text n) rest (number_text-AllMarks n)
  after_value stack (string s) rest = after_string stack s rest
  after_value stack (array is) rest =
      (after_array stack (encode_items is (b']' ∷ rest))).0
      ∙ after_items (b']' ∷ stack) is (b']' ∷ rest)
      ∙ (after_array stack rest).1
  after_value stack (object fs) rest =
      (after_object stack (encode_fields fs (b'}' ∷ rest))).0
      ∙ after_fields (b'}' ∷ stack) fs (b'}' ∷ rest)
      ∙ (after_object stack rest).1

  after_items :
      (stack : List ℕ) (is : Items) (rest : Text)
      → after stack (encode_items is rest) ≡ after stack rest
  after_items stack nil rest = refl
  after_items stack (cons v is) rest =
      after_value stack v (encode_more is rest) ∙ after_more stack is rest

  after_more :
      (stack : List ℕ) (is : Items) (rest : Text)
      → after stack (encode_more is rest) ≡ after stack rest
  after_more stack nil rest = refl
  after_more stack (cons v is) rest =
      (after_separator stack (encode v (encode_more is rest))).0
      ∙ after_value stack v (encode_more is rest)
      ∙ after_more stack is rest

  after_fields :
      (stack : List ℕ) (fs : Fields) (rest : Text)
      → after stack (encode_fields fs rest) ≡ after stack rest
  after_fields stack end rest = refl
  after_fields stack (field k v fs) rest =
      after_string stack k (b':' ∷ encode v (encode_others fs rest))
      ∙ (after_separator stack (encode v (encode_others fs rest))).1
      ∙ after_value stack v (encode_others fs rest)
      ∙ after_others stack fs rest

  after_others :
      (stack : List ℕ) (fs : Fields) (rest : Text)
      → after stack (encode_others fs rest) ≡ after stack rest
  after_others stack end rest = refl
  after_others stack (field k v fs) rest =
      (after_separator stack (encode_string k (b':' ∷ encode v (encode_others fs rest)))).0
      ∙ after_string stack k (b':' ∷ encode v (encode_others fs rest))
      ∙ (after_separator stack (encode v (encode_others fs rest))).1
      ∙ after_value stack v (encode_others fs rest)
      ∙ after_others stack fs rest

pub fix_unmatched_brackets-encode : (v : Value) → fix_unmatched_brackets (encode v []) ≡ encode v []
unfolding fix_unmatched_brackets bracket_loop close_all
fix_unmatched_brackets-encode v = rw (after_value [] v [])
