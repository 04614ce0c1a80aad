-- ===== src/Llm/FixJson/Walk.antt =====
-- internal/llm/fixjson.go: the loops that copy single bytes and strings, and the stack of
-- fixUnmatchedBrackets, walked over the text of a JSON value.
use agent_util.Common.{
  ℕ, ◌≤◌, ◌≡◌, ◌≢◌, refl, ap, ◌∙◌, ◌⊎◌, inl, inr, true, false, List, [], ◌∷◌, ◌++◌, arith, Text,
  ◌==◌,
}
use agent_util.Llm.FixJson.Passes.{is_json_space, closes_next}
use agent_util.Llm.FixJson.Number.{
  Number, number_text, IsMark, AllMarks, number_text-AllMarks, number_text_starts,
}
use agent_util.Llm.FixJson.Value.{
  Value, null, bool, number, string, array, object, Items, nil, cons, Fields, end, field,
  StringPart, byte, short, unicode, hex_digit, hex_digit-IsHex, short_escape, short_escape-visible,
  encode_byte, encode_char, encode_chars, encode_string, encode, encode_items, encode_more,
  encode_fields, encode_others,
}

closes_next-mark : (b : ℕ) (rest : Text) → IsMark b → closes_next (b ∷ rest) ≡ false
unfolding closes_next is_json_space
closes_next-mark b rest h = ground arith

closes_next-marks :
    (w rest : Text) (b : ℕ) (t : Text) → w ≡ b ∷ t → AllMarks w → closes_next (w ++ rest) ≡ false
closes_next-marks [] rest b t e h = cc
closes_next-marks (x ∷ xs) rest b t e h = closes_next-mark x (xs ++ rest) h.0

closes_next-number : (n : Number) (rest : Text) → closes_next (number_text n ++ rest) ≡ false
closes_next-number n rest =
    let (b, t, e) = number_text_starts n in
    closes_next-marks (number_text n) rest b t e (number_text-AllMarks n)

-- no value begins with white space or a closer
pub closes_next-encode : (v : Value) (rest : Text) → closes_next (encode v rest) ≡ false
unfolding encode closes_next is_json_space
closes_next-encode null rest = refl
closes_next-encode (bool true) rest = refl
closes_next-encode (bool false) rest = refl
closes_next-encode (number n) rest = closes_next-number n rest
closes_next-encode _ rest = refl

closes_next-encode_string :
    (s : List StringPart) (rest : Text) → closes_next (encode_string s rest) ≡ false
unfolding encode_string closes_next is_json_space
closes_next-encode_string s rest = refl

abbrev IsPlain : ℕ → Type 0
IsPlain b = ((b == b'"') ≡ false) × ((b == b',') ≡ false)

abbrev AllPlain : Text → Type 0
AllPlain [] = Unit {0}
AllPlain (b ∷ bs) = IsPlain b × AllPlain bs

mark-IsPlain : (b : ℕ) → IsMark b → IsPlain b
mark-IsPlain b h = ground arith

marks-AllPlain : (w : Text) → AllMarks w → AllPlain w
marks-AllPlain [] h = tt
marks-AllPlain (b ∷ bs) h = (mark-IsPlain b h.0, marks-AllPlain bs h.1)

-- a loop inside a string that copies a byte, an escaped byte and a hexadecimal digit
module _ (loop : Text → Text)
    (copies_part : (b : ℕ) (rest : Text) → loop (encode_byte b rest) ≡ encode_byte b (loop rest))
    (copies_pair : (c : ℕ) (rest : Text) → 32 ≤ c → loop (b'\\' ∷ c ∷ rest) ≡ b'\\' ∷ c ∷ loop rest)
    (copies_hex : (c : ℕ) (rest : Text) → 48 ≤ c → c ≢ 92 → loop (c ∷ rest) ≡ c ∷ loop rest) where
  copies_digit : (n : ℕ) (rest : Text) → loop (hex_digit n ∷ rest) ≡ hex_digit n ∷ loop rest
  copies_digit n rest =
      let (low, no_escape) = hex_digit-IsHex n in copies_hex (hex_digit n) rest low no_escape

  copies_char :
      (p : StringPart) (rest : Text) → loop (encode_char p rest) ≡ encode_char p (loop rest)
  unfolding encode_char
  copies_char (byte b) rest = copies_part b rest
  copies_char (short n) rest = copies_pair (short_escape n) rest (short_escape-visible n)
  copies_char (unicode a b c d) rest =
      copies_pair b'u' (hex_digit a ∷ hex_digit b ∷ hex_digit c ∷ hex_digit d ∷ rest) (omega arith)
      ∙ ap (λ t. b'\\' ∷ b'u' ∷ t)
          (copies_digit a (hex_digit b ∷ hex_digit c ∷ hex_digit d ∷ rest)
            ∙ ap (λ t. hex_digit a ∷ t)
                (copies_digit b (hex_digit c ∷ hex_digit d ∷ rest)
                  ∙ ap (λ t. hex_digit b ∷ t)
                      (copies_digit c (hex_digit d ∷ rest)
                        ∙ ap (λ t. hex_digit c ∷ t) (copies_digit d rest))))

  pub copies_chars :
      (s : List StringPart) (rest : Text) → loop (encode_chars s rest) ≡ encode_chars s (loop rest)
  unfolding encode_chars
  copies_chars [] rest = refl
  copies_chars (p ∷ ps) rest =
      copies_char p (encode_chars ps rest) ∙ ap (encode_char p) (copies_chars ps rest)

module _ (loop : Text → Text)
    (copies_byte : (b : ℕ) (rest : Text)
      → (b == b'"') ≡ false
      → ((b == b',') ≡ false) ⊎ (closes_next rest ≡ false)
      → loop (b ∷ rest) ≡ b ∷ loop rest)
    (copies_string : (s : List StringPart) (rest : Text)
      → loop (encode_string s rest) ≡ encode_string s (loop rest)) where
  copies_plain : (b : ℕ) (rest : Text) → IsPlain b → loop (b ∷ rest) ≡ b ∷ loop rest
  copies_plain b rest h = copies_byte b rest h.0 (inl h.1)

  copies_word : (w rest : Text) → AllPlain w → loop (w ++ rest) ≡ w ++ loop rest
  copies_word [] rest h = refl
  copies_word (b ∷ bs) rest h =
      copies_plain b (bs ++ rest) h.0 ∙ ap (λ t. b ∷ t) (copies_word bs rest h.1)

  mutual
    unfolding encode

    copies_value : (v : Value) (rest : Text) → loop (encode v rest) ≡ encode v (loop rest)
    copies_value null rest =
        copies_word (b'n' ∷ b'u' ∷ b'l' ∷ b'l' ∷ []) rest
          ((refl, refl), ((refl, refl), ((refl, refl), ((refl, refl), tt))))
    copies_value (bool true) rest =
        copies_word (b't' ∷ b'r' ∷ b'u' ∷ b'e' ∷ []) rest
          ((refl, refl), ((refl, refl), ((refl, refl), ((refl, refl), tt))))
    copies_value (bool false) rest =
        copies_word (b'f' ∷ b'a' ∷ b'l' ∷ b's' ∷ b'e' ∷ []) rest
          ((refl, refl), ((refl, refl), ((refl, refl), ((refl, refl), ((refl, refl), tt)))))
    copies_value (number n) rest =
        copies_word (number_text n) rest (marks-AllPlain (number_text n) (number_text-AllMarks n))
    copies_value (string s) rest = copies_string s rest
    copies_value (array is) rest =
        copies_plain b'[' (encode_items is (b']' ∷ rest)) (refl, refl)
        ∙ ap (λ t. b'[' ∷ t)
            (copies_items is (b']' ∷ rest)
              ∙ ap (encode_items is) (copies_plain b']' rest (refl, refl)))
    copies_value (object fs) rest =
        copies_plain b'{' (encode_fields fs (b'}' ∷ rest)) (refl, refl)
        ∙ ap (λ t. b'{' ∷ t)
            (copies_fields fs (b'}' ∷ rest)
              ∙ ap (encode_fields fs) (copies_plain b'}' rest (refl, refl)))

    copies_items :
        (is : Items) (rest : Text) → loop (encode_items is rest) ≡ encode_items is (loop rest)
    copies_items nil rest = refl
    copies_items (cons v is) rest =
        copies_value v (encode_more is rest) ∙ ap (encode v) (copies_more is rest)

    copies_more :
        (is : Items) (rest : Text) → loop (encode_more is rest) ≡ encode_more is (loop rest)
    copies_more nil rest = refl
    copies_more (cons v is) rest =
        copies_byte b',' (encode v (encode_more is rest)) refl
          (inr (closes_next-encode v (encode_more is rest)))
        ∙ ap (λ t. b',' ∷ t)
            (copies_value v (encode_more is rest) ∙ ap (encode v) (copies_more is rest))

    copies_fields :
        (fs : Fields) (rest : Text) → loop (encode_fields fs rest) ≡ encode_fields fs (loop rest)
    copies_fields end rest = refl
    copies_fields (field k v fs) rest =
        copies_string k (b':' ∷ encode v (encode_others fs rest))
        ∙ ap (encode_string k) (
            copies_plain b':' (encode v (encode_others fs rest)) (refl, refl)
            ∙ ap (λ t. b':' ∷ t)
                (copies_value v (encode_others fs rest) ∙ ap (encode v) (copies_others fs rest)))

    copies_others :
        (fs : Fields) (rest : Text) → loop (encode_others fs rest) ≡ encode_others fs (loop rest)
    copies_others end rest = refl
    copies_others (field k v fs) rest =
        copies_byte b',' (encode_string k (b':' ∷ encode v (encode_others fs rest))) refl
          (inr (closes_next-encode_string k (b':' ∷ encode v (encode_others fs rest))))
        ∙ ap (λ t. b',' ∷ t)
            (copies_string k (b':' ∷ encode v (encode_others fs rest))
              ∙ ap (encode_string k) (
                  copies_plain b':' (encode v (encode_others fs rest)) (refl, refl)
                  ∙ ap (λ t. b':' ∷ t)
                      (copies_value v (encode_others fs rest)
                        ∙ ap (encode v) (copies_others fs rest))))

  -- a loop that copies bytes and strings copies a value
  pub copies-encode : (v : Value) (rest : Text) → loop (encode v rest) ≡ encode v (loop rest)
  copies-encode v rest = copies_value v rest
