-- ===== src/Llm/FixJson/Quotes.antt =====
-- internal/llm/fixjson.go: fixSingleQuotes on texts without double quotes and on the text of a
-- JSON value.
use agent_util.Common.{
  ℕ, suc, ◌≡◌, refl, ap, ◌∙◌, ◌⊎◌, inl, inr, Bool, true, false, List, [], ◌∷◌, ◌++◌, arith, Text,
  ◌==◌, any_of, Bool-cases, length,
}
use agent_util.Llm.FixJson.Passes.{
  Scan, outside, is_escape, advance, quote_byte, quote_loop, fix_single_quotes,
}
use agent_util.Llm.FixJson.Number.{number_text, IsMark, AllMarks, number_text-AllMarks}
use agent_util.Llm.FixJson.Value.{
  Value, null, bool, number, string, array, object, Items, nil, cons, Fields, end, field,
  StringPart, encode_string, encode, encode_items, encode_more, encode_fields, encode_others,
}

abbrev pub has_quote : Text → Bool
has_quote = any_of (λ b. b == b'"')

length-quote_loop : (s : Scan) (xs : Text) → length (quote_loop s xs) ≡ length xs
unfolding quote_loop
length-quote_loop s [] = refl
length-quote_loop s (x ∷ xs) = ap suc (length-quote_loop (advance b'\'' s x) xs)

-- The pass keeps the length of every text.
pub length-fix_single_quotes : (xs : Text) → length (fix_single_quotes xs) ≡ length xs
unfolding fix_single_quotes
length-fix_single_quotes xs = ground (arith, length-quote_loop outside xs)

quote_loop_same :
    (s : Scan) (xs : Text)
    → has_quote xs ≡ false
    → has_quote (quote_loop s xs) ≡ false
    → quote_loop s xs ≡ xs
unfolding quote_loop quote_byte any_of
quote_loop_same s [] h k = refl
quote_loop_same s (x ∷ xs) h k = ground (arith, quote_loop_same (advance b'\'' s x) xs)

-- A second application changes nothing.
pub fix_single_quotes_idem :
    (xs : Text) → fix_single_quotes (fix_single_quotes xs) ≡ fix_single_quotes xs
unfolding fix_single_quotes
fix_single_quotes_idem xs = elim (Bool-cases (has_quote xs)) [
  | inl h ↦ rw h (rw h)
  | inr h ↦ rw h (elim (Bool-cases (has_quote (quote_loop outside xs))) [
    | inl k ↦ rw k
    | inr k ↦ rw k (ap (quote_loop outside) (quote_loop_same outside xs h k))
  ])
]

-- a piece of text keeps the double quotes behind it, and either holds one itself or is copied
record IsKept (piece : Text → Text) : Type 0 where
  keeps : (rest : Text) → has_quote rest ≡ true → has_quote (piece rest) ≡ true
  holds :
      ((rest : Text) → has_quote (piece rest) ≡ true)
      ⊎ ((rest : Text) → quote_loop outside (piece rest) ≡ piece (quote_loop outside rest))

nothing : IsKept (λ rest. rest)
nothing = record { keeps = λ rest h. h; holds = inr (λ rest. refl) }

byte_holds :
    (b : ℕ) (piece : Text → Text)
    → (b == b'\'') ≡ false
    → ((rest : Text) → has_quote (piece rest) ≡ true)
      ⊎ ((rest : Text) → quote_loop outside (piece rest) ≡ piece (quote_loop outside rest))
    → ((rest : Text) → has_quote (b ∷ piece rest) ≡ true)
      ⊎ ((rest : Text) → quote_loop outside (b ∷ piece rest) ≡ b ∷ piece (quote_loop outside rest))
unfolding quote_loop quote_byte advance is_escape any_of
byte_holds b piece h (inl q) = inl (λ rest. ground (arith, q rest))
byte_holds b piece h (inr c) = inr (λ rest. ground (arith, c rest))

byte_keeps : (b : ℕ) (rest : Text) → has_quote rest ≡ true → has_quote (b ∷ rest) ≡ true
unfolding any_of
byte_keeps b rest h = ground arith

byte :
    (b : ℕ) {piece : Text → Text}
    → (b == b'\'') ≡ false
    → IsKept piece
    → IsKept (λ rest. b ∷ piece rest)
byte b {piece} h k = record {
  keeps = λ rest q. byte_keeps b (piece rest) (k.keeps rest q);
  holds = byte_holds b piece h k.holds;
}

compose_holds :
    (p q : Text → Text)
    → IsKept p
    → IsKept q
    → ((rest : Text) → has_quote (p (q rest)) ≡ true)
      ⊎ ((rest : Text) → quote_loop outside (p (q rest)) ≡ p (q (quote_loop outside rest)))
compose_holds p q h k = elim h.holds [
  | inl has ↦ inl (λ rest. has (q rest))
  | inr copy ↦ elim k.holds [
    | inl has ↦ inl (λ rest. h.keeps (q rest) (has rest))
    | inr copy' ↦ inr (λ rest. copy (q rest) ∙ ap p (copy' rest))
  ]
]

compose : (p q : Text → Text) → IsKept p → IsKept q → IsKept (λ rest. p (q rest))
compose p q h k = record {
  keeps = λ rest e. h.keeps (q rest) (k.keeps rest e);
  holds = compose_holds p q h k;
}

mark_is_no_quote : (b : ℕ) → IsMark b → (b == b'\'') ≡ false
mark_is_no_quote b h = ground arith

marks : (w : Text) → AllMarks w → IsKept (λ rest. w ++ rest)
marks [] h = nothing
marks (b ∷ bs) h = byte b (mark_is_no_quote b h.0) (marks bs h.1)

with_string :
    (s : List StringPart) (piece : Text → Text) → IsKept (λ rest. encode_string s (piece rest))
unfolding encode_string any_of
with_string s piece = record { keeps = λ rest h. refl; holds = inl (λ rest. refl) }

mutual
  unfolding encode

  value : (v : Value) → IsKept (encode v)
  value null = byte b'n' refl (byte b'u' refl (byte b'l' refl (byte b'l' refl nothing)))
  value (bool true) = byte b't' refl (byte b'r' refl (byte b'u' refl (byte b'e' refl nothing)))
  value (bool false) =
      byte b'f' refl (byte b'a' refl (byte b'l' refl (byte b's' refl (byte b'e' refl nothing))))
  value (number n) = marks (number_text n) (number_text-AllMarks n)
  value (string s) = with_string s (λ rest. rest)
  value (array is) =
      byte b'[' refl
        (compose (encode_items is) (λ rest. b']' ∷ rest) (items is) (byte b']' refl nothing))
  value (object fs) =
      byte b'{' refl
        (compose (encode_fields fs) (λ rest. b'}' ∷ rest) (fields fs) (byte b'}' refl nothing))

  items : (is : Items) → IsKept (encode_items is)
  items nil = nothing
  items (cons v is) = compose (encode v) (encode_more is) (value v) (more is)

  more : (is : Items) → IsKept (encode_more is)
  more nil = nothing
  more (cons v is) = byte b',' refl (compose (encode v) (encode_more is) (value v) (more is))

  fields : (fs : Fields) → IsKept (encode_fields fs)
  fields end = nothing
  fields (field k v fs) = with_string k (λ rest. b':' ∷ encode v (encode_others fs rest))

pub fix_single_quotes-encode : (v : Value) → fix_single_quotes (encode v []) ≡ encode v []
unfolding fix_single_quotes quote_loop
fix_single_quotes-encode v = elim (Bool-cases (has_quote (encode v []))) [
  | inl h ↦ rw h
  | inr h ↦ rw h (elim (value v).holds [ inl has ↦ cc (has []) | inr copy ↦ copy [] ])
]
