-- ===== src/Llm/FixJson/Edges.antt =====
-- internal/llm/fixjson.go: bytes.TrimSpace and the edges of the text of a JSON value.
use mathlib.Core.List.{reverse-append, reverse-reverse}
use agent_util.Common.{
  ℕ, ◌≤◌, ◌<◌, ◌≡◌, ◌≢◌, refl, ap, ◌∙◌, true, false, List, [], ◌∷◌, ◌++◌, reverse, arith,
  append-nil, Text, txt, has_prefix,
}
use agent_util.Llm.FixJson.Trim.{leading_space, trailing_space, trim_from, trim_space}
use agent_util.Llm.FixJson.Passes.{strip_code_block}
use agent_util.Llm.FixJson.Number.{
  number_text, IsMark, AllMarks, number_text-AllMarks, number_text_starts,
}
use agent_util.Llm.FixJson.Value.{
  Value, null, bool, number, string, array, object, Items, nil, cons, Fields, end, field,
  StringPart, encode_chars, encode_chars-append, encode_string, encode, encode_items, encode_more,
  encode_fields, encode_others,
}

-- `encode v rest` is `encode v []` followed by `rest`
abbrev Adds : (Text → Text) → Type 0
Adds piece = (r rest : Text) → piece (r ++ rest) ≡ piece r ++ rest

word-Adds : (w : Text) → Adds (λ rest. w ++ rest)
word-Adds [] r rest = refl
word-Adds (b ∷ bs) r rest = ap (λ t. b ∷ t) (word-Adds bs r rest)

string-Adds : (s : List StringPart) → Adds (encode_string s)
unfolding encode_string
string-Adds s r rest = ap (λ t. b'"' ∷ t) (encode_chars-append s (b'"' ∷ r) rest)

mutual
  unfolding encode

  value-Adds : (v : Value) → Adds (encode v)
  value-Adds null r rest = refl
  value-Adds (bool true) r rest = refl
  value-Adds (bool false) r rest = refl
  value-Adds (number n) r rest = word-Adds (number_text n) r rest
  value-Adds (string s) r rest = string-Adds s r rest
  value-Adds (array is) r rest = ap (λ t. b'[' ∷ t) (items-Adds is (b']' ∷ r) rest)
  value-Adds (object fs) r rest = ap (λ t. b'{' ∷ t) (fields-Adds fs (b'}' ∷ r) rest)

  items-Adds : (is : Items) → Adds (encode_items is)
  items-Adds nil r rest = refl
  items-Adds (cons v is) r rest =
      ap (encode v) (more-Adds is r rest) ∙ value-Adds v (encode_more is r) rest

  more-Adds : (is : Items) → Adds (encode_more is)
  more-Adds nil r rest = refl
  more-Adds (cons v is) r rest =
      ap (λ t. b',' ∷ t)
        (ap (encode v) (more-Adds is r rest) ∙ value-Adds v (encode_more is r) rest)

  fields-Adds : (fs : Fields) → Adds (encode_fields fs)
  fields-Adds end r rest = refl
  fields-Adds (field k v fs) r rest =
      ap (λ t. encode_string k (b':' ∷ t))
        (ap (encode v) (others-Adds fs r rest) ∙ value-Adds v (encode_others fs r) rest)
      ∙ string-Adds k (b':' ∷ encode v (encode_others fs r)) rest

  others-Adds : (fs : Fields) → Adds (encode_others fs)
  others-Adds end r rest = refl
  others-Adds (field k v fs) r rest =
      ap (λ t. b',' ∷ t)
        (ap (λ t. encode_string k (b':' ∷ t))
            (ap (encode v) (others-Adds fs r rest) ∙ value-Adds v (encode_others fs r) rest)
          ∙ string-Adds k (b':' ∷ encode v (encode_others fs r)) rest)

-- a byte that begins and ends a JSON text: visible ASCII, and no back quote
abbrev IsVisible : ℕ → Type 0
IsVisible b = (33 ≤ b) × (b < 127) × (b ≢ 96)

first_of_marks :
    (w rest : Text) (b : ℕ) (t : Text)
    → w ≡ b ∷ t
    → AllMarks w
    → (c : ℕ) × (u : Text) × (w ++ rest ≡ c ∷ u) × IsVisible c
first_of_marks [] rest b t e h = cc
first_of_marks (x ∷ xs) rest b t e h = (x, xs ++ rest, refl, omega arith)

first-IsVisible :
    (v : Value) (rest : Text) → (b : ℕ) × (t : Text) × (encode v rest ≡ b ∷ t) × IsVisible b
unfolding encode encode_string
first-IsVisible null rest = (_, _, refl, omega arith)
first-IsVisible (bool true) rest = (_, _, refl, omega arith)
first-IsVisible (bool false) rest = (_, _, refl, omega arith)
first-IsVisible (number n) rest =
    let (b, t, e) = number_text_starts n in
    first_of_marks (number_text n) rest b t e (number_text-AllMarks n)
first-IsVisible (string s) rest = (_, _, refl, omega arith)
first-IsVisible (array is) rest = (_, _, refl, omega arith)
first-IsVisible (object fs) rest = (_, _, refl, omega arith)

mark-IsVisible : (b : ℕ) → IsMark b → IsVisible b
mark-IsVisible b h = omega arith

last_mark :
    (x : ℕ) (w : Text)
    → AllMarks (x ∷ w)
    → (t : Text) × (b : ℕ) × (x ∷ w ≡ t ++ (b ∷ [])) × IsVisible b
last_mark x [] h = ([], x, refl, mark-IsVisible x h.0)
last_mark x (y ∷ w) h =
    let (t, b, eq, vis) = last_mark y w h.1 in (x ∷ t, b, ap (λ r. x ∷ r) eq, vis)

last_of_marks :
    (w : Text) (b : ℕ) (t : Text)
    → w ≡ b ∷ t
    → AllMarks w
    → (u : Text) × (c : ℕ) × (w ++ [] ≡ u ++ (c ∷ [])) × IsVisible c
last_of_marks [] b t e h = cc
last_of_marks (x ∷ xs) b t e h =
    let (u, c, eq, vis) = last_mark x xs h in (u, c, append-nil (x ∷ xs) ∙ eq, vis)

last-IsVisible : (v : Value) → (t : Text) × (b : ℕ) × (encode v [] ≡ t ++ (b ∷ [])) × IsVisible b
unfolding encode encode_string
last-IsVisible null = (b'n' ∷ b'u' ∷ b'l' ∷ [], b'l', refl, omega arith)
last-IsVisible (bool true) = (b't' ∷ b'r' ∷ b'u' ∷ [], b'e', refl, omega arith)
last-IsVisible (bool false) = (b'f' ∷ b'a' ∷ b'l' ∷ b's' ∷ [], b'e', refl, omega arith)
last-IsVisible (number n) =
    let (b, t, e) = number_text_starts n in
    last_of_marks (number_text n) b t e (number_text-AllMarks n)
last-IsVisible (string s) = (
  b'"' ∷ encode_chars s [],
  b'"',
  ap (λ t. b'"' ∷ t) (encode_chars-append s [] (b'"' ∷ [])),
  omega arith,
)
last-IsVisible (array is) = (
  b'[' ∷ encode_items is [],
  b']',
  ap (λ t. b'[' ∷ t) (items-Adds is [] (b']' ∷ [])),
  omega arith,
)
last-IsVisible (object fs) = (
  b'{' ∷ encode_fields fs [],
  b'}',
  ap (λ t. b'{' ∷ t) (fields-Adds fs [] (b'}' ∷ [])),
  omega arith,
)

no_leading : (b : ℕ) (t : Text) → IsVisible b → leading_space (b ∷ t) ≡ 0
unfolding leading_space
no_leading b [] h = ground arith
no_leading b (c ∷ []) h = ground arith
no_leading b (c ∷ d ∷ t) h = ground arith

no_trailing : (b : ℕ) (t : Text) → IsVisible b → trailing_space (b ∷ t) ≡ 0
unfolding trailing_space
no_trailing b [] h = ground arith
no_trailing b (c ∷ []) h = ground arith
no_trailing b (c ∷ d ∷ t) h = ground arith

trim_from_kept :
    (width : Text → ℕ) (b : ℕ) (t : Text) → width (b ∷ t) ≡ 0 → trim_from width 0 (b ∷ t) ≡ b ∷ t
unfolding trim_from
trim_from_kept width b t h = rw (h, trim_from)

trim_visible :
    (b c : ℕ) (t u s : Text)
    → s ≡ b ∷ t
    → s ≡ u ++ (c ∷ [])
    → IsVisible b
    → IsVisible c
    → trim_space s ≡ s
unfolding trim_space
trim_visible b c t u s e f vb vc =
    let left : trim_from leading_space 0 s ≡ s =
      rw e (trim_from_kept leading_space b t (no_leading b t vb)) in
    let turned : reverse s ≡ c ∷ reverse u = rw f (reverse-append u (c ∷ [])) in
    let right : trim_from trailing_space 0 (reverse s) ≡ reverse s =
      rw turned (trim_from_kept trailing_space c (reverse u) (no_trailing c (reverse u) vc)) in
    rw left (rw right (reverse-reverse s))

pub trim_space-encode : (v : Value) → trim_space (encode v []) ≡ encode v []
trim_space-encode v =
    let (b, t, e, vb) = first-IsVisible v [] in
    let (u, c, f, vc) = last-IsVisible v in trim_visible b c t u (encode v []) e f vb vc

-- the text of a value is no fenced block
no_fence : (b : ℕ) (t s : Text) → s ≡ b ∷ t → IsVisible b → has_prefix (txt "```") s ≡ false
unfolding has_prefix txt
no_fence b t s e h = rw e (ground arith)

pub strip_code_block-encode : (v : Value) → strip_code_block (encode v []) ≡ encode v []
unfolding strip_code_block
strip_code_block-encode v =
    let (b, t, e, vb) = first-IsVisible v [] in
    rw (trim_space-encode v) (rw (no_fence b t (encode v []) e vb))
