-- ===== src/Llm/FixJson/Value.antt =====
-- JSON values and their compact texts, in every spelling of the numbers and the strings: the reference
-- against which the passes of internal/llm/fixjson.go are judged. `encode v rest` is the text of `v`
-- before `rest`.
use agent_util.Common.{
  ℕ, zero, suc, ◌+◌, ◌/◌, ◌%◌, ◌≤◌, ◌≡◌, ◌≢◌, refl, ap, ◌∙◌, Bool, true, false, ◌||◌, List, [], ◌∷◌,
  ◌++◌, arith, map, Text, txt, ◌==◌, ltb, if◌then◌else◌,
}
use agent_util.Llm.FixJson.Number.{Number, number_text, small}

-- a part of a string: a byte, an escape of two bytes, or one of four hexadecimal digits
pub data StringPart : Type 0 where
  byte short : ℕ → StringPart
  unicode : ℕ → ℕ → ℕ → ℕ → StringPart

mutual
  pub data Value : Type 0 where
    null : Value
    bool : Bool → Value
    number : Number → Value
    string : List StringPart → Value
    array : Items → Value
    object : Fields → Value

  pub data Items : Type 0 where
    nil : Items
    cons : Value → Items → Items

  pub data Fields : Type 0 where
    end : Fields
    field : List StringPart → Value → Fields → Fields

abbrev hex : ℕ → ℕ
hex n = if ltb n 10 then 48 + n else 87 + n % 16

-- a hexadecimal digit of either case
unfoldable pub hex_digit : ℕ → ℕ
hex_digit n = let m = n % 22 in if ltb m 10 then 48 + m else if ltb m 16 then 87 + m else 49 + m

-- the byte of an escape of two bytes
unfoldable pub short_escape : ℕ → ℕ
short_escape zero = b'"'
short_escape (suc zero) = b'\\'
short_escape (suc (suc zero)) = b'/'
short_escape (suc (suc (suc zero))) = b'b'
short_escape (suc (suc (suc (suc zero)))) = b'f'
short_escape (suc (suc (suc (suc (suc zero))))) = b'n'
short_escape (suc (suc (suc (suc (suc (suc zero)))))) = b'r'
short_escape (suc (suc (suc (suc (suc (suc (suc n))))))) = b't'

unfoldable pub encode_byte : ℕ → Text → Text
encode_byte b rest =
    if b == b'"' || b == b'\\'
    then b'\\' ∷ b ∷ rest
    else if ltb b 0x20
    then b'\\' ∷ b'u' ∷ b'0' ∷ b'0' ∷ hex (b / 16) ∷ hex (b % 16) ∷ rest
    else b ∷ rest

-- the text of a part; a byte that cannot stand for itself is escaped
unfoldable pub encode_char : StringPart → Text → Text
unfolding encode_byte
encode_char (byte b) rest = encode_byte b rest
encode_char (short n) rest = b'\\' ∷ short_escape n ∷ rest
encode_char (unicode a b c d) rest =
    b'\\' ∷ b'u' ∷ hex_digit a ∷ hex_digit b ∷ hex_digit c ∷ hex_digit d ∷ rest

unfoldable pub encode_chars : List StringPart → Text → Text
encode_chars [] rest = rest
encode_chars (b ∷ bs) rest = encode_char b (encode_chars bs rest)

unfoldable pub encode_string : List StringPart → Text → Text
encode_string s rest = b'"' ∷ encode_chars s (b'"' ∷ rest)

unfoldable mutual
  unfolding encode_string

  pub encode : Value → Text → Text
  encode null rest = b'n' ∷ b'u' ∷ b'l' ∷ b'l' ∷ rest
  encode (bool true) rest = b't' ∷ b'r' ∷ b'u' ∷ b'e' ∷ rest
  encode (bool false) rest = b'f' ∷ b'a' ∷ b'l' ∷ b's' ∷ b'e' ∷ rest
  encode (number n) rest = number_text n ++ rest
  encode (string s) rest = encode_string s rest
  encode (array is) rest = b'[' ∷ encode_items is (b']' ∷ rest)
  encode (object fs) rest = b'{' ∷ encode_fields fs (b'}' ∷ rest)

  pub encode_items : Items → Text → Text
  encode_items nil rest = rest
  encode_items (cons v is) rest = encode v (encode_more is rest)

  pub encode_more : Items → Text → Text
  encode_more nil rest = rest
  encode_more (cons v is) rest = b',' ∷ encode v (encode_more is rest)

  pub encode_fields : Fields → Text → Text
  encode_fields end rest = rest
  encode_fields (field k v fs) rest = encode_string k (b':' ∷ encode v (encode_others fs rest))

  pub encode_others : Fields → Text → Text
  encode_others end rest = rest
  encode_others (field k v fs) rest =
      b',' ∷ encode_string k (b':' ∷ encode v (encode_others fs rest))

-- the parts of a text without escapes
abbrev pub plain : Text → List StringPart
plain = map byte

abbrev sample : Value
sample = object (
    field (plain (txt "a\"b") ++ (short 5 ∷ unicode 0 0 14 21 ∷ []))
      (array (cons null (cons (number (small 1)) nil))) end)

encode_test : encode sample [] ≡ txt "{\"a\\\"b\\n\\u00eF\":[null,2]}"
unfolding encode encode_chars encode_char encode_byte short_escape hex_digit number_text txt
encode_test = refl

encode_byte-append :
    (b : ℕ) (r : Text) (rest : Text) → encode_byte b (r ++ rest) ≡ encode_byte b r ++ rest
unfolding encode_byte
encode_byte-append b r rest = ground arith

encode_char-append :
    (p : StringPart) (r rest : Text) → encode_char p (r ++ rest) ≡ encode_char p r ++ rest
unfolding encode_char
encode_char-append (byte b) r rest = encode_byte-append b r rest
encode_char-append (short n) r rest = refl
encode_char-append (unicode a b c d) r rest = refl

pub encode_chars-append :
    (s : List StringPart) (r rest : Text) → encode_chars s (r ++ rest) ≡ encode_chars s r ++ rest
unfolding encode_chars
encode_chars-append [] r rest = refl
encode_chars-append (b ∷ bs) r rest =
    ap (encode_char b) (encode_chars-append bs r rest)
    ∙ encode_char-append b (encode_chars bs r) rest

-- what the walks through a string need of the byte behind a backslash, and of a hexadecimal digit
pub short_escape-visible : (n : ℕ) → 32 ≤ short_escape n
unfolding short_escape
short_escape-visible zero = omega arith
short_escape-visible (suc zero) = omega arith
short_escape-visible (suc (suc zero)) = omega arith
short_escape-visible (suc (suc (suc zero))) = omega arith
short_escape-visible (suc (suc (suc (suc zero)))) = omega arith
short_escape-visible (suc (suc (suc (suc (suc zero))))) = omega arith
short_escape-visible (suc (suc (suc (suc (suc (suc zero)))))) = omega arith
short_escape-visible (suc (suc (suc (suc (suc (suc (suc n))))))) = omega arith

pub hex_digit-IsHex : (n : ℕ) → (48 ≤ hex_digit n) × (hex_digit n ≢ 92)
unfolding hex_digit
hex_digit-IsHex n = ground arith
