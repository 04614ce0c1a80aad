-- ===== src/Llm/FixJson/Copies.antt =====
-- internal/llm/fixjson.go: the loops of fixControlChars and fixTrailingCommas over the text of a
-- JSON value.
use agent_util.Common.{
  ℕ, ◌≤◌, ◌≡◌, ◌≢◌, List, refl, ap, ◌∙◌, ◌⊎◌, true, false, [], ◌∷◌, arith, Text, ◌==◌,
}
use agent_util.Llm.FixJson.Passes.{
  Scan, outside, is_escape, advance, is_control, drops_control, control_loop, fix_control_chars,
  closes_next, drops_comma, comma_loop, fix_trailing_commas,
}
use agent_util.Llm.FixJson.Value.{
  Value, StringPart, encode_byte, encode_chars, encode_string, encode,
}
use agent_util.Llm.FixJson.Walk.{copies_chars, copies-encode}

abbrev inside : Scan
inside = record { in_string = true; escaped = false }

-- fixControlChars
control_part :
    (b : ℕ) (rest : Text)
    → control_loop inside (encode_byte b rest) ≡ encode_byte b (control_loop inside rest)
unfolding control_loop encode_byte advance drops_control is_escape is_control
control_part b rest = ground arith

control_pair :
    (c : ℕ) (rest : Text)
    → 32 ≤ c
    → control_loop inside (b'\\' ∷ c ∷ rest) ≡ b'\\' ∷ c ∷ control_loop inside rest
unfolding control_loop advance drops_control is_escape is_control
control_pair c rest h = ground arith

control_hex :
    (c : ℕ) (rest : Text)
    → 48 ≤ c
    → c ≢ 92
    → control_loop inside (c ∷ rest) ≡ c ∷ control_loop inside rest
unfolding control_loop advance drops_control is_escape is_control
control_hex c rest h k = ground arith

control_chars :
    (bs : List StringPart) (rest : Text)
    → control_loop inside (encode_chars bs rest) ≡ encode_chars bs (control_loop inside rest)
control_chars = copies_chars (control_loop inside) control_part control_pair control_hex

control_quote :
    (rest : Text)
    → (control_loop outside (b'"' ∷ rest) ≡ b'"' ∷ control_loop inside rest)
      × (control_loop inside (b'"' ∷ rest) ≡ b'"' ∷ control_loop outside rest)
unfolding control_loop advance drops_control is_escape is_control
control_quote rest = (refl, refl)

control_string :
    (s : List StringPart) (rest : Text)
    → control_loop outside (encode_string s rest) ≡ encode_string s (control_loop outside rest)
unfolding encode_string
control_string s rest =
    (control_quote (encode_chars s (b'"' ∷ rest))).0
    ∙ ap (λ t. b'"' ∷ t)
        (control_chars s (b'"' ∷ rest) ∙ ap (encode_chars s) (control_quote rest).1)

-- outside a string a byte that is no quote is copied
control_byte :
    (b : ℕ) (rest : Text)
    → (b == b'"') ≡ false
    → ((b == b',') ≡ false) ⊎ (closes_next rest ≡ false)
    → control_loop outside (b ∷ rest) ≡ b ∷ control_loop outside rest
unfolding control_loop advance drops_control is_escape is_control
control_byte b rest h _ = ground arith

pub fix_control_chars-encode : (v : Value) → fix_control_chars (encode v []) ≡ encode v []
unfolding fix_control_chars control_loop
fix_control_chars-encode v = copies-encode (control_loop outside) control_byte control_string v []

-- fixTrailingCommas
comma_part :
    (b : ℕ) (rest : Text)
    → comma_loop inside (encode_byte b rest) ≡ encode_byte b (comma_loop inside rest)
unfolding comma_loop encode_byte advance drops_comma is_escape
comma_part b rest = ground arith

comma_pair :
    (c : ℕ) (rest : Text)
    → 32 ≤ c
    → comma_loop inside (b'\\' ∷ c ∷ rest) ≡ b'\\' ∷ c ∷ comma_loop inside rest
unfolding comma_loop advance drops_comma is_escape
comma_pair c rest h = ground arith

comma_hex :
    (c : ℕ) (rest : Text)
    → 48 ≤ c
    → c ≢ 92
    → comma_loop inside (c ∷ rest) ≡ c ∷ comma_loop inside rest
unfolding comma_loop advance drops_comma is_escape
comma_hex c rest h k = ground arith

comma_chars :
    (bs : List StringPart) (rest : Text)
    → comma_loop inside (encode_chars bs rest) ≡ encode_chars bs (comma_loop inside rest)
comma_chars = copies_chars (comma_loop inside) comma_part comma_pair comma_hex

comma_quote :
    (rest : Text)
    → (comma_loop outside (b'"' ∷ rest) ≡ b'"' ∷ comma_loop inside rest)
      × (comma_loop inside (b'"' ∷ rest) ≡ b'"' ∷ comma_loop outside rest)
unfolding comma_loop advance drops_comma is_escape
comma_quote rest = (refl, refl)

comma_string :
    (s : List StringPart) (rest : Text)
    → comma_loop outside (encode_string s rest) ≡ encode_string s (comma_loop outside rest)
unfolding encode_string
comma_string s rest =
    (comma_quote (encode_chars s (b'"' ∷ rest))).0
    ∙ ap (λ t. b'"' ∷ t) (comma_chars s (b'"' ∷ rest) ∙ ap (encode_chars s) (comma_quote rest).1)

comma_byte :
    (b : ℕ) (rest : Text)
    → (b == b'"') ≡ false
    → ((b == b',') ≡ false) ⊎ (closes_next rest ≡ false)
    → comma_loop outside (b ∷ rest) ≡ b ∷ comma_loop outside rest
unfolding comma_loop advance drops_comma is_escape
comma_byte b rest h k = ground arith

pub fix_trailing_commas-encode : (v : Value) → fix_trailing_commas (encode v []) ≡ encode v []
unfolding fix_trailing_commas comma_loop
fix_trailing_commas-encode v = copies-encode (comma_loop outside) comma_byte comma_string v []
