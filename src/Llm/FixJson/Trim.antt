-- ===== src/Llm/FixJson/Trim.antt =====
-- bytes.TrimSpace and bytes.Split, as internal/llm/fixjson.go uses them. The white space of
-- unicode.IsSpace is read from its UTF-8 bytes.
use agent_util.Common.{
  ℕ, zero, suc, true, false, ◌≡◌, refl, Bool, ◌&&◌, ◌||◌, List, [], ◌∷◌, reverse, Text, txt, ◌==◌,
  leb, if◌then◌else◌,
}

-- \t \n \v \f \r and the blank
unfoldable pub is_ascii_space : ℕ → Bool
is_ascii_space b = (leb 9 b && leb b 13) || b == 32

-- U+0085 and U+00A0
is_space_2 : ℕ → ℕ → Bool
is_space_2 b c = b == 0xc2 && (c == 0x85 || c == 0xa0)

-- U+1680, U+2000 to U+200A, U+2028, U+2029, U+202F, U+205F, U+3000
is_space_3 : ℕ → ℕ → ℕ → Bool
is_space_3 b c d =
    (b == 0xe1 && c == 0x9a && d == 0x80)
    || (b == 0xe2
        && c == 0x80
        && ((leb 0x80 d && leb d 0x8a) || d == 0xa8 || d == 0xa9 || d == 0xaf))
    || (b == 0xe2 && c == 0x81 && d == 0x9f)
    || (b == 0xe3 && c == 0x80 && d == 0x80)

-- how many bytes after the first belong to the white space that the text begins with, if it does
unfoldable pub leading_space : Text → ℕ
unfolding is_ascii_space is_space_2 is_space_3
leading_space [] = 0
leading_space (b ∷ []) = if is_ascii_space b then 1 else 0
leading_space (b ∷ c ∷ []) = if is_ascii_space b then 1 else if is_space_2 b c then 2 else 0
leading_space (b ∷ c ∷ d ∷ rest) =
    if is_ascii_space b then 1 else if is_space_2 b c then 2 else if is_space_3 b c d then 3 else 0

-- the same of the reversed text: the white space that the text ends in
unfoldable pub trailing_space : Text → ℕ
unfolding is_ascii_space is_space_2 is_space_3
trailing_space [] = 0
trailing_space (b ∷ []) = if is_ascii_space b then 1 else 0
trailing_space (b ∷ c ∷ []) = if is_ascii_space b then 1 else if is_space_2 c b then 2 else 0
trailing_space (b ∷ c ∷ d ∷ rest) =
    if is_ascii_space b then 1 else if is_space_2 c b then 2 else if is_space_3 d c b then 3 else 0

-- drops what `width` measures, as long as it measures something; the number is of bytes to skip
unfoldable pub trim_from : (Text → ℕ) → ℕ → Text → Text
trim_from width k [] = []
trim_from width (suc k) (b ∷ bs) = trim_from width k bs
trim_from width zero (b ∷ bs) = elim (width (b ∷ bs)) [
  | zero ↦ b ∷ bs
  | suc k ↦ trim_from width k bs
]

unfoldable pub trim_space : Text → Text
trim_space s = reverse (trim_from trailing_space 0 (reverse (trim_from leading_space 0 s)))

-- bytes.Split(s, []byte("\n")): the part that is being read, reversed, and the rest
unfoldable pub split_lines_from : Text → Text → List Text
split_lines_from line [] = reverse line ∷ []
split_lines_from line (b ∷ bs) = elim (b == b'\n') [
  | true ↦ reverse line ∷ split_lines_from [] bs
  | false ↦ split_lines_from (b ∷ line) bs
]

unfoldable pub split_lines : Text → List Text
unfolding split_lines_from
split_lines = split_lines_from []

trim_space_test : trim_space (txt " \t{a} \n") ≡ txt "{a}"
unfolding trim_space trim_from leading_space trailing_space txt
trim_space_test = refl

split_lines_test : split_lines (txt "a\n\nbc") ≡ txt "a" ∷ [] ∷ txt "bc" ∷ []
unfolding split_lines txt
split_lines_test = refl
