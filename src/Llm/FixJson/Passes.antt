-- ===== src/Llm/FixJson/Passes.antt =====
-- The byte passes of internal/llm/fixjson.go. Three of its loops read `inString` and `escaped`
-- in the same way, and a fourth with the single quote for the double one: `advance` is that part.
use agent_util.Common.{
  ℕ, zero, suc, ◌-◌, Bool, true, false, not, ◌&&◌, ◌||◌, Option, none, some, List, [], ◌∷◌, ◌++◌,
  Text, txt, has_prefix, any_of, ◌==◌, ltb, if◌then◌else◌, length,
}
use agent_util.Llm.FixJson.Trim.{trim_space}

pub record Scan : Type 0 where
  pub in_string : Bool
  pub escaped : Bool

abbrev pub outside : Scan
outside = record { in_string = false; escaped = false }

-- a byte that the loops copy before they look at it: one behind a backslash, or a backslash
unfoldable pub is_escape : Scan → ℕ → Bool
is_escape s b = s.escaped || (b == b'\\' && s.in_string)

-- `inString` and `escaped` after a byte, for the quote `q`
unfoldable pub advance : ℕ → Scan → ℕ → Scan
advance q s b =
    if s.escaped
    then record s { escaped = false }
    else if b == b'\\' && s.in_string
    then record s { escaped = true }
    else if b == q
    then record s { in_string = not s.in_string }
    else s

-- stripCodeBlock
unfoldable pub after_newline : Text → Option Text
after_newline [] = none
after_newline (b ∷ bs) = if b == b'\n' then some bs else after_newline bs

unfoldable pub before_fence : Text → Text
before_fence [] = []
before_fence (b ∷ bs) =
    let rest = before_fence bs in if has_prefix (txt "```") (b ∷ bs) then [] else b ∷ rest

unfoldable pub strip_code_block : Text → Text
strip_code_block s =
    let trimmed = trim_space s in
    if not (has_prefix (txt "```") trimmed)
    then s
    else elim (after_newline trimmed) [ none ↦ s | some inner ↦ trim_space (before_fence inner) ]

-- bytes.ReplaceAll(s, old, new) for a text `old` that is not empty; the number is of bytes to skip
unfoldable pub replace_from : Text → Text → ℕ → Text → Text
replace_from old new k [] = []
replace_from old new (suc k) (b ∷ bs) = replace_from old new k bs
replace_from old new zero (b ∷ bs) =
    let found = has_prefix old (b ∷ bs) in
    (if found then new else b ∷ []) ++ replace_from old new (if found then length old - 1 else 0) bs

unfoldable pub fix_null_braces : Text → Text
fix_null_braces s = replace_from (txt "{null}") (txt "null") 0 s

-- fixControlChars
unfoldable pub is_control : ℕ → Bool
is_control b = ltb b 0x20 && not (b == b'\t') && not (b == b'\n') && not (b == b'\r')

unfoldable pub drops_control : Scan → ℕ → Bool
drops_control s b = not (is_escape s b) && (advance b'"' s b).in_string && is_control b

unfoldable pub control_loop : Scan → Text → Text
control_loop s [] = []
control_loop s (b ∷ bs) =
    let rest = control_loop (advance b'"' s b) bs in if drops_control s b then rest else b ∷ rest

unfoldable pub fix_control_chars : Text → Text
fix_control_chars = control_loop outside

-- fixSingleQuotes
unfoldable pub quote_byte : Scan → ℕ → ℕ
quote_byte s b = if not (is_escape s b) && b == b'\'' then b'"' else b

unfoldable pub quote_loop : Scan → Text → Text
quote_loop s [] = []
quote_loop s (b ∷ bs) = quote_byte s b ∷ quote_loop (advance b'\'' s b) bs

unfoldable pub fix_single_quotes : Text → Text
fix_single_quotes s = if any_of (λ b. b == b'"') s then s else quote_loop outside s

-- fixTrailingCommas
unfoldable pub is_json_space : ℕ → Bool
is_json_space b = b == b' ' || b == b'\t' || b == b'\n' || b == b'\r'

unfoldable pub closes_next : Text → Bool
closes_next [] = false
closes_next (b ∷ bs) =
    let rest = closes_next bs in if is_json_space b then rest else b == b'}' || b == b']'

unfoldable pub drops_comma : Scan → ℕ → Text → Bool
drops_comma s b rest = not (is_escape s b) && b == b',' && not s.in_string && closes_next rest

unfoldable pub comma_loop : Scan → Text → Text
comma_loop s [] = []
comma_loop s (b ∷ bs) =
    let rest = comma_loop (advance b'"' s b) bs in if drops_comma s b bs then rest else b ∷ rest

unfoldable pub fix_trailing_commas : Text → Text
fix_trailing_commas = comma_loop outside

-- fixUnmatchedBrackets: the stack has its top first
unfoldable pub pop_closer : ℕ → List ℕ → List ℕ
pop_closer b [] = []
pop_closer b (c ∷ stack) = if c == b then stack else c ∷ stack

unfoldable pub bracket : Scan → ℕ → List ℕ → List ℕ
bracket s b stack =
    if is_escape s b || b == b'"' || s.in_string
    then stack
    else if b == b'{'
    then b'}' ∷ stack
    else if b == b'['
    then b']' ∷ stack
    else if b == b'}' || b == b']'
    then pop_closer b stack
    else stack

unfoldable pub bracket_loop : Scan → List ℕ → Text → List ℕ
bracket_loop s stack [] = stack
bracket_loop s stack (b ∷ bs) = bracket_loop (advance b'"' s b) (bracket s b stack) bs

unfoldable pub close_all : Text → List ℕ → Text
close_all s [] = s
close_all s (c ∷ cs) = s ++ (c ∷ cs)

unfoldable pub fix_unmatched_brackets : Text → Text
fix_unmatched_brackets s = close_all s (bracket_loop outside [] s)
