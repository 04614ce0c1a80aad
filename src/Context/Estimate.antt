-- ===== src/Context/Estimate.antt =====
-- internal/context/estimate.go: the estimate of a message's tokens. The tables of the package
-- unicode are a parameter, as are the floats.
use agent_util.Common.{
  ℕ, zero, suc, ◌+◌, ◌*◌, ◌%◌, ◌≤◌, ◌≡◌, refl, Bool, ◌&&◌, ◌||◌, List, [], ◌∷◌, arith, Text, ◌==◌,
  leb, ltb, if◌then◌else◌, text_eq,
}
use agent_util.Common.Floats.{Floats}
use agent_util.Llm.Message.{Message, ToolCall, content_string}

pub record Unicode : Type 0 where
  pub han : ℕ → Bool
  pub hiragana : ℕ → Bool
  pub katakana : ℕ → Bool
  pub hangul : ℕ → Bool

-- a continuation byte of UTF-8 between two bounds
abbrev within : ℕ → ℕ → ℕ → Bool
within lo hi b = leb lo b && leb b hi

abbrev continues : ℕ → Bool
continues = within 0x80 0xbf

-- the first rune of a text with the bytes behind its first byte that it takes: U+FFFD and none for
-- a byte that begins no rune
abbrev pub replacement : ℕ × ℕ
replacement = (0xfffd, 0)

two_bytes : ℕ → Text → ℕ × ℕ
two_bytes b (c ∷ _) = if continues c then ((b % 32) * 64 + c % 64, 1) else replacement
two_bytes b _ = replacement

three_bytes : ℕ → ℕ → ℕ → Text → ℕ × ℕ
three_bytes lo hi b (c ∷ d ∷ _) =
    if within lo hi c && continues d
    then ((b % 16) * 4096 + (c % 64) * 64 + d % 64, 2)
    else replacement
three_bytes lo hi b _ = replacement

four_bytes : ℕ → ℕ → ℕ → Text → ℕ × ℕ
four_bytes lo hi b (c ∷ d ∷ e ∷ _) =
    if within lo hi c && continues d && continues e
    then ((b % 8) * 262144 + (c % 64) * 4096 + (d % 64) * 64 + e % 64, 3)
    else replacement
four_bytes lo hi b _ = replacement

unfoldable pub decode_rune : ℕ → Text → ℕ × ℕ
unfolding two_bytes three_bytes four_bytes
decode_rune b bs =
    if ltb b 0x80
    then (b, 0)
    else if within 0xc2 0xdf b
    then two_bytes b bs
    else if b == 0xe0
    then three_bytes 0xa0 0xbf b bs
    else if b == 0xed
    then three_bytes 0x80 0x9f b bs
    else if within 0xe1 0xef b
    then three_bytes 0x80 0xbf b bs
    else if b == 0xf0
    then four_bytes 0x90 0xbf b bs
    else if within 0xf1 0xf3 b
    then four_bytes 0x80 0xbf b bs
    else if b == 0xf4
    then four_bytes 0x80 0x8f b bs
    else replacement

-- for _, r := range text; the number is of bytes to skip
unfoldable pub runes_from : ℕ → Text → List ℕ
runes_from k [] = []
runes_from (suc k) (b ∷ bs) = runes_from k bs
runes_from zero (b ∷ bs) = let (r, width) = decode_rune b bs in r ∷ runes_from width bs

unfoldable pub is_cjk : Unicode → ℕ → Bool
is_cjk u r = u.han r || u.hiragana r || u.katakana r || u.hangul r

-- Go's int(total), at least 1
abbrev at_least_one : ℕ → ℕ
at_least_one n = if n == 0 then 1 else n

module _ (fl : Floats) (u : Unicode) where
  unfoldable pub add_runes : fl.Float → List ℕ → fl.Float
  add_runes total [] = total
  add_runes total (r ∷ rs) =
      add_runes (fl.plus total (if is_cjk u r then fl.literal 15 10 else fl.literal 35 100)) rs

  -- estimateTextTokens
  unfoldable pub estimate_text_tokens : Text → ℕ
  estimate_text_tokens [] = 0
  estimate_text_tokens (b ∷ bs) =
      at_least_one (fl.truncate (add_runes (fl.of_int 0) (runes_from 0 (b ∷ bs))))

  unfoldable pub estimate_tool_calls : List ToolCall → ℕ
  estimate_tool_calls [] = 0
  estimate_tool_calls (tc ∷ tcs) =
      estimate_text_tokens tc.function.name
      + estimate_text_tokens tc.function.arguments
      + 4
      + estimate_tool_calls tcs

  -- EstimateTokens; the estimate of an empty tool call ID is 0, as where the source skips it
  unfoldable pub estimate_tokens : Message → ℕ
  estimate_tokens m =
      4
      + estimate_text_tokens (content_string m)
      + estimate_tool_calls m.tool_calls
      + (if text_eq m.tool_call_id [] then 0 else estimate_text_tokens m.tool_call_id)

  -- A text has no tokens exactly if it is empty.
  pub estimate_text_tokens_zero : (s : Text) → estimate_text_tokens s ≡ 0 → s ≡ []
  unfolding estimate_text_tokens
  estimate_text_tokens_zero [] h = refl
  estimate_text_tokens_zero (b ∷ bs) h = ground arith

  -- Every message is counted with its overhead of four tokens.
  pub four-le-estimate_tokens : (m : Message) → 4 ≤ estimate_tokens m
  unfolding estimate_tokens
  four-le-estimate_tokens m = omega arith
