-- ===== src/Context/Compaction.antt =====
-- internal/context/compaction.go. `keep_last` and `max_chars` are naturals: the program means
-- neither to be negative, and does not check it. A summariser may use the outside world `W`; its
-- error is the `err` of the cascade.
pub mod Stages
pub mod Boundary
pub mod Pairing
pub mod Tail
pub mod Idempotence
pub mod Counted
use agent_util.Common.{
  ℕ, zero, suc, ◌+◌, ◌-◌, Bool, true, false, not, ◌&&◌, ◌||◌, Option, none, some, List, [], ◌∷◌,
  ◌++◌, map, Text, txt, text_eq, contains, decimal, ◌==◌, ltb, leb, if◌then◌else◌, length,
  get_elem?, take, drop, any_of,
}
use agent_util.Common.Floats.{Floats}
use agent_util.Engine.Errors.{Error, wrap}
use agent_util.Llm.Message.{Message, ToolCall, content_string, plain_message}
use agent_util.Context.Estimate.{Unicode, estimate_tokens}

pub record Entry : Type 0 where
  pub message : Message
  pub tokens : ℕ

-- a summary, or the error that the summariser gave
pub data Summary : Type 0 where
  summary : Text → Summary
  failed : Error → Summary

pub record CompactionConfig (W : Type 0) (Float : Type 0) : Type 0 where
  pub budget_max_chars : ℕ
  pub keep_last : ℕ
  pub target_ratio : Float
  pub summarizer : Option (List Message → W → Summary × W)

-- the entries, or the error
pub data Compacted : Type 0 where
  ok : List Entry → Compacted
  err : Error → Compacted

unfoldable pub total_tokens : List Entry → ℕ
total_tokens [] = 0
total_tokens (e ∷ es) = e.tokens + total_tokens es

unfoldable pub is_tool : Entry → Bool
is_tool e = text_eq e.message.role (txt "tool")

abbrev pub masked_content : Text
masked_content = txt "[observation masked]"

-- the `for _, tc := range ToolCalls` of findToolCallAssistant
unfoldable pub has_call : Text → Entry → Bool
has_call id e = any_of (λ (tc : ToolCall). text_eq tc.id id) e.message.tool_calls

unfoldable pub has_call_at : List Entry → ℕ → Text → Bool
has_call_at es i id = elim (get_elem? es i) [ none ↦ false | some e ↦ has_call id e ]

-- findToolCallAssistant: `none` is -1
unfoldable pub find_tool_call_assistant : List Entry → Text → ℕ → Option ℕ
find_tool_call_assistant es id zero = none
find_tool_call_assistant es id (suc i) =
    let rest = find_tool_call_assistant es id i in if has_call_at es i id then some i else rest

abbrev lower : ℕ → Option ℕ → ℕ
lower cut none = cut
lower cut (some i) = if ltb i cut then i else cut

-- one round of the loop of adjustKeepBoundary
unfoldable pub adjust_at : List Entry → ℕ → Option Entry → ℕ → ℕ
adjust_at es i none cut = cut
adjust_at es i (some e) cut =
    if not (is_tool e) || text_eq e.message.tool_call_id []
    then cut
    else lower cut (find_tool_call_assistant es e.message.tool_call_id i)

-- the loop, by the rounds that are left
unfoldable pub adjust_loop : List Entry → ℕ → ℕ → ℕ → ℕ
adjust_loop es zero i cut = cut
adjust_loop es (suc n) i cut = adjust_loop es n (suc i) (adjust_at es i (get_elem? es i) cut)

unfoldable pub adjust_keep_boundary : List Entry → ℕ → ℕ
adjust_keep_boundary es keep_last =
    let cut = length es - keep_last in
    if leb (length es) keep_last then 0 else adjust_loop es (length es - cut) cut cut

module _ (fl : Floats) (u : Unicode) where
  unfoldable pub usage_ratio : List Entry → ℕ → ℕ → fl.Float
  usage_ratio es reserved token_limit =
      if token_limit == 0
      then fl.of_int 0
      else fl.divide (fl.of_int (reserved + total_tokens es)) (fl.of_int token_limit)

  -- entry{Message: msg, Tokens: EstimateTokens(msg)} of a message with another content
  unfoldable pub with_content : Entry → Text → Entry
  with_content e text =
      let message = record (e.message) { content = some text } in
      record { message = message; tokens = estimate_tokens fl u message }

  unfoldable pub truncated : ℕ → Text → Text
  truncated max_chars content =
      take max_chars content
      ++ (txt "\n\n[... truncated"
          ++ (txt ", original: " ++ (decimal (length content) ++ txt " bytes ...]")))

  unfoldable pub trim_entry : ℕ → Entry → Entry
  trim_entry max_chars e =
      let content = content_string e.message in
      if not (is_tool e)
      then e
      else if leb (length content) max_chars || contains (txt "\n\n[... truncated") content
      then e
      else with_content e (truncated max_chars content)

  unfoldable pub budget_trim : List Entry → ℕ → List Entry
  budget_trim es max_chars = if max_chars == 0 then es else map (trim_entry max_chars) es

  unfoldable pub mask_entry : Entry → Entry
  mask_entry e =
      if not (is_tool e) || text_eq (content_string e.message) masked_content
      then e
      else with_content e masked_content

  -- for i := 0; i < cutIdx; i++
  unfoldable pub mask_first : ℕ → List Entry → List Entry
  mask_first zero es = es
  mask_first (suc n) [] = []
  mask_first (suc n) (e ∷ es) = mask_entry e ∷ mask_first n es

  unfoldable pub observation_mask : List Entry → ℕ → List Entry
  observation_mask es keep_last =
      if leb (length es) keep_last then es else mask_first (length es - keep_last) es

  unfoldable pub make_marker_entry : Text → Entry
  make_marker_entry content =
      let message = plain_message (txt "user") content in
      record { message = message; tokens = estimate_tokens fl u message }

  unfoldable pub snip : List Entry → ℕ → List Entry
  snip es keep_last =
      let cut = adjust_keep_boundary es keep_last in
      if leb (length es) keep_last
      then es
      else if cut == 0
      then es
      else make_marker_entry (txt "[" ++ (decimal cut ++ txt " earlier messages snipped]"))
        ∷ drop cut es

  module _ {W : Type 0} where
    abbrev summarized : List Entry → ℕ → Summary × W → Compacted × W
    summarized es cut (failed e, w) = (err (wrap (txt "compact summarizer") e), w)
    summarized es cut (summary text, w) = (
      ok (
          make_marker_entry
            (txt "[Summary of " ++ (decimal cut ++ (txt " earlier messages]\n" ++ text)))
          ∷ drop cut es),
      w,
    )

    abbrev compact_with : (List Message → W → Summary × W) → List Entry → ℕ → W → Compacted × W
    compact_with f es cut w = summarized es cut (f (map (λ (e : Entry). e.message) (take cut es)) w)

    -- compact
    unfoldable pub compact :
        List Entry → ℕ → Option (List Message → W → Summary × W) → W → Compacted × W
    compact es keep_last none w = (ok es, w)
    compact es keep_last (some f) w =
        let cut = adjust_keep_boundary es keep_last in
        if leb (length es) keep_last
        then (ok es, w)
        else if cut == 0
        then (ok es, w)
        else compact_with f es cut w

    unfoldable pub run_compaction :
        List Entry → ℕ → ℕ → CompactionConfig W fl.Float → W → Compacted × W
    run_compaction es reserved token_limit cfg w =
        let trimmed = budget_trim es cfg.budget_max_chars in
        let masked = observation_mask trimmed cfg.keep_last in
        let snipped = snip masked cfg.keep_last in
        if fl.less (usage_ratio trimmed reserved token_limit) cfg.target_ratio
        then (ok trimmed, w)
        else if fl.less (usage_ratio masked reserved token_limit) cfg.target_ratio
        then (ok masked, w)
        else if fl.less (usage_ratio snipped reserved token_limit) cfg.target_ratio
        then (ok snipped, w)
        else compact snipped cfg.keep_last cfg.summarizer w
