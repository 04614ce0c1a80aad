-- ===== src/Engine/Judge.antt =====
-- internal/engine/loop_type.go and builtin_judge.go. The verb %q is a parameter.
pub mod Laws
use agent_util.Common.{
  ℕ, Bool, true, false, Option, none, some, List, [], ◌∷◌, ◌++◌, ◌^◌, Text, txt, text_eq, contains,
  ltb, leb, ◌==◌, if◌then◌else◌, length, decimal,
}
use agent_util.Context.Estimate.{runes_from}
use agent_util.Engine.Errors.{Error, other}
use agent_util.Engine.Exec.{Result, ok, err}
use agent_util.Engine.State.{LoopType, react, reaf, Judged, judged}
use agent_util.Llm.Retry.{digits}

-- LoopTypeFromString
unfoldable pub loop_type_from_string : Text → LoopType × Bool
loop_type_from_string s =
    if text_eq s (txt "react")
    then (react, true)
    else if text_eq s []
    then (react, true)
    else if text_eq s (txt "reaf")
    then (reaf, true)
    else (react, false)

unfoldable pub loop_type_string : LoopType → Text
loop_type_string reaf = txt "reaf"
loop_type_string react = txt "react"

abbrev in_int : Option ℕ → Option ℕ
in_int none = none
in_int (some n) = if ltb n (2 ^ 63) then some n else none

abbrev zero_only : Option ℕ → Option ℕ
zero_only none = none
zero_only (some n) = if n == 0 then some 0 else none

-- strconv.Atoi, where `none` is an error or a negative number
unfoldable pub atoi : Text → Option ℕ
atoi [] = none
atoi (c ∷ cs) =
    if c == b'-' then zero_only (digits cs) else in_int (digits (if c == b'+' then cs else c ∷ cs))

abbrev cons_before : ℕ → Option (Text × Text) → Option (Text × Text)
cons_before c none = none
cons_before c (some (before, after)) = some (c ∷ before, after)

-- strings.SplitN(spec, ":", 2): `none` if it has one part
unfoldable pub split_colon : Text → Option (Text × Text)
split_colon [] = none
split_colon (c ∷ cs) = if c == b':' then some ([], cs) else cons_before c (split_colon cs)

module _ {W : Type 0} (quote : Text → Text) where
  unfoldable pub min_length_judge : ℕ → Text → ℕ → W → Judged × W
  min_length_judge n response turn w =
      if leb n (length (runes_from 0 response))
      then (judged true (txt "min_length:" ++ (decimal n ++ txt " satisfied")), w)
      else (judged false [], w)

  unfoldable pub contains_judge : Text → Text → ℕ → W → Judged × W
  contains_judge kw response turn w =
      if contains kw response
      then (judged true (txt "contains:" ++ (quote kw ++ txt " satisfied")), w)
      else (judged false [], w)

  abbrev with_number : Text → Option ℕ → Result (Text → ℕ → W → Judged × W)
  with_number text none = err (other (txt "min_length: invalid number " ++ quote text))
  with_number text (some n) = ok (min_length_judge n)

  abbrev with_keyword : Text → Result (Text → ℕ → W → Judged × W)
  with_keyword [] = err (other (txt "contains: empty keyword"))
  with_keyword (c ∷ cs) = ok (contains_judge (c ∷ cs))

  abbrev with_parts : Text → Option (Text × Text) → Result (Text → ℕ → W → Judged × W)
  with_parts spec none =
      err (other (txt "invalid spec " ++ (quote spec ++ txt " (want \"kind:value\")")))
  with_parts spec (some (kind, value)) =
      if text_eq kind (txt "min_length")
      then with_number value (atoi value)
      else if text_eq kind (txt "contains")
      then with_keyword value
      else err (other (txt "unknown builtin judge kind " ++ quote kind))

  -- BuildBuiltinGoalJudge
  unfoldable pub build_builtin_goal_judge : Text → Result (Text → ℕ → W → Judged × W)
  build_builtin_goal_judge spec = with_parts spec (split_colon spec)
