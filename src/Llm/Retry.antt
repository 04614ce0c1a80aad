-- ===== src/Llm/Retry.antt =====
-- internal/llm/retry.go. The request, the timer and the random backoff, which is computed on floats,
-- use the outside world `W`. A time.Duration is an int64 of nanoseconds that wraps around.
pub mod Digits
pub mod Laws
use agent_util.Common.{
  ℕ, zero, suc, ◌+◌, ◌*◌, ◌-◌, ◌%◌, ◌^◌, Bool, true, false, ◌&&◌, ◌||◌, Option, none, some, List,
  [], ◌∷◌, ◌++◌, Text, txt, ltb, leb, ◌==◌, if◌then◌else◌, decimal,
}
use agent_util.Engine.Errors.{Error, wrap, other}
use agent_util.Engine.Exec.{Result, ok, err}

pub record Response : Type 0 where
  pub status_code : ℕ
  pub retry_after : Text
  pub body : Text

pub record Client (W : Type 0) : Type 0 where
  pub max_retries : ℕ
  pub send : W → Result Response × W
  pub cancelled : W → Bool
  pub context_error : W → Error
  -- calcBackoff of an attempt, in nanoseconds
  pub calc_backoff : ℕ → W → ℕ × W
  pub sleep : ℕ → W → Option Error × W

unfoldable pub is_retryable : ℕ → Bool
is_retryable status =
    status == 429 || status == 500 || status == 502 || status == 503 || status == 529

abbrev digits_then : Bool → Option ℕ → Option ℕ
digits_then true rest = rest
digits_then false rest = none

-- the decimal digits of a text, after the value of those before
unfoldable pub digits_from : ℕ → Text → Option ℕ
digits_from n [] = some n
digits_from n (c ∷ cs) =
    digits_then (leb b'0' c && leb c b'9') (digits_from (n * 10 + (c - b'0')) cs)

unfoldable pub digits : Text → Option ℕ
digits [] = none
digits (c ∷ cs) = digits_from 0 (c ∷ cs)

abbrev in_range : Option ℕ → ℕ
in_range none = 0
in_range (some n) = if ltb n (2 ^ 63) then n else 0

-- strconv.Atoi of a header, where an error and what is not above zero both give zero
unfoldable pub positive_seconds : Text → ℕ
positive_seconds [] = 0
positive_seconds (c ∷ cs) =
    if c == b'-' then 0 else in_range (digits (if c == b'+' then cs else c ∷ cs))

-- time.Duration(secs) * time.Second if it is above zero after the wrap, and zero else
unfoldable pub parse_retry_after : Text → ℕ
parse_retry_after value =
    let wrapped = (positive_seconds value * 1000000000) % 2 ^ 64 in
    if ltb wrapped (2 ^ 63) then wrapped else 0

module _ {W : Type 0} (c : Client W) where
  abbrev slept : Option Error × W → (W → Result Response × W) → Result Response × W
  slept (some er, w) next = (err (wrap (txt "request canceled") er), w)
  slept (none, w) next = next w

  unfoldable pub wait_for : ℕ → ℕ → ℕ
  wait_for backoff retry_after = if ltb 0 retry_after then retry_after else backoff

  -- what the loop does with the outcome of a request
  unfoldable pub after_send :
      ℕ → Result Response × W → (W → Result Response × W) → Result Response × W
  after_send attempt (err er, w) next =
      let (backoff, w') = c.calc_backoff attempt w in
      if attempt == c.max_retries
      then (
        err (
            wrap
              (txt "http request (attempt "
                ++ (decimal (attempt + 1) ++ (txt "/" ++ (decimal (c.max_retries + 1) ++ txt ")"))))
              er),
        w,
      )
      else slept (c.sleep backoff w') next
  after_send attempt (ok resp, w) next =
      let (backoff, w') = c.calc_backoff attempt w in
      if is_retryable resp.status_code
      then if attempt == c.max_retries
        then (err (other (txt "max retries exceeded: last status " ++ decimal resp.status_code)), w)
        else slept (c.sleep (wait_for backoff (parse_retry_after resp.retry_after)) w') next
      else (ok resp, w)

  -- the loop, by the attempts that are left
  unfoldable pub retry_loop : ℕ → ℕ → W → Result Response × W
  retry_loop zero attempt w = (err (other (txt "unexpected: retry loop exhausted")), w)
  retry_loop (suc left) attempt w =
      let next = λ (w' : W). retry_loop left (suc attempt) w' in
      if c.cancelled w
      then (err (wrap (txt "request canceled") (c.context_error w)), w)
      else after_send attempt (c.send w) next

  -- doWithRetry
  unfoldable pub do_with_retry : W → Result Response × W
  do_with_retry w = retry_loop (suc c.max_retries) 0 w
