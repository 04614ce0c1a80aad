-- ===== src/Llm/Retry/Laws.antt =====
-- The retries of internal/llm/retry.go.
use agent_util.Common.{
  ℕ, zero, suc, ◌+◌, ◌*◌, ◌≤◌, ◌<◌, ◌≡◌, ◌≢◌, refl, [], ◌∷◌, decimal, lt→ltb, leb, if◌then◌else◌,
  false, inl, inr, Option, none, some, arith, Text, ◌==◌, Bool-cases, ◌∙◌, ◌^◌,
}
use agent_util.Llm.Retry.Digits.{digits_from-decimal_from, head_digit, decimal-ne-nil}
use agent_util.Engine.Errors.{Error}
use agent_util.Engine.Exec.{Result, ok, err}
use agent_util.Llm.Retry.{
  Response, Client, is_retryable, slept, wait_for, after_send, retry_loop, do_with_retry, digits,
  digits_from, positive_seconds, parse_retry_after,
}

positive_seconds-digits :
    (xs : Text) (n : ℕ) → xs ≢ [] → n < 2 ^ 63 → digits_from 0 xs ≡ some n → positive_seconds xs ≡ n
unfolding positive_seconds digits
positive_seconds-digits [] n ne h e = absurd (ne refl)
positive_seconds-digits (c ∷ cs) n ne h e =
    let (no_minus, no_plus) = head_digit c cs n e in
    rw (no_minus, no_plus, e, lt→ltb n (2 ^ 63) h) refl

positive_seconds-decimal : (n : ℕ) → n < 2 ^ 63 → positive_seconds (decimal n) ≡ n
unfolding decimal
positive_seconds-decimal n h =
    positive_seconds-digits (decimal n) n (decimal-ne-nil n) h
      (digits_from-decimal_from (suc n) n (omega arith))

-- A Retry-After that is the decimal digits of at most 9223372036 seconds is read as that many
-- seconds, in nanoseconds, and with 9223372037 to 18446744073 seconds it is read as none at all.
pub parse_retry_after-decimal :
    (n : ℕ)
    → n ≤ 18446744073
    → parse_retry_after (decimal n) ≡ (if leb n 9223372036 then n * 1000000000 else 0)
unfolding parse_retry_after
parse_retry_after-decimal n h =
    let seconds = positive_seconds-decimal n (omega arith) in rw seconds (ground arith)

module _ {W : Type 0} (c : Client W) (sent : W → ℕ)
    (sends : (w : W) → sent (c.send w).1 ≡ suc (sent w))
    (computes : (n : ℕ) (w : W) → sent (c.calc_backoff n w).1 ≡ sent w)
    (sleeps : (n : ℕ) (w : W) → sent (c.sleep n w).1 ≡ sent w) where
  abbrev pub IsFine : ℕ → Result Response × W → Type 0
  IsFine limit (ok resp, w) = (is_retryable resp.status_code ≡ false) × (sent w ≤ limit)
  IsFine limit (err er, w) = sent w ≤ limit

  slept-IsFine :
      (limit : ℕ) (s : Option Error × W) (next : W → Result Response × W)
      → sent s.1 ≤ limit
      → ((w : W) → sent w ≡ sent s.1 → IsFine limit (next w))
      → IsFine limit (slept c s next)
  slept-IsFine limit (some er, w) next le all = le
  slept-IsFine limit (none, w) next le all = all w refl

  after_send-IsFine :
      (limit attempt : ℕ) (r : Result Response × W) (next : W → Result Response × W)
      → sent r.1 ≤ limit
      → ((w : W) → sent w ≡ sent r.1 → IsFine limit (next w))
      → IsFine limit (after_send c attempt r next)
  unfolding after_send
  after_send-IsFine limit attempt (err er, w) next le all =
      let (backoff, w') = c.calc_backoff attempt w in
      let kept = sleeps backoff w' ∙ computes attempt w in
      elim (Bool-cases (attempt == c.max_retries)) [
        | inl last ↦ rw last le
        | inr more ↦
            rw more
              (slept-IsFine limit (c.sleep backoff w') next (rw kept le) (λ v e. all v (e ∙ kept)))
      ]
  after_send-IsFine limit attempt (ok resp, w) next le all =
      let (backoff, w') = c.calc_backoff attempt w in
      let wait = wait_for c backoff (parse_retry_after resp.retry_after) in
      let kept = sleeps wait w' ∙ computes attempt w in
      elim (Bool-cases (is_retryable resp.status_code)) [
        | inr fine ↦ simp fine (refl, le)
        | inl again ↦ elim (Bool-cases (attempt == c.max_retries)) [
          | inl last ↦ simp (again, last) le
          | inr more ↦
              simp (again, more)
                (slept-IsFine limit (c.sleep wait w') next (rw kept le) (λ v e. all v (e ∙ kept)))
        ]
      ]

  retry_loop-IsFine :
      (left attempt limit : ℕ) (w : W)
      → sent w + left ≤ limit
      → IsFine limit (retry_loop c left attempt w)
  unfolding retry_loop
  retry_loop-IsFine zero attempt limit w le = omega arith
  retry_loop-IsFine (suc left) attempt limit w le = elim (Bool-cases (c.cancelled w)) [
    | inl stop ↦ rw stop (omega arith)
    | inr go ↦ rw go (
        after_send-IsFine limit attempt (c.send w) (λ w'. retry_loop c left (suc attempt) w')
          (omega (arith, sends w))
          (λ w' e. retry_loop-IsFine left (suc attempt) limit w' (omega (arith, e, sends w))))
  ]

  -- A request is sent at most once more than the allowed retries, and a response that is returned
  -- does not have a status that is retried, if sending counts one request and neither the backoff
  -- nor the wait counts any.
  pub do_with_retry-IsFine : (w : W) → IsFine (sent w + suc c.max_retries) (do_with_retry c w)
  unfolding do_with_retry
  do_with_retry-IsFine w =
      retry_loop-IsFine (suc c.max_retries) 0 (sent w + suc c.max_retries) w (omega arith)
