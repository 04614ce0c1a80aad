-- ===== src/Llm/Retry/Digits.antt =====
-- The decimal digits that internal/llm/retry.go and internal/engine/builtin_judge.go read with
-- strconv.Atoi.
use agent_util.Common.{
  ℕ, zero, suc, ◌+◌, ◌-◌, ◌*◌, ◌/◌, ◌%◌, ◌<◌, ◌≡◌, ◌≢◌, ap, ◌∙◌, false, Bool-cases, inl, inr, some,
  [], ◌∷◌, ◌++◌, arith, Text, ltb, ◌==◌, decimal, decimal_from,
}
use agent_util.Llm.Retry.{digits_from}

-- another digit behind a text of digits
digits_from-snoc :
    (a v d : ℕ) (xs : Text)
    → d < 10
    → digits_from a xs ≡ some v
    → digits_from a (xs ++ ((48 + d) ∷ [])) ≡ some (v * 10 + d)
unfolding digits_from
digits_from-snoc a v d [] h e = ground arith
digits_from-snoc a v d (x ∷ xs) h e = ground (arith, digits_from-snoc (a * 10 + (x - 48)) v d xs h)

pub digits_from-decimal_from : (f n : ℕ) → n < f → digits_from 0 (decimal_from f n) ≡ some n
unfolding decimal_from digits_from
digits_from-decimal_from zero n h = elim h [ ]
digits_from-decimal_from (suc f) n h = elim (Bool-cases (ltb n 10)) [
  | inl small ↦ rw small (ground arith)
  | inr large ↦ rw large (
      digits_from-snoc 0 (n / 10) (n % 10) (decimal_from f (n / 10)) (omega arith)
        (digits_from-decimal_from f (n / 10) (ground arith))
      ∙ ap some (omega arith))
]

pub head_digit :
    (c : ℕ) (cs : Text) (n : ℕ)
    → digits_from 0 (c ∷ cs) ≡ some n
    → ((c == b'-') ≡ false) × ((c == b'+') ≡ false)
unfolding digits_from
head_digit c cs n e = (ground arith, ground arith)

snoc-ne-nil : (xs : Text) (c : ℕ) → xs ++ (c ∷ []) ≢ []
snoc-ne-nil [] c = λ e. cc
snoc-ne-nil (x ∷ xs) c = λ e. cc

pub decimal-ne-nil : (n : ℕ) → decimal n ≢ []
unfolding decimal decimal_from
decimal-ne-nil n = elim (Bool-cases (ltb n 10)) [
  | inl small ↦ rw small (λ e. cc)
  | inr large ↦ rw large (snoc-ne-nil (decimal_from n (n / 10)) (48 + n % 10))
]
