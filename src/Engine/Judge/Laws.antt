-- ===== src/Engine/Judge/Laws.antt =====
-- internal/engine/builtin_judge.go: the specifications that its comment names.
use agent_util.Common.{
  ℕ, suc, ◌^◌, ◌<◌, ◌≡◌, ◌≢◌, refl, some, [], ◌∷◌, ◌++◌, arith, Text, txt, text_eq, decimal, lt→ltb,
}
use agent_util.Engine.Exec.{ok}
use agent_util.Engine.Judge.{
  atoi, split_colon, min_length_judge, contains_judge, build_builtin_goal_judge,
}
use agent_util.Llm.Retry.{digits, digits_from}
use agent_util.Llm.Retry.Digits.{digits_from-decimal_from, head_digit, decimal-ne-nil}

-- a text of digits has no sign
atoi-digits :
    (xs : Text) (n : ℕ) → xs ≢ [] → n < 2 ^ 63 → digits_from 0 xs ≡ some n → atoi xs ≡ some n
unfolding atoi digits
atoi-digits [] n ne h e = absurd (ne refl)
atoi-digits (c ∷ cs) n ne h e =
    let (no_minus, no_plus) = head_digit c cs n e in
    rw (no_minus, no_plus, e, lt→ltb n (2 ^ 63) h) refl

atoi-decimal : (n : ℕ) → n < 2 ^ 63 → atoi (decimal n) ≡ some n
unfolding decimal
atoi-decimal n h =
    atoi-digits (decimal n) n (decimal-ne-nil n) h
      (digits_from-decimal_from (suc n) n (omega arith))

module _ {W : Type 0} (quote : Text → Text) where
  -- A specification "min_length:N" with the decimal digits of an N that an int holds builds the judge
  -- of that length, and "contains:KW" with a KW that is not empty builds the judge of that keyword,
  -- whatever the keyword holds, a colon as well.
  pub build_builtin_goal_judge_lem :
      (n c : ℕ) (cs : Text)
      → n < 2 ^ 63
      → (build_builtin_goal_judge {W = W} quote (txt "min_length:" ++ decimal n)
          ≡ ok (min_length_judge quote n))
        × (build_builtin_goal_judge {W = W} quote (txt "contains:" ++ (c ∷ cs))
            ≡ ok (contains_judge quote (c ∷ cs)))
  unfolding build_builtin_goal_judge split_colon txt text_eq
  build_builtin_goal_judge_lem n c cs h = (rw (atoi-decimal n h) refl, refl)
