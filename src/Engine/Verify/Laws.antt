-- ===== src/Engine/Verify/Laws.antt =====
-- RunAll of internal/engine/verify.go against the answers that the verifiers give in turn.
use agent_util.Common.{
  ◌+◌, ◌≡◌, refl, Bool, true, false, inl, inr, List, [], ◌∷◌, ◌++◌, arith, Text, txt, length,
  length-append, Bool-cases, ◌↔◌,
}
use agent_util.Engine.Verify.{
  Verified, verified, broken, Verifier, Tally, count_answer, final_result, verify_loop, run_all,
}

abbrev pub Accepts : Verified → Type 0
Accepts (broken e) = Unit {0}
Accepts (verified r) = r.passed ≡ true

module _ {W : Type 0} (cancelled : W → Bool) (tool_name args result : Text) where
  -- the verifiers are asked in order, none while the context is done, and each passes or is broken
  pub data Accepting : List (Verifier W) → W → W → Type 0 where
    at_end : {w : W} → Accepting [] w w
    past :
        {v : Verifier W} {vs : List (Verifier W)} {w w' : W}
        → cancelled w ≡ false
        → Accepts (v.verify tool_name args result w).0
        → Accepting vs (v.verify tool_name args result w).1 w'
        → Accepting (v ∷ vs) w w'

  count_accepted :
      (name : Text) (a : Verified) (t : Tally)
      → (count_answer cancelled tool_name args result name a t).all_passed ≡ true
      → (t.all_passed ≡ true) × Accepts a
  unfolding count_answer
  count_accepted name (broken e) t h = (h, tt)
  count_accepted name (verified r) t h = ground arith

  accepted_count :
      (name : Text) (a : Verified) (t : Tally)
      → t.all_passed ≡ true
      → Accepts a
      → (count_answer cancelled tool_name args result name a t).all_passed ≡ true
  unfolding count_answer
  accepted_count name (broken e) t h k = h
  accepted_count name (verified r) t h k = ground arith

  -- a verifier that is asked leaves one line of details
  length-count_answer :
      (name : Text) (a : Verified) (t : Tally)
      → length (count_answer cancelled tool_name args result name a t).details
        ≡ length t.details + 1
  unfolding count_answer
  length-count_answer name (broken e) t =
      length-append t.details ((name ++ txt ": error (skipped)") ∷ [])
  length-count_answer name (verified r) t = elim (Bool-cases r.passed) [
    | inl passed ↦ rw passed (length-append t.details ((name ++ txt ": passed") ∷ []))
    | inr failed ↦
        rw failed (length-append t.details ((name ++ (txt ": FAILED - " ++ r.summary)) ∷ []))
  ]

  loop_passed :
      (vs : List (Verifier W)) (t : Tally) (w : W)
      → (verify_loop cancelled tool_name args result vs t w).0.passed ≡ true
      → (t.all_passed ≡ true)
        × Accepting vs w (verify_loop cancelled tool_name args result vs t w).1
        × (length (verify_loop cancelled tool_name args result vs t w).0.details
            ≡ length t.details + length vs)
  unfolding verify_loop final_result
  loop_passed [] t w h = (h, at_end, omega arith)
  loop_passed (v ∷ vs) t w h = elim (Bool-cases (cancelled w)) [
    | inl stop ↦ cc (rw stop at h)
    | inr go ↦
        let a = v.verify tool_name args result w in
        let t' = count_answer cancelled tool_name args result v.name a.0 t in
        let (counted, more, len) = loop_passed vs t' a.1 (rw go at h) in
        let (all, accepts) = count_accepted v.name a.0 t counted in
        (
          all,
          rw go (past go accepts more),
          rw go (omega (arith, len, length-count_answer v.name a.0 t)),
        )
  ]

  Accepting-loop :
      (vs : List (Verifier W)) (t : Tally) {w w' : W}
      → t.all_passed ≡ true
      → Accepting vs w w'
      → (verify_loop cancelled tool_name args result vs t w).0.passed ≡ true
  unfolding verify_loop final_result
  Accepting-loop [] t h at_end = h
  Accepting-loop (v ∷ vs) t {w} h (past go accepts more) =
      let a = v.verify tool_name args result w in
      rw go (
        Accepting-loop vs (count_answer cancelled tool_name args result v.name a.0 t)
          (accepted_count v.name a.0 t h accepts) more)

  -- The verification passes exactly if each verifier, asked in order while the context is not
  -- done, passes the result or has an error of its own.
  pub run_all_passed_iff :
      (vs : List (Verifier W)) (w : W)
      → ((run_all cancelled tool_name args result vs w).0.passed ≡ true)
        ↔ ((w' : W) × Accepting vs w w')
  unfolding run_all
  run_all_passed_iff [] w = (λ h. (w, at_end), λ p. refl)
  run_all_passed_iff (v ∷ vs) w =
      (λ h. (_, (loop_passed (v ∷ vs) _ w h).1), λ p. Accepting-loop (v ∷ vs) _ refl p.1)
