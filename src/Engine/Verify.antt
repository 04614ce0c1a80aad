-- ===== src/Engine/Verify.antt =====
-- internal/engine/verify.go. A verifier may use the outside world `W`; log lines are not modelled.
pub mod Laws
use agent_util.Common.{
  ℕ, ◌+◌, ◌≡◌, refl, Bool, true, false, List, [], ◌∷◌, ◌++◌, Text, txt, if◌then◌else◌, length, ltb,
  ◌==◌,
}

pub record VerifyResult : Type 0 where
  pub passed : Bool
  pub summary : Text
  pub details : List Text

-- what a verifier returns: a result, or an error of its own
pub data Verified : Type 0 where
  verified : VerifyResult → Verified
  broken : Text → Verified

pub record Verifier (W : Type 0) : Type 0 where
  pub name : Text
  pub verify : Text → Text → Text → W → Verified × W

-- the variables of the loop
pub record Tally : Type 0 where
  pub all_passed : Bool
  pub details : List Text
  pub fail_summaries : List Text

-- `summary += "; "` before every part but the first
unfoldable pub joined_from : Text → Bool → List Text → Text
joined_from summary first [] = summary
joined_from summary first (s ∷ ss) =
    joined_from ((if first then summary else summary ++ txt "; ") ++ s) false ss

module _ {W : Type 0} (cancelled : W → Bool) (tool_name args result : Text) where
  unfoldable pub count_answer : Text → Verified → Tally → Tally
  count_answer name (broken e) t = record t {
    details = t.details ++ ((name ++ txt ": error (skipped)") ∷ []);
  }
  count_answer name (verified r) t =
      if r.passed
      then record t { details = t.details ++ ((name ++ txt ": passed") ∷ []) }
      else record {
        all_passed = false;
        details = t.details ++ ((name ++ (txt ": FAILED - " ++ r.summary)) ∷ []);
        fail_summaries = t.fail_summaries ++ ((name ++ (txt ": " ++ r.summary)) ∷ []);
      }

  unfoldable pub final_result : Tally → VerifyResult
  final_result t = record {
    passed = t.all_passed;
    summary =
        if t.all_passed then txt "all verifiers passed" else joined_from [] true t.fail_summaries;
    details = t.details;
  }

  unfoldable pub verify_loop : List (Verifier W) → Tally → W → VerifyResult × W
  verify_loop [] t w = (final_result t, w)
  verify_loop (v ∷ vs) t w =
      let answer = v.verify tool_name args result w in
      let rest = verify_loop vs (count_answer v.name answer.0 t) answer.1 in
      if cancelled w
      then (
        record { passed = false; summary = txt "verification canceled"; details = t.details },
        w,
      )
      else rest

  -- RunAll
  unfoldable pub run_all : List (Verifier W) → W → VerifyResult × W
  run_all [] w = (record { passed = true; summary = txt "no verifiers"; details = [] }, w)
  run_all (v ∷ vs) w =
      verify_loop (v ∷ vs) (record { all_passed = true; details = []; fail_summaries = [] }) w
