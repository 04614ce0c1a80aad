-- ===== src/Engine/Run/Limits.antt =====
-- The limits on retries and on failures in the loop of Run in internal/engine/engine.go.
use agent_util.Common.{
  ℕ, zero, suc, ◌+◌, ◌-◌, ◌≤◌, ◌<◌, ◌≡◌, refl, ap, ◌∙◌, subst, true, false, Option, none, some, [],
  ◌++◌, decimal, arith, txt, leb, le→leb,
}
use agent_util.Common.Floats.{Floats}
use agent_util.Llm.Message.{no_usage}
use agent_util.Context.Estimate.{Unicode}
use agent_util.Engine.Errors.{Error, transient, max_step_retries, wrap_two, classify_error}
use agent_util.Engine.Exec.{Result, ok, err, Exec}
use agent_util.Engine.State.{
  continue, LoopResult, RunResult, Outside, Engine, State, emit_context_status,
}
use agent_util.Engine.Run.{
  is_failure_reason, Vars, after_success, result_of, by_class, by_kind, judged_step, woken,
  after_step, told_step, run_loop, partial_response, turn_text, start,
}

leb-false : (a b : ℕ) → b < a → leb a b ≡ false
leb-false a b h = ground arith

module _ (fl : Floats) (u : Unicode) {W : Type 0} (out : Outside W) (e : Engine fl W) where
  abbrev Rest : Type 0
  Rest = Vars → Exec (State fl W) RunResult

  after_failed :
      (er : Error) (r : Result LoopResult × State fl W) (turn : ℕ) (v : Vars) (rest : Rest)
      → r.0 ≡ err er
      → classify_error er ≡ transient
      → after_step fl u out e r turn v rest ≡ by_class fl u out e transient er turn v rest r.1
  unfolding after_step
  after_failed er (ok lr, s) turn v rest h c = cc
  after_failed er (err er', s) turn v rest h c = let same : er' ≡ er = cc in rw (same, c)

  retried :
      (er : Error) (turn : ℕ) (v : Vars) (rest : Rest) (s : State fl W) (n : ℕ)
      → v.step_retries < e.max_step_retries
      → (out.sleep_backoff v.step_retries s.world).0 ≡ none
      → (s' : State fl W) × (by_class fl u out e transient er turn v rest s
          ≡ rest (record v { step_retries = suc v.step_retries }) s')
  unfolding by_class
  retried er turn v rest s n lt awake =
      rw (leb-false e.max_step_retries v.step_retries lt)
        (wakes (out.sleep_backoff v.step_retries s.world) awake)
    where
      wakes :
          (slept : Option Error × W)
          → slept.0 ≡ none
          → (s' : State fl W) × (woken fl u out e v rest slept s
              ≡ rest (record v { step_retries = suc v.step_retries }) s')
      wakes (some er', w) h = cc
      wakes (none, w) h = (record s { world = w }, refl)

  after_failure :
      (lr : LoopResult) (r : Result LoopResult × State fl W) (turn : ℕ) (v : Vars) (rest : Rest)
      → r.0 ≡ ok lr
      → lr.kind ≡ continue
      → (s' : State fl W) × (after_step fl u out e r turn v rest
          ≡ by_kind fl u out e continue lr turn (after_success lr v) rest s')
  unfolding after_step judged_step
  after_failure lr (err er, s) turn v rest h k = cc
  after_failure lr (ok lr', s) turn v rest h k =
      let same : lr' ≡ lr = cc in (told_step fl u out e e.step_callback turn lr s, rw (same, k))

  module _ (step : ℕ → Exec (State fl W) LoopResult)
      (running : (w : W) → out.cancelled w ≡ false) where
    module _ (er : Error) (class : classify_error er ≡ transient)
        (fails : (turn : ℕ) (s : State fl W) → (step turn s).0 ≡ err er)
        (awake : (n : ℕ) (w : W) → (out.sleep_backoff n w).0 ≡ none) where
      one_turn :
          (left turn : ℕ) (v : Vars) (s : State fl W)
          → (s' : State fl W) × (run_loop fl u out e step (suc left) turn v s
              ≡ by_class fl u out e transient er turn v
                  (λ v' s''. run_loop fl u out e step left (suc turn) v' s'')
                  s')
      unfolding run_loop
      one_turn left turn v s =
          let s1 = emit_context_status fl u e [] [] 0 s in
          (
            (step (suc turn) s1).1,
            rw (running s.world)
                (after_failed er (step (suc turn) s1) turn v _ (fails (suc turn) s1) class),
          )

      exhausted :
          (turn : ℕ) (v : Vars) (rest : Rest) (s : State fl W)
          → e.max_step_retries ≤ v.step_retries
          → (by_class fl u out e transient er turn v rest s).0
            ≡ err (wrap_two (turn_text turn) max_step_retries er)
      unfolding by_class
      exhausted turn v rest s le = rw (le→leb e.max_step_retries v.step_retries le)

      gives_up :
          (k left turn : ℕ) (v : Vars) (s : State fl W)
          → v.step_retries + k ≡ e.max_step_retries
          → k < left
          → (run_loop fl u out e step left turn v s).0
            ≡ err (wrap_two (turn_text (turn + k)) max_step_retries er)
      gives_up k zero turn v s h lt = absurd (omega arith)
      gives_up zero (suc left) turn v s h lt =
          let (s', turned) = one_turn left turn v s in
          let same : turn + 0 ≡ turn = omega arith in
          rw (turned, same) (exhausted turn v _ s' (omega arith))
      gives_up (suc k) (suc left) turn v s h lt =
          let (s', turned) = one_turn left turn v s in
          let (s'', again) =
            retried er turn v (λ v' s3. run_loop fl u out e step left (suc turn) v' s3) s' 0
              (omega arith) (awake v.step_retries s'.world) in
          let later : turn + suc k ≡ suc turn + k = omega arith in
          rw (turned, again, later)
            (gives_up k left (suc turn) (record v { step_retries = suc v.step_retries }) s''
              (omega arith) (omega arith))

      runs_out :
          (left turn : ℕ) (v : Vars) (s : State fl W)
          → v.step_retries + left ≤ e.max_step_retries
          → (run_loop fl u out e step left turn v s).0
            ≡ ok (
                result_of
                  (partial_response fl u out e v.last_assistant_text)
                  (txt "max_turns")
                  v.total_usage
                  e.max_turns)
      unfolding run_loop
      runs_out zero turn v s h = refl
      runs_out (suc left) turn v s h =
          let (s', turned) = one_turn left turn v s in
          let (s'', again) =
            retried er turn v (λ v' s3. run_loop fl u out e step left (suc turn) v' s3) s' 0
              (omega arith) (awake v.step_retries s'.world) in
          ap (λ x. x.0) turned
          ∙ ap (λ x. x.0) again
          ∙ runs_out left (suc turn) (record v { step_retries = suc v.step_retries }) s''
              (omega arith)

      -- If every step fails with the same transient error, the context is never done and every
      -- wait ends, then each retry uses up a turn: the loop of a run gives up after the allowed
      -- retries with the error that names them, in the turn of that number; but if the limit on
      -- turns is not above the limit on retries, it returns the partial response of a run out of
      -- turns instead.
      pub run_loop-transient :
          (s : State fl W)
          → (e.max_step_retries < e.max_turns
              → (run_loop fl u out e step e.max_turns 0 start s).0
                ≡ err (wrap_two (turn_text e.max_step_retries) max_step_retries er))
            × (e.max_turns ≤ e.max_step_retries
                → (run_loop fl u out e step e.max_turns 0 start s).0
                  ≡ ok (
                      result_of
                        (partial_response fl u out e [])
                        (txt "max_turns")
                        no_usage
                        e.max_turns))
      run_loop-transient s =
          let first : 0 + e.max_step_retries ≡ e.max_step_retries = omega arith in
          (
            λ lt.
                subst
                  (λ n.
                    (run_loop fl u out e step e.max_turns 0 start s).0
                    ≡ err (wrap_two (turn_text n) max_step_retries er))
                  first (gives_up e.max_step_retries e.max_turns 0 start s first lt),
            λ le. runs_out e.max_turns 0 start s (omega arith),
          )

    module _
        (fails : (turn : ℕ) (s : State fl W)
          → (lr : LoopResult) × ((step turn s).0 ≡ ok lr)
            × (lr.kind ≡ continue)
            × (is_failure_reason lr.reason ≡ true)) where
      failed_turn :
          (left turn : ℕ) (v : Vars) (s : State fl W)
          → (lr : LoopResult) × (s' : State fl W) × (is_failure_reason lr.reason ≡ true)
            × (run_loop fl u out e step (suc left) turn v s
                ≡ by_kind fl u out e continue lr turn
                    (after_success lr v)
                    (λ v' s''. run_loop fl u out e step left (suc turn) v' s'')
                    s')
      unfolding run_loop
      failed_turn left turn v s =
          let s1 = emit_context_status fl u e [] [] 0 s in
          let (lr, h, k, f) = fails (suc turn) s1 in
          let (s', same) =
            after_failure lr (step (suc turn) s1) turn v
              (λ v' s''. run_loop fl u out e step left (suc turn) v' s'') h k in
          (lr, s', f, rw (running s.world) same)

      stops :
          (k left turn : ℕ) (v : Vars) (s : State fl W)
          → v.consecutive_failures ≡ turn
          → suc (turn + k) ≡ e.max_consecutive_failures
          → k < left
          → (r : RunResult) × ((run_loop fl u out e step left turn v s).0 ≡ ok r)
            × (r.reason ≡ txt "max_consecutive_failures")
            × (r.turns ≡ e.max_consecutive_failures)
      unfolding by_kind after_success
      stops k zero turn v s same h lt = absurd (omega arith)
      stops zero (suc left) turn v s same h lt =
          let (lr, s', f, turned) = failed_turn left turn v s in
          let reached =
            le→leb e.max_consecutive_failures (suc v.consecutive_failures) (omega arith) in
          (
            result_of
                (txt "Stopped: "
                  ++ (decimal (suc v.consecutive_failures) ++ txt " consecutive failures"))
                (txt "max_consecutive_failures") (after_success lr v).total_usage (suc turn),
            rw (turned, f, reached),
            refl,
            omega arith,
          )
      stops (suc k) (suc left) turn v s same h lt =
          let (lr, s', f, turned) = failed_turn left turn v s in
          let below =
            leb-false e.max_consecutive_failures (suc v.consecutive_failures) (omega arith) in
          rw (turned, f, below)
            (stops k left (suc turn) _ s' (omega arith) (omega arith) (omega arith))

      -- If every step goes on with a reason that counts as a failure and the context is never
      -- done, then the loop of a run stops in the turn of the limit on consecutive failures, if
      -- this is at least one and at most the limit on turns.
      pub run_loop-failures :
          (s : State fl W)
          → 0 < e.max_consecutive_failures
          → e.max_consecutive_failures ≤ e.max_turns
          → (r : RunResult) × ((run_loop fl u out e step e.max_turns 0 start s).0 ≡ ok r)
            × (r.reason ≡ txt "max_consecutive_failures")
            × (r.turns ≡ e.max_consecutive_failures)
      run_loop-failures s pos le =
          stops (e.max_consecutive_failures - 1) e.max_turns 0 start s refl (omega arith)
            (omega arith)
