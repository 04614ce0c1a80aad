-- ===== src/Engine/Run/History.antt =====
-- What Run of internal/engine/engine.go does to the history: the input, and what the steps add.
use agent_util.Common.{
  ℕ, zero, suc, ◌≡◌, refl, ◌&&◌, inl, inr, Option, none, some, [], Text, txt, text_eq, leb,
  Bool-cases,
}
use agent_util.Common.Floats.{Floats}
use agent_util.Context.Estimate.{Unicode}
use agent_util.Context.Manager.{Manager, add}
use agent_util.Engine.Errors.{
  Error, ErrorClass, transient, user_fixable, llm_recoverable, fatal, classify_error,
}
use agent_util.Engine.Exec.{Result, ok, err, Exec}
use agent_util.Engine.Guard.{GuardDecision, allow, deny, GuardRegistry, run_input}
use agent_util.Engine.State.{
  ResultKind, continue, terminal, LoopResult, RunResult, StepEvent, ContextStatus, Judged, Outside,
  Engine, State, user_message, add_message, notified, emit_context_status,
}
use agent_util.Engine.Run.{
  is_failure_reason, is_terminal, Vars, after_success, by_class, by_kind, judged_step, ask_judge,
  woken, after_step, told_step, run_loop, admitted, guarded_input, run, start_run, start,
}

module _ (fl : Floats) (u : Unicode) {W : Type 0} (out : Outside W) (e : Engine fl W) where
  notified-manager :
      (callback : Option (ContextStatus fl.Float → W → W)) (status : ContextStatus fl.Float)
      (s : State fl W)
      → (notified fl u e callback status s).manager ≡ s.manager
  notified-manager none status s = refl
  notified-manager (some callback) status s = refl

  pub emit_context_status-manager :
      (event last_role : Text) (delta : ℕ) (s : State fl W)
      → (emit_context_status fl u e event last_role delta s).manager ≡ s.manager
  unfolding emit_context_status
  emit_context_status-manager event last_role delta s =
      notified-manager e.context_status_callback _ s

  told_step-manager :
      (callback : Option (StepEvent fl.Float → W → W)) (turn : ℕ) (lr : LoopResult) (s : State fl W)
      → (told_step fl u out e callback turn lr s).manager ≡ s.manager
  told_step-manager none turn lr s = refl
  told_step-manager (some callback) turn lr s = refl

  ask_judge-manager :
      (judge : Option (Text → ℕ → W → Judged × W)) (turn : ℕ) (lr : LoopResult) (s : State fl W)
      → (ask_judge fl u out e judge turn lr s).1.manager ≡ s.manager
  ask_judge-manager none turn lr s = refl
  ask_judge-manager (some judge) turn lr s = refl

  judged_step-manager :
      (turn : ℕ) (lr : LoopResult) (s : State fl W)
      → (judged_step fl u out e turn lr s).1.manager ≡ s.manager
  unfolding judged_step
  judged_step-manager turn lr s =
      elim (Bool-cases (is_terminal lr.kind && text_eq lr.reason (txt "completed"))) [
        | inl asked ↦ rw asked (ask_judge-manager e.goal_judge turn lr s)
        | inr plain ↦ rw plain
      ]

  module _ (P : Manager fl.Float → Type 0) where
    abbrev Rest : Type 0
    Rest = Vars → Exec (State fl W) RunResult

    abbrev AllKeep : Rest → Type 0
    AllKeep rest = (v : Vars) (s : State fl W) → P s.manager → P (rest v s).1.manager

    woken-keeps :
        (v : Vars) (rest : Rest) (slept : Option Error × W) (s : State fl W)
        → AllKeep rest
        → P s.manager
        → P (woken fl u out e v rest slept s).1.manager
    woken-keeps v rest (some er, w) s all p = p
    woken-keeps v rest (none, w) s all p =
        all (record v { step_retries = suc v.step_retries }) (record s { world = w }) p

    by_class-keeps :
        (class : ErrorClass) (er : Error) (turn : ℕ) (v : Vars) (rest : Rest) (s : State fl W)
        → AllKeep rest
        → P s.manager
        → P (by_class fl u out e class er turn v rest s).1.manager
    unfolding by_class
    by_class-keeps transient er turn v rest s all p =
        elim (Bool-cases (leb e.max_step_retries v.step_retries)) [
          | inl over ↦ rw over p
          | inr below ↦
              rw below (woken-keeps v rest (out.sleep_backoff v.step_retries s.world) s all p)
        ]
    by_class-keeps user_fixable er turn v rest s all p = p
    by_class-keeps llm_recoverable er turn v rest s all p = p
    by_class-keeps fatal er turn v rest s all p = p

    by_kind-keeps :
        (kind : ResultKind) (lr : LoopResult) (turn : ℕ) (v : Vars) (rest : Rest) (s : State fl W)
        → AllKeep rest
        → P s.manager
        → P (by_kind fl u out e kind lr turn v rest s).1.manager
    unfolding by_kind
    by_kind-keeps terminal lr turn v rest s all p = p
    by_kind-keeps continue lr turn v rest s all p =
        elim (Bool-cases (is_failure_reason lr.reason)) [
          | inl failed ↦
              elim (Bool-cases (leb e.max_consecutive_failures (suc v.consecutive_failures))) [
                | inl over ↦ rw (failed, over) p
                | inr below ↦
                    rw (failed, below)
                      (all (record v { consecutive_failures = suc v.consecutive_failures }) s p)
              ]
          | inr fine ↦ rw fine (all (record v { consecutive_failures = 0 }) s p)
        ]

    after_step-keeps :
        (r : Result LoopResult × State fl W) (turn : ℕ) (v : Vars) (rest : Rest)
        → AllKeep rest
        → P r.1.manager
        → P (after_step fl u out e r turn v rest).1.manager
    unfolding after_step
    after_step-keeps (err er, s) turn v rest all p =
        by_class-keeps (classify_error er) er turn v rest s all p
    after_step-keeps (ok lr, s) turn v rest all p =
        let told = told_step fl u out e e.step_callback turn lr s in
        let (lr', s') = judged_step fl u out e turn lr told in
        by_kind-keeps lr'.kind lr' turn (after_success lr v) rest s' all
          (rw (judged_step-manager turn lr told, told_step-manager e.step_callback turn lr s) p)

    module _ (step : ℕ → Exec (State fl W) LoopResult)
        (keeps : (turn : ℕ) (s : State fl W) → P s.manager → P (step turn s).1.manager) where
      run_loop-keeps :
          (left turn : ℕ) (v : Vars) (s : State fl W)
          → P s.manager
          → P (run_loop fl u out e step left turn v s).1.manager
      unfolding run_loop
      run_loop-keeps zero turn v s p = p
      run_loop-keeps (suc left) turn v s p = elim (Bool-cases (out.cancelled s.world)) [
        | inl cancelled ↦ rw cancelled p
        | inr running ↦
            let s1 = emit_context_status fl u e [] [] 0 s in
            rw running (
              after_step-keeps (step (suc turn) s1) turn v
                (λ v' s'. run_loop fl u out e step left (suc turn) v' s')
                (λ v' s'. run_loop-keeps left (suc turn) v' s')
                (keeps (suc turn) s1 (rw (emit_context_status-manager [] [] 0 s) p)))
      ]

      module _
          (adds : (m : Manager fl.Float) (input : Text)
            → P m
            → P (add fl u (user_message input) m)) where
        start_run-keeps :
            (input : Text) (s : State fl W)
            → P s.manager
            → P (start_run fl u out e step input s).manager
        unfolding add_message
        start_run-keeps input s p =
            rw
              (emit_context_status-manager (txt "user_added") (txt "user") 0
                (add_message fl u (user_message input) s))
              (adds s.manager input p)

        admitted-keeps :
            (d : GuardDecision) (reason input : Text) (s : State fl W)
            → P s.manager
            → P (admitted fl u out e step d reason input s).1.manager
        admitted-keeps GuardDecision.tripwire reason input s p = p
        admitted-keeps deny reason input s p = p
        admitted-keeps allow reason input s p =
            run_loop-keeps e.max_turns 0 start (start_run fl u out e step input s)
              (start_run-keeps input s p)

        guarded_input-keeps :
            (guards : Option (GuardRegistry W)) (input : Text) (s : State fl W)
            → P s.manager
            → P (guarded_input fl u out e step guards input s).1.manager
        guarded_input-keeps none input s p =
            run_loop-keeps e.max_turns 0 start (start_run fl u out e step input s)
              (start_run-keeps input s p)
        guarded_input-keeps (some guards) input s p =
            let (gr, w) = run_input out.cancelled guards input s.world in
            admitted-keeps gr.decision gr.reason input (record s { world = w }) p

        -- what holds of the manager before, after every step and after every user message holds
        -- after a run
        pub run-keeps :
            (input : Text) (s : State fl W)
            → P s.manager
            → P (run fl u out e step input s).1.manager
        unfolding run
        run-keeps input s p = guarded_input-keeps e.guards input s p
