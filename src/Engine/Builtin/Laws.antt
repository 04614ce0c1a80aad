-- ===== src/Engine/Builtin/Laws.antt =====
-- internal/engine/builtin/guards.go with chatStep: what the guard of secrets keeps in.
use agent_util.Common.{
  ℕ, ◌≡◌, refl, subst, false, Bool-cases, inl, inr, ◌⊎◌, none, some, List, [], ◌∷◌, ◌++◌, Text, txt,
  keep_if, All,
}
use agent_util.Common.Floats.{Floats}
use agent_util.Llm.Message.{Message, Usage, Choice, ChatResponse, content_string}
use agent_util.Context.Estimate.{Unicode}
use agent_util.Engine.Errors.{wrap}
use agent_util.Engine.Exec.{Result, ok, err, bind_result, map_error}
use agent_util.Engine.Guard.{
  GuardDecision, allow, deny, GuardResult, Guard, GuardRegistry, checked, run_guards, run_output,
}
use agent_util.Engine.Guard
use agent_util.Engine.Guard.Laws.{Passing-LetsPass, run_guards_allow_iff}
use agent_util.Engine.State.{LoopResult, Outside, Engine, State, build_messages}
use agent_util.Engine.Step.{
  completed, safe_message, complete, by_output_guard, guarded_output, answered, chat_step,
}
use agent_util.Engine.Builtin
use agent_util.Engine.Builtin.{Std, secret_patterns, secret_leak_guard, check_secret_leak}

module _ (std : Std) where
  abbrev pub HasNoSecret : Text → Type 0
  HasNoSecret text = All (λ (p : Text). std.matches p text ≡ false) secret_patterns

  kept_none :
      (text : Text) (ps : List Text)
      → keep_if (λ (p : Text). std.matches p text) ps ≡ []
      → All (λ (p : Text). std.matches p text ≡ false) ps
  unfolding keep_if
  kept_none text [] e = tt
  kept_none text (p ∷ ps) e = elim (Bool-cases (std.matches p text)) [
    | inl hit ↦ cc (rw hit at e)
    | inr miss ↦ (miss, kept_none text ps (rw miss at e))
  ]

  check_secret_leak-HasNoSecret :
      (text : Text) → (check_secret_leak std text).decision ≡ allow → HasNoSecret text
  unfolding check_secret_leak
  check_secret_leak-HasNoSecret text h =
      kept_none text secret_patterns
        (none_leaked (keep_if (λ (p : Text). std.matches p text) secret_patterns) h)
    where
      none_leaked : (ps : List Text) → (Builtin.leaked std ps).decision ≡ allow → ps ≡ []
      none_leaked [] k = refl
      none_leaked (p ∷ ps) k = cc

  module _ (fl : Floats) (u : Unicode) {W : Type 0} (out : Outside W) (e : Engine fl W)
      (guards : GuardRegistry W) (before after : List (Guard W Text)) where
    abbrev pub IsGuarded : Type 0
    IsGuarded =
        (e.guards ≡ some guards)
        × (guards.output_guards ≡ before ++ (secret_leak_guard std ∷ after))

    -- the message of the result holds no secret, or is the safe message
    abbrev pub IsClean : LoopResult → Type 0
    IsClean lr = HasNoSecret (content_string lr.message) ⊎ (lr.message ≡ safe_message)

    run_output-HasNoSecret :
        (text : Text) (w : W)
        → guards.output_guards ≡ before ++ (secret_leak_guard std ∷ after)
        → (run_output out.cancelled guards text w).0.decision ≡ allow
        → HasNoSecret text
    unfolding run_output
    run_output-HasNoSecret text w g h =
        let passed = (run_guards_allow_iff out.cancelled text _ _ w).0 (rw g at h) in
        check_secret_leak-HasNoSecret text
          (Passing-LetsPass out.cancelled text before (secret_leak_guard std) after passed.1).1

    by_output_guard-IsClean :
        (d : GuardDecision) (reason : Text) (msg : Message) (usage : Usage) (s s' : State fl W)
        (lr : LoopResult)
        → (d ≡ allow → HasNoSecret (content_string msg))
        → by_output_guard fl u out e d reason msg usage s ≡ (ok lr, s')
        → IsClean lr
    by_output_guard-IsClean allow reason msg usage s s' lr h r =
        let same : completed (txt "completed") msg usage ≡ lr = cc in
        subst IsClean same (inl (h refl))
    by_output_guard-IsClean deny reason msg usage s s' lr h r =
        let same : completed (txt "output_blocked") safe_message usage ≡ lr = cc in
        subst IsClean same (inr refl)
    by_output_guard-IsClean Guard.tripwire reason msg usage s s' lr h r = cc

    guarded_output-IsClean :
        (msg : Message) (usage : Usage) (s s' : State fl W) (lr : LoopResult)
        → guards.output_guards ≡ before ++ (secret_leak_guard std ∷ after)
        → guarded_output fl u out e (some guards) msg usage s ≡ (ok lr, s')
        → IsClean lr
    guarded_output-IsClean msg usage s s' lr g r =
        by_output_guard-IsClean _ _ msg usage _ s' lr
          (run_output-HasNoSecret (content_string msg) s.world g) r

    answered-IsClean :
        (choices : List Choice) (usage : Usage) (s s' : State fl W) (lr : LoopResult)
        → IsGuarded
        → answered fl u out e choices usage s ≡ (ok lr, s')
        → IsClean lr
    answered-IsClean [] usage s s' lr g r = cc
    answered-IsClean (choice ∷ choices) usage s s' lr (there, g) r =
        guarded_output-IsClean choice.message usage s s' lr g (rw there at r)

    -- Let the guard secret_leak stand anywhere among the output guards of an engine. Then a chat step
    -- that succeeds returns a message in which none of the guard's patterns matches, or the message
    -- that stands in for a blocked one.
    pub chat_step-IsClean :
        (turn : ℕ) (s s' : State fl W) (lr : LoopResult)
        → e.guards ≡ some guards
        → guards.output_guards ≡ before ++ (secret_leak_guard std ∷ after)
        → chat_step fl u out e turn s ≡ (ok lr, s')
        → IsClean lr
    unfolding chat_step
    chat_step-IsClean turn s s' lr there g r =
        after_reply
          (complete fl u out e (record { messages = build_messages fl u e s; json_mode = none })
            turn s)
          r
      where
        after_reply :
            (c : Result ChatResponse × State fl W)
            → bind_result
                (map_error (wrap (txt "chat completion")) c.0)
                (λ resp. answered fl u out e resp.choices resp.usage)
                c.1
              ≡ (ok lr, s')
            → IsClean lr
        after_reply (err er, t) k = cc
        after_reply (ok resp, t) k = answered-IsClean resp.choices resp.usage t s' lr (there, g) k
