-- ===== src/Engine/Run/Input.antt =====
-- The input guards of Run in internal/engine/engine.go.
use agent_util.Common.{ℕ, ◌≡◌, refl, Option, none, some, Text, txt}
use agent_util.Common.Floats.{Floats}
use agent_util.Llm.Message.{no_usage}
use agent_util.Context.Estimate.{Unicode}
use agent_util.Engine.Errors.{tripwire}
use agent_util.Engine.Exec.{Result, ok, err, Exec}
use agent_util.Engine.Guard.{GuardDecision, allow, deny, GuardRegistry, run_input}
use agent_util.Engine.Guard.Laws.{Passing, run_guards_allow_iff}
use agent_util.Engine.State.{LoopResult, RunResult, Outside, Engine, State}
use agent_util.Engine.Run.{admitted, guarded_input, run}

module _ (fl : Floats) (u : Unicode) {W : Type 0} (out : Outside W) (e : Engine fl W) where
  -- a denied input, or a tripwire
  abbrev pub IsRefused : Result RunResult → Type 0
  IsRefused (ok r) = (r.reason ≡ txt "input_denied") × (r.turns ≡ 0) × (r.usage ≡ no_usage)
  IsRefused (err er) = (reason : Text) × (er ≡ tripwire (txt "input") reason)

  module _ (step : ℕ → Exec (State fl W) LoopResult) where
    admitted-IsRefused :
        (d : GuardDecision) (reason input : Text) (s : State fl W)
        → (d ≡ allow → ⊥)
        → IsRefused (admitted fl u out e step d reason input s).0
          × ((admitted fl u out e step d reason input s).1 ≡ s)
    admitted-IsRefused GuardDecision.tripwire reason input s n = ((reason, refl), refl)
    admitted-IsRefused deny reason input s n = ((refl, refl, refl), refl)
    admitted-IsRefused allow reason input s n = absurd (n refl)

    guarded_input-IsRefused :
        (guards : Option (GuardRegistry W)) (gs : GuardRegistry W) (input : Text) (s : State fl W)
        → guards ≡ some gs
        → ((w : W) × Passing out.cancelled input gs.input_guards s.world w → ⊥)
        → IsRefused (guarded_input fl u out e step guards input s).0
          × ((guarded_input fl u out e step guards input s).1
              ≡ record s { world = (run_input out.cancelled gs input s.world).1 })
    unfolding run_input
    guarded_input-IsRefused none gs input s h n = cc
    guarded_input-IsRefused (some gs') gs input s h n =
        let same : gs' ≡ gs = cc in
        let (gr, w) = run_input out.cancelled gs input s.world in
        rw same (
          admitted-IsRefused gr.decision gr.reason input (record s { world = w })
            (λ a. n (
              (run_guards_allow_iff out.cancelled input (txt "all input guards passed")
                  gs.input_guards s.world).0
                a)))

    -- If the input guards do not let an input pass, a run ends before its first turn, as denied or
    -- with the error of a tripwire, and changes nothing but what the guards did to the world.
    pub run-IsRefused :
        (gs : GuardRegistry W) (input : Text) (s : State fl W)
        → e.guards ≡ some gs
        → ((w : W) × Passing out.cancelled input gs.input_guards s.world w → ⊥)
        → IsRefused (run fl u out e step input s).0
          × ((run fl u out e step input s).1
              ≡ record s { world = (run_input out.cancelled gs input s.world).1 })
    unfolding run
    run-IsRefused gs input s h n = guarded_input-IsRefused e.guards gs input s h n
