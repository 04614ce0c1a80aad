-- ===== src/Engine/Guard.antt =====
-- internal/engine/guard.go, guard_registry.go and tripwire.go. A guard may use the outside world
-- `W`; `cancelled` reads whether the context is done. Log lines are not modelled.
pub mod Laws
use agent_util.Common.{
  ℕ, ◌≡◌, ◌≢◌, refl, Bool, true, false, ◌||◌, ◌⊎◌, inl, inr, List, [], ◌∷◌, ◌++◌, arith, Text, txt,
  ltb, if◌then◌else◌, length, ◌↔◌, map, Bool-cases, ap,
}

pub data GuardDecision : Type 0 where
  allow deny tripwire : GuardDecision

pub record GuardResult : Type 0 where
  pub decision : GuardDecision
  pub reason : Text
  pub details : List Text

-- what a check returns: a result, or the error of the guard itself
pub data Checked : Type 0 where
  checked : GuardResult → Checked
  broken : Text → Checked

pub record Guard (W I : Type 0) : Type 0 where
  pub name : Text
  pub check : I → W → Checked × W

abbrev pub bare : GuardDecision → Text → GuardResult
bare decision reason = record { decision = decision; reason = reason; details = [] }

module _ {W I : Type 0} (cancelled : W → Bool) (input : I) (all_passed : Text) where
  -- what the loop does with the answer of one guard, given the rest of the loop
  abbrev after_check : Checked × W → (W → GuardResult × W) → GuardResult × W
  after_check (broken e, w) rest = rest w
  after_check (checked r, w) rest = elim r.decision [ allow ↦ rest w | _ ↦ (r, w) ]

  -- runGuards
  unfoldable pub run_guards : List (Guard W I) → W → GuardResult × W
  run_guards [] w = (bare allow all_passed, w)
  run_guards (g ∷ gs) w =
      let rest = λ (w' : W). run_guards gs w' in
      if cancelled w
      then (bare deny (txt "guard canceled"), w)
      else after_check (g.check input w) rest

-- GuardRegistry
pub record GuardRegistry (W : Type 0) : Type 0 where
  pub input_guards : List (Guard W Text)
  pub tool_call_guards : List (Guard W (Text × Text))
  pub output_guards : List (Guard W Text)

module _ {W : Type 0} where
  abbrev pub new_guard_registry : GuardRegistry W
  new_guard_registry = record { input_guards = []; tool_call_guards = []; output_guards = [] }

  unfoldable pub add_input : Guard W Text → GuardRegistry W → GuardRegistry W
  add_input g r = record r { input_guards = r.input_guards ++ (g ∷ []) }

  unfoldable pub add_tool_call : Guard W (Text × Text) → GuardRegistry W → GuardRegistry W
  add_tool_call g r = record r { tool_call_guards = r.tool_call_guards ++ (g ∷ []) }

  unfoldable pub add_output : Guard W Text → GuardRegistry W → GuardRegistry W
  add_output g r = record r { output_guards = r.output_guards ++ (g ∷ []) }

  unfoldable pub has_guards : GuardRegistry W → Bool
  has_guards r =
      ltb 0 (length r.input_guards)
      || ltb 0 (length r.tool_call_guards)
      || ltb 0 (length r.output_guards)

  module _ (cancelled : W → Bool) (r : GuardRegistry W) where
    unfoldable pub run_input : Text → W → GuardResult × W
    run_input input = run_guards cancelled input (txt "all input guards passed") r.input_guards

    unfoldable pub run_tool_call : Text → Text → W → GuardResult × W
    run_tool_call tool_name args =
        run_guards cancelled (tool_name, args) (txt "all tool call guards passed")
          r.tool_call_guards

    unfoldable pub run_output : Text → W → GuardResult × W
    run_output output = run_guards cancelled output (txt "all output guards passed") r.output_guards
