-- ===== src/Engine/Guard/Laws.antt =====
-- runGuards of internal/engine/guard_registry.go against a relation that says when a list of
-- guards lets an input pass.
use agent_util.Common.{
  ◌≡◌, refl, Bool, false, ◌↔◌, inl, inr, List, [], ◌∷◌, ◌++◌, arith, Text, Bool-cases,
}
use agent_util.Engine.Guard.{
  allow, GuardResult, Checked, checked, broken, Guard, bare, after_check, run_guards,
}

abbrev pub LetsPass : Checked → Type 0
LetsPass (broken e) = Unit {0}
LetsPass (checked r) = r.decision ≡ allow

module _ {W I : Type 0} (cancelled : W → Bool) (input : I) where
  -- the guards are asked in order, none while the context is done, and each allows or is broken
  pub data Passing : List (Guard W I) → W → W → Type 0 where
    at_end : {w : W} → Passing [] w w
    past :
        {g : Guard W I} {gs : List (Guard W I)} {w w' : W}
        → cancelled w ≡ false
        → LetsPass (g.check input w).0
        → Passing gs (g.check input w).1 w'
        → Passing (g ∷ gs) w w'

  module _ (all_passed : Text) where
    allowed_check :
        (c : Checked × W) (rest : W → GuardResult × W)
        → (after_check cancelled input all_passed c rest).0.decision ≡ allow
        → LetsPass c.0
          × ((rest c.1).0.decision ≡ allow)
          × (after_check cancelled input all_passed c rest ≡ rest c.1)
    allowed_check (broken e, w) rest h = (tt, h, refl)
    allowed_check (checked r, w) rest h = ground arith

    passed_check :
        (c : Checked × W) (rest : W → GuardResult × W)
        → LetsPass c.0
        → after_check cancelled input all_passed c rest ≡ rest c.1
    passed_check (broken e, w) rest h = refl
    passed_check (checked r, w) rest h = ground arith

    run_guards-Passing :
        (gs : List (Guard W I)) (w : W)
        → (run_guards cancelled input all_passed gs w).0.decision ≡ allow
        → Passing gs w (run_guards cancelled input all_passed gs w).1
    unfolding run_guards
    run_guards-Passing [] w h = at_end
    run_guards-Passing (g ∷ gs) w h = elim (Bool-cases (cancelled w)) [
      | inl stop ↦ cc
      | inr go ↦
          let rest = λ (w' : W). run_guards cancelled input all_passed gs w' in
          let h' : (after_check cancelled input all_passed (g.check input w) rest).0.decision
              ≡ allow =
            rw go at h in
          let (passes, more, same) = allowed_check (g.check input w) rest h' in
          rw go (rw same (past go passes (run_guards-Passing gs (g.check input w).1 more)))
    ]

    Passing-run_guards :
        (gs : List (Guard W I)) {w w' : W}
        → Passing gs w w'
        → (run_guards cancelled input all_passed gs w).0 ≡ bare allow all_passed
    unfolding run_guards
    Passing-run_guards [] at_end = refl
    Passing-run_guards (g ∷ gs) {w} (past go passes more) =
        let rest = λ (w' : W). run_guards cancelled input all_passed gs w' in
        rw go (rw (passed_check (g.check input w) rest passes) (Passing-run_guards gs more))

    -- A list of guards allows an input exactly if each guard, asked in order while the context is
    -- not done, allows it or has an error of its own.
    pub run_guards_allow_iff :
        (gs : List (Guard W I)) (w : W)
        → ((run_guards cancelled input all_passed gs w).0.decision ≡ allow)
          ↔ ((w' : W) × Passing gs w w')
    run_guards_allow_iff gs w =
        (λ h. (_, run_guards-Passing gs w h), λ p. rw (Passing-run_guards gs p.1))

  -- a guard of a list that lets an input pass was asked in some world, and let it pass
  pub Passing-LetsPass :
      (before : List (Guard W I)) (g : Guard W I) (after : List (Guard W I)) {w w' : W}
      → Passing (before ++ (g ∷ after)) w w'
      → (asked : W) × LetsPass (g.check input asked).0
  Passing-LetsPass [] g after {w} (past go passes more) = (w, passes)
  Passing-LetsPass (b ∷ before) g after (past go passes more) = Passing-LetsPass before g after more
