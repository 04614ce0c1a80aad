-- ===== src/Rpc/Server/Schedule.antt =====
-- Statements about an outcome of the channels, and about an element that a schedule chooses.
use agent_util.Common.{
  ℕ, zero, suc, Bool, true, false, Option, none, some, List, [], ◌∷◌, if◌then◌else◌, All,
}
use agent_util.Rpc.Pending.{Outcome, done, blocks, panics}
use agent_util.Rpc.Server.{pick}

module _ {A : Type 0} (P : A → Type 0) where
  abbrev pub Picked : Option (A × List A) → Type 0
  Picked none = Unit
  Picked (some (x, rest)) = P x × All P rest

  Picked-cons :
      (y : A) (o : Option (A × List A))
      → P y
      → Picked o
      → Picked (elim o [ none ↦ none | some (z, zs) ↦ some (z, y ∷ zs) ])
  Picked-cons y none p h = tt
  Picked-cons y (some (z, zs)) p h = (h.0, (p, h.1))

  pub pick-Picked : (n : ℕ) (xs : List A) → All P xs → Picked (pick n xs)
  unfolding pick
  pick-Picked n [] h = tt
  pick-Picked zero (y ∷ ys) h = h
  pick-Picked (suc n) (y ∷ ys) h = Picked-cons y (pick n ys) h.0 (pick-Picked n ys h.1)

abbrev pub Then : {A : Type 0} → (A → Type 0) → Outcome A → Type 0
Then P (done a) = P a
Then P blocks = Unit
Then P panics = Unit

pub Then-if :
    {A : Type 0} (P : A → Type 0) (b : Bool) (x y : Outcome A)
    → Then P x
    → Then P y
    → Then P (if b then x else y)
Then-if P true x y h k = h
Then-if P false x y h k = k

pub Then-bind :
    {A B : Type 0} (P : A → Type 0) (Q : B → Type 0) (k : A → Outcome B) (o : Outcome A)
    → Then P o
    → ((a : A) → P a → Then Q (k a))
    → Then Q (elim o [ done a ↦ k a | blocks ↦ blocks | panics ↦ panics ])
Then-bind P Q k (done a) h f = f a h
Then-bind P Q k blocks h f = tt
Then-bind P Q k panics h f = tt
