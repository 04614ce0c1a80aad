-- ===== src/Engine/Exec.antt =====
-- Go methods that change an object and may return an error: what was written before the error
-- stays written, so that the state comes back beside it.
use agent_util.Engine.Errors.{Error}

pub data Result {ℓ} (A : Type ℓ) : Type ℓ where
  ok : A → Result A
  err : Error → Result A

abbrev pub Exec {ℓ} : Type ℓ → Type ℓ → Type ℓ
Exec S A = S → Result A × S

module _ {ℓ} {S A : Type ℓ} where
  abbrev pub pure : A → Exec S A
  pure a s = (ok a, s)

  abbrev pub raise : Error → Exec S A
  raise e s = (err e, s)

  abbrev pub from_result : Result A → Exec S A
  from_result r s = (r, s)

  abbrev pub gets : (S → A) → Exec S A
  gets f s = (ok (f s), s)

abbrev pub modify_state {ℓ} : {S : Type ℓ} → (S → S) → S → Result (Unit {ℓ}) × S
modify_state f s = (ok tt, f s)

module _ {ℓ} {S A B : Type ℓ} where
  abbrev pub bind_result : Result A → (A → Exec S B) → Exec S B
  bind_result (ok a) f s = f a s
  bind_result (err e) f s = (err e, s)

  infixl 10 ◌>>=◌ ◌>>◌
  abbrev pub ◌>>=◌ : Exec S A → (A → Exec S B) → Exec S B
  ◌>>=◌ m f s = let (r, s') = m s in bind_result r f s'

  abbrev pub ◌>>◌ : Exec S A → Exec S B → Exec S B
  m >> n = m >>= λ _. n

module _ {ℓ} {A : Type ℓ} where
  -- `if err != nil { return fmt.Errorf("…: %w", err) }`
  abbrev pub map_error : (Error → Error) → Result A → Result A
  map_error f (ok a) = ok a
  map_error f (err e) = err (f e)

module _ {ℓ} {S A : Type ℓ} where
  abbrev pub wrapping : (Error → Error) → Exec S A → Exec S A
  wrapping f m s = let (r, s') = m s in (map_error f r, s')
