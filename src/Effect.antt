-- ===== src/Effect.antt =====
-- Go functions that return `(value, error)`, may panic, and act on shared state.
--
-- An action gives its outcome and the state that it leaves, beside an error or a panic too: what
-- was written before an early `return nil, err` stays written.
use boot_backend_go_clean.Common.{String, ◌≡◌, refl}
use boot_backend_go_clean.Errors.{Error}

pub data Outcome {ℓ} (A : Type ℓ) : Type ℓ where
  ok : A → Outcome A
  err : Error → Outcome A
  panic : String → Outcome A

abbrev pub Action : Type 0 → Type 0 → Type 0
Action S A = S → Outcome A × S

module _ {S A : Type 0} where
  abbrev pub pure : A → Action S A
  pure a s = (ok a, s)

  abbrev pub throw : Error → Action S A
  throw e s = (err e, s)

  abbrev pub lift : Outcome A → Action S A
  lift r s = (r, s)

module _ {S A B : Type 0} where
  abbrev pub continue : Outcome A → (A → Action S B) → Action S B
  continue (ok a) f s = f a s
  continue (err e) f s = (err e, s)
  continue (panic m) f s = (panic m, s)

  -- The caller looks at the error itself: `v, err := m; if err != nil { … }`.
  abbrev pub handle : Outcome A → (A → Action S B) → (Error → Action S B) → Action S B
  handle (ok a) f g s = f a s
  handle (err e) f g s = g e s
  handle (panic m) f g s = (panic m, s)

  infixl 5 ◌>>=◌ ◌>>◌
  abbrev pub ◌>>=◌ : Action S A → (A → Action S B) → Action S B
  ◌>>=◌ m f s = continue (m s).0 f (m s).1

  abbrev pub ◌>>◌ : Action S A → Action S B → Action S B
  ◌>>◌ m k s = continue (m s).0 (λ _. k) (m s).1

  abbrev pub catch : Action S A → (A → Action S B) → (Error → Action S B) → Action S B
  catch m f g s = handle (m s).0 f g (m s).1

module _ {S A B : Type 0} where
  -- Inversion of a step that has succeeded.
  pub continue-eq-ok :
      (r : Outcome A) (f : A → Action S B) (s : S) {b : B}
      → (continue r f s).0 ≡ ok b
      → (a : A) × (r ≡ ok a) × ((f a s).0 ≡ ok b)
  continue-eq-ok (ok a) f s h = (a, refl, h)
  continue-eq-ok (err e) f s h = cc
  continue-eq-ok (panic m) f s h = cc

-- To split on the outcome of a step and keep the equation.
pub data IsOutcome {A : Type 0} (r : Outcome A) : Type 0 where
  was_ok : (a : A) → r ≡ ok a → IsOutcome r
  was_err : (e : Error) → r ≡ err e → IsOutcome r
  was_panic : (m : String) → r ≡ panic m → IsOutcome r

pub Outcome-cases : {A : Type 0} (r : Outcome A) → IsOutcome r
Outcome-cases (ok a) = was_ok a refl
Outcome-cases (err e) = was_err e refl
Outcome-cases (panic m) = was_panic m refl
