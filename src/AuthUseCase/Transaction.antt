-- ===== src/AuthUseCase/Transaction.antt =====
-- What the use cases rely on of a `TxManager`, as documented in internal/domain/repository/tx.go:
-- the callback runs in one transaction, which is committed if the callback returns nil and rolled
-- back if it returns an error or panics. `view` is what of the state is stored in the database.
use boot_backend_go_clean.Common.{String, ◌≡◌, Bool, true, false, if◌then◌else◌}
use boot_backend_go_clean.Common.Int.{ℤ}
use boot_backend_go_clean.Common.Text.{Text}
use boot_backend_go_clean.Errors.{Error}
use boot_backend_go_clean.Effect.{Outcome, ok, err, panic, Action, continue, handle, catch, ◌>>◌}
use boot_backend_go_clean.Entity.{User}
use boot_backend_go_clean.Repository.{Context, UserRepository, TxManager}

-- An action all of whose calls of the repository are given this context.
pub data IsWithin {S : Type 0} (repo : UserRepository S) (ctx : Context)
    : (A : Type 0) → Action S A → Type 1 where
  returns : {A : Type 0} (r : Outcome A) → IsWithin repo ctx A (λ s. (r, s))
  creates : (user : User) → IsWithin repo ctx User (repo.create ctx user)
  finds_by_id : (id : ℤ) → IsWithin repo ctx User (repo.find_by_id ctx id)
  finds_by_username : (name : Text) → IsWithin repo ctx User (repo.find_by_username ctx name)
  finds_by_email : (email : Text) → IsWithin repo ctx User (repo.find_by_email ctx email)
  updates : (user : User) → IsWithin repo ctx Unit (repo.update ctx user)
  soft_deletes : (id : ℤ) → IsWithin repo ctx Unit (repo.soft_delete ctx id)
  goes_on :
      {A B : Type 0} {m : Action S A} (k : Outcome A → Action S B)
      → IsWithin repo ctx A m
      → ((r : Outcome A) → IsWithin repo ctx B (k r))
      → IsWithin repo ctx B (λ s. k (m s).0 (m s).1)

module _ {S : Type 0} {repo : UserRepository S} {ctx : Context} where
  pub seq-IsWithin :
      {A B : Type 0} (m : Action S A) (k : Action S B)
      → IsWithin repo ctx A m
      → IsWithin repo ctx B k
      → IsWithin repo ctx B (m >> k)
  seq-IsWithin {A} {B} m k h h' = goes_on (λ r. continue r (λ _. k)) h rest
    where
      rest : (r : Outcome A) → IsWithin repo ctx B (continue {S = S} r (λ _. k))
      rest (ok a) = h'
      rest (err e) = returns (err e)
      rest (panic m) = returns (panic m)

  pub catch-IsWithin :
      {A B : Type 0} (m : Action S A) (f : A → Action S B) (g : Error → Action S B)
      → IsWithin repo ctx A m
      → ((a : A) → IsWithin repo ctx B (f a))
      → ((e : Error) → IsWithin repo ctx B (g e))
      → IsWithin repo ctx B (catch m f g)
  catch-IsWithin {A} {B} m f g h hf hg = goes_on (λ r. handle r f g) h rest
    where
      rest : (r : Outcome A) → IsWithin repo ctx B (handle r f g)
      rest (ok a) = hf a
      rest (err e) = hg e
      rest (panic m) = returns (panic m)

  pub if-IsWithin :
      {A : Type 0} (b : Bool) (m k : Action S A)
      → IsWithin repo ctx A m
      → IsWithin repo ctx A k
      → IsWithin repo ctx A (if b then m else k)
  if-IsWithin true m k h h' = h
  if-IsWithin false m k h h' = h'

-- What is rolled back is what the callback has done through the context that it is given.
pub record IsAtomic {S D : Type 0} (view : S → D) (repo : UserRepository S) (tx : TxManager S)
    : Type 1 where
  -- The context that carries the transaction.
  pub in_tx : Context → Context
  pub commits :
      (ctx : Context) (fn : Context → Action S User) (s : S) {u : User}
      → (tx.with_tx ctx fn s).0 ≡ ok u
      → fn (in_tx ctx) s ≡ tx.with_tx ctx fn s
  pub rolls_back :
      (ctx : Context) (fn : Context → Action S User) (s : S) {e : Error}
      → IsWithin repo (in_tx ctx) User (fn (in_tx ctx))
      → (tx.with_tx ctx fn s).0 ≡ err e
      → view (tx.with_tx ctx fn s).1 ≡ view s
  pub rolls_back_panic :
      (ctx : Context) (fn : Context → Action S User) (s : S) {m : String}
      → IsWithin repo (in_tx ctx) User (fn (in_tx ctx))
      → (tx.with_tx ctx fn s).0 ≡ panic m
      → view (tx.with_tx ctx fn s).1 ≡ view s
