-- ===== src/AuthUseCase/Login.antt =====
-- `Login` of internal/usecase/auth_usecase.go: who is let in, and what a refusal tells.
use boot_backend_go_clean.Common.{
  ◌≡◌, refl, true, none, some, Option-cases, arith, ◌⊎◌, inl, inr, if◌then◌else◌,
}
use boot_backend_go_clean.Common.Int.{ℤ}
use boot_backend_go_clean.Errors.{err_invalid_credentials, err_user_not_found, Error, fail}
use boot_backend_go_clean.Errors.Chain.{variable, errors_is}
use boot_backend_go_clean.Effect.{Outcome, ok, err, panic, Action, handle, throw}
use boot_backend_go_clean.Entity.{User, TokenPair, LoginRequest, LoginResponse}
use boot_backend_go_clean.Repository.{Context, UserRepository, TxManager, Authenticator, Bcrypt}
use boot_backend_go_clean.AuthUseCase.{internal, login_user, login}

module _ {S A B : Type 0} where
  pub handle-eq-ok :
      (r : Outcome A) (f : A → Action S B) (g : Error → Action S B) (s : S) {b : B}
      → ((e : Error) → (b' : B) → (g e s).0 ≡ ok b' → ⊥)
      → (handle r f g s).0 ≡ ok b
      → (a : A) × (r ≡ ok a) × ((f a s).0 ≡ ok b)
  handle-eq-ok (ok a) f g s never h = (a, refl, h)
  handle-eq-ok (err e) f g s never h = absurd (never e _ h)
  handle-eq-ok (panic m) f g s never h = cc

module _ {S : Type 0} (repo : UserRepository S) (auth : Authenticator S) (tx : TxManager S)
    (bcrypt : Bcrypt S) (lifetime : ℤ) (ctx : Context) (req : LoginRequest) (s : S) where
  missing_fails :
      (e : Error) (b : LoginResponse)
      → ((if errors_is e (variable err_user_not_found)
            then throw (fail err_invalid_credentials)
            else throw (internal e))
          (repo.find_by_username ctx req.username s).1).0
        ≡ ok b
      → ⊥
  missing_fails e b h = ground arith

  login_user_sound :
      (user : User) (s' : S) {resp : LoginResponse}
      → (login_user repo auth tx bcrypt lifetime req user s').0 ≡ ok resp
      → (pair : TokenPair) × ((auth.generate_token_pair user s').0 ≡ ok pair)
        × (resp ≡ record {
          access_token = pair.access_token;
          refresh_token = pair.refresh_token;
          expires_at = pair.expires_at;
          user = user;
        })
        × (bcrypt.compare_hash_and_password user.password req.password ≡ none)
  unfolding login_user
  login_user_sound user s' h =
      elim (Option-cases (bcrypt.compare_hash_and_password user.password req.password)) [
        | inr (e, wrong) ↦ absurd (ground arith)
        | inl right ↦
            let h1 = rw (right, login_user) at h in
            let (pair, made, given) =
              handle-eq-ok (auth.generate_token_pair user s').0 _ _ _
                (λ (e : Error) (b : LoginResponse) (k : err (internal e) ≡ ok b). cc k) h1 in
            (pair, made, ground arith, right)
      ]

  -- Login succeeds only for a user that the repository has under the name of the request, whose
  -- stored hash the password matches, and for whom a pair of tokens was made; it returns this pair
  -- and this user.
  pub login_sound :
      {resp : LoginResponse}
      → (login repo auth tx bcrypt lifetime ctx req s).0 ≡ ok resp
      → (user : User) × (pair : TokenPair) × ((repo.find_by_username ctx req.username s).0
          ≡ ok user)
        × (bcrypt.compare_hash_and_password user.password req.password ≡ none)
        × ((auth.generate_token_pair user (repo.find_by_username ctx req.username s).1).0 ≡ ok pair)
        × (resp ≡ record {
          access_token = pair.access_token;
          refresh_token = pair.refresh_token;
          expires_at = pair.expires_at;
          user = user;
        })
  unfolding login
  login_sound h =
      let (user, found, entered) =
        handle-eq-ok (repo.find_by_username ctx req.username s).0 _ _ _ missing_fails h in
      let (pair, made, same, right) = login_user_sound user _ entered in
      (user, pair, found, right, made, same)

  -- An unknown name and a wrong password end in the same error and leave the state that the lookup
  -- has left: no token is made.
  pub login_refuses_alike :
      (((e : Error) × ((repo.find_by_username ctx req.username s).0 ≡ err e)
          × (errors_is e (variable err_user_not_found) ≡ true))
        ⊎ ((user : User) × (e : Error) × ((repo.find_by_username ctx req.username s).0 ≡ ok user)
            × (bcrypt.compare_hash_and_password user.password req.password ≡ some e)))
      → login repo auth tx bcrypt lifetime ctx req s
        ≡ (err (fail err_invalid_credentials), (repo.find_by_username ctx req.username s).1)
  unfolding login
  login_refuses_alike (inl (e, found, missing)) = rw (found, missing)
  login_refuses_alike (inr (user, e, found, wrong)) = rw (found, login_user, wrong)
