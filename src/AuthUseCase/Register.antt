-- ===== src/AuthUseCase/Register.antt =====
-- `Register` of internal/usecase/auth_usecase.go: its steps in order, and
-- what becomes of the database.
use boot_backend_go_clean.Common.{
  ◌≡◌, ◌≢◌, refl, ap, ◌∙◌, true, Option, none, some, arith, inl, inr, if◌then◌else◌,
}
use boot_backend_go_clean.Common.Int.{ℤ}
use boot_backend_go_clean.Common.Text.{Text}
use boot_backend_go_clean.Errors.{
  err_username_exists, err_email_exists, err_user_not_found, err_validation_failed, Error, app,
  sentinel, fail, with_message, error_text,
}
use boot_backend_go_clean.Errors.Chain.{variable, errors_is}
use boot_backend_go_clean.Effect.{
  Outcome, ok, err, panic, Action, pure, throw, continue, handle, continue-eq-ok, ◌>>=◌,
  Outcome-cases, was_ok, was_err, was_panic,
}
use boot_backend_go_clean.Entity.{User, RegisterRequest, RegisterResponse}
use boot_backend_go_clean.Validation.{validate, normalize_email}
use boot_backend_go_clean.Validation.Laws.{IsAcceptable, validate-cases}
use boot_backend_go_clean.Repository.{Context, UserRepository, TxManager, Authenticator, Bcrypt}
use boot_backend_go_clean.AuthUseCase.{
  internal, new_user, ensure_absent, create_unless_taken, register_valid, register_validated,
  register,
}
use boot_backend_go_clean.AuthUseCase.Login.{handle-eq-ok}
use boot_backend_go_clean.AuthUseCase.Transaction.{
  IsAtomic, IsWithin, returns, creates, finds_by_username, finds_by_email, seq-IsWithin,
  catch-IsWithin, if-IsWithin,
}

-- A lookup says that there is no such user.
abbrev pub FindsNobody : {S : Type 0} → Action S User → S → Type 0
FindsNobody find s =
    (e : Error) × ((find s).0 ≡ err e) × (errors_is e (variable err_user_not_found) ≡ true)

-- The tests after a lookup whose outcome is `r`.
module _ {S : Type 0} (taken : Error) where
  settled :
      (r : Outcome User) (s : S) {u : Unit {0}}
      → (handle r
          (λ existing. throw taken)
          (λ e. if errors_is e (variable err_user_not_found) then pure tt else throw (internal e))
          s).0
        ≡ ok u
      → (e : Error) × (r ≡ err e) × (errors_is e (variable err_user_not_found) ≡ true)
  settled (ok u) s h = cc
  settled (panic m) s h = cc
  settled (err e) s h = (e, refl, ground arith)

  ensure_absent-ok :
      (find : Action S User) (s : S) {u : Unit {0}}
      → (ensure_absent find taken s).0 ≡ ok u
      → FindsNobody find s × (ensure_absent find taken s ≡ (ok tt, (find s).1))
  unfolding ensure_absent
  ensure_absent-ok find s h =
      let (e, missing, is_missing) = settled (find s).0 (find s).1 h in
      ((e, missing, is_missing), rw (missing, is_missing))

ensure_absent-IsWithin :
    {S : Type 0} {repo : UserRepository S} {ctx : Context} (find : Action S User) (taken : Error)
    → IsWithin repo ctx User find
    → IsWithin repo ctx Unit (ensure_absent find taken)
unfolding ensure_absent
ensure_absent-IsWithin find taken h =
    catch-IsWithin find _ _ h (λ existing. returns (err taken))
      (λ e.
        if-IsWithin (errors_is e (variable err_user_not_found)) _ _ (returns (ok tt))
          (returns (err (internal e))))

-- The callback of Register calls the repository with the context that it is given, and with no
-- other.
create_unless_taken-IsWithin :
    {S : Type 0} (repo : UserRepository S) (auth : Authenticator S) (tx : TxManager S)
    (bcrypt : Bcrypt S) (lifetime : ℤ) (req : RegisterRequest) (user : User) (ctx : Context)
    → IsWithin repo ctx User (create_unless_taken repo auth tx bcrypt lifetime req user ctx)
unfolding create_unless_taken
create_unless_taken-IsWithin repo auth tx bcrypt lifetime req user ctx =
    seq-IsWithin _ _ (ensure_absent-IsWithin _ _ (finds_by_username req.username))
      (seq-IsWithin _ _ (ensure_absent-IsWithin _ _ (finds_by_email req.email)) (creates user))

returned :
    {S : Type 0} (r : Outcome User) (s : S) {resp : RegisterResponse}
    → (continue r (λ (created : User). pure (record { user = created })) s).0 ≡ ok resp
    → ◌≡◌ {A = Outcome User × S}
        (r, s)
        (
          ok resp.user,
          (continue {B = RegisterResponse} r (λ created. pure (record { user = created })) s).1,
        )
returned (ok u) s h = ground arith
returned (err e) s h = cc
returned (panic m) s h = cc

module _ {S D : Type 0} (view : S → D) (repo : UserRepository S) (auth : Authenticator S)
    (tx : TxManager S) (bcrypt : Bcrypt S) (lifetime : ℤ) (atomic : IsAtomic view repo tx) where
  create_unless_taken-ok :
      (req : RegisterRequest) (user : User) (ctx : Context) (s : S) {u : User}
      → (create_unless_taken repo auth tx bcrypt lifetime req user ctx s).0 ≡ ok u
      → let s1 = (repo.find_by_username ctx req.username s).1 in
        let s2 = (repo.find_by_email ctx req.email s1).1 in
        FindsNobody (repo.find_by_username ctx req.username) s
        × FindsNobody (repo.find_by_email ctx req.email) s1
        × (create_unless_taken repo auth tx bcrypt lifetime req user ctx s
            ≡ repo.create ctx user s2)
  unfolding create_unless_taken
  create_unless_taken-ok req user ctx s h =
      let (_, absent_name, h1) = continue-eq-ok _ _ _ h in
      let (nobody, step) =
        ensure_absent-ok (fail err_username_exists) (repo.find_by_username ctx req.username) s
          absent_name in
      let h2 = rw step at h1 in
      let (_, absent_email, h3) = continue-eq-ok _ _ _ h2 in
      let (nobody', step') =
        ensure_absent-ok (fail err_email_exists) (repo.find_by_email ctx req.email) _
          absent_email in
      (nobody, nobody', rw (step, step'))

  validated-invalid :
      (ctx : Context) (req : RegisterRequest) (p : User × Option Error) (s : S) {e : Error}
      → p.1 ≡ some e
      → register_validated repo auth tx bcrypt lifetime ctx req p s
        ≡ (err (app (with_message (sentinel err_validation_failed) (error_text e))), s)
  unfolding register_validated
  validated-invalid ctx req (user, some e) s h = ground arith
  validated-invalid ctx req (user, none) s h = cc

  register-valid :
      (ctx : Context) (req : RegisterRequest) (s : S) {user : User}
      → validate (new_user req) ≡ (user, none)
      → register repo auth tx bcrypt lifetime ctx req s
        ≡ register_valid repo auth tx bcrypt lifetime ctx req user s
  unfolding register register_validated
  register-valid ctx req s h =
      ap (λ p. register_validated repo auth tx bcrypt lifetime ctx req p s) h

  register-invalid :
      (ctx : Context) (req : RegisterRequest) (s : S) {e : Error}
      → (validate (new_user req)).1 ≡ some e
      → register repo auth tx bcrypt lifetime ctx req s
        ≡ (err (app (with_message (sentinel err_validation_failed) (error_text e))), s)
  unfolding register register_validated
  register-invalid ctx req s h = validated-invalid ctx req (validate (new_user req)) s h

  with_hash :
      (ctx : Context) (req : RegisterRequest) (user : User) (s : S) (hash : Text)
      → (bcrypt.generate_from_password req.password s).0 ≡ ok hash
      → register_valid repo auth tx bcrypt lifetime ctx req user s
        ≡ (tx.with_tx ctx (
                create_unless_taken repo auth tx bcrypt lifetime req
                  (record user { password = hash }))
              >>= λ (created : User). pure (record { user = created }))
            (bcrypt.generate_from_password req.password s).1
  unfolding register_valid
  with_hash ctx req user s hash hashed = rw hashed

  register_valid-ok :
      (ctx : Context) (req : RegisterRequest) (user : User) (s : S) {resp : RegisterResponse}
      → (register_valid repo auth tx bcrypt lifetime ctx req user s).0 ≡ ok resp
      → (hash : Text) × ((bcrypt.generate_from_password req.password s).0 ≡ ok hash)
        × (tx.with_tx ctx
              (create_unless_taken repo auth tx bcrypt lifetime req
                (record user { password = hash }))
              (bcrypt.generate_from_password req.password s).1
            ≡ (ok resp.user, (register_valid repo auth tx bcrypt lifetime ctx req user s).1))
  unfolding register_valid
  register_valid-ok ctx req user s {resp} h =
      let (hash, hashed, h1) =
        handle-eq-ok (bcrypt.generate_from_password req.password s).0 _ _ _
          (λ (e : Error) (b : RegisterResponse) (k : err (internal e) ≡ ok b). cc k) h in
      (hash, hashed, rw (with_hash ctx req user s hash hashed) (returned _ _ h1))

  -- What a registration that succeeds has done, in the order in which it did it.
  pub record IsRegistered (ctx : Context) (req : RegisterRequest) (s : S) (resp : RegisterResponse)
      : Type 0 where
    pub acceptable : IsAcceptable (new_user req)
    pub hash : Text
    pub hashed : (bcrypt.generate_from_password req.password s).0 ≡ ok hash
    pub name_free :
        FindsNobody
          (repo.find_by_username (atomic.in_tx ctx) req.username)
          (bcrypt.generate_from_password req.password s).1
    pub email_free :
        FindsNobody
          (repo.find_by_email (atomic.in_tx ctx) req.email)
          (repo.find_by_username
            (atomic.in_tx ctx)
            req.username
            (bcrypt.generate_from_password req.password s).1).1
    pub stored :
        repo.create
          (atomic.in_tx ctx)
          (record (new_user req) { email = normalize_email req.email; password = hash })
          (repo.find_by_email
            (atomic.in_tx ctx)
            req.email
            (repo.find_by_username
              (atomic.in_tx ctx)
              req.username
              (bcrypt.generate_from_password req.password s).1).1).1
        ≡ (ok resp.user, (register repo auth tx bcrypt lifetime ctx req s).1)

  -- If the transaction manager is atomic, a registration succeeds only for an acceptable user (see
  -- User.Validate) whose name and address, as it stands in the request, the repository does not
  -- find inside the transaction; what it stores there, and returns, is this user with the address
  -- normalised and a hash for the password.
  pub register_sound :
      (ctx : Context) (req : RegisterRequest) (s : S) {resp : RegisterResponse}
      → (register repo auth tx bcrypt lifetime ctx req s).0 ≡ ok resp
      → IsRegistered ctx req s resp
  unfolding register_valid
  register_sound ctx req s {resp} h = elim (validate-cases (new_user req)) [
    | inr (e, invalid) ↦ absurd (ground (arith, register-invalid ctx req s invalid))
    | inl (acceptable, valid) ↦
        let e = register-valid ctx req s valid in
        let user : User = record (new_user req) { email = normalize_email req.email } in
        let (hash, hashed, done) = register_valid-ok ctx req user s (rw e at h) in
        let run = atomic.commits ctx _ _ (ap (λ (p : Outcome User × S). p.0) done) in
        let (nobody, nobody', last) =
          create_unless_taken-ok req (record user { password = hash }) (atomic.in_tx ctx)
            (bcrypt.generate_from_password req.password s).1
            (ap (λ (p : Outcome User × S). p.0) (run ∙ done)) in
        record {
          acceptable = acceptable;
          hash = hash;
          hashed = hashed;
          name_free = nobody;
          email_free = nobody';
          stored = cc (e, last, run, done);
        }
  ]

  module _
      (quiet : (password : Text) (s' : S)
        → view (bcrypt.generate_from_password password s').1 ≡ view s')
      (ctx : Context) (req : RegisterRequest) (s : S) where
    hashed-atomic :
        (user : User) (hash : Text)
        → (bcrypt.generate_from_password req.password s).0 ≡ ok hash
        → ((resp : RegisterResponse)
            → (register_valid repo auth tx bcrypt lifetime ctx req user s).0 ≢ ok resp)
        → view (register_valid repo auth tx bcrypt lifetime ctx req user s).1 ≡ view s
    hashed-atomic user hash hashed fails =
        let fn =
          create_unless_taken repo auth tx bcrypt lifetime req (record user { password = hash }) in
        let s1 = (bcrypt.generate_from_password req.password s).1 in
        let e = with_hash ctx req user s hash hashed in
        let within =
          create_unless_taken-IsWithin repo auth tx bcrypt lifetime req
            (record user { password = hash }) (atomic.in_tx ctx) in
        elim (Outcome-cases (tx.with_tx ctx fn s1).0) [
          | was_ok u h ↦ absurd (fails (record { user = u }) (rw (e, h)))
          | was_err x h ↦ rw (e, h) (atomic.rolls_back ctx fn s1 within h ∙ quiet req.password s)
          | was_panic m h ↦
              rw (e, h) (atomic.rolls_back_panic ctx fn s1 within h ∙ quiet req.password s)
        ]

    valid-atomic :
        (user : User)
        → ((resp : RegisterResponse)
            → (register_valid repo auth tx bcrypt lifetime ctx req user s).0 ≢ ok resp)
        → view (register_valid repo auth tx bcrypt lifetime ctx req user s).1 ≡ view s
    valid-atomic user fails =
        elim (Outcome-cases (bcrypt.generate_from_password req.password s).0) [
          | was_ok hash hashed ↦ hashed-atomic user hash hashed fails
          | was_err x h ↦ unfold register_valid in rw (register_valid, h) (quiet req.password s)
          | was_panic m h ↦ unfold register_valid in rw (register_valid, h) (quiet req.password s)
        ]

    -- A registration that ends in an error or a panic leaves the database as it was, if drawing a
    -- hash leaves the database alone and the transaction manager rolls back what a callback that
    -- fails has done through the context that it is given, and that alone.
    pub register_atomic :
        ((resp : RegisterResponse) → (register repo auth tx bcrypt lifetime ctx req s).0 ≢ ok resp)
        → view (register repo auth tx bcrypt lifetime ctx req s).1 ≡ view s
    register_atomic fails = elim (validate-cases (new_user req)) [
      | inr (e, invalid) ↦ rw (register-invalid ctx req s invalid)
      | inl (acceptable, valid) ↦
          let e = register-valid ctx req s valid in
          rw e (valid-atomic _ (λ resp k. fails resp (rw e k)))
    ]
