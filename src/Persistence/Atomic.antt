-- ===== src/Persistence/Atomic.antt =====
-- The transaction manager of internal/infrastructure/persistence/tx_manager.go as the one that
-- the use cases rely on.
use boot_backend_go_clean.Common.{ℕ, ◌==◌, Bool, true, false, String, ◌≡◌, ◌≢◌, if◌then◌else◌}
use boot_backend_go_clean.Common.Int.{ℤ}
use boot_backend_go_clean.Common.Text.{Text}
use boot_backend_go_clean.Errors.{Error, fail, err_user_not_found, err_no_rows_affected}
use boot_backend_go_clean.Errors.Chain.{gorm_not_found, errors_is}
use boot_backend_go_clean.Effect.{
  Outcome, ok, err, panic, Action, pure, throw, continue, handle, ◌>>=◌,
}
use boot_backend_go_clean.Entity.{User, RegisterRequest, RegisterResponse}
use boot_backend_go_clean.Repository.{Handle, Context, Authenticator, Bcrypt}
use boot_backend_go_clean.AuthUseCase.{register}
use boot_backend_go_clean.AuthUseCase.Register.{register_atomic}
use boot_backend_go_clean.AuthUseCase.Transaction.{IsWithin, IsAtomic}
use boot_backend_go_clean.Persistence.{
  UserDto, convert_from_entity, convert_to_entity, Session, Gorm, before_create, before_update,
  db_from_context, handle_query_result, create, update, find_by_id, find_by_username, find_by_email,
  soft_delete, with_tx, new_tx_manager, new_user_repository,
}

module _ {S : Type 0} (next_id : Action S ℤ) (now : Action S ℤ) (gorm : Gorm S) where
  -- An action all of whose calls of GORM are made on this session. The hooks are those of the
  -- model, which take an identifier and the time, and are given no session.
  pub data IsThrough (session : Session) : (A : Type 0) → Action S A → Type 1 where
    returns : {A : Type 0} (r : Outcome A) → IsThrough session A (λ s. (r, s))
    creates :
        (dto : UserDto)
        → IsThrough session UserDto (gorm.create session (before_create next_id now) dto)
    finds_by_id : (id : ℤ) → IsThrough session UserDto (gorm.first_by_id session id)
    finds_where :
        (column : String) (value : Text)
        → IsThrough session UserDto (gorm.first_where session column value)
    saves :
        (dto : UserDto)
        → IsThrough session ℕ
            (gorm.save session (before_create next_id now) (before_update next_id now) dto)
    deletes : (id : ℤ) → IsThrough session ℕ (gorm.delete session id)
    goes_on :
        {A B : Type 0} {m : Action S A} (k : Outcome A → Action S B)
        → IsThrough session A m
        → ((r : Outcome A) → IsThrough session B (k r))
        → IsThrough session B (λ s. k (m s).0 (m s).1)

  module _ {session : Session} where
    bind-IsThrough :
        {A B : Type 0} (m : Action S A) (f : A → Action S B)
        → IsThrough session A m
        → ((a : A) → IsThrough session B (f a))
        → IsThrough session B (m >>= f)
    bind-IsThrough {A} {B} m f h hf = goes_on (λ r. continue r f) h rest
      where
        rest : (r : Outcome A) → IsThrough session B (continue r f)
        rest (ok a) = hf a
        rest (err e) = returns (err e)
        rest (panic m) = returns (panic m)

    if-IsThrough :
        {A : Type 0} (b : Bool) (r r' : Outcome A)
        → IsThrough session A (if b then (λ s. (r, s)) else (λ s. (r', s)))
    if-IsThrough true r r' = returns r
    if-IsThrough false r r' = returns r'

    query-IsThrough :
        (query : Action S UserDto)
        → IsThrough session UserDto query
        → IsThrough session User (handle_query_result gorm query)
    unfolding handle_query_result
    query-IsThrough query h = goes_on _ h rest
      where
        rest :
            (r : Outcome UserDto)
            → IsThrough session User (
                handle r
                  (λ dto. pure (convert_to_entity dto))
                  (λ e.
                    if errors_is e gorm_not_found
                    then throw (fail err_user_not_found)
                    else throw e))
        rest (ok dto) = returns (ok (convert_to_entity dto))
        rest (err e) = if-IsThrough (errors_is e gorm_not_found) _ _
        rest (panic m) = returns (panic m)

    rows-IsThrough :
        (m : Action S ℕ)
        → IsThrough session ℕ m
        → IsThrough session Unit
            (m >>= λ (rows : ℕ). if rows == 0 then throw (fail err_no_rows_affected) else pure tt)
    rows-IsThrough m h = bind-IsThrough m _ h (λ rows. if-IsThrough (rows == 0) _ _)

  -- The repository makes each call on the session of the context that it is given.
  IsWithin-IsThrough :
      (ctx : Context) {A : Type 0} {m : Action S A}
      → IsWithin (new_user_repository next_id now gorm) ctx A m
      → IsThrough (db_from_context ctx) A m
  unfolding create update find_by_id find_by_username find_by_email soft_delete
  IsWithin-IsThrough ctx (IsWithin.returns r) = returns r
  IsWithin-IsThrough ctx (IsWithin.creates user) =
      bind-IsThrough _ _ (creates (convert_from_entity user))
        (λ dto. returns (ok (convert_to_entity dto)))
  IsWithin-IsThrough ctx (IsWithin.finds_by_id id) = query-IsThrough _ (finds_by_id id)
  IsWithin-IsThrough ctx (IsWithin.finds_by_username name) =
      query-IsThrough _ (finds_where "username" name)
  IsWithin-IsThrough ctx (IsWithin.finds_by_email email) =
      query-IsThrough _ (finds_where "email" email)
  IsWithin-IsThrough ctx (IsWithin.updates user) =
      rows-IsThrough _ (saves (convert_from_entity user))
  IsWithin-IsThrough ctx (IsWithin.soft_deletes id) = rows-IsThrough _ (deletes id)
  IsWithin-IsThrough ctx (IsWithin.goes_on k h hk) =
      goes_on k (IsWithin-IsThrough ctx h) (λ r. IsWithin-IsThrough ctx (hk r))

  -- What gorm.DB.Transaction documents: it runs the function on a handle for a transaction, and
  -- commits if that returns nil, and rolls back what it has done on that handle if it returns an
  -- error or panics. `view` is what of the state is stored in the database.
  pub record IsTransactional {D : Type 0} (view : S → D) : Type 1 where
    pub handle : Handle
    pub commits :
        (session : Session) (fn : Handle → Action S User) (s : S) {u : User}
        → (gorm.run_transaction session fn s).0 ≡ ok u
        → fn handle s ≡ gorm.run_transaction session fn s
    pub rolls_back :
        (session : Session) (fn : Handle → Action S User) (s : S) {e : Error}
        → IsThrough (record session { handle = handle }) User (fn handle)
        → (gorm.run_transaction session fn s).0 ≡ err e
        → view (gorm.run_transaction session fn s).1 ≡ view s
    pub rolls_back_panic :
        (session : Session) (fn : Handle → Action S User) (s : S) {m : String}
        → IsThrough (record session { handle = handle }) User (fn handle)
        → (gorm.run_transaction session fn s).0 ≡ panic m
        → view (gorm.run_transaction session fn s).1 ≡ view s

  -- WithTx fills the contract of a TxManager, with a context that carries the handle.
  pub new_tx_manager-IsAtomic :
      {D : Type 0} (view : S → D)
      → IsTransactional view
      → IsAtomic view (new_user_repository next_id now gorm) (new_tx_manager gorm)
  unfolding with_tx db_from_context
  new_tx_manager-IsAtomic view t = record {
    in_tx = λ ctx. record ctx { handle = t.handle };
    commits = λ ctx fn s h. t.commits _ (λ tx. fn (record ctx { handle = tx })) s h;
    rolls_back = λ ctx fn s w h.
        t.rolls_back _ (λ tx. fn (record ctx { handle = tx })) s
          (IsWithin-IsThrough (record ctx { handle = t.handle }) w) h;
    rolls_back_panic = λ ctx fn s w h.
        t.rolls_back_panic _ (λ tx. fn (record ctx { handle = tx })) s
          (IsWithin-IsThrough (record ctx { handle = t.handle }) w) h;
  }

module _ {S D : Type 0} (view : S → D) (next_id : Action S ℤ) (now : Action S ℤ) (gorm : Gorm S)
    (auth : Authenticator S) (bcrypt : Bcrypt S) (lifetime : ℤ) where
  -- Over the repository and the transaction manager of this package, a registration that ends in
  -- an error or a panic leaves the database as it was, if drawing a hash leaves the database
  -- alone and a transaction of GORM rolls back what a function that fails has done on its handle,
  -- and that alone.
  pub gorm-register_atomic :
      IsTransactional next_id now gorm view
      → ((password : Text) (s : S) → view (bcrypt.generate_from_password password s).1 ≡ view s)
      → (ctx : Context) (req : RegisterRequest) (s : S)
      → ((resp : RegisterResponse)
          → (register
              (new_user_repository next_id now gorm)
              auth
              (new_tx_manager gorm)
              bcrypt
              lifetime
              ctx
              req
              s).0
            ≢ ok resp)
      → view
          (register
            (new_user_repository next_id now gorm)
            auth
            (new_tx_manager gorm)
            bcrypt
            lifetime
            ctx
            req
            s).1
        ≡ view s
  gorm-register_atomic t quiet ctx req s fails =
      register_atomic view (new_user_repository next_id now gorm) auth (new_tx_manager gorm) bcrypt
        lifetime (new_tx_manager-IsAtomic next_id now gorm view t) quiet ctx req s fails
