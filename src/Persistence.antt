-- ===== src/Persistence.antt =====
-- internal/infrastructure/persistence: the repository of users over GORM, which is not of this
-- repository and is the parameter `Gorm`; model/user_dto.go, model/base_model.go, db_context.go,
-- tx_manager.go and pkg/utils/timeutil/converter.go.
pub mod Atomic
pub mod Dto
pub mod Missing
use boot_backend_go_clean.Common.{
  ℕ, ◌==◌, String, Bool, true, false, Option, none, some, if◌then◌else◌,
}
use boot_backend_go_clean.Common.Int.{ℤ, pos, eqb_ℤ}
use boot_backend_go_clean.Common.Text.{Text}
use boot_backend_go_clean.Errors.{Error, fail, err_user_not_found, err_no_rows_affected}
use boot_backend_go_clean.Errors.Chain.{gorm_not_found, errors_is}
use boot_backend_go_clean.Effect.{
  Outcome, ok, err, panic, Action, pure, throw, continue, handle, catch, ◌>>=◌,
}
use boot_backend_go_clean.Entity.{User, zero_time}
use boot_backend_go_clean.Repository.{
  Handle, connection, transaction, Context, UserRepository, TxManager,
}

-- gorm.DeletedAt
pub record DeletedAt : Type 0 where
  pub time : ℤ
  pub valid : Bool

-- model.UserDTO, with the fields of the embedded BaseModel
pub record UserDto : Type 0 where
  pub id : ℤ
  pub created_at : ℤ
  pub updated_at : Option ℤ
  pub deleted_at : DeletedAt
  pub username : Text
  pub email : Text
  pub password : Text
  pub avatar_url : Option Text

-- ToGormDeletedAt, ToTimePointer
unfoldable pub to_gorm_deleted_at : Option ℤ → DeletedAt
to_gorm_deleted_at none = record { time = zero_time; valid = false }
to_gorm_deleted_at (some t) = record { time = t; valid = true }

unfoldable pub to_time_pointer : DeletedAt → Option ℤ
to_time_pointer t = if t.valid then some t.time else none

-- ConvertToEntity
unfoldable pub convert_to_entity : UserDto → User
unfolding to_time_pointer
convert_to_entity dto = record {
  id = dto.id;
  username = dto.username;
  email = dto.email;
  password = dto.password;
  avatar_url = dto.avatar_url;
  created_at = dto.created_at;
  updated_at = dto.updated_at;
  deleted_at = to_time_pointer dto.deleted_at;
}

-- ConvertFromEntity, which sets every field
unfoldable pub convert_from_entity : User → UserDto
unfolding to_gorm_deleted_at
convert_from_entity u = record {
  id = u.id;
  created_at = u.created_at;
  updated_at = u.updated_at;
  deleted_at = to_gorm_deleted_at u.deleted_at;
  username = u.username;
  email = u.email;
  password = u.password;
  avatar_url = u.avatar_url;
}

-- A *gorm.DB that is bound to a context.
pub record Session : Type 0 where
  pub handle : Handle
  pub done : Option Error

-- What the repository calls of GORM, on the table `users`. Create and Save are given the hooks of
-- the model. Save and Delete give the number of rows.
pub record Gorm (S : Type 0) : Type 0 where
  pub create : Session → (UserDto → Action S UserDto) → UserDto → Action S UserDto
  pub first_by_id : Session → ℤ → Action S UserDto
  pub first_where : Session → String → Text → Action S UserDto
  pub save :
      Session → (UserDto → Action S UserDto) → (UserDto → Action S UserDto) → UserDto → Action S ℕ
  pub delete : Session → ℤ → Action S ℕ
  pub run_transaction : Session → (Handle → Action S User) → Action S User

-- dbFromContext
unfoldable pub db_from_context : Context → Session
db_from_context ctx = record { handle = ctx.handle; done = ctx.done }

module _ {S : Type 0} (next_id : Action S ℤ) (now : Action S ℤ) where
  -- BeforeCreate; `next_id` is snowflake.NextID
  unfoldable pub before_create : UserDto → Action S UserDto
  before_create m = do
    id ← if eqb_ℤ m.id (pos 0) then next_id else pure m.id
    t ← now
    pure (record m { id = id; created_at = t })

  -- BeforeUpdate
  unfoldable pub before_update : UserDto → Action S UserDto
  before_update m = do t ← now; pure (record m { updated_at = some t })

  module _ (gorm : Gorm S) where
    -- Create
    unfoldable pub create : Context → User → Action S User
    unfolding before_create db_from_context convert_from_entity convert_to_entity
    create ctx user = do
      dto ← gorm.create (db_from_context ctx) before_create (convert_from_entity user)
      pure (convert_to_entity dto)

    -- Update
    unfoldable pub update : Context → User → Action S Unit
    unfolding before_create before_update db_from_context convert_from_entity
    update ctx user = do
      rows ← gorm.save (db_from_context ctx) before_create before_update (convert_from_entity user)
      if rows == 0 then throw (fail err_no_rows_affected) else pure tt

module _ {S : Type 0} (gorm : Gorm S) where
  -- handleQueryResult
  unfoldable pub handle_query_result : Action S UserDto → Action S User
  unfolding errors_is convert_to_entity
  handle_query_result query =
      catch query (λ dto. pure (convert_to_entity dto))
        (λ e. if errors_is e gorm_not_found then throw (fail err_user_not_found) else throw e)

  -- FindByID, FindByUsername, FindByEmail
  unfoldable pub find_by_id : Context → ℤ → Action S User
  unfolding handle_query_result db_from_context
  find_by_id ctx id = handle_query_result (gorm.first_by_id (db_from_context ctx) id)

  unfoldable pub find_by_username : Context → Text → Action S User
  unfolding handle_query_result db_from_context
  find_by_username ctx username =
      handle_query_result (gorm.first_where (db_from_context ctx) "username" username)

  unfoldable pub find_by_email : Context → Text → Action S User
  unfolding handle_query_result db_from_context
  find_by_email ctx email =
      handle_query_result (gorm.first_where (db_from_context ctx) "email" email)

  -- SoftDelete
  unfoldable pub soft_delete : Context → ℤ → Action S Unit
  unfolding db_from_context
  soft_delete ctx id = do
    rows ← gorm.delete (db_from_context ctx) id
    if rows == 0 then throw (fail err_no_rows_affected) else pure tt

  -- WithTx: the transaction is begun on the connection of the manager, and the callback gets a
  -- context that carries it.
  unfoldable pub with_tx : Context → (Context → Action S User) → Action S User
  with_tx ctx fn =
      gorm.run_transaction (record { handle = connection; done = ctx.done })
        (λ tx. fn (record ctx { handle = tx }))

-- NewUserRepository, NewTxManager
abbrev pub new_user_repository : {S : Type 0} → Action S ℤ → Action S ℤ → Gorm S → UserRepository S
new_user_repository next_id now gorm = record {
  create = create next_id now gorm;
  find_by_id = find_by_id gorm;
  find_by_username = find_by_username gorm;
  find_by_email = find_by_email gorm;
  update = update next_id now gorm;
  soft_delete = soft_delete gorm;
}

abbrev pub new_tx_manager : {S : Type 0} → Gorm S → TxManager S
new_tx_manager gorm = record { with_tx = with_tx gorm }
