-- ===== src/UserUseCase.antt =====
-- internal/usecase/user_usecase.go.
pub mod Updates
use boot_backend_go_clean.Common.{Option, none, some}
use boot_backend_go_clean.Common.Int.{ℤ}
use boot_backend_go_clean.Errors.{Error}
use boot_backend_go_clean.Effect.{Action, throw, ◌>>◌}
use boot_backend_go_clean.Entity.{User}
use boot_backend_go_clean.Validation.{validate}
use boot_backend_go_clean.Repository.{Context, UserRepository}

module _ {S : Type 0} (repo : UserRepository S) where
  -- GetUserByID
  unfoldable pub get_user_by_id : Context → ℤ → Action S User
  get_user_by_id ctx id = repo.find_by_id ctx id

  -- UpdateUser after Validate, with the user and the error that it has left.
  unfoldable pub update_validated : Context → User × Option Error → Action S Unit
  update_validated ctx (user, some e) = throw e
  update_validated ctx (user, none) = do repo.find_by_id ctx user.id; repo.update ctx user

  -- UpdateUser. Validate changes the user that is passed on.
  unfoldable pub update_user : Context → User → Action S Unit
  unfolding update_validated
  update_user ctx user = update_validated ctx (validate user)

  -- SoftDeleteUser
  unfoldable pub soft_delete_user : Context → ℤ → Action S Unit
  soft_delete_user ctx id = do repo.find_by_id ctx id; repo.soft_delete ctx id
