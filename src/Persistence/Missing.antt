-- ===== src/Persistence/Missing.antt =====
-- internal/infrastructure/persistence/user_repository.go under internal/usecase/auth_usecase.go:
-- what Register takes for a free name.
use boot_backend_go_clean.Common.{◌≡◌, Bool, ◌||◌, arith, if◌then◌else◌}
use boot_backend_go_clean.Common.Text.{Text}
use boot_backend_go_clean.Errors.{Error, err_user_not_found}
use boot_backend_go_clean.Errors.Chain.{variable, gorm_not_found, errors_is}
use boot_backend_go_clean.Effect.{Outcome, ok, err, panic, Action}
use boot_backend_go_clean.Repository.{Context}
use boot_backend_go_clean.AuthUseCase.{ensure_absent, internal}
use boot_backend_go_clean.Persistence.{
  UserDto, Gorm, handle_query_result, find_by_username, find_by_email, db_from_context,
}

-- An error that says that there is no such row.
abbrev pub says_missing : Error → Bool
says_missing e = errors_is e gorm_not_found || errors_is e (variable err_user_not_found)

-- What the lookup of Register makes of the answer of GORM.
abbrev pub verdict : Outcome UserDto → Error → Outcome {0} Unit
verdict (ok dto) taken = err taken
verdict (err e) taken = if says_missing e then ok tt else err (internal e)
verdict (panic m) taken = panic m

module _ {S : Type 0} (gorm : Gorm S) (taken : Error) where
  handled :
      (query : Action S UserDto) (s : S)
      → ensure_absent (handle_query_result gorm query) taken s
        ≡ (verdict (query s).0 taken, (query s).1)
  unfolding ensure_absent handle_query_result
  handled query s = ground arith

  -- Register goes on exactly where GORM has reported a missing row, or an error that is
  -- ErrUserNotFound; another error of the database ends as an internal error, and a row as the
  -- conflict. The state is the one that the query leaves.
  pub ensure_absent_lem :
      (ctx : Context) (name : Text) (s : S)
      → (ensure_absent (find_by_username gorm ctx name) taken s ≡ (
        verdict (gorm.first_where (db_from_context ctx) "username" name s).0 taken,
        (gorm.first_where (db_from_context ctx) "username" name s).1,
      ))
        × (ensure_absent (find_by_email gorm ctx name) taken s ≡ (
          verdict (gorm.first_where (db_from_context ctx) "email" name s).0 taken,
          (gorm.first_where (db_from_context ctx) "email" name s).1,
        ))
  unfolding find_by_username find_by_email
  ensure_absent_lem ctx name s = (
    handled (gorm.first_where (db_from_context ctx) "username" name) s,
    handled (gorm.first_where (db_from_context ctx) "email" name) s,
  )
