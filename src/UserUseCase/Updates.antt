-- ===== src/UserUseCase/Updates.antt =====
-- What UpdateUser and SoftDeleteUser of internal/usecase/user_usecase.go have checked.
use boot_backend_go_clean.Common.{◌≡◌, refl, ap, inl, inr, Option, none, some, arith}
use boot_backend_go_clean.Errors.{Error}
use boot_backend_go_clean.Effect.{ok, err, continue-eq-ok, ◌>>=◌}
use boot_backend_go_clean.Entity.{User}
use boot_backend_go_clean.Validation.{validate, normalize_email}
use boot_backend_go_clean.Validation.Laws.{IsAcceptable, validate-cases}
use boot_backend_go_clean.Repository.{Context, UserRepository}
use boot_backend_go_clean.UserUseCase.{update_validated, update_user}

module _ {S : Type 0} (repo : UserRepository S) (ctx : Context) (s : S) where
  validated-invalid :
      (r : User × Option Error) (e : Error)
      → r.1 ≡ some e
      → update_validated repo ctx r s ≡ (err e, s)
  unfolding update_validated
  validated-invalid (user, some e') e h = ground arith
  validated-invalid (user, none) e h = cc

  invalid-update :
      (user : User) (e : Error)
      → (validate user).1 ≡ some e
      → update_user repo ctx user s ≡ (err e, s)
  unfolding update_user
  invalid-update user e h = validated-invalid (validate user) e h

  valid-update :
      (user : User)
      → validate user ≡ (record user { email = normalize_email user.email }, none)
      → update_user repo ctx user s
        ≡ (repo.find_by_id ctx user.id >>= λ existing.
              repo.update ctx (record user { email = normalize_email user.email }))
            s
  unfolding update_user update_validated
  valid-update user h = ap (λ (r : User × Option Error). update_validated repo ctx r s) h

  -- UpdateUser succeeds only for an acceptable user whose identifier the repository finds, and has
  -- then updated this user, with the address normalised, in the state that the lookup has left.
  pub update_user_sound :
      (user : User) {u : Unit {0}}
      → (update_user repo ctx user s).0 ≡ ok u
      → IsAcceptable user
        × (existing : User) × ((repo.find_by_id ctx user.id s).0 ≡ ok existing)
        × (update_user repo ctx user s
            ≡ repo.update ctx
                (record user { email = normalize_email user.email })
                (repo.find_by_id ctx user.id s).1)
  update_user_sound user h = elim (validate-cases user) [
    | inr (e, invalid) ↦ absurd (ground (arith, invalid-update user e invalid))
    | inl (acceptable, valid) ↦
        let same = valid-update user valid in
        let (existing, found, rest) =
          continue-eq-ok (repo.find_by_id ctx user.id s).0 _ _ (rw same at h) in
        (acceptable, existing, found, rw (same, found) refl)
  ]
