-- ===== src/Persistence/Dto.antt =====
-- internal/infrastructure/persistence/model/user_dto.go and pkg/utils/timeutil/converter.go: what a
-- user keeps on the way to a row and back.
use boot_backend_go_clean.Common.{
  ◌≡◌, refl, ap, ◌↔◌, inl, inr, false, Option, none, some, arith, Bool-cases,
}
use boot_backend_go_clean.Common.Int.{ℤ}
use boot_backend_go_clean.Entity.{User, zero_time}
use boot_backend_go_clean.Persistence.{
  DeletedAt, UserDto, to_gorm_deleted_at, to_time_pointer, convert_to_entity, convert_from_entity,
}

to_time_pointer-to_gorm_deleted_at : (t : Option ℤ) → to_time_pointer (to_gorm_deleted_at t) ≡ t
unfolding to_time_pointer to_gorm_deleted_at
to_time_pointer-to_gorm_deleted_at none = refl
to_time_pointer-to_gorm_deleted_at (some t) = refl

-- A deletion time that means nothing is the zero time.
abbrev pub IsCanonical : DeletedAt → Type 0
IsCanonical t = t.valid ≡ false → t.time ≡ zero_time

to_gorm_deleted_at-to_time_pointer :
    (t : DeletedAt) → IsCanonical t → to_gorm_deleted_at (to_time_pointer t) ≡ t
unfolding to_time_pointer to_gorm_deleted_at
to_gorm_deleted_at-to_time_pointer t h = elim (Bool-cases t.valid) [
  | inl v ↦ ground arith
  | inr v ↦ ground (arith, h v)
]

to_gorm_deleted_at-IsCanonical : (t : Option ℤ) → IsCanonical (to_gorm_deleted_at t)
unfolding to_gorm_deleted_at
to_gorm_deleted_at-IsCanonical none h = refl
to_gorm_deleted_at-IsCanonical (some t) h = cc h

-- A user survives the way to a row and back; a row survives the way to a user and back exactly
-- where its deletion time is canonical.
pub convert_to_entity-convert_from_entity :
    (u : User) (d : UserDto)
    → (convert_to_entity (convert_from_entity u) ≡ u)
      × ((convert_from_entity (convert_to_entity d) ≡ d) ↔ IsCanonical d.deleted_at)
unfolding convert_to_entity convert_from_entity
convert_to_entity-convert_from_entity u d = (
  rw (to_time_pointer-to_gorm_deleted_at u.deleted_at) refl,
  (
    λ e.
        rw (← (ap (λ (x : UserDto). x.deleted_at) e))
          (to_gorm_deleted_at-IsCanonical (to_time_pointer d.deleted_at)),
    λ h. rw (to_gorm_deleted_at-to_time_pointer d.deleted_at h) refl,
  ),
)
