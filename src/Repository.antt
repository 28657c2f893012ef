-- ===== src/Repository.antt =====
-- The interfaces of the domain layer: internal/domain/repository, internal/domain/gateway. A use
-- case takes them as parameters, over a state `S` of which it knows nothing else.
use boot_backend_go_clean.Common.{Bool, Option}
use boot_backend_go_clean.Common.Int.{ℤ}
use boot_backend_go_clean.Common.Text.{Text}
use boot_backend_go_clean.Errors.{Error}
use boot_backend_go_clean.Effect.{Action}
use boot_backend_go_clean.Entity.{
  User, TokenPair, AccessTokenClaims, RefreshTokenClaims, StandardClaims,
}

-- context.Context: the error of a context that is done, and whether it carries a transaction, by
-- the number of its savepoint.
pub data Handle : Type 0 where
  connection : Handle
  transaction : Handle

pub record Context : Type 0 where
  pub done : Option Error
  pub handle : Handle

-- UserRepository. Create gives the user that it has written back through the pointer.
pub record UserRepository (S : Type 0) : Type 0 where
  pub create : Context → User → Action S User
  pub find_by_id : Context → ℤ → Action S User
  pub find_by_username : Context → Text → Action S User
  pub find_by_email : Context → Text → Action S User
  pub update : Context → User → Action S Unit
  pub soft_delete : Context → ℤ → Action S Unit

-- TxManager. The callback of the one caller writes to a user, which stands for the variable that
-- the closure shares with its caller.
pub record TxManager (S : Type 0) : Type 0 where
  pub with_tx : Context → (Context → Action S User) → Action S User

-- Authenticator
pub record Authenticator (S : Type 0) : Type 0 where
  pub generate_token_pair : User → Action S TokenPair
  pub validate_access_token : Text → Action S (AccessTokenClaims × StandardClaims)
  pub validate_refresh_token : Text → Action S (RefreshTokenClaims × StandardClaims)
  pub blacklist_token : Text → ℤ → Action S Unit
  pub is_token_blacklisted : Text → Action S Bool

-- golang.org/x/crypto/bcrypt, which is not of this repository: GenerateFromPassword at the default
-- cost, which draws a salt, and CompareHashAndPassword of a hash and a password.
pub record Bcrypt (S : Type 0) : Type 0 where
  pub generate_from_password : Text → Action S Text
  pub compare_hash_and_password : Text → Text → Option Error
