-- ===== src/Examples/Store.antt =====
-- A list of users in place of the database, a transaction that restores it, and a hash that marks a
-- password: they stand for GORM and for golang.org/x/crypto/bcrypt.
use boot_backend_go_clean.Common.{
  ℕ, ◌+◌, ◌*◌, ◌≡◌, refl, Bool, Option, none, some, List, [], ◌∷◌, ◌++◌, String, if◌then◌else◌,
  arith,
}
use boot_backend_go_clean.Common.Int.{ℤ, pos, eqb_ℤ}
use boot_backend_go_clean.Common.Text.{Text, codes, text_eq}
use boot_backend_go_clean.Errors.{Error, text_error, fail, err_user_not_found}
use boot_backend_go_clean.Effect.{Outcome, ok, err, panic, Action, pure, throw}
use boot_backend_go_clean.Entity.{User, zero_time, hour}
use boot_backend_go_clean.Blacklist.{new_token_blacklist}
use boot_backend_go_clean.World.{World, IsMonotone}
use boot_backend_go_clean.Jwt.{JwtAuthenticator}
use boot_backend_go_clean.Repository.{
  Context, connection, transaction, UserRepository, TxManager, Bcrypt,
}
use boot_backend_go_clean.Errors.{record_not_found}
use boot_backend_go_clean.Persistence.{Gorm}
use boot_backend_go_clean.Persistence.Atomic.{IsTransactional}
use boot_backend_go_clean.AuthUseCase.Transaction.{IsAtomic}

abbrev pub Db : Type 0
Db = World (List User)

pub find : (User → Bool) → List User → Option User
find p [] = none
find p (u ∷ users) = let rest = find p users in if p u then some u else rest

abbrev pub found : Option User → Action Db User
found none = throw (fail err_user_not_found)
found (some u) = pure u

unfoldable pub find_where : (User → Bool) → Action Db User
unfolding find
find_where p w = found (find p w.db) w

abbrev pub store : UserRepository Db
store = record {
  create = λ ctx user w. (ok user, record w { db = w.db ++ user ∷ [] });
  find_by_id = λ ctx id. find_where (λ u. eqb_ℤ u.id id);
  find_by_username = λ ctx name. find_where (λ u. text_eq u.username name);
  find_by_email = λ ctx email. find_where (λ u. text_eq u.email email);
  update = λ ctx user w. (ok tt, record w { db = user ∷ w.db });
  soft_delete = λ ctx id w. (ok tt, record w { db = [] });
}

abbrev restore : Db → Outcome User × Db → Outcome User × Db
restore w (ok u, w') = (ok u, w')
restore w (err e, w') = (err e, record w' { db = w.db })
restore w (panic m, w') = (panic m, record w' { db = w.db })

abbrev pub tx : TxManager Db
tx = record { with_tx = λ ctx fn w. restore w (fn (record ctx { handle = transaction }) w) }

-- GORM over a table that is broken: nothing is found, a row that is written destroys the others and
-- fails, a transaction restores.
abbrev pub no_rows : Gorm Db
no_rows = record {
  create = λ session before_create dto w.
      (err (text_error "could not extend file"), record w { db = [] });
  first_by_id = λ session id. throw record_not_found;
  first_where = λ session column value. throw record_not_found;
  save = λ session before_create before_update dto. pure 0;
  delete = λ session id. pure 0;
  run_transaction = λ session fn w. restore w (fn transaction w);
}

restore-ok : (w : Db) (r : Outcome User × Db) {u : User} → (restore w r).0 ≡ ok u → r ≡ restore w r
restore-ok w (ok u, w') h = refl
restore-ok w (err e, w') h = cc
restore-ok w (panic m, w') h = cc

restore-err :
    (w : Db) (r : Outcome User × Db) {e : Error}
    → (restore w r).0 ≡ err e
    → (restore w r).1.db ≡ w.db
restore-err w (ok u, w') h = cc
restore-err w (err e, w') h = refl
restore-err w (panic m, w') h = cc

restore-panic :
    (w : Db) (r : Outcome User × Db) {m : String}
    → (restore w r).0 ≡ panic m
    → (restore w r).1.db ≡ w.db
restore-panic w (ok u, w') h = cc
restore-panic w (err e, w') h = cc
restore-panic w (panic m, w') h = refl

abbrev pub stored : Db → List User
stored w = w.db

pub tx-IsAtomic : IsAtomic stored store tx
tx-IsAtomic = record {
  in_tx = λ ctx. record ctx { handle = transaction };
  commits = λ ctx fn w h. restore-ok w (fn (record ctx { handle = transaction }) w) h;
  rolls_back = λ ctx fn w within h. restore-err w (fn (record ctx { handle = transaction }) w) h;
  rolls_back_panic =
      λ ctx fn w within h. restore-panic w (fn (record ctx { handle = transaction }) w) h;
}

abbrev mark : Text → Text
mark password = b'#' ∷ password

unfoldable pub compare : Text → Text → Option Error
unfolding text_eq
compare hash password =
    if text_eq hash (mark password)
    then none
    else some (text_error "hashedPassword is not the hash")

abbrev pub hasher : Bcrypt Db
hasher = record {
  generate_from_password = λ password. pure (mark password);
  compare_hash_and_password = compare;
}

abbrev pub alice : User
alice = record {
  id = pos 7;
  username = codes "alice";
  email = codes "alice@example.com";
  password = mark (codes "password1");
  avatar_url = none;
  created_at = zero_time;
  updated_at = none;
  deleted_at = none;
}

-- A user whose identifier a float64 does not hold.
abbrev pub bob : User
bob = record alice { id = pos 9007199254740993; username = codes "bob" }

abbrev pub background : Context
background = record { done = none; handle = connection }

-- A second passes between two readings.
abbrev pub seconds : ℕ → ℤ
seconds i = pos (1800000000000000000 + i * 1000000000)

abbrev pub at_reading : ℕ → Db
at_reading n = record {
  clock = record { at = seconds; reads = n };
  blacklist = new_token_blacklist;
  db = alice ∷ [];
}

pub seconds-IsMonotone : IsMonotone (record { at = seconds; reads = 0 })
seconds-IsMonotone i j le = omega (arith, le)

abbrev pub settings : JwtAuthenticator
settings = record {
  access_secret = codes "access";
  refresh_secret = codes "refresh";
  issuer = codes "boot";
  access_expiration = hour;
  refresh_expiration = hour;
}

pub no_rows-IsTransactional : IsTransactional (pure (pos 1)) (pure (pos 2)) no_rows stored
no_rows-IsTransactional = record {
  handle = transaction;
  commits = λ session fn w h. restore-ok w (fn transaction w) h;
  rolls_back = λ session fn w through h. restore-err w (fn transaction w) h;
  rolls_back_panic = λ session fn w through h. restore-panic w (fn transaction w) h;
}
