-- ===== src/Domain/User.antt =====
-- include/domain/user.hpp: `User`. `RegularUser` and `Administrator` add nothing to it and are built
-- nowhere.
use secure_file_transfer.Base.{
  ℕ, ◌||◌, ◌&&◌, Bool, Bytes, codes, is_empty, str_eq, leb, if◌then◌else◌, Outcome, returns, throws,
  validation,
}
use secure_file_transfer.Domain.Records.{UserId}

pub record User : Type 0 where
  pub id : UserId
  pub username : Bytes
  pub email : Bytes
  pub role : Bytes
  pub status : Bytes
  pub failed_attempts : ℕ
  pub lockout_until : ℕ

abbrev pub active : Bytes
active = codes "active"

abbrev pub inactive : Bytes
inactive = codes "inactive"

abbrev pub admin_role : Bytes
admin_role = codes "admin"

abbrev pub user_role : Bytes
user_role = codes "user"

-- The constructor.
unfoldable pub make_user : UserId → Bytes → Bytes → Bytes → Bytes → ℕ → ℕ → Outcome User
make_user id username email role status fails until =
    if is_empty id || is_empty username || is_empty email
    then throws (validation (codes "user fields empty"))
    else returns (record {
      id = id;
      username = username;
      email = email;
      role = role;
      status = status;
      failed_attempts = fails;
      lockout_until = until;
    })

unfoldable pub is_admin : User → Bool
is_admin u = str_eq u.role admin_role

unfoldable pub is_active : User → Bool
is_active u = str_eq u.status active

unfoldable pub can_login : User → ℕ → Bool
unfolding is_active
can_login u now = is_active u && leb u.lockout_until now

abbrev pub set_status : Bytes → User → User
set_status s u = record u { status = s }

abbrev pub set_lockout : ℕ → ℕ → User → User
set_lockout until attempts u = record u { lockout_until = until; failed_attempts = attempts }
