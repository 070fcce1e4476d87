-- ===== src/Users.antt =====
-- src/infrastructure/memory_user_repo.cpp: `MemoryUserRepository`.
pub mod Invariant
pub mod Calls
use secure_file_transfer.Base.{
  ℕ, ◌+◌, not, ◌||◌, Bool, true, false, List, Bytes, codes, str_eq, leb, if◌then◌else◌, Option,
  none, some, Outcome, returns, throws, validation, not_found,
}
use secure_file_transfer.Base.Dict.{Dict, empty, get, put, emplace, contains, values}
use secure_file_transfer.Domain.Records.{UserId, Result, success, failure}
use secure_file_transfer.Domain.User.{User, set_lockout}

pub record Users : Type 0 where
  pub users_by_id : Dict User
  pub username_to_id : Dict UserId
  pub email_to_id : Dict UserId
  pub hash_by_id : Dict Bytes

abbrev pub no_users : Users
no_users = record {
  users_by_id = empty;
  username_to_id = empty;
  email_to_id = empty;
  hash_by_id = empty;
}

abbrev pub or_failure : Option User → Result User
or_failure none = failure (codes "not found")
or_failure (some u) = success u

unfoldable pub find_by_id : UserId → Users → Result User
find_by_id id r = or_failure (get id r.users_by_id)

unfoldable pub find_by_username : Bytes → Users → Result User
unfolding find_by_id
find_by_username n r = elim (get n r.username_to_id) [
  | none ↦ failure (codes "not found")
  | some id ↦ find_by_id id r
]

unfoldable pub find_by_email : Bytes → Users → Result User
unfolding find_by_id
find_by_email e r = elim (get e r.email_to_id) [
  | none ↦ failure (codes "not found")
  | some id ↦ find_by_id id r
]

-- The four `emplace` calls.
abbrev pub added : User → Bytes → Users → Users
added u hash r = record {
  users_by_id = emplace u.id u r.users_by_id;
  username_to_id = emplace u.username u.id r.username_to_id;
  email_to_id = emplace u.email u.id r.email_to_id;
  hash_by_id = emplace u.id hash r.hash_by_id;
}

unfoldable pub save : User → Bytes → Users → Outcome Users
save u hash r =
    if contains u.username r.username_to_id
    then throws (validation (codes "username exists"))
    else if contains u.email r.email_to_id
    then throws (validation (codes "email exists"))
    else if contains u.id r.users_by_id
    then throws (validation (codes "id exists"))
    else returns (added u hash r)

-- `it->second = u` at the entry of an id.
abbrev pub replace : UserId → User → Users → Users
replace id u r = record r { users_by_id = put id u r.users_by_id }

unfoldable pub update : User → Users → Outcome Users
update u r = elim (get u.id r.users_by_id) [
  | none ↦ throws (not_found (codes "not found"))
  | some old ↦
      if not (str_eq old.username u.username) || not (str_eq old.email u.email)
      then throws (validation (codes "username/email immutable"))
      else returns (replace u.id u r)
]

unfoldable pub update_hash : UserId → Bytes → Users → Outcome Users
update_hash id h r =
    if not (contains id r.users_by_id)
    then throws (not_found (codes "not found"))
    else returns (record r { hash_by_id = put id h r.hash_by_id })

-- 15*60*1000
abbrev pub lockout_ms : ℕ
lockout_ms = 900000

-- The user after one more failure: from the fifth on, the account is locked for 15 minutes.
abbrev pub failed_once : ℕ → User → User
failed_once now u =
    let fails = u.failed_attempts + 1 in
    set_lockout (if leb 5 fails then now + lockout_ms else u.lockout_until) fails u

unfoldable pub record_login_failure : UserId → ℕ → Users → Outcome Users
record_login_failure id now r = elim (get id r.users_by_id) [
  | none ↦ throws (not_found (codes "not found"))
  | some u ↦ returns (replace id (failed_once now u) r)
]

-- The overload that is given the new values.
unfoldable pub set_login_failure : UserId → ℕ → ℕ → Users → Outcome Users
set_login_failure id f until r = elim (get id r.users_by_id) [
  | none ↦ throws (not_found (codes "not found"))
  | some u ↦ returns (replace id (set_lockout until f u) r)
]

unfoldable pub reset_login_failures : UserId → Users → Outcome Users
reset_login_failures id r = elim (get id r.users_by_id) [
  | none ↦ throws (not_found (codes "not found"))
  | some u ↦ returns (replace id (set_lockout 0 0 u) r)
]

unfoldable pub get_encoded_hash : UserId → Users → Outcome Bytes
get_encoded_hash id r = elim (get id r.hash_by_id) [
  | none ↦ throws (not_found (codes "hash not found"))
  | some h ↦ returns h
]

unfoldable pub list_all : Users → List User
list_all r = values r.users_by_id
