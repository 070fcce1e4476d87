-- ===== src/Sqlite/Users.antt =====
-- src/infrastructure/sqlite_user_repo.cpp: `SqliteUserRepository`. No column of the table is NULL.
use secure_file_transfer.Base.{
  ℕ, ◌+◌, Bool, true, false, not, ◌||◌, ◌&&◌, List, [], ◌∷◌, ◌++◌, Bytes, codes, str_eq, leb, ◌==◌,
  if◌then◌else◌, Exec, raise, ◌>>=◌, ◌>>◌, Outcome, returns, throws, then_, runtime, validation,
  not_found,
}
use secure_file_transfer.Domain.Records.{UserId, Result, success, failure}
use secure_file_transfer.Domain.User.{User, make_user}
use secure_file_transfer.Users.{lockout_ms}
use secure_file_transfer.Sqlite.{
  Sqlite, Value, Code, step_done, step_constraint, step_failed, int_value, bound_text, text_or,
  int_of, column, exec, roll_back, open_with,
}

abbrev pub insert_sql : Bytes
insert_sql =
    codes
      "INSERT INTO users(id, username, email, pass_hash, role, status, failed_attempts, lockout_until) VALUES(?,?,?,?,?,?,?,?);"

abbrev pub all_sql : Bytes
all_sql =
    codes "SELECT id, username, email, role, status, failed_attempts, lockout_until FROM users;"

-- `"SELECT ... WHERE " + col + "=?;"`
abbrev pub find_sql : Bytes → Bytes
find_sql col =
    codes
      "SELECT id, username, email, role, status, failed_attempts, lockout_until FROM users WHERE "
    ++ (col ++ codes "=?;")

abbrev pub update_sql : Bytes
update_sql =
    codes "UPDATE users SET role=?, status=?, failed_attempts=?, lockout_until=? WHERE id=?;"

abbrev pub hash_sql : Bytes
hash_sql = codes "UPDATE users SET pass_hash=? WHERE id=?;"

abbrev pub failures_sql : Bytes
failures_sql = codes "SELECT failed_attempts, lockout_until FROM users WHERE id=?;"

abbrev pub set_failures_sql : Bytes
set_failures_sql = codes "UPDATE users SET failed_attempts=?, lockout_until=? WHERE id=?;"

abbrev pub reset_sql : Bytes
reset_sql = codes "UPDATE users SET failed_attempts=0, lockout_until=0 WHERE id=?;"

abbrev pub get_hash_sql : Bytes
get_hash_sql = codes "SELECT pass_hash FROM users WHERE id=?;"

-- The parameters of the INSERT.
unfoldable pub row_of : User → Bytes → List Value
row_of u hash =
    bound_text u.id
    ∷ (bound_text u.username
        ∷ (bound_text u.email
            ∷ (bound_text hash
                ∷ (bound_text u.role
                    ∷ (bound_text u.status
                        ∷ (int_value u.failed_attempts ∷ (int_value u.lockout_until ∷ [])))))))

-- A row of a query as a user, by the constructor that checks its arguments.
unfoldable pub user_from : List Value → Outcome User
unfolding make_user
user_from row =
    make_user (text_or [] (column 0 row)) (text_or [] (column 1 row)) (text_or [] (column 2 row))
      (text_or [] (column 3 row)) (text_or [] (column 4 row)) (int_of (column 5 row))
      (int_of (column 6 row))

abbrev first_user : List (List Value) → Outcome (Result User)
first_user [] = returns (failure (codes "not found"))
first_user (row ∷ rest) = then_ (user_from row) (λ u. returns (success u))

unfoldable pub users_from : List (List Value) → Outcome (List User)
unfolding user_from
users_from [] = returns []
users_from (row ∷ rows) =
    then_ (user_from row) (λ u. then_ (users_from rows) (λ us. returns (u ∷ us)))

abbrev first_text : List (List Value) → Outcome Bytes
first_text [] = throws (not_found (codes "hash not found"))
first_text (row ∷ rest) = returns (text_or [] (column 0 row))

module _ {D : Type 0} (db : Sqlite D) where
  unfoldable pub open_users : Bool → Exec D (Unit {0})
  open_users opened = open_with db opened (
      codes
        "CREATE TABLE IF NOT EXISTS users(id TEXT PRIMARY KEY, username TEXT UNIQUE NOT NULL, email TEXT UNIQUE NOT NULL, pass_hash TEXT NOT NULL, role TEXT NOT NULL, status TEXT NOT NULL, failed_attempts INT NOT NULL, lockout_until INTEGER NOT NULL);")

  unfoldable pub find_by_column : Bytes → Bytes → D → Outcome (Result User)
  find_by_column col val d =
      if not (db.prepares (find_sql col) d)
      then returns (failure (codes "prepare failed"))
      else first_user (db.rows (find_sql col) (bound_text val ∷ []) d)

  unfoldable pub find_by_username : Bytes → D → Outcome (Result User)
  unfolding find_by_column
  find_by_username n d = find_by_column (codes "username") n d

  unfoldable pub find_by_email : Bytes → D → Outcome (Result User)
  unfolding find_by_column
  find_by_email e d = find_by_column (codes "email") e d

  unfoldable pub find_by_id : UserId → D → Outcome (Result User)
  unfolding find_by_column
  find_by_id id d = find_by_column (codes "id") id d

  abbrev begin : Exec D (Unit {0})
  begin = exec db (codes "BEGIN IMMEDIATE;")

  abbrev commit : Exec D (Unit {0})
  commit = exec db (codes "COMMIT;")

  abbrev prepared : Bytes → Exec D Bool
  prepared sql d = (returns (db.prepares sql d), d)

  abbrev stepped : Bytes → List Value → Exec D Code
  stepped sql values d = let (code, d') = db.step sql values d in (returns code, d')

  abbrev inserted : Code → Exec D (Unit {0})
  inserted step_done = commit
  inserted step_constraint = roll_back db (validation (codes "username or email exists"))
  inserted step_failed = roll_back db (runtime (codes "insert failed"))

  unfoldable pub save : User → Bytes → Exec D (Unit {0})
  save u hash = do
    begin
    ready ← prepared insert_sql
    if not ready
        then roll_back db (runtime (codes "prepare failed"))
        else do code ← stepped insert_sql (row_of u hash); inserted code

  -- `counted`: whether the number of changed rows is looked at.
  abbrev changed : Bool → Bytes → Code → Exec D (Unit {0})
  changed counted message step_done d =
      (if counted && not (db.changes d == 1)
          then roll_back db (runtime (codes "no row updated"))
          else commit)
        d
  changed counted message step_constraint d = roll_back db (runtime message) d
  changed counted message step_failed d = roll_back db (runtime message) d

  -- An UPDATE, from its preparation to the end of the transaction.
  unfoldable pub change : Bool → Bytes → Bytes → List Value → Exec D (Unit {0})
  change counted message sql values = do
    ready ← prepared sql
    if not ready
        then roll_back db (runtime (codes "prepare failed"))
        else do code ← stepped sql values; changed counted message code

  abbrev updated : User → Result User → Exec D (Unit {0})
  updated u (failure e) = raise (not_found (codes "not found"))
  updated u (success old) =
      if not (str_eq old.username u.username) || not (str_eq old.email u.email)
      then raise (validation (codes "username/email immutable"))
      else do
        begin
        change false (codes "update failed") update_sql (
            bound_text u.role
            ∷ (bound_text u.status
                ∷ (int_value u.failed_attempts
                    ∷ (int_value u.lockout_until ∷ (bound_text u.id ∷ [])))))

  unfoldable pub update : User → Exec D (Unit {0})
  update u = do existing ← λ d. (find_by_id u.id d, d); updated u existing

  -- Neither the preparation nor the step is looked at.
  abbrev step_blindly : Bool → Bytes → List Value → Exec D (Unit {0})
  step_blindly false sql values d = (returns tt, d)
  step_blindly true sql values d = (returns tt, (db.step sql values d).1)

  unfoldable pub update_hash : UserId → Bytes → Exec D (Unit {0})
  update_hash id hash = do
    begin
    ready ← prepared hash_sql
    step_blindly ready hash_sql (bound_text hash ∷ (bound_text id ∷ []))
    commit

  -- The overload that is given the new values, and what the other one writes.
  abbrev failure_values : UserId → ℕ → ℕ → List Value
  failure_values id fails until = int_value fails ∷ (int_value until ∷ (bound_text id ∷ []))

  unfoldable pub set_login_failure : UserId → ℕ → ℕ → Exec D (Unit {0})
  set_login_failure id fails until = do
    begin
    change true (codes "update failed") set_failures_sql (failure_values id fails until)

  abbrev failed_again : UserId → ℕ → List (List Value) → Exec D (Unit {0})
  failed_again id now [] = roll_back db (not_found (codes "not found"))
  failed_again id now (row ∷ rest) =
      let fails = int_of (column 0 row) + 1 in
      let until = if leb 5 fails then now + lockout_ms else int_of (column 1 row) in
      change true (codes "update failed") set_failures_sql (failure_values id fails until)

  unfoldable pub record_login_failure : UserId → ℕ → Exec D (Unit {0})
  record_login_failure id now = do
    begin
    ready ← prepared failures_sql
    if not ready then roll_back db (runtime (codes "prepare failed")) else do
      found ← λ d. (returns (db.rows failures_sql (bound_text id ∷ []) d), d)
      failed_again id now found

  unfoldable pub reset_login_failures : UserId → Exec D (Unit {0})
  reset_login_failures id = do
    begin
    change false (codes "reset failed") reset_sql (bound_text id ∷ [])

  unfoldable pub get_encoded_hash : UserId → D → Outcome Bytes
  get_encoded_hash id d =
      first_text
        (if db.prepares get_hash_sql d then db.rows get_hash_sql (bound_text id ∷ []) d else [])

  unfoldable pub list_all : D → Outcome (List User)
  unfolding users_from
  list_all d = users_from (if db.prepares all_sql d then db.rows all_sql [] d else [])
