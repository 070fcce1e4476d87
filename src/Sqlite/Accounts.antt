-- ===== src/Sqlite/Accounts.antt =====
-- Users over SQLite against users in memory.
use secure_file_transfer.Base.{
  ℕ, ◌≡◌, refl, false, ◌||◌, List, [], ◌∷◌, Bytes, codes, is_empty, arith, returns,
}
use secure_file_transfer.Domain.User.{User, make_user}
use secure_file_transfer.Users.{failed_once}
use secure_file_transfer.Sqlite.{Sqlite, Value, step_done, int_value, bound_text, column, exec}
use secure_file_transfer.Sqlite.RoundTrip.{IsText}
use secure_file_transfer.Sqlite.Users

-- The columns of a row that the queries ask for.
abbrev pub selected : List Value → List Value
selected row =
    column 0 row
    ∷ (column 1 row
        ∷ (column 2 row ∷ (column 4 row ∷ (column 5 row ∷ (column 6 row ∷ (column 7 row ∷ []))))))

-- A user with a name, an address and an id, and texts without NUL, is read back from the columns that
-- a query takes of the row that `save` writes.
pub user_from-row_of :
    (u : User) (hash : Bytes)
    → (is_empty u.id || is_empty u.username || is_empty u.email) ≡ false
    → IsText u.id
    → IsText u.username
    → IsText u.email
    → IsText u.role
    → IsText u.status
    → Users.user_from (selected (Users.row_of u hash)) ≡ returns u
unfolding Users.user_from Users.row_of make_user
user_from-row_of u hash full i n e r s = rw (i, n, e, r, s) (rw full refl)

module _ {D : Type 0} (db : Sqlite D) where
  -- A login failure that is recorded is one UPDATE of one row, with the values that the repository in
  -- memory gives to the same user, committed.
  pub record_login_failure-failed_once :
      (u : User) (now : ℕ) (rest : List (List Value)) (d : D)
      → let begun = (db.run_sql (codes "BEGIN IMMEDIATE;") d).1 in
        db.rows Users.failures_sql (bound_text u.id ∷ []) begun
          ≡ (int_value u.failed_attempts ∷ (int_value u.lockout_until ∷ [])) ∷ rest
        → (Users.record_login_failure db u.id now d).0 ≡ returns tt
        → let u' = failed_once now u in
          let written =
            db.step Users.set_failures_sql
              (int_value u'.failed_attempts ∷ (int_value u'.lockout_until ∷ (bound_text u.id ∷ [])))
              begun in
          (written.0 ≡ step_done)
          × (db.changes written.1 ≡ 1)
          × ((Users.record_login_failure db u.id now d).1
              ≡ (db.run_sql (codes "COMMIT;") written.1).1)
  unfolding Users.record_login_failure Users.change exec
  record_login_failure-failed_once u now rest d found done =
      (ground arith, ground arith, ground arith)
