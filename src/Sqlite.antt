-- ===== src/Sqlite.antt =====
-- What the repositories over SQLite share: `exec`, and the transaction around one INSERT, of
-- src/infrastructure/sqlite_file_repo.cpp, sqlite_transfer_repo.cpp and
-- recipient_pubkey_directory.cpp. SQLite is the record `Sqlite` over a state of its own.
pub mod Transfers
pub mod Keys
pub mod Files
pub mod Users
pub mod Insert
pub mod Accounts
pub mod RoundTrip
pub mod Catalog
pub mod Tables
pub mod Saves
pub mod Answers
pub mod Simulation
use secure_file_transfer.Base.{
  ℕ, zero, suc, Bool, true, false, not, List, [], ◌∷◌, Bytes, codes, ◌==◌, if◌then◌else◌, Option,
  none, some, Exec, pure, raise, ◌>>=◌, ◌>>◌, returns, Exception, runtime, validation,
}

-- What is bound to a parameter, or found in a column.
pub data Value : Type 0 where
  text_value : Bytes → Value
  int_value : ℕ → Value
  blob_value : Bytes → Value
  null_value : Value

-- What `sqlite3_step` returns for a statement that gives no row.
pub data Code : Type 0 where
  step_done step_constraint step_failed : Code

-- `run_sql`: the error of a `sqlite3_exec`, if there is one; `prepares`: whether a statement can be
-- prepared; `step`: a statement that writes; `changes`: the rows that it wrote; `rows`: the rows that a
-- query steps through.
pub record Sqlite (D : Type 0) : Type 0 where
  pub run_sql : Bytes → D → Option Bytes × D
  pub prepares : Bytes → D → Bool
  pub step : Bytes → List Value → D → Code × D
  pub changes : D → ℕ
  pub rows : Bytes → List Value → D → List (List Value)

-- `s.c_str()` bound as a text of length -1: what stands before the first NUL.
unfoldable pub c_str : Bytes → Bytes
c_str [] = []
c_str (x ∷ xs) = let rest = c_str xs in if x == 0 then [] else x ∷ rest

abbrev pub bound_text : Bytes → Value
bound_text s = text_value (c_str s)

module _ {D : Type 0} (db : Sqlite D) where
  abbrev exec_result : Option Bytes → Exec D (Unit {0})
  exec_result none = pure tt
  exec_result (some message) = raise (runtime message)

  unfoldable pub exec : Bytes → Exec D (Unit {0})
  exec sql d = let (r, d') = db.run_sql sql d in exec_result r d'

  -- `exec("ROLLBACK;"); throw e;`
  abbrev pub roll_back : Exception → Exec D (Unit {0})
  roll_back e = do exec (codes "ROLLBACK;"); raise e

  abbrev stepped : Bytes → Code → Exec D (Unit {0})
  stepped duplicate step_done d =
      (if not (db.changes d == 1)
          then roll_back (runtime (codes "no row inserted"))
          else exec (codes "COMMIT;"))
        d
  stepped duplicate step_constraint d = roll_back (validation duplicate) d
  stepped duplicate step_failed d = roll_back (runtime (codes "insert failed")) d

  abbrev step_insert : Bytes → List Value → Bytes → Exec D (Unit {0})
  step_insert sql values duplicate d =
      let (code, d') = db.step sql values d in stepped duplicate code d'

  -- The body of a `save`: one row in one transaction.
  unfoldable pub insert : Bytes → List Value → Bytes → Exec D (Unit {0})
  insert sql values duplicate = do
    exec (codes "BEGIN IMMEDIATE;")
    prepared ← λ d. (returns (db.prepares sql d), d)
    if not prepared
        then roll_back (runtime (codes "prepare failed"))
        else step_insert sql values duplicate

  -- The constructors: whether the database opens, and the statements that set it up.
  unfoldable pub open_with : Bool → Bytes → Exec D (Unit {0})
  open_with opened create = if not opened then raise (runtime (codes "sqlite open failed")) else do
    exec (codes "PRAGMA journal_mode=WAL;")
    exec (codes "PRAGMA synchronous=FULL;")
    exec (codes "PRAGMA foreign_keys=ON;")
    exec create

-- `sqlite3_column_text`, with what stands for NULL, and `sqlite3_column_blob`, on a column of the
-- schemas here: one of affinity TEXT or BLOB never holds a number, so that the text SQLite would
-- make of one is not needed.
abbrev pub text_or : Bytes → Value → Bytes
text_or fallback (text_value s) = s
text_or fallback (int_value n) = fallback
text_or fallback (blob_value b) = b
text_or fallback null_value = fallback

abbrev pub blob_of : Value → Bytes
blob_of (text_value s) = s
blob_of (int_value n) = []
blob_of (blob_value b) = b
blob_of null_value = []

abbrev pub int_of : Value → ℕ
int_of (text_value s) = 0
int_of (int_value n) = n
int_of (blob_value b) = 0
int_of null_value = 0

-- The i-th column of a row.
abbrev pub column : ℕ → List Value → Value
column i [] = null_value
column zero (v ∷ vs) = v
column (suc i) (v ∷ vs) = column i vs
