-- ===== src/Sqlite/Keys.antt =====
-- src/infrastructure/recipient_pubkey_directory.cpp: `SqlitePubkeyDirectory`. The time that a row
-- carries is a parameter.
use secure_file_transfer.Base.{
  Bool, true, false, not, List, [], ◌∷◌, Bytes, codes, is_empty, length, ◌==◌, if◌then◌else◌, Exec,
  raise, validation, not_found, runtime, Outcome, returns, throws,
}
use secure_file_transfer.Domain.Records.{UserId, default_alg}
use secure_file_transfer.Sqlite.{
  Sqlite, Value, text_value, int_value, blob_value, null_value, bound_text, blob_of, column, insert,
  open_with,
}

abbrev pub insert_sql : Bytes
insert_sql =
    codes "INSERT INTO recipient_pubkeys(user_id, pubkey, alg, created_at) VALUES(?,?,?,?);"

abbrev pub key_sql : Bytes
key_sql = codes "SELECT pubkey FROM recipient_pubkeys WHERE user_id=?;"

abbrev pub exists_sql : Bytes
exists_sql = codes "SELECT 1 FROM recipient_pubkeys WHERE user_id=? LIMIT 1;"

abbrev pub all_sql : Bytes
all_sql = codes "SELECT user_id FROM recipient_pubkeys;"

unfoldable pub row_of : UserId → Bytes → Bytes → List Value
row_of uid pub_key now =
    bound_text uid ∷ (blob_value pub_key ∷ (bound_text default_alg ∷ (bound_text now ∷ [])))

abbrev first_key : List (List Value) → Outcome Bytes
first_key [] = throws (not_found (codes "pubkey not found"))
first_key (row ∷ rest) = returns (blob_of (column 0 row))

abbrev pub any_row : List (List Value) → Bool
any_row [] = false
any_row (row ∷ rest) = true

-- The ids of the rows, NULL left out.
abbrev id_and : Value → List UserId → List UserId
id_and (text_value s) ids = s ∷ ids
id_and (int_value n) ids = ids
id_and (blob_value b) ids = b ∷ ids
id_and null_value ids = ids

unfoldable pub ids_of : List (List Value) → List UserId
ids_of [] = []
ids_of (row ∷ rows) = id_and (column 0 row) (ids_of rows)

module _ {D : Type 0} (db : Sqlite D) where
  unfoldable pub open_keys : Bool → Exec D (Unit {0})
  open_keys opened = open_with db opened (
      codes
        "CREATE TABLE IF NOT EXISTS recipient_pubkeys(user_id TEXT PRIMARY KEY, pubkey BLOB, alg TEXT, created_at TEXT);")

  unfoldable pub save_pubkey : Bytes → UserId → Bytes → Exec D (Unit {0})
  save_pubkey now uid pub_key =
      if is_empty uid
      then raise (validation (codes "user_id empty"))
      else if not (length pub_key == 32)
      then raise (validation (codes "pubkey must be 32 bytes"))
      else if is_empty pub_key
      then raise (validation (codes "pubkey empty"))
      else insert db insert_sql (row_of uid pub_key now) (codes "duplicate user_id")

  unfoldable pub get_pubkey : UserId → D → Outcome Bytes
  get_pubkey uid d =
      if is_empty uid
      then throws (validation (codes "user_id empty"))
      else if not (db.prepares key_sql d)
      then throws (runtime (codes "prepare failed"))
      else first_key (db.rows key_sql (bound_text uid ∷ []) d)

  unfoldable pub exists : UserId → D → Bool
  exists uid d =
      if is_empty uid
      then false
      else if not (db.prepares exists_sql d)
      then false
      else any_row (db.rows exists_sql (bound_text uid ∷ []) d)

  unfoldable pub list_all : D → List UserId
  list_all d = if not (db.prepares all_sql d) then [] else ids_of (db.rows all_sql [] d)
