-- ===== src/Sqlite/Transfers.antt =====
-- src/infrastructure/sqlite_transfer_repo.cpp: `SqliteTransferRepository`.
use secure_file_transfer.Base.{
  ◌≡◌, refl, List, [], ◌∷◌, Bytes, codes, str_eq, if◌then◌else◌, Exec, map, Bool, not,
}
use secure_file_transfer.Domain.Records.{
  UserId, TransferId, Transfer, Status, created, uploaded, downloaded, failed, Result, success,
  failure,
}
use secure_file_transfer.Sqlite.{Sqlite, Value, bound_text, text_or, column, insert, open_with}

unfoldable pub status_to_string : Status → Bytes
status_to_string created = codes "CREATED"
status_to_string uploaded = codes "UPLOADED"
status_to_string downloaded = codes "DOWNLOADED"
status_to_string failed = codes "FAILED"

unfoldable pub string_to_status : Bytes → Status
string_to_status s =
    if str_eq s (codes "UPLOADED")
    then uploaded
    else if str_eq s (codes "DOWNLOADED")
    then downloaded
    else if str_eq s (codes "FAILED")
    then failed
    else created

abbrev pub insert_sql : Bytes
insert_sql =
    codes
      "INSERT INTO transfers(id, file_id, sender, recipient, status, created_at, updated_at) VALUES(?,?,?,?,?,?,?);"

abbrev pub by_id_sql : Bytes
by_id_sql =
    codes
      "SELECT id, file_id, sender, recipient, status, created_at, updated_at FROM transfers WHERE id=?;"

abbrev pub for_user_sql : Bytes
for_user_sql =
    codes
      "SELECT id, file_id, sender, recipient, status FROM transfers WHERE sender=? OR recipient=?;"

-- The parameters of the INSERT.
unfoldable pub row_of : Transfer → List Value
row_of t =
    bound_text t.id
    ∷ (bound_text t.file
        ∷ (bound_text t.sender
            ∷ (bound_text t.recipient
                ∷ (bound_text (status_to_string t.status)
                    ∷ (bound_text [] ∷ (bound_text [] ∷ []))))))

-- A row as a transfer. The first four columns are never NULL.
unfoldable pub transfer_of : List Value → Transfer
transfer_of row = record {
  id = text_or [] (column 0 row);
  file = text_or [] (column 1 row);
  sender = text_or [] (column 2 row);
  recipient = text_or [] (column 3 row);
  status = string_to_status (text_or (codes "CREATED") (column 4 row));
}

abbrev first_transfer : List (List Value) → Result Transfer
first_transfer [] = failure (codes "not found")
first_transfer (row ∷ rest) = success (transfer_of row)

module _ {D : Type 0} (db : Sqlite D) where
  unfoldable pub open_transfers : Bool → Exec D (Unit {0})
  open_transfers opened = open_with db opened (
      codes
        "CREATE TABLE IF NOT EXISTS transfers(id TEXT PRIMARY KEY, file_id TEXT, sender TEXT, recipient TEXT, status TEXT, created_at TEXT, updated_at TEXT);")

  unfoldable pub save : Transfer → Exec D (Unit {0})
  save t = insert db insert_sql (row_of t) (codes "duplicate transfer id")

  unfoldable pub find_by_id : TransferId → D → Result Transfer
  find_by_id id d =
      if not (db.prepares by_id_sql d)
      then failure (codes "prepare failed")
      else first_transfer (db.rows by_id_sql (bound_text id ∷ []) d)

  unfoldable pub list_for : UserId → D → List Transfer
  list_for user d =
      if not (db.prepares for_user_sql d)
      then []
      else map transfer_of (db.rows for_user_sql (bound_text user ∷ (bound_text user ∷ [])) d)

-- A status is read back from its name.
pub string_to_status-status_to_string : (s : Status) → string_to_status (status_to_string s) ≡ s
unfolding string_to_status status_to_string str_eq
string_to_status-status_to_string created = refl
string_to_status-status_to_string uploaded = refl
string_to_status-status_to_string downloaded = refl
string_to_status-status_to_string failed = refl
