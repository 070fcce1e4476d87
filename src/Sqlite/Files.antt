-- ===== src/Sqlite/Files.antt =====
-- src/infrastructure/sqlite_file_repo.cpp: `SqliteFileRepository`. The conversions of the standard
-- library between numbers and texts are the record `Numbers`.
use secure_file_transfer.Base.{
  ℕ, Bool, false, not, ◌||◌, ◌&&◌, List, [], ◌∷◌, Bytes, codes, is_empty, length, replicate, ltb,
  ◌==◌, if◌then◌else◌, Option, none, some, Exec, runtime, Outcome, returns, throws, then_,
}
use secure_file_transfer.Domain.Ids.{hex_bytes}
use secure_file_transfer.Domain.Records.{
  UserId, FileId, FileRecord, Digest, WrappedKey, default_alg, make_wrapped_key, Result, success,
  failure,
}
use secure_file_transfer.Sqlite.{
  Sqlite, Value, int_value, blob_value, null_value, bound_text, blob_of, text_or, int_of, column,
  insert, open_with,
}

-- `std::stoi(s, nullptr, 16)` of two characters, `std::to_string`, and `std::stoll`; `none` where they
-- throw.
pub record Numbers : Type 0 where
  pub stoi_hex : Bytes → Option ℕ
  pub to_string : ℕ → Bytes
  pub stoll : Bytes → Option ℕ

abbrev pub insert_sql : Bytes
insert_sql =
    codes
      "INSERT INTO files(id, owner_id, recipient_id, orig_name, storage_id, size, digest, wrapped_dek, nonce, upload_id, created_at) VALUES(?,?,?,?,?,?,?,?,?,?,?);"

abbrev pub by_id_sql : Bytes
by_id_sql =
    codes
      "SELECT id, owner_id, recipient_id, orig_name, storage_id, size, digest, wrapped_dek, nonce, upload_id, created_at FROM files WHERE id=?;"

abbrev pub by_owner_sql : Bytes
by_owner_sql =
    codes
      "SELECT id, owner_id, recipient_id, orig_name, storage_id, size, digest, wrapped_dek, nonce, upload_id, created_at FROM files WHERE owner_id=?;"

abbrev pub count_sql : Bytes
count_sql = codes "SELECT COUNT(*) FROM files WHERE upload_id=?;"

abbrev pub zero_digest : Digest
zero_digest = replicate 32 0

-- A vector as a BLOB, NULL if it is empty.
abbrev pub bound_blob : Bytes → Value
bound_blob b = if not (is_empty b) then blob_value b else null_value

-- `r.wrapped`, put together from the columns; `fallback` is the `catch` of the constructor.
abbrev direct_key : UserId → Bytes → Bytes → WrappedKey
direct_key recipient nonce bytes = record {
  recipient_id = recipient;
  nonce = nonce;
  bytes = bytes;
  alg = default_alg;
}

abbrev key_or : WrappedKey → Outcome WrappedKey → WrappedKey
key_or fallback (returns w) = w
key_or fallback (throws e) = fallback

unfoldable pub wrapped_of : UserId → Bytes → Bytes → WrappedKey
unfolding make_wrapped_key
wrapped_of recipient nonce bytes =
    if not (is_empty nonce) || not (is_empty bytes)
    then (if (length nonce == 12) && not (is_empty bytes)
        then key_or (direct_key recipient nonce bytes)
            (make_wrapped_key recipient nonce bytes default_alg)
        else direct_key recipient nonce bytes)
    else direct_key recipient [] []

module _ (num : Numbers) where
  abbrev pub digest_to_hex : Digest → Bytes
  digest_to_hex d = hex_bytes d

  abbrev byte_of : Option ℕ → Outcome ℕ
  byte_of none = throws (runtime (codes "stoi"))
  byte_of (some n) = returns n

  -- The loop over the pairs of characters.
  unfoldable pub read_pairs : Bytes → Outcome Bytes
  read_pairs [] = returns []
  read_pairs (a ∷ []) = returns []
  read_pairs (a ∷ (b ∷ rest)) =
      then_ (byte_of (num.stoi_hex (a ∷ (b ∷ []))))
        (λ n. then_ (read_pairs rest) (λ bytes. returns (n ∷ bytes)))

  unfoldable pub hex_to_digest : Bytes → Outcome Digest
  unfolding read_pairs
  hex_to_digest s = if not (length s == 64) then returns zero_digest else read_pairs s

  -- The parameters of the INSERT.
  unfoldable pub row_of : FileRecord → List Value
  row_of r =
      bound_text r.id
      ∷ (bound_text r.owner
          ∷ (bound_text r.recipient
              ∷ (bound_text r.orig_name
                  ∷ (bound_text r.storage_id
                      ∷ (int_value r.size
                          ∷ (bound_text (digest_to_hex r.digest)
                              ∷ (bound_blob r.wrapped.bytes
                                  ∷ (bound_blob r.wrapped.nonce
                                      ∷ (bound_text r.upload_id
                                          ∷ (bound_text (num.to_string r.created_at) ∷ []))))))))))

  abbrev or_zero : Option ℕ → ℕ
  or_zero none = 0
  or_zero (some n) = n

  abbrev record_of : List Value → Digest → FileRecord
  record_of row digest = record {
    id = text_or [] (column 0 row);
    owner = text_or [] (column 1 row);
    orig_name = text_or [] (column 3 row);
    storage_id = text_or [] (column 4 row);
    size = int_of (column 5 row);
    digest = digest;
    wrapped =
        wrapped_of (text_or [] (column 2 row)) (blob_of (column 8 row)) (blob_of (column 7 row));
    recipient = text_or [] (column 2 row);
    upload_id = text_or [] (column 9 row);
    created_at = or_zero (num.stoll (text_or (codes "0") (column 10 row)));
  }

  -- A row as a record; a digest that is no number is not caught.
  unfoldable pub record_from : List Value → Outcome FileRecord
  unfolding hex_to_digest
  record_from row =
      then_ (hex_to_digest (text_or [] (column 6 row))) (λ digest. returns (record_of row digest))

  abbrev pub first_record : List (List Value) → Outcome (Result FileRecord)
  first_record [] = returns (failure (codes "not found"))
  first_record (row ∷ rest) = then_ (record_from row) (λ r. returns (success r))

  unfoldable pub records_from : List (List Value) → Outcome (List FileRecord)
  unfolding record_from
  records_from [] = returns []
  records_from (row ∷ rows) =
      then_ (record_from row) (λ r. then_ (records_from rows) (λ rs. returns (r ∷ rs)))

  abbrev pub first_count : List (List Value) → Bool
  first_count [] = false
  first_count (row ∷ rest) = ltb 0 (int_of (column 0 row))

  module _ {D : Type 0} (db : Sqlite D) where
    unfoldable pub open_files : Bool → Exec D (Unit {0})
    open_files opened = open_with db opened (
        codes
          "CREATE TABLE IF NOT EXISTS files(id TEXT PRIMARY KEY, owner_id TEXT, recipient_id TEXT, orig_name TEXT, storage_id TEXT UNIQUE, size INTEGER, digest TEXT, wrapped_dek BLOB, nonce BLOB, upload_id TEXT UNIQUE, created_at TEXT);")

    unfoldable pub save : FileRecord → Exec D (Unit {0})
    save r = insert db insert_sql (row_of r) (codes "duplicate upload_id or storage_id or id")

    unfoldable pub find_by_id : FileId → D → Outcome (Result FileRecord)
    find_by_id id d =
        if not (db.prepares by_id_sql d)
        then returns (failure (codes "prepare failed"))
        else first_record (db.rows by_id_sql (bound_text id ∷ []) d)

    unfoldable pub find_by_owner : UserId → D → Outcome (List FileRecord)
    find_by_owner owner d =
        if not (db.prepares by_owner_sql d)
        then returns []
        else records_from (db.rows by_owner_sql (bound_text owner ∷ []) d)

    unfoldable pub exists_upload_id : Bytes → D → Bool
    exists_upload_id upload_id d =
        if not (db.prepares count_sql d)
        then false
        else first_count (db.rows count_sql (bound_text upload_id ∷ []) d)
