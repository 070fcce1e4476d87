-- ===== src/Sqlite/RoundTrip.antt =====
-- A file record and a transfer, written as rows, are read back from them.
use secure_file_transfer.Base.{
  ℕ, ◌+◌, ◌/◌, ◌%◌, ◌^◌, ◌<◌, ◌≡◌, refl, ◌∙◌, true, [], ◌∷◌, Bytes, is_empty, is_empty_sound,
  length, some, returns, arith, All, ◌==◌, ==_iff,
}
use secure_file_transfer.Domain.Ids.{hex_bytes, hex_digit}
use secure_file_transfer.Domain.Records.{
  FileRecord, UserId, Transfer, Status, created, uploaded, downloaded, failed, default_alg,
  make_wrapped_key,
}
use secure_file_transfer.Sqlite.{c_str, blob_of}
use secure_file_transfer.Sqlite.Files.{
  Numbers, wrapped_of, bound_blob, read_pairs, hex_to_digest, row_of, record_from,
}
use secure_file_transfer.Sqlite.Transfers.{string_to_status-status_to_string, transfer_of}
use secure_file_transfer.Sqlite.Transfers

-- A text that a C string holds: it has no NUL.
abbrev pub IsText : Bytes → Type 0
IsText s = c_str s ≡ s

-- What the standard library documents of the conversions.
pub record NumbersWork (num : Numbers) : Type 0 where
  pub reads_hex :
      (b : ℕ) → b < 256 → num.stoi_hex (hex_digit (b / 16) ∷ (hex_digit (b % 16) ∷ [])) ≡ some b
  pub reads_decimal : (n : ℕ) → n < 2 ^ 63 → num.stoll (num.to_string n) ≡ some n
  pub decimal_text : (n : ℕ) → IsText (num.to_string n)

wrapped_of-fields :
    (recipient : UserId) (nonce bytes : Bytes)
    → wrapped_of recipient nonce bytes
      ≡ record { recipient_id = recipient; nonce = nonce; bytes = bytes; alg = default_alg }
unfolding wrapped_of make_wrapped_key
wrapped_of-fields recipient nonce bytes = ground (arith, is_empty_sound nonce, is_empty_sound bytes)

blob_of-bound_blob : (b : Bytes) → blob_of (bound_blob b) ≡ b
unfolding is_empty
blob_of-bound_blob [] = refl
blob_of-bound_blob (x ∷ xs) = refl

hex_bytes-IsText : (d : Bytes) → IsText (hex_bytes d)
unfolding hex_bytes hex_digit c_str
hex_bytes-IsText [] = refl
hex_bytes-IsText (b ∷ bs) = ground (arith, hex_bytes-IsText bs)

length-hex_bytes : (d : Bytes) → length (hex_bytes d) ≡ length d + length d
unfolding hex_bytes
length-hex_bytes [] = omega arith
length-hex_bytes (b ∷ bs) = omega (arith, length-hex_bytes bs)

own_key :
    (r : FileRecord)
    → r.wrapped.recipient_id ≡ r.recipient
    → r.wrapped.alg ≡ default_alg
    → record {
      recipient_id = r.recipient;
      nonce = r.wrapped.nonce;
      bytes = r.wrapped.bytes;
      alg = default_alg;
    }
      ≡ r.wrapped
own_key r same alg = rw (← same, ← alg) refl

module _ (num : Numbers) (works : NumbersWork num) where
  read_pairs-hex_bytes :
      (d : Bytes) → All (λ b. b < 256) d → read_pairs num (hex_bytes d) ≡ returns d
  unfolding read_pairs hex_bytes
  read_pairs-hex_bytes [] small = refl
  read_pairs-hex_bytes (b ∷ bs) (low, lows) =
      rw (works.reads_hex b low, read_pairs-hex_bytes bs lows) refl

  -- A digest is read back from its hexadecimal text.
  hex_to_digest-hex_bytes :
      (d : Bytes)
      → length d ≡ 32
      → All (λ b. b < 256) d
      → hex_to_digest num (hex_bytes d) ≡ returns d
  unfolding hex_to_digest
  hex_to_digest-hex_bytes d size small =
      let whole : (length (hex_bytes d) == 64) ≡ true =
        (==_iff (length (hex_bytes d)) 64).1 (omega (arith, length-hex_bytes d)) in
      rw whole (read_pairs-hex_bytes d small)

  -- What a row can hold of a file record: texts without NUL, a digest of 32 bytes, times below 2^63,
  -- and a wrapped key for the record's recipient under the usual algorithm.
  pub record RowFits (r : FileRecord) : Type 0 where
    pub id_text : IsText r.id
    pub owner_text : IsText r.owner
    pub recipient_text : IsText r.recipient
    pub name_text : IsText r.orig_name
    pub storage_text : IsText r.storage_id
    pub upload_text : IsText r.upload_id
    pub digest_size : length r.digest ≡ 32
    pub digest_bytes : All (λ b. b < 256) r.digest
    pub time_fits : r.created_at < 2 ^ 63
    pub key_recipient : r.wrapped.recipient_id ≡ r.recipient
    pub key_alg : r.wrapped.alg ≡ default_alg

  -- Where the standard library converts numbers as it documents, a file record that fits a row is read
  -- back from the row that `save` writes for it.
  pub record_from-row_of : (r : FileRecord) → RowFits r → record_from num (row_of num r) ≡ returns r
  unfolding record_from row_of
  record_from-row_of r fits =
      let digest = hex_to_digest-hex_bytes r.digest fits.digest_size fits.digest_bytes in
      let key : wrapped_of r.recipient (blob_of (bound_blob r.wrapped.nonce))
            (blob_of (bound_blob r.wrapped.bytes))
          ≡ r.wrapped =
        rw (blob_of-bound_blob r.wrapped.nonce, blob_of-bound_blob r.wrapped.bytes)
          (wrapped_of-fields r.recipient r.wrapped.nonce r.wrapped.bytes
            ∙ own_key r fits.key_recipient fits.key_alg) in
      rw
        (
          hex_bytes-IsText r.digest,
          digest,
          fits.id_text,
          fits.owner_text,
          fits.recipient_text,
          fits.name_text,
          fits.storage_text,
          fits.upload_text,
          works.decimal_text r.created_at,
          works.reads_decimal r.created_at fits.time_fits,
          key,
        )
        refl

status-IsText : (s : Status) → IsText (Transfers.status_to_string s)
unfolding c_str Transfers.status_to_string
status-IsText created = refl
status-IsText uploaded = refl
status-IsText downloaded = refl
status-IsText failed = refl

-- A transfer whose ids have no NUL is read back from the row that `save` writes for it.
pub transfer_of-row_of :
    (t : Transfer)
    → IsText t.id
    → IsText t.file
    → IsText t.sender
    → IsText t.recipient
    → transfer_of (Transfers.row_of t) ≡ t
unfolding transfer_of Transfers.row_of
transfer_of-row_of t i f s r =
    rw (i, f, s, r, status-IsText t.status, string_to_status-status_to_string t.status) refl
