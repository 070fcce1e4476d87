-- ===== src/Transfers/Atomic.antt =====
-- What an upload leaves behind: the blob and the record together, or neither.
use secure_file_transfer.Base.{
  ◌≡◌, ◌⊎◌, true, false, ◌++◌, arith, codes, is_empty, str_eq_iff, returns, throws, Exception,
}
use secure_file_transfer.Base.Dict.{emplace_fresh, get-put_self, contains-none}
use secure_file_transfer.Blobs.{IsStore}
use secure_file_transfer.Domain.Records.{UserId, SessionId, FileRecord, Transfer, uploaded, success}
use secure_file_transfer.Domain.User.{User}
use secure_file_transfer.Domain.Ids.{generate_user_id}
use secure_file_transfer.Users
use secure_file_transfer.Sessions
use secure_file_transfer.Files
use secure_file_transfer.Keys
use secure_file_transfer.World.{Platform, World, next_reading, ticked, event}
use secure_file_transfer.Transfers.{
  Upload, download, download_action, upload, store_upload, make_record, validate_upload,
}

module _ {A B T : Type 0} (p : Platform A B T) where
  -- An upload succeeds only with a token that is valid at the time of the call, for a known
  -- recipient with a public key, with a name, size and header that validate, and an upload id that is
  -- not empty and not taken. The transfer is then from the token's user to the recipient.
  pub upload-grant :
      (token : SessionId) (up : Upload) (w : World A B T) {t : Transfer}
      → (upload p token up w).0 ≡ returns (success t)
      → (recipient : User) × (Sessions.is_valid p.sha256_hex token (next_reading w) w.sessions
          ≡ true)
        × (Sessions.user_for p.sha256_hex token w.sessions ≡ returns t.sender)
        × (Users.find_by_username up.recipient_username w.users ≡ success recipient)
        × (t.recipient ≡ recipient.id)
        × (Keys.exists recipient.id w.keys ≡ true)
        × (validate_upload p.lexically_normal up.orig_name up.size up.opaque ≡ returns tt)
        × (is_empty up.upload_id ≡ false)
        × (Files.exists_upload_id up.upload_id w.files ≡ false)
        × (t.status ≡ uploaded)
  unfolding upload
  upload-grant token up w e = ground arith

  -- The record that a successful upload saved, and where its bytes went.
  abbrev pub Stored : Upload → Transfer → FileRecord → World A B T → World A B T → Type 0
  Stored up t fr w w' =
      (fr.id ≡ t.file)
      × (fr.owner ≡ t.sender)
      × (fr.recipient ≡ t.recipient)
      × (fr.upload_id ≡ up.upload_id)
      × (fr.digest ≡ up.digest)
      × (fr.wrapped ≡ up.wrapped)
      × ((p.staged_write fr.storage_id up.opaque w.blobs).0 ≡ returns tt)
      × (w'.blobs ≡ (p.staged_write fr.storage_id up.opaque w.blobs).1)
      × (Files.save fr w.files ≡ returns w'.files)
      × (w'.sessions ≡ w.sessions)

  -- The record of an upload, with the identifiers and the time that are drawn for it.
  abbrev pub drawn_record : UserId → UserId → Upload → World A B T → FileRecord
  drawn_record sender recipient up w =
      let file = generate_user_id w.entropy in
      let stem = generate_user_id file.1 in
      make_record p sender recipient up file.0 (stem.0 ++ codes ".bin") (next_reading w)

  store_upload-stores :
      (sender recipient : UserId) (up : Upload) (w : World A B T) {t : Transfer}
      → (store_upload p sender recipient up w).0 ≡ returns (success t)
      → (fr : FileRecord) × Stored up t fr w (store_upload p sender recipient up w).1
  unfolding store_upload
  store_upload-stores sender recipient up w {t} e =
      (drawn_record sender recipient up w, ground arith)

  upload-runs :
      (token : SessionId) (up : Upload) (w : World A B T) {t : Transfer}
      → (upload p token up w).0 ≡ returns (success t)
      → (sender recipient : UserId) × (upload p token up w
          ≡ store_upload p sender recipient up (ticked w))
  unfolding upload
  upload-runs token up w {t} e =
      let (recipient, valid, sender, found, same, known, sound, given, free, done) =
        upload-grant token up w e in
      (t.sender, recipient.id, ground arith)

  -- A successful upload wrote its bytes to the blob store, and saved one record, of the transfer's
  -- file, sender and recipient, that names them.
  pub upload-stores :
      (token : SessionId) (up : Upload) (w : World A B T) {t : Transfer}
      → (upload p token up w).0 ≡ returns (success t)
      → (fr : FileRecord) × Stored up t fr w (upload p token up w).1
  upload-stores token up w {t} e =
      let (sender, recipient, same) = upload-runs token up w e in
      let e' : (store_upload p sender recipient up (ticked w)).0 ≡ returns (success t) =
        rw same at e in
      rw same (store_upload-stores sender recipient up (ticked w) e')

  pub save-finds :
      (fr : FileRecord) (r : Files.Files) {r' : Files.Files}
      → Files.save fr r ≡ returns r'
      → Files.find_by_id fr.id r' ≡ success fr
  unfolding Files.save Files.find_by_id
  save-finds fr r e = ground (
    arith,
    contains-none fr.id r.by_id,
    emplace_fresh fr.id fr r.by_id,
    get-put_self fr.id fr r.by_id,
  )

  -- Over a blob store that reads back what was written, what a successful upload was given is what a
  -- download of its file then delivers to the recipient or the sender with a valid token, once the
  -- audit log has taken the event.
  pub upload-download :
      (token other : SessionId) (up : Upload) (w : World A B T) (reader : UserId) {t : Transfer}
      → IsStore p.staged_write p.read_blob p.remove_staged
      → (upload p token up w).0 ≡ returns (success t)
      → let w' = (upload p token up w).1 in
        Sessions.is_valid p.sha256_hex other (next_reading w') w.sessions ≡ true
        → Sessions.user_for p.sha256_hex other w.sessions ≡ returns reader
        → (reader ≡ t.recipient) ⊎ (reader ≡ t.sender)
        → (p.record_event (event reader download_action t.file) w'.audit).0 ≡ returns tt
        → (download p other t.file w').0 ≡ returns (success up.opaque)
  unfolding download
  upload-download token other up w reader {t} store e valid known party taken =
      let w' = (upload p token up w).1 in
      let (
        fr,
        (same_id, owner, recipient, upload_id, digest, wrapped, wrote, blobs, saved, sessions),
      ) =
        upload-stores token up w e in
      let found = save-finds fr w.files saved in
      let back = store.read_back fr.storage_id up.opaque w.blobs wrote in
      ground (arith, str_eq_iff fr.owner reader, str_eq_iff fr.recipient reader)

  -- An upload whose record cannot be saved throws what `save` threw, keeps every file record, and
  -- its bytes are not to be read under the name that was chosen for them.
  pub upload-rollback :
      (sender recipient : UserId) (up : Upload) (w : World A B T) {e : Exception}
      → IsStore p.staged_write p.read_blob p.remove_staged
      → (p.staged_write (drawn_record sender recipient up w).storage_id up.opaque w.blobs).0
        ≡ returns tt
      → Files.save (drawn_record sender recipient up w) w.files ≡ throws e
      → let w' = (store_upload p sender recipient up w).1 in
        ((store_upload p sender recipient up w).0 ≡ throws e)
        × (w'.files ≡ w.files)
        × ((x : Exception) × ((p.read_blob
                (drawn_record sender recipient up w).storage_id
                w'.blobs).0
              ≡ throws x))
  unfolding store_upload
  upload-rollback sender recipient up w {e} store wrote refused =
      let fr = drawn_record sender recipient up w in
      let (x, gone) =
        store.removed fr.storage_id (p.staged_write fr.storage_id up.opaque w.blobs).1 in
      (ground arith, ground arith, (x, ground arith))
