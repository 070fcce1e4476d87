-- ===== src/Tests/Files.antt =====
-- Uploads and downloads on the example server.
use secure_file_transfer.Base.{
  ◌≤◌, ◌*◌, ◌≡◌, refl, ◌↔◌, ◌⊎◌, inl, true, false, [], ◌∷◌, Bytes, codes, str_eq, is_empty,
  Exception, validation, returns, throws,
}
use secure_file_transfer.Base.Dict.{get, put, emplace, erase, contains}
use secure_file_transfer.Blobs
use secure_file_transfer.Blobs.{memory-IsStore}
use secure_file_transfer.Domain.Records.{
  success, FileRecord, Transfer, uploaded, no_key, session_valid,
}
use secure_file_transfer.Domain.User.{User}
use secure_file_transfer.Domain.Ids.{octets, hex_bytes, uuid_of_hex, generate_user_id}
use secure_file_transfer.Users
use secure_file_transfer.Users.Calls.{calls, call}
use secure_file_transfer.Sessions
use secure_file_transfer.Files
use secure_file_transfer.Keys
use secure_file_transfer.Validator.{validate, starts_with, has_part, ends_with, lacks_magic}
use secure_file_transfer.Validator.Accepts.{validate-accepts}
use secure_file_transfer.Validator.Parts.{Begins, Has, Ends}
use secure_file_transfer.World.{World, next_reading}
use secure_file_transfer.Transfers.{
  Upload, upload, download, store_upload, validate_upload, ends_pdf,
}
use secure_file_transfer.Transfers.Access.{download-grant}
use secure_file_transfer.Transfers.Atomic.{
  drawn_record, upload-grant, upload-download, upload-rollback,
}
use secure_file_transfer.Tests.Setup.{
  AuditLog, BlobStore, TransferList, platform, machine, stored_file,
}

-- root sends bob three bytes.
abbrev request : Bytes → Upload
request id = record {
  recipient_username = codes "bob";
  orig_name = codes "b.pdf";
  opaque = 9 ∷ (8 ∷ (7 ∷ []));
  upload_id = id;
  size = 3;
  digest = [];
  wrapped = no_key;
}

abbrev sent : Transfer
sent = record {
  id = (generate_user_id (record machine.entropy { drawn = 32 })).0;
  file = (generate_user_id machine.entropy).0;
  sender = codes "u1";
  recipient = codes "u2";
  status = uploaded;
}

accepted : (upload platform (codes "t1") (request (codes "up2")) machine).0 ≡ returns (success sent)
unfolding upload download store_upload validate_upload validate ends_pdf starts_with has_part
    ends_with lacks_magic Users.find_by_id Users.find_by_username Users.save Sessions.find_by_token
    Sessions.is_valid Sessions.user_for Files.save Files.find_by_id Files.exists_upload_id
    Keys.exists Blobs.staged_write Blobs.read Blobs.remove_staged calls call get put emplace erase
    contains str_eq is_empty session_valid octets hex_bytes uuid_of_hex generate_user_id
accepted = refl

upload-grant_example :
    (recipient : User) × (Sessions.is_valid platform.sha256_hex
        (codes "t1")
        (next_reading machine)
        machine.sessions
      ≡ true)
    × (Sessions.user_for platform.sha256_hex (codes "t1") machine.sessions ≡ returns sent.sender)
    × (Users.find_by_username (codes "bob") machine.users ≡ success recipient)
    × (sent.recipient ≡ recipient.id)
    × (Keys.exists recipient.id machine.keys ≡ true)
    × (validate_upload platform.lexically_normal (codes "b.pdf") 3 (9 ∷ (8 ∷ (7 ∷ [])))
        ≡ returns tt)
    × (is_empty (codes "up2") ≡ false)
    × (Files.exists_upload_id (codes "up2") machine.files ≡ false)
    × (sent.status ≡ uploaded)
upload-grant_example = upload-grant platform (codes "t1") (request (codes "up2")) machine accepted

bob_valid :
    Sessions.is_valid platform.sha256_hex
      (codes "t2")
      (next_reading (upload platform (codes "t1") (request (codes "up2")) machine).1)
      machine.sessions
    ≡ true
unfolding upload download store_upload validate_upload validate ends_pdf starts_with has_part
    ends_with lacks_magic Users.find_by_id Users.find_by_username Users.save Sessions.find_by_token
    Sessions.is_valid Sessions.user_for Files.save Files.find_by_id Files.exists_upload_id
    Keys.exists Blobs.staged_write Blobs.read Blobs.remove_staged calls call get put emplace erase
    contains str_eq is_empty session_valid octets hex_bytes uuid_of_hex generate_user_id
bob_valid = refl

bob_owner :
    Sessions.user_for platform.sha256_hex (codes "t2") machine.sessions ≡ returns (codes "u2")
unfolding upload download store_upload validate_upload validate ends_pdf starts_with has_part
    ends_with lacks_magic Users.find_by_id Users.find_by_username Users.save Sessions.find_by_token
    Sessions.is_valid Sessions.user_for Files.save Files.find_by_id Files.exists_upload_id
    Keys.exists Blobs.staged_write Blobs.read Blobs.remove_staged calls call get put emplace erase
    contains str_eq is_empty session_valid octets hex_bytes uuid_of_hex generate_user_id
bob_owner = refl

upload-download_example :
    (download platform
      (codes "t2")
      sent.file
      (upload platform (codes "t1") (request (codes "up2")) machine).1).0
    ≡ returns (success (9 ∷ (8 ∷ (7 ∷ []))))
upload-download_example =
    upload-download platform (codes "t1") (codes "t2") (request (codes "up2")) machine (codes "u2")
      memory-IsStore accepted bob_valid bob_owner (inl refl) refl

-- A machine that holds a file under the id that is drawn next.
abbrev crowded : World AuditLog BlobStore TransferList
crowded = record machine { files = record machine.files { by_id = (sent.file, stored_file) ∷ [] } }

taken_id :
    Files.save
      (drawn_record platform (codes "u1") (codes "u2") (request (codes "up2")) crowded)
      crowded.files
    ≡ throws (validation (codes "duplicate id"))
unfolding upload download store_upload validate_upload validate ends_pdf starts_with has_part
    ends_with lacks_magic Users.find_by_id Users.find_by_username Users.save Sessions.find_by_token
    Sessions.is_valid Sessions.user_for Files.save Files.find_by_id Files.exists_upload_id
    Keys.exists Blobs.staged_write Blobs.read Blobs.remove_staged calls call get put emplace erase
    contains str_eq is_empty session_valid octets hex_bytes uuid_of_hex generate_user_id
taken_id = refl

written :
    (platform.staged_write
      (drawn_record platform (codes "u1") (codes "u2") (request (codes "up2")) crowded).storage_id
      (9 ∷ (8 ∷ (7 ∷ [])))
      crowded.blobs).0
    ≡ returns tt
unfolding upload download store_upload validate_upload validate ends_pdf starts_with has_part
    ends_with lacks_magic Users.find_by_id Users.find_by_username Users.save Sessions.find_by_token
    Sessions.is_valid Sessions.user_for Files.save Files.find_by_id Files.exists_upload_id
    Keys.exists Blobs.staged_write Blobs.read Blobs.remove_staged calls call get put emplace erase
    contains str_eq is_empty session_valid octets hex_bytes uuid_of_hex generate_user_id
written = refl

upload-rollback_example :
    ((store_upload platform (codes "u1") (codes "u2") (request (codes "up2")) crowded).0
      ≡ throws (validation (codes "duplicate id")))
    × ((store_upload platform (codes "u1") (codes "u2") (request (codes "up2")) crowded).1.files
        ≡ crowded.files)
    × ((x : Exception) × ((platform.read_blob
            (drawn_record platform
              (codes "u1")
              (codes "u2")
              (request (codes "up2"))
              crowded).storage_id
            (store_upload platform
              (codes "u1")
              (codes "u2")
              (request (codes "up2"))
              crowded).1.blobs).0
          ≡ throws x))
upload-rollback_example =
    upload-rollback platform (codes "u1") (codes "u2") (request (codes "up2")) crowded
      memory-IsStore written taken_id

bob_reads :
    (download platform (codes "t2") (codes "f1") machine).0 ≡ returns (success (1 ∷ (2 ∷ (3 ∷ []))))
unfolding upload download store_upload validate_upload validate ends_pdf starts_with has_part
    ends_with lacks_magic Users.find_by_id Users.find_by_username Users.save Sessions.find_by_token
    Sessions.is_valid Sessions.user_for Files.save Files.find_by_id Files.exists_upload_id
    Keys.exists Blobs.staged_write Blobs.read Blobs.remove_staged calls call get put emplace erase
    contains str_eq is_empty session_valid octets hex_bytes uuid_of_hex generate_user_id
bob_reads = refl

download-grant_example :
    (reader : Bytes) × (fr : FileRecord) × (Sessions.is_valid platform.sha256_hex
        (codes "t2")
        (next_reading machine)
        machine.sessions
      ≡ true)
    × (Sessions.user_for platform.sha256_hex (codes "t2") machine.sessions ≡ returns reader)
    × (Files.find_by_id (codes "f1") machine.files ≡ success fr)
    × ((fr.owner ≡ reader) ⊎ (fr.recipient ≡ reader))
    × ((platform.read_blob fr.storage_id machine.blobs).0 ≡ returns (1 ∷ (2 ∷ (3 ∷ []))))
download-grant_example = download-grant platform (codes "t2") (codes "f1") machine bob_reads

validate-accepts_example : (validate (λ n. n) (codes "b.pdf") 3 (codes "%PDF-1.4") ≡ returns tt) ↔ (
    (¬ (codes "b.pdf" ≡ []))
    × (¬ Has (0 ∷ []) (codes "b.pdf"))
    × (¬ Has (codes "..") (codes "b.pdf"))
    × Ends (codes ".pdf") (codes "b.pdf")
    × (¬ Has (codes ".pdf.") (codes "b.pdf"))
    × (3 ≤ 100 * 1024 * 1024)
    × Begins (codes "%PDF") (codes "%PDF-1.4"))
validate-accepts_example = validate-accepts (λ n. n) (codes "b.pdf") 3 (codes "%PDF-1.4")
