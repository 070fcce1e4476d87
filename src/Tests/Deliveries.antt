-- ===== src/Tests/Deliveries.antt =====
-- root types an upload for bob, who then downloads and decrypts it.
use secure_file_transfer.Base.{
  ◌≡◌, refl, true, false, [], ◌∷◌, Bytes, codes, arith, is_empty, str_eq, returns, inl, length,
  some, none, ◌<◌, ◌^◌,
}
use secure_file_transfer.Base.Dict.{get, put, emplace, erase, contains}
use secure_file_transfer.Blobs
use secure_file_transfer.Blobs.{memory-IsStore}
use secure_file_transfer.Domain.Records.{success, Transfer, uploaded, session_valid}
use secure_file_transfer.Domain.Ids.{octets, hex_bytes, uuid_of_hex, generate_user_id}
use secure_file_transfer.Users
use secure_file_transfer.Users.Calls.{calls, call}
use secure_file_transfer.Sessions
use secure_file_transfer.Files
use secure_file_transfer.Keys
use secure_file_transfer.Validator.{validate, starts_with, has_part, ends_with, lacks_magic}
use secure_file_transfer.World.{next_reading, ticked}
use secure_file_transfer.Transfers.{
  Upload, upload, download, store_upload, validate_upload, ends_pdf, fake_header,
}
use secure_file_transfer.Server.{Live, new_conn}
use secure_file_transfer.Crypto.{decrypt_with}
use secure_file_transfer.Client.{Client}
use secure_file_transfer.Client.Upload.{on_upload}
use secure_file_transfer.Client.Received.{on_upload-upload, request}
use secure_file_transfer.Client.Fetched.{on_upload-received, fetch_frame, data_answer}
use secure_file_transfer.Client.Relay.{relay}
use secure_file_transfer.Domain.Records.{FileRecord}
use secure_file_transfer.Tests.Setup.{AuditLog, BlobStore, TransferList, platform, machine, live}
use secure_file_transfer.Tests.Encryption.{
  small_ssl, bob_key, plain, made, encrypts, small-Works, small-Lawful, length-replicate,
}
use secure_file_transfer.Tests.Clients.{at_once, at_once-Delivers, Net, host, client}

abbrev served : Live AuditLog BlobStore TransferList
served = record live { conn = record live.conn { conn_token = codes "t1" } }

abbrev sender : Client Net
sender = record client {
  lines = codes "b.pdf" ∷ (codes "bob" ∷ (codes "y" ∷ []));
  files = (codes "b.pdf", plain) ∷ [];
  pub_cache = (codes "bob", bob_key) ∷ [];
  net = record { live = served; inbox = none; serving = true };
}

has_token : is_empty (codes "t1") ≡ false
unfolding is_empty
has_token = refl

file_there : get (codes "b.pdf") sender.files ≡ some plain
unfolding get str_eq
file_there = refl

key_known : get (codes "bob") sender.pub_cache ≡ some bob_key
unfolding get str_eq
key_known = refl

name_sound :
    validate platform.lexically_normal (codes "b.pdf") (length plain) fake_header ≡ returns tt
unfolding validate starts_with has_part ends_with lacks_magic is_empty str_eq
name_sound = refl

session_there : Sessions.is_valid platform.sha256_hex (codes "t1") 10 machine.sessions ≡ true
unfolding Sessions.is_valid Sessions.find_by_token get str_eq session_valid
session_there = refl

on_upload-upload_example :
    (on_upload host sender).1.net.live.world
    ≡ (upload platform
        (codes "t1")
        (request platform at_once at_once-Delivers small_ssl
          (λ path. true)
          (λ path. path)
          (codes "b.pdf")
          (codes "bob")
          plain
          made
          sender)
        (ticked (ticked machine))).1
on_upload-upload_example =
    on_upload-upload platform at_once at_once-Delivers small_ssl (λ path. true) (λ path. path)
      (codes "b.pdf") (codes "bob") (codes "y") plain bob_key [] sender small-Works small-Lawful
      has_token refl refl file_there key_known encrypts (omega arith) (omega arith) name_sound
      ((λ n. refl), has_token, session_there, session_there) refl

abbrev sent : Transfer
sent = record {
  id = (generate_user_id (record machine.entropy { drawn = 32 })).0;
  file = (generate_user_id machine.entropy).0;
  sender = codes "u1";
  recipient = codes "u2";
  status = uploaded;
}

abbrev asked : Upload
asked =
    request platform at_once at_once-Delivers small_ssl (λ path. true) (λ path. path)
      (codes "b.pdf") (codes "bob") plain made sender

accepted : (upload platform (codes "t1") asked (ticked (ticked machine))).0 ≡ returns (success sent)
unfolding upload download store_upload validate_upload validate ends_pdf starts_with has_part
    ends_with lacks_magic Users.find_by_id Users.find_by_username Users.save Sessions.find_by_token
    Sessions.is_valid Sessions.user_for Files.save Files.find_by_id Files.exists_upload_id
    Keys.exists Blobs.staged_write Blobs.read Blobs.remove_staged calls call get put emplace erase
    contains str_eq is_empty session_valid octets hex_bytes uuid_of_hex generate_user_id
accepted = refl

bob_valid :
    Sessions.is_valid platform.sha256_hex
      (codes "t2")
      (next_reading (upload platform (codes "t1") asked (ticked (ticked machine))).1)
      machine.sessions
    ≡ true
unfolding upload download store_upload validate_upload validate ends_pdf starts_with has_part
    ends_with lacks_magic Users.find_by_id Users.find_by_username Users.save Sessions.find_by_token
    Sessions.is_valid Sessions.user_for Files.save Files.find_by_id Files.exists_upload_id
    Keys.exists Blobs.staged_write Blobs.read Blobs.remove_staged calls call get put emplace erase
    contains str_eq is_empty session_valid octets hex_bytes uuid_of_hex generate_user_id
bob_valid = refl

bob_owner :
    Sessions.user_for platform.sha256_hex (codes "t2") machine.sessions ≡ returns (codes "u2")
unfolding Sessions.user_for get str_eq
bob_owner = refl

other_token : is_empty (codes "t2") ≡ false
unfolding is_empty
other_token = refl

id_size : length sent.file < 2 ^ 16
unfolding generate_user_id octets hex_bytes uuid_of_hex
id_size = omega arith

on_upload-received_example :
    let w = (on_upload host sender).1.net.live.world in
    let bobs : Net = record {
      live = record { world = w; conn = new_conn; link = live.link };
      inbox = none;
      serving = true;
    } in
    (fr : FileRecord) × (bytes : Bytes) × (Files.find_by_id sent.file w.files ≡ success fr)
    × ((relay platform at_once
          (fetch_frame platform at_once at_once-Delivers small_ssl
            (λ path. true)
            (λ path. path)
            sent.file
            (codes "t2"))
          bobs).inbox
        ≡ some (
            data_answer platform at_once at_once-Delivers small_ssl
              (λ path. true)
              (λ path. path)
              bytes))
    × ((decrypt_with small_ssl bytes fr.wrapped fr.digest bob_key 40).0 ≡ returns plain)
on_upload-received_example =
    on_upload-received platform at_once at_once-Delivers small_ssl (λ path. true) (λ path. path)
      (codes "b.pdf") (codes "bob") (codes "y") plain bob_key [] 40 sender (codes "t2") (codes "u2")
      new_conn live.link small-Works small-Lawful memory-IsStore (length-replicate 32 7) has_token
      refl refl file_there key_known encrypts (omega arith) (omega arith) name_sound
      ((λ n. refl), has_token, session_there, session_there) refl (omega arith) accepted id_size
      (omega arith) other_token (λ n. refl) bob_valid bob_owner (inl refl) refl
