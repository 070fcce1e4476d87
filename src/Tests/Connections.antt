-- ===== src/Tests/Connections.antt =====
-- A connection to the example server.
use secure_file_transfer.Base.{
  ◌<◌, ◌^◌, ◌≡◌, refl, not, ◌||◌, true, false, List, [], ◌∷◌, concat, All, arith, Bytes, codes,
  length, str_eq, is_empty, some,
}
use secure_file_transfer.Base.Dict.{get, put, emplace, erase, contains}
use secure_file_transfer.Blobs
use secure_file_transfer.Domain.Records.{no_key, session_valid}
use secure_file_transfer.Domain.Ids.{octets, hex_bytes, uuid_of_hex, generate_user_id}
use secure_file_transfer.Users
use secure_file_transfer.Users.Calls.{calls, call}
use secure_file_transfer.Sessions
use secure_file_transfer.Files
use secure_file_transfer.Keys
use secure_file_transfer.Validator.{validate, starts_with, has_part, ends_with, lacks_magic}
use secure_file_transfer.World.{ticked}
use secure_file_transfer.Wire.Words.{get32be}
use secure_file_transfer.Wire.Frame.{Frame, list_msg, logout_msg, upload_commit}
use secure_file_transfer.Protocol.{UploadInit, decode_upload_data}
use secure_file_transfer.Auth.{logout}
use secure_file_transfer.Transfers.{upload, validate_upload, ends_pdf, store_upload}
use secure_file_transfer.Server.{Live, commit_id, id_of_body}
use secure_file_transfer.Server.Handlers.{handle, serve, on_upload_commit, upload_of}
use secure_file_transfer.Server.Replies.{Answered, handle-Answered}
use secure_file_transfer.Server.Assembly.{data_frames}
use secure_file_transfer.Server.Commit.{commit-unauthorized, chunks-uploaded}
use secure_file_transfer.Tests.Setup.{AuditLog, BlobStore, TransferList, platform, machine, live}

abbrev request : Frame
request = record { type = list_msg; request_id = 4; body = [] }

not_logout : ¬ (list_msg ≡ logout_msg)
not_logout e = omega arith

handle-Answered_example : Answered request live (handle platform request live)
handle-Answered_example = handle-Answered platform request live refl (λ e. absurd (not_logout e))

abbrev announcement : UploadInit
announcement = record {
  recipient = codes "bob";
  orig_name = codes "b.pdf";
  upload_id = codes "up2";
  size = 3;
  digest = [];
  wrapped = no_key;
}

abbrev announced : Bytes → Live AuditLog BlobStore TransferList
announced bytes = record live {
  conn = record {
    pending_init = (codes "up2", announcement) ∷ [];
    pending_data = (codes "up2", bytes) ∷ [];
    conn_token = codes "t1";
  };
}

abbrev pieces : List Bytes
pieces = (9 ∷ (8 ∷ [])) ∷ ((7 ∷ []) ∷ [])

abbrev commit : Frame
commit = record { type = upload_commit; request_id = 9; body = codes "up2" }

commit_names : commit_id commit.body (announced []).conn.pending_init ≡ codes "up2"
unfolding logout commit_id id_of_body get32be decode_upload_data upload store_upload validate_upload
    validate ends_pdf starts_with has_part ends_with lacks_magic Users.find_by_id
    Users.find_by_username Users.save Sessions.find_by_token Sessions.is_valid Sessions.invalidate
    Files.save Files.exists_upload_id Keys.exists Blobs.staged_write calls call get put emplace
    erase contains str_eq is_empty session_valid octets hex_bytes uuid_of_hex generate_user_id
    Sessions.user_for
commit_names = refl

init_found : get (codes "up2") (announced []).conn.pending_init ≡ some announcement
unfolding logout commit_id id_of_body get32be decode_upload_data upload store_upload validate_upload
    validate ends_pdf starts_with has_part ends_with lacks_magic Users.find_by_id
    Users.find_by_username Users.save Sessions.find_by_token Sessions.is_valid Sessions.invalidate
    Files.save Files.exists_upload_id Keys.exists Blobs.staged_write calls call get put emplace
    erase contains str_eq is_empty session_valid octets hex_bytes uuid_of_hex generate_user_id
    Sessions.user_for
init_found = refl

none_yet : get (codes "up2") (announced []).conn.pending_data ≡ some []
unfolding logout commit_id id_of_body get32be decode_upload_data upload store_upload validate_upload
    validate ends_pdf starts_with has_part ends_with lacks_magic Users.find_by_id
    Users.find_by_username Users.save Sessions.find_by_token Sessions.is_valid Sessions.invalidate
    Files.save Files.exists_upload_id Keys.exists Blobs.staged_write calls call get put emplace
    erase contains str_eq is_empty session_valid octets hex_bytes uuid_of_hex generate_user_id
    Sessions.user_for
none_yet = refl

short_pieces : All (λ c. length c < 2 ^ 32) pieces
short_pieces = (omega arith, (omega arith, tt))

few_bytes : length (concat pieces) < 2 ^ 64
unfolding concat
few_bytes = omega arith

has_token : is_empty (codes "t1") ≡ false
unfolding is_empty
has_token = refl

token_valid : Sessions.is_valid platform.sha256_hex (codes "t1") 10 machine.sessions ≡ true
unfolding logout commit_id id_of_body get32be decode_upload_data upload store_upload validate_upload
    validate ends_pdf starts_with has_part ends_with lacks_magic Users.find_by_id
    Users.find_by_username Users.save Sessions.find_by_token Sessions.is_valid Sessions.invalidate
    Files.save Files.exists_upload_id Keys.exists Blobs.staged_write calls call get put emplace
    erase contains str_eq is_empty session_valid octets hex_bytes uuid_of_hex generate_user_id
    Sessions.user_for
token_valid = refl

chunks-uploaded_example :
    (on_upload_commit platform commit
      (serve platform (data_frames (codes "up2") 1 0 pieces) (announced []))).1.world
    ≡ (upload platform (codes "t1") (upload_of announcement (concat pieces)) (ticked machine)).1
chunks-uploaded_example =
    chunks-uploaded platform commit (codes "up2") 1 pieces announcement (announced []) (λ n. refl)
      (omega arith) short_pieces few_bytes commit_names init_found none_yet has_token token_valid

abbrev full : Live AuditLog BlobStore TransferList
full = announced (9 ∷ (8 ∷ (7 ∷ [])))

abbrev anonymous : Live AuditLog BlobStore TransferList
anonymous = record full { conn = record full.conn { conn_token = codes "stale" } }

no_session :
    (is_empty (codes "stale")
      || not (Sessions.is_valid platform.sha256_hex (codes "stale") 10 machine.sessions))
    ≡ true
unfolding logout commit_id id_of_body get32be decode_upload_data upload store_upload validate_upload
    validate ends_pdf starts_with has_part ends_with lacks_magic Users.find_by_id
    Users.find_by_username Users.save Sessions.find_by_token Sessions.is_valid Sessions.invalidate
    Files.save Files.exists_upload_id Keys.exists Blobs.staged_write calls call get put emplace
    erase contains str_eq is_empty session_valid octets hex_bytes uuid_of_hex generate_user_id
    Sessions.user_for
no_session = refl

commit-unauthorized_example :
    ((on_upload_commit platform commit anonymous).1.world.files ≡ machine.files)
    × ((on_upload_commit platform commit anonymous).1.world.blobs ≡ machine.blobs)
    × ((on_upload_commit platform commit anonymous).1.world.transfers ≡ machine.transfers)
commit-unauthorized_example = commit-unauthorized platform commit anonymous no_session
