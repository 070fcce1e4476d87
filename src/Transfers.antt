-- ===== src/Transfers.antt =====
-- src/application/transfer_service.cpp: `TransferService`.
pub mod Access
pub mod Atomic
use secure_file_transfer.Base.{
  ℕ, ◌-◌, ◌||◌, ◌&&◌, Bool, true, false, not, List, [], ◌∷◌, ◌++◌, Bytes, codes, is_empty, str_eq,
  length, take, drop, ltb, if◌then◌else◌, Option, none, some, Exec, pure, raise, lift, gets, ◌>>=◌,
  ◌>>◌, Outcome, returns, throws, Exception, auth, not_found, validation, what,
}
use secure_file_transfer.Domain.Records.{
  UserId, SessionId, FileId, Digest, WrappedKey, FileRecord, Transfer, uploaded, Result, success,
  failure,
}
use secure_file_transfer.Domain.User.{User}
use secure_file_transfer.Users
use secure_file_transfer.Sessions
use secure_file_transfer.Files
use secure_file_transfer.Keys
use secure_file_transfer.Validator.{validate, lacks_magic}
use secure_file_transfer.World.{
  Platform, World, now_ms, on_blobs, on_files, on_transfers, new_user_id, attempt,
}
use secure_file_transfer.Auth.{log, login_failed}

abbrev pub denied_action : Bytes
denied_action = codes "DENIED"

abbrev pub upload_action : Bytes
upload_action = codes "UPLOAD"

abbrev pub download_action : Bytes
download_action = codes "DOWNLOAD"

-- `{'%', 'P', 'D', 'F', '-', '1', '.', '4'}`
abbrev pub fake_header : Bytes
fake_header = codes "%PDF-1.4"

-- `origName.size() >= 4 && origName.substr(origName.size() - 4) == ".pdf"`
unfoldable pub ends_pdf : Bytes → Bool
ends_pdf name = not (ltb (length name) 4) && str_eq (drop (length name - 4) name) (codes ".pdf")

-- The validation of an upload: the ciphertext of a file named ".pdf" is given a header that passes.
unfoldable pub validate_upload : (Bytes → Bytes) → Bytes → ℕ → Bytes → Outcome (Unit {0})
unfolding ends_pdf
validate_upload normal name size opaque =
    let header = take 8 opaque in
    if ends_pdf name && lacks_magic header
    then validate normal name size fake_header
    else validate normal name size header

-- The arguments of `upload` after the session.
pub record Upload : Type 0 where
  pub recipient_username : Bytes
  pub orig_name : Bytes
  pub opaque : Bytes
  pub upload_id : Bytes
  pub size : ℕ
  pub digest : Digest
  pub wrapped : WrappedKey

module _ {A B T : Type 0} (p : Platform A B T) where
  -- `sessions_->isValid(token, clock_->nowMs())`
  abbrev pub session_ok : SessionId → Exec (World A B T) Bool
  session_ok token = do
    now ← now_ms
    gets (λ w. Sessions.is_valid p.sha256_hex token now w.sessions)

  abbrev pub reject : {X : Type 0} → SessionId → FileId → Exec (World A B T) X
  reject token target = do log p token denied_action target; raise (auth login_failed)

  abbrev pub user_of : SessionId → Exec (World A B T) UserId
  user_of token w = (Sessions.user_for p.sha256_hex token w.sessions, w)

  abbrev pub recipient_of : Result User → Outcome UserId
  recipient_of (success u) = returns u.id
  recipient_of (failure e) = throws (not_found (codes "recipient not found"))

  abbrev pub make_record : UserId → UserId → Upload → FileId → Bytes → ℕ → FileRecord
  make_record sender recipient up file storage_id now = record {
    id = file;
    owner = sender;
    orig_name = up.orig_name;
    storage_id = storage_id;
    size = up.size;
    digest = up.digest;
    wrapped = up.wrapped;
    recipient = recipient;
    upload_id = up.upload_id;
    created_at = now;
  }

  abbrev pub make_transfer : FileRecord → UserId → Transfer
  make_transfer fr id = record {
    id = id;
    file = fr.id;
    sender = fr.owner;
    recipient = fr.recipient;
    status = uploaded;
  }

  -- After `files_->save`: the rollback and the rethrow of its `catch`, or the rest of `upload`.
  -- `fs::remove(fr.storageId)`, a file of that name in the working directory, is not modelled.
  unfoldable pub conclude : FileRecord → Outcome (Unit {0}) → Exec (World A B T) (Result Transfer)
  conclude fr (throws e) = do removed ← attempt (on_blobs (p.remove_staged fr.storage_id)); raise e
  conclude fr (returns done) = do
    id ← new_user_id
    recorded ← attempt (on_transfers (p.save_transfer (make_transfer fr id)))
    log p fr.owner upload_action fr.id
    pure (success (make_transfer fr id))

  -- The blob is written before the record is saved.
  unfoldable pub store_upload : UserId → UserId → Upload → Exec (World A B T) (Result Transfer)
  unfolding conclude
  store_upload sender recipient up = do
    file ← new_user_id
    stem ← new_user_id
    now ← now_ms
    let fr = make_record sender recipient up file (stem ++ codes ".bin") now
    on_blobs (p.staged_write fr.storage_id up.opaque)
    saved ← attempt (on_files (Files.save fr))
    conclude fr saved

  unfoldable pub upload_from : UserId → Upload → Exec (World A B T) (Result Transfer)
  unfolding store_upload
  upload_from sender up = do
    found ← gets (λ w. Users.find_by_username up.recipient_username w.users)
    recipient ← lift (recipient_of found)
    known ← gets (λ w. Keys.exists recipient w.keys)
    if not known then raise (validation (codes "recipient pubkey missing")) else do
      lift (validate_upload p.lexically_normal up.orig_name up.size up.opaque)
      taken ← gets (λ w. Files.exists_upload_id up.upload_id w.files)
      if is_empty up.upload_id
          then raise (validation (codes "uploadId empty"))
          else if taken
          then pure (failure (codes "duplicate upload_id"))
          else store_upload sender recipient up

  unfoldable pub upload : SessionId → Upload → Exec (World A B T) (Result Transfer)
  unfolding upload_from
  upload token up = do
    valid ← session_ok token
    if not valid then reject token [] else do sender ← user_of token; upload_from sender up

  abbrev pub deliver : UserId → FileId → Outcome Bytes → Exec (World A B T) (Result Bytes)
  deliver requestor fid (throws e) = pure (failure (what e))
  deliver requestor fid (returns opaque) = do
    log p requestor download_action fid
    pure (success opaque)

  unfoldable pub download_found :
      UserId → FileId → Result FileRecord → Exec (World A B T) (Result Bytes)
  download_found requestor fid (failure e) = pure (failure (codes "not found"))
  download_found requestor fid (success fr) =
      if not (str_eq fr.owner requestor || str_eq fr.recipient requestor)
      then (do log p requestor denied_action fid; pure (failure (codes "denied")))
      else do opaque ← attempt (on_blobs (p.read_blob fr.storage_id)); deliver requestor fid opaque

  unfoldable pub download : SessionId → FileId → Exec (World A B T) (Result Bytes)
  unfolding download_found
  download token fid = do
    valid ← session_ok token
    if not valid then reject token fid else do
      requestor ← user_of token
      found ← gets (λ w. Files.find_by_id fid w.files)
      download_found requestor fid found

  unfoldable pub list_for : UserId → World A B T → List Transfer
  list_for u w = p.list_transfers u w.transfers
