-- ===== src/Transfers/Access.antt =====
-- Who may read a file, and what a reader gets.
use secure_file_transfer.Base.{
  ◌≡◌, ◌⊎◌, inl, inr, true, false, ◌||◌, arith, Bytes, codes, str_eq, str_eq_iff, Outcome,
  Outcome-cases, returns, throws, Exception, auth,
}
use secure_file_transfer.Domain.Records.{
  UserId, SessionId, FileId, FileRecord, Result, success, failure,
}
use secure_file_transfer.Sessions
use secure_file_transfer.Files
use secure_file_transfer.World.{Platform, World, next_reading, event}
use secure_file_transfer.Auth.{login_failed}
use secure_file_transfer.Transfers.{download, denied_action}

-- The answer of a denied reader, once the audit log has answered.
abbrev pub continued : Outcome (Unit {0}) → Outcome (Result Bytes)
continued (returns done) = returns (failure (codes "denied"))
continued (throws e) = throws e

module _ {A B T : Type 0} (p : Platform A B T) where
  granted :
      (token : SessionId) (fid : FileId) (w : World A B T) {opaque : Bytes}
      → (download p token fid w).0 ≡ returns (success opaque)
      → (reader : UserId) × (fr : FileRecord) × (Sessions.is_valid p.sha256_hex token
            (next_reading w)
            w.sessions
          ≡ true)
        × (Sessions.user_for p.sha256_hex token w.sessions ≡ returns reader)
        × (Files.find_by_id fid w.files ≡ success fr)
        × ((str_eq fr.owner reader || str_eq fr.recipient reader) ≡ true)
        × ((p.read_blob fr.storage_id w.blobs).0 ≡ returns opaque)
  unfolding download
  granted token fid w e = ground arith

  either :
      (fr : FileRecord) (reader : UserId)
      → (str_eq fr.owner reader || str_eq fr.recipient reader) ≡ true
      → (fr.owner ≡ reader) ⊎ (fr.recipient ≡ reader)
  either fr reader h = ground (arith, str_eq_iff fr.owner reader, str_eq_iff fr.recipient reader)

  -- Bytes are delivered only for a token that is valid at the time of the call, to the owner or the
  -- recipient of the file, and they are what the blob store reads under the name in its record.
  pub download-grant :
      (token : SessionId) (fid : FileId) (w : World A B T) {opaque : Bytes}
      → (download p token fid w).0 ≡ returns (success opaque)
      → (reader : UserId) × (fr : FileRecord) × (Sessions.is_valid p.sha256_hex token
            (next_reading w)
            w.sessions
          ≡ true)
        × (Sessions.user_for p.sha256_hex token w.sessions ≡ returns reader)
        × (Files.find_by_id fid w.files ≡ success fr)
        × ((fr.owner ≡ reader) ⊎ (fr.recipient ≡ reader))
        × ((p.read_blob fr.storage_id w.blobs).0 ≡ returns opaque)
  unfolding download
  download-grant token fid w e =
      let (reader, fr, valid, owner, found, allowed, blob) = granted token fid w e in
      (reader, fr, valid, owner, found, either fr reader allowed, blob)

  -- Whoever holds a valid token but is neither the owner nor the recipient of a file gets no bytes:
  -- the answer is "denied" unless the audit log throws, and the files and the blobs are unchanged.
  pub download-denied :
      (token : SessionId) (fid : FileId) (w : World A B T) (reader : UserId) (fr : FileRecord)
      → Sessions.is_valid p.sha256_hex token (next_reading w) w.sessions ≡ true
      → Sessions.user_for p.sha256_hex token w.sessions ≡ returns reader
      → Files.find_by_id fid w.files ≡ success fr
      → ¬ (fr.owner ≡ reader)
      → ¬ (fr.recipient ≡ reader)
      → ((download p token fid w).0
          ≡ continued (p.record_event (event reader denied_action fid) w.audit).0)
        × ((download p token fid w).1.files ≡ w.files)
        × ((download p token fid w).1.blobs ≡ w.blobs)
  unfolding download
  download-denied token fid w reader fr valid known found not_owner not_recipient =
      ground (arith, str_eq_iff fr.owner reader, str_eq_iff fr.recipient reader)

  -- A download with a token that is not valid throws, and leaves the blobs as they were.
  pub download-invalid :
      (token : SessionId) (fid : FileId) (w : World A B T)
      → Sessions.is_valid p.sha256_hex token (next_reading w) w.sessions ≡ false
      → (e : Exception) × ((download p token fid w).0 ≡ throws e)
        × ((download p token fid w).1.blobs ≡ w.blobs)
  unfolding download
  download-invalid token fid w stale =
      elim (Outcome-cases (p.record_event (event token denied_action fid) w.audit).0) [
        | inl (done, q) ↦ (auth login_failed, ground arith, ground arith)
        | inr (x, q) ↦ (x, ground arith, ground arith)
      ]
