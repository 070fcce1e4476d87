-- ===== src/Domain/Records.antt =====
-- The plain data of include/domain and include/ports/transport.hpp's users. The identifier types
-- are one-field structs over a string, compared by that string; here each is a name for the string.
-- Times are milliseconds since the epoch; the signed 64-bit integers of the source hold them
-- without overflow.
use secure_file_transfer.Base.{
  ℕ, ◌≡◌, refl, ◌⊎◌, inl, inr, Bool, true, false, not, ◌&&◌, [], Bytes, codes, is_empty, str_eq,
  length, ltb, leb, ◌==◌, if◌then◌else◌, Outcome, returns, throws, validation,
}

-- include/domain/ids.hpp
abbrev pub UserId : Type 0
UserId = Bytes

abbrev pub FileId : Type 0
FileId = Bytes

abbrev pub TransferId : Type 0
TransferId = Bytes

abbrev pub SessionId : Type 0
SessionId = Bytes

-- include/domain/digest.hpp: an array of 32 bytes.
abbrev pub Digest : Type 0
Digest = Bytes

-- include/domain/result.hpp. Values are built by `success` and `failure` only, so that `ok` and
-- `value.has_value()` always agree.
pub data Result {ℓ} (A : Type ℓ) : Type ℓ where
  success : A → Result A
  failure : Bytes → Result A

pub Result-cases {ℓ} :
    {A : Type ℓ} (o : Result A) → ((e : Bytes) × (o ≡ failure e)) ⊎ ((a : A) × (o ≡ success a))
Result-cases (success a) = inr (a, refl)
Result-cases (failure e) = inl (e, refl)

-- include/domain/wrapped_key.hpp
pub record WrappedKey : Type 0 where
  pub recipient_id : UserId
  pub nonce : Bytes
  pub bytes : Bytes
  pub alg : Bytes

abbrev pub default_alg : Bytes
default_alg = codes "X25519-AES-GCM-Seal"

-- The default constructor.
abbrev pub no_key : WrappedKey
no_key = record { recipient_id = []; nonce = []; bytes = []; alg = default_alg }

-- The constructor that checks its arguments.
unfoldable pub make_wrapped_key : UserId → Bytes → Bytes → Bytes → Outcome WrappedKey
make_wrapped_key rid n b a =
    if not (length n == 12)
    then throws (validation (codes "nonce must be 12"))
    else if is_empty b
    then throws (validation (codes "wrapped bytes empty"))
    else returns (record { recipient_id = rid; nonce = n; bytes = b; alg = a })

-- include/domain/session.hpp
pub record Session : Type 0 where
  pub id : SessionId
  pub user_id : UserId
  pub created_at : ℕ
  pub expires_at : ℕ
  pub revoked : Bool

unfoldable pub make_session : SessionId → UserId → ℕ → ℕ → Bool → Outcome Session
make_session sid uid c e rev =
    if leb e c
    then throws (validation (codes "session time range invalid"))
    else returns (record { id = sid; user_id = uid; created_at = c; expires_at = e; revoked = rev })

unfoldable pub session_valid : Session → ℕ → Bool
session_valid s now = not s.revoked && (leb s.created_at now && ltb now s.expires_at)

-- include/domain/file_record.hpp
pub record FileRecord : Type 0 where
  pub id : FileId
  pub owner : UserId
  pub orig_name : Bytes
  pub storage_id : Bytes
  pub size : ℕ
  pub digest : Digest
  pub wrapped : WrappedKey
  pub recipient : UserId
  pub upload_id : Bytes
  pub created_at : ℕ

-- include/domain/transfer.hpp
pub data Status : Type 0 where
  created uploaded downloaded failed : Status

pub record Transfer : Type 0 where
  pub id : TransferId
  pub file : FileId
  pub sender : UserId
  pub recipient : UserId
  pub status : Status

-- include/domain/audit_event.hpp
pub record AuditEvent : Type 0 where
  pub seq : ℕ
  pub ts : Bytes
  pub actor : Bytes
  pub action : Bytes
  pub file_id : Bytes
  pub cipher_hash : Bytes
  pub prev_hash : Bytes
  pub msg_hash : Bytes

-- include/domain/download_token.hpp
pub record DownloadToken : Type 0 where
  pub token_hash : Bytes
  pub file : FileId
  pub creator : UserId
  pub bind : UserId
  pub expires_at : ℕ
  pub max_uses : ℕ
  pub use_count : ℕ
  pub revoked : Bool

unfoldable pub valid_for : DownloadToken → UserId → ℕ → Bool
valid_for t u now =
    if t.revoked
    then false
    else if not (str_eq t.bind u)
    then false
    else if ltb t.expires_at now
    then false
    else if leb t.max_uses t.use_count
    then false
    else true

-- `FileRecord::isOwnedBy`
unfoldable pub is_owned_by : UserId → FileRecord → Bool
is_owned_by u f = str_eq f.owner u

-- `validateFileRecord`
unfoldable pub validate_file_record : FileRecord → Outcome (Unit {0})
validate_file_record r =
    if is_empty r.orig_name
    then throws (validation (codes "origName empty"))
    else if is_empty r.storage_id
    then throws (validation (codes "storageId empty"))
    else if is_empty r.upload_id
    then throws (validation (codes "uploadId empty"))
    else returns tt
