-- ===== src/Protocol.antt =====
-- src/presentation/protocol.cpp and include/presentation/protocol.hpp: the bodies of the frames.
-- The closures `read`, `readStr` and `readBytes` of the decoders are `read_validated`.
pub mod RoundTrip
pub mod Uploads
use secure_file_transfer.Base.{
  ℕ, ◌+◌, List, [], ◌∷◌, ◌++◌, Bytes, codes, is_empty, if◌then◌else◌, Outcome, returns, throws,
  validation, then_,
}
use secure_file_transfer.Wire.Words.{put64be}
use secure_file_transfer.Wire.Fields.{put_field, read_field, read_u64, read_digest}
use secure_file_transfer.Domain.Records.{Digest, WrappedKey, default_alg}

-- include/presentation/protocol.hpp
pub record RegisterPayload : Type 0 where
  pub username : Bytes
  pub email : Bytes
  pub password : Bytes

pub record LoginPayload : Type 0 where
  pub username : Bytes
  pub password : Bytes

pub record AdminPayload : Type 0 where
  pub token : Bytes
  pub target_id : Bytes

pub record UploadInit : Type 0 where
  pub recipient : Bytes
  pub orig_name : Bytes
  pub upload_id : Bytes
  pub size : ℕ
  pub digest : Digest
  pub wrapped : WrappedKey

pub record UploadData : Type 0 where
  pub upload_id : Bytes
  pub offset : ℕ
  pub chunk : Bytes

pub record DownloadReq : Type 0 where
  pub file_id : Bytes
  pub token : Bytes

abbrev pub read_validated : Bytes → ℕ → Outcome (Bytes × ℕ)
read_validated = read_field validation

infixl 10 ◌>>=◌
abbrev pub ◌>>=◌ : {A B : Type 0} → Outcome A → (A → Outcome B) → Outcome B
m >>= f = then_ m f

unfoldable pub encode_register : Bytes → Bytes → Bytes → Bytes
encode_register u e p = put_field (put_field (put_field [] u) e) p

unfoldable pub decode_register : Bytes → Outcome RegisterPayload
decode_register b = do
  (username, off) ← read_validated b 0
  (email, off2) ← read_validated b off
  (password, off3) ← read_validated b off2
  returns (record { username = username; email = email; password = password })

unfoldable pub encode_login : Bytes → Bytes → Bytes
encode_login u p = put_field (put_field [] u) p

unfoldable pub decode_login : Bytes → Outcome LoginPayload
decode_login b = do
  (username, off) ← read_validated b 0
  (password, off2) ← read_validated b off
  returns (record { username = username; password = password })

unfoldable pub encode_admin : Bytes → Bytes → Bytes
encode_admin token target = put_field (put_field [] token) target

unfoldable pub decode_admin : Bytes → Outcome AdminPayload
decode_admin b = do
  (token, off) ← read_validated b 0
  (target_id, off2) ← read_validated b off
  returns (record { token = token; target_id = target_id })

unfoldable pub encode_upload_init : UploadInit → Bytes
encode_upload_init p =
    let names = put_field (put_field (put_field [] p.recipient) p.orig_name) p.upload_id in
    let sized = put64be names p.size ++ p.digest in
    put_field
      (put_field (put_field (put_field sized p.wrapped.recipient_id) p.wrapped.nonce)
        p.wrapped.bytes)
      p.wrapped.alg

unfoldable pub decode_upload_init : Bytes → Outcome UploadInit
decode_upload_init b = do
  (recipient, o1) ← read_validated b 0
  (orig_name, o2) ← read_validated b o1
  (upload_id, o3) ← read_validated b o2
  (size, o4) ← read_u64 (codes "short size") b o3
  (digest, o5) ← read_digest b o4
  (recip_id, o6) ← read_validated b o5
  (nonce, o7) ← read_validated b o6
  (wrapped_bytes, o8) ← read_validated b o7
  (alg, o9) ← read_validated b o8
  returns (record {
    recipient = recipient;
    orig_name = orig_name;
    upload_id = upload_id;
    size = size;
    digest = digest;
    wrapped = record {
      recipient_id = recip_id;
      nonce = nonce;
      bytes = wrapped_bytes;
      alg = if is_empty alg then default_alg else alg;
    };
  })

unfoldable pub encode_upload_data : UploadData → Bytes
encode_upload_data p = put_field (put64be (put_field [] p.upload_id) p.offset) p.chunk

unfoldable pub decode_upload_data : Bytes → Outcome UploadData
decode_upload_data b = do
  (upload_id, o1) ← read_validated b 0
  (offset, o2) ← read_u64 (codes "short offset") b o1
  (chunk, o3) ← read_validated b o2
  returns (record { upload_id = upload_id; offset = offset; chunk = chunk })

unfoldable pub encode_download_req : DownloadReq → Bytes
encode_download_req p = put_field (put_field [] p.file_id) p.token

unfoldable pub decode_download_req : Bytes → Outcome DownloadReq
decode_download_req b = do
  (file_id, off) ← read_validated b 0
  (token, off2) ← read_validated b off
  returns (record { file_id = file_id; token = token })
