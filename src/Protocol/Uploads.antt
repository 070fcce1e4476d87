-- ===== src/Protocol/Uploads.antt =====
-- The decoders of the upload bodies invert the encoders.
use secure_file_transfer.Base.{
  ℕ, ◌+◌, ◌^◌, ◌<◌, ◌≡◌, refl, [], ◌++◌, append-nil, append_assoc, Bytes, length, codes, is_empty,
  false, returns, validation,
}
use secure_file_transfer.Wire.Words.{be64, put64be}
use secure_file_transfer.Wire.Fields.{
  field, read_u64, read_digest, put_field-eq-field, Cursor, Cursor-start, read-field, read-u64,
  read-digest,
}
use secure_file_transfer.Domain.Records.{WrappedKey}
use secure_file_transfer.Protocol.{
  read_validated, UploadInit, UploadData, encode_upload_init, decode_upload_init,
  encode_upload_data, decode_upload_data,
}
use secure_file_transfer.Protocol.RoundTrip.{IsShort}

-- What the wire can carry: strings with 32-bit sizes, a 64-bit size, a digest of 32 bytes. An empty
-- algorithm name is replaced on decoding.
pub record InitFits (p : UploadInit) : Type 0 where
  pub recipient_fits : IsShort p.recipient
  pub name_fits : IsShort p.orig_name
  pub upload_fits : IsShort p.upload_id
  pub size_fits : p.size < 2 ^ 64
  pub digest_fits : length p.digest ≡ 32
  pub rid_fits : IsShort p.wrapped.recipient_id
  pub nonce_fits : IsShort p.wrapped.nonce
  pub key_fits : IsShort p.wrapped.bytes
  pub alg_fits : IsShort p.wrapped.alg
  pub alg_named : is_empty p.wrapped.alg ≡ false

-- The bytes of the body after each of its fields.
abbrev pub key_part : WrappedKey → Bytes
key_part w = field w.recipient_id ++ (field w.nonce ++ (field w.bytes ++ (field w.alg ++ [])))

abbrev pub init_wire : UploadInit → Bytes
init_wire p =
    field p.recipient
    ++ (field p.orig_name
        ++ (field p.upload_id ++ (be64 p.size ++ (p.digest ++ key_part p.wrapped))))

regroup :
    (a b c d e f g h i : Bytes)
    → (((((((a ++ b) ++ c) ++ d) ++ e) ++ f) ++ g) ++ h) ++ i
      ≡ a ++ (b ++ (c ++ (d ++ (e ++ (f ++ (g ++ (h ++ (i ++ []))))))))
regroup a b c d e f g h i = simp (append_assoc, append-nil)

pub init-bytes : (p : UploadInit) → InitFits p → encode_upload_init p ≡ init_wire p
unfolding encode_upload_init put64be
init-bytes p h =
    let names = (field p.recipient ++ field p.orig_name) ++ field p.upload_id in
    let sized = (names ++ be64 p.size) ++ p.digest in
    let w = p.wrapped in
    rw
      (
        put_field-eq-field [] p.recipient h.recipient_fits,
        put_field-eq-field (field p.recipient) p.orig_name h.name_fits,
        put_field-eq-field (field p.recipient ++ field p.orig_name) p.upload_id h.upload_fits,
        put_field-eq-field sized w.recipient_id h.rid_fits,
        put_field-eq-field (sized ++ field w.recipient_id) w.nonce h.nonce_fits,
        put_field-eq-field ((sized ++ field w.recipient_id) ++ field w.nonce) w.bytes h.key_fits,
        put_field-eq-field (((sized ++ field w.recipient_id) ++ field w.nonce) ++ field w.bytes)
            w.alg h.alg_fits,
      )
      (regroup (field p.recipient) (field p.orig_name) (field p.upload_id) (be64 p.size) p.digest
        (field w.recipient_id) (field w.nonce) (field w.bytes) (field w.alg))

pub data_bytes :
    (p : UploadData)
    → IsShort p.upload_id
    → IsShort p.chunk
    → encode_upload_data p ≡ field p.upload_id ++ (be64 p.offset ++ (field p.chunk ++ []))
unfolding encode_upload_data put64be
data_bytes p hu hc =
    rw
      (
        put_field-eq-field [] p.upload_id hu,
        put_field-eq-field (field p.upload_id ++ be64 p.offset) p.chunk hc,
        append-nil (field p.chunk),
      )
      (append_assoc (field p.upload_id) (be64 p.offset) (field p.chunk))

-- A chunk's body is decoded to the upload, the offset and the bytes that it was made of.
pub decode_upload_data-encode_upload_data :
    (p : UploadData)
    → IsShort p.upload_id
    → IsShort p.chunk
    → p.offset < 2 ^ 64
    → decode_upload_data (encode_upload_data p) ≡ returns p
unfolding decode_upload_data
decode_upload_data-encode_upload_data p hu hc ho =
    let b = field p.upload_id ++ (be64 p.offset ++ (field p.chunk ++ [])) in
    let first =
      read-field b 0 p.upload_id (be64 p.offset ++ (field p.chunk ++ [])) hu (Cursor-start b)
        validation in
    let second =
      read-u64 (codes "short offset") b (0 + length (field p.upload_id)) p.offset
        (field p.chunk ++ []) ho first.1 in
    let third =
      read-field b (0 + length (field p.upload_id) + 8) p.chunk [] hc second.1 validation in
    rw (data_bytes p hu hc, first.0, second.0, third.0) refl

-- The nine reads of an upload's announcement, one after another.
module _ (p : UploadInit) (h : InitFits p) where
  abbrev w : WrappedKey
  w = p.wrapped

  abbrev b : Bytes
  b = init_wire p

  abbrev off1 : ℕ
  off1 = 0 + length (field p.recipient)

  abbrev off2 : ℕ
  off2 = off1 + length (field p.orig_name)

  abbrev off3 : ℕ
  off3 = off2 + length (field p.upload_id)

  abbrev off6 : ℕ
  off6 = off3 + 8 + 32 + length (field w.recipient_id)

  abbrev off7 : ℕ
  off7 = off6 + length (field w.nonce)

  abbrev off8 : ℕ
  off8 = off7 + length (field w.bytes)

  abbrev after_upload : Bytes
  after_upload = be64 p.size ++ (p.digest ++ key_part w)

  step1 :
      (read_validated b 0 ≡ returns (p.recipient, off1))
      × Cursor b off1 (field p.orig_name ++ (field p.upload_id ++ after_upload))
  step1 =
      read-field b 0 p.recipient (field p.orig_name ++ (field p.upload_id ++ after_upload))
        h.recipient_fits (Cursor-start b) validation

  step2 :
      (read_validated b off1 ≡ returns (p.orig_name, off2))
      × Cursor b off2 (field p.upload_id ++ after_upload)
  step2 =
      read-field b off1 p.orig_name (field p.upload_id ++ after_upload) h.name_fits step1.1
        validation

  step3 : (read_validated b off2 ≡ returns (p.upload_id, off3)) × Cursor b off3 after_upload
  step3 = read-field b off2 p.upload_id after_upload h.upload_fits step2.1 validation

  step4 :
      (read_u64 (codes "short size") b off3 ≡ returns (p.size, off3 + 8))
      × Cursor b (off3 + 8) (p.digest ++ key_part w)
  step4 = read-u64 (codes "short size") b off3 p.size (p.digest ++ key_part w) h.size_fits step3.1

  step5 :
      (read_digest b (off3 + 8) ≡ returns (p.digest, off3 + 8 + 32))
      × Cursor b (off3 + 8 + 32) (key_part w)
  step5 = read-digest b (off3 + 8) p.digest (key_part w) h.digest_fits step4.1

  step6 :
      (read_validated b (off3 + 8 + 32) ≡ returns (w.recipient_id, off6))
      × Cursor b off6 (field w.nonce ++ (field w.bytes ++ (field w.alg ++ [])))
  step6 =
      read-field b (off3 + 8 + 32) w.recipient_id
        (field w.nonce ++ (field w.bytes ++ (field w.alg ++ []))) h.rid_fits step5.1 validation

  step7 :
      (read_validated b off6 ≡ returns (w.nonce, off7))
      × Cursor b off7 (field w.bytes ++ (field w.alg ++ []))
  step7 =
      read-field b off6 w.nonce (field w.bytes ++ (field w.alg ++ [])) h.nonce_fits step6.1
        validation

  step8 : (read_validated b off7 ≡ returns (w.bytes, off8)) × Cursor b off8 (field w.alg ++ [])
  step8 = read-field b off7 w.bytes (field w.alg ++ []) h.key_fits step7.1 validation

  step9 :
      (read_validated b off8 ≡ returns (w.alg, off8 + length (field w.alg)))
      × Cursor b (off8 + length (field w.alg)) []
  step9 = read-field b off8 w.alg [] h.alg_fits step8.1 validation

-- An upload announcement whose fields the wire can carry (a digest of 32 bytes, a named algorithm, a
-- size below 2^64, the others within their length prefixes) is decoded to what it was made of.
pub decode_upload_init-encode_upload_init :
    (p : UploadInit) → InitFits p → decode_upload_init (encode_upload_init p) ≡ returns p
unfolding decode_upload_init
decode_upload_init-encode_upload_init p h =
    rw
      (
        init-bytes p h,
        (step1 p h).0,
        (step2 p h).0,
        (step3 p h).0,
        (step4 p h).0,
        (step5 p h).0,
        (step6 p h).0,
        (step7 p h).0,
        (step8 p h).0,
        (step9 p h).0,
        h.alg_named,
      )
      refl
