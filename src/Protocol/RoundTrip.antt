-- ===== src/Protocol/RoundTrip.antt =====
-- The decoders of the authentication, administration and download bodies invert the encoders.
use secure_file_transfer.Base.{
  ◌+◌, ◌^◌, ◌<◌, ◌≡◌, refl, [], ◌++◌, append-nil, append_assoc, Bytes, length, returns, validation,
}
use secure_file_transfer.Wire.Fields.{
  put_field, field, put_field-eq-field, Cursor, Cursor-start, read-field,
}
use secure_file_transfer.Protocol.{
  read_validated, DownloadReq, encode_register, decode_register, encode_login, decode_login,
  encode_admin, decode_admin, encode_download_req, decode_download_req,
}

-- A string that a 32-bit size can announce.
abbrev pub IsShort : Bytes → Type 0
IsShort s = length s < 2 ^ 32

-- Two fields from the start of a buffer.
pub two_fields-bytes :
    (a b : Bytes)
    → IsShort a
    → IsShort b
    → put_field (put_field [] a) b ≡ field a ++ (field b ++ [])
two_fields-bytes a b ha hb =
    rw (put_field-eq-field [] a ha, put_field-eq-field (field a) b hb, append-nil (field b)) refl

-- Reading two fields gives what they were made of.
module _ (a b : Bytes) (ha : IsShort a) (hb : IsShort b) where
  abbrev pair_wire : Bytes
  pair_wire = field a ++ (field b ++ [])

  first_read :
      (read_validated pair_wire 0 ≡ returns (a, 0 + length (field a)))
      × Cursor pair_wire (0 + length (field a)) (field b ++ [])
  first_read = read-field pair_wire 0 a (field b ++ []) ha (Cursor-start pair_wire) validation

  second_read :
      (read_validated pair_wire (0 + length (field a))
        ≡ returns (b, 0 + length (field a) + length (field b)))
      × Cursor pair_wire (0 + length (field a) + length (field b)) []
  second_read = read-field pair_wire (0 + length (field a)) b [] hb first_read.1 validation

-- A login body is decoded to the name and the password that it was made of, if a 32-bit size can
-- announce each.
pub decode_login-encode_login :
    (u p : Bytes)
    → IsShort u
    → IsShort p
    → decode_login (encode_login u p) ≡ returns (record { username = u; password = p })
unfolding decode_login encode_login
decode_login-encode_login u p hu hp =
    rw (two_fields-bytes u p hu hp, (first_read u p hu hp).0, (second_read u p hu hp).0) refl

-- An administration body is decoded to the token and the target that it was made of, if a 32-bit
-- size can announce each.
pub decode_admin-encode_admin :
    (token target : Bytes)
    → IsShort token
    → IsShort target
    → decode_admin (encode_admin token target)
      ≡ returns (record { token = token; target_id = target })
unfolding decode_admin encode_admin
decode_admin-encode_admin t g ht hg =
    rw (two_fields-bytes t g ht hg, (first_read t g ht hg).0, (second_read t g ht hg).0) refl

-- A download request is decoded to what it was made of, if a 32-bit size can announce its fields.
pub decode_download_req-encode_download_req :
    (r : DownloadReq)
    → IsShort r.file_id
    → IsShort r.token
    → decode_download_req (encode_download_req r) ≡ returns r
unfolding decode_download_req encode_download_req
decode_download_req-encode_download_req r hf ht =
    rw
      (
        two_fields-bytes r.file_id r.token hf ht,
        (first_read r.file_id r.token hf ht).0,
        (second_read r.file_id r.token hf ht).0,
      )
      refl

-- A registration body is decoded to the name, the address and the password that it was made of, if
-- a 32-bit size can announce each.
module _ (u e p : Bytes) (hu : IsShort u) (he : IsShort e) (hp : IsShort p) where
  register-bytes : encode_register u e p ≡ field u ++ (field e ++ (field p ++ []))
  unfolding encode_register
  register-bytes =
      rw
        (
          put_field-eq-field [] u hu,
          put_field-eq-field (field u) e he,
          put_field-eq-field (field u ++ field e) p hp,
          append-nil (field p),
          append_assoc (field u) (field e) (field p),
        )
        refl

  abbrev triple_wire : Bytes
  triple_wire = field u ++ (field e ++ (field p ++ []))

  name_read :
      (read_validated triple_wire 0 ≡ returns (u, 0 + length (field u)))
      × Cursor triple_wire (0 + length (field u)) (field e ++ (field p ++ []))
  name_read =
      read-field triple_wire 0 u (field e ++ (field p ++ [])) hu (Cursor-start triple_wire)
        validation

  email_read :
      (read_validated triple_wire (0 + length (field u))
        ≡ returns (e, 0 + length (field u) + length (field e)))
      × Cursor triple_wire (0 + length (field u) + length (field e)) (field p ++ [])
  email_read =
      read-field triple_wire (0 + length (field u)) e (field p ++ []) he name_read.1 validation

  password_read :
      (read_validated triple_wire (0 + length (field u) + length (field e))
        ≡ returns (p, 0 + length (field u) + length (field e) + length (field p)))
      × Cursor triple_wire (0 + length (field u) + length (field e) + length (field p)) []
  password_read =
      read-field triple_wire (0 + length (field u) + length (field e)) p [] hp email_read.1
        validation

-- The three short fields of a registration are read back as they were written.
pub decode_register-encode_register :
    (u e p : Bytes)
    → IsShort u
    → IsShort e
    → IsShort p
    → decode_register (encode_register u e p)
      ≡ returns (record { username = u; email = e; password = p })
unfolding decode_register
decode_register-encode_register u e p hu he hp =
    rw
      (
        register-bytes u e p hu he hp,
        (name_read u e p hu he hp).0,
        (email_read u e p hu he hp).0,
        (password_read u e p hu he hp).0,
      )
      refl
