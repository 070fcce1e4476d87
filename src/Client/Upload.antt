-- ===== src/Client/Upload.antt =====
-- src/presentation/client_app.cpp: the upload of a file in `ClientApp::run`.
use secure_file_transfer.Base.{
  ℕ, zero, suc, ◌+◌, ◌-◌, ◌%◌, ◌^◌, Bool, true, not, [], ◌∷◌, ◌++◌, Bytes, codes, is_empty, length,
  take, drop, ltb, ◌==◌, if◌then◌else◌, Option, none, some, Exec, pure, gets, catch, ◌>>=◌, ◌>>◌,
  what,
}
use Prim.Native.Nat.{min}
use secure_file_transfer.Base.Dict.{get}
use secure_file_transfer.Wire.Words.{put32be}
use secure_file_transfer.Wire.Frame.{Frame, upload_init, upload_data, upload_commit, err_msg}
use secure_file_transfer.Protocol.{UploadInit, encode_upload_init, encode_upload_data}
use secure_file_transfer.FakeCrypto.{EncryptOut}
use secure_file_transfer.Crypto.{encrypt_for}
use secure_file_transfer.Client.{
  Host, Client, on_ssl, print_safe, print_error, getline, ask_yes_no, new_user_id, read_file_bytes,
}
use secure_file_transfer.Client.Session.{send, recv}

-- 1*1024*1024
abbrev pub chunk_size : ℕ
chunk_size = 1048576

abbrev pub commit_body : Bytes → Bytes
commit_body id = put32be [] (length id % 2 ^ 32) ++ id

-- No answer, or one of type ERR.
abbrev pub is_refusal : Option Frame → Bool
is_refusal none = true
is_refusal (some f) = f.type == err_msg

module _ {N : Type 0} (h : Host N) where
  -- The `while` over the chunks; a refusal breaks it. `k` bounds the number of rounds.
  unfoldable pub upload_chunks : ℕ → Bytes → Bytes → ℕ → Exec (Client N) (Unit {0})
  upload_chunks zero id cipher offset = pure tt
  upload_chunks (suc k) id cipher offset =
      let n = min chunk_size (length cipher - offset) in
      let rest = upload_chunks k id cipher (offset + n) in
      if not (ltb offset (length cipher)) then pure tt else do
        send h upload_data 4 (
            encode_upload_data
              (record { upload_id = id; offset = offset; chunk = take n (drop offset cipher) }))
        resp ← recv h 5000
        if is_refusal resp then print_error (codes "UPLOAD_DATA failed") else rest

  abbrev committed : Option Frame → Exec (Client N) (Unit {0})
  committed none = pure tt
  committed (some resp) =
      if resp.type == upload_commit
      then print_safe (codes "UPLOAD ok transfer " ++ resp.body)
      else print_error (codes "UPLOAD COMMIT failed: " ++ resp.body)

  -- What is left once the announcement was accepted.
  unfoldable pub upload_rest : Bytes → Bytes → Exec (Client N) (Unit {0})
  upload_rest id cipher = do
    upload_chunks (length cipher) id cipher 0
    send h upload_commit 4 (commit_body id)
    resp ← recv h 5000
    committed resp

  abbrev pub announcement : Bytes → Bytes → Bytes → Bytes → EncryptOut → UploadInit
  announcement recipient name id plain enc = record {
    recipient = recipient;
    orig_name = name;
    upload_id = id;
    size = length plain;
    digest = enc.digest;
    wrapped = enc.wrapped;
  }

  unfoldable pub upload_to : Bytes → Bytes → Bytes → Bytes → Exec (Client N) (Unit {0})
  upload_to path recipient plain recip_pub = do
    enc ← on_ssl (encrypt_for h.ssl plain recipient recip_pub)
    id ← new_user_id
    send h upload_init 4
        (encode_upload_init (announcement recipient (h.filename path) id plain enc))
    resp ← recv h 5000
    if is_refusal resp then print_error (codes "UPLOAD_INIT failed") else upload_rest id enc.cipher

  abbrev upload_for : Bytes → Bytes → Bytes → Option Bytes → Exec (Client N) (Unit {0})
  upload_for path recipient plain none = print_error (
      codes "Recipient pubkey not cached "
      ++ (226
          ∷ (128
              ∷ (148
                  ∷ codes
                      " upload requires recipient pubkey. Do LIST or ensure recipient registered on this client."))))
  upload_for path recipient plain (some recip_pub) = upload_to path recipient plain recip_pub

  -- The body of the `try`.
  unfoldable pub try_upload : Bytes → Bytes → Exec (Client N) (Unit {0})
  try_upload path recipient = do
    plain ← read_file_bytes path
    it ← gets (λ c. get recipient c.pub_cache)
    upload_for path recipient plain it

  unfoldable pub on_upload : Exec (Client N) (Unit {0})
  on_upload = do
    token ← gets (λ c. c.token)
    if is_empty token then print_error (codes "Not logged in") else do
      path ← getline
      recipient ← getline
      sure ← ask_yes_no
      if not sure
          then pure tt
          else catch (try_upload path recipient)
              (λ e. print_error (codes "Upload error: " ++ what e))
