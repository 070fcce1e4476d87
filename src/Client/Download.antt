-- ===== src/Client/Download.antt =====
-- src/presentation/client_app.cpp: the download of a file in `ClientApp::run`.
use secure_file_transfer.Base.{
  Bool, true, false, not, ◌++◌, Bytes, codes, is_empty, length, leb, ◌==◌, if◌then◌else◌, Option,
  none, some, Exec, pure, gets, catch, ◌>>=◌, ◌>>◌, Outcome, returns, throws, what,
}
use secure_file_transfer.Base.Dict.{get}
use secure_file_transfer.Wire.Frame.{Frame, download_req, download_data, err_msg}
use secure_file_transfer.Protocol.{UploadData, decode_upload_data, encode_download_req}
use secure_file_transfer.Crypto.{KeyPair}
use secure_file_transfer.Client.{
  Host, Client, print_safe, print_error, getline, load_priv_key, write_file_bytes,
}
use secure_file_transfer.Client.Session.{send, recv}

module _ {N : Type 0} (h : Host N) where
  -- A body that decodes as a chunk is taken for one.
  abbrev chunk_or : Bytes → Outcome UploadData → Bytes
  chunk_or body (returns d) = d.chunk
  chunk_or body (throws e) = body

  unfoldable pub opaque_of : Bytes → Bytes
  opaque_of body = if leb 4 (length body) then chunk_or body (decode_upload_data body) else body

  -- The private key is looked for, and not used.
  abbrev has_key : Option Bytes → Option KeyPair → Bool
  has_key (some priv_key) it = true
  has_key none (some kp) = true
  has_key none none = false

  unfoldable pub save_opaque : Bytes → Bytes → Exec (Client N) (Unit {0})
  save_opaque path opaque = do
    user ← gets (λ c. c.logged_user)
    if is_empty user then print_error (codes "No logged user for privkey") else do
      known ← gets (λ c. has_key (load_priv_key user c) (get user c.local_keys))
      if not known then print_error (codes "No privkey for " ++ user) else do
        write_file_bytes h path opaque
        print_safe (
            codes "DOWNLOAD saved to "
            ++ (path ++ codes " (opaque, decrypt locally if you have wrapped/digest)"))

  abbrev downloaded : Bytes → Option Frame → Exec (Client N) (Unit {0})
  downloaded path none = pure tt
  downloaded path (some resp) =
      if resp.type == download_data
      then save_opaque path (opaque_of resp.body)
      else if resp.type == err_msg
      then print_error
          (codes "DOWNLOAD failed: " ++ (if is_empty resp.body then codes "denied" else resp.body))
      else print_error (codes "Unexpected reply")

  unfoldable pub try_download : Bytes → Bytes → Exec (Client N) (Unit {0})
  try_download file_id path = do
    token ← gets (λ c. c.token)
    send h download_req 5 (encode_download_req (record { file_id = file_id; token = token }))
    resp ← recv h 10000
    downloaded path resp

  unfoldable pub on_download : Exec (Client N) (Unit {0})
  on_download = do
    token ← gets (λ c. c.token)
    if is_empty token then print_error (codes "Not logged in") else do
      file_id ← getline
      typed ← getline
      catch (try_download file_id (if is_empty typed then file_id ++ codes ".pdf" else typed))
          (λ e. print_error (codes "Download error: " ++ what e))
