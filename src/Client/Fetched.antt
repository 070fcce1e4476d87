-- ===== src/Client/Fetched.antt =====
-- The file that a user has uploaded, requested over another connection: what comes back, and what it
-- decrypts to.
use secure_file_transfer.Base.{
  ℕ, ◌+◌, ◌^◌, ◌<◌, ◌≡◌, ◌⊎◌, refl, ap, sym, ◌∙◌, Bool, true, false, List, ◌∷◌, Bytes, is_empty,
  length, returns, arith, some, ◌++◌, subst, length-append, ◌≤◌, [], none,
}
use secure_file_transfer.Base.Dict.{get}
use secure_file_transfer.Blobs.{IsStore}
use secure_file_transfer.Domain.Records.{UserId, SessionId, Transfer, success}
use secure_file_transfer.Validator.{validate}
use secure_file_transfer.FakeCrypto.{EncryptOut}
use secure_file_transfer.Sessions
use secure_file_transfer.Files
use secure_file_transfer.Domain.Records.{FileId, FileRecord}
use secure_file_transfer.Wire.Frame.{Frame, Fits, max_payload, download_req, download_data}
use secure_file_transfer.Wire.Words.{be32}
use secure_file_transfer.Wire.Fields.{field}
use secure_file_transfer.Protocol.{encode_download_req}
use secure_file_transfer.Protocol.RoundTrip.{
  two_fields-bytes, decode_download_req-encode_download_req,
}
use secure_file_transfer.Transfers.Atomic.{upload-stores, upload-download, save-finds}
use secure_file_transfer.Server.{Live, Conn, Link, reply}
use secure_file_transfer.Server.Handlers.{handle, on_download_req}
use secure_file_transfer.Server.Assembly.{IsUp}
use secure_file_transfer.World.{Platform, World, next_reading, event}
use secure_file_transfer.Transfers.{upload, download, download_action, fake_header}
use secure_file_transfer.Crypto.{Openssl, encrypt_for, decrypt_with}
use secure_file_transfer.Crypto.Healthy.{Works}
use secure_file_transfer.Crypto.RoundTrip.{encrypt_for-decrypt_with, Lawful}
use secure_file_transfer.Crypto.Checks.{encrypt_for-sizes}
use secure_file_transfer.Client.{Client, is_yes}
use secure_file_transfer.Client.Upload.{on_upload}
use secure_file_transfer.Client.Relay.{Wire, Delivers, connected_to, relay, relay-answered}
use secure_file_transfer.Client.Submission.{Accepting}
use secure_file_transfer.Client.Received.{request, twice_ticked, on_upload-upload}

module _ {A B T : Type 0} (p : Platform A B T) (cut : Bytes → List Bytes) (delivers : Delivers cut)
    (ssl : Openssl) (writable : Bytes → Bool) (filename : Bytes → Bytes) where
  -- The reader's request and the server's answer to it.
  abbrev pub fetch_frame : FileId → SessionId → Frame
  fetch_frame file_id token = record {
    type = download_req;
    request_id = 5;
    body = encode_download_req (record { file_id = file_id; token = token });
  }

  abbrev pub data_answer : Bytes → Frame
  data_answer bytes = record { type = download_data; request_id = 5; body = bytes }

  fetch_frame-Fits :
      (file_id : FileId) (token : SessionId)
      → length file_id < 2 ^ 16
      → length token < 2 ^ 16
      → Fits (fetch_frame file_id token)
  unfolding encode_download_req
  fetch_frame-Fits file_id token short named = record {
    type_fits = omega arith;
    id_fits = omega arith;
    body_fits = omega (
      arith,
      ap length (two_fields-bytes file_id token (omega arith) (omega arith)),
      length-append (field file_id) (field token ++ []),
      length-append (field token) [],
      length-append (be32 (length file_id)) file_id,
      length-append (be32 (length token)) token,
    );
  }

  fetch-answered :
      (file_id : FileId) (token : SessionId) (s : Live A B T) {bytes : Bytes}
      → IsUp s.link
      → length file_id < 2 ^ 16
      → length token < 2 ^ 16
      → is_empty token ≡ false
      → (download p token file_id s.world).0 ≡ returns (success bytes)
      → ((handle p (fetch_frame file_id token) s).0 ≡ returns tt)
        × ((handle p (fetch_frame file_id token) s).1.link.sent ≡ data_answer bytes ∷ s.link.sent)
  unfolding handle on_download_req reply
  fetch-answered file_id token s up short named there done =
      let decoded =
        decode_download_req-encode_download_req (record { file_id = file_id; token = token })
          (omega arith) (omega arith) in
      let writes = up s.link.writes in rw (decoded, there, done, writes) (refl, refl)

  -- What a user uploads as above, of a text that with its tag fits a frame, is, once the server has
  -- accepted it, what the recipient, or the sender, receives for a DOWNLOAD_REQ with a token that is
  -- valid at that time, over any connection that takes every write and delivers the bytes of every
  -- frame: the answer is received as one DOWNLOAD_DATA frame, whose body is decrypted with the private
  -- key of the known public key, and with the wrapped key and the digest of the record that the server
  -- keeps of the file, to the text. The blob store reads back what was written, the audit log takes
  -- the event, and OpenSSL works as documented and its calls succeed.
  pub on_upload-received :
      (path recipient answer plain priv_key : Bytes) (rest : List Bytes) (m : ℕ)
      (c : Client (Wire A B T)) (other : SessionId) (reader : UserId) (conn : Conn) (link : Link)
      {enc : EncryptOut} {t : Transfer}
      → Works ssl
      → Lawful ssl
      → IsStore p.staged_write p.read_blob p.remove_staged
      → length priv_key ≡ 32
      → is_empty c.token ≡ false
      → c.lines ≡ path ∷ (recipient ∷ (answer ∷ rest))
      → is_yes answer ≡ true
      → get path c.files ≡ some plain
      → get recipient c.pub_cache ≡ some (ssl.x25519_base priv_key)
      → (encrypt_for ssl plain recipient (ssl.x25519_base priv_key) c.calls).0 ≡ returns enc
      → length recipient < 2 ^ 16
      → length (filename path) < 2 ^ 16
      → validate p.lexically_normal (filename path) (length plain) fake_header ≡ returns tt
      → Accepting p c.net.live
      → c.net.serving ≡ true
      → length plain + 16 + 5 ≤ max_payload
      → let stored =
          upload p c.net.live.conn.conn_token
            (request p cut delivers ssl writable filename path recipient plain enc c)
            (twice_ticked p cut delivers ssl writable filename c) in
        stored.0 ≡ returns (success t)
        → length t.file < 2 ^ 16
        → length other < 2 ^ 16
        → is_empty other ≡ false
        → IsUp link
        → Sessions.is_valid p.sha256_hex other (next_reading stored.1) c.net.live.world.sessions
          ≡ true
        → Sessions.user_for p.sha256_hex other c.net.live.world.sessions ≡ returns reader
        → (reader ≡ t.recipient) ⊎ (reader ≡ t.sender)
        → (p.record_event (event reader download_action t.file) stored.1.audit).0 ≡ returns tt
        → let w = (on_upload (connected_to p cut ssl writable filename) c).1.net.live.world in
          let asked : Wire A B T = record {
            live = record { world = w; conn = conn; link = link };
            inbox = none;
            serving = true;
          } in
          (fr : FileRecord) × (bytes : Bytes) × (Files.find_by_id t.file w.files ≡ success fr)
          × ((relay p cut (fetch_frame t.file other) asked).inbox ≡ some (data_answer bytes))
          × ((decrypt_with ssl bytes fr.wrapped fr.digest priv_key m).0 ≡ returns plain)
  on_upload-received path recipient answer plain priv_key rest m c other reader conn link {enc} {t}
        works laws store size token typed sure file known made short named sound accepting on room
        done id_short token_short there up valid owner party taken =
      let recip_pub = ssl.x25519_base priv_key in
      let req = request p cut delivers ssl writable filename path recipient plain enc c in
      let w0 = twice_ticked p cut delivers ssl writable filename c in
      let w1 = (upload p c.net.live.conn.conn_token req w0).1 in
      let same =
        on_upload-upload p cut delivers ssl writable filename path recipient answer plain recip_pub
          rest c works laws token typed sure file known made short named sound accepting on in
      let (
        fr,
        (same_id, fr_owner, fr_recipient, upload_id, digest, wrapped, wrote, blobs, saved, kept),
      ) =
        upload-stores p c.net.live.conn.conn_token req w0 done in
      let delivered =
        upload-download p c.net.live.conn.conn_token other req w0 reader store done valid owner
          party taken in
      let (out, made', decrypted) =
        encrypt_for-decrypt_with ssl works laws plain recipient priv_key c.calls m size in
      let same_out : out ≡ enc = cc in
      let sizes = encrypt_for-sizes ssl laws plain recipient recip_pub c.calls made in
      let cipher : length enc.cipher ≡ length plain + 16 = sizes.0 in
      let s : Live A B T = record { world = w1; conn = conn; link = link } in
      let (took, sent) = fetch-answered t.file other s up id_short token_short there delivered in
      let answer_fits : Fits (data_answer enc.cipher) = record {
        type_fits = omega arith;
        id_fits = omega arith;
        body_fits = omega arith;
      } in
      let received =
        relay-answered p cut (fetch_frame t.file other) (data_answer enc.cipher)
          (record { live = s; inbox = none; serving = true }) delivers refl
          (fetch_frame-Fits t.file other id_short token_short) answer_fits took sent in
      let found : Files.find_by_id t.file w1.files ≡ success fr =
        ap (λ k. Files.find_by_id k w1.files) (sym same_id) ∙ save-finds p fr w0.files saved in
      let back : (decrypt_with ssl enc.cipher enc.wrapped enc.digest priv_key m).0 ≡ returns plain =
        subst
          (λ (o : EncryptOut).
            (decrypt_with ssl o.cipher o.wrapped o.digest priv_key m).0 ≡ returns plain)
          same_out decrypted in
      (
        fr,
        enc.cipher,
        ap (λ (v : World A B T). Files.find_by_id t.file v.files) same ∙ found,
        ap
              (λ (v : World A B T).
                (relay p cut (fetch_frame t.file other) (record {
                  live = record { world = v; conn = conn; link = link };
                  inbox = none;
                  serving = true;
                })).inbox)
              same
            ∙ ap (λ (x : Wire A B T). x.inbox) received,
        rw (wrapped, digest) back,
      )
