-- ===== src/Crypto/Delivered.antt =====
-- From the sender's text to the recipient's: encryption, the server's two services, decryption.
use secure_file_transfer.Base.{ℕ, ◌≡◌, ◌⊎◌, subst, Bytes, length, true, returns}
use secure_file_transfer.Blobs.{IsStore}
use secure_file_transfer.Domain.Records.{UserId, SessionId, Transfer, success}
use secure_file_transfer.FakeCrypto.{EncryptOut}
use secure_file_transfer.Sessions
use secure_file_transfer.World.{Platform, World, next_reading, event}
use secure_file_transfer.Transfers.{Upload, upload, download, download_action}
use secure_file_transfer.Transfers.Atomic.{upload-download}
use secure_file_transfer.Crypto.{Openssl, encrypt_for, decrypt_with}
use secure_file_transfer.Crypto.Healthy.{Works}
use secure_file_transfer.Crypto.RoundTrip.{Lawful, encrypt_for-decrypt_with}

module _ {A B T : Type 0} (p : Platform A B T) (ssl : Openssl) where
  -- A text that was encrypted for a public key and uploaded with its wrapped key and digest is what
  -- the recipient, or the sender, gets by a download with a valid token and a decryption with the
  -- private key: over a store that reads back what was written, an audit log that takes the event, and
  -- an OpenSSL that works as documented.
  pub upload-download-decrypt_with :
      (plain : Bytes) (recipient_id : UserId) (priv_key : Bytes) (n m : ℕ) (token other : SessionId)
      (up : Upload) (w : World A B T) (reader : UserId) {out : EncryptOut} {t : Transfer}
      → Works ssl
      → Lawful ssl
      → IsStore p.staged_write p.read_blob p.remove_staged
      → length priv_key ≡ 32
      → (encrypt_for ssl plain recipient_id (ssl.x25519_base priv_key) n).0 ≡ returns out
      → up.opaque ≡ out.cipher
      → up.wrapped ≡ out.wrapped
      → up.digest ≡ out.digest
      → (upload p token up w).0 ≡ returns (success t)
      → let w' = (upload p token up w).1 in
        Sessions.is_valid p.sha256_hex other (next_reading w') w.sessions ≡ true
        → Sessions.user_for p.sha256_hex other w.sessions ≡ returns reader
        → (reader ≡ t.recipient) ⊎ (reader ≡ t.sender)
        → (p.record_event (event reader download_action t.file) w'.audit).0 ≡ returns tt
        → (bytes : Bytes) × ((download p other t.file w').0 ≡ returns (success bytes))
          × ((decrypt_with ssl bytes up.wrapped up.digest priv_key m).0 ≡ returns plain)
  upload-download-decrypt_with plain recipient_id priv_key n m token other up w reader {out} works
        laws store size made opaque wrapped digest done valid known party taken =
      let delivered =
        upload-download p token other up w reader store done valid known party taken in
      let (out', made', decrypted) =
        encrypt_for-decrypt_with ssl works laws plain recipient_id priv_key n m size in
      let same : out' ≡ out = cc in
      let back : (decrypt_with ssl out.cipher out.wrapped out.digest priv_key m).0 ≡ returns plain =
        subst
          (λ (o : EncryptOut).
            (decrypt_with ssl o.cipher o.wrapped o.digest priv_key m).0 ≡ returns plain)
          same decrypted in
      (up.opaque, delivered, rw (opaque, wrapped, digest) back)
