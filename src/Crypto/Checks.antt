-- ===== src/Crypto/Checks.antt =====
-- What holds of a result, whatever calls of OpenSSL fail.
use secure_file_transfer.Base.{
  ℕ, ◌+◌, ◌-◌, ◌≡◌, ◌≤◌, sym, ap, ◌∙◌, Bytes, length, take, drop, ◌++◌, returns, arith,
  length-append, some, Exception, str_eq_iff, inl, inr, Outcome-cases, bind-returns, ◌==◌, ==_iff,
  Bool-cases,
}
use secure_file_transfer.Domain.Records.{UserId, WrappedKey, Digest}
use secure_file_transfer.FakeCrypto.{EncryptOut}
use secure_file_transfer.Crypto.{
  Openssl, check, rand_bytes, xor_bytes, x25519_shared, x25519_pub_from_priv, seal_dek, seal_dek_to,
  unseal_dek, aes_gcm_encrypt, aes_gcm_decrypt, do_encrypt, decrypt_and_verify, decrypt_with,
  encrypt_for, seal_alg,
}
use secure_file_transfer.Crypto.RoundTrip.{Lawful, length-xor_bytes}

module _ (ssl : Openssl) where
  unseal_dek-size :
      (sealed priv_key : Bytes) (n : ℕ) {k : Bytes}
      → (unseal_dek ssl sealed priv_key n).0 ≡ returns k
      → length sealed ≡ 64
  unfolding unseal_dek
  unseal_dek-size sealed priv_key n e = ground arith

  gcm_decrypt-opened :
      (cipher dek nonce : Bytes) (n : ℕ) {p : Bytes}
      → (aes_gcm_decrypt ssl cipher dek nonce n).0 ≡ returns p
      → (16 ≤ length cipher)
        × (ssl.gcm_open dek nonce
              (take (length cipher - 16) cipher)
              (drop (length cipher - 16) cipher)
            ≡ some p)
  unfolding aes_gcm_decrypt check
  gcm_decrypt-opened cipher dek nonce n e = ground arith

  -- A decryption that returns a text has checked the private key's size, the nonce's, the sealed
  -- key's and the cipher's, has opened the cipher under some key, and the text has the digest that
  -- was asked for.
  pub decrypt_with-checked :
      (cipher : Bytes) (w : WrappedKey) (d : Digest) (priv_key : Bytes) (n : ℕ) {p : Bytes}
      → (decrypt_with ssl cipher w d priv_key n).0 ≡ returns p
      → (length priv_key ≡ 32)
        × (length w.nonce ≡ 12)
        × (length w.bytes ≡ 64)
        × (16 ≤ length cipher)
        × (ssl.sha256 p ≡ d)
        × ((dek : Bytes) × (ssl.gcm_open dek w.nonce
                (take (length cipher - 16) cipher)
                (drop (length cipher - 16) cipher)
              ≡ some p))
  unfolding decrypt_with decrypt_and_verify
  decrypt_with-checked cipher w d priv_key n {p} e =
      elim (Outcome-cases (unseal_dek ssl w.bytes priv_key n).0) [
        | inl (dek, unsealed) ↦
            elim (Outcome-cases
              (aes_gcm_decrypt ssl cipher dek w.nonce (unseal_dek ssl w.bytes priv_key n).1).0) [
                | inl (q, opened) ↦
                    let size = unseal_dek-size w.bytes priv_key n unsealed in
                    let (long, text) = gcm_decrypt-opened cipher dek w.nonce _ opened in
                    let same : q ≡ p = ground arith in
                    (
                      ground arith,
                      ground arith,
                      size,
                      long,
                      ground (arith, str_eq_iff (ssl.sha256 q) d),
                      (dek, text ∙ ap some same),
                    )
                | inr (t, failed) ↦ absurd (ground arith)
              ]
        | inr (t, failed) ↦ absurd (ground arith)
      ]

  gcm_encrypt-value :
      (plain dek nonce : Bytes) (n : ℕ) {c : Bytes}
      → (aes_gcm_encrypt ssl plain dek nonce n).0 ≡ returns c
      → c ≡ (ssl.gcm_seal dek nonce plain).0 ++ (ssl.gcm_seal dek nonce plain).1
  unfolding aes_gcm_encrypt check
  gcm_encrypt-value plain dek nonce n e = ground arith

  rand_bytes-value :
      (t : Exception) (size n : ℕ) {b : Bytes}
      → (rand_bytes ssl t size n).0 ≡ returns b
      → b ≡ ssl.random n size
  unfolding rand_bytes
  rand_bytes-value t size n e = ground arith

  shared-value :
      (a b : Bytes) (n : ℕ) {s : Bytes}
      → (x25519_shared ssl a b n).0 ≡ returns s
      → s ≡ ssl.x25519 a b
  unfolding x25519_shared check
  shared-value a b n e = ground arith

  pub_from_priv-value :
      (a : Bytes) (n : ℕ) {s : Bytes}
      → (x25519_pub_from_priv ssl a n).0 ≡ returns s
      → s ≡ ssl.x25519_base a
  unfolding x25519_pub_from_priv check
  pub_from_priv-value a n e = ground arith

  module _ (laws : Lawful ssl) where
    seal_dek-size :
        (dek recipient_pub : Bytes) (n : ℕ) {s : Bytes}
        → length dek ≡ 32
        → (seal_dek ssl dek recipient_pub n).0 ≡ returns s
        → length s ≡ 64
    unfolding seal_dek
    seal_dek-size dek recipient_pub n {s} d e =
        let (eph, drawn, step) = bind-returns (rand_bytes ssl _ 32) _ n e in
        let (eph_pub, derived, step2) = bind-returns (x25519_pub_from_priv ssl eph) _ _ step in
        let (shared, agreed, last) = bind-returns (x25519_shared ssl eph recipient_pub) _ _ step2 in
        let value : s ≡ eph_pub ++ xor_bytes dek (ssl.sha256 shared) = cc in
        let eph_size : length eph ≡ 32 =
          ap length (rand_bytes-value _ 32 n drawn) ∙ laws.random_size n 32 in
        let pub_size : length eph_pub ≡ 32 =
          ap length (pub_from_priv-value eph _ derived) ∙ laws.base_size eph eph_size in
        rw value (
          omega (
            arith,
            length-append eph_pub (xor_bytes dek (ssl.sha256 shared)),
            length-xor_bytes dek (ssl.sha256 shared) (d ∙ sym (laws.digest_size shared)),
          ))

    seal_dek_to-size :
        (dek recipient_pub : Bytes) (n : ℕ) {s : Bytes}
        → length dek ≡ 32
        → (seal_dek_to ssl dek recipient_pub n).0 ≡ returns s
        → length s ≡ 64
    unfolding seal_dek_to
    seal_dek_to-size dek recipient_pub n d e = seal_dek-size dek recipient_pub n d (ground arith)

    -- With results of OpenSSL that are as `Lawful` says, what an encryption returns has the sizes that
    -- a decryption checks: the cipher is 16 bytes longer than the text, the nonce has 12 bytes, the
    -- sealed key 64, and the digest 32, whichever calls of OpenSSL fail on other attempts.
    pub encrypt_for-sizes :
        (plain : Bytes) (recipient_id : UserId) (recipient_pub : Bytes) (n : ℕ) {out : EncryptOut}
        → (encrypt_for ssl plain recipient_id recipient_pub n).0 ≡ returns out
        → (length out.cipher ≡ length plain + 16)
          × (length out.wrapped.nonce ≡ 12)
          × (length out.wrapped.bytes ≡ 64)
          × (length out.digest ≡ 32)
          × (out.wrapped.recipient_id ≡ recipient_id)
          × (length recipient_pub ≡ 32)
    unfolding encrypt_for do_encrypt
    encrypt_for-sizes plain recipient_id recipient_pub n {out} e =
        elim (Bool-cases (length recipient_pub == 32)) [
          | inl fits ↦
              let (dek, drawn, step) = bind-returns (rand_bytes ssl _ 32) _ n (rw fits at e) in
              let (nonce, drawn2, step2) = bind-returns (rand_bytes ssl _ 12) _ _ step in
              let (cipher, ciphered, step3) =
                bind-returns (aes_gcm_encrypt ssl plain dek nonce) _ _ step2 in
              let (sealed, made, last) =
                bind-returns (seal_dek_to ssl dek recipient_pub) _ _ step3 in
              let dek_size : length dek ≡ 32 =
                ap length (rand_bytes-value _ 32 n drawn) ∙ laws.random_size n 32 in
              let nonce_size : length nonce ≡ 12 =
                ap length (rand_bytes-value _ 12 _ drawn2) ∙ laws.random_size _ 12 in
              let (ct, tag) = ssl.gcm_seal dek nonce plain in
              let cipher_size : length cipher ≡ length plain + 16 =
                ap length (gcm_encrypt-value plain dek nonce _ ciphered)
                ∙ omega (
                  arith,
                  length-append ct tag,
                  laws.text_size dek nonce plain,
                  laws.tag_size dek nonce plain,
                ) in
              let sealed_size = seal_dek_to-size dek recipient_pub _ dek_size made in
              let same : record {
                cipher = cipher;
                wrapped = record {
                  recipient_id = recipient_id;
                  nonce = nonce;
                  bytes = sealed;
                  alg = seal_alg;
                };
                digest = ssl.sha256 plain;
              }
                  ≡ out =
                cc in
              (
                ap (λ (o : EncryptOut). length o.cipher) (sym same) ∙ cipher_size,
                ap (λ (o : EncryptOut). length o.wrapped.nonce) (sym same) ∙ nonce_size,
                ap (λ (o : EncryptOut). length o.wrapped.bytes) (sym same) ∙ sealed_size,
                ap (λ (o : EncryptOut). length o.digest) (sym same) ∙ laws.digest_size plain,
                ap (λ (o : EncryptOut). o.wrapped.recipient_id) (sym same),
                (==_iff (length recipient_pub) 32).0 fits,
              )
          | inr misfit ↦ absurd (cc (rw misfit at e))
        ]
