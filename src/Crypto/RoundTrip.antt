-- ===== src/Crypto/RoundTrip.antt =====
-- What was encrypted for a key pair is decrypted again with its private key.
use secure_file_transfer.Base.{
  ℕ, ◌+◌, ◌≡◌, ◌<◌, refl, sym, ap, subst, ◌∙◌, false, true, [], ◌∷◌, ◌++◌, Bytes, is_empty, length,
  take, drop, ◌==◌, str_eq_refl, returns, arith, All, length-append, take-append, drop-append,
  ==_iff, some,
}
use secure_file_transfer.Base.Bits.{bit_xor-bit_xor}
use secure_file_transfer.Domain.Records.{UserId}
use secure_file_transfer.FakeCrypto.{EncryptOut}
use secure_file_transfer.Crypto.{
  Openssl, xor_bytes, seal_dek, seal_dek_to, unseal_dek, do_encrypt, decrypt_and_verify,
  decrypt_with, encrypt_for, seal_alg, aes_gcm_encrypt,
}
use secure_file_transfer.Crypto.Healthy.{
  Works, rand_bytes-works, shared-works, pub_from_priv-works, gcm_encrypt-works, gcm_decrypt-works,
}

-- What the documentation of OpenSSL promises: the sizes, and that a public key and AES-256-GCM do
-- their work.
pub record Lawful (ssl : Openssl) : Type 0 where
  pub random_size : (n size : ℕ) → length (ssl.random n size) ≡ size
  pub random_bytes : (n size : ℕ) → All (λ b. b < 256) (ssl.random n size)
  pub digest_size : (s : Bytes) → length (ssl.sha256 s) ≡ 32
  pub digest_bytes : (s : Bytes) → All (λ b. b < 256) (ssl.sha256 s)
  pub base_size : (a : Bytes) → length a ≡ 32 → length (ssl.x25519_base a) ≡ 32
  pub agreement :
      (a b : Bytes) → ssl.x25519 a (ssl.x25519_base b) ≡ ssl.x25519 b (ssl.x25519_base a)
  pub text_size : (k n p : Bytes) → length (ssl.gcm_seal k n p).0 ≡ length p
  pub tag_size : (k n p : Bytes) → length (ssl.gcm_seal k n p).1 ≡ 16
  pub opens :
      (k n p : Bytes) → ssl.gcm_open k n (ssl.gcm_seal k n p).0 (ssl.gcm_seal k n p).1 ≡ some p

pub length-xor_bytes : (d k : Bytes) → length d ≡ length k → length (xor_bytes d k) ≡ length d
unfolding xor_bytes
length-xor_bytes [] k h = refl
length-xor_bytes (d ∷ ds) [] h = absurd (omega arith)
length-xor_bytes (d ∷ ds) (k ∷ ks) h = omega (arith, length-xor_bytes ds ks (omega arith))

-- Masking twice with the same bytes, as many as there are to mask.
pub xor_bytes-xor_bytes :
    (d k : Bytes)
    → length d ≡ length k
    → All (λ b. b < 256) d
    → All (λ b. b < 256) k
    → xor_bytes (xor_bytes d k) k ≡ d
unfolding xor_bytes
xor_bytes-xor_bytes [] k h p q = refl
xor_bytes-xor_bytes (d ∷ ds) [] h p q = absurd (omega arith)
xor_bytes-xor_bytes (d ∷ ds) (k ∷ ks) h (p, ps) (q, qs) =
    rw ((bit_xor-bit_xor d k p q).0, xor_bytes-xor_bytes ds ks (omega arith) ps qs) refl

module _ (ssl : Openssl) (works : Works ssl) (laws : Lawful ssl) where
  -- The sealed form of a key, made with an ephemeral private key.
  abbrev pub sealed_by : Bytes → Bytes → Bytes → Bytes
  sealed_by eph dek recipient_pub =
      ssl.x25519_base eph ++ xor_bytes dek (ssl.sha256 (ssl.x25519 eph recipient_pub))

  seal_dek-works :
      (dek recipient_pub : Bytes) (n : ℕ)
      → (seal_dek ssl dek recipient_pub n).0
        ≡ returns (sealed_by (ssl.random n 32) dek recipient_pub)
  unfolding seal_dek
  seal_dek-works dek recipient_pub n = rw (rand_bytes-works ssl works _ 32 n) (
      rw (pub_from_priv-works ssl works (ssl.random n 32) (n + 1))
        (rw (shared-works ssl works (ssl.random n 32) recipient_pub _) refl))

  sealed-size :
      (eph dek recipient_pub : Bytes)
      → length eph ≡ 32
      → length dek ≡ 32
      → length (sealed_by eph dek recipient_pub) ≡ 64
  sealed-size eph dek recipient_pub e d = omega (
    arith,
    length-append (ssl.x25519_base eph) (xor_bytes dek (ssl.sha256 (ssl.x25519 eph recipient_pub))),
    laws.base_size eph e,
    length-xor_bytes dek (ssl.sha256 (ssl.x25519 eph recipient_pub)) (d ∙ sym (laws.digest_size _)),
  )

  unseal_dek-works :
      (eph_pub masked priv_key : Bytes) (n : ℕ)
      → length eph_pub ≡ 32
      → length masked ≡ 32
      → (unseal_dek ssl (eph_pub ++ masked) priv_key n).0
        ≡ returns (xor_bytes masked (ssl.sha256 (ssl.x25519 priv_key eph_pub)))
  unfolding unseal_dek
  unseal_dek-works eph_pub masked priv_key n e m =
      let whole : (length (eph_pub ++ masked) == 64) ≡ true =
        (==_iff (length (eph_pub ++ masked)) 64).1 (omega (arith, length-append eph_pub masked)) in
      let front : take 32 (eph_pub ++ masked) ≡ eph_pub =
        subst (λ k. take k (eph_pub ++ masked) ≡ eph_pub) e (take-append eph_pub masked) in
      let back : drop 32 (eph_pub ++ masked) ≡ masked =
        subst (λ k. drop k (eph_pub ++ masked) ≡ masked) e (drop-append eph_pub masked) in
      rw (whole, front, back) (rw (shared-works ssl works priv_key eph_pub n) refl)

  -- A sealed key is unsealed with the private key that belongs to the public key it was sealed for.
  unseal_dek-sealed_by :
      (eph dek priv_key : Bytes) (n : ℕ)
      → length eph ≡ 32
      → length dek ≡ 32
      → All (λ b. b < 256) dek
      → (unseal_dek ssl (sealed_by eph dek (ssl.x25519_base priv_key)) priv_key n).0 ≡ returns dek
  unfolding unseal_dek
  unseal_dek-sealed_by eph dek priv_key n e d b =
      let k = ssl.sha256 (ssl.x25519 eph (ssl.x25519_base priv_key)) in
      let masked = xor_bytes dek k in
      let same_size : length dek ≡ length k = d ∙ sym (laws.digest_size _) in
      let whole =
        unseal_dek-works (ssl.x25519_base eph) masked priv_key n (laws.base_size eph e)
          (length-xor_bytes dek k same_size ∙ d) in
      whole
      ∙ ap (λ s. returns (xor_bytes masked (ssl.sha256 s))) (laws.agreement priv_key eph)
      ∙ ap returns (xor_bytes-xor_bytes dek k same_size b (laws.digest_bytes _))

  -- What an encryption gives, from the three draws of random bytes.
  abbrev pub encrypted : Bytes → UserId → Bytes → ℕ → ℕ → ℕ → EncryptOut
  encrypted plain recipient_id recipient_pub i j k =
      let dek = ssl.random i 32 in
      let nonce = ssl.random j 12 in
      record {
        cipher = (ssl.gcm_seal dek nonce plain).0 ++ (ssl.gcm_seal dek nonce plain).1;
        wrapped = record {
          recipient_id = recipient_id;
          nonce = nonce;
          bytes = sealed_by (ssl.random k 32) dek recipient_pub;
          alg = seal_alg;
        };
        digest = ssl.sha256 plain;
      }

  pub do_encrypt-works :
      (plain : Bytes) (recipient_id : UserId) (recipient_pub : Bytes) (n : ℕ)
      → length recipient_pub ≡ 32
      → (k : ℕ) × ((do_encrypt ssl plain recipient_id recipient_pub n).0
          ≡ returns (encrypted plain recipient_id recipient_pub n (n + 1) k))
  unfolding do_encrypt seal_dek_to
  do_encrypt-works plain recipient_id recipient_pub n size =
      let fits : (length recipient_pub == 32) ≡ true = (==_iff (length recipient_pub) 32).1 size in
      let dek = ssl.random n 32 in
      let nonce = ssl.random (n + 1) 12 in
      let sealing = (aes_gcm_encrypt ssl plain dek nonce (n + 1 + 1)).1 in
      (
        sealing,
        rw fits (
            rw (rand_bytes-works ssl works _ 32 n) (
              rw (rand_bytes-works ssl works _ 12 (n + 1)) (
                rw (gcm_encrypt-works ssl works plain dek nonce _)
                  (rw (seal_dek-works dek recipient_pub _) refl)))),
      )

  nonempty : (s : Bytes) → length s ≡ 64 → is_empty s ≡ false
  unfolding is_empty
  nonempty [] h = absurd (omega arith)
  nonempty (x ∷ xs) h = refl

  decrypts :
      (plain : Bytes) (recipient_id : UserId) (priv_key : Bytes) (i j k n : ℕ)
      → let out = encrypted plain recipient_id (ssl.x25519_base priv_key) i j k in
        (decrypt_and_verify ssl out.cipher out.wrapped out.digest priv_key n).0 ≡ returns plain
  unfolding decrypt_and_verify
  decrypts plain recipient_id priv_key i j k n =
      let dek = ssl.random i 32 in
      let nonce = ssl.random j 12 in
      let eph = ssl.random k 32 in
      let (ct, tag) = ssl.gcm_seal dek nonce plain in
      let nonce_fits : (length nonce == 12) ≡ true =
        (==_iff (length nonce) 12).1 (laws.random_size j 12) in
      let sealed = sealed_by eph dek (ssl.x25519_base priv_key) in
      let there : is_empty sealed ≡ false = nonempty sealed (
        sealed-size eph dek (ssl.x25519_base priv_key) (laws.random_size k 32)
          (laws.random_size i 32)) in
      let unsealed =
        unseal_dek-sealed_by eph dek priv_key n (laws.random_size k 32) (laws.random_size i 32)
          (laws.random_bytes i 32) in
      let opened =
        gcm_decrypt-works ssl works ct tag dek nonce plain (unseal_dek ssl sealed priv_key n).1
          (laws.tag_size dek nonce plain) (laws.opens dek nonce plain) in
      rw (nonce_fits, there) (rw unsealed (rw opened (rw (str_eq_refl (ssl.sha256 plain)) refl)))

  -- With an OpenSSL that works as documented, encryption for the public key of a 32-byte private key
  -- succeeds, and decryption with that private key then gives the text back.
  pub encrypt_for-decrypt_with :
      (plain : Bytes) (recipient_id : UserId) (priv_key : Bytes) (n m : ℕ)
      → length priv_key ≡ 32
      → (out : EncryptOut) × ((encrypt_for ssl plain recipient_id (ssl.x25519_base priv_key) n).0
          ≡ returns out)
        × ((decrypt_with ssl out.cipher out.wrapped out.digest priv_key m).0 ≡ returns plain)
  unfolding encrypt_for decrypt_with
  encrypt_for-decrypt_with plain recipient_id priv_key n m size =
      let fits : (length priv_key == 32) ≡ true = (==_iff (length priv_key) 32).1 size in
      let (k, made) =
        do_encrypt-works plain recipient_id (ssl.x25519_base priv_key) n
          (laws.base_size priv_key size) in
      (
        encrypted plain recipient_id (ssl.x25519_base priv_key) n (n + 1) k,
        made,
        rw fits (decrypts plain recipient_id priv_key n (n + 1) k m),
      )
