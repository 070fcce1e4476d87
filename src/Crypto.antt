-- ===== src/Crypto.antt =====
-- src/infrastructure/client_crypto.cpp: `ClientCryptoProvider`, and src/domain/key_pair.cpp. OpenSSL
-- is the record `Openssl`: what its functions compute, and which of the calls that may fail do, by
-- their number. The state of every function here is the number of such calls made so far. The
-- wiping of memory leaves nothing to see; texts are shorter than 2^31 bytes, as the casts of their
-- sizes to `int` want.
pub mod Checks
pub mod Delivered
pub mod Healthy
pub mod RoundTrip
use secure_file_transfer.Base.{
  ℕ, ◌+◌, ◌-◌, Bool, true, false, not, List, [], ◌∷◌, ◌++◌, Bytes, codes, is_empty, length, take,
  drop, ltb, ◌==◌, str_eq, if◌then◌else◌, Option, none, some, Exec, pure, raise, ◌>>=◌, ◌>>◌,
  returns, Exception, validation, integrity, runtime,
}
use secure_file_transfer.Domain.Records.{UserId, Digest, WrappedKey}
use secure_file_transfer.FakeCrypto.{EncryptOut}
use Prim.Native.Nat.{bit_xor}

-- `random`: the bytes of a `RAND_bytes` of some size; `x25519`: the shared secret of a private and a
-- public key; `x25519_base`: the public key of a private one; `gcm_seal`: the text and the tag that
-- AES-256-GCM makes of a key, a nonce and a text; `gcm_open`: the text again, if the tag is right.
pub record Openssl : Type 0 where
  pub ok : ℕ → Bool
  pub random : ℕ → ℕ → Bytes
  pub sha256 : Bytes → Digest
  pub x25519 : Bytes → Bytes → Bytes
  pub x25519_base : Bytes → Bytes
  pub gcm_seal : Bytes → Bytes → Bytes → Bytes × Bytes
  pub gcm_open : Bytes → Bytes → Bytes → Bytes → Option Bytes

-- `dek[i] ^ k[i]`
unfoldable pub xor_bytes : Bytes → Bytes → Bytes
xor_bytes [] k = []
xor_bytes (d ∷ ds) [] = []
xor_bytes (d ∷ ds) (k ∷ ks) = bit_xor d k ∷ xor_bytes ds ks

-- include/domain/key_pair.hpp
pub record KeyPair : Type 0 where
  pub priv_key : Bytes
  pub pub_key : Bytes

-- The members of the class: `storedPub_` if `hasStoredPub_`.
pub record Provider : Type 0 where
  pub stored_pub : Option Bytes

abbrev pub seal_alg : Bytes
seal_alg = codes "X25519-AES-GCM-Seal"

abbrev pub no_provider : Provider
no_provider = record { stored_pub = none }

module _ (ssl : Openssl) where
  -- A call that throws when it fails.
  unfoldable pub check : Exception → Exec ℕ (Unit {0})
  check e n = (if ssl.ok n then pure tt else raise e) (n + 1)

  unfoldable pub rand_bytes : Exception → ℕ → Exec ℕ Bytes
  rand_bytes e size n = (if ssl.ok n then pure (ssl.random n size) else raise e) (n + 1)

  abbrev pub digest_from_plain : Bytes → Digest
  digest_from_plain plain = ssl.sha256 plain

  unfoldable pub x25519_shared : Bytes → Bytes → Exec ℕ Bytes
  x25519_shared priv_key pub_key = do
    check (integrity (codes "X25519 priv init failed"))
    check (integrity (codes "X25519 pub init failed"))
    check (integrity (codes "X25519 ctx failed"))
    check (integrity (codes "derive_init failed"))
    check (integrity (codes "derive_set_peer failed"))
    check (integrity (codes "X25519 derive failed"))
    pure (ssl.x25519 priv_key pub_key)

  unfoldable pub x25519_pub_from_priv : Bytes → Exec ℕ Bytes
  x25519_pub_from_priv priv_key = do
    check (integrity (codes "X25519 priv->pub init failed"))
    check (integrity (codes "X25519 get pub failed"))
    pure (ssl.x25519_base priv_key)

  unfoldable pub seal_dek : Bytes → Bytes → Exec ℕ Bytes
  unfolding xor_bytes
  seal_dek dek recipient_pub = do
    eph_priv ← rand_bytes (runtime (codes "RAND_bytes ephPriv failed")) 32
    eph_pub ← x25519_pub_from_priv eph_priv
    shared ← x25519_shared eph_priv recipient_pub
    pure (eph_pub ++ xor_bytes dek (ssl.sha256 shared))

  -- The overload for vectors.
  unfoldable pub seal_dek_to : Bytes → Bytes → Exec ℕ Bytes
  unfolding seal_dek
  seal_dek_to dek pub_vec =
      if not (length pub_vec == 32)
      then raise (validation (codes "recipient pubkey must be 32"))
      else seal_dek dek pub_vec

  unfoldable pub unseal_dek : Bytes → Bytes → Exec ℕ Bytes
  unfolding xor_bytes
  unseal_dek sealed priv_key =
      if not (length sealed == 64) then raise (integrity (codes "sealed DEK size invalid")) else do
        shared ← x25519_shared priv_key (take 32 sealed)
        pure (xor_bytes (drop 32 sealed) (ssl.sha256 shared))

  unfoldable pub aes_gcm_encrypt : Bytes → Bytes → Bytes → Exec ℕ Bytes
  aes_gcm_encrypt plain dek nonce = do
    check (runtime (codes "EVP_CIPHER_CTX_new failed"))
    check (runtime (codes "EncryptInit failed"))
    check (runtime (codes "SET_IVLEN failed"))
    check (runtime (codes "EncryptInit key/nonce failed"))
    updated ← if is_empty plain then pure tt else check (runtime (codes "EncryptUpdate failed"))
    check (runtime (codes "EncryptFinal failed"))
    check (runtime (codes "GET_TAG failed"))
    pure (let (ct, tag) = ssl.gcm_seal dek nonce plain in ct ++ tag)

  -- `EVP_DecryptFinal_ex` fails if the tag is not the text's, or by itself.
  abbrev pub finish : Option Bytes → Exec ℕ Bytes
  finish none = raise (integrity (codes "GCM tag mismatch"))
  finish (some plain) = do check (integrity (codes "GCM tag mismatch")); pure plain

  unfoldable pub aes_gcm_decrypt : Bytes → Bytes → Bytes → Exec ℕ Bytes
  aes_gcm_decrypt cipher dek nonce =
      if ltb (length cipher) 16
      then raise (integrity (codes "cipher too short (tag missing)"))
      else do
        check (runtime (codes "EVP_CIPHER_CTX_new failed"))
        check (runtime (codes "DecryptInit failed"))
        check (runtime (codes "SET_IVLEN failed"))
        check (runtime (codes "DecryptInit key failed"))
        updated ←
            if ltb 0 (length cipher - 16)
            then check (integrity (codes "GCM decrypt failed"))
            else pure tt
        check (runtime (codes "SET_TAG failed"))
        finish (
            ssl.gcm_open dek nonce (take (length cipher - 16) cipher)
              (drop (length cipher - 16) cipher))

  unfoldable pub do_encrypt : Bytes → UserId → Bytes → Exec ℕ EncryptOut
  do_encrypt plain recipient_id recipient_pub =
      if not (length recipient_pub == 32)
      then raise (validation (codes "recipient pubkey must be 32 bytes"))
      else do
        dek ← rand_bytes (runtime (codes "RAND_bytes dek failed")) 32
        nonce ← rand_bytes (runtime (codes "RAND_bytes nonce failed")) 12
        cipher ← aes_gcm_encrypt plain dek nonce
        sealed ← seal_dek_to dek recipient_pub
        pure (record {
          cipher = cipher;
          wrapped = record {
            recipient_id = recipient_id;
            nonce = nonce;
            bytes = sealed;
            alg = seal_alg;
          };
          digest = digest_from_plain plain;
        })

  -- The constructor from a vector.
  unfoldable pub make_provider : Bytes → Exec ℕ Provider
  make_provider recipient_pub =
      if not (length recipient_pub == 32)
      then raise (validation (codes "recipient pubkey must be 32"))
      else pure (record { stored_pub = some recipient_pub })

  -- The port's `encrypt(plain)` and `decryptAndVerify(cipher, wrapped, digest)`.
  abbrev pub encrypt_stored : Option Bytes → Bytes → Exec ℕ EncryptOut
  encrypt_stored none plain =
      raise (validation (codes "recipient pub required: use encrypt(plain, recipientPub)"))
  encrypt_stored (some recipient_pub) plain = do_encrypt plain (codes "recipient") recipient_pub

  unfoldable pub encrypt : Provider → Bytes → Exec ℕ EncryptOut
  unfolding do_encrypt
  encrypt c plain = encrypt_stored c.stored_pub plain

  unfoldable pub decrypt_keyless : Bytes → WrappedKey → Digest → Exec ℕ Bytes
  decrypt_keyless cipher w d =
      raise
        (integrity (codes "privkey required: use decryptAndVerify(cipher, wrapped, digest, priv)"))

  -- The overloads for a recipient's key, without and with the recipient's id.
  unfoldable pub encrypt_to : Bytes → Bytes → Exec ℕ EncryptOut
  unfolding do_encrypt
  encrypt_to plain recipient_pub = do_encrypt plain (codes "recipient") recipient_pub

  unfoldable pub encrypt_for : Bytes → UserId → Bytes → Exec ℕ EncryptOut
  unfolding do_encrypt
  encrypt_for plain recipient_id recipient_pub = do_encrypt plain recipient_id recipient_pub

  unfoldable pub decrypt_and_verify : Bytes → WrappedKey → Digest → Bytes → Exec ℕ Bytes
  unfolding unseal_dek aes_gcm_decrypt
  decrypt_and_verify cipher w d priv_key =
      if not (length w.nonce == 12)
      then raise (integrity (codes "nonce must be 12"))
      else if is_empty w.bytes
      then raise (integrity (codes "wrapped bytes empty"))
      else do
        dek ← unseal_dek w.bytes priv_key
        plain ← aes_gcm_decrypt cipher dek w.nonce
        if not (str_eq (digest_from_plain plain) d)
            then raise (integrity (codes "digest mismatch"))
            else pure plain

  unfoldable pub decrypt_with : Bytes → WrappedKey → Digest → Bytes → Exec ℕ Bytes
  unfolding decrypt_and_verify
  decrypt_with cipher w d priv_key =
      if not (length priv_key == 32)
      then raise (validation (codes "privkey must be 32"))
      else decrypt_and_verify cipher w d priv_key

  -- `KeyPair::generate`
  unfoldable pub generate : Exec ℕ KeyPair
  unfolding rand_bytes
  generate = do
    priv_key ← rand_bytes (runtime (codes "RAND_bytes failed for priv")) 32
    check (runtime (codes "EVP_PKEY_new_raw_private_key failed"))
    check (runtime (codes "EVP_PKEY_get_raw_public_key failed"))
    pure (record { priv_key = priv_key; pub_key = ssl.x25519_base priv_key })
