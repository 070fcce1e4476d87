-- ===== src/Tests/Encryption.antt =====
-- Encryption with a small OpenSSL: its random bytes are all alike, a public key is its private key,
-- and a cipher text is its text with a tag that counts its bytes.
use secure_file_transfer.Base.{
  ℕ, zero, suc, ◌+◌, ◌-◌, ◌%◌, ◌<◌, ◌≤◌, ◌≡◌, refl, ap, true, if◌then◌else◌, [], ◌∷◌, Bytes, codes,
  none, some, All, length, replicate, get_or, take, drop, str_eq, str_eq_refl, returns, arith,
  is_empty,
}
use secure_file_transfer.FakeCrypto.{EncryptOut}
use secure_file_transfer.Crypto.{
  Openssl, encrypt_for, decrypt_with, do_encrypt, seal_dek_to, seal_dek, aes_gcm_encrypt,
  x25519_shared, x25519_pub_from_priv, rand_bytes, check, xor_bytes, decrypt_and_verify, unseal_dek,
  aes_gcm_decrypt,
}
use secure_file_transfer.Crypto.Healthy.{Works}
use secure_file_transfer.Crypto.RoundTrip.{Lawful, encrypted, encrypt_for-decrypt_with}
use secure_file_transfer.Crypto.Checks.{decrypt_with-checked, encrypt_for-sizes}

abbrev count_tag : Bytes → Bytes
count_tag text = replicate 16 (length text % 256)

abbrev pub small_ssl : Openssl
small_ssl = record {
  ok = λ n. true;
  random = λ n size. replicate size (n % 256);
  sha256 = λ s. replicate 32 (length s % 256);
  x25519 = λ a b. replicate 32 ((get_or a 0 0 + get_or b 0 0) % 256);
  x25519_base = λ a. a;
  gcm_seal = λ k n p. (p, count_tag p);
  gcm_open = λ k n c t. if str_eq t (count_tag c) then some c else none;
}

pub length-replicate : (n b : ℕ) → length (replicate n b) ≡ n
length-replicate zero b = refl
length-replicate (suc n) b = ap suc (length-replicate n b)

replicate-small : (n b : ℕ) → b < 256 → All (λ x. x < 256) (replicate n b)
replicate-small zero b h = tt
replicate-small (suc n) b h = (h, replicate-small n b h)

pub small-Works : Works small_ssl
small-Works k = refl

pub small-Lawful : Lawful small_ssl
small-Lawful = record {
  random_size = λ n size. length-replicate size (n % 256);
  random_bytes = λ n size. replicate-small size (n % 256) (omega arith);
  digest_size = λ s. length-replicate 32 (length s % 256);
  digest_bytes = λ s. replicate-small 32 (length s % 256) (omega arith);
  base_size = λ a h. h;
  agreement = λ a b. ap (λ k. replicate 32 (k % 256)) (omega arith);
  text_size = λ k n p. refl;
  tag_size = λ k n p. length-replicate 16 (length p % 256);
  opens = λ k n p. rw (str_eq_refl (count_tag p)) refl;
}

abbrev pub bob_key : Bytes
bob_key = replicate 32 7

abbrev pub plain : Bytes
plain = 9 ∷ (8 ∷ [])

encrypt_for-decrypt_with_example :
    (out : EncryptOut) × ((encrypt_for small_ssl plain (codes "bob") bob_key 0).0 ≡ returns out)
    × ((decrypt_with small_ssl out.cipher out.wrapped out.digest bob_key 40).0 ≡ returns plain)
encrypt_for-decrypt_with_example =
    encrypt_for-decrypt_with small_ssl small-Works small-Lawful plain (codes "bob") bob_key 0 40
      (length-replicate 32 7)

abbrev pub made : EncryptOut
made = encrypted small_ssl small-Works small-Lawful plain (codes "bob") bob_key 0 1 9

pub encrypts : (encrypt_for small_ssl plain (codes "bob") bob_key 0).0 ≡ returns made
unfolding encrypt_for do_encrypt seal_dek_to seal_dek aes_gcm_encrypt x25519_shared
    x25519_pub_from_priv rand_bytes check xor_bytes is_empty
encrypts = refl

decrypts :
    (decrypt_with small_ssl made.cipher made.wrapped made.digest bob_key 40).0 ≡ returns plain
unfolding decrypt_with decrypt_and_verify unseal_dek aes_gcm_decrypt x25519_shared check xor_bytes
    is_empty str_eq
decrypts = refl

decrypt_with-checked_example :
    (length bob_key ≡ 32)
    × (length made.wrapped.nonce ≡ 12)
    × (length made.wrapped.bytes ≡ 64)
    × (16 ≤ length made.cipher)
    × (small_ssl.sha256 plain ≡ made.digest)
    × ((dek : Bytes) × (small_ssl.gcm_open dek made.wrapped.nonce
            (take (length made.cipher - 16) made.cipher)
            (drop (length made.cipher - 16) made.cipher)
          ≡ some plain))
decrypt_with-checked_example =
    decrypt_with-checked small_ssl made.cipher made.wrapped made.digest bob_key 40 decrypts

encrypt_for-sizes_example :
    (length made.cipher ≡ length plain + 16)
    × (length made.wrapped.nonce ≡ 12)
    × (length made.wrapped.bytes ≡ 64)
    × (length made.digest ≡ 32)
    × (made.wrapped.recipient_id ≡ codes "bob")
    × (length bob_key ≡ 32)
encrypt_for-sizes_example =
    encrypt_for-sizes small_ssl small-Lawful plain (codes "bob") bob_key 0 encrypts
