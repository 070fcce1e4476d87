-- ===== src/Crypto/Healthy.antt =====
-- The operations over an OpenSSL whose calls succeed: their values, and how many calls they make.
use secure_file_transfer.Base.{
  ℕ, ◌+◌, ◌-◌, ◌≡◌, refl, true, false, ◌++◌, Bytes, is_empty, length, ltb, some, returns, Exception,
  arith, length-append, take-append, drop-append, le→ltb, Bool-cases, inl, inr,
}
use secure_file_transfer.Crypto.{
  Openssl, check, rand_bytes, x25519_shared, x25519_pub_from_priv, aes_gcm_encrypt, aes_gcm_decrypt,
}

-- Every call succeeds.
abbrev pub Works : Openssl → Type 0
Works ssl = (k : ℕ) → ssl.ok k ≡ true

module _ (ssl : Openssl) (works : Works ssl) where
  pub check-works : (e : Exception) (n : ℕ) → check ssl e n ≡ (returns tt, n + 1)
  unfolding check
  check-works e n = rw (works n) refl

  pub rand_bytes-works :
      (e : Exception) (size n : ℕ) → rand_bytes ssl e size n ≡ (returns (ssl.random n size), n + 1)
  unfolding rand_bytes
  rand_bytes-works e size n = rw (works n) refl

  pub shared-works : (a b : Bytes) (n : ℕ) → (x25519_shared ssl a b n).0 ≡ returns (ssl.x25519 a b)
  unfolding x25519_shared
  shared-works a b n = simp check-works

  pub pub_from_priv-works :
      (a : Bytes) (n : ℕ) → (x25519_pub_from_priv ssl a n).0 ≡ returns (ssl.x25519_base a)
  unfolding x25519_pub_from_priv
  pub_from_priv-works a n = simp check-works

  pub gcm_encrypt-works :
      (plain dek nonce : Bytes) (n : ℕ)
      → (aes_gcm_encrypt ssl plain dek nonce n).0
        ≡ returns ((ssl.gcm_seal dek nonce plain).0 ++ (ssl.gcm_seal dek nonce plain).1)
  unfolding aes_gcm_encrypt
  gcm_encrypt-works plain dek nonce n = elim (Bool-cases (is_empty plain)) [
    | inl nothing ↦ rw nothing (simp check-works)
    | inr text ↦ rw text (simp check-works)
  ]

  pub gcm_decrypt-works :
      (ct tag dek nonce plain : Bytes) (n : ℕ)
      → length tag ≡ 16
      → ssl.gcm_open dek nonce ct tag ≡ some plain
      → (aes_gcm_decrypt ssl (ct ++ tag) dek nonce n).0 ≡ returns plain
  unfolding aes_gcm_decrypt
  gcm_decrypt-works ct tag dek nonce plain n size opened =
      let whole : length (ct ++ tag) ≡ length ct + 16 = omega (arith, length-append ct tag) in
      let cut : length (ct ++ tag) - 16 ≡ length ct = omega arith in
      let long : ltb (length (ct ++ tag)) 16 ≡ false =
        le→ltb (length (ct ++ tag)) 16 (omega arith) in
      rw (long, cut, take-append ct tag, drop-append ct tag)
        (elim (Bool-cases (ltb 0 (length ct))) [
          | inl some_text ↦ rw (some_text, opened) (simp check-works)
          | inr no_text ↦ rw (no_text, opened) (simp check-works)
        ])
