-- ===== src/FakeCrypto.antt =====
-- include/infrastructure/fake_crypto.hpp: `FakeCrypto`, with the checksum of include/domain/digest.hpp.
use secure_file_transfer.Base.{
  ℕ, suc, zero, ◌*◌, ◌/◌, ◌%◌, ◌^◌, ◌≡◌, ◌<◌, All, refl, [], ◌∷◌, arith, Bytes, codes, replicate,
  str_eq, str_eq_refl, if◌then◌else◌, not, Outcome, returns, throws, integrity,
}
use secure_file_transfer.Base.Bits.{bit_xor-bit_xor}
use secure_file_transfer.Domain.Records.{WrappedKey, Digest, default_alg}
use Prim.Native.Nat.{bit_xor}

unfoldable pub fnv1a32_from : ℕ → Bytes → ℕ
fnv1a32_from h [] = h
fnv1a32_from h (c ∷ cs) = fnv1a32_from ((bit_xor h c * 16777619) % 2 ^ 32) cs

unfoldable pub fnv1a32 : Bytes → ℕ
unfolding fnv1a32_from
fnv1a32 s = fnv1a32_from 2166136261 s

-- The bytes from the i-th on, `n` of them.
unfoldable pub stub_bytes : ℕ → ℕ → ℕ → Bytes
stub_bytes h i zero = []
stub_bytes h i (suc n) = (bit_xor (h / 2 ^ ((i % 4) * 8)) (i * 31)) % 256 ∷ stub_bytes h (suc i) n

unfoldable pub sha256stub : Bytes → Digest
unfolding stub_bytes fnv1a32
sha256stub s = stub_bytes (fnv1a32 s) 0 32

pub record EncryptOut : Type 0 where
  pub cipher : Bytes
  pub wrapped : WrappedKey
  pub digest : Digest

unfoldable pub mask : Bytes → Bytes
mask [] = []
mask (b ∷ bs) = bit_xor b 90 ∷ mask bs

unfoldable pub encrypt : Bytes → EncryptOut
unfolding mask sha256stub
encrypt p = record {
  cipher = mask p;
  wrapped = record {
    recipient_id = codes "fake-recipient";
    nonce = replicate 12 90;
    bytes = replicate 32 66;
    alg = default_alg;
  };
  digest = sha256stub p;
}

unfoldable pub decrypt_and_verify : Bytes → WrappedKey → Digest → Outcome Bytes
unfolding mask sha256stub
decrypt_and_verify c w d =
    let p = mask c in
    if not (str_eq (sha256stub p) d) then throws (integrity (codes "tag mismatch")) else returns p

mask-mask : (p : Bytes) → All (λ b. b < 256) p → mask (mask p) ≡ p
unfolding mask
mask-mask [] h = refl
mask-mask (b ∷ bs) h = rw ((bit_xor-bit_xor b 90 h.0 (omega arith)).0, mask-mask bs h.1) refl

-- Values below 256 that are encrypted are decrypted again, and their checksum is accepted.
pub encrypt-decrypt :
    (p : Bytes)
    → All (λ b. b < 256) p
    → decrypt_and_verify (encrypt p).cipher (encrypt p).wrapped (encrypt p).digest ≡ returns p
unfolding encrypt decrypt_and_verify
encrypt-decrypt p h = rw (mask-mask p h, str_eq_refl (sha256stub p)) refl
