-- ===== src/Tls/Pinning.antt =====
-- Which certificates a connection accepts, and that the comparison of fingerprints is one of texts.
use Prim.Native.Nat.{bit_or, bit_xor}
use secure_file_transfer.Base.{
  ℕ, ◌%◌, ◌<◌, ◌≡◌, refl, sym, ap, ◌∙◌, ◌↔◌, Bool, true, false, ◌&&◌, [], ◌∷◌, map, Bytes, codes,
  length, is_empty, str_eq, str_eq_iff, arith, All, ◌==◌, none, some, inl, inr, Bool-cases,
  Option-cases,
}
use secure_file_transfer.Base.Bits.{bit_xor-zero, bit_or-zero, bit_xor-bit_xor}
use secure_file_transfer.Base.Dict.{Dict, get}
use secure_file_transfer.Domain.Ids.{hex_bytes}
use secure_file_transfer.Sha256.Digest.{IsHexDigit, hex_bytes-IsHexDigit, hex_bytes-injective}
use secure_file_transfer.Tls.{
  TrustConfig, Certificates, differ, constant_time_equal, to_upper, normalized, verify_fingerprint,
  is_past, is_future, verify_callback, client_trust, read_cert,
}

abbrev AreBytes : Bytes → Type 0
AreBytes s = All (λ b. b < 256) s

-- One step of the loop keeps a difference.
differ-step :
    (d x y : ℕ)
    → d < 256
    → x < 256
    → y < 256
    → ((bit_or d (bit_xor x y) % 256 == 0) ≡ ((d == 0) && (x == y)))
      × (bit_or d (bit_xor x y) % 256 < 256)
differ-step d x y hd hx hy =
    let low = (bit_xor-bit_xor x y hx hy).1 in
    let (zero_or, below) = bit_or-zero d (bit_xor x y) hd low in
    let small : bit_or d (bit_xor x y) % 256 ≡ bit_or d (bit_xor x y) = omega arith in
    (rw (small, zero_or, bit_xor-zero x y hx hy) refl, omega arith)

differ-zero :
    (d : ℕ) (s t : Bytes)
    → d < 256
    → AreBytes s
    → AreBytes t
    → length s ≡ length t
    → (differ d s t == 0) ≡ ((d == 0) && str_eq s t)
unfolding differ str_eq
differ-zero d [] [] hd p q size = ground arith
differ-zero d [] (y ∷ ys) hd p q size = absurd (omega arith)
differ-zero d (x ∷ xs) [] hd p q size = absurd (omega arith)
differ-zero d (x ∷ xs) (y ∷ ys) hd (p, ps) (q, qs) size =
    let (step, below) = differ-step d x y hd p q in
    differ-zero (bit_or d (bit_xor x y) % 256) xs ys below ps qs (omega arith)
    ∙ rw step (ground arith)

-- The comparison whose time does not depend on where two texts differ is equality.
pub constant_time_equal_iff :
    (s t : Bytes) → AreBytes s → AreBytes t → (constant_time_equal s t ≡ true) ↔ (s ≡ t)
unfolding constant_time_equal
constant_time_equal_iff s t p q = elim (Bool-cases (length s == length t)) [
  | inl same ↦
      let sizes : length s ≡ length t = ground arith in
      let zero_iff = differ-zero 0 s t (omega arith) p q sizes in
      rw same (rw zero_iff (str_eq_iff s t))
  | inr apart ↦ rw apart (
    λ e. absurd cc,
    λ e. let sizes : length s ≡ length t = ap (λ u. length u) e in absurd (ground arith),
  )
]

-- What OpenSSL's SHA-256 gives.
pub record GivesDigests {C : Type 0} (x509 : Certificates C) : Type 0 where
  pub digest_size : (s : Bytes) → length (x509.sha256 s) ≡ 32
  pub digest_bytes : (s : Bytes) → AreBytes (x509.sha256 s)

to_upper-injective : (c d : ℕ) → IsHexDigit c → IsHexDigit d → to_upper c ≡ to_upper d → c ≡ d
unfolding to_upper
to_upper-injective c d p q e = ground arith

map-to_upper-injective :
    (s t : Bytes) → All IsHexDigit s → All IsHexDigit t → map to_upper s ≡ map to_upper t → s ≡ t
map-to_upper-injective [] [] p q e = refl
map-to_upper-injective [] (d ∷ ds) p q e = absurd cc
map-to_upper-injective (c ∷ cs) [] p q e = absurd cc
map-to_upper-injective (c ∷ cs) (d ∷ ds) (p, ps) (q, qs) e =
    let heads : to_upper c ≡ to_upper d = cc in
    let tails : map to_upper cs ≡ map to_upper ds = cc in
    cc (to_upper-injective c d p q heads, map-to_upper-injective cs ds ps qs tails)

-- Capital digits are what they are normalized to, and bytes.
capital :
    (c : ℕ)
    → IsHexDigit c
    → (to_upper (to_upper c) ≡ to_upper c) × (¬ (to_upper c ≡ 58)) × (to_upper c < 256)
unfolding to_upper
capital c (inl p) = (ground arith, ground arith, ground arith)
capital c (inr p) = (ground arith, ground arith, ground arith)

normalized-capitals :
    (s : Bytes)
    → All IsHexDigit s
    → (normalized (map to_upper s) ≡ map to_upper s) × AreBytes (map to_upper s)
unfolding normalized
normalized-capitals [] p = (refl, tt)
normalized-capitals (c ∷ cs) (p, ps) =
    let (same, kept, small) = capital c p in
    let (rest, bytes) = normalized-capitals cs ps in
    let keep : (to_upper c == 58) ≡ false = ground arith in
    (rw (keep, same, rest) refl, (small, bytes))

module _ {C : Type 0} (x509 : Certificates C) (gives : GivesDigests x509) where
  digits_of : Bytes → Bytes
  digits_of der = hex_bytes (x509.sha256 der)

  digits_of-IsHexDigit : (der : Bytes) → All IsHexDigit (digits_of der)
  unfolding digits_of
  digits_of-IsHexDigit der = hex_bytes-IsHexDigit (x509.sha256 der) (gives.digest_bytes der)

  printed : Bytes → Bytes
  printed der = map to_upper (digits_of der)

  printed-injective : (d e : Bytes) → printed d ≡ printed e → x509.sha256 d ≡ x509.sha256 e
  unfolding printed digits_of
  printed-injective d e same =
      hex_bytes-injective (x509.sha256 d) (x509.sha256 e) (gives.digest_bytes d)
        (gives.digest_bytes e)
        (map-to_upper-injective (digits_of d) (digits_of e) (digits_of-IsHexDigit d)
          (digits_of-IsHexDigit e) same)

  printed-is_empty : (der : Bytes) → is_empty (printed der) ≡ false
  unfolding printed digits_of is_empty hex_bytes
  printed-is_empty der = nonempty (x509.sha256 der) (gives.digest_size der)
    where
      nonempty : (s : Bytes) → length s ≡ 32 → is_empty (map to_upper (hex_bytes s)) ≡ false
      nonempty [] size = absurd (omega arith)
      nonempty (b ∷ bs) size = refl

  verify-unreadable :
      (cfg : TrustConfig) (d : Bytes) (peer : C)
      → cfg.fingerprint ≡ printed d
      → x509.der peer ≡ none
      → verify_fingerprint x509 cfg peer ≡ false
  unfolding verify_fingerprint is_empty
  verify-unreadable cfg d peer pinned gone =
      let given : is_empty cfg.fingerprint ≡ false = rw pinned (printed-is_empty d) in
      rw (given, gone) refl

  verify-readable :
      (cfg : TrustConfig) (d e : Bytes) (peer : C)
      → cfg.fingerprint ≡ printed d
      → x509.der peer ≡ some e
      → verify_fingerprint x509 cfg peer ≡ constant_time_equal (printed d) (printed e)
  unfolding verify_fingerprint printed digits_of
  verify-readable cfg d e peer pinned there =
      let same_d = (normalized-capitals (digits_of d) (digits_of-IsHexDigit d)).0 in
      let same_e = (normalized-capitals (digits_of e) (digits_of-IsHexDigit e)).0 in
      let given : is_empty cfg.fingerprint ≡ false = rw pinned (printed-is_empty d) in
      rw (given, there, printed-is_empty e, pinned, same_d, same_e) refl

  -- Which peers a fingerprint that was computed from a certificate lets through.
  verify-printed :
      (cfg : TrustConfig) (d : Bytes) (peer : C)
      → cfg.fingerprint ≡ printed d
      → verify_fingerprint x509 cfg peer ≡ true
      → (e : Bytes) × (x509.der peer ≡ some e) × (x509.sha256 e ≡ x509.sha256 d)
  unfolding printed
  verify-printed cfg d peer pinned ok = elim (Option-cases (x509.der peer)) [
    | inl gone ↦ absurd (cc (verify-unreadable cfg d peer pinned gone))
    | inr (e, there) ↦
        let bytes = λ (t : Bytes). (normalized-capitals (digits_of t) (digits_of-IsHexDigit t)).1 in
        let equal = sym (verify-readable cfg d e peer pinned there) ∙ ok in
        let same : printed d ≡ printed e =
          (constant_time_equal_iff (printed d) (printed e) (bytes d) (bytes e)).0 equal in
        (e, there, sym (printed-injective d e same))
  ]

  printed-verify :
      (cfg : TrustConfig) (d e : Bytes) (peer : C)
      → cfg.fingerprint ≡ printed d
      → x509.der peer ≡ some e
      → x509.sha256 e ≡ x509.sha256 d
      → verify_fingerprint x509 cfg peer ≡ true
  unfolding printed digits_of
  printed-verify cfg d e peer pinned there digest =
      let bytes = λ (t : Bytes). (normalized-capitals (digits_of t) (digits_of-IsHexDigit t)).1 in
      let same : printed d ≡ printed e = ap (λ h. map to_upper (hex_bytes h)) (sym digest) in
      verify-readable cfg d e peer pinned there
      ∙ (constant_time_equal_iff (printed d) (printed e) (bytes d) (bytes e)).1 same

  client_trust-printed :
      (files : Dict Bytes) (c : C) (d : Bytes)
      → read_cert x509 (get (codes "./certs/server.crt") files) ≡ some c
      → x509.der c ≡ some d
      → (client_trust x509 files).fingerprint ≡ printed d
  unfolding client_trust printed digits_of
  client_trust-printed files c d read form =
      let full = printed-is_empty d in rw (read, form, full) refl

  -- A client that can read the certificate of its file lets through exactly the verified peers whose
  -- certificate is in its period and has the digest of that file's.
  pub client-pinned :
      (files : Dict Bytes) (c peer : C) (d : Bytes) (preverified : Bool)
      → read_cert x509 (get (codes "./certs/server.crt") files) ≡ some c
      → x509.der c ≡ some d
      → (verify_callback x509 (client_trust x509 files) preverified (some peer) ≡ true) ↔ (
          (preverified ≡ true)
          × (is_future (x509.not_before peer) ≡ false)
          × (is_past (x509.not_after peer) ≡ false)
          × ((e : Bytes) × (x509.der peer ≡ some e) × (x509.sha256 e ≡ x509.sha256 d)))
  unfolding verify_callback
  client-pinned files c peer d preverified read form =
      let cfg = client_trust x509 files in
      let pinned = client_trust-printed files c d read form in
      (
        λ ok.
            let matches : verify_fingerprint x509 cfg peer ≡ true = ground arith in
            (ground arith, ground arith, ground arith, verify-printed cfg d peer pinned matches),
        λ (verified, begun, lasts, (e, there, digest)).
            let matches = printed-verify cfg d e peer pinned there digest in
            rw (verified, begun, lasts, matches) refl,
      )
