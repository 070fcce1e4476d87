-- ===== src/Tls.antt =====
-- src/infrastructure/asio_tls_transport.cpp: which certificate a connection accepts, and `connect` and
-- `close` of `AsioTlsTransport`; and the trust that `ServerApp::run` and `ClientApp::run` configure.
-- Reading a certificate, its dates, its DER form and its digest are calls of OpenSSL; the steps of a
-- connection are calls of asio.
pub mod Pinning
pub mod Connect
use Prim.Native.Nat.{bit_or, bit_xor}
use secure_file_transfer.Base.{
  ℕ, zero, suc, ◌+◌, ◌-◌, ◌%◌, Bool, true, false, not, ◌&&◌, List, [], ◌∷◌, ◌++◌, map, Bytes, codes,
  length, is_empty, leb, ◌==◌, if◌then◌else◌, Option, none, some, Exec, Outcome, returns, throws,
  transport,
}
use secure_file_transfer.Base.Dict.{Dict, get}
use secure_file_transfer.Domain.Ids.{hex_bytes}

-- include/ports/transport_listener.hpp
pub record TrustConfig : Type 0 where
  pub fingerprint : Bytes
  pub cert_path : Bytes
  pub key_path : Bytes
  pub ca_path : Bytes

-- `X509_cmp_current_time`: negative, positive, or zero for a time that it cannot read.
pub data Moment : Type 0 where
  past future unreadable : Moment

-- OpenSSL on certificates: `PEM_read_X509` and `d2i_X509_fp` on the bytes of a file, `i2d_X509`, which
-- may fail, `EVP_Digest`, and the two dates against the clock.
pub record Certificates (C : Type 0) : Type 0 where
  pub read_pem : Bytes → Option C
  pub read_der : Bytes → Option C
  pub der : C → Option Bytes
  pub sha256 : Bytes → Bytes
  pub not_before : C → Moment
  pub not_after : C → Moment

-- `std::toupper` of the C locale.
unfoldable pub to_upper : ℕ → ℕ
to_upper c = if leb 97 c && leb c 122 then c - 32 else c

-- The loop of `constantTimeEqual` over two strings of one length.
unfoldable pub differ : ℕ → Bytes → Bytes → ℕ
differ diff [] bs = diff
differ diff (x ∷ xs) [] = diff
differ diff (x ∷ xs) (y ∷ ys) = differ (bit_or diff (bit_xor x y) % 256) xs ys

unfoldable pub constant_time_equal : Bytes → Bytes → Bool
unfolding differ
constant_time_equal a b = if not (length a == length b) then false else differ 0 a b == 0

-- `for(char c: s) if(c!=':') out += std::toupper(c);`
unfoldable pub normalized : Bytes → Bytes
unfolding to_upper
normalized [] = []
normalized (c ∷ cs) = let rest = normalized cs in if not (c == 58) then to_upper c ∷ rest else rest

-- `< 0` and `> 0` on what the comparison gives.
abbrev pub is_past : Moment → Bool
is_past past = true
is_past future = false
is_past unreadable = false

abbrev pub is_future : Moment → Bool
is_future past = false
is_future future = true
is_future unreadable = false

module _ {C : Type 0} (x509 : Certificates C) where
  -- The digest of the DER form in capital hexadecimal digits, or nothing.
  abbrev fingerprint_of : Option Bytes → Bytes
  fingerprint_of none = []
  fingerprint_of (some d) = map to_upper (hex_bytes (x509.sha256 d))

  unfoldable pub compute_der_fingerprint : C → Bytes
  unfolding to_upper hex_bytes
  compute_der_fingerprint cert = fingerprint_of (x509.der cert)

  abbrev of_cert : Option C → Bytes
  of_cert none = []
  of_cert (some cert) = fingerprint_of (x509.der cert)

  -- PEM first, then DER.
  abbrev either_form : Bytes → Option C → Option C
  either_form bytes none = x509.read_der bytes
  either_form bytes (some cert) = some cert

  abbrev pub read_cert : Option Bytes → Option C
  read_cert none = none
  read_cert (some bytes) = either_form bytes (x509.read_pem bytes)

  -- `computeSha256Fingerprint`, over the files of the machine.
  unfoldable pub compute_sha256_fingerprint : Dict Bytes → Bytes → Bytes
  unfolding to_upper hex_bytes
  compute_sha256_fingerprint files path = of_cert (read_cert (get path files))

  unfoldable pub verify_fingerprint : TrustConfig → C → Bool
  unfolding compute_der_fingerprint constant_time_equal normalized
  verify_fingerprint cfg cert =
      if is_empty cfg.fingerprint
      then true
      else let actual = compute_der_fingerprint cert in
        if is_empty actual
        then false
        else constant_time_equal (normalized cfg.fingerprint) (normalized actual)

  abbrev checked : TrustConfig → Option C → Bool
  checked cfg none = false
  checked cfg (some cert) =
      if is_future (x509.not_before cert)
      then false
      else if is_past (x509.not_after cert)
      then false
      else if not (verify_fingerprint cfg cert)
      then false
      else true

  -- The callback that the constructor sets, on what OpenSSL found and the peer's certificate.
  unfoldable pub verify_callback : TrustConfig → Bool → Option C → Bool
  unfolding verify_fingerprint
  verify_callback cfg preverified cert = if not preverified then false else checked cfg cert

-- The certificates that the constructor lets OpenSSL trust.
unfoldable pub verify_file : TrustConfig → Option Bytes
verify_file cfg =
    if not (is_empty cfg.ca_path)
    then some cfg.ca_path
    else if not (is_empty cfg.cert_path)
    then some cfg.cert_path
    else none

-- A call of asio, or what it throws.
pub data Attempt : Type 0 where
  went : Attempt
  system_error other_error : Bytes → Attempt

-- `resolve`, `asio::connect` and the TLS handshake, which asks the callback.
pub record Network (C : Type 0) : Type 0 where
  pub resolve : Bytes → ℕ → Attempt
  pub dial : Attempt
  pub handshake : (Bool → Option C → Bool) → Attempt

pub record Transport : Type 0 where
  pub has_stream : Bool
  pub is_open : Bool
  pub rx_buf : Bytes

-- What the handlers of `connect` make of a failed call.
abbrev failed : Attempt → Outcome (Unit {0}) → Outcome (Unit {0})
failed went next = next
failed (system_error m) next = throws (transport (codes "TLS handshake failed: " ++ m))
failed (other_error m) next = throws (transport (codes "TLS connect failed: " ++ m))

abbrev dialled : Attempt → Attempt → Bool
dialled went went = true
dialled went (system_error m) = false
dialled went (other_error m) = false
dialled (system_error m) a = false
dialled (other_error m) a = false

module _ {C : Type 0} (x509 : Certificates C) (net : Network C) where
  -- The stream is new before the first call that can fail.
  unfoldable pub connect : TrustConfig → Bytes → ℕ → Exec Transport (Unit {0})
  unfolding verify_callback
  connect cfg host port t = (
    failed (net.resolve host port)
        (failed net.dial (failed (net.handshake (verify_callback x509 cfg)) (returns tt))),
    record t { has_stream = true; is_open = dialled (net.resolve host port) net.dial },
  )

unfoldable pub close : Transport → Transport
close t = record t { is_open = if t.has_stream && t.is_open then false else t.is_open; rx_buf = [] }

-- The trust of `ClientApp::run` and of `ServerApp::run`.
module _ {C : Type 0} (x509 : Certificates C) where
  unfoldable pub client_trust : Dict Bytes → TrustConfig
  unfolding compute_sha256_fingerprint
  client_trust files =
      let fp = compute_sha256_fingerprint x509 files (codes "./certs/server.crt") in
      record {
        fingerprint = if not (is_empty fp) then fp else [];
        cert_path = codes "./certs/server.crt";
        key_path = [];
        ca_path = codes "./certs/server.crt";
      }

  unfoldable pub server_trust : Dict Bytes → TrustConfig
  unfolding compute_sha256_fingerprint
  server_trust files =
      let fp = compute_sha256_fingerprint x509 files (codes "./certs/server.crt") in
      record {
        fingerprint = if not (is_empty fp) then fp else codes "NO-CERT-FOUND";
        cert_path = codes "./certs/server.crt";
        key_path = codes "./certs/server.key";
        ca_path = codes "./certs/server.crt";
      }
