-- ===== src/Tests/Trust.antt =====
-- A client whose certificate file holds the DER form of its server's certificate.
use secure_file_transfer.Base.{
  ◌≡◌, refl, ◌↔◌, true, false, [], ◌∷◌, Bytes, codes, Option, none, some, returns, inl, inr,
  Bool-cases, str_eq, is_empty, if◌then◌else◌, arith,
}
use secure_file_transfer.Base.Dict.{Dict, get}
use secure_file_transfer.Sha256.{hash_bytes}
use secure_file_transfer.Sha256.Digest.{hash_bytes-bytes}
use secure_file_transfer.Tls.{
  Certificates, past, future, Network, went, other_error, Transport, client_trust, connect,
  read_cert, constant_time_equal, is_past, is_future,
}
use secure_file_transfer.Tls.Pinning.{GivesDigests, constant_time_equal_iff}
use secure_file_transfer.Tls.Connect.{Asks, connect-pinned}

-- A certificate is its DER form.
abbrev x509 : Certificates Bytes
x509 = record {
  read_pem = λ s. none;
  read_der = λ s. some s;
  der = λ c. some c;
  sha256 = hash_bytes;
  not_before = λ c. past;
  not_after = λ c. future;
}

x509-GivesDigests : GivesDigests x509
x509-GivesDigests = record {
  digest_size = λ s. (hash_bytes-bytes s).0;
  digest_bytes = λ s. (hash_bytes-bytes s).1;
}

abbrev cert : Bytes
cert = codes "certificate"

abbrev files : Dict Bytes
files = (codes "./certs/server.crt", cert) ∷ []

abbrev net : Network Bytes
net = record {
  resolve = λ host port. went;
  dial = went;
  handshake = λ f. if f true (some cert) then went else other_error (codes "refused");
}

net-Asks : Asks net cert
net-Asks f done = elim (Bool-cases (f true (some cert))) [
  | inl agreed ↦ (true, agreed)
  | inr refused ↦ absurd (cc (rw refused at done))
]

abbrev closed : Transport
closed = record { has_stream = false; is_open = false; rx_buf = [] }

connects : (connect x509 net (client_trust x509 files) (codes "h") 5000 closed).0 ≡ returns tt
unfolding connect client_trust hash_bytes get str_eq is_empty
connects = refl

read : read_cert x509 (get (codes "./certs/server.crt") files) ≡ some cert
unfolding get str_eq
read = refl

connect-pinned_example :
    (is_future past ≡ false)
    × (is_past future ≡ false)
    × ((e : Bytes) × (◌≡◌ {A = Option Bytes} (some cert) (some e))
        × (hash_bytes e ≡ hash_bytes cert))
connect-pinned_example =
    connect-pinned x509 net files cert cert cert (codes "h") 5000 closed x509-GivesDigests net-Asks
      read refl connects

constant_time_equal_iff_example :
    (constant_time_equal (codes "AB") (codes "AC") ≡ true) ↔ (codes "AB" ≡ codes "AC")
constant_time_equal_iff_example =
    constant_time_equal_iff (codes "AB") (codes "AC") (omega arith) (omega arith)
