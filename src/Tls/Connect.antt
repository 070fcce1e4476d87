-- ===== src/Tls/Connect.antt =====
-- A connection of the client, from `connect` to the peer.
use secure_file_transfer.Base.{
  ℕ, ◌≡◌, Bool, true, false, Bytes, codes, Option, some, returns, arith,
}
use secure_file_transfer.Base.Dict.{Dict, get}
use secure_file_transfer.Tls.{
  Certificates, TrustConfig, verify_callback, is_past, is_future, read_cert, client_trust, connect,
  Network, Transport, went,
}
use secure_file_transfer.Tls.Pinning.{GivesDigests, client-pinned}

-- What OpenSSL documents of a handshake whose callback is set with `verify_peer`: one that completes
-- with a peer has asked the callback about the peer's certificate, and the callback agreed.
abbrev pub Asks : {C : Type 0} → Network C → C → Type 0
Asks {C} net peer =
    (f : Bool → Option C → Bool)
    → net.handshake f ≡ went
    → (preverified : Bool) × (f preverified (some peer) ≡ true)

module _ {C : Type 0} (x509 : Certificates C) (net : Network C) where
  connect-went :
      (cfg : TrustConfig) (host : Bytes) (port : ℕ) (t : Transport)
      → (connect x509 net cfg host port t).0 ≡ returns tt
      → net.handshake (verify_callback x509 cfg) ≡ went
  unfolding connect
  connect-went cfg host port t ok = ground arith

  -- A client that can read the certificate of its file, and whose `connect` returns, talks to a peer
  -- whose certificate is in its period and has the digest of the certificate in the file.
  pub connect-pinned :
      (files : Dict Bytes) (c peer : C) (d host : Bytes) (port : ℕ) (t : Transport)
      → GivesDigests x509
      → Asks net peer
      → read_cert x509 (get (codes "./certs/server.crt") files) ≡ some c
      → x509.der c ≡ some d
      → (connect x509 net (client_trust x509 files) host port t).0 ≡ returns tt
      → (is_future (x509.not_before peer) ≡ false)
        × (is_past (x509.not_after peer) ≡ false)
        × ((e : Bytes) × (x509.der peer ≡ some e) × (x509.sha256 e ≡ x509.sha256 d))
  connect-pinned files c peer d host port t gives asks read form ok =
      let (preverified, agreed) =
        asks (verify_callback x509 (client_trust x509 files))
          (connect-went (client_trust x509 files) host port t ok) in
      let (verified, begun, lasts, same) =
        (client-pinned x509 gives files c peer d preverified read form).0 agreed in
      (begun, lasts, same)
