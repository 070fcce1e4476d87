-- ===== src/Client/Access.antt =====
-- What the client does with and without a session.
use secure_file_transfer.Base.{
  ◌≡◌, refl, true, ◌∷◌, Bytes, codes, is_empty, arith, some, Outcome, returns,
}
use secure_file_transfer.Protocol.{encode_login}
use secure_file_transfer.Wire.Frame.{Frame, auth_msg}
use secure_file_transfer.Crypto.{generate, rand_bytes, check}
use secure_file_transfer.Client.{Host, Client, error, first_line, later_lines, save_priv_key}
use secure_file_transfer.Client.Session.{on_login, on_logout}
use secure_file_transfer.Client.Upload.{on_upload}
use secure_file_transfer.Client.Download.{on_download}

module _ {N : Type 0} (h : Host N) where
  -- Without a session the client sends nothing: logout, upload and download only say so.
  pub loggedout-silent :
      (c : Client N)
      → is_empty c.token ≡ true
      → let told : Outcome (Unit {0}) × Client N =
          (returns tt, record c { said = error (codes "Not logged in") ∷ c.said }) in
        (on_logout h c ≡ told) × (on_upload h c ≡ told) × (on_download h c ≡ told)
  unfolding on_logout on_upload on_download
  loggedout-silent c out = (rw out refl, rw out refl, rw out refl)

  -- The state in which `on_login` reads the answer, and the frame that it has sent.
  abbrev asking : Client N → Bytes → Bytes → Client N
  asking c user pw = record c {
    lines = later_lines (later_lines c.lines);
    net =
        (h.send_frame (record { type = auth_msg; request_id = 2; body = encode_login user pw })
          c.net).1;
  }

  -- A login that the server answers with AUTH, and that returns, leaves the answer's body as the
  -- session token and the typed name as the user.
  pub on_login-session :
      (c : Client N) {resp : Frame} {n : N}
      → let user = first_line c.lines in
        let pw = first_line (later_lines c.lines) in
        (on_login h c).0 ≡ returns tt
        → (h.recv_frame 5000 (asking c user pw).net) ≡ (returns (some resp), n)
        → resp.type ≡ auth_msg
        → let c' = (on_login h c).1 in (c'.token ≡ resp.body) × (c'.logged_user ≡ user)
  unfolding on_login save_priv_key generate rand_bytes check
  on_login-session c {resp} {n} done answered accepted = (ground arith, ground arith)
