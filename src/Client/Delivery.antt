-- ===== src/Client/Delivery.antt =====
-- What the server has after the client's upload, from the accepted announcement to the commit.
use secure_file_transfer.Base.{
  ◌^◌, ◌<◌, ◌≡◌, refl, ap, ◌∙◌, Bool, true, false, List, ◌%◌, length-append, [], Bytes, length,
  returns, arith, is_empty, some,
}
use secure_file_transfer.Base.Dict.{get}
use secure_file_transfer.Wire.Frame.{Frame, Fits, upload_commit}
use secure_file_transfer.Wire.Words.{be32, put32be}
use secure_file_transfer.Protocol.{UploadInit}
use secure_file_transfer.Sessions
use secure_file_transfer.World.{Platform, next_reading, ticked}
use secure_file_transfer.Transfers.{upload}
use secure_file_transfer.Server.{Live, commit_id}
use secure_file_transfer.Server.Handlers.{handle, on_upload_commit, upload_of}
use secure_file_transfer.Server.Assembly.{IsUp}
use secure_file_transfer.Server.Commit.{commit-uploads}
use secure_file_transfer.Crypto.{Openssl}
use secure_file_transfer.Client.{Host, Client}
use secure_file_transfer.Client.Upload.{upload_chunks, upload_rest, commit_body}
use secure_file_transfer.Client.Relay.{
  Wire, Delivers, connected_to, relay, relay-live, commit-id, upload_chunks-Collected,
}

abbrev commit_frame : Bytes → Frame
commit_frame id = record { type = upload_commit; request_id = 4; body = commit_body id }

commit_frame-Fits : (id : Bytes) → length id < 2 ^ 16 → Fits (commit_frame id)
unfolding put32be
commit_frame-Fits id short = record {
  type_fits = omega arith;
  id_fits = omega arith;
  body_fits = omega (arith, length-append (be32 (length id % 2 ^ 32)) id);
}

module _ {A B T : Type 0} (p : Platform A B T) (cut : Bytes → List Bytes) (delivers : Delivers cut)
    (ssl : Openssl) (writable : Bytes → Bool) (filename : Bytes → Bytes) where
  abbrev h : Host (Wire A B T)
  h = connected_to p cut ssl writable filename

  upload_rest-commits :
      (id cipher : Bytes) (c : Client (Wire A B T))
      → (upload_chunks h (length cipher) id cipher 0 c).0 ≡ returns tt
      → (upload_rest h id cipher c).1.net.live
        ≡ (relay p cut (commit_frame id) (upload_chunks h (length cipher) id cipher 0 c).1.net).live
  unfolding upload_rest
  upload_rest-commits id cipher c done = ground arith

  commit_handled :
      (id : Bytes) (s : Live A B T)
      → (handle p (commit_frame id) s).1 ≡ (on_upload_commit p (commit_frame id) s).1
  unfolding handle
  commit_handled id s = refl

  commit_id-commit_body :
      (id : Bytes) (s : Live A B T)
      → length id < 2 ^ 16
      → is_empty id ≡ false
      → commit_id (commit_body id) s.conn.pending_init ≡ id
  unfolding commit_id
  commit_id-commit_body id s short named = rw (commit-id id (omega arith) named, named) refl

  -- Once the server has taken the announcement, over a session that is valid at the commit, the
  -- client's chunks and its commit are one call of `upload` with what was announced and the whole
  -- cipher text.
  pub upload_rest-upload :
      (id cipher : Bytes) (init : UploadInit) (c : Client (Wire A B T))
      → let s = c.net.live in
        IsUp s.link
        → c.net.serving ≡ true
        → length id < 2 ^ 16
        → is_empty id ≡ false
        → length cipher < 2 ^ 64
        → get id s.conn.pending_init ≡ some init
        → get id s.conn.pending_data ≡ some []
        → is_empty s.conn.conn_token ≡ false
        → Sessions.is_valid p.sha256_hex s.conn.conn_token (next_reading s.world) s.world.sessions
          ≡ true
        → (upload_rest h id cipher c).1.net.live.world
          ≡ (upload p s.conn.conn_token (upload_of init cipher) (ticked s.world)).1
  upload_rest-upload id cipher init c up on short named room announced started token valid =
      let s = c.net.live in
      let w = (upload_chunks h (length cipher) id cipher 0 c).1.net in
      let after = w.live in
      let (done, still, (collected, inits, kept_token, world, breaks)) =
        upload_chunks-Collected p cut delivers ssl writable filename (length cipher) id cipher 0 c
          up on short room (omega arith) (omega arith) started in
      let up_after : IsUp after.link = λ k. ap (λ g. g k) breaks ∙ up k in
      let named_after = commit_id-commit_body id after short named in
      let announced_after : get id after.conn.pending_init ≡ some init =
        ap (get id) inits ∙ announced in
      let committed =
        commit-uploads p (commit_frame id) init cipher after up_after
          (rw named_after announced_after) (rw named_after collected) (rw kept_token token)
          (rw (kept_token, world) valid) in
      ap (λ (l : Live A B T). l.world)
        (upload_rest-commits id cipher c done
          ∙ relay-live p cut (commit_frame id) w delivers still (commit_frame-Fits id short)
          ∙ commit_handled id after)
      ∙ committed
      ∙ rw (kept_token, world) refl
