-- ===== src/Server/Commit.antt =====
-- What an UPLOAD_COMMIT hands to the transfer service.
use secure_file_transfer.Base.{
  ℕ, ◌<◌, ◌^◌, ◌≡◌, refl, ap, ◌∙◌, true, false, not, ◌||◌, List, [], arith, Bytes, is_empty,
  str_eq_refl, length, concat, All, none, some, returns,
}
use secure_file_transfer.Base.Dict.{get, get-erase}
use secure_file_transfer.Domain.Records.{Transfer, success}
use secure_file_transfer.Wire.Frame.{Frame}
use secure_file_transfer.Protocol.{UploadInit}
use secure_file_transfer.Protocol.RoundTrip.{IsShort}
use secure_file_transfer.Sessions
use secure_file_transfer.World.{Platform, next_reading, ticked}
use secure_file_transfer.Transfers.{upload}
use secure_file_transfer.Server.{Live, commit_id, reply}
use secure_file_transfer.Server.Handlers.{serve, on_upload_commit, upload_of}
use secure_file_transfer.Server.Assembly.{IsUp, data_frames, serve-collects}

module _ {A B T : Type 0} (p : Platform A B T) where
  -- A commit of an announced upload, over a token that is valid at the time of the call, is one call
  -- of `upload` with what was announced and the bytes that were collected.
  pub commit-uploads :
      (f : Frame) (init : UploadInit) (bytes : Bytes) (s : Live A B T)
      → IsUp s.link
      → get (commit_id f.body s.conn.pending_init) s.conn.pending_init ≡ some init
      → get (commit_id f.body s.conn.pending_init) s.conn.pending_data ≡ some bytes
      → is_empty s.conn.conn_token ≡ false
      → Sessions.is_valid p.sha256_hex s.conn.conn_token (next_reading s.world) s.world.sessions
        ≡ true
      → (on_upload_commit p f s).1.world
        ≡ (upload p s.conn.conn_token (upload_of init bytes) (ticked s.world)).1
  unfolding on_upload_commit reply
  commit-uploads f init bytes s up announced collected token valid = ground arith

  -- A commit that did not find a valid token for its connection stores nothing.
  pub commit-unauthorized :
      (f : Frame) (s : Live A B T)
      → (is_empty s.conn.conn_token
          || not (
              Sessions.is_valid p.sha256_hex s.conn.conn_token
                (next_reading s.world)
                s.world.sessions))
        ≡ true
      → ((on_upload_commit p f s).1.world.files ≡ s.world.files)
        × ((on_upload_commit p f s).1.world.blobs ≡ s.world.blobs)
        × ((on_upload_commit p f s).1.world.transfers ≡ s.world.transfers)
  unfolding on_upload_commit reply
  commit-unauthorized f s no_token = (ground arith, ground arith, ground arith)

  -- A commit that succeeded has forgotten the upload, so that it cannot be committed again.
  pub commit-forgets :
      (f : Frame) (init : UploadInit) (bytes : Bytes) (s : Live A B T) {t : Transfer}
      → IsUp s.link
      → let id = commit_id f.body s.conn.pending_init in
        get id s.conn.pending_init ≡ some init
        → get id s.conn.pending_data ≡ some bytes
        → is_empty s.conn.conn_token ≡ false
        → Sessions.is_valid p.sha256_hex s.conn.conn_token (next_reading s.world) s.world.sessions
          ≡ true
        → (upload p s.conn.conn_token (upload_of init bytes) (ticked s.world)).0
          ≡ returns (success t)
        → (get id (on_upload_commit p f s).1.conn.pending_init ≡ none)
          × (get id (on_upload_commit p f s).1.conn.pending_data ≡ none)
  unfolding on_upload_commit reply
  commit-forgets f init bytes s up announced collected token valid done =
      let id = commit_id f.body s.conn.pending_init in
      let same = str_eq_refl id in
      let writes = up s.link.writes in
      (
        ground (arith, get-erase id id s.conn.pending_init),
        ground (arith, get-erase id id s.conn.pending_data),
      )

  -- From the announcement to the commit: the chunks of an announced upload that holds no bytes yet,
  -- sent in order, and the commit after them, over a token that is valid at the commit, are one call
  -- of `upload` with the concatenation of the chunks.
  pub chunks-uploaded :
      (f : Frame) (id : Bytes) (n : ℕ) (cs : List Bytes) (init : UploadInit) (s : Live A B T)
      → IsUp s.link
      → IsShort id
      → All IsShort cs
      → length (concat cs) < 2 ^ 64
      → commit_id f.body s.conn.pending_init ≡ id
      → get id s.conn.pending_init ≡ some init
      → get id s.conn.pending_data ≡ some []
      → is_empty s.conn.conn_token ≡ false
      → Sessions.is_valid p.sha256_hex s.conn.conn_token (next_reading s.world) s.world.sessions
        ≡ true
      → (on_upload_commit p f (serve p (data_frames id n 0 cs) s)).1.world
        ≡ (upload p s.conn.conn_token (upload_of init (concat cs)) (ticked s.world)).1
  chunks-uploaded f id n cs init s up short shorts room named announced started token valid =
      let after = serve p (data_frames id n 0 cs) s in
      let (collected, inits, kept_token, world, breaks) =
        serve-collects p id n 0 cs [] s up short shorts room started refl in
      let up_after : IsUp after.link = λ k. ap (λ g. g k) breaks ∙ up k in
      let id_after : commit_id f.body after.conn.pending_init ≡ id =
        ap (commit_id f.body) inits ∙ named in
      let announced_after : get id after.conn.pending_init ≡ some init =
        ap (get id) inits ∙ announced in
      let committed =
        commit-uploads f init (concat cs) after up_after (rw id_after announced_after)
          (rw id_after collected) (rw kept_token token) (rw (kept_token, world) valid) in
      committed ∙ rw (kept_token, world) refl
