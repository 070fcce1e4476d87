-- ===== src/Client/Announced.antt =====
-- The announcement of an upload, from the client's UPLOAD_INIT to the server's answer, and the id that
-- the client draws for it.
use secure_file_transfer.Base.{◌≡◌, refl, false, true, [], ◌∷◌, codes, is_empty, length, returns}
use secure_file_transfer.Base.Dict.{put}
use secure_file_transfer.Domain.Ids
use secure_file_transfer.Domain.Ids.{Entropy}
use secure_file_transfer.Wire.Frame.{Frame, upload_init}
use secure_file_transfer.Protocol.{UploadInit, decode_upload_init}
use secure_file_transfer.Validator.{validate}
use secure_file_transfer.Sessions
use secure_file_transfer.World.{Platform, next_reading, ticked}
use secure_file_transfer.Transfers.{fake_header}
use secure_file_transfer.Server.{Live, reply}
use secure_file_transfer.Server.Handlers.{on_upload_init}
use secure_file_transfer.Server.Assembly.{IsUp}

-- An id has 36 characters.
pub length-generate_user_id : (e : Entropy) → length (Ids.generate_user_id e).0 ≡ 36
unfolding Ids.generate_user_id Ids.octets Ids.hex_bytes Ids.uuid_of_hex
length-generate_user_id e = refl

pub generate_user_id-nonempty : (e : Entropy) → is_empty (Ids.generate_user_id e).0 ≡ false
unfolding Ids.generate_user_id Ids.octets Ids.hex_bytes Ids.uuid_of_hex is_empty
generate_user_id-nonempty e = refl

module _ {A B T : Type 0} (p : Platform A B T) where
  -- An announcement that is decoded, over a valid token, with a name and a size that are accepted,
  -- opens an upload that holds no bytes.
  pub init-opens :
      (f : Frame) (init : UploadInit) (s : Live A B T)
      → IsUp s.link
      → decode_upload_init f.body ≡ returns init
      → validate p.lexically_normal init.orig_name init.size fake_header ≡ returns tt
      → is_empty s.conn.conn_token ≡ false
      → Sessions.is_valid p.sha256_hex s.conn.conn_token (next_reading s.world) s.world.sessions
        ≡ true
      → ((on_upload_init p f s).0 ≡ returns tt)
        × ((on_upload_init p f s).1.conn.pending_init ≡ put init.upload_id init s.conn.pending_init)
        × ((on_upload_init p f s).1.conn.pending_data ≡ put init.upload_id [] s.conn.pending_data)
        × ((on_upload_init p f s).1.conn.conn_token ≡ s.conn.conn_token)
        × ((on_upload_init p f s).1.world ≡ ticked s.world)
        × ((on_upload_init p f s).1.link.breaks ≡ s.link.breaks)
        × ((on_upload_init p f s).1.link.sent
            ≡ record { type = upload_init; request_id = f.request_id; body = codes "ok" }
              ∷ s.link.sent)
  unfolding on_upload_init reply
  init-opens f init s up decoded sound token valid =
      let writes = up s.link.writes in
      rw (decoded, token, valid, sound, writes) (refl, refl, refl, refl, refl, refl, refl)
