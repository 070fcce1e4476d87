-- ===== src/Client/Submission.antt =====
-- The whole upload of the client against the server: what is typed, the file, the encryption, and
-- every frame up to the commit.
use secure_file_transfer.Base.{
  ◌^◌, ◌<◌, ◌≡◌, refl, ap, ◌∙◌, Bool, true, false, [], Bytes, is_empty, length, returns, arith,
  some, none, List, ◌++◌, length-append,
}
use secure_file_transfer.Base.Dict.{get, get-put_self}
use secure_file_transfer.Domain.Ids
use secure_file_transfer.Wire.Frame.{Frame, Fits, upload_init}
use secure_file_transfer.Wire.Words.{be32, be64}
use secure_file_transfer.Wire.Fields.{field}
use secure_file_transfer.Protocol.{UploadInit, encode_upload_init}
use secure_file_transfer.Protocol.Uploads.{
  InitFits, init-bytes, decode_upload_init-encode_upload_init,
}
use secure_file_transfer.Validator.{validate}
use secure_file_transfer.FakeCrypto.{EncryptOut}
use secure_file_transfer.Sessions
use secure_file_transfer.World.{Platform, next_reading, ticked}
use secure_file_transfer.Transfers.{upload, fake_header}
use secure_file_transfer.Server.{Live}
use secure_file_transfer.Server.Handlers.{handle, on_upload_init, upload_of}
use secure_file_transfer.Server.Assembly.{IsUp}
use secure_file_transfer.Crypto.{Openssl, encrypt_for}
use secure_file_transfer.Client.{Host, Client}
use secure_file_transfer.Client.Upload.{announcement, upload_to, upload_rest}
use secure_file_transfer.Client.Relay.{
  Wire, Delivers, connected_to, relay, relay-answered, ok_answer, ok_answer-Fits,
}
use secure_file_transfer.Client.Delivery.{upload_rest-upload}
use secure_file_transfer.Client.Announced.{
  length-generate_user_id, generate_user_id-nonempty, init-opens,
}

module _ {A B T : Type 0} (p : Platform A B T) where
  -- What the server takes an announcement over: a connection with a token whose session is valid now
  -- and at the next reading of the clock.
  abbrev pub Accepting : Live A B T → Type 0
  Accepting s =
      IsUp s.link
      × (is_empty s.conn.conn_token ≡ false)
      × (Sessions.is_valid p.sha256_hex s.conn.conn_token (next_reading s.world) s.world.sessions
          ≡ true)
      × (Sessions.is_valid p.sha256_hex s.conn.conn_token (next_reading (ticked s.world))
            s.world.sessions
          ≡ true)

module _ {A B T : Type 0} (p : Platform A B T) (cut : Bytes → List Bytes) (delivers : Delivers cut)
    (ssl : Openssl) (writable : Bytes → Bool) (filename : Bytes → Bytes) where
  abbrev h : Host (Wire A B T)
  h = connected_to p cut ssl writable filename

  -- The id that the client draws next, and what it announces under it.
  abbrev pub drawn_id : Client (Wire A B T) → Bytes
  drawn_id c = (Ids.generate_user_id c.entropy).0

  abbrev pub announced : Bytes → Bytes → Bytes → EncryptOut → Client (Wire A B T) → UploadInit
  announced path recipient plain enc c =
      announcement h recipient (filename path) (drawn_id c) plain enc

  abbrev pub init_frame : UploadInit → Frame
  init_frame init = record { type = upload_init; request_id = 4; body = encode_upload_init init }

  -- The frame of an announcement whose strings are no longer than a file system or a form allows
  -- is taken by the receiver.
  pub init_frame-Fits :
      (init : UploadInit)
      → InitFits init
      → length init.recipient < 2 ^ 16
      → length init.orig_name < 2 ^ 16
      → length init.upload_id < 2 ^ 16
      → length init.wrapped.recipient_id < 2 ^ 16
      → length init.wrapped.nonce < 2 ^ 16
      → length init.wrapped.bytes < 2 ^ 16
      → length init.wrapped.alg < 2 ^ 16
      → Fits (init_frame init)
  init_frame-Fits init fits a b c d e f g =
      let k = init.wrapped in
      let digest = fits.digest_fits in
      let keys =
        field k.recipient_id ++ (field k.nonce ++ (field k.bytes ++ (field k.alg ++ []))) in
      record {
        type_fits = omega arith;
        id_fits = omega arith;
        body_fits = omega (
          arith,
          digest,
          ap length (init-bytes init fits),
          length-append (field init.recipient) (
              field init.orig_name
              ++ (field init.upload_id ++ (be64 init.size ++ (init.digest ++ keys)))),
          length-append (field init.orig_name)
              (field init.upload_id ++ (be64 init.size ++ (init.digest ++ keys))),
          length-append (field init.upload_id) (be64 init.size ++ (init.digest ++ keys)),
          length-append (be64 init.size) (init.digest ++ keys),
          length-append init.digest keys,
          length-append (field k.recipient_id)
              (field k.nonce ++ (field k.bytes ++ (field k.alg ++ []))),
          length-append (field k.nonce) (field k.bytes ++ (field k.alg ++ [])),
          length-append (field k.bytes) (field k.alg ++ []),
          length-append (field k.alg) [],
          length-append (be32 (length init.recipient)) init.recipient,
          length-append (be32 (length init.orig_name)) init.orig_name,
          length-append (be32 (length init.upload_id)) init.upload_id,
          length-append (be32 (length k.recipient_id)) k.recipient_id,
          length-append (be32 (length k.nonce)) k.nonce,
          length-append (be32 (length k.bytes)) k.bytes,
          length-append (be32 (length k.alg)) k.alg,
        );
      }

  -- The client once its announcement was answered.
  abbrev opened :
      Bytes → Bytes → Bytes → Bytes → EncryptOut → Client (Wire A B T) → Client (Wire A B T)
  opened path recipient plain recip_pub enc c =
      let f = init_frame (announced path recipient plain enc c) in
      record c {
        calls = (encrypt_for ssl plain recipient recip_pub c.calls).1;
        entropy = (Ids.generate_user_id c.entropy).1;
        net = record { live = (handle p f c.net.live).1; inbox = none; serving = true };
      }

  upload_to-opened :
      (path recipient plain recip_pub : Bytes) (enc : EncryptOut) (c : Client (Wire A B T))
      → let f = init_frame (announced path recipient plain enc c) in
        (encrypt_for ssl plain recipient recip_pub c.calls).0 ≡ returns enc
        → relay p cut f c.net ≡ record {
          live = (handle p f c.net.live).1;
          inbox = some (ok_answer p upload_init);
          serving = true;
        }
        → upload_to h path recipient plain recip_pub c
          ≡ upload_rest h (drawn_id c) enc.cipher (opened path recipient plain recip_pub enc c)
  unfolding upload_to
  upload_to-opened path recipient plain recip_pub enc c made answered = rw (made, answered) refl

  init_handled :
      (init : UploadInit) (s : Live A B T)
      → handle p (init_frame init) s ≡ on_upload_init p (init_frame init) s
  unfolding handle
  init_handled init s = refl

  pub upload_to-upload :
      (path recipient plain recip_pub : Bytes) (enc : EncryptOut) (c : Client (Wire A B T))
      → let s = c.net.live in
        let init = announced path recipient plain enc c in
        Accepting p s
        → c.net.serving ≡ true
        → (encrypt_for ssl plain recipient recip_pub c.calls).0 ≡ returns enc
        → InitFits init
        → Fits (init_frame init)
        → validate p.lexically_normal init.orig_name init.size fake_header ≡ returns tt
        → length enc.cipher < 2 ^ 64
        → (upload_to h path recipient plain recip_pub c).1.net.live.world
          ≡ (upload p s.conn.conn_token (upload_of init enc.cipher) (ticked (ticked s.world))).1
  upload_to-upload path recipient plain recip_pub enc c (up, token, valid, still_valid) on made fits
        frame_fits sound room =
      let s = c.net.live in
      let init = announced path recipient plain enc c in
      let f = init_frame init in
      let decoded = decode_upload_init-encode_upload_init init fits in
      let (done, inits, datas, kept, world, breaks, sent) =
        init-opens p f init s up decoded sound token valid in
      let s' = (on_upload_init p f s).1 in
      let c' = opened path recipient plain recip_pub enc c in
      let whole = init_handled init s in
      let same : c'.net.live ≡ s' = ap (λ r. r.1) whole in
      let answered =
        relay-answered p cut f (ok_answer p upload_init) c.net delivers on frame_fits
          (ok_answer-Fits p upload_init (omega arith)) (ap (λ r. r.0) whole ∙ done)
          (ap (λ r. r.1.link.sent) whole ∙ sent) in
      let step = upload_to-opened path recipient plain recip_pub enc c made answered in
      let id = drawn_id c in
      let size = length-generate_user_id c.entropy in
      let up_after : IsUp c'.net.live.link =
        λ k. ap (λ (r : Live A B T). r.link.breaks k) same ∙ ap (λ g. g k) breaks ∙ up k in
      let opened_init : get id c'.net.live.conn.pending_init ≡ some init =
        ap (λ (r : Live A B T). get id r.conn.pending_init) same
        ∙ ap (get id) inits
        ∙ get-put_self id init s.conn.pending_init in
      let opened_data : get id c'.net.live.conn.pending_data ≡ some [] =
        ap (λ (r : Live A B T). get id r.conn.pending_data) same
        ∙ ap (get id) datas
        ∙ get-put_self id [] s.conn.pending_data in
      let token_after : c'.net.live.conn.conn_token ≡ s.conn.conn_token =
        ap (λ (r : Live A B T). r.conn.conn_token) same ∙ kept in
      let world_after : c'.net.live.world ≡ ticked s.world =
        ap (λ (r : Live A B T). r.world) same ∙ world in
      let delivered =
        upload_rest-upload p cut delivers ssl writable filename id enc.cipher init c' up_after refl
          (omega arith) (generate_user_id-nonempty c.entropy) room opened_init opened_data
          (rw token_after token) (rw (token_after, world_after) still_valid) in
      ap (λ r. r.1.net.live.world) step ∙ delivered ∙ rw (token_after, world_after) refl
