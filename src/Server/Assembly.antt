-- ===== src/Server/Assembly.antt =====
-- An upload in pieces: UPLOAD_DATA frames one after another, and the UPLOAD_COMMIT after them.
use secure_file_transfer.Base.{
  ℕ, ◌+◌, ◌<◌, ◌^◌, ◌≡◌, refl, ap, ◌∙◌, false, List, [], ◌∷◌, ◌++◌, inl, inr, Option-cases,
  append-nil, append_assoc, arith, Bytes, length, length-append, concat, All, ==_iff, some, returns,
}
use secure_file_transfer.Base.Dict.{get, put, get-put_self}
use secure_file_transfer.Wire.Frame.{Frame, upload_data}
use secure_file_transfer.Protocol.{UploadData, encode_upload_data, decode_upload_data}
use secure_file_transfer.Protocol.RoundTrip.{IsShort}
use secure_file_transfer.Protocol.Uploads.{decode_upload_data-encode_upload_data}
use secure_file_transfer.World.{Platform}
use secure_file_transfer.Server.{Live, Link, reply}
use secure_file_transfer.Server.Handlers.{handle, serve, on_upload_data}

-- The frames of a client that sends chunks from an offset on, all under one request id.
abbrev pub data_frames : Bytes → ℕ → ℕ → List Bytes → List Frame
data_frames id n offset [] = []
data_frames id n offset (c ∷ cs) =
    record {
      type = upload_data;
      request_id = n;
      body = encode_upload_data (record { upload_id = id; offset = offset; chunk = c });
    }
    ∷ data_frames id n (offset + length c) cs

-- A socket that takes every write.
abbrev pub IsUp : Link → Type 0
IsUp l = (n : ℕ) → l.breaks n ≡ false

module _ {A B T : Type 0} (p : Platform A B T) where
  -- The chunk that starts where the bytes so far end is taken.
  pub data-extends :
      (f : Frame) (d : UploadData) (sofar : Bytes) (s : Live A B T)
      → IsUp s.link
      → decode_upload_data f.body ≡ returns d
      → get d.upload_id s.conn.pending_data ≡ some sofar
      → d.offset ≡ length sofar
      → ((on_upload_data p f s).0 ≡ returns tt)
        × ((on_upload_data p f s).1.conn.pending_data
            ≡ put d.upload_id (sofar ++ d.chunk) s.conn.pending_data)
        × ((on_upload_data p f s).1.conn.pending_init ≡ s.conn.pending_init)
        × ((on_upload_data p f s).1.conn.conn_token ≡ s.conn.conn_token)
        × ((on_upload_data p f s).1.world ≡ s.world)
        × ((on_upload_data p f s).1.link.breaks ≡ s.link.breaks)
  unfolding on_upload_data reply
  data-extends f d sofar s up decoded there at_end =
      let writes = up s.link.writes in ground (arith, ==_iff d.offset (length sofar))

  -- A chunk that starts anywhere else, or for an upload that was not announced, leaves the connection
  -- and the world as they were.
  pub data-refused :
      (f : Frame) (d : UploadData) (s : Live A B T)
      → decode_upload_data f.body ≡ returns d
      → ((sofar : Bytes)
          → get d.upload_id s.conn.pending_data ≡ some sofar
          → ¬ (d.offset ≡ length sofar))
      → ((on_upload_data p f s).1.conn ≡ s.conn) × ((on_upload_data p f s).1.world ≡ s.world)
  unfolding on_upload_data reply
  data-refused f d s decoded elsewhere = elim (Option-cases (get d.upload_id s.conn.pending_data)) [
    | inl gone ↦ (ground arith, ground arith)
    | inr (sofar, there) ↦
        let off = elsewhere sofar there in
        (
          ground (arith, ==_iff d.offset (length sofar)),
          ground (arith, ==_iff d.offset (length sofar)),
        )
  ]

  -- What the frames of one upload leave: the bytes of that upload, and all else as before.
  abbrev pub Collected : Bytes → Bytes → Live A B T → Live A B T → Type 0
  Collected id bytes s s' =
      (get id s'.conn.pending_data ≡ some bytes)
      × (s'.conn.pending_init ≡ s.conn.pending_init)
      × (s'.conn.conn_token ≡ s.conn.conn_token)
      × (s'.world ≡ s.world)
      × (s'.link.breaks ≡ s.link.breaks)

  serve-next :
      (request_id : ℕ) (body : Bytes) (fs : List Frame) (s : Live A B T)
      → let f : Frame = record { type = upload_data; request_id = request_id; body = body } in
        (on_upload_data p f s).0 ≡ returns tt
        → serve p (f ∷ fs) s ≡ serve p fs (on_upload_data p f s).1
  unfolding serve handle
  serve-next request_id body fs s e = rw e refl

  -- Chunks sent one after another from the end of the bytes so far are appended in order: the
  -- connection then holds their concatenation, and neither the token, the announced uploads nor the
  -- world has changed.
  pub serve-collects :
      (id : Bytes) (n offset : ℕ) (cs : List Bytes) (sofar : Bytes) (s : Live A B T)
      → IsUp s.link
      → IsShort id
      → All IsShort cs
      → length (sofar ++ concat cs) < 2 ^ 64
      → get id s.conn.pending_data ≡ some sofar
      → offset ≡ length sofar
      → Collected id (sofar ++ concat cs) s (serve p (data_frames id n offset cs) s)
  unfolding serve concat
  serve-collects id n offset [] sofar s up short shorts room there at_end =
      (rw (append-nil sofar) there, refl, refl, refl, refl)
  serve-collects id n offset (c ∷ cs) sofar s up short shorts room there at_end =
      let d : UploadData = record { upload_id = id; offset = offset; chunk = c } in
      let body = encode_upload_data d in
      let f : Frame = record { type = upload_data; request_id = n; body = body } in
      let sizes = length-append sofar (c ++ concat cs) in
      let decoded = decode_upload_data-encode_upload_data d short shorts.0 (omega arith) in
      let (done, stored, inits, token, world, breaks) =
        data-extends f d sofar s up decoded there at_end in
      let after = (on_upload_data p f s).1 in
      let there_after : get id after.conn.pending_data ≡ some (sofar ++ c) =
        ap (get id) stored ∙ get-put_self id (sofar ++ c) s.conn.pending_data in
      let up_after : IsUp after.link = λ k. ap (λ g. g k) breaks ∙ up k in
      let joined : (sofar ++ c) ++ concat cs ≡ sofar ++ (c ++ concat cs) =
        append_assoc sofar c (concat cs) in
      let (stored', inits', token', world', breaks') =
        serve-collects id n (offset + length c) cs (sofar ++ c) after up_after short shorts.1
          (rw joined room) there_after (omega (arith, length-append sofar c)) in
      let next = serve-next n body (data_frames id n (offset + length c) cs) s done in
      rw (next, ← joined)
        (stored', inits' ∙ inits, token' ∙ token, world' ∙ world, breaks' ∙ breaks)
