-- ===== src/Client/Relay.antt =====
-- The client's upload against the server: each frame that the client sends is handled, and what the
-- server replies is what the client receives.
use secure_file_transfer.Base.{
  ℕ, zero, suc, ◌+◌, ◌-◌, ◌%◌, ◌^◌, ◌≤◌, ◌<◌, ◌≡◌, refl, ap, sym, ◌∙◌, Bool, true, false, List, [],
  ◌∷◌, ◌++◌, Bytes, codes, length, take, drop, ltb, leb, ltb→lt, lt→ltb, le→ltb, returns, arith,
  Bool-cases, inl, inr, is_empty, Option, none, some, length-take, length-append, append-nil,
  concat, All, Outcome, throws, if◌then◌else◌, ◌==◌, ==_iff,
}
use Prim.Native.Nat.{min}
use secure_file_transfer.Base.Dict.{get, get-put_self}
use secure_file_transfer.Wire.Words.{put32be, get32be, be32, be64, get32be-be32}
use secure_file_transfer.Wire.Frame.{Frame, MsgType, Fits, upload_data, encode_frame}
use secure_file_transfer.Wire.Fields.{field}
use secure_file_transfer.Wire.Stream.{recv_frame}
use secure_file_transfer.Wire.Stream.Reassembly.{IsChunk, recv_frame-After}
use secure_file_transfer.Protocol.{UploadData, encode_upload_data, decode_upload_data}
use secure_file_transfer.Protocol.Uploads.{data_bytes, decode_upload_data-encode_upload_data}
use secure_file_transfer.World.{Platform}
use secure_file_transfer.Server.{Live, reply, id_of_body}
use secure_file_transfer.Server.Handlers.{handle, on_upload_data}
use secure_file_transfer.Server.Assembly.{IsUp, Collected, data-extends}
use secure_file_transfer.Crypto.{Openssl}
use secure_file_transfer.Client.{Host, Client}
use secure_file_transfer.Client.Upload.{upload_chunks, chunk_size, commit_body}

-- The state of a connection between the two: the server, what has come back for the client, and
-- whether the server's loop over the frames of the connection goes on.
pub record Wire (A B T : Type 0) : Type 0 where
  pub live : Live A B T
  pub inbox : Option Frame
  pub serving : Bool

-- What TCP promises of the cuts in which the bytes of a frame arrive: none is empty, and together
-- they are the bytes that were sent.
pub record Delivers (cut : Bytes → List Bytes) : Type 0 where
  pub chunks : (b : Bytes) → All IsChunk (cut b)
  pub whole : (b : Bytes) → concat (cut b) ≡ b

-- A frame that is encoded, sent and received by `recvFrame`: nothing, if the receiver drops it.
abbrev pub carried : (Bytes → List Bytes) → Frame → Option Frame
carried cut f = (recv_frame [] (cut (encode_frame f))).frame

carried-Fits :
    (cut : Bytes → List Bytes) (f : Frame) → Delivers cut → Fits f → carried cut f ≡ some f
carried-Fits cut f delivers fits =
    (recv_frame-After (cut (encode_frame f)) [] f [] fits (delivers.chunks (encode_frame f))
      (delivers.whole (encode_frame f) ∙ sym (append-nil (encode_frame f)))).0

abbrev carried_back : (Bytes → List Bytes) → Option Frame → Option Frame
carried_back cut none = none
carried_back cut (some f) = carried cut f

abbrev went_on : Outcome (Unit {0}) → Bool
went_on (returns done) = true
went_on (throws e) = false

-- The newest frame of the server, if there is one more than before.
abbrev pub newest : List Frame → List Frame → Option Frame
newest before [] = none
newest before (f ∷ fs) = if ltb (length before) (length (f ∷ fs)) then some f else none

pub newest-next : (f : Frame) (fs : List Frame) → newest fs (f ∷ fs) ≡ some f
newest-next f fs = rw (lt→ltb (length fs) (length (f ∷ fs)) (omega arith)) refl

module _ {A B T : Type 0} (p : Platform A B T) (cut : Bytes → List Bytes) where
  -- One round of the server's loop: a frame that its `recvFrame` drops ends it, and so does a handler
  -- that throws. What the handler replied is received by the client.
  abbrev served : Option Frame → Live A B T → Wire A B T
  served none s = record { live = s; inbox = none; serving = false }
  served (some f) s =
      let (r, s') = handle p f s in
      record {
        live = s';
        inbox = carried_back cut (newest s.link.sent s'.link.sent);
        serving = went_on r;
      }

  abbrev pub relay : Frame → Wire A B T → Wire A B T
  relay f w = if w.serving then served (carried cut f) w.live else record w { inbox = none }

  -- A frame that fits, which the handler takes and answers by a frame that fits.
  pub relay-answered :
      (f answer : Frame) (w : Wire A B T)
      → Delivers cut
      → w.serving ≡ true
      → Fits f
      → Fits answer
      → (handle p f w.live).0 ≡ returns tt
      → (handle p f w.live).1.link.sent ≡ answer ∷ w.live.link.sent
      → relay f w ≡ record { live = (handle p f w.live).1; inbox = some answer; serving = true }
  relay-answered f answer w delivers on fits back took sent =
      rw
        (
          on,
          carried-Fits cut f delivers fits,
          took,
          sent,
          newest-next answer w.live.link.sent,
          carried-Fits cut answer delivers back,
        )
        refl

  -- What the server has after a frame that fits, whatever it answers.
  pub relay-live :
      (f : Frame) (w : Wire A B T)
      → Delivers cut
      → w.serving ≡ true
      → Fits f
      → (relay f w).live ≡ (handle p f w.live).1
  relay-live f w delivers on fits = rw (on, carried-Fits cut f delivers fits) refl

  abbrev pub connected_to : Openssl → (Bytes → Bool) → (Bytes → Bytes) → Host (Wire A B T)
  connected_to ssl writable filename = record {
    ssl = ssl;
    connect = λ w. (returns tt, w);
    send_frame = λ f w. (returns tt, relay f w);
    recv_frame = λ timeout w. (returns w.inbox, record w { inbox = none });
    close = λ w. (returns tt, w);
    writable = writable;
    filename = filename;
  }

take-nil : {X : Type 0} → (n : ℕ) → ◌≡◌ {A = List X} (take n []) []
take-nil zero = refl
take-nil (suc n) = refl

-- A cut of so many bytes, and of more behind them.
take-take :
    {X : Type 0} → (a b : ℕ) (xs : List X) → take a xs ++ take b (drop a xs) ≡ take (a + b) xs
take-take zero b xs = ap (λ k. take k xs) (omega arith)
take-take (suc a) b [] = take-nil b ∙ sym (take-nil (suc a + b))
take-take (suc a) b (x ∷ xs) =
    let e : suc a + b ≡ suc (a + b) = omega arith in rw e (ap (◌∷◌ x) (take-take a b xs))

take-all : {X : Type 0} → (xs : List X) → take (length xs) xs ≡ xs
take-all [] = refl
take-all (x ∷ xs) = ap (◌∷◌ x) (take-all xs)

pub commit-id :
    (id : Bytes) → length id + 4 < 2 ^ 32 → is_empty id ≡ false → id_of_body (commit_body id) ≡ id
unfolding id_of_body put32be is_empty
commit-id id short named =
    let whole : length id % 2 ^ 32 ≡ length id = omega arith in
    let read : get32be (be32 (length id) ++ id) ≡ length id =
      get32be-be32 (length id) id (omega arith) in
    let long : leb 4 (length (be32 (length id) ++ id)) ≡ true = ground arith in
    let sum : ((length id + 4) % 2 ^ 32 == length (be32 (length id) ++ id)) ≡ true =
      (==_iff ((length id + 4) % 2 ^ 32) (length (be32 (length id) ++ id))).1 (omega arith) in
    rw (whole, long, read, sum) refl

module _ {A B T : Type 0} (p : Platform A B T) where
  -- The reply to a chunk that is taken.
  data-answered :
      (f : Frame) (d : UploadData) (sofar : Bytes) (s : Live A B T)
      → IsUp s.link
      → decode_upload_data f.body ≡ returns d
      → get d.upload_id s.conn.pending_data ≡ some sofar
      → d.offset ≡ length sofar
      → (on_upload_data p f s).1.link.sent
        ≡ record { type = upload_data; request_id = f.request_id; body = codes "ok" } ∷ s.link.sent
  unfolding on_upload_data reply
  data-answered f d sofar s up decoded there at_end =
      let writes = up s.link.writes in ground (arith, ==_iff d.offset (length sofar))

  -- The chunk that the client cuts at an offset.
  abbrev piece : Bytes → ℕ → Bytes
  piece cipher offset = take (min chunk_size (length cipher - offset)) (drop offset cipher)

  abbrev pub data_frame : Bytes → Bytes → ℕ → Frame
  data_frame id cipher offset = record {
    type = upload_data;
    request_id = 4;
    body =
        encode_upload_data
          (record { upload_id = id; offset = offset; chunk = piece cipher offset });
  }

  piece-size : (cipher : Bytes) (offset : ℕ) → length (piece cipher offset) ≤ chunk_size
  piece-size cipher offset =
      omega (arith, length-take (min chunk_size (length cipher - offset)) (drop offset cipher))

  data_frame-Fits :
      (id cipher : Bytes) (offset : ℕ) → length id < 2 ^ 16 → Fits (data_frame id cipher offset)
  data_frame-Fits id cipher offset short =
      let c = piece cipher offset in
      let size = piece-size cipher offset in
      let bytes =
        data_bytes (record { upload_id = id; offset = offset; chunk = c }) (omega arith)
          (omega arith) in
      record {
        type_fits = omega arith;
        id_fits = omega arith;
        body_fits = omega (
          arith,
          ap length bytes,
          length-append (field id) (be64 offset ++ (field c ++ [])),
          length-append (be64 offset) (field c ++ []),
          length-append (field c) [],
          length-append (be32 (length id)) id,
          length-append (be32 (length c)) c,
        );
      }

  abbrev pub ok_answer : MsgType → Frame
  ok_answer type = record { type = type; request_id = 4; body = codes "ok" }

  pub ok_answer-Fits : (type : MsgType) → type < 256 → Fits (ok_answer type)
  ok_answer-Fits type small = record {
    type_fits = small;
    id_fits = omega arith;
    body_fits = omega arith;
  }

  module _ (cut : Bytes → List Bytes) (delivers : Delivers cut) where
    -- What one round of the client's loop does to the server, where the last chunk ended.
    round-Collected :
        (id cipher : Bytes) (offset : ℕ) (w : Wire A B T)
        → IsUp w.live.link
        → w.serving ≡ true
        → length id < 2 ^ 16
        → length cipher < 2 ^ 64
        → offset < length cipher
        → get id w.live.conn.pending_data ≡ some (take offset cipher)
        → let f = data_frame id cipher offset in
          Collected p id
            (take (offset + min chunk_size (length cipher - offset)) cipher)
            w.live
            (handle p f w.live).1
          × (relay p cut f w ≡ record {
            live = (handle p f w.live).1;
            inbox = some (ok_answer upload_data);
            serving = true;
          })
    unfolding handle
    round-Collected id cipher offset w up on short room more there =
        let s = w.live in
        let d : UploadData = record {
          upload_id = id;
          offset = offset;
          chunk = piece cipher offset;
        } in
        let f = data_frame id cipher offset in
        let n = min chunk_size (length cipher - offset) in
        let size = piece-size cipher offset in
        let decoded =
          decode_upload_data-encode_upload_data d (omega arith) (omega arith) (omega arith) in
        let at_end : offset ≡ length (take offset cipher) =
          omega (arith, length-take offset cipher) in
        let (done, stored, inits, token, world, breaks) =
          data-extends p f d (take offset cipher) s up decoded there at_end in
        let answered = data-answered f d (take offset cipher) s up decoded there at_end in
        let held : get id (on_upload_data p f s).1.conn.pending_data
            ≡ some (take (offset + n) cipher) =
          ap (get id) stored
          ∙ get-put_self id (take offset cipher ++ piece cipher offset) s.conn.pending_data
          ∙ ap some (take-take offset n cipher) in
        (
          (held, inits, token, world, breaks),
          relay-answered p cut f (ok_answer upload_data) w delivers on
              (data_frame-Fits id cipher offset short) (ok_answer-Fits upload_data (omega arith))
              done answered,
        )

    module _ (ssl : Openssl) (writable : Bytes → Bool) (filename : Bytes → Bytes) where
      abbrev h : Host (Wire A B T)
      h = connected_to p cut ssl writable filename

      -- The client after one round, the answer read.
      abbrev advanced : Bytes → Bytes → ℕ → Client (Wire A B T) → Client (Wire A B T)
      advanced id cipher offset c = record c {
        net = record {
          live = (handle p (data_frame id cipher offset) c.net.live).1;
          inbox = none;
          serving = true;
        };
      }

      upload_chunks-next :
          (k : ℕ) (id cipher : Bytes) (offset : ℕ) (c : Client (Wire A B T))
          → ltb offset (length cipher) ≡ true
          → relay p cut (data_frame id cipher offset) c.net ≡ record {
            live = (handle p (data_frame id cipher offset) c.net.live).1;
            inbox = some (ok_answer upload_data);
            serving = true;
          }
          → upload_chunks h (suc k) id cipher offset c
            ≡ upload_chunks h k id cipher
                (offset + min chunk_size (length cipher - offset))
                (advanced id cipher offset c)
      unfolding upload_chunks
      upload_chunks-next k id cipher offset c more answered = rw (more, answered) refl

      upload_chunks-end :
          (k : ℕ) (id cipher : Bytes) (c : Client (Wire A B T))
          → upload_chunks h k id cipher (length cipher) c ≡ (returns tt, c)
      unfolding upload_chunks
      upload_chunks-end zero id cipher c = refl
      upload_chunks-end (suc k) id cipher c =
          rw (le→ltb (length cipher) (length cipher) (omega arith)) refl

      -- The loop over the chunks of an announced upload, from where the server has come to, leaves the
      -- server with the whole cipher text under the upload's id, and with nothing else changed.
      pub upload_chunks-Collected :
          (k : ℕ) (id cipher : Bytes) (offset : ℕ) (c : Client (Wire A B T))
          → IsUp c.net.live.link
          → c.net.serving ≡ true
          → length id < 2 ^ 16
          → length cipher < 2 ^ 64
          → length cipher - offset ≤ k
          → offset ≤ length cipher
          → get id c.net.live.conn.pending_data ≡ some (take offset cipher)
          → ((upload_chunks h k id cipher offset c).0 ≡ returns tt)
            × ((upload_chunks h k id cipher offset c).1.net.serving ≡ true)
            × Collected p id cipher c.net.live (upload_chunks h k id cipher offset c).1.net.live
      upload_chunks-Collected zero id cipher offset c up on short room enough inside there =
          let same : offset ≡ length cipher = omega arith in
          let whole : get id c.net.live.conn.pending_data ≡ some cipher =
            there ∙ ap (λ o. some (take o cipher)) same ∙ ap some (take-all cipher) in
          rw (same, upload_chunks-end 0 id cipher c) (refl, on, (whole, refl, refl, refl, refl))
      upload_chunks-Collected (suc k) id cipher offset c up on short room enough inside there =
          elim (Bool-cases (ltb offset (length cipher))) [
            | inl more ↦
                let left : offset < length cipher = ltb→lt offset (length cipher) more in
                let n = min chunk_size (length cipher - offset) in
                let ((held, inits, token, world, breaks), answered) =
                  round-Collected id cipher offset c.net up on short room left there in
                let step = upload_chunks-next k id cipher offset c more answered in
                let next = advanced id cipher offset c in
                let up_after : IsUp next.net.live.link = λ i. ap (λ g. g i) breaks ∙ up i in
                let (done, still, (held', inits', token', world', breaks')) =
                  upload_chunks-Collected k id cipher (offset + n) next up_after refl short room
                    (omega arith) (omega arith) held in
                rw step (
                  done,
                  still,
                  (held', inits' ∙ inits, token' ∙ token, world' ∙ world, breaks' ∙ breaks),
                )
            | inr finished ↦
                let same : offset ≡ length cipher = ground arith in
                let whole : get id c.net.live.conn.pending_data ≡ some cipher =
                  there ∙ ap (λ o. some (take o cipher)) same ∙ ap some (take-all cipher) in
                rw (same, upload_chunks-end (suc k) id cipher c)
                  (refl, on, (whole, refl, refl, refl, refl))
          ]
