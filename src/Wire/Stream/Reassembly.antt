-- ===== src/Wire/Stream/Reassembly.antt =====
-- Frames come out of the receive loop as they went in, however the stream was cut into chunks.
use secure_file_transfer.Base.{
  ℕ, ◌+◌, ◌-◌, ◌^◌, ◌<◌, ◌≤◌, ◌≡◌, refl, sym, ap, ◌∙◌, false, some, List, [], ◌∷◌, ◌++◌,
  append_assoc, map, arith, dec_lt, Bytes, All, length, length-append, take-append, drop-append,
  drop-drop, append-split, concat, is_empty, lt→ltb, le→ltb,
}
use secure_file_transfer.Wire.Words.{be32, get32be-be32}
use secure_file_transfer.Wire.Frame.{
  Frame, Fits, max_payload, encode_frame, payload_of, wire, wire_size, encode_frame-bytes,
  length-encode_frame,
}
use secure_file_transfer.Wire.Stream.{found, more, scan, Received, recv_frame, recv_frames}

abbrev pub IsChunk : Bytes → Type 0
IsChunk c = is_empty c ≡ false

-- A whole frame at the head of the buffer is found, and its bytes leave the buffer.
scan-wire : (f : Frame) (rest : Bytes) → Fits f → scan (wire f rest) ≡ found f rest
unfolding scan
scan-wire f rest h =
    let body_at : 4 + (length f.body + 5) - 9 ≡ length f.body = omega arith in
    let after : 4 + (length f.body + 5) ≡ 9 + length f.body = omega arith in
    rw
      (
        wire_size f rest (omega (arith, h.body_fits)),
        le→ltb (length (wire f rest)) 4 (omega arith),
        le→ltb (length f.body + 5) 5 (omega arith),
        le→ltb max_payload (length f.body + 5) h.body_fits,
        le→ltb (length (wire f rest)) (4 + (length f.body + 5))
            (omega (arith, length-append f.body rest)),
        body_at,
        take-append f.body rest,
        get32be-be32 f.request_id (f.body ++ rest) h.id_fits,
        after,
        sym (drop-drop 9 (length f.body) (wire f rest)),
        drop-append f.body rest,
      )
      refl

scan_whole : (f : Frame) (rest : Bytes) → Fits f → scan (encode_frame f ++ rest) ≡ found f rest
scan_whole f rest h = rw (encode_frame-bytes f (omega (arith, h.body_fits))) (scan-wire f rest h)

-- A part of a frame makes the loop read on.
scan_header :
    (n : ℕ) (s : Bytes) → 5 ≤ n → n ≤ max_payload → length s < n → scan (be32 n ++ s) ≡ more
unfolding scan
scan_header n s low high short =
    rw
      (
        get32be-be32 n s (omega arith),
        le→ltb (length (be32 n ++ s)) 4 (omega arith),
        le→ltb n 5 low,
        le→ltb max_payload n high,
        lt→ltb (length (be32 n ++ s)) (4 + n) (omega arith),
      )
      refl

scan_short : (rx : Bytes) → length rx < 4 → scan rx ≡ more
unfolding scan
scan_short rx h = rw (lt→ltb (length rx) 4 h) refl

scan_part :
    (f : Frame) (rx t rest : Bytes)
    → Fits f
    → rx ++ t ≡ encode_frame f ++ rest
    → length rx < length (encode_frame f)
    → scan rx ≡ more
scan_part f rx t rest h e short = elim (dec_lt (length rx) 4) [
  | yes under ↦ scan_short rx under
  | no over ↦
      let size : length f.body + 5 < 2 ^ 32 = omega (arith, h.body_fits) in
      let whole : rx ++ t ≡ wire f rest = rw (encode_frame-bytes f size) at e in
      let (s, p, q) =
        append-split rx t (be32 (length f.body + 5)) (payload_of f ++ rest) whole (omega arith) in
      rw p (
        scan_header (length f.body + 5) s (omega arith) h.body_fits
          (omega (arith, length-encode_frame f size, ap length p)))
]

abbrev pub After : Frame → Bytes → Received → Type 0
After f rest r = (r.frame ≡ some f) × (r.rx_buf ++ concat r.unread ≡ rest) × All IsChunk r.unread

recv_frame-whole :
    (f : Frame) (s rest : Bytes) (cs : List Bytes)
    → Fits f
    → All IsChunk cs
    → s ++ concat cs ≡ rest
    → After f rest (recv_frame (encode_frame f ++ s) cs)
unfolding recv_frame concat
recv_frame-whole f s rest [] h chunks e = rw (scan_whole f s h, recv_frame) (refl, e, tt)
recv_frame-whole f s rest (c ∷ cs) h chunks e = rw (scan_whole f s h, recv_frame) (refl, e, chunks)

-- One call, on any cut of the stream: it returns the first frame, and what is left of the stream
-- is what followed it.
pub recv_frame-After :
    (cs : List Bytes) (rx : Bytes) (f : Frame) (rest : Bytes)
    → Fits f
    → All IsChunk cs
    → rx ++ concat cs ≡ encode_frame f ++ rest
    → After f rest (recv_frame rx cs)
unfolding recv_frame concat
recv_frame-After [] rx f rest h chunks e = elim (dec_lt (length rx) (length (encode_frame f))) [
  | yes under ↦
      absurd (omega (arith, ap length e, length-append rx [], length-append (encode_frame f) rest))
  | no over ↦
      let (s, p, q) = append-split rx [] (encode_frame f) rest e (omega arith) in
      rw p (recv_frame-whole f s rest [] h chunks q)
]
recv_frame-After (c ∷ cs) rx f rest h chunks e =
    elim (dec_lt (length rx) (length (encode_frame f))) [
      | yes under ↦
          rw (scan_part f rx (c ++ concat cs) rest h e under, recv_frame, chunks.0)
            (recv_frame-After cs (rx ++ c) f rest h chunks.1 (append_assoc rx c (concat cs) ∙ e))
      | no over ↦
          let (s, p, q) = append-split rx (c ++ concat cs) (encode_frame f) rest e (omega arith) in
          rw p (recv_frame-whole f s rest (c ∷ cs) h chunks q)
    ]

-- However the bytes of a sequence of frames, each of at most 4 MiB, are cut into non-empty chunks,
-- and however many of them already stand in the buffer, as many calls of `recvFrame` as there are
-- frames return exactly these frames in order, and leave exactly the bytes that followed them.
pub recv_frames-reassembles :
    (fs : List Frame) (rx : Bytes) (cs : List Bytes) (rest : Bytes)
    → All Fits fs
    → All IsChunk cs
    → rx ++ concat cs ≡ concat (map encode_frame fs) ++ rest
    → ((recv_frames (length fs) rx cs).0 ≡ map some fs)
      × ((recv_frames (length fs) rx cs).1.rx_buf ++ concat (recv_frames (length fs) rx cs).1.unread
          ≡ rest)
unfolding recv_frames concat
recv_frames-reassembles [] rx cs rest hs chunks e = (refl, e)
recv_frames-reassembles (f ∷ fs) rx cs rest hs chunks e =
    let first : After f (concat (map encode_frame fs) ++ rest) (recv_frame rx cs) =
      recv_frame-After cs rx f (concat (map encode_frame fs) ++ rest) hs.0 chunks
        (e ∙ append_assoc (encode_frame f) (concat (map encode_frame fs)) rest) in
    let r = recv_frame rx cs in
    let later = recv_frames-reassembles fs r.rx_buf r.unread rest hs.1 first.2 first.1 in
    (cc (first.0, later.0), later.1)
