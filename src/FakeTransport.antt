-- ===== src/FakeTransport.antt =====
-- include/infrastructure/fake_transport.hpp: `FakeTransport`, a queue of encoded frames. The frame
-- that `recvFrame` fills is written by `tryDecode` only when that succeeds.
use secure_file_transfer.Base.{
  ℕ, ◌≡◌, sym, ap, ◌∙◌, List, [], ◌∷◌, ◌++◌, append-nil, some, none, Option, Bytes,
}
use secure_file_transfer.Wire.Frame.{Frame, Fits, encode_frame, try_decode, try_decode-encode_frame}

abbrev pub Queue : Type 0
Queue = List Bytes

unfoldable pub send_frame : Frame → Queue → Queue
send_frame f q = q ++ (encode_frame f ∷ [])

abbrev pub frame_of : Option (Frame × ℕ) → Option Frame
frame_of none = none
frame_of (some (f, used)) = some f

unfoldable pub recv_frame : Queue → Option Frame × Queue
recv_frame [] = (none, [])
recv_frame (w ∷ ws) = (frame_of (try_decode w), ws)

-- A frame that fits the format and is sent through an empty queue is what is received.
pub send-recv : (f : Frame) → Fits f → recv_frame (send_frame f []) ≡ (some f, [])
unfolding recv_frame send_frame
send-recv f h =
    let decoded : try_decode (encode_frame f) ≡ some (f, _) =
      ap try_decode (sym (append-nil (encode_frame f))) ∙ try_decode-encode_frame f [] h in
    ap (λ o. (frame_of o, [])) decoded
