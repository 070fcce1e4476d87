-- ===== src/Wire/Stream.antt =====
-- The receive loops: `AsioTlsTransport::recvFrame` (src/infrastructure/asio_tls_transport.cpp) and
-- `AsioTcpTransport::recvFrame` (src/infrastructure/asio_transport.cpp).
-- What `read_some` will still deliver is a list of chunks, whose end is the error of a closed
-- connection; the timeout, which both functions ignore, is not modelled.
pub mod Reassembly
pub mod Plain
use secure_file_transfer.Base.{
  ℕ, zero, suc, ◌+◌, ◌-◌, ◌<◌, ◌≤◌, ◌≡◌, refl, Bool, true, false, ◌||◌, Option, none, some, List,
  [], ◌∷◌, ◌++◌, arith, Bytes, length, take, drop, get_or, is_empty, ltb, if◌then◌else◌,
}
use secure_file_transfer.Wire.Words.{get32be}
use secure_file_transfer.Wire.Frame.{Frame, max_payload}

-- What the head of the loop finds in the buffer.
pub data Scan : Type 0 where
  found : Frame → Bytes → Scan
  malformed : Scan
  more : Scan

-- The frame whose payload of `len` bytes is whole in the buffer.
abbrev pub frame_at : Bytes → ℕ → Frame
frame_at rx len = record {
  type = get_or rx 4 0;
  request_id = get32be (drop 5 rx);
  body = take (4 + len - 9) (drop 9 rx);
}

pub scan : Bytes → Scan
scan rx =
    if ltb (length rx) 4
    then more
    else let len = get32be rx in
      if ltb len 5 || ltb max_payload len
      then malformed
      else if ltb (length rx) (4 + len)
      then more
      else found (frame_at rx len) (drop (4 + len) rx)

-- The result of `recvFrame` with `out`, the new `rxBuf`, and the chunks that are not read yet.
pub record Received : Type 0 where
  pub frame : Option Frame
  pub rx_buf : Bytes
  pub unread : List Bytes

pub recv_frame : Bytes → List Bytes → Received
unfolding scan
recv_frame rx [] = elim (scan rx) [
  | found f rest ↦ record { frame = some f; rx_buf = rest; unread = [] }
  | malformed ↦ record { frame = none; rx_buf = []; unread = [] }
  | more ↦ record { frame = none; rx_buf = rx; unread = [] }
]
recv_frame rx (c ∷ cs) = elim (scan rx) [
  | found f rest ↦ record { frame = some f; rx_buf = rest; unread = c ∷ cs }
  | malformed ↦ record { frame = none; rx_buf = []; unread = c ∷ cs }
  | more ↦
      if is_empty c
      then record { frame = none; rx_buf = rx; unread = cs }
      else recv_frame (rx ++ c) cs
]

-- `n` calls one after another: the frames that they return, and the transport after them.
pub recv_frames : ℕ → Bytes → List Bytes → List (Option Frame) × Received
unfolding recv_frame
recv_frames zero rx cs = ([], record { frame = none; rx_buf = rx; unread = cs })
recv_frames (suc n) rx cs =
    let r = recv_frame rx cs in
    let (fs, last) = recv_frames n r.rx_buf r.unread in (r.frame ∷ fs, last)
