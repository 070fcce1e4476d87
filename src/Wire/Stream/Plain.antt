-- ===== src/Wire/Stream/Plain.antt =====
-- `AsioTcpTransport::recvFrame` (src/infrastructure/asio_transport.cpp), whose loop lacks the lower
-- bound on the payload size that the TLS transport tests.
use secure_file_transfer.Base.{
  ℕ, ◌+◌, ◌≤◌, ◌<◌, ◌≡◌, refl, ◌++◌, arith, Bytes, length, drop, ltb, lt→ltb, le→ltb, if◌then◌else◌,
}
use secure_file_transfer.Wire.Words.{get32be, be32, get32be-be32}
use secure_file_transfer.Wire.Frame.{max_payload}
use secure_file_transfer.Wire.Stream.{Scan, found, malformed, more, frame_at, scan}

-- `assign(begin()+9, begin()+4+len)` with `len < 5` is given a range whose end lies before its
-- start: the behaviour is undefined.
pub data PlainScan : Type 0 where
  defined : Scan → PlainScan
  undefined_range : PlainScan

pub scan_plain : Bytes → PlainScan
scan_plain rx =
    if ltb (length rx) 4
    then defined more
    else let len = get32be rx in
      if ltb max_payload len
      then defined malformed
      else if ltb (length rx) (4 + len)
      then defined more
      else if ltb len 5
      then undefined_range
      else defined (found (frame_at rx len) (drop (4 + len) rx))

-- On a buffer whose header announces at least five bytes both loops do the same.
pub scan_plain-eq-scan : (rx : Bytes) → 5 ≤ get32be rx → scan_plain rx ≡ defined (scan rx)
unfolding scan_plain scan
scan_plain-eq-scan rx h = ground arith

-- A header that announces fewer than five bytes, with as many bytes behind it, is refused by the
-- TLS loop, and makes the plain loop build a body from an invalid range.
pub scan_plain-undersize :
    (n : ℕ) (s : Bytes)
    → n < 5
    → n ≤ length s
    → (scan (be32 n ++ s) ≡ malformed) × (scan_plain (be32 n ++ s) ≡ undefined_range)
unfolding scan_plain scan
scan_plain-undersize n s small there = (
  rw
      (
        get32be-be32 n s (omega arith),
        le→ltb (length (be32 n ++ s)) 4 (omega arith),
        lt→ltb n 5 small,
      )
      refl,
  rw
      (
        get32be-be32 n s (omega arith),
        le→ltb (length (be32 n ++ s)) 4 (omega arith),
        le→ltb max_payload n (omega arith),
        le→ltb (length (be32 n ++ s)) (4 + n) (omega arith),
        lt→ltb n 5 small,
      )
      refl,
)
