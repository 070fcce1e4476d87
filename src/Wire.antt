-- ===== src/Wire.antt =====
-- The binary encoding of include/ports/transport.hpp. `Words` has the big-endian integers and the
-- length-prefixed fields, `Frame` the frames, `Stream` the reassembly of frames from a byte stream.
pub mod Words
pub mod Fields
pub mod Frame
pub mod Stream
