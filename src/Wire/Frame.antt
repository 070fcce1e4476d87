-- ===== src/Wire/Frame.antt =====
-- include/ports/transport.hpp: `MsgType`, `Frame`, `encodeFrame` and `tryDecode`.
use secure_file_transfer.Base.{
  ℕ, ◌+◌, ◌-◌, ◌%◌, ◌^◌, ◌≤◌, ◌<◌, ◌≡◌, refl, ap, ◌||◌, Option, none, some, [], ◌∷◌, ◌++◌, arith,
  Bytes, length, take, drop, get_or, length-append, take-append, ltb, lt→ltb, le→ltb, if◌then◌else◌,
}
use secure_file_transfer.Wire.Words.{put32be, get32be, be32, get32be-be32}

-- An `enum class : uint8_t` holds any byte: the cast of a received byte checks nothing.
abbrev pub MsgType : Type 0
MsgType = ℕ

abbrev pub hello : MsgType
hello = 1

abbrev pub auth_msg : MsgType
auth_msg = 2

abbrev pub register_msg : MsgType
register_msg = 3

abbrev pub logout_msg : MsgType
logout_msg = 4

abbrev pub admin_activate : MsgType
admin_activate = 5

abbrev pub admin_deactivate : MsgType
admin_deactivate = 6

abbrev pub upload_init : MsgType
upload_init = 7

abbrev pub upload_data : MsgType
upload_data = 8

abbrev pub upload_commit : MsgType
upload_commit = 9

abbrev pub download_req : MsgType
download_req = 10

abbrev pub download_data : MsgType
download_data = 11

abbrev pub list_msg : MsgType
list_msg = 12

abbrev pub err_msg : MsgType
err_msg = 255

pub record Frame : Type 0 where
  pub type : MsgType
  pub request_id : ℕ
  pub body : Bytes

-- 4u * 1024u * 1024u
abbrev pub max_payload : ℕ
max_payload = 4194304

unfoldable pub encode_frame : Frame → Bytes
unfolding put32be
encode_frame f =
    let payload = put32be (f.type ∷ []) f.request_id ++ f.body in
    put32be [] (length payload % 2 ^ 32) ++ payload

-- `out` and `consumed` are set exactly when the result is true.
unfoldable pub try_decode : Bytes → Option (Frame × ℕ)
try_decode buf =
    if ltb (length buf) 4
    then none
    else let len = get32be buf in
      if ltb max_payload len
      then none
      else if ltb (length buf) (4 + len) || ltb len 5
      then none
      else some (
        record {
          type = get_or buf 4 0;
          request_id = get32be (drop 5 buf);
          body = take (4 + len - 9) (drop 9 buf);
        },
        4 + len,
      )

-- The frames that the receivers take: a byte for the type, a 32-bit id, a payload of at most 4 MiB.
pub record Fits (f : Frame) : Type 0 where
  pub type_fits : f.type < 256
  pub id_fits : f.request_id < 2 ^ 32
  pub body_fits : length f.body + 5 ≤ max_payload

abbrev pub payload_of : Frame → Bytes
payload_of f = f.type ∷ (be32 f.request_id ++ f.body)

-- The bytes of a frame whose size fits 32 bits.
pub encode_frame-bytes :
    (f : Frame)
    → length f.body + 5 < 2 ^ 32
    → encode_frame f ≡ be32 (length f.body + 5) ++ payload_of f
unfolding encode_frame
encode_frame-bytes f h =
    let whole : length (payload_of f) % 2 ^ 32 ≡ length f.body + 5 = omega arith in rw whole refl

pub length-encode_frame :
    (f : Frame) → length f.body + 5 < 2 ^ 32 → length (encode_frame f) ≡ length f.body + 9
length-encode_frame f h = rw (encode_frame-bytes f h) (omega arith)

-- The wire of a frame and what follows it, with the size that its first four bytes give.
abbrev pub wire : Frame → Bytes → Bytes
wire f rest = be32 (length f.body + 5) ++ (f.type ∷ (be32 f.request_id ++ (f.body ++ rest)))

pub wire_size :
    (f : Frame) (rest : Bytes)
    → length f.body + 5 < 2 ^ 32
    → get32be (wire f rest) ≡ length f.body + 5
wire_size f rest h = get32be-be32 (length f.body + 5) (payload_of f ++ rest) h

decode_wire :
    (f : Frame) (rest : Bytes)
    → Fits f
    → try_decode (wire f rest) ≡ some (f, length (be32 0 ++ payload_of f))
unfolding try_decode
decode_wire f rest h =
    let body_at : 4 + (length f.body + 5) - 9 ≡ length f.body = omega arith in
    rw
      (
        wire_size f rest (omega (arith, h.body_fits)),
        le→ltb (length (wire f rest)) 4 (omega arith),
        le→ltb max_payload (length f.body + 5) h.body_fits,
        le→ltb (length (wire f rest)) (4 + (length f.body + 5))
            (omega (arith, length-append f.body rest)),
        le→ltb (length f.body + 5) 5 (omega arith),
        body_at,
        take-append f.body rest,
        get32be-be32 f.request_id (f.body ++ rest) h.id_fits,
      )
      (ap (λ (k : ℕ). some (f, k)) (omega arith))

refuse_wire :
    (f : Frame) (rest : Bytes)
    → max_payload < length f.body + 5
    → length f.body + 5 < 2 ^ 32
    → try_decode (wire f rest) ≡ none
unfolding try_decode
refuse_wire f rest big h =
    rw
      (
        wire_size f rest h,
        le→ltb (length (wire f rest)) 4 (omega arith),
        lt→ltb max_payload (length f.body + 5) big,
      )
      refl

-- A frame that fits is decoded from its bytes, whatever follows them, and its own bytes are
-- consumed.
pub try_decode-encode_frame :
    (f : Frame) (rest : Bytes)
    → Fits f
    → try_decode (encode_frame f ++ rest) ≡ some (f, length (encode_frame f))
try_decode-encode_frame f rest h =
    rw (encode_frame-bytes f (omega (arith, h.body_fits))) (decode_wire f rest h)

-- A frame whose body is longer than 4 MiB less the five header bytes is encoded and then refused,
-- with whatever follows it.
pub try_decode-oversize :
    (f : Frame) (rest : Bytes)
    → max_payload < length f.body + 5
    → length f.body + 5 < 2 ^ 32
    → try_decode (encode_frame f ++ rest) ≡ none
try_decode-oversize f rest big h = rw (encode_frame-bytes f h) (refuse_wire f rest big h)
