-- ===== src/Tests/Formats.antt =====
-- Frames and payloads that are written and read back.
use secure_file_transfer.Base.{
  ◌≡◌, refl, List, [], ◌∷◌, ◌++◌, map, concat, All, arith, Bytes, codes, take, drop, replicate,
  is_empty, some, returns,
}
use secure_file_transfer.Domain.Records.{default_alg}
use secure_file_transfer.Wire.Words.{put32be}
use secure_file_transfer.Wire.Frame.{Frame, Fits, upload_data, list_msg, encode_frame}
use secure_file_transfer.Wire.Stream.{recv_frames}
use secure_file_transfer.Wire.Stream.Reassembly.{IsChunk, recv_frames-reassembles}
use secure_file_transfer.Protocol.{UploadInit, encode_upload_init, decode_upload_init}
use secure_file_transfer.Protocol.Uploads.{InitFits, decode_upload_init-encode_upload_init}

abbrev first : Frame
first = record { type = list_msg; request_id = 7; body = [] }

abbrev second : Frame
second = record { type = upload_data; request_id = 8; body = 1 ∷ (2 ∷ []) }

first-Fits : Fits first
first-Fits = record { type_fits = omega arith; id_fits = omega arith; body_fits = omega arith }

second-Fits : Fits second
second-Fits = record { type_fits = omega arith; id_fits = omega arith; body_fits = omega arith }

-- Both frames and one byte more, cut after three bytes.
abbrev stream : Bytes
stream = concat (map encode_frame (first ∷ (second ∷ []))) ++ (5 ∷ [])

abbrev pieces : List Bytes
pieces = take 3 stream ∷ (drop 3 stream ∷ [])

whole : [] ++ concat pieces ≡ concat (map encode_frame (first ∷ (second ∷ []))) ++ (5 ∷ [])
unfolding concat encode_frame put32be
whole = refl

chunks : All IsChunk pieces
unfolding concat encode_frame is_empty put32be
chunks = (refl, (refl, tt))

recv_frames-reassembles_example :
    ((recv_frames 2 [] pieces).0 ≡ some first ∷ (some second ∷ []))
    × ((recv_frames 2 [] pieces).1.rx_buf ++ concat (recv_frames 2 [] pieces).1.unread ≡ 5 ∷ [])
recv_frames-reassembles_example =
    recv_frames-reassembles (first ∷ (second ∷ [])) [] pieces (5 ∷ [])
      (first-Fits, (second-Fits, tt)) chunks whole

abbrev announcement : UploadInit
announcement = record {
  recipient = codes "bob";
  orig_name = codes "a.pdf";
  upload_id = codes "up1";
  size = 3;
  digest = replicate 32 1;
  wrapped = record {
    recipient_id = codes "u2";
    nonce = replicate 12 2;
    bytes = replicate 48 3;
    alg = default_alg;
  };
}

announcement_fits : InitFits announcement
unfolding is_empty
announcement_fits = record {
  recipient_fits = omega arith;
  name_fits = omega arith;
  upload_fits = omega arith;
  size_fits = omega arith;
  digest_fits = refl;
  rid_fits = omega arith;
  nonce_fits = omega arith;
  key_fits = omega arith;
  alg_fits = omega arith;
  alg_named = refl;
}

decode_upload_init-encode_upload_init_example :
    decode_upload_init (encode_upload_init announcement) ≡ returns announcement
decode_upload_init-encode_upload_init_example =
    decode_upload_init-encode_upload_init announcement announcement_fits
