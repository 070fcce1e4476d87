-- ===== src/Tests/Clients.antt =====
-- A client that is connected to the example server, with an upload announced.
use secure_file_transfer.Base.{
  ◌≡◌, true, [], ◌∷◌, Bytes, codes, none, arith, List, All, concat, append-nil, refl, is_empty,
}
use secure_file_transfer.Base.Dict.{empty}
use secure_file_transfer.Domain.Records.{no_key}
use secure_file_transfer.Protocol.{UploadInit}
use secure_file_transfer.Server.{Live}
use secure_file_transfer.Client.{Host, Client}
use secure_file_transfer.Client.Upload.{upload_chunks}
use secure_file_transfer.Client.Relay.{Wire, Delivers, connected_to}
use secure_file_transfer.Wire.Stream.Reassembly.{IsChunk}
use secure_file_transfer.Client.Bounds.{upload_chunks-enough}
use secure_file_transfer.Tests.Setup.{AuditLog, BlobStore, TransferList, platform, machine, live}
use secure_file_transfer.Tests.Encryption.{small_ssl}

abbrev announcement : UploadInit
announcement = record {
  recipient = codes "bob";
  orig_name = codes "b.pdf";
  upload_id = codes "up2";
  size = 3;
  digest = [];
  wrapped = no_key;
}

abbrev waiting : Live AuditLog BlobStore TransferList
waiting = record live {
  conn = record {
    pending_init = (codes "up2", announcement) ∷ [];
    pending_data = (codes "up2", []) ∷ [];
    conn_token = codes "t1";
  };
}

abbrev pub Net : Type 0
Net = Wire AuditLog BlobStore TransferList

-- The bytes of a frame arrive at once.
abbrev pub at_once : Bytes → List Bytes
at_once [] = []
at_once (b ∷ bs) = (b ∷ bs) ∷ []

pub at_once-Delivers : Delivers at_once
unfolding is_empty concat
at_once-Delivers = record { chunks = each; whole = all }
  where
    each : (b : Bytes) → All IsChunk (at_once b)
    each [] = tt
    each (b ∷ bs) = (refl, tt)

    all : (b : Bytes) → concat (at_once b) ≡ b
    all [] = refl
    all (b ∷ bs) = append-nil (b ∷ bs)

abbrev pub host : Host Net
host = connected_to platform at_once small_ssl (λ path. true) (λ path. path)

abbrev pub client : Client Net
client = record {
  token = codes "t1";
  logged_user = codes "root";
  local_keys = empty;
  pub_cache = empty;
  lines = [];
  said = [];
  files = empty;
  calls = 0;
  entropy = machine.entropy;
  net = record { live = waiting; inbox = none; serving = true };
}

abbrev cipher : Bytes
cipher = 9 ∷ (8 ∷ (7 ∷ []))

upload_chunks-enough_example :
    upload_chunks host 3 (codes "up2") cipher 0 ≡ upload_chunks host 90 (codes "up2") cipher 0
upload_chunks-enough_example =
    upload_chunks-enough host 3 90 (codes "up2") cipher 0 (omega arith) (omega arith)
