-- ===== src/Tests/Setup.antt =====
-- The server of the examples. Its hash keeps the password and its digest keeps the text, so that
-- every value can be computed.
use secure_file_transfer.Base.{
  ℕ, List, [], ◌∷◌, ◌++◌, false, Bytes, codes, replicate, str_eq, if◌then◌else◌, returns,
}
use secure_file_transfer.Base.Dict.{Dict}
use secure_file_transfer.Blobs
use secure_file_transfer.Domain.Records.{AuditEvent, FileRecord, Transfer, Session, no_key}
use secure_file_transfer.Domain.User.{User, active, admin_role, user_role}
use secure_file_transfer.Users.{Users, no_users}
use secure_file_transfer.Users.Calls.{UserCall, saves, calls}
use secure_file_transfer.Sessions.{Sessions}
use secure_file_transfer.Files.{Files}
use secure_file_transfer.Keys.{Keys}
use secure_file_transfer.World.{Platform, World}
use secure_file_transfer.Server.{Live, new_conn}

abbrev pub AuditLog : Type 0
AuditLog = List AuditEvent

abbrev pub BlobStore : Type 0
BlobStore = Dict Bytes

abbrev pub TransferList : Type 0
TransferList = List Transfer

abbrev pub Machine : Type 0
Machine = World AuditLog BlobStore TransferList

abbrev sent_to : Bytes → TransferList → TransferList
sent_to u [] = []
sent_to u (t ∷ ts) = let rest = sent_to u ts in if str_eq t.recipient u then t ∷ rest else rest

abbrev pub platform : Platform AuditLog BlobStore TransferList
platform = record {
  record_event = λ e log. (returns tt, log ++ (e ∷ []));
  staged_write = Blobs.staged_write;
  read_blob = Blobs.read;
  remove_staged = Blobs.remove_staged;
  save_transfer = λ t ts. (returns tt, t ∷ ts);
  list_transfers = sent_to;
  sha256_hex = λ s. s;
  hash_encoded = λ pw salt. returns pw;
  verify_encoded = str_eq;
  lexically_normal = λ name. name;
}

abbrev pub make : Bytes → Bytes → Bytes → ℕ → User
make id name role fails = record {
  id = id;
  username = name;
  email = name ++ codes "@x";
  role = role;
  status = active;
  failed_attempts = fails;
  lockout_until = 0;
}

abbrev pub root : User
root = make (codes "u1") (codes "root") admin_role 0

abbrev pub bob : User
bob = make (codes "u2") (codes "bob") user_role 4

abbrev pub ann : User
ann = make (codes "u3") (codes "ann") admin_role 0

abbrev pub saved_users : List UserCall
saved_users = saves root (codes "r") ∷ (saves bob (codes "b") ∷ (saves ann (codes "a") ∷ []))

abbrev pub users : Users
users = calls saved_users no_users

abbrev pub session_of : Bytes → Bytes → Session
session_of token uid = record {
  id = token;
  user_id = uid;
  created_at = 0;
  expires_at = 3600000;
  revoked = false;
}

abbrev pub sessions : Sessions
sessions = record {
  by_hash =
      (codes "t1", session_of (codes "t1") (codes "u1"))
      ∷ ((codes "t2", session_of (codes "t2") (codes "u2")) ∷ []);
  user_by_hash = (codes "t1", codes "u1") ∷ ((codes "t2", codes "u2") ∷ []);
}

abbrev pub stored_file : FileRecord
stored_file = record {
  id = codes "f1";
  owner = codes "u1";
  orig_name = codes "a.pdf";
  storage_id = codes "s1";
  size = 3;
  digest = [];
  wrapped = no_key;
  recipient = codes "u2";
  upload_id = codes "up1";
  created_at = 5;
}

abbrev pub files : Files
files = record {
  by_id = (codes "f1", stored_file) ∷ [];
  upload_to_id = (codes "up1", codes "f1") ∷ [];
  storage_to_id = (codes "s1", codes "f1") ∷ [];
}

abbrev pub keys : Keys
keys = (codes "u2", replicate 32 7) ∷ []

abbrev pub machine : Machine
machine = record {
  clock = record { readings = λ n. 10; reads = 0 };
  entropy = record { stream = λ n. n; drawn = 0 };
  users = users;
  sessions = sessions;
  files = files;
  keys = keys;
  audit = [];
  blobs = (codes "s1", 1 ∷ (2 ∷ (3 ∷ []))) ∷ [];
  transfers = [];
}

abbrev pub live : Live AuditLog BlobStore TransferList
live = record {
  world = machine;
  conn = new_conn;
  link = record { breaks = λ n. false; writes = 0; sent = [] };
}
