-- ===== src/World.antt =====
-- The state that the services of src/application share, and what they call that is not this
-- program: `ServerApp::run` (src/presentation/server_app.cpp) builds one of each and passes
-- pointers, none of them null. Users, files and keys are the in-memory repositories, which stand for
-- those over SQLite that `ServerApp::run` builds; the services know both by the ports of
-- include/ports.
use secure_file_transfer.Base.{ℕ, ◌+◌, List, [], Bytes, Exec, Outcome, returns, throws, Bool}
use secure_file_transfer.Domain.Records.{UserId, AuditEvent, Transfer}
use secure_file_transfer.Domain.Ids
use secure_file_transfer.Domain.Ids.{Entropy, octets, hex_bytes, draw}
use secure_file_transfer.Users.{Users}
use secure_file_transfer.Sessions.{Sessions}
use secure_file_transfer.Files.{Files}
use secure_file_transfer.Keys.{Keys}

-- `IClock` (include/domain/clock.hpp): the readings to come. `FakeClock` gives one reading again and
-- again until a test advances it.
pub record Clock : Type 0 where
  pub readings : ℕ → ℕ
  pub reads : ℕ

-- The audit log, the blob store and the transfer list are known by their ports
-- (include/ports/audit.hpp, storage.hpp, transfer_repository.hpp); Argon2, SHA-256 and the
-- normalization of paths are library code.
pub record Platform (Audit Blobs Transfers : Type 0) : Type 0 where
  pub record_event : AuditEvent → Exec Audit (Unit {0})
  pub staged_write : Bytes → Bytes → Exec Blobs (Unit {0})
  pub read_blob : Bytes → Exec Blobs Bytes
  pub remove_staged : Bytes → Exec Blobs (Unit {0})
  pub save_transfer : Transfer → Exec Transfers (Unit {0})
  pub list_transfers : UserId → Transfers → List Transfer
  pub sha256_hex : Bytes → Bytes
  pub hash_encoded : Bytes → Bytes → Outcome Bytes
  pub verify_encoded : Bytes → Bytes → Bool
  pub lexically_normal : Bytes → Bytes

pub record World (Audit Blobs Transfers : Type 0) : Type 0 where
  pub clock : Clock
  pub entropy : Entropy
  pub users : Users
  pub sessions : Sessions
  pub files : Files
  pub keys : Keys
  pub audit : Audit
  pub blobs : Blobs
  pub transfers : Transfers

-- The events of the services carry an actor, an action and a file or target.
abbrev pub event : Bytes → Bytes → Bytes → AuditEvent
event actor action target = record {
  seq = 0;
  ts = [];
  actor = actor;
  action = action;
  file_id = target;
  cipher_hash = [];
  prev_hash = [];
  msg_hash = [];
}

module _ {A B T : Type 0} where
  -- The reading that the next `nowMs()` gives.
  abbrev pub next_reading : World A B T → ℕ
  next_reading w = w.clock.readings w.clock.reads

  abbrev pub now_ms : Exec (World A B T) ℕ
  now_ms w = (
    returns (next_reading w),
    record w { clock = record { readings = w.clock.readings; reads = w.clock.reads + 1 } },
  )

  -- The world after one reading of the clock.
  abbrev pub ticked : World A B T → World A B T
  ticked w = record w { clock = record { readings = w.clock.readings; reads = w.clock.reads + 1 } }

  abbrev pub on_audit : {X : Type 0} → Exec A X → Exec (World A B T) X
  on_audit m w = let (r, a) = m w.audit in (r, record w { audit = a })

  abbrev pub on_blobs : {X : Type 0} → Exec B X → Exec (World A B T) X
  on_blobs m w = let (r, b) = m w.blobs in (r, record w { blobs = b })

  abbrev pub on_transfers : {X : Type 0} → Exec T X → Exec (World A B T) X
  on_transfers m w = let (r, t) = m w.transfers in (r, record w { transfers = t })

  -- A call that gives the new repository, or throws and leaves it.
  abbrev store_users : Outcome Users → Exec (World A B T) (Unit {0})
  store_users (returns u) w = (returns tt, record w { users = u })
  store_users (throws e) w = (throws e, w)

  abbrev pub on_users : (Users → Outcome Users) → Exec (World A B T) (Unit {0})
  on_users f w = store_users (f w.users) w

  abbrev store_files : Outcome Files → Exec (World A B T) (Unit {0})
  store_files (returns f) w = (returns tt, record w { files = f })
  store_files (throws e) w = (throws e, w)

  abbrev pub on_files : (Files → Outcome Files) → Exec (World A B T) (Unit {0})
  on_files f w = store_files (f w.files) w

  abbrev store_sessions : Outcome Sessions → Exec (World A B T) (Unit {0})
  store_sessions (returns s) w = (returns tt, record w { sessions = s })
  store_sessions (throws e) w = (throws e, w)

  abbrev pub on_sessions : (Sessions → Outcome Sessions) → Exec (World A B T) (Unit {0})
  on_sessions f w = store_sessions (f w.sessions) w

  abbrev pub draw_octets : ℕ → Exec (World A B T) Bytes
  draw_octets n w = let (bytes, e) = draw n w.entropy in (returns bytes, record w { entropy = e })

  abbrev pub new_user_id : Exec (World A B T) UserId
  new_user_id w =
      let (id, e) = Ids.generate_user_id w.entropy in (returns id, record w { entropy = e })

  -- `try { m }`, with what it threw as a value for the `catch` to look at.
  abbrev pub attempt : {X : Type 0} → Exec (World A B T) X → Exec (World A B T) (Outcome X)
  attempt m w = let (r, w') = m w in (returns r, w')
