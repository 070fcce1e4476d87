-- ===== src/Sessions.antt =====
-- src/infrastructure/memory_session_store.cpp: `MemorySessionStore`. The SHA-256 of
-- include/infrastructure/sha256.hpp, by which the store keys its sessions, is the parameter `sha`.
pub mod Lifetime
use secure_file_transfer.Base.{
  ℕ, ◌+◌, not, ◌&&◌, Bool, true, false, List, [], ◌∷◌, ◌++◌, Bytes, codes, str_eq, if◌then◌else◌,
  Option, none, some, Outcome, returns, throws, auth, then_, count_if,
}
use secure_file_transfer.Base.Dict.{Dict, empty, get, put, values, update_all}
use secure_file_transfer.Domain.Records.{
  UserId, SessionId, Result, success, failure, Session, make_session, session_valid,
}

pub record Sessions : Type 0 where
  pub by_hash : Dict Session
  pub user_by_hash : Dict UserId

abbrev pub no_sessions : Sessions
no_sessions = record { by_hash = empty; user_by_hash = empty }

-- 3600*1000
abbrev pub session_ms : ℕ
session_ms = 3600000

abbrev pub revoke : Session → Session
revoke s = record s { revoked = true }

-- `if(s.userId==u && !s.revoked){ s.revoked=true; n++; }`
abbrev pub live_of : UserId → Session → Bool
live_of u s = str_eq s.user_id u && not s.revoked

abbrev pub revoke_of : UserId → Session → Session
revoke_of u s = if live_of u s then revoke s else s

-- Both maps are keyed by the hash of the token.
unfoldable pub add_session : Bytes → Session → Sessions → Sessions
add_session h s r = record {
  by_hash = put h s r.by_hash;
  user_by_hash = put h s.user_id r.user_by_hash;
}

module _ (sha : Bytes → Bytes) where
  -- The token is "sess_" and 64 random hexadecimal digits, drawn by the caller of the model.
  unfoldable pub create_for_user : SessionId → UserId → ℕ → Sessions → Outcome Sessions
  create_for_user token uid now r =
      then_ (make_session token uid now (now + session_ms) false)
        λ s. returns (add_session (sha token) s r)

  unfoldable pub find_by_token : SessionId → Sessions → Result Session
  find_by_token token r = elim (get (sha token) r.by_hash) [
    | none ↦ failure (codes "not found")
    | some s ↦ success s
  ]

  unfoldable pub invalidate : SessionId → Sessions → Bool × Sessions
  invalidate token r = elim (get (sha token) r.by_hash) [
    | none ↦ (false, r)
    | some s ↦ (true, record r { by_hash = put (sha token) (revoke s) r.by_hash })
  ]

  unfoldable pub is_valid : SessionId → ℕ → Sessions → Bool
  unfolding find_by_token
  is_valid token now r = elim (find_by_token token r) [
    | failure e ↦ false
    | success s ↦ session_valid s now
  ]

  unfoldable pub user_for : SessionId → Sessions → Outcome UserId
  unfolding find_by_token
  user_for token r = elim (find_by_token token r) [
    | failure e ↦ throws (auth (codes "Login failed"))
    | success s ↦ returns s.user_id
  ]

unfoldable pub invalidate_all_for_user : UserId → Sessions → ℕ × Sessions
invalidate_all_for_user u r = (
  count_if (live_of u) (values r.by_hash),
  record r { by_hash = update_all (revoke_of u) r.by_hash },
)
