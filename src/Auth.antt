-- ===== src/Auth.antt =====
-- src/application/auth_service.cpp: `AuthService`, with `Argon2Hasher`
-- (src/infrastructure/argon2_hasher.cpp) as its hasher.
pub mod Login
pub mod Lockout
pub mod Register
use secure_file_transfer.Base.{
  ℕ, ◌||◌, Bool, true, false, not, List, [], ◌++◌, Bytes, codes, is_empty, length, ltb,
  if◌then◌else◌, Option, none, some, Exec, pure, raise, lift, gets, ◌>>=◌, ◌>>◌, Outcome, returns,
  throws, Exception,
}
use secure_file_transfer.Domain.Records.{UserId, SessionId, Result, success, failure}
use secure_file_transfer.Domain.User.{User, make_user, can_login, active, user_role}
use secure_file_transfer.Domain.Ids.{hex_bytes}
use secure_file_transfer.Users
use secure_file_transfer.Sessions
use secure_file_transfer.World.{
  Platform, World, event, now_ms, on_audit, on_users, on_sessions, draw_octets, new_user_id,
  attempt,
}

-- include/domain/audit_event.hpp
abbrev pub register_ok : Bytes
register_ok = codes "REGISTER_OK"

abbrev pub register_fail : Bytes
register_fail = codes "REGISTER_FAIL"

abbrev pub login_ok : Bytes
login_ok = codes "LOGIN_OK"

abbrev pub login_fail : Bytes
login_fail = codes "LOGIN_FAIL"

abbrev pub logout_done : Bytes
logout_done = codes "LOGOUT"

abbrev pub registration_failed : Bytes
registration_failed = codes "Registration failed"

abbrev pub login_failed : Bytes
login_failed = codes "Login failed"

-- A search that found something.
abbrev pub ok {ℓ} : {A : Type ℓ} → Result A → Bool
ok (success a) = true
ok (failure e) = false

module _ {A B T : Type 0} (p : Platform A B T) where
  abbrev pub log : Bytes → Bytes → Bytes → Exec (World A B T) (Unit {0})
  log actor action target = on_audit (p.record_event (event actor action target))

  -- `Argon2Hasher::hash`: 16 random bytes of salt, and the library's encoding.
  unfoldable pub hash : Bytes → Exec (World A B T) Bytes
  hash pw = do salt ← draw_octets 16; lift (p.hash_encoded pw salt)

  abbrev pub refuse_registration : Exec (World A B T) (Result UserId)
  refuse_registration = do log (codes "system") register_fail []; pure (failure registration_failed)

  -- What follows the `try` block around `save`.
  abbrev pub registered : Bytes → UserId → Outcome (Unit {0}) → Exec (World A B T) (Result UserId)
  registered u new_id (returns done) = do log u register_ok []; pure (success new_id)
  registered u new_id (throws e) = refuse_registration

  unfoldable pub register_user : Bytes → Bytes → Bytes → Bytes → Exec (World A B T) (Result UserId)
  unfolding hash
  register_user u email pw role =
      if is_empty u || (is_empty email || ltb (length pw) 8)
      then pure (failure registration_failed)
      else do
        users ← gets (λ w. w.users)
        if ok (Users.find_by_username u users) || ok (Users.find_by_email email users)
            then refuse_registration
            else do
              encoded ← hash pw
              new_id ← new_user_id
              nu ← lift (make_user new_id u email role active 0 0)
              saved ← attempt (on_users (Users.save nu encoded))
              registered u new_id saved

  abbrev pub refuse_login : Bytes → Exec (World A B T) (Result SessionId)
  refuse_login u = do log u login_fail []; pure (failure login_failed)

  -- "sess_" and 64 hexadecimal digits.
  abbrev pub new_token : Exec (World A B T) SessionId
  new_token = do bytes ← draw_octets 32; pure (codes "sess_" ++ hex_bytes bytes)

  abbrev pub admit : Bytes → UserId → ℕ → Exec (World A B T) (Result SessionId)
  admit u id now = do
    on_users (Users.reset_login_failures id)
    token ← new_token
    on_sessions (Sessions.create_for_user p.sha256_hex token id now)
    log u login_ok []
    pure (success token)

  -- The branches of `login` for what `findByUsername` gave.
  unfoldable pub login_as : Bytes → Bytes → ℕ → Result User → Exec (World A B T) (Result SessionId)
  login_as u pw now (failure e) = refuse_login u
  login_as u pw now (success user) = if not (can_login user now) then refuse_login u else do
    users ← gets (λ w. w.users)
    enc ← lift (Users.get_encoded_hash user.id users)
    if not (p.verify_encoded enc pw)
        then (do on_users (Users.record_login_failure user.id now); refuse_login u)
        else admit u user.id now

  unfoldable pub login : Bytes → Bytes → Exec (World A B T) (Result SessionId)
  unfolding login_as
  login u pw = do
    now ← now_ms
    users ← gets (λ w. w.users)
    login_as u pw now (Users.find_by_username u users)

  abbrev pub end_session : SessionId → Exec (World A B T) Bool
  end_session token w =
      let (done, s) = Sessions.invalidate p.sha256_hex token w.sessions in
      (returns done, record w { sessions = s })

  unfoldable pub logout : SessionId → Exec (World A B T) Bool
  logout token = do
    done ← end_session token
    if done then (do log [] logout_done []; pure done) else pure done
