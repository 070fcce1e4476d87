-- ===== src/Auth/Lockout.antt =====
-- How wrong passwords are counted, and how long an account stays locked.
use secure_file_transfer.Base.{◌+◌, ◌≤◌, ◌<◌, ◌≡◌, ap, ◌∙◌, true, false, arith, Bytes, returns}
use secure_file_transfer.Domain.Records.{SessionId, success}
use secure_file_transfer.Domain.User.{User, can_login}
use secure_file_transfer.Users
use secure_file_transfer.Users.{Users, failed_once, lockout_ms, replace}
use secure_file_transfer.Users.Invariant.{IsConsistent}
use secure_file_transfer.Users.Calls.{find_by_username-replaced, record_login_failure-found}
use secure_file_transfer.World.{Platform, World, next_reading}
use secure_file_transfer.Auth.{login}
use secure_file_transfer.Auth.Login.{login-grant}

module _ {A B T : Type 0} (p : Platform A B T) where
  -- A wrong password for a user who could log in.
  pub record WrongPassword (u pw : Bytes) (w : World A B T) (user : User) : Type 0 where
    pub consistent : IsConsistent w.users
    pub found : Users.find_by_username u w.users ≡ success user
    pub could : can_login user (next_reading w) ≡ true
    pub enc : Bytes
    pub stored : Users.get_encoded_hash user.id w.users ≡ returns enc
    pub wrong : p.verify_encoded enc pw ≡ false

  -- A wrong password changes the user's counter and lock and nothing else in the repository, also
  -- if the audit log then throws.
  pub login-counts :
      (u pw : Bytes) (w : World A B T) (user : User)
      → WrongPassword u pw w user
      → (login p u pw w).1.users ≡ replace user.id (failed_once (next_reading w) user) w.users
  unfolding login
  login-counts u pw w user h = ground (
    arith,
    h.found,
    h.could,
    h.stored,
    h.wrong,
    record_login_failure-found w.users u user (next_reading w) h.consistent h.found,
  )

  -- After the fifth wrong password in a row, or a later one, no password opens a session for that
  -- name during the next 15 minutes, as long as the user repository is left as that login left it.
  pub login-lockout :
      (u pw pw' : Bytes) (w w' : World A B T) (user : User) (token : SessionId)
      → WrongPassword u pw w user
      → 4 ≤ user.failed_attempts
      → w'.users ≡ (login p u pw w).1.users
      → next_reading w' < next_reading w + lockout_ms
      → ¬ ((login p u pw' w').0 ≡ returns (success token))
  unfolding can_login
  login-lockout u pw pw' w w' user token h many same soon granted =
      let now = next_reading w in
      let (user', enc, found, open_, stored, verified) = login-grant p u pw' w' granted in
      let locked : Users.find_by_username u w'.users ≡ success (failed_once now user) =
        ap (Users.find_by_username u) (same ∙ login-counts u pw w user h)
        ∙ find_by_username-replaced w.users u user (failed_once now user) h.consistent h.found in
      let it : failed_once now user ≡ user' = cc in
      let until : can_login (failed_once now user) (next_reading w') ≡ true =
        ap (λ x. can_login x (next_reading w')) it ∙ open_ in
      ground arith
