-- ===== src/Auth/Login.antt =====
-- Who is let in, what a refusal shows, and how long an account stays locked.
use secure_file_transfer.Base.{
  ℕ, ◌+◌, ◌≡◌, true, ◌&&◌, ◌++◌, arith, Bytes, codes, leb, ltb, returns,
}
use secure_file_transfer.Domain.Records.{SessionId, success, failure}
use secure_file_transfer.Domain.User.{User, can_login}
use secure_file_transfer.Domain.Ids.{octets, hex_bytes}
use secure_file_transfer.Users
use secure_file_transfer.Users.{Users, failed_once, lockout_ms}
use secure_file_transfer.Sessions
use secure_file_transfer.Sessions.{Sessions, session_ms, add_session}
use secure_file_transfer.Sessions.Lifetime.{fresh, create_for_user-returns, added-session}
use secure_file_transfer.World.{Platform, World, next_reading}
use secure_file_transfer.Auth.{login_failed, login}

module _ {A B T : Type 0} (p : Platform A B T) where
  -- A refusal always reads "Login failed", whichever test failed, and opens no session.
  pub login-refusal :
      (u pw : Bytes) (w : World A B T) {m : Bytes}
      → (login p u pw w).0 ≡ returns (failure m)
      → (m ≡ login_failed) × ((login p u pw w).1.sessions ≡ w.sessions)
  unfolding login
  login-refusal u pw w e = ground arith

  -- A token is given only to a user whose name was looked up, who is active and not locked at the
  -- time of the call, and whose stored hash the password verifies against.
  pub login-grant :
      (u pw : Bytes) (w : World A B T) {token : SessionId}
      → (login p u pw w).0 ≡ returns (success token)
      → (user : User) × (enc : Bytes) × (Users.find_by_username u w.users ≡ success user)
        × (can_login user (next_reading w) ≡ true)
        × (Users.get_encoded_hash user.id w.users ≡ returns enc)
        × (p.verify_encoded enc pw ≡ true)
  unfolding login
  login-grant u pw w e = ground arith

  -- The session store after a login: one session more, under the token that is returned.
  login-opens :
      (u pw : Bytes) (w : World A B T) {token : SessionId}
      → (login p u pw w).0 ≡ returns (success token)
      → (user : User) × (Users.find_by_username u w.users ≡ success user)
        × ((login p u pw w).1.sessions
            ≡ add_session
                (p.sha256_hex token)
                (fresh p.sha256_hex token user.id (next_reading w))
                w.sessions)
  unfolding login
  login-opens u pw w e =
      let (user, enc, found, open_, stored, verified) = login-grant u pw w e in
      let made =
        create_for_user-returns p.sha256_hex
          (codes "sess_" ++ hex_bytes (octets w.entropy.stream w.entropy.drawn 32)) user.id
          (next_reading w) w.sessions in
      (user, found, ground (arith, made))

  -- The session that a login opens is valid from the time of the call for exactly one hour and
  -- belongs to the user whose name was given.
  pub login-session :
      (u pw : Bytes) (w : World A B T) (later : ℕ) {token : SessionId}
      → (login p u pw w).0 ≡ returns (success token)
      → (user : User) × (Users.find_by_username u w.users ≡ success user)
        × (Sessions.user_for p.sha256_hex token (login p u pw w).1.sessions ≡ returns user.id)
        × (Sessions.is_valid p.sha256_hex token later (login p u pw w).1.sessions
            ≡ (leb (next_reading w) later && ltb later (next_reading w + session_ms)))
  login-session u pw w later {token} e =
      let (user, found, opened) = login-opens u pw w e in
      let (owned, valid) =
        added-session p.sha256_hex token user.id (next_reading w) later w.sessions in
      (user, found, rw opened owned, rw opened valid)
