-- ===== src/Server/Services.antt =====
-- Every service of the server keeps an active administrator.
use secure_file_transfer.Base.{
  ℕ, ◌≡◌, inl, inr, Bytes, Exec, Outcome, Outcome-cases, returns, throws, not, ◌||◌, is_empty, ltb,
  length, codes, [],
}
use secure_file_transfer.Base.Steady.{
  Steady, Steady-lift, Steady-pure, Steady-gets, Steady-bind, Steady-if,
}
use secure_file_transfer.Domain.Records.{UserId, SessionId, Result, success, failure}
use secure_file_transfer.Domain.User.{User, can_login, make_user, active}
use secure_file_transfer.Users
use secure_file_transfer.Users.{Users}
use secure_file_transfer.Sessions
use secure_file_transfer.Sessions.{Sessions}
use secure_file_transfer.Files.{Files}
use secure_file_transfer.Admin.{activate, deactivate}
use secure_file_transfer.World.{
  Platform, World, now_ms, on_users, on_files, on_sessions, new_user_id, attempt,
}
use secure_file_transfer.Auth.{
  ok, register_ok, register_fail, registration_failed, login_ok, login_fail, login_failed,
  logout_done, register_user, registered, login_as, login, logout, log, hash, refuse_registration,
  refuse_login, admit, new_token, end_session,
}
use secure_file_transfer.Admin.Manned.{
  Manned, save-Manned, activate-Manned, deactivate-Manned, record_login_failure-Manned,
  reset_login_failures-Manned,
}

module _ {A B T : Type 0} (p : Platform A B T) where
  abbrev pub HasAdmin : World A B T → Type 0
  HasAdmin w = Manned w.users

  on_users-Steady :
      (f : Users → Outcome Users)
      → ((r r' : Users) → f r ≡ returns r' → Manned r → Manned r')
      → Steady HasAdmin (on_users f)
  unfolding Steady
  on_users-Steady f keeps w h = elim (Outcome-cases (f w.users)) [
    | inl (r, stored) ↦ rw stored (keeps w.users r stored h)
    | inr (e, failed) ↦ rw failed h
  ]

  pub log-Steady : (actor action target : Bytes) → Steady HasAdmin (log p actor action target)
  unfolding Steady
  log-Steady actor action target w h = h

  pub attempt-Steady :
      {X : Type 0} (m : Exec (World A B T) X) → Steady HasAdmin m → Steady HasAdmin (attempt m)
  unfolding Steady
  attempt-Steady m k w h = k w h

  hash-Steady : (pw : Bytes) → Steady HasAdmin (hash p pw)
  unfolding Steady hash
  hash-Steady pw w h = h

  pub new_user_id-Steady : Steady HasAdmin new_user_id
  unfolding Steady
  new_user_id-Steady w h = h

  refuse_registration-Steady : Steady HasAdmin (refuse_registration p)
  refuse_registration-Steady =
      Steady-bind HasAdmin _ _ (log-Steady (codes "system") register_fail [])
        (λ done. Steady-pure HasAdmin (failure registration_failed))

  registered-Steady :
      (u : Bytes) (id : UserId) (o : Outcome (Unit {0})) → Steady HasAdmin (registered p u id o)
  registered-Steady u id (returns done) =
      Steady-bind HasAdmin _ _ (log-Steady u register_ok [])
        (λ done. Steady-pure HasAdmin (success id))
  registered-Steady u id (throws e) = refuse_registration-Steady

  pub register_user-Steady :
      (u email pw role : Bytes) → Steady HasAdmin (register_user p u email pw role)
  unfolding register_user
  register_user-Steady u email pw role =
      Steady-if HasAdmin (is_empty u || (is_empty email || ltb (length pw) 8)) _ _
        (Steady-pure HasAdmin (failure registration_failed))
        (Steady-bind HasAdmin _ _ (Steady-gets HasAdmin (λ w. w.users)) (λ users.
          Steady-if HasAdmin
            (ok (Users.find_by_username u users) || ok (Users.find_by_email email users)) _ _
            refuse_registration-Steady
            (Steady-bind HasAdmin _ _ (hash-Steady pw) (λ encoded.
              Steady-bind HasAdmin _ _ new_user_id-Steady (λ id.
                Steady-bind HasAdmin _ _
                  (Steady-lift HasAdmin (make_user id u email role active 0 0))
                  (λ nu.
                    Steady-bind HasAdmin _ _
                      (attempt-Steady _ (
                        on_users-Steady (Users.save nu encoded)
                          (λ r r' e m. save-Manned nu encoded r e m)))
                      (λ saved. registered-Steady u id saved)))))))

  refuse_login-Steady : (u : Bytes) → Steady HasAdmin (refuse_login p u)
  refuse_login-Steady u =
      Steady-bind HasAdmin _ _ (log-Steady u login_fail [])
        (λ done. Steady-pure HasAdmin (failure login_failed))

  on_sessions-Steady : (f : Sessions → Outcome Sessions) → Steady HasAdmin (on_sessions f)
  unfolding Steady
  on_sessions-Steady f w h = elim (Outcome-cases (f w.sessions)) [
    | inl (s, stored) ↦ rw stored h
    | inr (e, failed) ↦ rw failed h
  ]

  pub on_files-Steady : (f : Files → Outcome Files) → Steady HasAdmin (on_files f)
  unfolding Steady
  on_files-Steady f w h = elim (Outcome-cases (f w.files)) [
    | inl (s, stored) ↦ rw stored h
    | inr (e, failed) ↦ rw failed h
  ]

  new_token-Steady : Steady HasAdmin (new_token p)
  unfolding Steady
  new_token-Steady w h = h

  admit-Steady : (u : Bytes) (id : UserId) (now : ℕ) → Steady HasAdmin (admit p u id now)
  admit-Steady u id now =
      Steady-bind HasAdmin _ _
        (on_users-Steady (Users.reset_login_failures id)
          (λ r r' e m. reset_login_failures-Manned id r e m))
        (λ reset. Steady-bind HasAdmin _ _ new_token-Steady (λ token.
          Steady-bind HasAdmin _ _
            (on_sessions-Steady (Sessions.create_for_user p.sha256_hex token id now))
            (λ opened.
              Steady-bind HasAdmin _ _ (log-Steady u login_ok [])
                (λ done. Steady-pure HasAdmin (success token)))))

  login_as-Steady :
      (u pw : Bytes) (now : ℕ) (o : Result User) → Steady HasAdmin (login_as p u pw now o)
  unfolding login_as
  login_as-Steady u pw now (failure e) = refuse_login-Steady u
  login_as-Steady u pw now (success user) =
      Steady-if HasAdmin (not (can_login user now)) _ _ (refuse_login-Steady u) (
        Steady-bind HasAdmin _ _ (Steady-gets HasAdmin (λ w. w.users)) (λ users.
          Steady-bind HasAdmin _ _ (Steady-lift HasAdmin (Users.get_encoded_hash user.id users))
            (λ enc.
              Steady-if HasAdmin (not (p.verify_encoded enc pw)) _ _
                (Steady-bind HasAdmin _ _
                  (on_users-Steady (Users.record_login_failure user.id now)
                    (λ r r' e m. record_login_failure-Manned user.id now r e m))
                  (λ counted. refuse_login-Steady u))
                (admit-Steady u user.id now))))

  pub now_ms-Steady : Steady HasAdmin now_ms
  unfolding Steady
  now_ms-Steady w h = h

  pub login-Steady : (u pw : Bytes) → Steady HasAdmin (login p u pw)
  unfolding login
  login-Steady u pw = Steady-bind HasAdmin _ _ now_ms-Steady (λ now.
      Steady-bind HasAdmin _ _ (Steady-gets HasAdmin (λ w. w.users))
        (λ users. login_as-Steady u pw now (Users.find_by_username u users)))

  end_session-Steady : (token : SessionId) → Steady HasAdmin (end_session p token)
  unfolding Steady
  end_session-Steady token w h = h

  pub logout-Steady : (token : SessionId) → Steady HasAdmin (logout p token)
  unfolding logout
  logout-Steady token = Steady-bind HasAdmin _ _ (end_session-Steady token) (λ done.
      Steady-if HasAdmin done _ _
        (Steady-bind HasAdmin _ _ (log-Steady [] logout_done [])
          (λ logged. Steady-pure HasAdmin done))
        (Steady-pure HasAdmin done))

  pub activate-Steady : (token : SessionId) (tgt : UserId) → Steady HasAdmin (activate p token tgt)
  unfolding Steady
  activate-Steady token tgt w h = activate-Manned p token tgt w h

  pub deactivate-Steady :
      (token : SessionId) (tgt : UserId) → Steady HasAdmin (deactivate p token tgt)
  unfolding Steady
  deactivate-Steady token tgt w h = deactivate-Manned p token tgt w h
