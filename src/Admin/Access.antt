-- ===== src/Admin/Access.antt =====
-- Who may change the status of a user, and what a deactivation does to the sessions.
use secure_file_transfer.Base.{
  ◌≡◌, refl, ◌⊎◌, inl, inr, true, not, [], arith, if◌then◌else◌, Option, none, some, Option-cases,
  Outcome, Outcome-cases, returns, throws, Exception,
}
use secure_file_transfer.Domain.Records.{
  UserId, SessionId, Result, success, failure, Result-cases, Session,
}
use secure_file_transfer.Domain.User.{User}
use secure_file_transfer.Users
use secure_file_transfer.Users.{Users}
use secure_file_transfer.Sessions
use secure_file_transfer.World.{Platform, World, event, next_reading, ticked}
use secure_file_transfer.Admin.{
  active_admin, admin_of, active_user, admin_denied, admin_session, activate, deactivate,
  activate_for, deactivate_for, deny, denied, is_admin_id,
}

module _ {A B T : Type 0} (p : Platform A B T) where
  -- What a token must be for `AdminService` to act: valid at the time of the call, for a session
  -- whose user is an active administrator.
  abbrev pub AdminToken : World A B T → SessionId → Type 0
  AdminToken w token =
      (id : UserId) × (admin : User) × (Sessions.user_for p.sha256_hex token w.sessions
        ≡ returns id)
      × (Users.find_by_id id w.users ≡ success admin)
      × (active_admin admin ≡ true)
      × (Sessions.is_valid p.sha256_hex token (next_reading w) w.sessions ≡ true)

  user_for-found :
      (token : SessionId) (r : Sessions.Sessions) (s : Session) (id : UserId)
      → Sessions.find_by_token p.sha256_hex token r ≡ success s
      → s.user_id ≡ id
      → Sessions.user_for p.sha256_hex token r ≡ returns id
  unfolding Sessions.user_for
  user_for-found token r s id found same = ground arith

  admin_of-some :
      (o : Result Session) (r : Users) (id : UserId)
      → admin_of p o r ≡ some id
      → (s : Session) × (admin : User) × (o ≡ success s)
        × (s.user_id ≡ id)
        × (Users.find_by_id id r ≡ success admin)
        × (active_admin admin ≡ true)
  unfolding is_admin_id
  admin_of-some (failure m) r id e = cc
  admin_of-some (success s) r id e = elim (Result-cases (Users.find_by_id s.user_id r)) [
    | inl (m, gone) ↦ absurd (cc (rw (gone, active_user) at e))
    | inr (admin, found) ↦ (s, admin, refl, ground arith, ground arith, ground arith)
  ]

  -- The administrator that `isAdminSession` finds, and the world after its clock reading.
  abbrev pub granted : SessionId → World A B T → Option UserId
  granted token w =
      if not (Sessions.is_valid p.sha256_hex token (next_reading w) w.sessions)
      then none
      else admin_of p (Sessions.find_by_token p.sha256_hex token w.sessions) w.users

  pub activate-eq :
      (token : SessionId) (tgt : UserId) (w : World A B T)
      → activate p token tgt w ≡ activate_for p (granted token w) tgt (ticked w)
  unfolding activate admin_session
  activate-eq token tgt w = refl

  pub deactivate-eq :
      (token : SessionId) (tgt : UserId) (w : World A B T)
      → deactivate p token tgt w ≡ deactivate_for p (granted token w) tgt (ticked w)
  unfolding deactivate admin_session
  deactivate-eq token tgt w = refl

  granted-AdminToken :
      (token : SessionId) (w : World A B T) (id : UserId)
      → granted token w ≡ some id
      → AdminToken w token
  granted-AdminToken token w id e =
      let sess = Sessions.find_by_token p.sha256_hex token w.sessions in
      let accepted : admin_of p sess w.users ≡ some id = ground arith in
      let (s, admin, found, same, known, may) = admin_of-some sess w.users id accepted in
      (id, admin, user_for-found token w.sessions s id found same, known, may, ground arith)

  granted-none :
      (token : SessionId) (w : World A B T) → ¬ AdminToken w token → granted token w ≡ none
  granted-none token w h = elim (Option-cases (granted token w)) [
    | inl refused ↦ refused
    | inr (id, given) ↦ absurd (h (granted-AdminToken token w id given))
  ]

  -- A call that was refused, or whose audit event was: no user and no session is changed.
  abbrev pub Refused : World A B T → Outcome (Result UserId) × World A B T → Type 0
  Refused w (r, w') =
      ((r ≡ returns (failure denied)) ⊎ ((e : Exception) × (r ≡ throws e)))
      × (w'.users ≡ w.users)
      × (w'.sessions ≡ w.sessions)

  pub refused : (tgt : UserId) (w : World A B T) → Refused w (deny p [] tgt w)
  refused tgt w = elim (Outcome-cases (p.record_event (event [] admin_denied tgt) w.audit).0) [
    | inl (done, e) ↦ (inl (ground arith), ground arith, ground arith)
    | inr (x, e) ↦ (inr (x, ground arith), ground arith, ground arith)
  ]

  -- Whoever does not hold a valid session of an active administrator is refused by both operations
  -- with "Admin denied", unless the audit log throws, and no user and no session changes.
  pub unauthorized-Refused :
      (token : SessionId) (tgt : UserId) (w : World A B T)
      → ¬ AdminToken w token
      → Refused w (activate p token tgt w) × Refused w (deactivate p token tgt w)
  unauthorized-Refused token tgt w h =
      let none_given = granted-none token w h in
      (
        rw (activate-eq token tgt w, none_given) (refused tgt (ticked w)),
        rw (deactivate-eq token tgt w, none_given) (refused tgt (ticked w)),
      )
