-- ===== src/Admin/LastAdmin.antt =====
-- The system keeps an active administrator, and a deactivated user keeps no session.
use secure_file_transfer.Base.{
  ℕ, ◌+◌, ◌≤◌, ◌≡◌, refl, sym, subst, inl, inr, true, false, not, ◌&&◌, arith, Bytes, str_eq,
  str_eq_refl, if◌then◌else◌, leb, Bool-cases, Option, none, some, returns,
}
use secure_file_transfer.Base.Dict.{get, count-put}
use secure_file_transfer.Domain.Records.{UserId, SessionId, Result, success, failure}
use secure_file_transfer.Domain.User.{User, is_admin, is_active, set_status, active, inactive}
use secure_file_transfer.Users
use secure_file_transfer.Users.{Users, replace}
use secure_file_transfer.Users.Invariant.{IsConsistent}
use secure_file_transfer.World.{Platform, World, ticked}
use secure_file_transfer.Sessions
use secure_file_transfer.Sessions.Lifetime.{invalidate_all-exact}
use secure_file_transfer.Admin.Access.{granted, activate-eq, deactivate-eq, refused}
use secure_file_transfer.Admin.{
  activate_for, deactivate_for, active_admin, count_active_admins, activate, deactivate,
  activate_found, deactivate_found,
}

-- One user's entry changes, and the count of active administrators by as much.
pub count-replace :
    (r : Users) (id : UserId) (old new : User)
    → get id r.users_by_id ≡ some old
    → count_active_admins (replace id new r) + (if active_admin old then 1 else 0)
      ≡ count_active_admins r + (if active_admin new then 1 else 0)
unfolding count_active_admins Users.list_all
count-replace r id old new e = count-put active_admin id new old r.users_by_id e

status-kept : (s : Bytes) (u : User) → is_admin (set_status s u) ≡ is_admin u
unfolding is_admin
status-kept s u = refl

not_active : (u : User) → is_active (set_status inactive u) ≡ false
unfolding is_active str_eq
not_active u = refl

now_active : (u : User) → is_active (set_status active u) ≡ true
unfolding is_active str_eq
now_active u = refl

deactivated-count :
    (r : Users) (id : UserId) (u : User)
    → get id r.users_by_id ≡ some u
    → (is_admin u && (is_active u && leb (count_active_admins r) 1)) ≡ false
    → 1 ≤ count_active_admins r
    → 1 ≤ count_active_admins (replace id (set_status inactive u) r)
deactivated-count r id u e allowed some_left =
    let counted = count-replace r id u (set_status inactive u) e in
    let off = not_active u in ground arith

activated-count :
    (r : Users) (id : UserId) (u : User)
    → get id r.users_by_id ≡ some u
    → count_active_admins r ≤ count_active_admins (replace id (set_status active u) r)
activated-count r id u e =
    let counted = count-replace r id u (set_status active u) e in
    let on = now_active u in let same = status-kept active u in ground arith

find-get :
    (r : Users) (id : UserId) (u : User)
    → Users.find_by_id id r ≡ success u
    → get id r.users_by_id ≡ some u
unfolding Users.find_by_id
find-get r id u e = ground arith

pub update-status :
    (s : Bytes) (u : User) (r : Users)
    → get u.id r.users_by_id ≡ some u
    → Users.update (set_status s u) r ≡ returns (replace u.id (set_status s u) r)
unfolding Users.update
update-status s u r e = ground (arith, str_eq_refl u.username, str_eq_refl u.email)

pub own-entry :
    (r : Users) (tgt : UserId) (u : User)
    → IsConsistent r
    → Users.find_by_id tgt r ≡ success u
    → get u.id r.users_by_id ≡ some u
own-entry r tgt u c e =
    let there = find-get r tgt u e in
    subst (λ k. get k r.users_by_id ≡ some u) (sym (c.stored tgt u there).own_id) there

module _ {A B T : Type 0} (p : Platform A B T) where
  pub deactivate_found-users :
      (admin tgt : UserId) (u : User) (w : World A B T) (r : Users)
      → Users.update (set_status inactive u) w.users ≡ returns r
      → (deactivate_found p admin tgt (success u) w).1.users ≡ (
          if is_admin u && (is_active u && leb (count_active_admins w.users) 1) then w.users else r)
  unfolding deactivate_found
  deactivate_found-users admin tgt u w r e = ground arith

  pub activate_found-users :
      (admin tgt : UserId) (u : User) (w : World A B T) (r : Users)
      → Users.update (set_status active u) w.users ≡ returns r
      → (activate_found p admin tgt (success u) w).1.users ≡ r
  unfolding activate_found
  activate_found-users admin tgt u w r e = ground arith

  pub deactivate_found-keeps :
      (admin tgt : UserId) (o : Result User) (w : World A B T)
      → IsConsistent w.users
      → Users.find_by_id tgt w.users ≡ o
      → 1 ≤ count_active_admins w.users
      → 1 ≤ count_active_admins (deactivate_found p admin tgt o w).1.users
  unfolding deactivate_found
  deactivate_found-keeps admin tgt (failure m) w c e h = h
  deactivate_found-keeps admin tgt (success u) w c e h =
      let here = own-entry w.users tgt u c e in
      let stored = update-status inactive u w.users here in
      let now =
        deactivate_found-users admin tgt u w (replace u.id (set_status inactive u) w.users)
          stored in
      elim (Bool-cases (is_admin u && (is_active u && leb (count_active_admins w.users) 1))) [
        | inl kept ↦ rw (now, kept) h
        | inr allowed ↦ rw (now, allowed) (deactivated-count w.users u.id u here allowed h)
      ]

  pub activate_found-keeps :
      (admin tgt : UserId) (o : Result User) (w : World A B T)
      → IsConsistent w.users
      → Users.find_by_id tgt w.users ≡ o
      → count_active_admins w.users ≤ count_active_admins (activate_found p admin tgt o w).1.users
  unfolding activate_found
  activate_found-keeps admin tgt (failure m) w c e = omega arith
  activate_found-keeps admin tgt (success u) w c e =
      let here = own-entry w.users tgt u c e in
      let stored = update-status active u w.users here in
      rw (activate_found-users admin tgt u w (replace u.id (set_status active u) w.users) stored)
        (activated-count w.users u.id u here)

  deactivate_for-keeps :
      (o : Option UserId) (tgt : UserId) (w : World A B T)
      → IsConsistent w.users
      → 1 ≤ count_active_admins w.users
      → 1 ≤ count_active_admins (deactivate_for p o tgt w).1.users
  deactivate_for-keeps none tgt w c h = rw (refused p tgt w).1 h
  deactivate_for-keeps (some admin) tgt w c h =
      deactivate_found-keeps admin tgt (Users.find_by_id tgt w.users) w c refl h

  activate_for-keeps :
      (o : Option UserId) (tgt : UserId) (w : World A B T)
      → IsConsistent w.users
      → count_active_admins w.users ≤ count_active_admins (activate_for p o tgt w).1.users
  activate_for-keeps none tgt w c = rw (refused p tgt w).1 (omega arith)
  activate_for-keeps (some admin) tgt w c =
      activate_found-keeps admin tgt (Users.find_by_id tgt w.users) w c refl

  -- Over a consistent repository with an active administrator, whatever the token and the target of
  -- a call, an active administrator is left after `deactivate`, and `activate` leaves no fewer than
  -- there were.
  pub last_admin-stays :
      (token : SessionId) (tgt : UserId) (w : World A B T)
      → IsConsistent w.users
      → 1 ≤ count_active_admins w.users
      → (1 ≤ count_active_admins (deactivate p token tgt w).1.users)
        × (count_active_admins w.users ≤ count_active_admins (activate p token tgt w).1.users)
  last_admin-stays token tgt w c h = (
    rw (deactivate-eq p token tgt w) (deactivate_for-keeps (granted p token w) tgt (ticked w) c h),
    rw (activate-eq p token tgt w) (activate_for-keeps (granted p token w) tgt (ticked w) c),
  )

  deactivate_found-ends :
      (admin tgt id : UserId) (o : Result User) (w : World A B T)
      → (deactivate_found p admin tgt o w).0 ≡ returns (success id)
      → (deactivate_found p admin tgt o w).1.sessions
        ≡ (Sessions.invalidate_all_for_user tgt w.sessions).1
  unfolding deactivate_found
  deactivate_found-ends admin tgt id o w e = ground arith

  deactivate_for-ends :
      (o : Option UserId) (tgt id : UserId) (w : World A B T)
      → (deactivate_for p o tgt w).0 ≡ returns (success id)
      → (deactivate_for p o tgt w).1.sessions ≡ (Sessions.invalidate_all_for_user tgt w.sessions).1
  deactivate_for-ends none tgt id w e = ground arith
  deactivate_for-ends (some admin) tgt id w e =
      deactivate_found-ends admin tgt id (Users.find_by_id tgt w.users) w e

  -- After a successful `deactivate`, a token is valid exactly if it was valid before and its session
  -- belongs to another user than the one deactivated.
  pub deactivate-ends_sessions :
      (token other : SessionId) (tgt id owner : UserId) (now : ℕ) (w : World A B T)
      → (deactivate p token tgt w).0 ≡ returns (success id)
      → Sessions.user_for p.sha256_hex other w.sessions ≡ returns owner
      → Sessions.is_valid p.sha256_hex other now (deactivate p token tgt w).1.sessions
        ≡ (not (str_eq owner tgt) && Sessions.is_valid p.sha256_hex other now w.sessions)
  deactivate-ends_sessions token other tgt id owner now w e owned =
      let e' : (deactivate_for p (granted p token w) tgt (ticked w)).0 ≡ returns (success id) =
        rw (deactivate-eq p token tgt w) at e in
      rw (deactivate-eq p token tgt w, deactivate_for-ends (granted p token w) tgt id (ticked w) e')
        (invalidate_all-exact p.sha256_hex tgt owner other now w.sessions owned)
