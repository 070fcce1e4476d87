-- ===== src/Admin/Manned.antt =====
-- The repository keeps an active administrator under every call of the services.
use secure_file_transfer.Base.{
  ℕ, ◌≤◌, ◌≡◌, refl, inl, inr, ◌&&◌, arith, Bytes, leb, Bool-cases, Option-cases, Option, none,
  some, returns,
}
use secure_file_transfer.Base.Dict.{get, emplace_fresh, count-put_new}
use secure_file_transfer.Domain.Records.{UserId, SessionId, Result, success, failure}
use secure_file_transfer.Domain.User.{
  User, is_admin, is_active, set_status, active, inactive, set_lockout,
}
use secure_file_transfer.Users
use secure_file_transfer.Users.{
  Users, replace, failed_once, save, record_login_failure, reset_login_failures,
}
use secure_file_transfer.Users.Invariant.{IsConsistent}
use secure_file_transfer.Users.Calls.{
  call, saves, updates, records_failure, resets_failures, call-IsConsistent, save-fresh,
}
use secure_file_transfer.World.{Platform, World, ticked}
use secure_file_transfer.Admin.{
  active_admin, count_active_admins, activate, deactivate, activate_for, deactivate_for,
  activate_found, deactivate_found,
}
use secure_file_transfer.Admin.Access.{granted, activate-eq, deactivate-eq, refused}
use secure_file_transfer.Admin.LastAdmin.{
  count-replace, own-entry, update-status, activate_found-users, deactivate_found-users,
  last_admin-stays,
}

-- The four maps agree, and there is an active administrator.
pub record Manned (r : Users) : Type 0 where
  pub consistent : IsConsistent r
  pub admin_left : 1 ≤ count_active_admins r

-- A lockout changes neither the role nor the status.
locked-counts :
    (r : Users) (id : UserId) (u : User) (until fails : ℕ)
    → get id r.users_by_id ≡ some u
    → count_active_admins (replace id (set_lockout until fails u) r) ≡ count_active_admins r
unfolding is_admin is_active
locked-counts r id u until fails there =
    let counted = count-replace r id u (set_lockout until fails u) there in omega (arith, counted)

pub save-Manned :
    (u : User) (h : Bytes) (r : Users) {r' : Users} → save u h r ≡ returns r' → Manned r → Manned r'
unfolding call count_active_admins Users.list_all
save-Manned u h r e m =
    let (new_name, new_email, new_id, it) = save-fresh u h r e in
    let more = count-put_new active_admin u.id u r.users_by_id new_id in
    let left = m.admin_left in
    record {
      consistent = call-IsConsistent (saves u h) r m.consistent e;
      admin_left = rw (it, emplace_fresh u.id u r.users_by_id new_id) (omega arith);
    }

pub record_login_failure-Manned :
    (id : UserId) (now : ℕ) (r : Users) {r' : Users}
    → record_login_failure id now r ≡ returns r'
    → Manned r
    → Manned r'
unfolding call record_login_failure
record_login_failure-Manned id now r {r'} e m = elim (Option-cases (get id r.users_by_id)) [
  | inl gone ↦ absurd (cc (rw (gone, record_login_failure) at e))
  | inr (u, there) ↦
      let same : replace id (failed_once now u) r ≡ r' =
        cc (rw (there, record_login_failure) at e) in
      let left = m.admin_left in
      record {
        consistent = call-IsConsistent (records_failure id now) r m.consistent e;
        admin_left = rw (← same) (rw (locked-counts r id u _ _ there) left);
      }
]

pub reset_login_failures-Manned :
    (id : UserId) (r : Users) {r' : Users}
    → reset_login_failures id r ≡ returns r'
    → Manned r
    → Manned r'
unfolding call reset_login_failures
reset_login_failures-Manned id r {r'} e m = elim (Option-cases (get id r.users_by_id)) [
  | inl gone ↦ absurd (cc (rw (gone, reset_login_failures) at e))
  | inr (u, there) ↦
      let same : replace id (set_lockout 0 0 u) r ≡ r' =
        cc (rw (there, reset_login_failures) at e) in
      let left = m.admin_left in
      record {
        consistent = call-IsConsistent (resets_failures id) r m.consistent e;
        admin_left = rw (← same) (rw (locked-counts r id u 0 0 there) left);
      }
]

-- A new status keeps the maps consistent.
status-IsConsistent :
    (s : Bytes) (u : User) (r : Users)
    → IsConsistent r
    → get u.id r.users_by_id ≡ some u
    → IsConsistent (replace u.id (set_status s u) r)
unfolding call
status-IsConsistent s u r c there =
    call-IsConsistent (updates (set_status s u)) r c (update-status s u r there)

module _ {A B T : Type 0} (p : Platform A B T) where
  deactivate_found-IsConsistent :
      (admin tgt : UserId) (o : Result User) (w : World A B T)
      → IsConsistent w.users
      → Users.find_by_id tgt w.users ≡ o
      → IsConsistent (deactivate_found p admin tgt o w).1.users
  unfolding deactivate_found
  deactivate_found-IsConsistent admin tgt (failure m) w c e = c
  deactivate_found-IsConsistent admin tgt (success u) w c e =
      let here = own-entry w.users tgt u c e in
      let now =
        deactivate_found-users p admin tgt u w (replace u.id (set_status inactive u) w.users)
          (update-status inactive u w.users here) in
      elim (Bool-cases (is_admin u && (is_active u && leb (count_active_admins w.users) 1))) [
        | inl kept ↦ rw (now, kept) c
        | inr allowed ↦ rw (now, allowed) (status-IsConsistent inactive u w.users c here)
      ]

  activate_found-IsConsistent :
      (admin tgt : UserId) (o : Result User) (w : World A B T)
      → IsConsistent w.users
      → Users.find_by_id tgt w.users ≡ o
      → IsConsistent (activate_found p admin tgt o w).1.users
  unfolding activate_found
  activate_found-IsConsistent admin tgt (failure m) w c e = c
  activate_found-IsConsistent admin tgt (success u) w c e =
      let here = own-entry w.users tgt u c e in
      rw
        (activate_found-users p admin tgt u w (replace u.id (set_status active u) w.users)
          (update-status active u w.users here))
        (status-IsConsistent active u w.users c here)

  deactivate_for-IsConsistent :
      (o : Option UserId) (tgt : UserId) (w : World A B T)
      → IsConsistent w.users
      → IsConsistent (deactivate_for p o tgt w).1.users
  deactivate_for-IsConsistent none tgt w c = rw (refused p tgt w).1 c
  deactivate_for-IsConsistent (some admin) tgt w c =
      deactivate_found-IsConsistent admin tgt (Users.find_by_id tgt w.users) w c refl

  activate_for-IsConsistent :
      (o : Option UserId) (tgt : UserId) (w : World A B T)
      → IsConsistent w.users
      → IsConsistent (activate_for p o tgt w).1.users
  activate_for-IsConsistent none tgt w c = rw (refused p tgt w).1 c
  activate_for-IsConsistent (some admin) tgt w c =
      activate_found-IsConsistent admin tgt (Users.find_by_id tgt w.users) w c refl

  pub deactivate-Manned :
      (token : SessionId) (tgt : UserId) (w : World A B T)
      → Manned w.users
      → Manned (deactivate p token tgt w).1.users
  deactivate-Manned token tgt w m = record {
    consistent =
        rw (deactivate-eq p token tgt w)
          (deactivate_for-IsConsistent (granted p token w) tgt (ticked w) m.consistent);
    admin_left = (last_admin-stays p token tgt w m.consistent m.admin_left).0;
  }

  pub activate-Manned :
      (token : SessionId) (tgt : UserId) (w : World A B T)
      → Manned w.users
      → Manned (activate p token tgt w).1.users
  activate-Manned token tgt w m =
      let left = m.admin_left in
      let kept = (last_admin-stays p token tgt w m.consistent m.admin_left).1 in
      record {
        consistent =
            rw (activate-eq p token tgt w)
              (activate_for-IsConsistent (granted p token w) tgt (ticked w) m.consistent);
        admin_left = omega arith;
      }
