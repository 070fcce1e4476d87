-- ===== src/Admin.antt =====
-- src/application/admin_service.cpp: `AdminService`.
pub mod LastAdmin
pub mod Manned
pub mod Access
use secure_file_transfer.Base.{
  ℕ, ◌||◌, ◌&&◌, Bool, true, false, not, List, [], Bytes, codes, leb, if◌then◌else◌, Option, none,
  some, count_if, Exec, pure, raise, lift, gets, ◌>>=◌, ◌>>◌, Outcome, returns, throws, Exception,
}
use secure_file_transfer.Domain.Records.{UserId, SessionId, Result, success, failure, Session}
use secure_file_transfer.Domain.User.{User, is_admin, is_active, set_status, active, inactive}
use secure_file_transfer.Users
use secure_file_transfer.Users.{Users}
use secure_file_transfer.Sessions
use secure_file_transfer.World.{Platform, World, now_ms, on_users}
use secure_file_transfer.Auth.{log}

abbrev pub activate_action : Bytes
activate_action = codes "ACTIVATE"

abbrev pub deactivate_action : Bytes
deactivate_action = codes "DEACTIVATE"

abbrev pub admin_denied : Bytes
admin_denied = codes "ADMIN_DENIED"

abbrev pub denied : Bytes
denied = codes "Admin denied"

abbrev pub last_admin : Bytes
last_admin = codes "cannot deactivate last admin"

-- `u.isAdmin() && u.isActive()`
abbrev pub active_admin : User → Bool
active_admin u = is_admin u && is_active u

abbrev pub admits : Result User → Bool
admits (failure e) = false
admits (success u) = active_admin u

-- `isAdmin`
unfoldable pub is_admin_id : UserId → Users → Bool
is_admin_id id r = admits (Users.find_by_id id r)

-- `countActiveAdmins`
unfoldable pub count_active_admins : Users → ℕ
count_active_admins r = count_if active_admin (Users.list_all r)

module _ {A B T : Type 0} (p : Platform A B T) where
  abbrev pub active_user : Result User → Bool
  active_user (failure e) = false
  active_user (success u) = is_active u

  -- What `isAdminSession` finds for the session of a token, which has been found valid.
  abbrev pub admin_of : Result Session → Users → Option UserId
  admin_of (failure e) r = none
  admin_of (success s) r =
      if not (active_user (Users.find_by_id s.user_id r))
      then none
      else if is_admin_id s.user_id r
      then some s.user_id
      else none

  -- `isAdminSession`, with the identifier that it hands out.
  unfoldable pub admin_session : SessionId → Exec (World A B T) (Option UserId)
  admin_session token = do
    now ← now_ms
    valid ← gets (λ w. Sessions.is_valid p.sha256_hex token now w.sessions)
    sess ← gets (λ w. Sessions.find_by_token p.sha256_hex token w.sessions)
    users ← gets (λ w. w.users)
    pure (if not valid then none else admin_of sess users)

  abbrev pub deny : UserId → UserId → Exec (World A B T) (Result UserId)
  deny admin target = do log p admin admin_denied target; pure (failure denied)

  -- `setStatus("active"); update; audit`
  unfoldable pub activate_found : UserId → UserId → Result User → Exec (World A B T) (Result UserId)
  activate_found admin tgt (failure e) = pure (failure (codes "not found"))
  activate_found admin tgt (success u) = do
    on_users (Users.update (set_status active u))
    log p admin activate_action tgt
    pure (success tgt)

  abbrev pub end_sessions : UserId → Exec (World A B T) ℕ
  end_sessions u w =
      let (n, s) = Sessions.invalidate_all_for_user u w.sessions in
      (returns n, record w { sessions = s })

  unfoldable pub deactivate_found :
      UserId → UserId → Result User → Exec (World A B T) (Result UserId)
  deactivate_found admin tgt (failure e) = pure (failure (codes "not found"))
  deactivate_found admin tgt (success u) = do
    admins ← gets (λ w. count_active_admins w.users)
    if is_admin u && (is_active u && leb admins 1) then pure (failure last_admin) else do
      on_users (Users.update (set_status inactive u))
      n ← end_sessions tgt
      log p admin deactivate_action tgt
      pure (success tgt)

  abbrev pub activate_for : Option UserId → UserId → Exec (World A B T) (Result UserId)
  activate_for none tgt = deny [] tgt
  activate_for (some admin) tgt = do
    found ← gets (λ w. Users.find_by_id tgt w.users)
    activate_found admin tgt found

  abbrev pub deactivate_for : Option UserId → UserId → Exec (World A B T) (Result UserId)
  deactivate_for none tgt = deny [] tgt
  deactivate_for (some admin) tgt = do
    found ← gets (λ w. Users.find_by_id tgt w.users)
    deactivate_found admin tgt found

  unfoldable pub activate : SessionId → UserId → Exec (World A B T) (Result UserId)
  unfolding activate_found
  activate token tgt = do admin ← admin_session token; activate_for admin tgt

  unfoldable pub deactivate : SessionId → UserId → Exec (World A B T) (Result UserId)
  unfolding deactivate_found
  deactivate token tgt = do admin ← admin_session token; deactivate_for admin tgt

  -- The overloads that are given the administrator's identifier. Their denial names no target.
  unfoldable pub activate_by_id : UserId → UserId → Exec (World A B T) (Result UserId)
  unfolding activate_found
  activate_by_id admin tgt = do
    trusted ← gets (λ w. is_admin_id admin w.users)
    found ← gets (λ w. Users.find_by_id tgt w.users)
    if not trusted then deny admin [] else activate_found admin tgt found

  unfoldable pub deactivate_by_id : UserId → UserId → Exec (World A B T) (Result UserId)
  unfolding deactivate_found
  deactivate_by_id admin tgt = do
    trusted ← gets (λ w. is_admin_id admin w.users)
    found ← gets (λ w. Users.find_by_id tgt w.users)
    if not trusted then deny admin [] else deactivate_found admin tgt found
