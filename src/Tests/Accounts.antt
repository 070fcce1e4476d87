-- ===== src/Tests/Accounts.antt =====
-- Accounts, sessions and administrators on the example server.
use secure_file_transfer.Base.{
  ◌+◌, ◌≤◌, ◌≡◌, refl, sym, subst, not, ◌&&◌, true, arith, Bytes, codes, length, str_eq, is_empty,
  count_if, leb, ltb, none, returns,
}
use secure_file_transfer.Base.Dict.{get, put, emplace, contains, values}
use secure_file_transfer.Domain.Records.{success, make_session, session_valid}
use secure_file_transfer.Domain.User.{User, make_user, is_admin, is_active, can_login, user_role}
use secure_file_transfer.Domain.Ids.{octets, hex_bytes, generate_session_id, generate_user_id}
use secure_file_transfer.Users
use secure_file_transfer.Users.{Users, find_by_username, no_users}
use secure_file_transfer.Users.Calls.{calls, calls-IsConsistent}
use secure_file_transfer.Users.Invariant.{IsConsistent}
use secure_file_transfer.Sessions
use secure_file_transfer.World.{World, next_reading}
use secure_file_transfer.Auth.{login, hash, register_user}
use secure_file_transfer.Auth.Login.{login-grant, login-session}
use secure_file_transfer.Auth.Lockout.{WrongPassword, login-lockout}
use secure_file_transfer.Auth.Register.{register-success, registered_user}
use secure_file_transfer.Admin.{
  active_admin, admin_session, is_admin_id, activate, deactivate, count_active_admins,
}
use secure_file_transfer.Admin.Access.{Refused, AdminToken, unauthorized-Refused}
use secure_file_transfer.Admin.LastAdmin.{deactivate-ends_sessions}
use secure_file_transfer.Tests.Setup.{
  AuditLog, BlobStore, TransferList, platform, machine, users, saved_users, sessions, bob,
}

users-IsConsistent : IsConsistent users
users-IsConsistent = calls-IsConsistent saved_users

calls-IsConsistent_example : IsConsistent (calls saved_users no_users)
calls-IsConsistent_example = calls-IsConsistent saved_users

abbrev bob_token : Bytes
bob_token = (generate_session_id machine.entropy).0

bob_admitted : (login platform (codes "bob") (codes "b") machine).0 ≡ returns (success bob_token)
unfolding login hash register_user activate deactivate is_admin_id count_active_admins
    Users.find_by_id Users.find_by_username Users.save Users.update Users.record_login_failure
    Users.reset_login_failures Users.get_encoded_hash Users.list_all Sessions.create_for_user
    Sessions.find_by_token Sessions.is_valid Sessions.user_for Sessions.invalidate_all_for_user
    calls get put emplace contains values str_eq is_empty count_if make_user make_session can_login
    is_admin is_active session_valid octets hex_bytes generate_user_id generate_session_id
    Users.find_by_email admin_session
bob_admitted = refl

login-grant_example :
    (user : User) × (enc : Bytes) × (Users.find_by_username (codes "bob") machine.users
      ≡ success user)
    × (can_login user (next_reading machine) ≡ true)
    × (Users.get_encoded_hash user.id machine.users ≡ returns enc)
    × (platform.verify_encoded enc (codes "b") ≡ true)
login-grant_example = login-grant platform (codes "bob") (codes "b") machine bob_admitted

login-session_example :
    (user : User) × (Users.find_by_username (codes "bob") machine.users ≡ success user)
    × (Sessions.user_for platform.sha256_hex bob_token
          (login platform (codes "bob") (codes "b") machine).1.sessions
        ≡ returns user.id)
    × (Sessions.is_valid platform.sha256_hex bob_token 50
          (login platform (codes "bob") (codes "b") machine).1.sessions
        ≡ (leb (next_reading machine) 50 && ltb 50 (next_reading machine + Sessions.session_ms)))
login-session_example = login-session platform (codes "bob") (codes "b") machine 50 bob_admitted

bob_wrong : WrongPassword platform (codes "bob") (codes "x") machine bob
unfolding login hash register_user activate deactivate is_admin_id count_active_admins
    Users.find_by_id Users.find_by_username Users.save Users.update Users.record_login_failure
    Users.reset_login_failures Users.get_encoded_hash Users.list_all Sessions.create_for_user
    Sessions.find_by_token Sessions.is_valid Sessions.user_for Sessions.invalidate_all_for_user
    calls get put emplace contains values str_eq is_empty count_if make_user make_session can_login
    is_admin is_active session_valid octets hex_bytes generate_user_id generate_session_id
    Users.find_by_email admin_session
bob_wrong = record {
  consistent = calls-IsConsistent saved_users;
  found = refl;
  could = refl;
  enc = codes "b";
  stored = refl;
  wrong = refl;
}

-- The machine after the fifth wrong password, half a minute later.
abbrev locked : World AuditLog BlobStore TransferList
locked = record (login platform (codes "bob") (codes "x") machine).1 {
  clock = record { readings = λ n. 30010; reads = 0 };
}

login-lockout_example :
    ¬ ((login platform (codes "bob") (codes "b") locked).0 ≡ returns (success bob_token))
login-lockout_example =
    login-lockout platform (codes "bob") (codes "x") (codes "b") machine locked bob bob_token
      bob_wrong (omega arith) refl (omega arith)

abbrev eve_id : Bytes
eve_id = (generate_user_id (record machine.entropy { drawn = 16 })).0

eve_registered :
    (register_user platform (codes "eve") (codes "e@x") (codes "longenough") user_role machine).0
    ≡ returns (success eve_id)
unfolding login hash register_user activate deactivate is_admin_id count_active_admins
    Users.find_by_id Users.find_by_username Users.save Users.update Users.record_login_failure
    Users.reset_login_failures Users.get_encoded_hash Users.list_all Sessions.create_for_user
    Sessions.find_by_token Sessions.is_valid Sessions.user_for Sessions.invalidate_all_for_user
    calls get put emplace contains values str_eq is_empty count_if make_user make_session can_login
    is_admin is_active session_valid octets hex_bytes generate_user_id generate_session_id
    Users.find_by_email admin_session
eve_registered = refl

register-success_example :
    (enc : Bytes) × (platform.hash_encoded
        (codes "longenough")
        (octets machine.entropy.stream machine.entropy.drawn 16)
      ≡ returns enc)
    × (Users.get_encoded_hash eve_id
          (register_user platform
            (codes "eve")
            (codes "e@x")
            (codes "longenough")
            user_role
            machine).1.users
        ≡ returns enc)
    × (8 ≤ length (codes "longenough"))
    × (get (codes "eve") machine.users.username_to_id ≡ none)
    × IsConsistent
        (register_user platform
          (codes "eve")
          (codes "e@x")
          (codes "longenough")
          user_role
          machine).1.users
    × (Users.find_by_username
          (codes "eve")
          (register_user platform
            (codes "eve")
            (codes "e@x")
            (codes "longenough")
            user_role
            machine).1.users
        ≡ success (registered_user platform eve_id (codes "eve") (codes "e@x") user_role))
register-success_example =
    register-success platform (codes "eve") (codes "e@x") (codes "longenough") user_role machine
      (calls-IsConsistent saved_users) eve_registered

token_owner : Sessions.user_for (λ s. s) (codes "t2") sessions ≡ returns (codes "u2")
unfolding login hash register_user activate deactivate is_admin_id count_active_admins
    Users.find_by_id Users.find_by_username Users.save Users.update Users.record_login_failure
    Users.reset_login_failures Users.get_encoded_hash Users.list_all Sessions.create_for_user
    Sessions.find_by_token Sessions.is_valid Sessions.user_for Sessions.invalidate_all_for_user
    calls get put emplace contains values str_eq is_empty count_if make_user make_session can_login
    is_admin is_active session_valid octets hex_bytes generate_user_id generate_session_id
    Users.find_by_email admin_session
token_owner = refl

pub one_admin : 1 ≤ count_active_admins machine.users
unfolding login hash register_user activate deactivate is_admin_id count_active_admins
    Users.find_by_id Users.find_by_username Users.save Users.update Users.record_login_failure
    Users.reset_login_failures Users.get_encoded_hash Users.list_all Sessions.create_for_user
    Sessions.find_by_token Sessions.is_valid Sessions.user_for Sessions.invalidate_all_for_user
    calls get put emplace contains values str_eq is_empty count_if make_user make_session can_login
    is_admin is_active session_valid octets hex_bytes generate_user_id generate_session_id
    Users.find_by_email admin_session
one_admin = omega arith

bob_deactivated :
    (deactivate platform (codes "t1") (codes "u2") machine).0 ≡ returns (success (codes "u2"))
unfolding login hash register_user activate deactivate is_admin_id count_active_admins
    Users.find_by_id Users.find_by_username Users.save Users.update Users.record_login_failure
    Users.reset_login_failures Users.get_encoded_hash Users.list_all Sessions.create_for_user
    Sessions.find_by_token Sessions.is_valid Sessions.user_for Sessions.invalidate_all_for_user
    calls get put emplace contains values str_eq is_empty count_if make_user make_session can_login
    is_admin is_active session_valid octets hex_bytes generate_user_id generate_session_id
    Users.find_by_email admin_session
bob_deactivated = refl

deactivate-ends_sessions_example :
    Sessions.is_valid platform.sha256_hex
      (codes "t2")
      10
      (deactivate platform (codes "t1") (codes "u2") machine).1.sessions
    ≡ (not (str_eq (codes "u2") (codes "u2"))
        && Sessions.is_valid platform.sha256_hex (codes "t2") 10 machine.sessions)
deactivate-ends_sessions_example =
    deactivate-ends_sessions platform (codes "t1") (codes "t2") (codes "u2") (codes "u2")
      (codes "u2") 10 machine bob_deactivated token_owner

bob_no_admin : ¬ AdminToken platform machine (codes "t2")
unfolding login hash register_user activate deactivate is_admin_id count_active_admins
    Users.find_by_id Users.find_by_username Users.save Users.update Users.record_login_failure
    Users.reset_login_failures Users.get_encoded_hash Users.list_all Sessions.create_for_user
    Sessions.find_by_token Sessions.is_valid Sessions.user_for Sessions.invalidate_all_for_user
    calls get put emplace contains values str_eq is_empty count_if make_user make_session can_login
    is_admin is_active session_valid octets hex_bytes generate_user_id generate_session_id
    Users.find_by_email admin_session
bob_no_admin (id, admin, owner, found, may, valid) =
    let same : codes "u2" ≡ id = cc in
    let them : Users.find_by_id (codes "u2") machine.users ≡ success admin =
      subst (λ k. Users.find_by_id k machine.users ≡ success admin) (sym same) found in
    let it : admin ≡ bob = cc in
    let wrong : active_admin bob ≡ true = subst (λ u. active_admin u ≡ true) it may in cc

unauthorized-Refused_example :
    Refused platform machine (activate platform (codes "t2") (codes "u3") machine)
    × Refused platform machine (deactivate platform (codes "t2") (codes "u3") machine)
unauthorized-Refused_example =
    unauthorized-Refused platform (codes "t2") (codes "u3") machine bob_no_admin
