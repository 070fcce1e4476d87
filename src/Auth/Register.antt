-- ===== src/Auth/Register.antt =====
-- What a registration stores.
use secure_file_transfer.Base.{◌≤◌, ◌≡◌, refl, ap, ◌∙◌, arith, Bytes, length, none, some, returns}
use secure_file_transfer.Base.Dict.{get, get-put_self, emplace_fresh}
use secure_file_transfer.Domain.Records.{UserId, success, failure}
use secure_file_transfer.Domain.User.{User, make_user, active}
use secure_file_transfer.Domain.Ids.{octets}
use secure_file_transfer.Users
use secure_file_transfer.Users.{Users, added}
use secure_file_transfer.Users.Invariant.{IsConsistent, hash-fresh}
use secure_file_transfer.Users.Calls.{save-fresh, save-IsConsistent, find_by_username-exact}
use secure_file_transfer.World.{Platform, World}
use secure_file_transfer.Auth.{registration_failed, register_user}

get_encoded_hash-found :
    (id : UserId) (enc : Bytes) (r : Users)
    → get id r.hash_by_id ≡ some enc
    → Users.get_encoded_hash id r ≡ returns enc
unfolding Users.get_encoded_hash
get_encoded_hash-found id enc r e = ground arith

module _ {A B T : Type 0} (p : Platform A B T) where
  -- The user that a registration makes.
  abbrev pub registered_user : UserId → Bytes → Bytes → Bytes → User
  registered_user id u email role = record {
    id = id;
    username = u;
    email = email;
    role = role;
    status = active;
    failed_attempts = 0;
    lockout_until = 0;
  }

  -- A registration that is refused reads "Registration failed" whatever the reason, and leaves the
  -- users as they were.
  pub register-refusal :
      (u email pw role : Bytes) (w : World A B T) {m : Bytes}
      → (register_user p u email pw role w).0 ≡ returns (failure m)
      → (m ≡ registration_failed) × ((register_user p u email pw role w).1.users ≡ w.users)
  unfolding register_user make_user
  register-refusal u email pw role w e = ground arith

  -- The call of `save` behind a registration that succeeds.
  register-saves :
      (u email pw role : Bytes) (w : World A B T) {id : UserId}
      → (register_user p u email pw role w).0 ≡ returns (success id)
      → (enc : Bytes) × (p.hash_encoded pw (octets w.entropy.stream w.entropy.drawn 16)
          ≡ returns enc)
        × (Users.save (registered_user id u email role) enc w.users
            ≡ returns (register_user p u email pw role w).1.users)
        × (8 ≤ length pw)
  unfolding register_user make_user
  register-saves u email pw role w e = ground arith

  -- A registration that succeeds was of a new name and a password of at least eight bytes. Its user,
  -- active and with the given role, is found by the name afterwards, the hash that is stored for it
  -- is one of the password, and the repository stays consistent.
  pub register-success :
      (u email pw role : Bytes) (w : World A B T) {id : UserId}
      → IsConsistent w.users
      → (register_user p u email pw role w).0 ≡ returns (success id)
      → (enc : Bytes) × (p.hash_encoded pw (octets w.entropy.stream w.entropy.drawn 16)
          ≡ returns enc)
        × (Users.get_encoded_hash id (register_user p u email pw role w).1.users ≡ returns enc)
        × (8 ≤ length pw)
        × (get u w.users.username_to_id ≡ none)
        × IsConsistent (register_user p u email pw role w).1.users
        × (Users.find_by_username u (register_user p u email pw role w).1.users
            ≡ success (registered_user id u email role))
  register-success u email pw role w {id} c e =
      let (enc, hashed, saved, long) = register-saves u email pw role w e in
      let nu = registered_user id u email role in
      let (new_name, new_email, new_id, it) = save-fresh nu enc w.users saved in
      let kept = save-IsConsistent nu enc w.users c saved in
      let stored : get id (register_user p u email pw role w).1.users.users_by_id ≡ some nu =
        ap (λ (r : Users). get id r.users_by_id) it
        ∙ ap (get id) (emplace_fresh id nu w.users.users_by_id new_id)
        ∙ get-put_self id nu w.users.users_by_id in
      let no_hash = hash-fresh w.users id c new_id in
      let hash_kept : get id (register_user p u email pw role w).1.users.hash_by_id ≡ some enc =
        ap (λ (r : Users). get id r.hash_by_id) it
        ∙ ap (get id) (emplace_fresh id enc w.users.hash_by_id no_hash)
        ∙ get-put_self id enc w.users.hash_by_id in
      let hash_found =
        get_encoded_hash-found id enc (register_user p u email pw role w).1.users hash_kept in
      (
        enc,
        hashed,
        hash_found,
        long,
        new_name,
        kept,
        (find_by_username-exact (register_user p u email pw role w).1.users u nu kept).1
            (stored, refl),
      )
