-- ===== src/Users/Calls.antt =====
-- Every operation of the user repository keeps its four maps consistent.
use secure_file_transfer.Base.{
  ℕ, ◌≡◌, ◌↔◌, refl, subst, sym, ap, ◌∙◌, inl, inr, arith, Bytes, codes, str_eq_iff, str_eq-cases,
  Bool-cases, none, some, Option-cases, Outcome, returns, throws, Exception, not_found, List, [],
  ◌∷◌,
}
use secure_file_transfer.Base.Dict.{
  Dict, get, put, contains, get-put_self, get-put_ne, contains-none, contains-some, emplace_fresh,
}
use secure_file_transfer.Domain.Records.{UserId, success}
use secure_file_transfer.Domain.User.{User, set_lockout}
use secure_file_transfer.Users.Invariant.{
  IsConsistent, no_users-IsConsistent, replace-IsConsistent, insert-IsConsistent,
}
use secure_file_transfer.Users.{
  Users, no_users, find_by_id, find_by_username, added, save, replace, update, update_hash,
  failed_once, record_login_failure, set_login_failure, reset_login_failures,
}

-- A save that succeeds was of a new name, a new address and a new id.
pub save-fresh :
    (u : User) (hash : Bytes) (r : Users) {r' : Users}
    → save u hash r ≡ returns r'
    → (get u.username r.username_to_id ≡ none)
      × (get u.email r.email_to_id ≡ none)
      × (get u.id r.users_by_id ≡ none)
      × (r' ≡ added u hash r)
unfolding save
save-fresh u hash r e = ground (
  arith,
  contains-none u.username r.username_to_id,
  contains-none u.email r.email_to_id,
  contains-none u.id r.users_by_id,
)

-- `save` keeps the repository consistent whenever it succeeds.
pub save-IsConsistent :
    (u : User) (hash : Bytes) (r : Users) {r' : Users}
    → IsConsistent r
    → save u hash r ≡ returns r'
    → IsConsistent r'
save-IsConsistent u hash r c e =
    let (new_name, new_email, new_id, it) = save-fresh u hash r e in
    rw
      (
        it,
        emplace_fresh u.id u r.users_by_id new_id,
        emplace_fresh u.username u.id r.username_to_id new_name,
        emplace_fresh u.email u.id r.email_to_id new_email,
      )
      (insert-IsConsistent r u hash c new_id new_name new_email)

-- What a successful `update` was given, and what it stored.
update-inversion :
    (u : User) (r : Users) {r' : Users}
    → update u r ≡ returns r'
    → (old : User) × (get u.id r.users_by_id ≡ some old)
      × (u.username ≡ old.username)
      × (u.email ≡ old.email)
      × (r' ≡ replace u.id u r)
unfolding update
update-inversion u r {r'} e = elim (Option-cases (get u.id r.users_by_id)) [
  | inl missing ↦ absurd (cc (rw (missing, update) at e))
  | inr (old, there) ↦
      let stored = rw (there, update) at e in
      (
        old,
        there,
        ground (arith, str_eq_iff old.username u.username),
        ground (arith, str_eq_iff old.email u.email),
        ground arith,
      )
]

-- An operation on the entry of an id that keeps the id, the name and the address of its user.
module _ (f : User → User)
    (keep : (u : User)
      → ((f u).id ≡ u.id) × ((f u).username ≡ u.username) × ((f u).email ≡ u.email)) where
  abbrev modified : Exception → UserId → Users → Outcome Users
  modified missing id r = elim (get id r.users_by_id) [
    | none ↦ throws missing
    | some u ↦ returns (replace id (f u) r)
  ]

  modified-IsConsistent :
      (missing : Exception) (id : UserId) (r : Users) {r' : Users}
      → IsConsistent r
      → modified missing id r ≡ returns r'
      → IsConsistent r'
  modified-IsConsistent missing id r {r'} c e = elim (Option-cases (get id r.users_by_id)) [
    | inl gone ↦ absurd (cc (rw (gone, modified) at e))
    | inr (old, there) ↦
        let stored : returns (replace id (f old) r) ≡ returns r' = rw (there, modified) at e in
        let it : replace id (f old) r ≡ r' = cc in
        let (same_id, same_name, same_email) = keep old in
        rw (← it) (replace-IsConsistent r id old (f old) c there same_id same_name same_email)
  ]

update_hash-IsConsistent :
    (id : UserId) (h : Bytes) (r : Users) {r' : Users}
    → IsConsistent r
    → update_hash id h r ≡ returns r'
    → IsConsistent r'
unfolding update_hash
update_hash-IsConsistent id h r {r'} c e = elim (Bool-cases (contains id r.users_by_id)) [
  | inl there ↦
      let stored : returns (record r { hash_by_id = put id h r.hash_by_id }) ≡ returns r' =
        rw there at e in
      let it : record r { hash_by_id = put id h r.hash_by_id } ≡ r' = cc in
      rw (← it) (record {
        stored = λ j u p.
            let was = c.stored j u p in
            record {
              own_id = was.own_id;
              by_name = was.by_name;
              by_email = was.by_email;
              hashed = put-has id j h r.hash_by_id was.hashed;
            };
        named = c.named;
        mailed = c.mailed;
        owned = λ j k p. elim (str_eq-cases id j) [
          | inl same ↦
              let (v, known) = contains-some id r.users_by_id there in (v, rw (← same) known)
          | inr other ↦ c.owned j k (sym (get-put_ne id j h r.hash_by_id other) ∙ p)
        ];
      })
  | inr gone ↦ absurd (cc (rw gone at e))
]
  where
    put-has :
        (k j : Bytes) (v : Bytes) (m : Dict Bytes)
        → (w : Bytes) × (get j m ≡ some w)
        → (w : Bytes) × (get j (put k v m) ≡ some w)
    put-has k j v m (w, there) = elim (str_eq-cases k j) [
      | inl same ↦ (v, rw same (get-put_self j v m))
      | inr other ↦ (w, get-put_ne k j v m other ∙ there)
    ]

-- The calls that change the repository.
pub data UserCall : Type 0 where
  saves : User → Bytes → UserCall
  updates : User → UserCall
  updates_hash : UserId → Bytes → UserCall
  records_failure : UserId → ℕ → UserCall
  sets_failure : UserId → ℕ → ℕ → UserCall
  resets_failures : UserId → UserCall

unfoldable pub call : UserCall → Users → Outcome Users
call (saves u h) = save u h
call (updates u) = update u
call (updates_hash id h) = update_hash id h
call (records_failure id now) = record_login_failure id now
call (sets_failure id f until) = set_login_failure id f until
call (resets_failures id) = reset_login_failures id

-- A call that throws has changed nothing.
abbrev pub settled : Users → Outcome Users → Users
settled r (returns r') = r'
settled r (throws e) = r

unfoldable pub calls : List UserCall → Users → Users
unfolding call
calls [] r = r
calls (c ∷ cs) r = calls cs (settled r (call c r))

pub call-IsConsistent :
    (k : UserCall) (r : Users) {r' : Users}
    → IsConsistent r
    → call k r ≡ returns r'
    → IsConsistent r'
unfolding call record_login_failure set_login_failure reset_login_failures
call-IsConsistent (saves u h) r c e = save-IsConsistent u h r c e
call-IsConsistent (updates u) r c e =
    let (old, there, same_name, same_email, it) = update-inversion u r e in
    rw it (
      replace-IsConsistent r u.id old u c there (sym (c.stored u.id old there).own_id) same_name
        same_email)
call-IsConsistent (updates_hash id h) r c e = update_hash-IsConsistent id h r c e
call-IsConsistent (records_failure id now) r c e =
    modified-IsConsistent (failed_once now) (λ u. (refl, refl, refl))
      (not_found (codes "not found")) id r c e
call-IsConsistent (sets_failure id f until) r c e =
    modified-IsConsistent (set_lockout until f) (λ u. (refl, refl, refl))
      (not_found (codes "not found")) id r c e
call-IsConsistent (resets_failures id) r c e =
    modified-IsConsistent (set_lockout 0 0) (λ u. (refl, refl, refl))
      (not_found (codes "not found")) id r c e

settled-IsConsistent :
    (r : Users) (o : Outcome Users)
    → IsConsistent r
    → ((r' : Users) → o ≡ returns r' → IsConsistent r')
    → IsConsistent (settled r o)
settled-IsConsistent r (returns r') c h = h r' refl
settled-IsConsistent r (throws e) c h = c

calls_from-IsConsistent :
    (cs : List UserCall) (r : Users) → IsConsistent r → IsConsistent (calls cs r)
unfolding calls
calls_from-IsConsistent [] r c = c
calls_from-IsConsistent (k ∷ cs) r c =
    calls_from-IsConsistent cs (settled r (call k r))
      (settled-IsConsistent r (call k r) c (λ r' e. call-IsConsistent k r c e))

-- Whatever calls are made on an empty repository, failing or not, its four maps agree: each user is
-- stored under its own id with a hash, its name and its address lead to it, and every name and
-- address that is known leads to a user who has it.
pub calls-IsConsistent : (cs : List UserCall) → IsConsistent (calls cs no_users)
calls-IsConsistent cs = calls_from-IsConsistent cs no_users no_users-IsConsistent

-- In a consistent repository a name finds exactly the user who has it: the user that is stored under
-- some id with that name.
pub find_by_username-exact :
    (r : Users) (name : Bytes) (u : User)
    → IsConsistent r
    → (find_by_username name r ≡ success u)
      ↔ ((get u.id r.users_by_id ≡ some u) × (u.username ≡ name))
unfolding find_by_username find_by_id
find_by_username-exact r name u c = (there, back)
  where
    there :
        find_by_username name r ≡ success u
        → (get u.id r.users_by_id ≡ some u) × (u.username ≡ name)
    there e = elim (Option-cases (get name r.username_to_id)) [
      | inl gone ↦ absurd (cc (rw (gone, find_by_username) at e))
      | inr (id, known) ↦
          let (v, stored, named) = c.named name id known in
          let found : success v ≡ success u = rw (known, find_by_username, stored) at e in
          let same : v ≡ u = cc in
          let own : v.id ≡ id = (c.stored id v stored).own_id in
          subst (λ (x : User). (get x.id r.users_by_id ≡ some x) × (x.username ≡ name)) same
            (ap (λ k. get k r.users_by_id) own ∙ stored, named)
    ]

    back :
        (get u.id r.users_by_id ≡ some u) × (u.username ≡ name)
        → find_by_username name r ≡ success u
    back (stored, named) =
        let known : get name r.username_to_id ≡ some u.id =
          rw (← named) (c.stored u.id u stored).by_name in
        rw (known, find_by_username, stored) refl

-- A name still finds its user after a new value is stored under the user's id.
pub find_by_username-replaced :
    (r : Users) (name : Bytes) (old new : User)
    → IsConsistent r
    → find_by_username name r ≡ success old
    → find_by_username name (replace old.id new r) ≡ success new
unfolding find_by_username find_by_id
find_by_username-replaced r name old new c found =
    let (stored, named) = (find_by_username-exact r name old c).0 found in
    let known : get name r.username_to_id ≡ some old.id =
      ap (λ n. get n r.username_to_id) (sym named) ∙ (c.stored old.id old stored).by_name in
    ground (arith, known, get-put_self old.id new r.users_by_id)

-- The failure of a login is recorded for the user that a name finds.
pub record_login_failure-found :
    (r : Users) (name : Bytes) (user : User) (now : ℕ)
    → IsConsistent r
    → find_by_username name r ≡ success user
    → record_login_failure user.id now r ≡ returns (replace user.id (failed_once now user) r)
unfolding record_login_failure
record_login_failure-found r name user now c found =
    let (stored, named) = (find_by_username-exact r name user c).0 found in
    rw (stored, record_login_failure) refl
