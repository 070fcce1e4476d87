-- ===== src/Users/Invariant.antt =====
-- The four maps of the user repository agree, and every operation keeps that so.
use secure_file_transfer.Base.{
  ◌≡◌, refl, sym, ap, ◌∙◌, inl, inr, Bytes, str_eq-cases, none, some, Option-cases,
}
use secure_file_transfer.Base.Dict.{
  get, put, emplace, get-put_self, get-put_ne, put-cases, emplace-keeps, emplace-has, emplace-other,
}
use secure_file_transfer.Domain.Records.{UserId}
use secure_file_transfer.Domain.User.{User}
use secure_file_transfer.Users.{Users, no_users, replace}

-- A user is stored under its own id, its name and address lead to that id, and a hash is stored
-- for it.
pub record Indexed (r : Users) (id : UserId) (u : User) : Type 0 where
  pub own_id : u.id ≡ id
  pub by_name : get u.username r.username_to_id ≡ some id
  pub by_email : get u.email r.email_to_id ≡ some id
  pub hashed : (h : Bytes) × (get id r.hash_by_id ≡ some h)

pub record IsConsistent (r : Users) : Type 0 where
  pub stored : (id : UserId) (u : User) → get id r.users_by_id ≡ some u → Indexed r id u
  pub named :
      (name : Bytes) (id : UserId)
      → get name r.username_to_id ≡ some id
      → (u : User) × (get id r.users_by_id ≡ some u) × (u.username ≡ name)
  pub mailed :
      (email : Bytes) (id : UserId)
      → get email r.email_to_id ≡ some id
      → (u : User) × (get id r.users_by_id ≡ some u) × (u.email ≡ email)
  pub owned :
      (id : UserId) (h : Bytes)
      → get id r.hash_by_id ≡ some h
      → (u : User) × (get id r.users_by_id ≡ some u)

pub no_users-IsConsistent : IsConsistent no_users
unfolding get
no_users-IsConsistent = record {
  stored = λ id u e. cc;
  named = λ name id e. absurd (cc);
  mailed = λ email id e. absurd (cc);
  owned = λ id h e. absurd (cc);
}

-- A new value with the same id, name and address at an entry that is there.
pub replace-IsConsistent :
    (r : Users) (id : UserId) (old new : User)
    → IsConsistent r
    → get id r.users_by_id ≡ some old
    → new.id ≡ old.id
    → new.username ≡ old.username
    → new.email ≡ old.email
    → IsConsistent (replace id new r)
replace-IsConsistent r id old new c e same_id same_name same_email = record {
  stored = λ j u p. elim (put-cases id j new u r.users_by_id p) [
    | inl (same_key, same_user) ↦
        let was = c.stored id old e in
        rw (← same_key, ← same_user)
          (record {
            own_id = same_id ∙ was.own_id;
            by_name = rw same_name was.by_name;
            by_email = rw same_email was.by_email;
            hashed = was.hashed;
          })
    | inr (other, q) ↦
        let was = c.stored j u q in
        record {
          own_id = was.own_id;
          by_name = was.by_name;
          by_email = was.by_email;
          hashed = was.hashed;
        }
  ];
  named = λ name j p. elim (str_eq-cases id j) [
    | inl same ↦
        let (u, q, n) = c.named name j p in
        let it : some u ≡ some old = sym q ∙ rw (← same) e in
        let it' : u ≡ old = cc in
        (new, rw same (get-put_self j new r.users_by_id), same_name ∙ rw it' at n)
    | inr other ↦
        let (u, q, n) = c.named name j p in (u, get-put_ne id j new r.users_by_id other ∙ q, n)
  ];
  mailed = λ email j p. elim (str_eq-cases id j) [
    | inl same ↦
        let (u, q, n) = c.mailed email j p in
        let it : some u ≡ some old = sym q ∙ rw (← same) e in
        let it' : u ≡ old = cc in
        (new, rw same (get-put_self j new r.users_by_id), same_email ∙ rw it' at n)
    | inr other ↦
        let (u, q, n) = c.mailed email j p in (u, get-put_ne id j new r.users_by_id other ∙ q, n)
  ];
  owned = λ j h p. elim (str_eq-cases id j) [
    | inl same ↦ (new, rw same (get-put_self j new r.users_by_id))
    | inr other ↦ let (u, q) = c.owned j h p in (u, get-put_ne id j new r.users_by_id other ∙ q)
  ];
}

-- A new entry under a fresh id, with a fresh name and a fresh address.
pub insert-IsConsistent :
    (r : Users) (u : User) (hash : Bytes)
    → IsConsistent r
    → get u.id r.users_by_id ≡ none
    → get u.username r.username_to_id ≡ none
    → get u.email r.email_to_id ≡ none
    → IsConsistent (record {
      users_by_id = put u.id u r.users_by_id;
      username_to_id = put u.username u.id r.username_to_id;
      email_to_id = put u.email u.id r.email_to_id;
      hash_by_id = emplace u.id hash r.hash_by_id;
    })
insert-IsConsistent r u hash c new_id new_name new_email = record {
  stored = λ j v p. elim (put-cases u.id j u v r.users_by_id p) [
    | inl (same_key, same_user) ↦
        rw (← same_key, ← same_user)
          (record {
            own_id = refl;
            by_name = get-put_self u.username u.id r.username_to_id;
            by_email = get-put_self u.email u.id r.email_to_id;
            hashed = emplace-has u.id hash r.hash_by_id;
          })
    | inr (other, q) ↦
        let was = c.stored j v q in
        record {
          own_id = was.own_id;
          by_name =
              get-put_ne u.username v.username u.id r.username_to_id
                (λ s. cc (new_name, was.by_name, ap (λ n. get n r.username_to_id) s))
              ∙ was.by_name;
          by_email =
              get-put_ne u.email v.email u.id r.email_to_id
                (λ s. cc (new_email, was.by_email, ap (λ n. get n r.email_to_id) s))
              ∙ was.by_email;
          hashed = (was.hashed.0, emplace-keeps u.id j hash was.hashed.0 r.hash_by_id was.hashed.1);
        }
  ];
  named = λ name j p. elim (put-cases u.username name u.id j r.username_to_id p) [
    | inl (same_name, same_id) ↦ (u, rw (← same_id) (get-put_self u.id u r.users_by_id), same_name)
    | inr (other, q) ↦
        let (v, at, n) = c.named name j q in
        let fresh : ¬ (u.id ≡ j) = λ s. cc (new_id, rw (← s) at at) in
        (v, get-put_ne u.id j u r.users_by_id fresh ∙ at, n)
  ];
  mailed = λ email j p. elim (put-cases u.email email u.id j r.email_to_id p) [
    | inl (same_email, same_id) ↦
        (u, rw (← same_id) (get-put_self u.id u r.users_by_id), same_email)
    | inr (other, q) ↦
        let (v, at, n) = c.mailed email j q in
        let fresh : ¬ (u.id ≡ j) = λ s. cc (new_id, rw (← s) at at) in
        (v, get-put_ne u.id j u r.users_by_id fresh ∙ at, n)
  ];
  owned = λ j h p. elim (str_eq-cases u.id j) [
    | inl same ↦ (u, rw (← same) (get-put_self u.id u r.users_by_id))
    | inr other ↦
        let before : get j r.hash_by_id ≡ some h =
          emplace-other u.id j hash h r.hash_by_id other p in
        let (v, q) = c.owned j h before in (v, get-put_ne u.id j u r.users_by_id other ∙ q)
  ];
}

-- No hash is stored for an id that has no user.
pub hash-fresh :
    (r : Users) (id : UserId)
    → IsConsistent r
    → get id r.users_by_id ≡ none
    → get id r.hash_by_id ≡ none
hash-fresh r id c new = elim (Option-cases (get id r.hash_by_id)) [
  | inl gone ↦ gone
  | inr (h, there) ↦ let (u, q) = c.owned id h there in absurd (cc)
]
