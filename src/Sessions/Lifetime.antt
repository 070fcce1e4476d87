-- ===== src/Sessions/Lifetime.antt =====
-- When a session is valid: from its creation for one hour, until it is revoked.
use secure_file_transfer.Base.{
  ℕ, ◌+◌, ◌≡◌, refl, inl, inr, not, ◌&&◌, false, arith, Bytes, str_eq, ltb, leb, Option-cases,
  returns, [], ◌∷◌, count_if,
}
use secure_file_transfer.Base.Dict.{
  Dict, get, values, update_all, get-put_self, get-put_ne, get-update_all,
}
use secure_file_transfer.Domain.Records.{UserId, SessionId, Session, make_session, session_valid}
use secure_file_transfer.Sessions.{
  Sessions, session_ms, revoke, live_of, revoke_of, add_session, create_for_user, find_by_token,
  invalidate, is_valid, user_for, invalidate_all_for_user,
}

module _ (sha : Bytes → Bytes) where
  -- Creation succeeds at every time.
  abbrev pub fresh : SessionId → UserId → ℕ → Session
  fresh token uid now = record {
    id = token;
    user_id = uid;
    created_at = now;
    expires_at = now + session_ms;
    revoked = false;
  }

  pub create_for_user-returns :
      (token : SessionId) (uid : UserId) (now : ℕ) (r : Sessions)
      → create_for_user sha token uid now r
        ≡ returns (add_session (sha token) (fresh token uid now) r)
  unfolding create_for_user make_session
  create_for_user-returns token uid now r = ground arith

  pub is_valid-added :
      (token : SessionId) (s : Session) (now : ℕ) (r : Sessions)
      → is_valid sha token now (add_session (sha token) s r) ≡ session_valid s now
  unfolding is_valid add_session
  is_valid-added token s now r =
      rw (get-put_self (sha token) s r.by_hash, is_valid, find_by_token) refl

  pub added-session :
      (token : SessionId) (uid : UserId) (now later : ℕ) (r : Sessions)
      → (user_for sha token (add_session (sha token) (fresh token uid now) r) ≡ returns uid)
        × (is_valid sha token later (add_session (sha token) (fresh token uid now) r)
            ≡ (leb now later && ltb later (now + session_ms)))
  unfolding user_for add_session session_valid
  added-session token uid now later r = (
    rw (get-put_self (sha token) (fresh token uid now) r.by_hash, user_for, find_by_token) refl,
    is_valid-added token (fresh token uid now) later r,
  )

  -- A new session is always created, belongs to its user, and is valid exactly from its creation
  -- until an hour later.
  pub create_for_user-valid :
      (token : SessionId) (uid : UserId) (now later : ℕ) (r : Sessions)
      → (r' : Sessions) × (create_for_user sha token uid now r ≡ returns r')
        × (user_for sha token r' ≡ returns uid)
        × (is_valid sha token later r' ≡ (leb now later && ltb later (now + session_ms)))
  create_for_user-valid token uid now later r =
      let (owned, valid) = added-session token uid now later r in
      (
        add_session (sha token) (fresh token uid now) r,
        create_for_user-returns token uid now r,
        owned,
        valid,
      )

  -- Once invalidated, a token is valid at no time, whatever the store held for it.
  pub invalidate-invalid :
      (token : SessionId) (now : ℕ) (r : Sessions)
      → is_valid sha token now (invalidate sha token r).1 ≡ false
  unfolding is_valid invalidate session_valid find_by_token
  invalidate-invalid token now r = elim (Option-cases (get (sha token) r.by_hash)) [
    | inl gone ↦ ground arith
    | inr (s, there) ↦ ground (arith, get-put_self (sha token) (revoke s) r.by_hash)
  ]

  -- `invalidate` says whether the store holds a session for the token, and leaves every token with
  -- another hash as it was.
  pub invalidate-others :
      (token other : SessionId) (now : ℕ) (r : Sessions)
      → ¬ (sha token ≡ sha other)
      → is_valid sha other now (invalidate sha token r).1 ≡ is_valid sha other now r
  unfolding is_valid invalidate find_by_token
  invalidate-others token other now r ne = elim (Option-cases (get (sha token) r.by_hash)) [
    | inl gone ↦ ground arith
    | inr (s, there) ↦ ground (arith, get-put_ne (sha token) (sha other) (revoke s) r.by_hash ne)
  ]

  -- After all sessions of a user are invalidated, a token is valid exactly if it was valid before
  -- and belongs to another user.
  pub invalidate_all-exact :
      (u owner : UserId) (token : SessionId) (now : ℕ) (r : Sessions)
      → user_for sha token r ≡ returns owner
      → is_valid sha token now (invalidate_all_for_user u r).1
        ≡ (not (str_eq owner u) && is_valid sha token now r)
  unfolding is_valid invalidate_all_for_user user_for session_valid find_by_token
  invalidate_all-exact u owner token now r e =
      ground (arith, get-update_all (revoke_of u) (sha token) r.by_hash)

-- After one walk that revokes the sessions of a user, no unrevoked session of the user is left.
none_left :
    (u : UserId) (m : Dict Session) → count_if (live_of u) (values (update_all (revoke_of u) m)) ≡ 0
unfolding count_if values update_all
none_left u [] = refl
none_left u ((h, s) ∷ m) = ground (arith, none_left u m)

-- A second call for the same user finds no session left to invalidate.
pub invalidate_all-twice :
    (u : UserId) (r : Sessions) → (invalidate_all_for_user u (invalidate_all_for_user u r).1).0 ≡ 0
unfolding invalidate_all_for_user
invalidate_all-twice u r = none_left u r.by_hash
