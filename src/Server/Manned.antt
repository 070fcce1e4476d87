-- ===== src/Server/Manned.antt =====
-- The server keeps an active administrator, whatever frames come over whatever connections.
use secure_file_transfer.Base.{
  ◌≡◌, sym, subst, arith, Bytes, [], ◌∷◌, List, inl, inr, Bool-cases, not, ◌&&◌, is_empty, str_eq,
  ◌==◌, Exec, Outcome, returns, throws, Option, some, none, ◌||◌, if◌then◌else◌,
}
use secure_file_transfer.Base.Dict.{get}
use secure_file_transfer.Base.Steady.{
  Steady, Steady-lift, Steady-pure, Steady-gets, Steady-bind, Steady-if, Steady-catch,
}
use secure_file_transfer.Domain.Records.{
  UserId, SessionId, FileId, Transfer, Result, success, failure,
}
use secure_file_transfer.Domain.User.{user_role}
use secure_file_transfer.Wire.Frame.{
  MsgType, Frame, auth_msg, register_msg, logout_msg, upload_init, upload_data, upload_commit,
  download_req, download_data, list_msg, err_msg, admin_activate,
}
use secure_file_transfer.Protocol.{
  UploadInit, decode_register, decode_login, decode_admin, decode_download_req,
}
use secure_file_transfer.World.{Platform, World}
use secure_file_transfer.Admin.Manned.{Manned}
use secure_file_transfer.Transfers.{Upload, upload, download}
use secure_file_transfer.Server.{
  Live, Link, new_conn, commit_id, reply, on_world, set_token, or_err,
}
use secure_file_transfer.Server.Handlers.{
  handle, on_register, on_auth, on_logout, on_admin, on_upload_init, on_upload_data,
  on_upload_commit, on_download_req, registered, authenticated, administered, downloaded,
  is_admin_type, commit_found, committed, drop_pending, session_live, upload_of, go_on, serve,
  connection, accept_all,
}
use secure_file_transfer.Server.Services.{
  HasAdmin, register_user-Steady, login-Steady, logout-Steady, activate-Steady, deactivate-Steady,
}
use secure_file_transfer.Server.Steadiness.{upload-users, download-users}

module _ {A B T : Type 0} (p : Platform A B T) where
  abbrev IsManned : Live A B T → Type 0
  IsManned s = Manned s.world.users

  reply-Steady : (t : MsgType) (f : Frame) (b : Bytes) → Steady IsManned (reply t f b)
  unfolding Steady reply
  reply-Steady t f b s h = elim (Bool-cases (s.link.breaks s.link.writes)) [
    | inl broken ↦ rw broken h
    | inr up ↦ rw up h
  ]

  set_token-Steady : (t : Bytes) → Steady IsManned (set_token t)
  unfolding Steady
  set_token-Steady t s h = h

  on_world-Steady :
      {X : Type 0} (m : Exec (World A B T) X) → Steady (HasAdmin p) m → Steady IsManned (on_world m)
  unfolding Steady
  on_world-Steady m k s h = k s.world h

  or_err-Steady :
      (f : Frame) (m : Exec (Live A B T) (Unit {0}))
      → Steady IsManned m
      → Steady IsManned (or_err f m)
  or_err-Steady f m k = Steady-catch IsManned m _ k (λ e. reply-Steady err_msg f [])

  on_register-Steady : (f : Frame) → Steady IsManned (on_register p f)
  unfolding on_register
  on_register-Steady f = or_err-Steady f _ (
      Steady-bind IsManned _ _ (Steady-lift IsManned (decode_register f.body)) (λ pl.
        Steady-bind IsManned _ _
          (on_world-Steady _ (register_user-Steady p pl.username pl.email pl.password user_role))
          (λ res. reply-Steady register_msg f (registered p pl.username res))))

  authenticated-Steady :
      (f : Frame) (name : Bytes) (o : Result SessionId) → Steady IsManned (authenticated p f name o)
  authenticated-Steady f name (success token) =
      Steady-bind IsManned _ _ (set_token-Steady token) (λ done. reply-Steady auth_msg f token)
  authenticated-Steady f name (failure e) = reply-Steady err_msg f _

  on_auth-Steady : (f : Frame) → Steady IsManned (on_auth p f)
  unfolding on_auth
  on_auth-Steady f = or_err-Steady f _ (
      Steady-bind IsManned _ _ (Steady-lift IsManned (decode_login f.body)) (λ pl.
        Steady-bind IsManned _ _ (on_world-Steady _ (login-Steady p pl.username pl.password))
          (λ res. authenticated-Steady f pl.username res)))

  on_logout-Steady : (f : Frame) → Steady IsManned (on_logout p f)
  unfolding on_logout
  on_logout-Steady f =
      Steady-bind IsManned _ _ (on_world-Steady _ (logout-Steady p f.body)) (λ done.
        Steady-bind IsManned _ _ (reply-Steady _ f _) (λ sent.
          Steady-bind IsManned _ _ (Steady-gets IsManned (λ s. s.conn.conn_token)) (λ token.
            Steady-if IsManned (done && str_eq token f.body) _ _ (set_token-Steady [])
              (Steady-pure IsManned tt))))

  administered-Steady :
      (f : Frame) (target : Bytes) (o : Result UserId) → Steady IsManned (administered p f target o)
  administered-Steady f target (success id) = reply-Steady f.type f _
  administered-Steady f target (failure e) = reply-Steady err_msg f _

  on_admin-Steady : (f : Frame) → Steady IsManned (on_admin p f)
  unfolding on_admin
  on_admin-Steady f = or_err-Steady f _ (
      Steady-bind IsManned _ _ (Steady-lift IsManned (decode_admin f.body)) (λ pl.
        Steady-bind IsManned _ _
          (on_world-Steady _ (
            Steady-if (HasAdmin p) (f.type == admin_activate) _ _
              (activate-Steady p pl.token pl.target_id)
              (deactivate-Steady p pl.token pl.target_id)))
          (λ res. administered-Steady f pl.target_id res)))

  users-Steady :
      {X : Type 0} (m : Exec (Live A B T) X)
      → ((s : Live A B T) → (m s).1.world.users ≡ s.world.users)
      → Steady IsManned m
  unfolding Steady
  users-Steady m same s h = subst Manned (sym (same s)) h

  on_upload_init-users :
      (f : Frame) (s : Live A B T) → (on_upload_init p f s).1.world.users ≡ s.world.users
  unfolding on_upload_init reply
  on_upload_init-users f s = ground arith

  on_upload_data-users :
      (f : Frame) (s : Live A B T) → (on_upload_data p f s).1.world.users ≡ s.world.users
  unfolding on_upload_data reply
  on_upload_data-users f s = ground arith

  upload-Steady : (token : SessionId) (up : Upload) → Steady (HasAdmin p) (upload p token up)
  unfolding Steady
  upload-Steady token up w h = subst Manned (sym (upload-users p token up w)) h

  download-Steady : (token : SessionId) (fid : FileId) → Steady (HasAdmin p) (download p token fid)
  unfolding Steady
  download-Steady token fid w h = subst Manned (sym (download-users p token fid w)) h

  session_live-Steady : (token : Bytes) → Steady IsManned (session_live p token)
  unfolding Steady
  session_live-Steady token s h = h

  drop_pending-Steady : (id : Bytes) → Steady IsManned (drop_pending p id)
  unfolding Steady
  drop_pending-Steady id s h = h

  committed-Steady :
      (f : Frame) (id : Bytes) (o : Result Transfer) → Steady IsManned (committed p f id o)
  committed-Steady f id (success t) =
      Steady-bind IsManned _ _ (reply-Steady upload_commit f t.id) (λ sent. drop_pending-Steady id)
  committed-Steady f id (failure e) = reply-Steady err_msg f e

  commit_found-Steady :
      (f : Frame) (id : Bytes) (i : Option UploadInit) (d : Option Bytes)
      → Steady IsManned (commit_found p f id i d)
  commit_found-Steady f id none d = reply-Steady err_msg f []
  commit_found-Steady f id (some init) none = reply-Steady err_msg f []
  commit_found-Steady f id (some init) (some bytes) =
      Steady-bind IsManned _ _ (Steady-gets IsManned (λ s. s.conn.conn_token)) (λ token.
        Steady-if IsManned (is_empty token) _ _ (reply-Steady err_msg f []) (
          Steady-bind IsManned _ _ (session_live-Steady token) (λ valid.
            Steady-if IsManned (not valid) _ _ (reply-Steady err_msg f []) (
              Steady-bind IsManned _ _
                (on_world-Steady _ (upload-Steady token (upload_of init bytes)))
                (λ res. committed-Steady f id res)))))

  on_upload_commit-Steady : (f : Frame) → Steady IsManned (on_upload_commit p f)
  unfolding on_upload_commit
  on_upload_commit-Steady f = or_err-Steady f _ (
      Steady-bind IsManned _ _ (Steady-gets IsManned (λ s. commit_id f.body s.conn.pending_init))
        (λ id.
          Steady-bind IsManned _ _ (Steady-gets IsManned (λ s. get id s.conn.pending_init)) (λ init.
            Steady-bind IsManned _ _ (Steady-gets IsManned (λ s. get id s.conn.pending_data))
              (λ bytes. commit_found-Steady f id init bytes))))

  downloaded-Steady : (f : Frame) (o : Result Bytes) → Steady IsManned (downloaded p f o)
  downloaded-Steady f (success opaque) = reply-Steady download_data f opaque
  downloaded-Steady f (failure e) = reply-Steady err_msg f e

  on_download_req-Steady : (f : Frame) → Steady IsManned (on_download_req p f)
  unfolding on_download_req
  on_download_req-Steady f = or_err-Steady f _ (
      Steady-bind IsManned _ _ (Steady-lift IsManned (decode_download_req f.body)) (λ req.
        Steady-bind IsManned _ _ (Steady-gets IsManned (λ s. s.conn.conn_token)) (λ own.
          Steady-bind IsManned _ _
            (on_world-Steady _
              (download-Steady (if is_empty req.token then own else req.token) req.file_id))
            (λ res. downloaded-Steady f res))))

  pub handle-Steady : (f : Frame) → Steady IsManned (handle p f)
  unfolding handle
  handle-Steady f = Steady-if IsManned (f.type == register_msg) _ _ (on_register-Steady f) (
      Steady-if IsManned (f.type == auth_msg) _ _ (on_auth-Steady f) (
        Steady-if IsManned (f.type == logout_msg) _ _ (on_logout-Steady f) (
          Steady-if IsManned (is_admin_type f.type) _ _ (on_admin-Steady f) (
            Steady-if IsManned (f.type == upload_init) _ _ (users-Steady _ (on_upload_init-users f))
              (Steady-if IsManned (f.type == upload_data) _ _
                (users-Steady _ (on_upload_data-users f))
                (Steady-if IsManned (f.type == upload_commit) _ _ (on_upload_commit-Steady f) (
                  Steady-if IsManned (f.type == download_req) _ _ (on_download_req-Steady f) (
                    Steady-if IsManned (f.type == list_msg || f.type == download_data) _ _
                      (reply-Steady list_msg f []) (reply-Steady err_msg f [])))))))))

  go_on-Manned :
      (r : Outcome (Unit {0})) (next : Live A B T → Live A B T) (s : Live A B T)
      → ((s' : Live A B T) → IsManned s' → IsManned (next s'))
      → IsManned s
      → IsManned (go_on p r next s)
  go_on-Manned (returns done) next s k h = k s h
  go_on-Manned (throws e) next s k h = h

  serve-Manned : (fs : List Frame) (s : Live A B T) → IsManned s → IsManned (serve p fs s)
  unfolding serve Steady
  serve-Manned [] s h = h
  serve-Manned (f ∷ fs) s h =
      go_on-Manned (handle p f s).0 (serve p fs) (handle p f s).1 (serve-Manned fs)
        (handle-Steady f s h)

  -- Over the repositories in memory, which take the place of those over SQLite that the server is
  -- built with and whose calls do not fail: from consistent users with an active administrator,
  -- whatever frames come over whatever connections one after another, and whichever writes to the
  -- sockets and calls of the audit log, the blob store, the list of transfers and the hashing of
  -- passwords fail, the users are consistent and an active administrator is left.
  pub accept_all-Manned :
      (cs : List (Link × List Frame)) (w : World A B T)
      → Manned w.users
      → Manned (accept_all p cs w).users
  unfolding accept_all
  accept_all-Manned [] w h = h
  accept_all-Manned ((link, fs) ∷ cs) w h =
      accept_all-Manned cs (connection p link fs w).world
        (serve-Manned fs (record { world = w; conn = new_conn; link = link }) h)
