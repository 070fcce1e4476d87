-- ===== src/Server/Handlers.antt =====
-- src/presentation/server_app.cpp: the branch of the receive loop for each type of frame.
use secure_file_transfer.Base.{
  Bool, not, ◌&&◌, ◌||◌, List, [], ◌∷◌, ◌++◌, Bytes, codes, is_empty, str_eq, length, ◌==◌,
  if◌then◌else◌, Option, none, some, Exec, pure, lift, gets, ◌>>=◌, ◌>>◌, Outcome, returns, throws,
  what,
}
use secure_file_transfer.Base.Dict.{get, put, erase}
use secure_file_transfer.Domain.Records.{SessionId, UserId, Transfer, Result, success, failure}
use secure_file_transfer.Domain.User.{user_role}
use secure_file_transfer.Wire.Frame.{
  MsgType, Frame, auth_msg, register_msg, logout_msg, admin_activate, admin_deactivate, upload_init,
  upload_data, upload_commit, download_req, download_data, list_msg, err_msg,
}
use secure_file_transfer.Protocol.{
  UploadInit, UploadData, decode_register, decode_login, decode_admin, decode_upload_init,
  decode_upload_data, decode_download_req,
}
use secure_file_transfer.Validator.{validate}
use secure_file_transfer.Sessions
use secure_file_transfer.World.{Platform, World, now_ms}
use secure_file_transfer.Auth.{
  register_user, login, logout, register_ok, register_fail, login_fail, logout_done,
}
use secure_file_transfer.Admin.{activate, deactivate, activate_action, deactivate_action}
use secure_file_transfer.Transfers.{Upload, upload, download, fake_header}
use secure_file_transfer.Server.{
  Live, Link, new_conn, format_safe_auth_message, commit_id, reply, on_world, set_token, or_err,
}

-- The arguments that UPLOAD_COMMIT passes to `TransferService::upload`.
abbrev pub upload_of : UploadInit → Bytes → Upload
upload_of init bytes = record {
  recipient_username = init.recipient;
  orig_name = init.orig_name;
  opaque = bytes;
  upload_id = init.upload_id;
  size = init.size;
  digest = init.digest;
  wrapped = init.wrapped;
}

-- The other branches of the loop.
abbrev pub is_admin_type : MsgType → Bool
is_admin_type t = t == admin_activate || t == admin_deactivate

module _ {A B T : Type 0} (p : Platform A B T) where
  abbrev pub registered : Bytes → Result UserId → Bytes
  registered name (success id) = format_safe_auth_message register_ok name
  registered name (failure e) = format_safe_auth_message register_fail name

  unfoldable pub on_register : Frame → Exec (Live A B T) (Unit {0})
  on_register f = or_err f (do
    pl ← lift (decode_register f.body)
    res ← on_world (register_user p pl.username pl.email pl.password user_role)
    reply register_msg f (registered pl.username res))

  abbrev pub authenticated : Frame → Bytes → Result SessionId → Exec (Live A B T) (Unit {0})
  authenticated f name (success token) = do set_token token; reply auth_msg f token
  authenticated f name (failure e) = reply err_msg f (format_safe_auth_message login_fail name)

  unfoldable pub on_auth : Frame → Exec (Live A B T) (Unit {0})
  on_auth f = or_err f (do
    pl ← lift (decode_login f.body)
    res ← on_world (login p pl.username pl.password)
    authenticated f pl.username res)

  -- Not in a `try`: what `logout` throws ends the connection.
  unfoldable pub on_logout : Frame → Exec (Live A B T) (Unit {0})
  on_logout f = do
    done ← on_world (logout p f.body)
    reply (if done then logout_msg else err_msg) f
        (if done then format_safe_auth_message logout_done [] else codes "Logout failed")
    token ← gets (λ s. s.conn.conn_token)
    if done && str_eq token f.body then set_token [] else pure tt

  abbrev pub administered : Frame → Bytes → Result UserId → Exec (Live A B T) (Unit {0})
  administered f target (success id) = reply f.type f (
      if f.type == admin_activate
      then format_safe_auth_message activate_action target
      else format_safe_auth_message deactivate_action target)
  administered f target (failure e) = reply err_msg f (codes "Admin denied")

  unfoldable pub on_admin : Frame → Exec (Live A B T) (Unit {0})
  on_admin f = or_err f (do
    pl ← lift (decode_admin f.body)
    res ← on_world (
        if f.type == admin_activate
        then activate p pl.token pl.target_id
        else deactivate p pl.token pl.target_id)
    administered f pl.target_id res)

  abbrev pub session_live : Bytes → Exec (Live A B T) Bool
  session_live token = do
    now ← on_world now_ms
    gets (λ s. Sessions.is_valid p.sha256_hex token now s.world.sessions)

  -- `pendingInit[init.uploadId] = init; pendingData[init.uploadId] = {};`
  abbrev pub set_pending : UploadInit → Exec (Live A B T) (Unit {0})
  set_pending init s = (
    returns tt,
    record s {
      conn = record s.conn {
        pending_init = put init.upload_id init s.conn.pending_init;
        pending_data = put init.upload_id [] s.conn.pending_data;
      };
    },
  )

  abbrev announced : Frame → UploadInit → Outcome (Unit {0}) → Exec (Live A B T) (Unit {0})
  announced f init (throws e) = reply err_msg f (what e)
  announced f init (returns sound) = do set_pending init; reply upload_init f (codes "ok")

  unfoldable pub on_upload_init : Frame → Exec (Live A B T) (Unit {0})
  on_upload_init f = or_err f (do
    init ← lift (decode_upload_init f.body)
    token ← gets (λ s. s.conn.conn_token)
    if is_empty token then reply err_msg f (codes "no token") else do
      valid ← session_live token
      if not valid
          then reply err_msg f []
          else announced f init (validate p.lexically_normal init.orig_name init.size fake_header))

  abbrev set_data : Bytes → Bytes → Exec (Live A B T) (Unit {0})
  set_data id bytes s = (
    returns tt,
    record s { conn = record s.conn { pending_data = put id bytes s.conn.pending_data } },
  )

  abbrev extended : Frame → UploadData → Option Bytes → Exec (Live A B T) (Unit {0})
  extended f d none = reply err_msg f []
  extended f d (some sofar) =
      if not (d.offset == length sofar)
      then reply err_msg f []
      else (do set_data d.upload_id (sofar ++ d.chunk); reply upload_data f (codes "ok"))

  unfoldable pub on_upload_data : Frame → Exec (Live A B T) (Unit {0})
  on_upload_data f = or_err f (do
    d ← lift (decode_upload_data f.body)
    sofar ← gets (λ s. get d.upload_id s.conn.pending_data)
    extended f d sofar)

  abbrev pub drop_pending : Bytes → Exec (Live A B T) (Unit {0})
  drop_pending id s = (
    returns tt,
    record s {
      conn = record s.conn {
        pending_init = erase id s.conn.pending_init;
        pending_data = erase id s.conn.pending_data;
      };
    },
  )

  abbrev pub committed : Frame → Bytes → Result Transfer → Exec (Live A B T) (Unit {0})
  committed f id (success t) = do reply upload_commit f t.id; drop_pending id
  committed f id (failure e) = reply err_msg f e

  abbrev pub commit_found :
      Frame → Bytes → Option UploadInit → Option Bytes → Exec (Live A B T) (Unit {0})
  commit_found f id none bytes = reply err_msg f []
  commit_found f id (some init) none = reply err_msg f []
  commit_found f id (some init) (some bytes) = do
    token ← gets (λ s. s.conn.conn_token)
    if is_empty token then reply err_msg f [] else do
      valid ← session_live token
      if not valid
          then reply err_msg f []
          else do res ← on_world (upload p token (upload_of init bytes)); committed f id res

  unfoldable pub on_upload_commit : Frame → Exec (Live A B T) (Unit {0})
  on_upload_commit f = or_err f (do
    id ← gets (λ s. commit_id f.body s.conn.pending_init)
    init ← gets (λ s. get id s.conn.pending_init)
    bytes ← gets (λ s. get id s.conn.pending_data)
    commit_found f id init bytes)

  abbrev pub downloaded : Frame → Result Bytes → Exec (Live A B T) (Unit {0})
  downloaded f (success opaque) = reply download_data f opaque
  downloaded f (failure e) = reply err_msg f e

  unfoldable pub on_download_req : Frame → Exec (Live A B T) (Unit {0})
  on_download_req f = or_err f (do
    req ← lift (decode_download_req f.body)
    own ← gets (λ s. s.conn.conn_token)
    res ← on_world (download p (if is_empty req.token then own else req.token) req.file_id)
    downloaded f res)

  -- The body of the receive loop.
  unfoldable pub handle : Frame → Exec (Live A B T) (Unit {0})
  handle f =
      if f.type == register_msg
      then on_register f
      else if f.type == auth_msg
      then on_auth f
      else if f.type == logout_msg
      then on_logout f
      else if is_admin_type f.type
      then on_admin f
      else if f.type == upload_init
      then on_upload_init f
      else if f.type == upload_data
      then on_upload_data f
      else if f.type == upload_commit
      then on_upload_commit f
      else if f.type == download_req
      then on_download_req f
      else if f.type == list_msg || f.type == download_data
      then reply list_msg f []
      else reply err_msg f []

  abbrev pub go_on : Outcome (Unit {0}) → (Live A B T → Live A B T) → Live A B T → Live A B T
  go_on (returns done) next s = next s
  go_on (throws e) next s = s

  -- The loop over the frames that `recvFrame` gives, until it gives none or a handler throws.
  unfoldable pub serve : List Frame → Live A B T → Live A B T
  serve [] s = s
  serve (f ∷ fs) s = let (r, s') = handle f s in go_on r (serve fs) s'

  -- One round of the accept loop: a new connection, over which those frames come.
  unfoldable pub connection : Link → List Frame → World A B T → Live A B T
  unfolding serve
  connection link fs w = serve fs (record { world = w; conn = new_conn; link = link })

  -- The accept loop, which takes one connection after another, over a world of repositories in
  -- memory.
  unfoldable pub accept_all : List (Link × List Frame) → World A B T → World A B T
  unfolding connection
  accept_all [] w = w
  accept_all ((link, fs) ∷ cs) w = accept_all cs (connection link fs w).world
