-- ===== src/Server.antt =====
-- src/presentation/server_app.cpp: what `ServerApp::run` does with each frame of a connection, with
-- `formatSafeAuthMessage` (include/presentation/cli.hpp). What is printed to the console is left out.
pub mod Handlers
pub mod Replies
pub mod Assembly
pub mod Commit
pub mod Bootstrap
pub mod Services
pub mod Steadiness
pub mod Manned
use secure_file_transfer.Base.{
  ℕ, ◌+◌, ◌%◌, ◌^◌, Bool, true, false, not, ◌&&◌, ◌||◌, List, [], ◌∷◌, ◌++◌, Bytes, codes, is_empty,
  str_eq, length, drop, leb, ◌==◌, if◌then◌else◌, Option, none, some, Exec, pure, catch, Outcome,
  returns, throws, Exception, transport,
}
use secure_file_transfer.Base.Dict.{Dict, empty, get, put}
use secure_file_transfer.Domain.Records.{SessionId, UserId, Result, success, failure}
use secure_file_transfer.Wire.Words.{get32be}
use secure_file_transfer.Wire.Frame.{MsgType, Frame, err_msg}
use secure_file_transfer.Protocol.{UploadInit, UploadData, decode_upload_data}
use secure_file_transfer.Auth.{register_ok, register_fail, login_ok, login_fail, logout_done}
use secure_file_transfer.Admin.{activate_action, deactivate_action, admin_denied}
use secure_file_transfer.World.{World}

-- include/domain/audit_event.hpp
abbrev pub tls_fail : Bytes
tls_fail = codes "TLS_FAIL"

unfoldable pub format_safe_auth_message : Bytes → Bytes → Bytes
format_safe_auth_message action actor =
    if str_eq action register_ok
    then codes "Registration succeeded for " ++ actor
    else if str_eq action register_fail
    then codes "Registration failed"
    else if str_eq action login_ok
    then codes "Login succeeded"
    else if str_eq action login_fail
    then codes "Login failed"
    else if str_eq action logout_done
    then codes "Logged out"
    else if str_eq action activate_action
    then codes "Account activated: " ++ actor
    else if str_eq action deactivate_action
    then codes "Account deactivated: " ++ actor
    else if str_eq action admin_denied
    then codes "Admin action denied"
    else if str_eq action tls_fail
    then codes "TLS authentication failed"
    else codes "Auth event: " ++ action

-- The state of one connection: `pendingInit`, `pendingData` and `connToken`.
pub record Conn : Type 0 where
  pub pending_init : Dict UploadInit
  pub pending_data : Dict Bytes
  pub conn_token : Bytes

abbrev pub new_conn : Conn
new_conn = record { pending_init = empty; pending_data = empty; conn_token = [] }

-- The way out: which writes to the socket fail, how many were tried, and the frames that went out,
-- the newest first.
pub record Link : Type 0 where
  pub breaks : ℕ → Bool
  pub writes : ℕ
  pub sent : List Frame

pub record Live (A B T : Type 0) : Type 0 where
  pub world : World A B T
  pub conn : Conn
  pub link : Link

-- The upload id of an UPLOAD_COMMIT body: a field that fills the body, the id of an UPLOAD_DATA
-- body, or the whole body.
abbrev pub id_of_data : Bytes → Outcome UploadData → Bytes
id_of_data body (returns d) = d.upload_id
id_of_data body (throws e) = body

unfoldable pub id_of_body : Bytes → Bytes
id_of_body body =
    if is_empty body
    then []
    else if leb 4 (length body)
    then if (get32be body + 4) % 2 ^ 32 == length body
      then drop 4 body
      else id_of_data body (decode_upload_data body)
    else body

-- `if(uploadId.empty() && pendingInit.size()==1) uploadId = pendingInit.begin()->first;`
abbrev pub only_key : Dict UploadInit → Bytes
only_key [] = []
only_key ((k, i) ∷ []) = k
only_key ((k, i) ∷ (j ∷ rest)) = []

unfoldable pub commit_id : Bytes → Dict UploadInit → Bytes
unfolding id_of_body
commit_id body inits = let id = id_of_body body in if is_empty id then only_key inits else id

-- What `asio::write` throws on a connection that is gone.
abbrev pub broken : Exception
broken = transport (codes "write")

module _ {A B T : Type 0} where
  -- `conn->sendFrame`
  unfoldable pub send : Frame → Exec (Live A B T) (Unit {0})
  send f s =
      let tried = record s { link = record s.link { writes = s.link.writes + 1 } } in
      if s.link.breaks s.link.writes
      then (throws broken, tried)
      else (returns tt, record tried { link = record tried.link { sent = f ∷ s.link.sent } })

  unfoldable pub reply : MsgType → Frame → Bytes → Exec (Live A B T) (Unit {0})
  unfolding send
  reply type f body = send (record { type = type; request_id = f.request_id; body = body })

  abbrev pub on_world : {X : Type 0} → Exec (World A B T) X → Exec (Live A B T) X
  on_world m s = let (r, w) = m s.world in (r, record s { world = w })

  abbrev pub set_token : Bytes → Exec (Live A B T) (Unit {0})
  set_token t s = (returns tt, record s { conn = record s.conn { conn_token = t } })

  -- `try { m } catch(...) { reply ERR }`
  abbrev pub or_err : Frame → Exec (Live A B T) (Unit {0}) → Exec (Live A B T) (Unit {0})
  or_err f m = catch m (λ e. reply err_msg f [])
