-- ===== src/Client/Session.antt =====
-- src/presentation/client_app.cpp: registration, login and logout in `ClientApp::run`.
use secure_file_transfer.Base.{
  ℕ, not, [], Bytes, codes, is_empty, replicate, ◌==◌, if◌then◌else◌, Option, none, some, Exec,
  pure, gets, ◌>>=◌, ◌>>◌, returns,
}
use secure_file_transfer.Base.Dict.{get, put}
use secure_file_transfer.Wire.Frame.{MsgType, Frame, auth_msg, register_msg, logout_msg}
use secure_file_transfer.Protocol.{encode_register, encode_login}
use secure_file_transfer.Auth.{login_ok}
use secure_file_transfer.Server.{format_safe_auth_message}
use secure_file_transfer.Crypto.{KeyPair, generate}
use secure_file_transfer.Client.{
  Host, Client, on_net, on_ssl, print_safe, print_error, getline, ask_yes_no, remember_pair,
  set_session, load_priv_key, save_priv_key,
}

-- `std::array<uint8_t, 32>{}`
abbrev pub zero_key : Bytes
zero_key = replicate 32 0

module _ {N : Type 0} (h : Host N) where
  abbrev pub send : MsgType → ℕ → Bytes → Exec (Client N) (Unit {0})
  send type id body = on_net (h.send_frame (record { type = type; request_id = id; body = body }))

  abbrev pub recv : ℕ → Exec (Client N) (Option Frame)
  recv timeout = on_net (h.recv_frame timeout)

  -- `KeyPair::generate()`, kept in a file, and in memory.
  abbrev pub new_pair : Bytes → Exec (Client N) (Unit {0})
  new_pair user = do
    kp ← on_ssl (generate h.ssl)
    save_priv_key h user kp.priv_key
    remember_pair user kp

  abbrev registered : Option Frame → Exec (Client N) (Unit {0})
  registered none = pure tt
  registered (some resp) =
      if resp.type == register_msg then print_safe resp.body else print_error resp.body

  unfoldable pub on_register : Exec (Client N) (Unit {0})
  on_register = do
    user ← getline
    email ← getline
    pw ← getline
    sure ← ask_yes_no
    if not sure then pure tt else do
      new_pair user
      send register_msg 1 (encode_register user email pw)
      resp ← recv 5000
      registered resp

  -- A user whose key file is there, and whose pair is not in memory, gets a pair with no public key.
  abbrev kept_pair : Bytes → Bytes → Option KeyPair → Exec (Client N) (Unit {0})
  kept_pair user priv_key (some kp) c = pure tt c
  kept_pair user priv_key none c = (
    returns tt,
    record c {
      local_keys = put user (record { priv_key = priv_key; pub_key = zero_key }) c.local_keys;
    },
  )

  abbrev ensure_pair : Bytes → Option Bytes → Exec (Client N) (Unit {0})
  ensure_pair user none = new_pair user
  ensure_pair user (some priv_key) = do
    it ← gets (λ c. get user c.local_keys)
    kept_pair user priv_key it

  abbrev welcomed : Bytes → Bytes → Exec (Client N) (Unit {0})
  welcomed user token = do
    set_session token user
    priv_key ← gets (load_priv_key user)
    ensure_pair user priv_key
    print_safe (format_safe_auth_message login_ok user)

  abbrev logged_in : Bytes → Option Frame → Exec (Client N) (Unit {0})
  logged_in user none = pure tt
  logged_in user (some resp) =
      if resp.type == auth_msg
      then welcomed user resp.body
      else print_error (if is_empty resp.body then codes "Login failed" else resp.body)

  unfoldable pub on_login : Exec (Client N) (Unit {0})
  on_login = do
    user ← getline
    pw ← getline
    send auth_msg 2 (encode_login user pw)
    resp ← recv 5000
    logged_in user resp

  abbrev logged_out : Option Frame → Exec (Client N) (Unit {0})
  logged_out none = pure tt
  logged_out (some resp) = do print_safe resp.body; set_session [] []

  unfoldable pub on_logout : Exec (Client N) (Unit {0})
  on_logout = do
    token ← gets (λ c. c.token)
    if is_empty token
        then print_error (codes "Not logged in")
        else do send logout_msg 3 token; resp ← recv 5000; logged_out resp
