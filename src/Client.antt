-- ===== src/Client.antt =====
-- src/presentation/client_app.cpp: `ClientApp::run`, with `askYesNo` of include/presentation/cli.hpp.
-- This file has the state and what its parts are used for; Client/Session, Upload and Download have the branches of the loop, Client/Menu the loop.
-- Of the output, what `printSafe` and `printError` print is kept; prompts, and notes for the user, are
-- left out. The directory ./storage can always be made.
pub mod Session
pub mod Upload
pub mod Download
pub mod Menu
pub mod Bounds
pub mod Access
pub mod Relay
pub mod Delivery
pub mod Announced
pub mod Submission
pub mod Received
pub mod Fetched
use secure_file_transfer.Base.{
  ℕ, Bool, true, false, List, [], ◌∷◌, ◌++◌, Bytes, codes, ◌==◌, ◌||◌, take, length, ltb, not,
  if◌then◌else◌, Option, none, some, Exec, pure, raise, ◌>>=◌, Exception, runtime, returns, Outcome,
}
use secure_file_transfer.Base.Dict.{Dict, get, put, empty}
use secure_file_transfer.Domain.Records.{UserId}
use secure_file_transfer.Domain.Ids
use secure_file_transfer.Domain.Ids.{Entropy}
use secure_file_transfer.Wire.Frame.{Frame}
use secure_file_transfer.Crypto.{Openssl, KeyPair}

-- What is not this program: OpenSSL; the connection, whose state is an `N`; whether a file can be
-- opened for writing; and `std::filesystem`'s `path(p).filename().string()`.
pub record Host (N : Type 0) : Type 0 where
  pub ssl : Openssl
  pub connect : Exec N (Unit {0})
  pub send_frame : Frame → Exec N (Unit {0})
  pub recv_frame : ℕ → Exec N (Option Frame)
  pub close : Exec N (Unit {0})
  pub writable : Bytes → Bool
  pub filename : Bytes → Bytes

pub data Said : Type 0 where
  safe error : Bytes → Said

-- `sessionToken`, `loggedUser`, `localKeys` and `pubCache`; the lines still to be typed, what was
-- said, the newest first, the files, the calls of OpenSSL, the source of ids, and the connection.
pub record Client (N : Type 0) : Type 0 where
  pub token : Bytes
  pub logged_user : Bytes
  pub local_keys : Dict KeyPair
  pub pub_cache : Dict Bytes
  pub lines : List Bytes
  pub said : List Said
  pub files : Dict Bytes
  pub calls : ℕ
  pub entropy : Entropy
  pub net : N

-- `std::getline(std::cin, s)`, which leaves `s` empty at the end of the input.
abbrev pub first_line : List Bytes → Bytes
first_line [] = []
first_line (l ∷ ls) = l

abbrev pub later_lines : List Bytes → List Bytes
later_lines [] = []
later_lines (l ∷ ls) = ls

abbrev pub is_yes : Bytes → Bool
is_yes [] = false
is_yes (x ∷ xs) = x == b'y' || x == b'Y'

abbrev pub key_path_for : Bytes → Bytes
key_path_for user = codes "./storage/client_" ++ (user ++ codes ".key")

-- The first 32 bytes of the key file, if there are as many.
abbrev pub whole_key : Option Bytes → Option Bytes
whole_key none = none
whole_key (some bytes) = if ltb (length bytes) 32 then none else some (take 32 bytes)

module _ {N : Type 0} where
  abbrev pub on_net : {A : Type 0} → Exec N A → Exec (Client N) A
  on_net m c = let (r, n) = m c.net in (r, record c { net = n })

  abbrev pub on_ssl : {A : Type 0} → Exec ℕ A → Exec (Client N) A
  on_ssl m c = let (r, n) = m c.calls in (r, record c { calls = n })

  abbrev pub say : Said → Exec (Client N) (Unit {0})
  say s c = (returns tt, record c { said = s ∷ c.said })

  abbrev pub print_safe : Bytes → Exec (Client N) (Unit {0})
  print_safe msg = say (safe msg)

  abbrev pub print_error : Bytes → Exec (Client N) (Unit {0})
  print_error msg = say (error msg)

  abbrev pub getline : Exec (Client N) Bytes
  getline c = (returns (first_line c.lines), record c { lines = later_lines c.lines })

  unfoldable pub ask_yes_no : Exec (Client N) Bool
  ask_yes_no = do a ← getline; pure (is_yes a)

  abbrev pub new_user_id : Exec (Client N) UserId
  new_user_id c =
      let (id, e) = Ids.generate_user_id c.entropy in (returns id, record c { entropy = e })

  -- `localKeys[user] = kp; pubCache[user] = kp.pub;`
  abbrev pub remember_pair : Bytes → KeyPair → Exec (Client N) (Unit {0})
  remember_pair user kp c = (
    returns tt,
    record c { local_keys = put user kp c.local_keys; pub_cache = put user kp.pub_key c.pub_cache },
  )

  abbrev pub set_session : Bytes → Bytes → Exec (Client N) (Unit {0})
  set_session token user c = (returns tt, record c { token = token; logged_user = user })

  unfoldable pub load_priv_key : Bytes → Client N → Option Bytes
  load_priv_key user c = whole_key (get (key_path_for user) c.files)

  abbrev pub opened : Bytes → Option Bytes → Exec (Client N) Bytes
  opened path none = raise (runtime (codes "cannot open file " ++ path))
  opened path (some bytes) = pure bytes

  unfoldable pub read_file_bytes : Bytes → Exec (Client N) Bytes
  read_file_bytes path c = opened path (get path c.files) c

module _ {N : Type 0} (h : Host N) where
  abbrev pub store_file : Bytes → Bytes → Exec (Client N) (Unit {0})
  store_file path bytes c = (returns tt, record c { files = put path bytes c.files })

  -- A file that cannot be opened is passed over.
  unfoldable pub save_priv_key : Bytes → Bytes → Exec (Client N) (Unit {0})
  save_priv_key user priv_key =
      if h.writable (key_path_for user) then store_file (key_path_for user) priv_key else pure tt

  unfoldable pub write_file_bytes : Bytes → Bytes → Exec (Client N) (Unit {0})
  write_file_bytes path bytes =
      if not (h.writable path)
      then raise (runtime (codes "cannot write file " ++ path))
      else store_file path bytes
