-- ===== src/Client/Menu.antt =====
-- src/presentation/client_app.cpp: the loop of `ClientApp::run`.
use secure_file_transfer.Base.{
  ℕ, zero, suc, Bool, true, false, ◌++◌, codes, str_eq, if◌then◌else◌, Option, none, some, Exec,
  pure, ◌>>=◌, ◌>>◌, Outcome, returns, throws, what,
}
use secure_file_transfer.Client.{Host, Client, on_net, print_error, getline}
use secure_file_transfer.Client.Session.{on_register, on_login, on_logout}
use secure_file_transfer.Client.Upload.{on_upload}
use secure_file_transfer.Client.Download.{on_download}

module _ {N : Type 0} (h : Host N) where
  -- One round of the menu: whether the loop goes on.
  unfoldable pub round : Exec (Client N) Bool
  round = do
    c ← getline
    if str_eq c (codes "6") then pure false else do
      (if str_eq c (codes "1")
          then on_register h
          else if str_eq c (codes "2")
          then on_login h
          else if str_eq c (codes "3")
          then on_logout h
          else if str_eq c (codes "4")
          then on_upload h
          else if str_eq c (codes "5")
          then on_download h
          else pure tt)
      pure true

  -- The loop, for at most `k` rounds: whether it has ended.
  unfoldable pub rounds : ℕ → Exec (Client N) Bool
  unfolding round
  rounds zero = pure false
  rounds (suc k) = do on ← round; if on then rounds k else pure true

  -- `run`: the status that it returns, unless it is still in the loop after `k` rounds.
  abbrev finished : Bool → Exec (Client N) (Option ℕ)
  finished false = pure none
  finished true = do on_net h.close; pure (some 0)

  abbrev connected : ℕ → Outcome (Unit {0}) → Exec (Client N) (Option ℕ)
  connected k (throws e) = do
    print_error (codes "TLS authentication failed: " ++ what e)
    pure (some 1)
  connected k (returns u) = do ended ← rounds k; finished ended

  unfoldable pub run : ℕ → Exec (Client N) (Option ℕ)
  run k c = let (r, n) = h.connect c.net in connected k r (record c { net = n })
