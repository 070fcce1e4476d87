-- ===== src/Server/Bootstrap.antt =====
-- src/presentation/server_app.cpp: the first administrator, whose name, address and password are
-- asked for when the server starts without users.
use secure_file_transfer.Base.{
  ◌≡◌, refl, not, ◌&&◌, Bool, true, false, List, [], ◌∷◌, Bytes, is_empty, length, leb,
  if◌then◌else◌, Exec, pure, gets, ◌>>=◌, returns,
}
use secure_file_transfer.Domain.User.{User, admin_role}
use secure_file_transfer.Users
use secure_file_transfer.World.{Platform, World}
use secure_file_transfer.Auth.{register_user}

abbrev no_user : List User → Bool
no_user [] = true
no_user (u ∷ us) = false

module _ {A B T : Type 0} (p : Platform A B T) where
  unfoldable pub bootstrap : Bytes → Bytes → Bytes → Exec (World A B T) (Unit {0})
  bootstrap u e pw = do
    none_yet ← gets (λ w. no_user (Users.list_all w.users))
    if none_yet && (not (is_empty u) && (not (is_empty e) && leb 8 (length pw)))
        then (do res ← register_user p u e pw admin_role; pure tt)
        else pure tt

  -- On a server that has a user, what is typed in changes nothing.
  pub bootstrap-keeps :
      (u e pw : Bytes) (w : World A B T) (first : User) (rest : List User)
      → Users.list_all w.users ≡ first ∷ rest
      → bootstrap u e pw w ≡ (returns tt, w)
  unfolding bootstrap
  bootstrap-keeps u e pw w first rest some_user = rw some_user refl
