-- ===== src/Tests/Runs.antt =====
-- Two connections, one after another: an administrator tries to deactivate the others and herself.
use secure_file_transfer.Base.{[], ◌∷◌, List, Bytes, codes, true}
use secure_file_transfer.Wire.Frame.{Frame, admin_deactivate}
use secure_file_transfer.Protocol.{encode_admin}
use secure_file_transfer.Users.Calls.{calls-IsConsistent}
use secure_file_transfer.Admin.Manned.{Manned}
use secure_file_transfer.Server.{Link}
use secure_file_transfer.Server.Handlers.{accept_all}
use secure_file_transfer.Server.Manned.{accept_all-Manned}
use secure_file_transfer.Tests.Setup.{platform, machine, live, saved_users}
use secure_file_transfer.Tests.Accounts.{one_admin}

abbrev deactivation : Bytes → Frame
deactivation target = record {
  type = admin_deactivate;
  request_id = 3;
  body = encode_admin (codes "t1") target;
}

abbrev connections : List (Link × List Frame)
connections =
    (live.link, deactivation (codes "u3") ∷ (deactivation (codes "u1") ∷ []))
    ∷ ((record live.link { breaks = λ n. true }, deactivation (codes "u1") ∷ []) ∷ [])

accept_all-Manned_example : Manned (accept_all platform connections machine).users
accept_all-Manned_example =
    accept_all-Manned platform connections machine
      (record { consistent = calls-IsConsistent saved_users; admin_left = one_admin })
