-- ===== src/Policy.antt =====
-- include/application/policy_engine.hpp: `PolicyEngine`. A set of users is the list of their ids.
use secure_file_transfer.Base.{
  ◌≡◌, ◌||◌, Bool, true, false, List, [], ◌∷◌, arith, Bytes, str_eq, str_eq_refl, if◌then◌else◌,
  Option, none, some,
}
use secure_file_transfer.Base.Dict.{Dict, get, put, get-put_self}
use secure_file_transfer.Domain.Records.{UserId, FileId, FileRecord}

abbrev pub Policy : Type 0
Policy = Dict (List Bytes)

unfoldable pub member : Bytes → List Bytes → Bool
member u [] = false
member u (x ∷ xs) = str_eq x u || member u xs

abbrev pub granted : Option (List Bytes) → List Bytes
granted none = []
granted (some us) = us

-- `std::set` keeps one of equal elements.
unfoldable pub grant : FileId → UserId → Policy → Policy
unfolding member
grant f u p = let us = granted (get f p) in put f (if member u us then us else u ∷ us) p

unfoldable pub is_authorized : UserId → FileRecord → Policy → Bool
unfolding member
is_authorized u f p = str_eq f.owner u || member u (granted (get f.id p))

-- A user to whom a file was granted may read it, whoever owns it.
pub grant-authorized :
    (u : UserId) (f : FileRecord) (p : Policy) → is_authorized u f (grant f.id u p) ≡ true
unfolding is_authorized grant member
grant-authorized u f p =
    let us = granted (get f.id p) in
    ground (arith, get-put_self f.id (if member u us then us else u ∷ us) p, str_eq_refl u)
