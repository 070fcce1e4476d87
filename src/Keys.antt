-- ===== src/Keys.antt =====
-- src/infrastructure/memory_pubkey_directory.cpp: `MemoryPubkeyDirectory`.
use secure_file_transfer.Base.{
  not, Bool, false, List, Bytes, codes, is_empty, length, ◌==◌, if◌then◌else◌, none, some, Outcome,
  returns, throws, validation, not_found,
}
use secure_file_transfer.Base.Dict.{Dict, get, emplace, contains, keys}
use secure_file_transfer.Domain.Records.{UserId}

abbrev pub Keys : Type 0
Keys = Dict Bytes

unfoldable pub save_pubkey : UserId → Bytes → Keys → Outcome Keys
save_pubkey uid pub_key m =
    if is_empty uid
    then throws (validation (codes "user_id empty"))
    else if is_empty pub_key
    then throws (validation (codes "pubkey empty"))
    else if not (length pub_key == 32)
    then throws (validation (codes "pubkey must be 32 bytes"))
    else if contains uid m
    then throws (validation (codes "duplicate user_id"))
    else returns (emplace uid pub_key m)

unfoldable pub get_pubkey : UserId → Keys → Outcome Bytes
get_pubkey uid m =
    if is_empty uid then throws (validation (codes "user_id empty")) else elim (get uid m) [
      | none ↦ throws (not_found (codes "pubkey not found"))
      | some k ↦ returns k
    ]

unfoldable pub exists : UserId → Keys → Bool
exists uid m = if is_empty uid then false else contains uid m

unfoldable pub list_all : Keys → List UserId
list_all m = keys m
