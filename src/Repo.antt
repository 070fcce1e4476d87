-- ===== src/Repo.antt =====
-- include/infrastructure/memory_repo.hpp: `InMemoryRepo`, with its `KeyFn` as a parameter.
use secure_file_transfer.Base.{◌≡◌, ap, Bytes, codes, Option, none, some}
use secure_file_transfer.Base.Dict.{Dict, get, put, get-put_self, get-put_ne}
use secure_file_transfer.Domain.Records.{Result, success, failure}

module _ {V : Type 0} (key : V → Bytes) where
  unfoldable pub save : V → Dict V → Dict V
  save v m = put (key v) v m

  abbrev or_missing : Option V → Result V
  or_missing none = failure (codes "not found")
  or_missing (some v) = success v

  unfoldable pub find : Bytes → Dict V → Result V
  find id m = or_missing (get id m)

  -- What was saved last under a key is found, and every other key finds what it found before.
  pub find-save :
      (v : V) (m : Dict V)
      → (find (key v) (save v m) ≡ success v)
        × ((id : Bytes) → ¬ (key v ≡ id) → find id (save v m) ≡ find id m)
  unfolding find save
  find-save v m = (
    ap or_missing (get-put_self (key v) v m),
    λ id other. ap or_missing (get-put_ne (key v) id v m other),
  )
