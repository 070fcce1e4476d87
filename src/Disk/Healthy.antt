-- ===== src/Disk/Healthy.antt =====
-- `BinaryFileStorage` on a disk whose calls succeed: it is a store, and does what `MemoryStorage`
-- does.
use secure_file_transfer.Base.{
  ℕ, ◌≡◌, refl, Bool, true, false, Bytes, Option, none, some, returns, throws, codes, [], ◌∷◌, ◌++◌,
  inl, inr, is_empty, not, if◌then◌else◌, Bool-cases, arith, Exception, validation, not_found,
  str_eq_iff, str_eq, ◌||◌,
}
use secure_file_transfer.Base.Dict.{get, erase, contains, get-erase}
use secure_file_transfer.Validator.{has_part}
use secure_file_transfer.Blobs.{IsStore}
use secure_file_transfer.Disk.{
  Disk, ◌>>=◌, path, part_name, exists, attempt_call, staged_write, read, remove_staged,
}
use secure_file_transfer.Disk.Published.{staged_write-placed}

-- Every call succeeds.
abbrev pub healthy : ℕ → Option ℕ
healthy n = none

-- Names that a path keeps apart: not empty, without NUL and "..", and, as the service's names are,
-- without a slash and other than ".", so that no two of them denote one file.
abbrev pub is_sound : Bytes → Bool
is_sound id =
    if is_empty id
    then false
    else if has_part (0 ∷ []) id
    then false
    else if has_part (codes "..") id
    then false
    else not (has_part (codes "/") id || str_eq id (codes "."))

module _ (reason : ℕ → Bytes) (root : Bytes) where
  write-nonempty :
      (id bytes : Bytes) (d : Disk)
      → (staged_write healthy reason root id bytes d).0 ≡ returns tt
      → is_empty id ≡ false
  unfolding staged_write
  write-nonempty id bytes d e = ground arith

  pub read-there :
      (k v : Bytes) (d : Disk)
      → is_empty k ≡ false
      → get (path root k) d.files ≡ some v
      → (read healthy reason root k d).0 ≡ returns v
  unfolding read contains exists attempt_call ◌>>=◌ is_empty
  read-there k [] d named there = ground arith
  read-there k (b ∷ v) d named there = ground arith

  pub read-gone :
      (k : Bytes) (d : Disk)
      → is_empty k ≡ false
      → get (path root k) d.files ≡ none
      → (read healthy reason root k d).0 ≡ throws (not_found (codes "missing blob: " ++ k))
  unfolding read contains exists attempt_call ◌>>=◌
  read-gone k d named gone = ground arith

  read-nameless :
      (k : Bytes) (d : Disk)
      → is_empty k ≡ true
      → (read healthy reason root k d).0 ≡ throws (validation (codes "storageId empty"))
  unfolding read
  read-nameless k d named = rw named refl

  pub remove-gone :
      (k : Bytes) (d : Disk)
      → is_empty k ≡ false
      → get (path root k) (remove_staged healthy reason root k d).1.files ≡ none
  unfolding remove_staged attempt_call ◌>>=◌
  remove-gone k d named = rw named (
      ground (
        arith,
        get-erase (path root k) (path root k) (erase (path root (part_name k)) d.files),
        str_eq_iff (path root k) (path root k),
      ))

  removed-read :
      (k : Bytes) (d : Disk)
      → (e : Exception) × ((read healthy reason root k (remove_staged healthy reason root k d).1).0
          ≡ throws e)
  removed-read k d = elim (Bool-cases (is_empty k)) [
    | inl nameless ↦ (_, read-nameless k _ nameless)
    | inr named ↦ (_, read-gone k _ named (remove-gone k d named))
  ]

  pub disk-IsStore :
      IsStore
        (staged_write healthy reason root)
        (read healthy reason root)
        (remove_staged healthy reason root)
  disk-IsStore = record {
    read_back = λ id bytes d e.
        read-there id bytes _ (write-nonempty id bytes d e)
          (staged_write-placed healthy reason root id bytes d e).0;
    removed = removed-read;
  }
