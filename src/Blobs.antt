-- ===== src/Blobs.antt =====
-- include/infrastructure/memory_storage.hpp: `MemoryStorage`, an implementation of the port `IStorage`.
use secure_file_transfer.Base.{
  ◌≡◌, ◌++◌, Bytes, codes, none, some, Exec, inl, inr, arith, str_eq_refl, str_eq-cases, Exception,
  returns, throws, not_found,
}
use secure_file_transfer.Base.Dict.{Dict, get, put, erase, get-put_self, get-erase}

unfoldable pub write : Bytes → Bytes → Exec (Dict Bytes) (Unit {0})
write k v m = (returns tt, put k v m)

unfoldable pub read : Bytes → Exec (Dict Bytes) Bytes
read k m =
    (elim (get k m) [ none ↦ throws (not_found (codes "missing blob")) | some v ↦ returns v ], m)

unfoldable pub staged_write : Bytes → Bytes → Exec (Dict Bytes) (Unit {0})
staged_write storage_id bytes m = (returns tt, put storage_id bytes m)

-- The blob itself, and the file that a disk would have staged it in.
unfoldable pub remove_staged : Bytes → Exec (Dict Bytes) (Unit {0})
remove_staged storage_id m =
    (returns tt, erase (codes "tmp." ++ storage_id ++ codes ".part") (erase storage_id m))

-- What a client of the port relies on: a blob whose staged write returned is what a read of its
-- name gives, and nothing is read under a name that was removed.
pub record IsStore {B : Type 0} (put_blob : Bytes → Bytes → Exec B (Unit {0}))
    (get_blob : Bytes → Exec B Bytes) (remove_blob : Bytes → Exec B (Unit {0})) : Type 0 where
  pub read_back :
      (name bytes : Bytes) (b : B)
      → (put_blob name bytes b).0 ≡ returns tt
      → (get_blob name (put_blob name bytes b).1).0 ≡ returns bytes
  pub removed :
      (name : Bytes) (b : B)
      → (e : Exception) × ((get_blob name (remove_blob name b).1).0 ≡ throws e)

removed-read :
    (name : Bytes) (m : Dict Bytes)
    → (read name (remove_staged name m).1).0 ≡ throws (not_found (codes "missing blob"))
unfolding read remove_staged
removed-read name m = elim (str_eq-cases (codes "tmp." ++ name ++ codes ".part") name) [
  | inl same ↦ ground (
    arith,
    get-erase (codes "tmp." ++ name ++ codes ".part") name (erase name m),
    str_eq_refl name,
  )
  | inr other ↦ ground (
    arith,
    get-erase (codes "tmp." ++ name ++ codes ".part") name (erase name m),
    get-erase name name m,
    str_eq_refl name,
  )
]

-- The in-memory storage keeps these promises.
pub memory-IsStore : IsStore staged_write read remove_staged
unfolding staged_write read
memory-IsStore = record {
  read_back = λ name bytes b e. ground (arith, get-put_self name bytes b);
  removed = λ name b. (not_found (codes "missing blob"), removed-read name b);
}
