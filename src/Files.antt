-- ===== src/Files.antt =====
-- src/infrastructure/memory_file_repo.cpp: `MemoryFileRepository`.
use secure_file_transfer.Base.{
  Bool, List, [], ◌∷◌, Bytes, codes, is_empty, str_eq, if◌then◌else◌, none, some, Outcome, returns,
  throws, validation,
}
use secure_file_transfer.Base.Dict.{Dict, empty, get, emplace, contains}
use secure_file_transfer.Domain.Records.{UserId, FileId, FileRecord, Result, success, failure}

pub record Files : Type 0 where
  pub by_id : Dict FileRecord
  pub upload_to_id : Dict FileId
  pub storage_to_id : Dict FileId

abbrev pub no_files : Files
no_files = record { by_id = empty; upload_to_id = empty; storage_to_id = empty }

-- The three `emplace` calls.
abbrev pub added : FileRecord → Files → Files
added f r = record {
  by_id = emplace f.id f r.by_id;
  upload_to_id = emplace f.upload_id f.id r.upload_to_id;
  storage_to_id = emplace f.storage_id f.id r.storage_to_id;
}

unfoldable pub save : FileRecord → Files → Outcome Files
save f r =
    if is_empty f.id
    then throws (validation (codes "id empty"))
    else if is_empty f.upload_id
    then throws (validation (codes "uploadId empty"))
    else if is_empty f.storage_id
    then throws (validation (codes "storageId empty"))
    else if contains f.id r.by_id
    then throws (validation (codes "duplicate id"))
    else if contains f.upload_id r.upload_to_id
    then throws (validation (codes "duplicate upload_id"))
    else if contains f.storage_id r.storage_to_id
    then throws (validation (codes "duplicate storage_id"))
    else returns (added f r)

unfoldable pub find_by_id : FileId → Files → Result FileRecord
find_by_id id r = elim (get id r.by_id) [ none ↦ failure (codes "not found") | some f ↦ success f ]

-- `if(kv.second.owner==owner) out.push_back(kv.second);`
unfoldable pub owned : UserId → List FileRecord → List FileRecord
owned u [] = []
owned u (f ∷ fs) = let rest = owned u fs in if str_eq f.owner u then f ∷ rest else rest

-- The loop over `byId_`, whose order a `std::unordered_map` does not fix: `iterate` is the order in
-- which the library walks it.
unfoldable pub find_by_owner :
    (Dict FileRecord → List FileRecord) → UserId → Files → List FileRecord
unfolding owned
find_by_owner iterate u r = owned u (iterate r.by_id)

unfoldable pub exists_upload_id : Bytes → Files → Bool
exists_upload_id upload_id r = contains upload_id r.upload_to_id
