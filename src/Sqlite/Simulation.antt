-- ===== src/Sqlite/Simulation.antt =====
-- A client of the port `IFileRepository` cannot tell `SqliteFileRepository`, over a database that does
-- what SQLite documents, from `MemoryFileRepository`.
use secure_file_transfer.Base.{
  ◌≡◌, refl, sym, ap, subst, ◌∙◌, Bool, List, [], ◌∷◌, ◌++◌, map, Bytes, length, ltb, Option, none,
  some, arith, All, Bool-cases, Option-cases, inl, inr, returns,
}
use secure_file_transfer.Base.Dict.{Dict, get, values}
use mathlib.Core.List.Permᴰ
use mathlib.Core.List.{Permᴰ}
use secure_file_transfer.Domain.Records.{FileRecord, FileId, UserId}
use secure_file_transfer.Files
use secure_file_transfer.Sqlite.{Sqlite, Value, text_value}
use secure_file_transfer.Sqlite.Files.{
  Numbers, row_of, save, find_by_id, find_by_owner, exists_upload_id, first_record, records_from,
  by_id_sql, by_owner_sql, count_sql,
}
use secure_file_transfer.Sqlite.RoundTrip.{IsText, NumbersWork, RowFits, record_from-row_of}
use secure_file_transfer.Sqlite.Saves.{InTable, save_free, save_taken}
use secure_file_transfer.Sqlite.Catalog.{
  matching, is_there, is_taken, first, InMemory, IsNamed, save-taken, save-free, added-InMemory,
}
use secure_file_transfer.Sqlite.Tables.{
  FilesTable, AllFit, where_column, records_from-map, records_from-Permᴰ, AllFit-matching, where_id,
  where_owner, where_upload,
}
use secure_file_transfer.Sqlite.Answers.{
  Call, saving, finding, listing, asking, Answer, missing, found_it, listed_them, known,
  answer_save, answer_found, answer_listed, after_save, Alike, Alike-eq, AllAlike, owned-Permᴰ,
  on_memory,
}

module _ {D : Type 0} (num : Numbers) (db : Sqlite D) where
  unfoldable pub on_sqlite : List Call → D → List Answer
  on_sqlite [] d = []
  on_sqlite (saving r ∷ cs) d = let (o, d') = save num db r d in answer_save o ∷ on_sqlite cs d'
  on_sqlite (finding id ∷ cs) d = answer_found (find_by_id num db id d) ∷ on_sqlite cs d
  on_sqlite (listing owner ∷ cs) d = answer_listed (find_by_owner num db owner d) ∷ on_sqlite cs d
  on_sqlite (asking up ∷ cs) d = known (exists_upload_id num db up d) ∷ on_sqlite cs d

module _ {D : Type 0} (num : Numbers) (works : NumbersWork num) (db : Sqlite D)
    (in_transaction : D → Bool) (table saved : D → List (List Value))
    (laws : FilesTable db in_transaction table saved) (iterate : Dict FileRecord → List FileRecord)
    (walks : (m : Dict FileRecord) → Permᴰ (values m) (iterate m)) where
  -- What a call may bring: records that a row can hold, and texts without NUL.
  abbrev pub IsFit : Call → Type 0
  IsFit (saving r) = RowFits num works r × IsNamed r
  IsFit (finding id) = IsText id
  IsFit (listing owner) = IsText owner
  IsFit (asking up) = IsText up

  abbrev found_in : Option FileRecord → Answer
  found_in none = missing
  found_in (some r) = found_it r

  found-first :
      (rs : List FileRecord)
      → AllFit num works rs
      → answer_found (first_record num (map (row_of num) rs)) ≡ found_in (first rs)
  found-first [] fits = refl
  found-first (r ∷ rs) (p, ps) = rw (record_from-row_of num works r p) refl

  count-is_there : (rs : List FileRecord) → ltb 0 (length (map (row_of num) rs)) ≡ is_there rs
  count-is_there [] = refl
  count-is_there (r ∷ rs) = ground arith

  owned-matching :
      (k : UserId) (rs : List FileRecord) → Files.owned k rs ≡ matching (λ r. r.owner) k rs
  unfolding Files.owned matching
  owned-matching k [] = refl
  owned-matching k (r ∷ rs) = rw (owned-matching k rs) refl

  found_in-get :
      (k : FileId) (m : Files.Files)
      → found_in (get k m.by_id) ≡ answer_found (returns (Files.find_by_id k m))
  unfolding Files.find_by_id
  found_in-get k m = elim (Option-cases (get k m.by_id)) [
    | inl gone ↦ rw (gone, Files.find_by_id) refl
    | inr (r, there) ↦ rw (there, Files.find_by_id) refl
  ]

  find-same :
      (k : FileId) (rs : List FileRecord) (d : D) (m : Files.Files)
      → IsText k
      → InTable num works db in_transaction table saved laws d rs
      → InMemory m rs
      → answer_found (find_by_id num db k d) ≡ answer_found (returns (Files.find_by_id k m))
  unfolding find_by_id Files.find_by_id
  find-same k rs d m text held known_by =
      rw
        (
          laws.prepared by_id_sql d,
          text,
          laws.by_id (text_value k) d,
          held.rows_are,
          where_id num works k rs held.fit,
        )
        (found-first (matching (λ r. r.id) k rs)
            (AllFit-matching num works (λ r. r.id) k rs held.fit)
          ∙ (ap found_in (sym (known_by.found k)) ∙ found_in-get k m))

  rows-read :
      (k : UserId) (rs : List FileRecord) (d : D)
      → InTable num works db in_transaction table saved laws d rs
      → records_from num (where_column 1 (text_value k) (table d))
        ≡ returns (matching (λ r. r.owner) k rs)
  rows-read k rs d held =
      rw (held.rows_are, where_owner num works k rs held.fit)
        (records_from-map num works (matching (λ r. r.owner) k rs)
          (AllFit-matching num works (λ r. r.owner) k rs held.fit))

  list-same :
      (k : UserId) (rs : List FileRecord) (d : D) (m : Files.Files)
      → IsText k
      → InTable num works db in_transaction table saved laws d rs
      → InMemory m rs
      → Alike
          (answer_listed (find_by_owner num db k d))
          (listed_them (Files.find_by_owner iterate k m))
  unfolding find_by_owner Files.find_by_owner
  list-same k rs d m text held known_by =
      let (qs, read, p) =
        records_from-Permᴰ num works (laws.by_owner (text_value k) d) (rows-read k rs d held) in
      let listed : Permᴰ (Files.owned k rs) (Files.owned k (iterate m.by_id)) = owned-Permᴰ k (
        subst (λ (l : List FileRecord). Permᴰ l (iterate m.by_id)) known_by.listed
          (walks m.by_id)) in
      rw (laws.prepared by_owner_sql d, text, read)
        (Permᴰ.trans (Permᴰ.symm p) (
          subst (λ (l : List FileRecord). Permᴰ l (Files.owned k (iterate m.by_id)))
            (owned-matching k rs) listed))

  ask-same :
      (k : Bytes) (rs : List FileRecord) (d : D) (m : Files.Files)
      → IsText k
      → InTable num works db in_transaction table saved laws d rs
      → InMemory m rs
      → exists_upload_id num db k d ≡ Files.exists_upload_id k m
  unfolding exists_upload_id Files.exists_upload_id
  ask-same k rs d m text held known_by =
      rw
        (
          laws.prepared count_sql d,
          text,
          laws.counted (text_value k) d,
          held.rows_are,
          where_upload num works k rs held.fit,
          known_by.uploads k,
        )
        (count-is_there (matching (λ r. r.upload_id) k rs))

  save-same :
      (r : FileRecord) (rs : List FileRecord) (d : D) (m : Files.Files)
      → RowFits num works r
      → IsNamed r
      → InTable num works db in_transaction table saved laws d rs
      → InMemory m rs
      → (answer_save (save num db r d).0 ≡ answer_save (Files.save r m))
        × ((qs : List FileRecord) × InTable num works db in_transaction table saved laws
              (save num db r d).1
              qs
            × InMemory (after_save (Files.save r m) m) qs)
  save-same r rs d m fit named held known_by = elim (Bool-cases (is_taken r rs)) [
    | inl taken ↦
        let (refused_it, kept) =
          save_taken num works db in_transaction table saved laws r rs d fit held taken in
        let (message, threw) = save-taken m rs r known_by named taken in
        (rw (refused_it, threw) refl, (rs, kept, rw threw known_by))
    | inr free ↦
        let (done, grown) =
          save_free num works db in_transaction table saved laws r rs d fit held free in
        let returned = save-free m rs r known_by named free in
        let added_it = added-InMemory m rs r known_by free in
        (rw (done, returned) refl, (rs ++ r ∷ [], grown, rw returned added_it))
  ]

  -- Over a table and a memory that hold the same records, outside a transaction, every sequence of
  -- calls that bring records a row can hold, with an id, an upload id and a name for the blob, and
  -- texts without NUL, is answered alike, but for the order of the records of an owner.
  pub on_sqlite-on_memory :
      (cs : List Call) (rs : List FileRecord) (d : D) (m : Files.Files)
      → All IsFit cs
      → InTable num works db in_transaction table saved laws d rs
      → InMemory m rs
      → AllAlike (on_sqlite num db cs d) (on_memory iterate cs m)
  unfolding on_sqlite on_memory
  on_sqlite-on_memory [] rs d m fit held known_by = tt
  on_sqlite-on_memory (saving r ∷ cs) rs d m ((p, named), ps) held known_by =
      let (same, (qs, held', known_by')) = save-same r rs d m p named held known_by in
      (
        Alike-eq _ _ same,
        on_sqlite-on_memory cs qs (save num db r d).1 (after_save (Files.save r m) m) ps held'
            known_by',
      )
  on_sqlite-on_memory (finding k ∷ cs) rs d m (p, ps) held known_by = (
    Alike-eq _ _ (find-same k rs d m p held known_by),
    on_sqlite-on_memory cs rs d m ps held known_by,
  )
  on_sqlite-on_memory (listing k ∷ cs) rs d m (p, ps) held known_by =
      (list-same k rs d m p held known_by, on_sqlite-on_memory cs rs d m ps held known_by)
  on_sqlite-on_memory (asking k ∷ cs) rs d m (p, ps) held known_by =
      (ap known (ask-same k rs d m p held known_by), on_sqlite-on_memory cs rs d m ps held known_by)
