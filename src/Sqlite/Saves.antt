-- ===== src/Sqlite/Saves.antt =====
-- What `save` of `SqliteFileRepository` does to the table of a database that does what SQLite documents.
use secure_file_transfer.Base.{
  ◌≡◌, inl, inr, Bool, refl, sym, ap, ◌∙◌, true, false, List, [], ◌∷◌, ◌++◌, map, Bytes, codes,
  if◌then◌else◌, All-append, returns, throws, validation,
}
use mathlib.Core.List.{map-append}
use secure_file_transfer.Domain.Records.{FileRecord}
use secure_file_transfer.Sqlite.{Sqlite, Value, step_done, step_constraint, insert, exec}
use secure_file_transfer.Sqlite.Insert.{insert-commits, insert-duplicate}
use secure_file_transfer.Sqlite.Files.{Numbers, insert_sql, row_of, save}
use secure_file_transfer.Sqlite.RoundTrip.{NumbersWork, RowFits}
use secure_file_transfer.Sqlite.Catalog.{is_taken}
use secure_file_transfer.Sqlite.Tables.{FilesTable, AllFit, violates-is_taken}

module _ {D : Type 0} (num : Numbers) (works : NumbersWork num) (db : Sqlite D)
    (in_transaction : D → Bool) (table saved : D → List (List Value))
    (laws : FilesTable db in_transaction table saved) where
  -- The table has the rows of these records, and all of it is committed.
  pub record InTable (d : D) (rs : List FileRecord) : Type 0 where
    pub rows_are : table d ≡ map (row_of num) rs
    pub committed : saved d ≡ table d
    pub outside : in_transaction d ≡ false
    pub fit : AllFit num works rs

  step_outcome :
      (r : FileRecord) (rs : List FileRecord) (d : D)
      → RowFits num works r
      → InTable d rs
      → (db.step insert_sql (row_of num r) (db.run_sql (codes "BEGIN IMMEDIATE;") d).1).0
        ≡ (if is_taken r rs then step_constraint else step_done)
  step_outcome r rs d fit held =
      laws.unique (row_of num r) (db.run_sql (codes "BEGIN IMMEDIATE;") d).1
      ∙ rw
          (
            (laws.lawful.begins d held.outside (laws.begin_works d held.outside)).0,
            held.rows_are,
            violates-is_taken num works r rs fit held.fit,
          )
          refl

  -- The state in which the statement is run, and the one it leaves.
  abbrev begun : D → D
  begun d = (db.run_sql (codes "BEGIN IMMEDIATE;") d).1

  begun-inside : (d : D) → in_transaction d ≡ false → in_transaction (begun d) ≡ true
  begun-inside d outside = (laws.lawful.begins d outside (laws.begin_works d outside)).2

  insert-done :
      (r : FileRecord) (duplicate : Bytes) (d : D)
      → in_transaction d ≡ false
      → (db.step insert_sql (row_of num r) (begun d)).0 ≡ step_done
      → (insert db insert_sql (row_of num r) duplicate d).0 ≡ returns tt
  unfolding insert exec
  insert-done r duplicate d outside code =
      let (unsaved, still) =
        laws.lawful.keeps_saved (row_of num r) (begun d) (begun-inside d outside) (inl code) in
      rw
        (
          laws.begin_works d outside,
          laws.prepared insert_sql (begun d),
          code,
          laws.one_row (row_of num r) (begun d) code,
          laws.commit_works (db.step insert_sql (row_of num r) (begun d)).1 still,
        )
        refl

  pub save_free :
      (r : FileRecord) (rs : List FileRecord) (d : D)
      → RowFits num works r
      → InTable d rs
      → is_taken r rs ≡ false
      → ((save num db r d).0 ≡ returns tt) × InTable (save num db r d).1 (rs ++ r ∷ [])
  unfolding save
  save_free r rs d fit held free =
      let taken_message = codes "duplicate upload_id or storage_id or id" in
      let done =
        insert-done r taken_message d held.outside (step_outcome r rs d fit held ∙ rw free refl) in
      let (grown, kept, over, unsaved) =
        insert-commits db insert_sql in_transaction table saved laws.lawful (row_of num r)
          taken_message d held.outside done in
      (
        done,
        record {
          rows_are =
              grown
              ∙ (ap (λ t. t ++ row_of num r ∷ []) held.rows_are
                  ∙ sym (map-append (row_of num) rs (r ∷ [])));
          committed = kept;
          outside = over;
          fit = All-append (RowFits num works) rs (r ∷ []) held.fit (fit, tt);
        },
      )

  pub save_taken :
      (r : FileRecord) (rs : List FileRecord) (d : D)
      → RowFits num works r
      → InTable d rs
      → is_taken r rs ≡ true
      → ((save num db r d).0
          ≡ throws (validation (codes "duplicate upload_id or storage_id or id")))
        × InTable (save num db r d).1 rs
  unfolding save
  save_taken r rs d fit held taken =
      let taken_message = codes "duplicate upload_id or storage_id or id" in
      let code = step_outcome r rs d fit held ∙ rw taken refl in
      let (unsaved, still) =
        laws.lawful.keeps_saved (row_of num r) (begun d) (begun-inside d held.outside) (inr code) in
      let (refused_it, back, kept, over) =
        insert-duplicate db insert_sql in_transaction table saved laws.lawful (row_of num r)
          taken_message d held.outside (laws.begin_works d held.outside) code
          (laws.rollback_works (db.step insert_sql (row_of num r) (begun d)).1 still)
          (laws.prepared insert_sql (begun d)) in
      (
        refused_it,
        record {
          rows_are = back ∙ (held.committed ∙ held.rows_are);
          committed = kept ∙ sym back;
          outside = over;
          fit = held.fit;
        },
      )
