-- ===== src/Tests/Catalogs.antt =====
-- A small table of files, with what SQLite documents of it, and calls on it and on the memory.
use secure_file_transfer.Base.{
  ◌≡◌, refl, ap, Bool, true, false, List, [], ◌∷◌, Bytes, codes, str_eq, length, if◌then◌else◌,
  is_empty,
}
use secure_file_transfer.Base.Dict.{Dict, get, values, contains}
use secure_file_transfer.Files.{no_files}
use secure_file_transfer.Sqlite.{Sqlite, Value, int_value, step_done, step_constraint, c_str}
use secure_file_transfer.Sqlite.Files.{insert_sql, by_id_sql, by_owner_sql}
use secure_file_transfer.Sqlite.Tables.{FilesTable, violates, where_column}
use secure_file_transfer.Sqlite.Catalog.{matching}
use mathlib.Core.List as List
use mathlib.Core.List.Permᴰ
use secure_file_transfer.Domain.Records.{FileRecord}
use secure_file_transfer.Sqlite.Answers.{
  Call, saving, finding, listing, asking, on_memory, AllAlike,
}
use secure_file_transfer.Sqlite.Simulation.{on_sqlite, on_sqlite-on_memory}
use secure_file_transfer.Tests.Database.{
  Row, Small, run, stepped, tested-Lawful, run-begins, run-commits, run-rolls_back, small_numbers,
  small-NumbersWork, small_file, small_file-RowFits,
}

abbrev chosen : Bytes → Value → List Row → List Row
chosen sql v rows =
    if str_eq sql by_id_sql
    then where_column 0 v rows
    else if str_eq sql by_owner_sql
    then List.reverse (where_column 1 v rows)
    else (int_value (length (where_column 9 v rows)) ∷ []) ∷ []

abbrev asked : Bytes → List Value → List Row → List Row
asked sql [] rows = rows
asked sql (v ∷ vs) rows = chosen sql v rows

abbrev catalog : Sqlite Small
catalog = record {
  run_sql = run;
  prepares = λ sql d. true;
  step = λ sql values d. stepped (violates values d.table) values d;
  changes = λ d. 1;
  rows = λ sql values d. asked sql values d.table;
}

stepped-code :
    (b : Bool) (values : Row) (d : Small)
    → (stepped b values d).0 ≡ (if b then step_constraint else step_done)
stepped-code true values d = refl
stepped-code false values d = refl

catalog-FilesTable : FilesTable catalog (λ d. d.inside) (λ d. d.table) (λ d. d.saved)
unfolding str_eq
catalog-FilesTable = record {
  lawful =
      tested-Lawful (λ values d. violates values d.table) insert_sql (λ d. 1)
        (λ sql values d. asked sql values d.table);
  prepared = λ sql d. refl;
  begin_works = λ d e. ap (λ x. x.0) (run-begins d e);
  commit_works = λ d e. ap (λ x. x.0) (run-commits d e);
  rollback_works = λ d e. ap (λ x. x.0) (run-rolls_back d e);
  unique = λ values d. stepped-code (violates values d.table) values d;
  one_row = λ values d e. refl;
  by_id = λ v d. refl;
  by_owner = λ v d. Permᴰ.symm (Permᴰ.reverse _);
  counted = λ v d. refl;
}

abbrev five_calls : List Call
five_calls =
    saving small_file
    ∷ (saving small_file
        ∷ (finding (codes "f9") ∷ (listing (codes "u1") ∷ (asking (codes "none") ∷ []))))

abbrev nothing : Small
nothing = record { table = []; saved = []; inside = false }

-- A map that is walked from its end.
abbrev backwards : Dict FileRecord → List FileRecord
backwards m = List.reverse (values m)

on_sqlite-on_memory_example :
    AllAlike
      (on_sqlite small_numbers catalog five_calls nothing)
      (on_memory backwards five_calls no_files)
unfolding c_str get values contains matching is_empty
on_sqlite-on_memory_example =
    on_sqlite-on_memory small_numbers small-NumbersWork catalog (λ d. d.inside) (λ d. d.table)
      (λ d. d.saved) catalog-FilesTable backwards (λ m. Permᴰ.symm (Permᴰ.reverse (values m)))
      five_calls [] nothing no_files
      (
        (small_file-RowFits, (refl, refl, refl)),
        ((small_file-RowFits, (refl, refl, refl)), (refl, (refl, (refl, tt)))),
      )
      (record { rows_are = refl; committed = refl; outside = refl; fit = tt })
      (record { listed = refl; found = λ k. refl; uploads = λ k. refl; storages = λ k. refl })
