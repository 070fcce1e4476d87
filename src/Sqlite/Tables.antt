-- ===== src/Sqlite/Tables.antt =====
-- What SQLite documents of the table `files` and of the statements of `SqliteFileRepository`, and what
-- its queries find among the rows of file records.
use secure_file_transfer.Base.{
  ℕ, ◌≡◌, refl, ap, sym, subst, ◌∙◌, Outcome-cases, Bool, true, false, ◌||◌, List, [], ◌∷◌, map,
  Bytes, codes, str_eq, length, ◌==◌, if◌then◌else◌, none, All, Bool-cases, inl, inr, returns,
}
use mathlib.Core.List.{Permᴰ}
use secure_file_transfer.Domain.Records.{FileRecord}
use secure_file_transfer.Sqlite.{
  Sqlite, Value, text_value, int_value, blob_value, null_value, step_done, step_constraint, column,
}
use secure_file_transfer.Sqlite.Insert.{Lawful}
use secure_file_transfer.Sqlite.Files.{
  Numbers, insert_sql, by_id_sql, by_owner_sql, count_sql, row_of, records_from, record_from,
}
use secure_file_transfer.Sqlite.RoundTrip.{NumbersWork, RowFits, record_from-row_of}
use secure_file_transfer.Sqlite.Catalog.{matching, is_there, is_taken}

-- `=` of two values, which NULL is not equal to.
abbrev pub value_eq : Value → Value → Bool
value_eq (text_value s) (text_value t) = str_eq s t
value_eq (int_value m) (int_value n) = m == n
value_eq (blob_value b) (blob_value c) = str_eq b c
value_eq (text_value s) _ = false
value_eq (int_value m) _ = false
value_eq (blob_value b) _ = false
value_eq null_value _ = false

-- WHERE with one column.
unfoldable pub where_column : ℕ → Value → List (List Value) → List (List Value)
where_column i v [] = []
where_column i v (row ∷ rows) =
    let rest = where_column i v rows in if value_eq (column i row) v then row ∷ rest else rest

abbrev pub has_row : List (List Value) → Bool
has_row [] = false
has_row (row ∷ rows) = true

-- PRIMARY KEY of the id, UNIQUE of the upload id and of the blob's name.
abbrev pub violates : List Value → List (List Value) → Bool
violates values rows =
    has_row (where_column 0 (column 0 values) rows)
    || (has_row (where_column 9 (column 9 values) rows)
        || has_row (where_column 4 (column 4 values) rows))

-- A database that is at nobody else's disposal and whose calls are not refused by the file system.
pub record FilesTable {D : Type 0} (db : Sqlite D) (in_transaction : D → Bool)
    (table saved : D → List (List Value)) : Type 0 where
  pub lawful : Lawful db insert_sql in_transaction table saved
  -- Every statement can be prepared; a transaction begins where there is none, and ends where there is.
  pub prepared : (sql : Bytes) (d : D) → db.prepares sql d ≡ true
  pub begin_works :
      (d : D) → in_transaction d ≡ false → (db.run_sql (codes "BEGIN IMMEDIATE;") d).0 ≡ none
  pub commit_works : (d : D) → in_transaction d ≡ true → (db.run_sql (codes "COMMIT;") d).0 ≡ none
  pub rollback_works :
      (d : D) → in_transaction d ≡ true → (db.run_sql (codes "ROLLBACK;") d).0 ≡ none
  -- An INSERT writes its row, or violates a constraint.
  pub unique :
      (values : List Value) (d : D)
      → (db.step insert_sql values d).0
        ≡ (if violates values (table d) then step_constraint else step_done)
  pub one_row :
      (values : List Value) (d : D)
      → (db.step insert_sql values d).0 ≡ step_done
      → db.changes (db.step insert_sql values d).1 ≡ 1
  -- The queries.
  pub by_id : (v : Value) (d : D) → db.rows by_id_sql (v ∷ []) d ≡ where_column 0 v (table d)
  -- Without ORDER BY, the rows come in any order.
  pub by_owner :
      (v : Value) (d : D) → Permᴰ (where_column 1 v (table d)) (db.rows by_owner_sql (v ∷ []) d)
  pub counted :
      (v : Value) (d : D)
      → db.rows count_sql (v ∷ []) d ≡ (int_value (length (where_column 9 v (table d))) ∷ []) ∷ []

module _ (num : Numbers) (works : NumbersWork num) where
  abbrev pub AllFit : List FileRecord → Type 0
  AllFit rs = All (RowFits num works) rs

  -- A column that holds a field of every record.
  where_column-matching :
      (i : ℕ) (f : FileRecord → Bytes) (k : Bytes) (rs : List FileRecord)
      → ((r : FileRecord) → RowFits num works r → column i (row_of num r) ≡ text_value (f r))
      → AllFit rs
      → where_column i (text_value k) (map (row_of num) rs) ≡ map (row_of num) (matching f k rs)
  unfolding where_column matching
  where_column-matching i f k [] holds fit = refl
  where_column-matching i f k (r ∷ rs) holds (p, ps) =
      let rest = where_column-matching i f k rs holds ps in
      elim (Bool-cases (str_eq (f r) k)) [
        | inl e ↦ rw (holds r p, e, rest) refl
        | inr e ↦ rw (holds r p, e, rest) refl
      ]

  column-id : (r : FileRecord) → RowFits num works r → column 0 (row_of num r) ≡ text_value r.id
  unfolding row_of
  column-id r fit = ap text_value fit.id_text

  column-owner :
      (r : FileRecord) → RowFits num works r → column 1 (row_of num r) ≡ text_value r.owner
  unfolding row_of
  column-owner r fit = ap text_value fit.owner_text

  column-storage :
      (r : FileRecord) → RowFits num works r → column 4 (row_of num r) ≡ text_value r.storage_id
  unfolding row_of
  column-storage r fit = ap text_value fit.storage_text

  column-upload :
      (r : FileRecord) → RowFits num works r → column 9 (row_of num r) ≡ text_value r.upload_id
  unfolding row_of
  column-upload r fit = ap text_value fit.upload_text

  pub where_id :
      (k : Bytes) (rs : List FileRecord)
      → AllFit rs
      → where_column 0 (text_value k) (map (row_of num) rs)
        ≡ map (row_of num) (matching (λ r. r.id) k rs)
  where_id k rs = where_column-matching 0 (λ r. r.id) k rs column-id

  pub where_owner :
      (k : Bytes) (rs : List FileRecord)
      → AllFit rs
      → where_column 1 (text_value k) (map (row_of num) rs)
        ≡ map (row_of num) (matching (λ r. r.owner) k rs)
  where_owner k rs = where_column-matching 1 (λ r. r.owner) k rs column-owner

  pub where_storage :
      (k : Bytes) (rs : List FileRecord)
      → AllFit rs
      → where_column 4 (text_value k) (map (row_of num) rs)
        ≡ map (row_of num) (matching (λ r. r.storage_id) k rs)
  where_storage k rs = where_column-matching 4 (λ r. r.storage_id) k rs column-storage

  pub where_upload :
      (k : Bytes) (rs : List FileRecord)
      → AllFit rs
      → where_column 9 (text_value k) (map (row_of num) rs)
        ≡ map (row_of num) (matching (λ r. r.upload_id) k rs)
  where_upload k rs = where_column-matching 9 (λ r. r.upload_id) k rs column-upload

  has_row-map : (rs : List FileRecord) → has_row (map (row_of num) rs) ≡ is_there rs
  has_row-map [] = refl
  has_row-map (r ∷ rs) = refl

  -- A row violates a constraint exactly if its record is taken.
  pub violates-is_taken :
      (r : FileRecord) (rs : List FileRecord)
      → RowFits num works r
      → AllFit rs
      → violates (row_of num r) (map (row_of num) rs) ≡ is_taken r rs
  violates-is_taken r rs fit fits =
      rw
        (
          column-id r fit,
          column-upload r fit,
          column-storage r fit,
          where_id r.id rs fits,
          where_upload r.upload_id rs fits,
          where_storage r.storage_id rs fits,
          has_row-map (matching (λ q. q.id) r.id rs),
          has_row-map (matching (λ q. q.upload_id) r.upload_id rs),
          has_row-map (matching (λ q. q.storage_id) r.storage_id rs),
        )
        refl

  -- The rows of records are read back as the records.
  pub records_from-map :
      (rs : List FileRecord) → AllFit rs → records_from num (map (row_of num) rs) ≡ returns rs
  unfolding records_from
  records_from-map [] fits = refl
  records_from-map (r ∷ rs) (p, ps) =
      rw (record_from-row_of num works r p, records_from-map rs ps) refl

  records_from-cons :
      (row : List Value) (rows : List (List Value)) {rs : List FileRecord}
      → records_from num (row ∷ rows) ≡ returns rs
      → (r : FileRecord) × (qs : List FileRecord) × (record_from num row ≡ returns r)
        × (records_from num rows ≡ returns qs)
        × (r ∷ qs ≡ rs)
  unfolding records_from
  records_from-cons row rows e = elim (Outcome-cases (record_from num row)) [
    | inl (r, read) ↦ elim (Outcome-cases (records_from num rows)) [
      | inl (qs, others) ↦ (r, qs, read, others, cc (rw (read, others) at e))
      | inr (t, failed) ↦ absurd (cc (rw (read, failed) at e))
    ]
    | inr (t, failed) ↦ absurd (cc (rw failed at e))
  ]

  records_from-two :
      (a b : List Value) (rows : List (List Value)) (r q : FileRecord) (qs : List FileRecord)
      → record_from num a ≡ returns r
      → record_from num b ≡ returns q
      → records_from num rows ≡ returns qs
      → records_from num (a ∷ (b ∷ rows)) ≡ returns (r ∷ (q ∷ qs))
  unfolding records_from
  records_from-two a b rows r q qs first second others = rw (first, second, others) refl

  records_from-one :
      (a : List Value) (rows : List (List Value)) (r : FileRecord) (qs : List FileRecord)
      → record_from num a ≡ returns r
      → records_from num rows ≡ returns qs
      → records_from num (a ∷ rows) ≡ returns (r ∷ qs)
  unfolding records_from
  records_from-one a rows r qs first others = rw (first, others) refl

  -- Rows in another order are read back as the records in another order.
  pub records_from-Permᴰ :
      {rows others : List (List Value)} {rs : List FileRecord}
      → Permᴰ rows others
      → records_from num rows ≡ returns rs
      → (qs : List FileRecord) × (records_from num others ≡ returns qs) × Permᴰ rs qs
  unfolding records_from
  records_from-Permᴰ {rs} Permᴰ.nil e =
      let empty : [] ≡ rs = cc in
      ([], refl, subst (λ (l : List FileRecord). Permᴰ l []) empty Permᴰ.nil)
  records_from-Permᴰ (Permᴰ.cons {a} {b} {l₁} {l₂} same d) e =
      let (r, qs, read, rest, whole) = records_from-cons a l₁ e in
      let (qs', rest', p) = records_from-Permᴰ d rest in
      (
        r ∷ qs',
        records_from-one b l₂ r qs' (ap (record_from num) (sym same) ∙ read) rest',
        subst (λ (z : List FileRecord). Permᴰ z (r ∷ qs')) whole (Permᴰ.cons refl p),
      )
  records_from-Permᴰ (Permᴰ.swap {a} {b} {a'} {b'} {l} first second) e =
      let (r, qs, read, rest, whole) = records_from-cons a (b ∷ l) e in
      let (q, qs', read', rest', whole') = records_from-cons b l rest in
      (
        q ∷ (r ∷ qs'),
        records_from-two a' b' l q r qs' (ap (record_from num) (sym second) ∙ read')
            (ap (record_from num) (sym first) ∙ read) rest',
        subst (λ (z : List FileRecord). Permᴰ z (q ∷ (r ∷ qs'))) (ap (◌∷◌ r) whole' ∙ whole)
            (Permᴰ.swap refl refl),
      )
  records_from-Permᴰ (Permᴰ.trans c d) e =
      let (qs, read, p) = records_from-Permᴰ c e in
      let (qs', read', p') = records_from-Permᴰ d read in (qs', read', Permᴰ.trans p p')

  pub AllFit-matching :
      (f : FileRecord → Bytes) (k : Bytes) (rs : List FileRecord)
      → AllFit rs
      → AllFit (matching f k rs)
  unfolding matching
  AllFit-matching f k [] fits = tt
  AllFit-matching f k (r ∷ rs) (p, ps) = elim (Bool-cases (str_eq (f r) k)) [
    | inl e ↦ rw e (p, AllFit-matching f k rs ps)
    | inr e ↦ rw e (AllFit-matching f k rs ps)
  ]
