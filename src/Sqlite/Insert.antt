-- ===== src/Sqlite/Insert.antt =====
-- What a `save` over SQLite leaves in its table.
use secure_file_transfer.Base.{
  ◌≡◌, ◌⊎◌, inl, inr, refl, sym, ap, ◌∙◌, Bool, true, false, List, [], ◌∷◌, ◌++◌, Bytes, codes,
  none, returns, throws, arith, validation,
}
use secure_file_transfer.Sqlite.{Sqlite, Value, step_done, step_constraint, insert, exec}

-- What SQLite documents of one table and one statement that inserts a row into it: `table` is what
-- this connection sees, `saved` what the last commit left, and `in_transaction` is the negation of
-- `sqlite3_get_autocommit`. Nothing is said of a COMMIT, a ROLLBACK or a BEGIN that fails, nor of a
-- statement that fails for another reason than a constraint, which may end the transaction.
pub record Lawful {D : Type 0} (db : Sqlite D) (sql : Bytes) (in_transaction : D → Bool)
    (table saved : D → List (List Value)) : Type 0 where
  -- BEGIN, outside a transaction and where it succeeds, opens one and changes nothing.
  pub begins :
      (d : D)
      → in_transaction d ≡ false
      → (db.run_sql (codes "BEGIN IMMEDIATE;") d).0 ≡ none
      → (table (db.run_sql (codes "BEGIN IMMEDIATE;") d).1 ≡ table d)
        × (saved (db.run_sql (codes "BEGIN IMMEDIATE;") d).1 ≡ saved d)
        × (in_transaction (db.run_sql (codes "BEGIN IMMEDIATE;") d).1 ≡ true)
  -- The statement adds its row at the end.
  pub inserts :
      (values : List Value) (d : D)
      → (db.step sql values d).0 ≡ step_done
      → table (db.step sql values d).1 ≡ table d ++ (values ∷ [])
  -- In a transaction, a statement that is done or that violates a constraint commits nothing and
  -- stays in it; outside one, a statement that is done is committed.
  pub keeps_saved :
      (values : List Value) (d : D)
      → in_transaction d ≡ true
      → ((db.step sql values d).0 ≡ step_done) ⊎ ((db.step sql values d).0 ≡ step_constraint)
      → (saved (db.step sql values d).1 ≡ saved d)
        × (in_transaction (db.step sql values d).1 ≡ true)
  pub autocommits :
      (values : List Value) (d : D)
      → in_transaction d ≡ false
      → (db.step sql values d).0 ≡ step_done
      → saved (db.step sql values d).1 ≡ table (db.step sql values d).1
  -- COMMIT and ROLLBACK, in a transaction and where they succeed, end it.
  pub commits :
      (d : D)
      → in_transaction d ≡ true
      → (db.run_sql (codes "COMMIT;") d).0 ≡ none
      → (table (db.run_sql (codes "COMMIT;") d).1 ≡ table d)
        × (saved (db.run_sql (codes "COMMIT;") d).1 ≡ table d)
        × (in_transaction (db.run_sql (codes "COMMIT;") d).1 ≡ false)
  pub rolls_back :
      (d : D)
      → in_transaction d ≡ true
      → (db.run_sql (codes "ROLLBACK;") d).0 ≡ none
      → (table (db.run_sql (codes "ROLLBACK;") d).1 ≡ saved d)
        × (saved (db.run_sql (codes "ROLLBACK;") d).1 ≡ saved d)
        × (in_transaction (db.run_sql (codes "ROLLBACK;") d).1 ≡ false)

module _ {D : Type 0} (db : Sqlite D) (sql : Bytes) (in_transaction : D → Bool)
    (table saved : D → List (List Value)) (laws : Lawful db sql in_transaction table saved) where
  -- The state after BEGIN, and after the statement.
  abbrev begun : D → D
  begun d = (db.run_sql (codes "BEGIN IMMEDIATE;") d).1

  abbrev written : List Value → D → D
  written values d = (db.step sql values (begun d)).1

  insert-ways :
      (values : List Value) (duplicate : Bytes) (d : D)
      → (insert db sql values duplicate d).0 ≡ returns tt
      → ((db.run_sql (codes "BEGIN IMMEDIATE;") d).0 ≡ none)
        × ((db.step sql values (begun d)).0 ≡ step_done)
        × ((db.run_sql (codes "COMMIT;") (written values d)).0 ≡ none)
        × ((insert db sql values duplicate d).1
            ≡ (db.run_sql (codes "COMMIT;") (written values d)).1)
  unfolding insert exec
  insert-ways values duplicate d done = ground arith

  -- Over a database that does what SQLite documents, an insertion that is called outside a
  -- transaction and returns has added exactly its row, in a transaction of its own that it has
  -- committed: until the commit nothing was committed.
  pub insert-commits :
      (values : List Value) (duplicate : Bytes) (d : D)
      → in_transaction d ≡ false
      → (insert db sql values duplicate d).0 ≡ returns tt
      → let d' = (insert db sql values duplicate d).1 in
        (table d' ≡ table d ++ (values ∷ []))
        × (saved d' ≡ table d')
        × (in_transaction d' ≡ false)
        × (saved (written values d) ≡ saved d)
  insert-commits values duplicate d outside done =
      let (began, code, committed, last) = insert-ways values duplicate d done in
      let (same_table, same_saved, inside) = laws.begins d outside began in
      let (unsaved, still) = laws.keeps_saved values (begun d) inside (inl code) in
      let (kept, same, over) = laws.commits (written values d) still committed in
      let added : table (written values d) ≡ table d ++ (values ∷ []) =
        laws.inserts values (begun d) code ∙ ap (λ t. t ++ (values ∷ [])) same_table in
      (
        ap table last ∙ kept ∙ added,
        ap saved last ∙ same ∙ sym (ap table last ∙ kept),
        ap in_transaction last ∙ over,
        unsaved ∙ same_saved,
      )

  -- The way of an insertion that is refused, where the statement was.
  pub insert-duplicate :
      (values : List Value) (duplicate : Bytes) (d : D)
      → in_transaction d ≡ false
      → (db.run_sql (codes "BEGIN IMMEDIATE;") d).0 ≡ none
      → (db.step sql values (begun d)).0 ≡ step_constraint
      → (db.run_sql (codes "ROLLBACK;") (written values d)).0 ≡ none
      → db.prepares sql (begun d) ≡ true
      → let d' = (insert db sql values duplicate d).1 in
        ((insert db sql values duplicate d).0 ≡ throws (validation duplicate))
        × (table d' ≡ saved d)
        × (saved d' ≡ saved d)
        × (in_transaction d' ≡ false)
  unfolding insert exec
  insert-duplicate values duplicate d outside began code undone prepared =
      let (same_table, same_saved, inside) = laws.begins d outside began in
      let (unsaved, still) = laws.keeps_saved values (begun d) inside (inr code) in
      let (back, kept, over) = laws.rolls_back (written values d) still undone in
      let before = unsaved ∙ same_saved in
      rw (began, prepared, code, undone) (refl, back ∙ before, kept ∙ before, over)
