-- ===== src/Sqlite/Catalog.antt =====
-- What both file repositories promise, as a list of records in the order in which they were saved.
use secure_file_transfer.Base.{
  ◌≡◌, refl, sym, ap, ◌∙◌, Bool, true, false, ◌||◌, List, [], ◌∷◌, ◌++◌, Bytes, codes, str_eq,
  str_eq_iff, append-nil, is_empty, ◌⊎◌, returns, throws, validation, if◌then◌else◌, Option, none,
  some, arith, Bool-cases, inl, inr,
}
use secure_file_transfer.Base.Dict.{
  Dict, get, put, emplace_fresh, contains, contains-none, values, get-put,
}
use secure_file_transfer.Domain.Records.{FileRecord}
use secure_file_transfer.Files.{Files, save, added}

-- The records whose field is this text.
unfoldable pub matching : (FileRecord → Bytes) → Bytes → List FileRecord → List FileRecord
matching f k [] = []
matching f k (r ∷ rs) = let rest = matching f k rs in if str_eq (f r) k then r ∷ rest else rest

abbrev pub first : List FileRecord → Option FileRecord
first [] = none
first (r ∷ rs) = some r

abbrev pub is_there : List FileRecord → Bool
is_there [] = false
is_there (r ∷ rs) = true

-- Whether another record has the id, the upload id or the name of the blob of this one.
abbrev pub is_taken : FileRecord → List FileRecord → Bool
is_taken r rs =
    is_there (matching (λ q. q.id) r.id rs)
    || (is_there (matching (λ q. q.upload_id) r.upload_id rs)
        || is_there (matching (λ q. q.storage_id) r.storage_id rs))

pub matching-append :
    (f : FileRecord → Bytes) (k : Bytes) (rs : List FileRecord) (r : FileRecord)
    → matching f k (rs ++ r ∷ []) ≡ matching f k rs ++ (if str_eq (f r) k then r ∷ [] else [])
unfolding matching
matching-append f k [] r = ground arith
matching-append f k (q ∷ qs) r = ground (arith, matching-append f k qs r)

is_there-nil : (rs : List FileRecord) → is_there rs ≡ false → rs ≡ []
is_there-nil [] h = refl
is_there-nil (r ∷ rs) h = cc

is_there-one : (rs : List FileRecord) (r : FileRecord) → is_there (rs ++ r ∷ []) ≡ true
is_there-one [] r = refl
is_there-one (q ∷ qs) r = refl

matching-cases :
    (f : FileRecord → Bytes) (k : Bytes) (rs : List FileRecord) (r : FileRecord)
    → ((str_eq (f r) k ≡ true)
        × (f r ≡ k)
        × (matching f k (rs ++ r ∷ []) ≡ matching f k rs ++ r ∷ []))
      ⊎ ((str_eq (f r) k ≡ false) × (matching f k (rs ++ r ∷ []) ≡ matching f k rs))
matching-cases f k rs r = elim (Bool-cases (str_eq (f r) k)) [
  | inl e ↦ inl (e, (str_eq_iff (f r) k).0 e, matching-append f k rs r ∙ rw e refl)
  | inr e ↦ inr (e, matching-append f k rs r ∙ rw e (append-nil (matching f k rs)))
]

-- A new record is the first with its text, and no other text has another first.
pub first-append :
    (f : FileRecord → Bytes) (k : Bytes) (rs : List FileRecord) (r : FileRecord)
    → is_there (matching f (f r) rs) ≡ false
    → first (matching f k (rs ++ r ∷ []))
      ≡ (if str_eq (f r) k then some r else first (matching f k rs))
first-append f k rs r new = elim (matching-cases f k rs r) [
  | inl (e, same, grown) ↦
      let none_yet : matching f k rs ≡ [] =
        ap (λ j. matching f j rs) (sym same) ∙ is_there-nil (matching f (f r) rs) new in
      rw (e, grown, none_yet) refl
  | inr (e, kept) ↦ rw (e, kept) refl
]

pub is_there-append :
    (f : FileRecord → Bytes) (k : Bytes) (rs : List FileRecord) (r : FileRecord)
    → is_there (matching f k (rs ++ r ∷ []))
      ≡ (if str_eq (f r) k then true else is_there (matching f k rs))
is_there-append f k rs r = elim (matching-cases f k rs r) [
  | inl (e, same, grown) ↦ rw (e, grown) (is_there-one (matching f k rs) r)
  | inr (e, kept) ↦ rw (e, kept) refl
]

-- The repository in memory over these records.
pub record InMemory (m : Files) (rs : List FileRecord) : Type 0 where
  pub listed : values m.by_id ≡ rs
  pub found : (k : Bytes) → get k m.by_id ≡ first (matching (λ q. q.id) k rs)
  pub uploads :
      (k : Bytes) → contains k m.upload_to_id ≡ is_there (matching (λ q. q.upload_id) k rs)
  pub storages :
      (k : Bytes) → contains k m.storage_to_id ≡ is_there (matching (λ q. q.storage_id) k rs)

abbrev pub IsNamed : FileRecord → Type 0
IsNamed r =
    (is_empty r.id ≡ false) × (is_empty r.upload_id ≡ false) × (is_empty r.storage_id ≡ false)

values-put_fresh :
    (k : Bytes) (v : FileRecord) (m : Dict FileRecord)
    → get k m ≡ none
    → values (put k v m) ≡ values m ++ v ∷ []
unfolding get put values
values-put_fresh k v [] e = refl
values-put_fresh k v ((j, w) ∷ m) e = elim (Bool-cases (str_eq j k)) [
  | inl hit ↦ absurd (cc (rw hit at e))
  | inr miss ↦ rw miss (ap (◌∷◌ w) (values-put_fresh k v m (rw miss at e)))
]

contains-put :
    (k j : Bytes) (v : Bytes) (m : Dict Bytes)
    → contains j (put k v m) ≡ (if str_eq k j then true else contains j m)
unfolding contains
contains-put k j v m = elim (Bool-cases (str_eq k j)) [
  | inl e ↦
      let there : get j (put k v m) ≡ some v = get-put k j v m ∙ rw e refl in
      rw (e, there, contains) refl
  | inr e ↦
      let kept : get j (put k v m) ≡ get j m = get-put k j v m ∙ rw e refl in
      rw e (ap (λ o. elim o as (λ x. Bool) [ none ↦ false | some w ↦ true ]) kept)
]

first-none : (rs : List FileRecord) → is_there rs ≡ false → first rs ≡ none
first-none rs h = ap first (is_there-nil rs h)

contains-first :
    (k : Bytes) (m : Dict FileRecord) (rs : List FileRecord)
    → get k m ≡ first rs
    → contains k m ≡ is_there rs
unfolding contains
contains-first k m [] e = rw (e, contains) refl
contains-first k m (r ∷ rs) e = rw (e, contains) refl

abbrev why : Bool → Bool → Bytes
why true b = codes "duplicate id"
why false true = codes "duplicate upload_id"
why false false = codes "duplicate storage_id"

module _ (m : Files) (rs : List FileRecord) (r : FileRecord) (held : InMemory m rs) where
  has_id : contains r.id m.by_id ≡ is_there (matching (λ q. q.id) r.id rs)
  has_id = contains-first r.id m.by_id (matching (λ q. q.id) r.id rs) (held.found r.id)

  -- A save in memory refuses a record that is taken, and else puts it at the end.
  pub save-taken :
      IsNamed r
      → is_taken r rs ≡ true
      → (message : Bytes) × (save r m ≡ throws (validation message))
  unfolding save
  save-taken named taken = (
    why (is_there (matching (λ q. q.id) r.id rs))
        (is_there (matching (λ q. q.upload_id) r.upload_id rs)),
    rw (named.0, named.1, named.2, has_id, held.uploads r.upload_id, held.storages r.storage_id)
        (ground arith),
  )

  pub save-free : IsNamed r → is_taken r rs ≡ false → save r m ≡ returns (added r m)
  unfolding save
  save-free named free =
      rw (named.0, named.1, named.2, has_id, held.uploads r.upload_id, held.storages r.storage_id)
        (ground arith)

  pub added-InMemory : is_taken r rs ≡ false → InMemory (added r m) (rs ++ r ∷ [])
  added-InMemory free =
      let no_id : is_there (matching (λ q. q.id) r.id rs) ≡ false = ground arith in
      let no_upload : is_there (matching (λ q. q.upload_id) r.upload_id rs) ≡ false =
        ground arith in
      let no_storage : is_there (matching (λ q. q.storage_id) r.storage_id rs) ≡ false =
        ground arith in
      let new = contains-none r.id m.by_id (has_id ∙ no_id) in
      let new_upload =
        contains-none r.upload_id m.upload_to_id (held.uploads r.upload_id ∙ no_upload) in
      let new_storage =
        contains-none r.storage_id m.storage_to_id (held.storages r.storage_id ∙ no_storage) in
      let by_id = emplace_fresh r.id r m.by_id new in
      let by_upload = emplace_fresh r.upload_id r.id m.upload_to_id new_upload in
      let by_storage = emplace_fresh r.storage_id r.id m.storage_to_id new_storage in
      record {
        listed =
            ap values by_id
            ∙ (values-put_fresh r.id r m.by_id new ∙ ap (λ l. l ++ r ∷ []) held.listed);
        found = λ k.
            ap (get k) by_id
            ∙ (get-put r.id k r m.by_id
                ∙ (ap (λ o. if str_eq r.id k then some r else o) (held.found k)
                    ∙ sym (first-append (λ q. q.id) k rs r no_id)));
        uploads = λ k.
            ap (contains k) by_upload
            ∙ (contains-put r.upload_id k r.id m.upload_to_id
                ∙ (ap (λ o. if str_eq r.upload_id k then true else o) (held.uploads k)
                    ∙ sym (is_there-append (λ q. q.upload_id) k rs r)));
        storages = λ k.
            ap (contains k) by_storage
            ∙ (contains-put r.storage_id k r.id m.storage_to_id
                ∙ (ap (λ o. if str_eq r.storage_id k then true else o) (held.storages k)
                    ∙ sym (is_there-append (λ q. q.storage_id) k rs r)));
      }
