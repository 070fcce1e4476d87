-- ===== src/Sqlite/Answers.antt =====
-- The port `IFileRepository` as its callers see it: the calls, their answers, and the answers of
-- `MemoryFileRepository`.
use secure_file_transfer.Base.{
  ◌≡◌, refl, subst, Bool, true, false, str_eq, List, [], ◌∷◌, Bytes, Bool-cases, inl, inr, returns,
  throws, validation, Outcome,
}
use secure_file_transfer.Base.Dict.{Dict}
use mathlib.Core.List.Permᴰ
use mathlib.Core.List.{Permᴰ}
use secure_file_transfer.Domain.Records.{FileRecord, FileId, UserId, Result, success, failure}
use secure_file_transfer.Files
use secure_file_transfer.Sqlite.Catalog.{first}

-- A call of the port, and what its caller sees.
pub data Call : Type 0 where
  saving : FileRecord → Call
  finding : FileId → Call
  listing : UserId → Call
  asking : Bytes → Call

pub data Answer : Type 0 where
  saved_it refused missing broken : Answer
  found_it : FileRecord → Answer
  listed_them : List FileRecord → Answer
  known : Bool → Answer

-- A validation error is one answer, whatever its message.
abbrev pub answer_save : {A : Type 0} → Outcome A → Answer
answer_save (returns a) = saved_it
answer_save (throws (validation m)) = refused
answer_save (throws e) = broken

abbrev pub answer_found : Outcome (Result FileRecord) → Answer
answer_found (returns (success r)) = found_it r
answer_found (returns (failure m)) = missing
answer_found (throws e) = broken

abbrev pub answer_listed : Outcome (List FileRecord) → Answer
answer_listed (returns rs) = listed_them rs
answer_listed (throws e) = broken

abbrev pub after_save : Outcome Files.Files → Files.Files → Files.Files
after_save (returns m') m = m'
after_save (throws e) m = m

-- Two answers that a caller who does not look at the order of a list cannot tell apart.
abbrev pub Alike : Answer → Answer → Type 0
Alike (listed_them rs) (listed_them qs) = Permᴰ rs qs
Alike (listed_them rs) saved_it = listed_them rs ≡ saved_it
Alike (listed_them rs) refused = listed_them rs ≡ refused
Alike (listed_them rs) missing = listed_them rs ≡ missing
Alike (listed_them rs) broken = listed_them rs ≡ broken
Alike (listed_them rs) (found_it r) = listed_them rs ≡ found_it r
Alike (listed_them rs) (known b) = listed_them rs ≡ known b
Alike saved_it b = saved_it ≡ b
Alike refused b = refused ≡ b
Alike missing b = missing ≡ b
Alike broken b = broken ≡ b
Alike (found_it r) b = found_it r ≡ b
Alike (known c) b = known c ≡ b

pub Alike-eq : (a b : Answer) → a ≡ b → Alike a b
Alike-eq a b e = subst (Alike a) e (go a)
  where
    go : (x : Answer) → Alike x x
    go (listed_them rs) = Permᴰ.refl rs
    go saved_it = refl
    go refused = refl
    go missing = refl
    go broken = refl
    go (found_it r) = refl
    go (known c) = refl

abbrev pub AllAlike : List Answer → List Answer → Type 0
AllAlike [] [] = Unit
AllAlike [] (b ∷ bs) = ⊥
AllAlike (a ∷ as_) [] = ⊥
AllAlike (a ∷ as_) (b ∷ bs) = Alike a b × AllAlike as_ bs

-- The records of an owner, in another order if the records are.
pub owned-Permᴰ :
    (k : UserId) {rs qs : List FileRecord}
    → Permᴰ rs qs
    → Permᴰ (Files.owned k rs) (Files.owned k qs)
unfolding Files.owned
owned-Permᴰ k Permᴰ.nil = Permᴰ.nil
owned-Permᴰ k (Permᴰ.cons {a} {b} {l₁} {l₂} same d) = elim (Bool-cases (str_eq a.owner k)) [
  | inl hit ↦
      let there : str_eq b.owner k ≡ true = rw (← same) hit in
      rw (hit, there) (Permᴰ.cons same (owned-Permᴰ k d))
  | inr miss ↦
      let there : str_eq b.owner k ≡ false = rw (← same) miss in rw (miss, there) (owned-Permᴰ k d)
]
owned-Permᴰ k (Permᴰ.swap {a} {b} {a'} {b'} {l} first second) =
    subst (λ (y : FileRecord). Permᴰ (Files.owned k (a ∷ (b ∷ l))) (Files.owned k (a' ∷ (y ∷ l))))
      first
      (subst (λ (y : FileRecord). Permᴰ (Files.owned k (a ∷ (b ∷ l))) (Files.owned k (y ∷ (a ∷ l))))
        second (swapped a b))
  where
    swapped : (x y : FileRecord) → Permᴰ (Files.owned k (x ∷ (y ∷ l))) (Files.owned k (y ∷ (x ∷ l)))
    swapped x y = elim (Bool-cases (str_eq x.owner k)) [
      | inl hit ↦ elim (Bool-cases (str_eq y.owner k)) [
        | inl also ↦ rw (hit, also) (Permᴰ.swap refl refl)
        | inr miss ↦ rw (hit, miss) (Permᴰ.refl _)
      ]
      | inr miss ↦ elim (Bool-cases (str_eq y.owner k)) [
        | inl hit ↦ rw (miss, hit) (Permᴰ.refl _)
        | inr also ↦ rw (miss, also) (Permᴰ.refl _)
      ]
    ]
owned-Permᴰ k (Permᴰ.trans c d) = Permᴰ.trans (owned-Permᴰ k c) (owned-Permᴰ k d)

-- The answers to a sequence of calls. `iterate` is the order in which the library walks a map.
module _ (iterate : Dict FileRecord → List FileRecord) where
  unfoldable pub on_memory : List Call → Files.Files → List Answer
  on_memory [] m = []
  on_memory (saving r ∷ cs) m =
      answer_save (Files.save r m) ∷ on_memory cs (after_save (Files.save r m) m)
  on_memory (finding id ∷ cs) m = answer_found (returns (Files.find_by_id id m)) ∷ on_memory cs m
  on_memory (listing owner ∷ cs) m =
      listed_them (Files.find_by_owner iterate owner m) ∷ on_memory cs m
  on_memory (asking up ∷ cs) m = known (Files.exists_upload_id up m) ∷ on_memory cs m
