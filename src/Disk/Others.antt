-- ===== src/Disk/Others.antt =====
-- What the operations on one blob leave alone.
use secure_file_transfer.Base.{
  ℕ, ◌≡◌, refl, Bytes, Option, codes, [], ◌∷◌, true, inl, inr, is_empty, not, Option-cases,
}
use secure_file_transfer.Base.Dict.{Dict, get, erase, get-put_ne}
use secure_file_transfer.Validator.{has_part}
use secure_file_transfer.Disk.{
  Disk, path, part_name, move, exists, publish, staged_write, remove_staged,
}
use secure_file_transfer.Disk.Keeps.{
  Keeps, Keeps-pure, Keeps-raise, Keeps-bind, Keeps-if, Keeps-attempt_call,
}
use secure_file_transfer.Disk.Staging.{
  Keeps-plain_call, Keeps-fsync_dir, Keeps-remove, Keeps-abandon_for, Keeps-stage,
}
use secure_file_transfer.Disk.Ensures.{All-Unit}
use secure_file_transfer.Disk.Crash.{erase_ne}

abbrev Any : Dict Bytes → Type 0
Any m = Unit

module _ (oracle : ℕ → Option ℕ) (reason : ℕ → Bytes) (root id p : Bytes)
    (not_part : ¬ (path root (part_name id) ≡ p)) (not_blob : ¬ (path root id ≡ p))
    (x : Option Bytes) where
  abbrev Same : Dict Bytes → Type 0
  Same m = get p m ≡ x

  seen : (m : Dict Bytes) → Same m → Any m
  seen m h = tt

  same : (m : Dict Bytes) → Same m → Same m
  same m h = h

  erase-Same : (k : Bytes) → ¬ (k ≡ p) → (m : Dict Bytes) → Same m → Same (erase k m)
  erase-Same k other m h = rw (erase_ne k p m other) h

  move-Same : (m : Dict Bytes) → Same m → Same (move (path root (part_name id)) (path root id) m)
  move-Same m h = elim (Option-cases (get (path root (part_name id)) m)) [
    | inl gone ↦ rw gone h
    | inr (bytes, there) ↦ rw there (
        rw (get-put_ne (path root id) p bytes (erase (path root (part_name id)) m) not_blob)
          (erase-Same (path root (part_name id)) not_part m h))
  ]

  Keeps-exists : (q : Bytes) → Keeps Same Any (exists oracle reason q)
  unfolding exists Keeps
  Keeps-exists q d h a = elim (Option-cases (oracle d.calls)) [
    | inl ok ↦ rw ok (h, (tt, a))
    | inr (k, failed) ↦ rw failed (h, (tt, a))
  ]

  Keeps-publish : Keeps Same Any (publish oracle reason (path root (part_name id)) (path root id))
  unfolding publish
  Keeps-publish = Keeps-bind Same Any _ _ (Keeps-exists (path root id)) (λ there.
      Keeps-bind Same Any _ _
        (Keeps-if Same Any there _ _
          (Keeps-remove Same Any oracle reason seen _ (erase-Same (path root id) not_blob))
          (Keeps-pure Same Any true))
        (λ cleared.
          Keeps-bind Same Any _ _
            (Keeps-attempt_call Same Any oracle reason _ _ seen move-Same (λ k. same))
            (λ renamed.
              Keeps-if Same Any (not renamed) _ _
                (Keeps-abandon_for Same Any oracle reason seen _
                  (erase-Same (path root (part_name id)) not_part)
                  (codes "rename tmp->dst failed: "))
                (Keeps-fsync_dir Same Any oracle reason seen))))

  Keeps-staged_write : (bytes : Bytes) → Keeps Same Any (staged_write oracle reason root id bytes)
  unfolding staged_write
  Keeps-staged_write bytes = Keeps-if Same Any (is_empty id) _ _ (Keeps-raise Same Any _ _) (
      Keeps-if Same Any (has_part (0 ∷ []) id) _ _ (Keeps-raise Same Any _ _) (
        Keeps-if Same Any (has_part (codes "..") id) _ _ (Keeps-raise Same Any _ _) (
          Keeps-bind Same Any _ _ (Keeps-plain_call Same Any oracle reason seen) (λ made.
            Keeps-bind Same Any _ _
              (Keeps-stage Same Any oracle reason seen (path root (part_name id))
                (erase-Same (path root (part_name id)) not_part)
                (λ other m h. rw (get-put_ne (path root (part_name id)) p other m not_part) h)
                bytes)
              (λ staged. Keeps-publish)))))

  Keeps-remove_staged : Keeps Same Any (remove_staged oracle reason root id)
  unfolding remove_staged
  Keeps-remove_staged = Keeps-if Same Any (is_empty id) _ _ (Keeps-pure Same Any tt) (
      Keeps-bind Same Any _ _
        (Keeps-remove Same Any oracle reason seen _
          (erase-Same (path root (part_name id)) not_part))
        (λ tmp_gone.
          Keeps-bind Same Any _ _
            (Keeps-remove Same Any oracle reason seen _ (erase-Same (path root id) not_blob))
            (λ dst_gone. Keeps-pure Same Any tt)))

module _ (oracle : ℕ → Option ℕ) (reason : ℕ → Bytes) (root id p : Bytes) (d : Disk) where
  -- A staged write touches the file of its blob and the `.part` file, and no other, however it ends.
  pub staged_write-others :
      (bytes : Bytes)
      → ¬ (path root (part_name id) ≡ p)
      → ¬ (path root id ≡ p)
      → get p (staged_write oracle reason root id bytes d).1.files ≡ get p d.files
  unfolding Keeps
  staged_write-others bytes not_part not_blob =
      (Keeps-staged_write oracle reason root id p not_part not_blob (get p d.files) bytes d refl
        (All-Unit d.history)).0

  pub remove_staged-others :
      ¬ (path root (part_name id) ≡ p)
      → ¬ (path root id ≡ p)
      → get p (remove_staged oracle reason root id d).1.files ≡ get p d.files
  unfolding Keeps
  remove_staged-others not_part not_blob =
      (Keeps-remove_staged oracle reason root id p not_part not_blob (get p d.files) d refl
        (All-Unit d.history)).0
