-- ===== src/Disk/Crash.antt =====
-- What a crash in the middle of `stagedWrite` may leave: the states on the way, one by one.
use secure_file_transfer.Base.{
  ℕ, ◌<◌, ◌≡◌, ◌⊎◌, inl, inr, sym, ap, true, Bytes, Option, none, some, codes, ◌++◌, not, length,
  length-append, arith, Option-cases, str_eq_iff,
}
use secure_file_transfer.Base.Dict.{Dict, get, put, erase, get-put_ne, get-erase, get-put_self}
use secure_file_transfer.Disk.{path, part_name, move, exists, stage, publish}
use secure_file_transfer.Disk.Keeps.{Keeps, Keeps-pure, Keeps-bind, Keeps-if, Keeps-attempt_call}
use secure_file_transfer.Disk.Staging.{
  Keeps-fsync_dir, Keeps-remove, Keeps-abandon_for, Keeps-stage,
}

longer : (root id : Bytes) → length (path root id) < length (path root (part_name id))
longer root id = omega (
  arith,
  length-append root (codes "/" ++ id),
  length-append root (codes "/" ++ part_name id),
  length-append id (codes ".part"),
)

pub path_ne : (root id : Bytes) → ¬ (path root (part_name id) ≡ path root id)
path_ne root id same = omega (arith, longer root id, ap length same)

pub erase_ne : (k j : Bytes) (m : Dict Bytes) → ¬ (k ≡ j) → get j (erase k m) ≡ get j m
erase_ne k j m other = ground (arith, get-erase k j m, str_eq_iff k j)

-- Under the name of the blob there is what was there before, nothing, or all of the new bytes.
abbrev pub Whole : Option Bytes → Bytes → Option Bytes → Type 0
Whole old bytes now = (now ≡ old) ⊎ ((now ≡ none) ⊎ (now ≡ some bytes))

module _ (old : Option Bytes) (bytes tmp dst : Bytes) (apart : ¬ (tmp ≡ dst)) where
  abbrev pub Safe : Dict Bytes → Type 0
  Safe m = Whole old bytes (get dst m)

  -- While the `.part` file is there it has all the bytes.
  abbrev pub Filled : Dict Bytes → Type 0
  Filled m = Safe m × ((get tmp m ≡ none) ⊎ (get tmp m ≡ some bytes))

  erase-Safe : (m : Dict Bytes) → Safe m → Safe (erase tmp m)
  erase-Safe m s = rw (erase_ne tmp dst m apart) s

  put-Safe : (other : Bytes) (m : Dict Bytes) → Safe m → Safe (put tmp other m)
  put-Safe other m s = rw (get-put_ne tmp dst other m apart) s

  erase-Filled : (m : Dict Bytes) → Filled m → Filled (erase tmp m)
  erase-Filled m (s, t) =
      (erase-Safe m s, inl (ground (arith, get-erase tmp tmp m, str_eq_iff tmp tmp)))

  remove-Filled : (m : Dict Bytes) → Filled m → Filled (erase dst m)
  remove-Filled m (s, t) = (
    inr (inl (ground (arith, get-erase dst dst m, str_eq_iff dst dst))),
    rw (erase_ne dst tmp m (λ e. apart (sym e))) t,
  )

  move-Filled : (m : Dict Bytes) → Filled m → Filled (move tmp dst m)
  move-Filled m (s, inl gone) = rw gone (s, inl gone)
  move-Filled m (s, inr there) = rw there (
    inr (inr (get-put_self dst bytes (erase tmp m))),
    inl (
        rw (get-put_ne dst tmp bytes (erase tmp m) (λ e. apart (sym e)))
          (ground (arith, get-erase tmp tmp m, str_eq_iff tmp tmp))),
  )

  module _ (oracle : ℕ → Option ℕ) (reason : ℕ → Bytes) where
    Keeps-exists : Keeps Filled Safe (exists oracle reason dst)
    unfolding exists Keeps
    Keeps-exists d p q = elim (Option-cases (oracle d.calls)) [
      | inl ok ↦ rw ok (p, (p.0, q))
      | inr (k, failed) ↦ rw failed (p, (p.0, q))
    ]

    pub Keeps-publish : Keeps Filled Safe (publish oracle reason tmp dst)
    unfolding publish
    Keeps-publish =
        let watched : (m : Dict Bytes) → Filled m → Safe m = λ m h. h.0 in
        Keeps-bind Filled Safe _ _ Keeps-exists (λ there.
          Keeps-bind Filled Safe _ _
            (Keeps-if Filled Safe there _ _
              (Keeps-remove Filled Safe oracle reason watched dst remove-Filled)
              (Keeps-pure Filled Safe true))
            (λ cleared.
              Keeps-bind Filled Safe _ _
                (Keeps-attempt_call Filled Safe oracle reason (move tmp dst) (λ k m. m) watched
                  move-Filled (λ k m h. h))
                (λ renamed.
                  Keeps-if Filled Safe (not renamed) _ _
                    (Keeps-abandon_for Filled Safe oracle reason watched tmp erase-Filled
                      (codes "rename tmp->dst failed: "))
                    (Keeps-fsync_dir Filled Safe oracle reason watched))))

    pub Keeps-staging : Keeps Safe Safe (stage oracle reason tmp bytes)
    Keeps-staging = Keeps-stage Safe Safe oracle reason (λ m h. h) tmp erase-Safe put-Safe bytes
