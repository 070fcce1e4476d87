-- ===== src/Disk/Sweep.antt =====
-- What `sweepOrphans` removes.
use secure_file_transfer.Base.{
  ℕ, ◌+◌, ◌≡◌, refl, ap, ◌∙◌, Bool, true, false, Bytes, Option, none, List, [], ◌∷◌, returns, inl,
  inr, if◌then◌else◌, Bool-cases, arith, str_eq, str_eq_iff, ◌||◌, count_if, ltb,
}
use secure_file_transfer.Base.Dict.{Dict, get, erase, keys, get-erase}
use secure_file_transfer.Disk.{Disk, ◌>>=◌, attempt_call, entry, is_part, sweep, sweep_orphans}
use secure_file_transfer.Disk.Healthy.{healthy}

unfoldable is_in : Bytes → List Bytes → Bool
is_in p [] = false
is_in p (q ∷ qs) = str_eq q p || is_in p qs

get-is_in : (p : Bytes) (m : Dict Bytes) → is_in p (keys m) ≡ false → get p m ≡ none
unfolding is_in get keys
get-is_in p [] h = refl
get-is_in p ((q, v) ∷ m) h = ground (arith, get-is_in p m)

-- Whether the sweep of a root takes a path for a stage.
abbrev pub is_orphan : Bytes → Bytes → Bool
is_orphan root p = is_part (entry root p)

merge :
    (o e i : Bool) (x : Option Bytes)
    → (e ≡ true → o ≡ true)
    → (if o then (if i then none else (if e then none else x)) else (if e then none else x))
      ≡ (if o then (if e || i then none else x) else x)
merge o true true x h = rw (h refl) refl
merge o true false x h = rw (h refl) refl
merge o false i x h = refl

skip :
    (o e i : Bool) (x : Option Bytes)
    → (e ≡ true → o ≡ false)
    → (if o then (if i then none else x) else x) ≡ (if o then (if e || i then none else x) else x)
skip o true i x h = rw (h refl) refl
skip o false i x h = refl

module _ (reason : ℕ → Bytes) (root : Bytes) where
  sweep-count :
      (ps : List Bytes) (d : Disk)
      → (sweep healthy reason root ps d).0 ≡ returns (count_if (is_orphan root) ps)
  unfolding sweep attempt_call ◌>>=◌ count_if
  sweep-count [] d = refl
  sweep-count (q ∷ qs) d = elim (Bool-cases (is_orphan root q)) [
    | inl stale ↦ rw (stale, sweep-count qs _) (ap returns (omega arith))
    | inr live ↦ rw (live, sweep-count qs d) (ap returns (omega arith))
  ]

  abbrev shorn : Bytes → Disk → Disk
  shorn q d = record {
    files = erase q d.files;
    calls = d.calls + 1;
    history = erase q d.files ∷ d.history;
  }

  sweep-orphan :
      (q : Bytes) (qs : List Bytes) (d : Disk)
      → is_orphan root q ≡ true
      → (sweep healthy reason root (q ∷ qs) d).1 ≡ (sweep healthy reason root qs (shorn q d)).1
  unfolding sweep attempt_call ◌>>=◌
  sweep-orphan q qs d stale = rw (stale, sweep-count qs (shorn q d)) refl

  sweep-other :
      (q : Bytes) (qs : List Bytes) (d : Disk)
      → is_orphan root q ≡ false
      → (sweep healthy reason root (q ∷ qs) d).1 ≡ (sweep healthy reason root qs d).1
  unfolding sweep
  sweep-other q qs d live = rw live refl

  -- The file under a path after the sweep of some paths.
  abbrev swept : Bytes → List Bytes → Dict Bytes → Option Bytes
  swept p qs m = if is_orphan root p then (if is_in p qs then none else get p m) else get p m

  sweep-swept :
      (p : Bytes) (qs : List Bytes) (d : Disk)
      → get p (sweep healthy reason root qs d).1.files ≡ swept p qs d.files
  unfolding sweep is_in
  sweep-swept p [] d = ground arith
  sweep-swept p (q ∷ qs) d = elim (Bool-cases (is_orphan root q)) [
    | inl stale ↦
        let step = ap (λ e. get p e.files) (sweep-orphan q qs d stale) in
        let rest = sweep-swept p qs (shorn q d) in
        let cut = get-erase q p d.files in
        step
        ∙ rest
        ∙ rw (get-erase q p d.files) (
            merge (is_orphan root p) (str_eq q p) (is_in p qs) (get p d.files)
              (λ h. rw (← (str_eq_iff q p).0 h) stale))
    | inr live ↦
        let step = ap (λ e. get p e.files) (sweep-other q qs d live) in
        let rest = sweep-swept p qs d in
        step
        ∙ rest
        ∙ skip (is_orphan root p) (str_eq q p) (is_in p qs) (get p d.files)
            (λ h. rw (← (str_eq_iff q p).0 h) live)
  ]

  -- The state once the root was found.
  abbrev found : Disk → Disk
  found d = record { files = d.files; calls = d.calls + 1; history = d.files ∷ d.history }

  sweep_orphans-runs :
      (d : Disk)
      → ((sweep_orphans healthy reason root d).0
          ≡ returns (count_if (is_orphan root) (keys d.files)))
        × ((sweep_orphans healthy reason root d).1.files
            ≡ (sweep healthy reason root (keys d.files) (found d)).1.files)
  unfolding sweep_orphans attempt_call ◌>>=◌
  sweep_orphans-runs d =
      rw (sweep-count (keys d.files) (found d))
        (elim (Bool-cases (ltb 0 (count_if (is_orphan root) (keys d.files)))) [
          | inl some_gone ↦ rw some_gone (refl, refl)
          | inr none_gone ↦ rw none_gone (refl, refl)
        ])

  all_in :
      (p : Bytes) (m : Dict Bytes)
      → swept p (keys m) m ≡ (if is_orphan root p then none else get p m)
  all_in p m = elim (Bool-cases (is_in p (keys m))) [
    | inl there ↦ rw there refl
    | inr absent ↦ rw (absent, get-is_in p m absent) (ground arith)
  ]

  -- On a disk whose calls succeed, a sweep removes every file right below the root whose name ends in
  -- `.part`, and no other, and returns how many it removed.
  pub sweep_orphans-swept :
      (d : Disk)
      → ((sweep_orphans healthy reason root d).0
          ≡ returns (count_if (is_orphan root) (keys d.files)))
        × ((p : Bytes)
            → get p (sweep_orphans healthy reason root d).1.files
              ≡ (if is_orphan root p then none else get p d.files))
  sweep_orphans-swept d = (
    (sweep_orphans-runs d).0,
    λ p.
        ap (get p) (sweep_orphans-runs d).1
        ∙ sweep-swept p (keys d.files) (found d)
        ∙ all_in p d.files,
  )
