-- ===== src/Disk/Refines.antt =====
-- `BinaryFileStorage` on a disk whose calls succeed does what `MemoryStorage` does, as far as the
-- port can tell: on names that do not end in `.part`, which is where stages are.
use secure_file_transfer.Base.{
  ℕ, ◌≡◌, refl, sym, ap, subst, ◌∙◌, true, false, Bytes, Option, none, returns, codes, ◌++◌, inl,
  inr, is_empty, if◌then◌else◌, arith, str_eq_iff, str_eq_refl, str_eq-cases, length, drop,
  drop-append, length-append, ◌-◌, append_assoc, le→ltb, ltb,
}
use secure_file_transfer.Base.Dict.{Dict, get, put, erase, get-put_ne, get-put_self, get-erase}
use secure_file_transfer.Validator.{ends_with}
use secure_file_transfer.Disk.{
  Disk, ◌>>=◌, path, part_name, exists, attempt_call, stage, publish, staged_write, remove_staged,
}
use secure_file_transfer.Disk.Crash.{erase_ne}
use secure_file_transfer.Disk.Published.{staged_write-placed}
use secure_file_transfer.Disk.Others.{staged_write-others, remove_staged-others}
use secure_file_transfer.Disk.Healthy.{healthy, is_sound, remove-gone}

ends_with-append : (s t : Bytes) → ends_with (s ++ t) t ≡ true
unfolding ends_with
ends_with-append s t =
    let long : ltb (length (s ++ t)) (length t) ≡ false =
      le→ltb (length (s ++ t)) (length t) (omega (arith, length-append s t)) in
    let at : length (s ++ t) - length t ≡ length s = omega (arith, length-append s t) in
    rw (long, at, drop-append s t) (str_eq_refl t)

part-ends : (id : Bytes) → ends_with (part_name id) (codes ".part") ≡ true
part-ends id =
    rw (sym (append_assoc (codes "tmp.") id (codes ".part")))
      (ends_with-append (codes "tmp." ++ id) (codes ".part"))

path-inj : (root j k : Bytes) → path root j ≡ path root k → j ≡ k
path-inj root j k e =
    let tails : codes "/" ++ j ≡ codes "/" ++ k =
      sym (drop-append root (codes "/" ++ j))
      ∙ ap (drop (length root)) e
      ∙ drop-append root (codes "/" ++ k) in
    cc

-- What the port shows of a name.
abbrev pub visible : Bytes → Option Bytes → Option Bytes
visible k found = if ends_with k (codes ".part") then none else found

-- The files below `root` are the blobs in memory.
abbrev pub Agree : Bytes → Dict Bytes → Dict Bytes → Type 0
Agree root files blobs = (k : Bytes) → visible k (get (path root k) files) ≡ visible k (get k blobs)

module _ (reason : ℕ → Bytes) (root : Bytes) where
  pub write-returns :
      (id bytes : Bytes) (d : Disk)
      → is_sound id ≡ true
      → (staged_write healthy reason root id bytes d).0 ≡ returns tt
  unfolding staged_write stage publish exists attempt_call ◌>>=◌
  write-returns id bytes d sound = ground arith

  pub remove-returns :
      (id : Bytes) (d : Disk) → (remove_staged healthy reason root id d).0 ≡ returns tt
  unfolding remove_staged attempt_call ◌>>=◌
  remove-returns id d = ground arith

  hidden : (id : Bytes) (a b : Option Bytes) → visible (part_name id) a ≡ visible (part_name id) b
  hidden id a b = rw (part-ends id) refl

  pub write-Agree :
      (id bytes : Bytes) (d : Disk) (blobs : Dict Bytes)
      → is_sound id ≡ true
      → Agree root d.files blobs
      → Agree root (staged_write healthy reason root id bytes d).1.files (put id bytes blobs)
  write-Agree id bytes d blobs sound agree k = elim (str_eq-cases id k) [
    | inl here ↦
        subst
          (λ j.
            visible j (get (path root j) (staged_write healthy reason root id bytes d).1.files)
            ≡ visible j (get j (put id bytes blobs)))
          here
          (ap (visible id) (
            (staged_write-placed healthy reason root id bytes d (write-returns id bytes d sound)).0
            ∙ sym (get-put_self id bytes blobs)))
    | inr other ↦ elim (str_eq-cases (part_name id) k) [
      | inl staged ↦
          subst
            (λ j.
              visible j (get (path root j) (staged_write healthy reason root id bytes d).1.files)
              ≡ visible j (get j (put id bytes blobs)))
            staged (hidden id _ _)
      | inr apart ↦
          ap (visible k) (
            staged_write-others healthy reason root id (path root k) d bytes
              (λ e. apart (path-inj root (part_name id) k e)) (λ e. other (path-inj root id k e)))
          ∙ agree k
          ∙ ap (visible k) (sym (get-put_ne id k bytes blobs other))
    ]
  ]

  pub remove-Agree :
      (id : Bytes) (d : Disk) (blobs : Dict Bytes)
      → is_empty id ≡ false
      → Agree root d.files blobs
      → Agree root
          (remove_staged healthy reason root id d).1.files
          (erase (part_name id) (erase id blobs))
  remove-Agree id d blobs named agree k = elim (str_eq-cases (part_name id) k) [
    | inl staged ↦
        subst
          (λ j.
            visible j (get (path root j) (remove_staged healthy reason root id d).1.files)
            ≡ visible j (get j (erase (part_name id) (erase id blobs))))
          staged (hidden id _ _)
    | inr apart ↦ elim (str_eq-cases id k) [
      | inl here ↦
          let gone : get k (erase (part_name id) (erase id blobs)) ≡ none =
            erase_ne (part_name id) k (erase id blobs) apart
            ∙ ground (arith, get-erase id k blobs, str_eq_iff id k) in
          let lost : get (path root k) (remove_staged healthy reason root id d).1.files ≡ none =
            subst (λ j. get (path root j) (remove_staged healthy reason root id d).1.files ≡ none)
              here (remove-gone reason root id d named) in
          ap (visible k) (lost ∙ sym gone)
      | inr other ↦
          ap (visible k) (
            remove_staged-others healthy reason root id (path root k) d
              (λ e. apart (path-inj root (part_name id) k e)) (λ e. other (path-inj root id k e)))
          ∙ agree k
          ∙ ap (visible k)
              (sym (erase_ne (part_name id) k (erase id blobs) apart ∙ erase_ne id k blobs other))
    ]
  ]
