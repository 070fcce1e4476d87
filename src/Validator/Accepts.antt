-- ===== src/Validator/Accepts.antt =====
-- What the validator lets through.
use secure_file_transfer.Base.{
  ℕ, ◌≤◌, ◌≡◌, ◌↔◌, ◌*◌, refl, true, false, [], ◌∷◌, arith, Bytes, codes, is_empty, returns,
}
use secure_file_transfer.Validator.{has_part, ends_with, lacks_magic, max_size, validate}
use secure_file_transfer.Validator.Parts.{
  Begins, Has, Ends, lacks_part_iff, ends_with_iff, lacks_magic_iff,
}

-- The tests of the validator, which are passed all.
pub validate-tests :
    (normal : Bytes → Bytes) (name : Bytes) (size : ℕ) (header : Bytes)
    → (validate normal name size header ≡ returns tt) ↔ (
        (is_empty name ≡ false)
        × (has_part (0 ∷ []) name ≡ false)
        × (has_part (codes "..") (normal name) ≡ false)
        × (ends_with (normal name) (codes ".pdf") ≡ true)
        × (has_part (codes ".pdf.") (normal name) ≡ false)
        × (size ≤ max_size)
        × (lacks_magic header ≡ false))
unfolding validate
validate-tests normal name size header = (λ h. ground arith, λ h. ground arith)

is_empty_iff : (s : Bytes) → (is_empty s ≡ false) ↔ (¬ (s ≡ []))
unfolding is_empty
is_empty_iff [] = (λ e. absurd cc, λ h. absurd (h refl))
is_empty_iff (x ∷ xs) = (λ e same. absurd cc, λ h. refl)

-- A name, a size and a header are accepted exactly if the name is not empty and has no NUL byte in
-- it, the normal form of the name has no "..", ends in ".pdf" and has no ".pdf." in it, the size is at
-- most 100 * 1024 * 1024, and the header begins with "%PDF".
pub validate-accepts :
    (normal : Bytes → Bytes) (name : Bytes) (size : ℕ) (header : Bytes)
    → (validate normal name size header ≡ returns tt) ↔ (
        (¬ (name ≡ []))
        × (¬ Has (0 ∷ []) name)
        × (¬ Has (codes "..") (normal name))
        × Ends (codes ".pdf") (normal name)
        × (¬ Has (codes ".pdf.") (normal name))
        × (size ≤ 100 * 1024 * 1024)
        × Begins (codes "%PDF") header)
validate-accepts normal name size header = (
  λ ok.
      let (there, nul, dots, ends, inner, small, mark) =
        (validate-tests normal name size header).0 ok in
      (
        (is_empty_iff name).0 there,
        (lacks_part_iff (0 ∷ []) name).0 nul,
        (lacks_part_iff (codes "..") (normal name)).0 dots,
        (ends_with_iff (normal name) (codes ".pdf")).0 ends,
        (lacks_part_iff (codes ".pdf.") (normal name)).0 inner,
        small,
        (lacks_magic_iff header).0 mark,
      ),
  λ (there, nul, dots, ends, inner, small, mark). (validate-tests normal name size header).1 (
    (is_empty_iff name).1 there,
    (lacks_part_iff (0 ∷ []) name).1 nul,
    (lacks_part_iff (codes "..") (normal name)).1 dots,
    (ends_with_iff (normal name) (codes ".pdf")).1 ends,
    (lacks_part_iff (codes ".pdf.") (normal name)).1 inner,
    small,
    (lacks_magic_iff header).1 mark,
  ),
)
