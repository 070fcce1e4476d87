-- ===== src/Validator.antt =====
-- src/infrastructure/file_validator.cpp: `PdfFileValidator`. `std::filesystem`'s
-- `path(name).lexically_normal().string()` is the parameter `normal`.
pub mod Parts
pub mod Accepts
use secure_file_transfer.Base.{
  ℕ, zero, suc, ◌-◌, ◌||◌, ◌&&◌, not, Bool, true, false, List, [], ◌∷◌, Bytes, codes, is_empty,
  str_eq, length, drop, get_or, ltb, ◌==◌, if◌then◌else◌, Outcome, returns, throws, validation,
}

unfoldable pub starts_with : Bytes → Bytes → Bool
starts_with [] s = true
starts_with (p ∷ ps) [] = false
starts_with (p ∷ ps) (c ∷ cs) = (p == c) && starts_with ps cs

-- s.find(p) != npos
unfoldable pub has_part : Bytes → Bytes → Bool
unfolding starts_with
has_part p [] = starts_with p []
has_part p (c ∷ cs) = starts_with p (c ∷ cs) || has_part p cs

unfoldable pub ends_with : Bytes → Bytes → Bool
ends_with s suffix =
    if ltb (length s) (length suffix)
    then false
    else str_eq (drop (length s - length suffix) s) suffix

-- `h.size() < 4 || h[0] != '%' || h[1] != 'P' || h[2] != 'D' || h[3] != 'F'`
unfoldable pub lacks_magic : Bytes → Bool
lacks_magic h =
    ltb (length h) 4
    || (not (get_or h 0 0 == b'%')
        || (not (get_or h 1 0 == b'P')
            || (not (get_or h 2 0 == b'D') || not (get_or h 3 0 == b'F'))))

-- 100ULL * 1024 * 1024
abbrev pub max_size : ℕ
max_size = 104857600

unfoldable pub validate : (Bytes → Bytes) → Bytes → ℕ → Bytes → Outcome (Unit {0})
validate normal orig_name size header =
    if is_empty orig_name || has_part (0 ∷ []) orig_name
    then throws (validation (codes "name empty or NUL"))
    else let norm = normal orig_name in
      if has_part (codes "..") norm
      then throws (validation (codes "traversal"))
      else if not (ends_with norm (codes ".pdf"))
      then throws (validation (codes "PDF-only core"))
      else if has_part (codes ".pdf.") norm
      then throws (validation (codes "double ext"))
      else if ltb max_size size
      then throws (validation (codes "oversize"))
      else if lacks_magic header
      then throws (validation (codes "PDF magic"))
      else returns tt
