-- ===== src/Validator/Parts.antt =====
-- What the searches of the validator find, as cuts of the text.
use secure_file_transfer.Base.{
  ◌-◌, ◌≡◌, ◌↔◌, refl, sym, ap, ◌∙◌, true, false, [], ◌∷◌, ◌++◌, Bytes, codes, length,
  length-append, drop, take, ltb, le→ltb, drop-append, take-append-drop, arith, str_eq_iff,
  str_eq_refl, ==_iff, Bool-cases, inl, inr,
}
use secure_file_transfer.Validator.{starts_with, has_part, ends_with, lacks_magic}

-- The text begins with, ends with or has inside it another text.
abbrev pub Begins : Bytes → Bytes → Type 0
Begins p s = (rest : Bytes) × (s ≡ p ++ rest)

abbrev pub Has : Bytes → Bytes → Type 0
Has p s = (before : Bytes) × (after : Bytes) × (s ≡ before ++ (p ++ after))

abbrev pub Ends : Bytes → Bytes → Type 0
Ends p s = (before : Bytes) × (s ≡ before ++ p)

starts_with-Begins : (p s : Bytes) → starts_with p s ≡ true → Begins p s
unfolding starts_with
starts_with-Begins [] s h = (s, refl)
starts_with-Begins (x ∷ p) [] h = absurd cc
starts_with-Begins (x ∷ p) (y ∷ s) h =
    let here : x ≡ y = ground (arith, ==_iff x y) in
    let later : starts_with p s ≡ true = ground arith in
    let (rest, whole) = starts_with-Begins p s later in (rest, rw here (ap (◌∷◌ y) whole))

starts_with-append : (p rest : Bytes) → starts_with p (p ++ rest) ≡ true
unfolding starts_with
starts_with-append [] rest = refl
starts_with-append (x ∷ p) rest = ground (arith, ==_iff x x, starts_with-append p rest)

has_part-Has : (p s : Bytes) → has_part p s ≡ true → Has p s
unfolding has_part
has_part-Has p [] h = let (rest, whole) = starts_with-Begins p [] h in ([], rest, whole)
has_part-Has p (c ∷ s) h = elim (Bool-cases (starts_with p (c ∷ s))) [
  | inl here ↦ let (rest, whole) = starts_with-Begins p (c ∷ s) here in ([], rest, whole)
  | inr later ↦
      let (before, after, whole) = has_part-Has p s (rw later at h) in
      (c ∷ before, after, ap (◌∷◌ c) whole)
]

has_part-start : (p s : Bytes) → starts_with p s ≡ true → has_part p s ≡ true
unfolding has_part
has_part-start p [] h = h
has_part-start p (c ∷ s) h = rw h refl

has_part-append : (before p after : Bytes) → has_part p (before ++ (p ++ after)) ≡ true
unfolding has_part
has_part-append [] p after = has_part-start p (p ++ after) (starts_with-append p after)
has_part-append (c ∷ before) p after = rw (has_part-append before p after) (ground arith)

pub has_part_iff : (p s : Bytes) → (has_part p s ≡ true) ↔ Has p s
has_part_iff p s = (
  has_part-Has p s,
  λ (before, after, whole). ap (has_part p) whole ∙ has_part-append before p after,
)

pub lacks_part_iff : (p s : Bytes) → (has_part p s ≡ false) ↔ (¬ Has p s)
lacks_part_iff p s = (
  λ h inside. let found = (has_part_iff p s).1 inside in cc,
  λ h. elim (Bool-cases (has_part p s)) [
    | inl found ↦ absurd (h ((has_part_iff p s).0 found))
    | inr gone ↦ gone
  ],
)

drop-length : (before p : Bytes) → drop (length (before ++ p) - length p) (before ++ p) ≡ p
drop-length before p =
    let size : length (before ++ p) - length p ≡ length before =
      omega (arith, length-append before p) in
    ap (λ n. drop n (before ++ p)) size ∙ drop-append before p

ends_with-append : (before p : Bytes) → ends_with (before ++ p) p ≡ true
unfolding ends_with
ends_with-append before p =
    let long : ltb (length (before ++ p)) (length p) ≡ false =
      le→ltb (length (before ++ p)) (length p) (omega (arith, length-append before p)) in
    rw (long, drop-length before p) (str_eq_refl p)

ends_with-Ends : (s p : Bytes) → ends_with s p ≡ true → Ends p s
unfolding ends_with
ends_with-Ends s p h =
    let n = length s - length p in
    let same : drop n s ≡ p = (str_eq_iff (drop n s) p).0 (ground arith) in
    (take n s, sym (take-append-drop n s) ∙ ap (λ d. take n s ++ d) same)

pub ends_with_iff : (s p : Bytes) → (ends_with s p ≡ true) ↔ Ends p s
ends_with_iff s p = (
  ends_with-Ends s p,
  λ (before, whole). ap (λ x. ends_with x p) whole ∙ ends_with-append before p,
)

-- A header has the mark exactly if it begins with "%PDF".
pub lacks_magic_iff : (h : Bytes) → (lacks_magic h ≡ false) ↔ Begins (codes "%PDF") h
unfolding lacks_magic
lacks_magic_iff [] = (λ e. absurd cc, λ (rest, whole). absurd cc)
lacks_magic_iff (a ∷ []) =
    (λ e. absurd (ground arith), λ (rest, whole). absurd (omega (arith, ap length whole)))
lacks_magic_iff (a ∷ (b ∷ [])) =
    (λ e. absurd (ground arith), λ (rest, whole). absurd (omega (arith, ap length whole)))
lacks_magic_iff (a ∷ (b ∷ (c ∷ []))) =
    (λ e. absurd (ground arith), λ (rest, whole). absurd (omega (arith, ap length whole)))
lacks_magic_iff (a ∷ (b ∷ (c ∷ (d ∷ rest)))) = (
  λ e.
      let p : a ≡ 37 = ground (arith, ==_iff a 37) in
      let q : b ≡ 80 = ground (arith, ==_iff b 80) in
      let r : c ≡ 68 = ground (arith, ==_iff c 68) in
      let t : d ≡ 70 = ground (arith, ==_iff d 70) in (rest, rw (p, q, r, t) refl),
  λ (others, whole).
      let same : a ∷ (b ∷ (c ∷ (d ∷ rest))) ≡ codes "%PDF" ++ others = whole in
      let long : ltb (length (codes "%PDF" ++ others)) 4 ≡ false =
        le→ltb (length (codes "%PDF" ++ others)) 4 (omega arith) in
      ap lacks_magic same ∙ ground (arith, long),
)
