-- ===== src/Audit/Fields.antt =====
-- How the fields of a line of the audit log are found: texts without quotes, backslashes and control
-- characters are written as they are, and a search for a name stops at no other name and at no value.
use secure_file_transfer.Base.{
  ℕ, ◌≤◌, ◌<◌, ◌≡◌, refl, sym, ap, ◌∙◌, true, false, [], ◌∷◌, ◌++◌, append_assoc, Bytes, codes,
  drop-append, All, ◌==◌, arith, some, Bool-cases, inl, inr,
}
use secure_file_transfer.Validator.{starts_with}
use secure_file_transfer.Audit.{json_escape, after_part, until_quote, until_char, occurs}

abbrev pub IsPlainChar : ℕ → Type 0
IsPlainChar c = (32 ≤ c) × (¬ (c ≡ 34)) × (¬ (c ≡ 92))

abbrev pub IsPlain : Bytes → Type 0
IsPlain s = All IsPlainChar s

abbrev pub Unquoted : Bytes → Type 0
Unquoted s = All (λ c. ¬ (c ≡ 34)) s

pub IsPlain-Unquoted : (s : Bytes) → IsPlain s → Unquoted s
IsPlain-Unquoted [] p = tt
IsPlain-Unquoted (c ∷ cs) (p, ps) = (p.1, IsPlain-Unquoted cs ps)

pub json_escape-plain : (s : Bytes) → IsPlain s → json_escape s ≡ s
unfolding json_escape
json_escape-plain [] p = refl
json_escape-plain (c ∷ cs) (p, ps) = ground (arith, json_escape-plain cs ps)

-- What is searched for, behind its first quote.
abbrev pub named : Bytes → Bytes
named name = name ++ 34 ∷ 58 ∷ []

-- A search passes over a text without quotes, and over a quote that begins something else.
pub after_part-Unquoted :
    (p s t : Bytes) → Unquoted s → after_part (34 ∷ p) (s ++ t) ≡ after_part (34 ∷ p) t
unfolding after_part starts_with
after_part-Unquoted p [] t q = refl
after_part-Unquoted p (c ∷ cs) t (q, qs) =
    let other : (34 == c) ≡ false = ground arith in rw other (after_part-Unquoted p cs t qs)

after_part-quote :
    (p t : Bytes) → starts_with p t ≡ false → after_part (34 ∷ p) (34 ∷ t) ≡ after_part (34 ∷ p) t
unfolding after_part starts_with
after_part-quote p t other = rw other refl

starts_with_self : (p t : Bytes) → starts_with p (p ++ t) ≡ true
unfolding starts_with
starts_with_self [] t = refl
starts_with_self (c ∷ cs) t = ground (arith, starts_with_self cs t)

after_part-found : (p t : Bytes) → after_part (34 ∷ p) (34 ∷ (p ++ t)) ≡ some t
unfolding after_part starts_with
after_part-found p t = rw (starts_with_self p t) (ap some (drop-append p t))

-- Another name, or a value.
starts_with-other :
    (name other t : Bytes)
    → Unquoted name
    → Unquoted other
    → ¬ (name ≡ other)
    → starts_with (named name) (other ++ 34 ∷ t) ≡ false
unfolding starts_with
starts_with-other [] [] t p q ne = absurd (ne refl)
starts_with-other [] (c ∷ cs) t p q ne = ground arith
starts_with-other (k ∷ ks) [] t p q ne = ground arith
starts_with-other (k ∷ ks) (c ∷ cs) t (p, ps) (q, qs) ne = elim (Bool-cases (k == c)) [
  | inl same ↦
      let e : k ≡ c = ground arith in
      let tails : ¬ (ks ≡ cs) = λ r. ne (cc (e, r)) in
      rw same (starts_with-other ks cs t ps qs tails)
  | inr differ ↦ rw differ refl
]

starts_with-value :
    (name v t : Bytes)
    → Unquoted name
    → Unquoted v
    → starts_with (named name) (v ++ 34 ∷ 44 ∷ t) ≡ false
unfolding starts_with
starts_with-value [] [] t p q = refl
starts_with-value [] (c ∷ cs) t p q = ground arith
starts_with-value (k ∷ ks) [] t p q = ground arith
starts_with-value (k ∷ ks) (c ∷ cs) t (p, ps) (q, qs) =
    ground (arith, starts_with-value ks cs t ps qs)

-- A member of a line, with what follows it.
abbrev pub field : Bytes → Bytes → Bytes → Bytes
field name v rest = 44 ∷ 34 ∷ (name ++ 34 ∷ 58 ∷ 34 ∷ (v ++ 34 ∷ rest))

-- A name that begins with a small letter.
abbrev pub IsName : Bytes → Type 0
IsName [] = ⊥
IsName (c ∷ cs) = (97 ≤ c) × Unquoted (c ∷ cs)

module _ (k : ℕ) (ks : Bytes) (good : IsName (k ∷ ks)) where
  abbrev pub pattern_of : Bytes
  pattern_of = 34 ∷ named (k ∷ ks)

  -- Each step passes a text without quotes, or one quote.
  over : (s t : Bytes) → Unquoted s → after_part pattern_of (s ++ t) ≡ after_part pattern_of t
  over = after_part-Unquoted (named (k ∷ ks))

  over_quote :
      (t : Bytes)
      → starts_with (named (k ∷ ks)) t ≡ false
      → after_part pattern_of (34 ∷ t) ≡ after_part pattern_of t
  over_quote = after_part-quote (named (k ∷ ks))

  not_here : (c : ℕ) (t : Bytes) → c < 97 → starts_with (named (k ∷ ks)) (c ∷ t) ≡ false
  unfolding starts_with
  not_here c t low = ground (arith, good.0)

  skip_name :
      (other t : Bytes)
      → Unquoted other
      → ¬ (k ∷ ks ≡ other)
      → after_part pattern_of (34 ∷ (other ++ 34 ∷ 58 ∷ t)) ≡ after_part pattern_of t
  skip_name other t p ne =
      over_quote (other ++ 34 ∷ 58 ∷ t) (starts_with-other (k ∷ ks) other (58 ∷ t) good.1 p ne)
      ∙ (over other (34 ∷ 58 ∷ t) p
          ∙ (over_quote (58 ∷ t) (not_here 58 t (omega arith))
              ∙ over (58 ∷ []) t (omega arith, tt)))

  pub skip_field :
      (other v rest : Bytes)
      → Unquoted other
      → ¬ (k ∷ ks ≡ other)
      → Unquoted v
      → after_part pattern_of (field other v (44 ∷ rest)) ≡ after_part pattern_of (44 ∷ rest)
  skip_field other v rest p ne q =
      let t = 34 ∷ (v ++ 34 ∷ 44 ∷ rest) in
      over (44 ∷ []) (34 ∷ (other ++ 34 ∷ 58 ∷ t)) (omega arith, tt)
      ∙ (skip_name other t p ne
          ∙ (over_quote (v ++ 34 ∷ 44 ∷ rest) (starts_with-value (k ∷ ks) v rest good.1 q)
              ∙ (over v (34 ∷ 44 ∷ rest) q
                  ∙ over_quote (44 ∷ rest) (not_here 44 rest (omega arith)))))

  -- The head of a line, with its number.
  pub skip_number :
      (digits rest : Bytes)
      → ¬ (k ∷ ks ≡ codes "seq")
      → Unquoted digits
      → after_part pattern_of (codes "{\"seq\":" ++ (digits ++ rest)) ≡ after_part pattern_of rest
  skip_number digits rest ne q =
      over (123 ∷ []) (34 ∷ (codes "seq" ++ 34 ∷ 58 ∷ (digits ++ rest))) (omega arith, tt)
      ∙ (skip_name (codes "seq") (digits ++ rest) (omega arith) ne ∙ over digits rest q)

  pub find_field :
      (v rest : Bytes)
      → after_part pattern_of (field (k ∷ ks) v rest) ≡ some (34 ∷ (v ++ 34 ∷ rest))
  find_field v rest =
      let t = 34 ∷ (v ++ 34 ∷ rest) in
      over (44 ∷ []) (34 ∷ (k ∷ ks ++ 34 ∷ 58 ∷ t)) (omega arith, tt)
      ∙ (ap (λ s. after_part pattern_of (34 ∷ s)) (sym (append_assoc (k ∷ ks) (34 ∷ 58 ∷ []) t))
          ∙ after_part-found (named (k ∷ ks)) t)

-- What is read from where a value begins.
pub until_quote-plain :
    (before : ℕ) (v rest : Bytes)
    → ¬ (before ≡ 92)
    → IsPlain v
    → until_quote before (v ++ 34 ∷ rest) ≡ v
unfolding until_quote
until_quote-plain before [] rest ne p = ground arith
until_quote-plain before (c ∷ cs) rest ne (p, ps) =
    ground (arith, until_quote-plain c cs rest p.2 ps)

pub until_char-stop :
    (stop : ℕ) (v rest : Bytes) → All (λ c. ¬ (c ≡ stop)) v → until_char stop (v ++ stop ∷ rest) ≡ v
unfolding until_char
until_char-stop stop [] rest p = ground arith
until_char-stop stop (c ∷ cs) rest (p, ps) = ground (arith, until_char-stop stop cs rest ps)

pub occurs-here : (c : ℕ) (v rest : Bytes) → occurs c (v ++ c ∷ rest) ≡ true
unfolding occurs
occurs-here c [] rest = ground arith
occurs-here c (x ∷ xs) rest = ground (arith, occurs-here c xs rest)
