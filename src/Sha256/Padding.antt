-- ===== src/Sha256/Padding.antt =====
-- What a message is padded to.
use secure_file_transfer.Base.{
  ℕ, zero, suc, ◌+◌, ◌-◌, ◌*◌, ◌%◌, ◌^◌, ◌≤◌, ◌<◌, ◌≡◌, refl, sym, ap, ◌∙◌, [], ◌∷◌, ◌++◌,
  append-nil, append_assoc, Bytes, length, length-append, replicate, drop, drop-append, arith, inl,
  inr, Bool-cases, true, false, ◌==◌, take, take-append,
}
use secure_file_transfer.Wire.Words.{be64, get64be, get64be-be64}
use secure_file_transfer.Sha256.{padded, push_zeros}

-- The zeros that are missing to 56 bytes more than a multiple of 64.
abbrev pub gap : ℕ → ℕ
gap n = (120 - n % 64) % 64

full_iff :
    (n : ℕ)
    → n < 2 ^ 61
    → ((n * 8 % 2 ^ 64 % 512 == 448) ≡ true → gap n ≡ 0)
      × ((n * 8 % 2 ^ 64 % 512 == 448) ≡ false → gap n ≡ suc (gap (n + 1)))
full_iff n small = (
  λ full. let e : n * 8 % 512 ≡ 448 = ground arith in omega arith,
  λ more. let e : ¬ (n * 8 % 512 ≡ 448) = ground arith in omega arith,
)

-- With enough rounds for what is missing, exactly that is pushed.
push_zeros-gap :
    (fuel : ℕ) (text : Bytes)
    → gap (length text) < fuel
    → length text + fuel < 2 ^ 61
    → push_zeros fuel text ≡ text ++ replicate (gap (length text)) 0
unfolding push_zeros
push_zeros-gap zero text enough room = absurd (omega arith)
push_zeros-gap (suc fuel) text enough room =
    let (done, goes_on) = full_iff (length text) (omega arith) in
    elim (Bool-cases (length text * 8 % 2 ^ 64 % 512 == 448)) [
      | inl full ↦ rw full (rw (done full) (sym (append-nil text)))
      | inr more ↦
          let next : length (text ++ 0 ∷ []) ≡ length text + 1 =
            length-append text (0 ∷ []) ∙ omega arith in
          let less : gap (length text) ≡ suc (gap (length (text ++ 0 ∷ []))) =
            rw next (goes_on more) in
          rw more (
            push_zeros-gap fuel (text ++ 0 ∷ []) (omega arith) (omega arith)
            ∙ (append_assoc text (0 ∷ []) (replicate (gap (length (text ++ 0 ∷ []))) 0)
                ∙ rw less refl))
    ]

-- The padding behind a message of this length.
abbrev pub tail : ℕ → Bytes
tail n = 128 ∷ (replicate (gap (n + 1)) 0 ++ be64 (n * 8))

padded-tail : (msg : Bytes) → length msg + 65 < 2 ^ 61 → padded msg ≡ msg ++ tail (length msg)
unfolding padded
padded-tail msg small =
    let whole : length (msg ++ 128 ∷ []) ≡ length msg + 1 =
      length-append msg (128 ∷ []) ∙ omega arith in
    let bits : length msg * 8 % 2 ^ 64 ≡ length msg * 8 = omega arith in
    let zeros : push_zeros 64 (msg ++ 128 ∷ [])
        ≡ (msg ++ 128 ∷ []) ++ replicate (gap (length msg + 1)) 0 =
      push_zeros-gap 64 (msg ++ 128 ∷ []) (omega arith) (omega arith) ∙ rw whole refl in
    rw (zeros, bits) (simp append_assoc)

length-replicate : (n : ℕ) → length (replicate {A = ℕ} n 0) ≡ n
length-replicate zero = refl
length-replicate (suc n) = ap suc (length-replicate n)

length-padded :
    (msg : Bytes)
    → length msg + 65 < 2 ^ 61
    → length (padded msg) ≡ length msg + 1 + gap (length msg + 1) + 8
length-padded msg small = rw (padded-tail msg small) (
    omega (
      arith,
      length-append msg (tail (length msg)),
      length-append (replicate (gap (length msg + 1)) 0) (be64 (length msg * 8)),
      length-replicate (gap (length msg + 1)),
    ))

-- The last eight bytes.
drop-padded :
    (msg : Bytes)
    → length msg + 65 < 2 ^ 61
    → drop (length (padded msg) - 8) (padded msg) ≡ be64 (length msg * 8)
drop-padded msg small =
    let front = msg ++ 128 ∷ replicate (gap (length msg + 1)) 0 in
    let cut : padded msg ≡ front ++ be64 (length msg * 8) =
      padded-tail msg small ∙ simp append_assoc in
    let n : length (padded msg) - 8 ≡ length front = omega (
      arith,
      length-padded msg small,
      length-append msg (128 ∷ replicate (gap (length msg + 1)) 0),
      length-replicate (gap (length msg + 1)),
    ) in
    rw (n, cut) (drop-append front (be64 (length msg * 8)))

length_of-padded :
    (msg : Bytes)
    → length msg + 65 < 2 ^ 61
    → get64be (drop (length (padded msg) - 8) (padded msg)) ≡ length msg * 8
length_of-padded msg small = rw (drop-padded msg small) (
    ap get64be (sym (append-nil (be64 (length msg * 8))))
    ∙ get64be-be64 (length msg * 8) [] (omega arith))

take-padded : (msg : Bytes) → length msg + 65 < 2 ^ 61 → take (length msg) (padded msg) ≡ msg
take-padded msg small = rw (padded-tail msg small) (take-append msg (tail (length msg)))

-- A message of fewer than 2^61 - 65 bytes is padded to whole blocks of 64 bytes, with at most 72 bytes
-- behind it, and another such message is padded to other bytes.
pub padded-injective :
    (m n : Bytes)
    → length m + 65 < 2 ^ 61
    → length n + 65 < 2 ^ 61
    → (length (padded m) % 64 ≡ 0)
      × (length (padded m) ≤ length m + 72)
      × (take (length m) (padded m) ≡ m)
      × (padded m ≡ padded n → m ≡ n)
padded-injective m n hm hn = (
  omega (arith, length-padded m hm),
  omega (arith, length-padded m hm),
  take-padded m hm,
  λ same.
      let sizes : length m * 8 ≡ length n * 8 =
        sym (length_of-padded m hm)
        ∙ (ap (λ t. get64be (drop (length t - 8) t)) same ∙ length_of-padded n hn) in
      let size : length m ≡ length n = omega arith in
      sym (take-padded m hm) ∙ (rw (size, same) (take-padded n hn)),
)
