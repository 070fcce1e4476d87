-- ===== src/Sha256/Digest.antt =====
-- What a digest is: 32 bytes, or 64 digits.
use secure_file_transfer.Base.{
  ℕ, zero, suc, ◌+◌, ◌-◌, ◌*◌, ◌/◌, ◌%◌, ◌≤◌, ◌<◌, ◌≡◌, refl, ◌∙◌, [], ◌∷◌, Bytes, length, arith,
  ltb, ◌⊎◌, inl, inr, All, Bool-cases, le→ltb, false,
}
use secure_file_transfer.Wire.Words.{be32}
use secure_file_transfer.Domain.Ids.{hex_bytes, hex_digit}
use secure_file_transfer.Sha256.{
  Words, padded, blocks, compress, hash_bytes, hex, initial, bytes_of,
}

-- `0` to `9`, or `a` to `f`.
abbrev pub IsHexDigit : ℕ → Type 0
IsHexDigit c = ((48 ≤ c) × (c ≤ 57)) ⊎ ((97 ≤ c) × (c ≤ 102))

hex_digit-IsHexDigit : (n : ℕ) → n < 16 → IsHexDigit (hex_digit n)
unfolding hex_digit
hex_digit-IsHexDigit n low = elim (Bool-cases (ltb n 10)) [
  | inl figure ↦ rw figure (inl (omega arith, ground arith))
  | inr letter ↦ rw letter (inr (ground arith, omega arith))
]

hex_digit-injective : (m n : ℕ) → m < 16 → n < 16 → hex_digit m ≡ hex_digit n → m ≡ n
unfolding hex_digit
hex_digit-injective m n hm hn same = ground arith

pub hex_bytes-IsHexDigit : (s : Bytes) → All (λ b. b < 256) s → All IsHexDigit (hex_bytes s)
unfolding hex_bytes
hex_bytes-IsHexDigit [] small = tt
hex_bytes-IsHexDigit (b ∷ bs) (low, rest) = (
  hex_digit-IsHexDigit (b / 16) (omega arith),
  (hex_digit-IsHexDigit (b % 16) (omega arith), hex_bytes-IsHexDigit bs rest),
)

pub length-hex_bytes : (s : Bytes) → length (hex_bytes s) ≡ length s * 2
unfolding hex_bytes
length-hex_bytes [] = refl
length-hex_bytes (b ∷ bs) = omega (arith, length-hex_bytes bs)

pub hex_bytes-injective :
    (s t : Bytes) → All (λ b. b < 256) s → All (λ b. b < 256) t → hex_bytes s ≡ hex_bytes t → s ≡ t
unfolding hex_bytes
hex_bytes-injective [] [] p q same = refl
hex_bytes-injective [] (c ∷ cs) p q same = absurd cc
hex_bytes-injective (b ∷ bs) [] p q same = absurd cc
hex_bytes-injective (b ∷ bs) (c ∷ cs) (p, ps) (q, qs) same =
    let high : hex_digit (b / 16) ≡ hex_digit (c / 16) = cc in
    let low : hex_digit (b % 16) ≡ hex_digit (c % 16) = cc in
    let rest : hex_bytes bs ≡ hex_bytes cs = cc in
    let high' : b / 16 ≡ c / 16 =
      hex_digit-injective (b / 16) (c / 16) (omega arith) (omega arith) high in
    let low' : b % 16 ≡ c % 16 =
      hex_digit-injective (b % 16) (c % 16) (omega arith) (omega arith) low in
    let head : b ≡ c = omega arith in cc (head, hex_bytes-injective bs cs ps qs rest)

-- The loop over the blocks ends by its test: with a round for each block it does the same as with
-- more.
pub blocks-enough :
    (k m : ℕ) (text : Bytes) (chunk : ℕ) (h : Words)
    → length text - chunk ≤ k * 64
    → length text - chunk ≤ m * 64
    → blocks k text chunk h ≡ blocks m text chunk h
unfolding blocks
blocks-enough zero zero text chunk h p q = refl
blocks-enough zero (suc m) text chunk h p q =
    let done : ltb chunk (length text) ≡ false = le→ltb chunk (length text) (omega arith) in
    rw done refl
blocks-enough (suc k) zero text chunk h p q =
    let done : ltb chunk (length text) ≡ false = le→ltb chunk (length text) (omega arith) in
    rw done refl
blocks-enough (suc k) (suc m) text chunk h p q = elim (Bool-cases (ltb chunk (length text))) [
  | inl more ↦
      rw more
        (blocks-enough k m text (chunk + 64) (compress text chunk h) (omega arith) (omega arith))
  | inr done ↦ rw done refl
]

be32-IsByte : (x : ℕ) → All (λ b. b < 256) (be32 x)
be32-IsByte x = (omega arith, (omega arith, (omega arith, (omega arith, tt))))

words-IsByte : (h : Words) → All (λ b. b < 256) (bytes_of h)
words-IsByte h = omega arith

pub hash_bytes-bytes :
    (msg : Bytes) → (length (hash_bytes msg) ≡ 32) × All (λ b. b < 256) (hash_bytes msg)
unfolding hash_bytes
hash_bytes-bytes msg =
    let h = blocks (length (padded msg)) (padded msg) 0 initial in (refl, words-IsByte h)

-- The text of a digest is 64 digits in lower case, of 32 bytes, and two messages with the same text
-- have the same digest.
pub hex-digest :
    (m n : Bytes)
    → (length (hash_bytes m) ≡ 32)
      × (length (hex m) ≡ 64)
      × All IsHexDigit (hex m)
      × (hex m ≡ hex n → hash_bytes m ≡ hash_bytes n)
unfolding hex
hex-digest m n = (
  (hash_bytes-bytes m).0,
  length-hex_bytes (hash_bytes m) ∙ omega (arith, (hash_bytes-bytes m).0),
  hex_bytes-IsHexDigit (hash_bytes m) (hash_bytes-bytes m).1,
  hex_bytes-injective (hash_bytes m) (hash_bytes n) (hash_bytes-bytes m).1 (hash_bytes-bytes n).1,
)
