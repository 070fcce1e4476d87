-- ===== src/Sha256/Schedule.antt =====
-- The 64 words of a block.
use secure_file_transfer.Base.{
  ℕ, zero, suc, ◌+◌, ◌-◌, ◌*◌, ◌≤◌, ◌<◌, ◌≡◌, refl, sym, ap, ◌∙◌, List, [], ◌∷◌, ◌++◌, Bytes,
  length, length-append, get_or, arith, ltb, if◌then◌else◌, inl, inr, ℕ_discrete, Bool-cases, ◌^◌,
  ◌/◌, ◌%◌, All,
}
use Prim.Native.Nat.{bit_or, bit_xor}
use secure_file_transfer.Base.Bits.{bit_or_comm, bit_or-shifted}
use secure_file_transfer.Sha256.{
  rotr, ssig0, ssig1, word_at, block_words, next_word, extend, schedule,
}

get_or-front : (xs ys : List ℕ) (i : ℕ) → i < length xs → get_or (xs ++ ys) i 0 ≡ get_or xs i 0
get_or-front [] ys i h = absurd (omega arith)
get_or-front (x ∷ xs) ys zero h = refl
get_or-front (x ∷ xs) ys (suc i) h = get_or-front xs ys i (omega arith)

get_or-end : (xs : List ℕ) (y : ℕ) → get_or (xs ++ y ∷ []) (length xs) 0 ≡ y
get_or-end [] y = refl
get_or-end (x ∷ xs) y = get_or-end xs y

-- The words that are there stay.
extend-keeps :
    (n i t : ℕ) (w : List ℕ) → length w ≡ i → t < i → get_or (extend n i w) t 0 ≡ get_or w t 0
unfolding extend
extend-keeps zero i t w size low = refl
extend-keeps (suc n) i t w size low =
    let grown : length (w ++ next_word w i ∷ []) ≡ suc i =
      length-append w (next_word w i ∷ []) ∙ omega arith in
    extend-keeps n (suc i) t (w ++ next_word w i ∷ []) grown (omega arith)
    ∙ get_or-front w (next_word w i ∷ []) t (omega arith)

-- A new word is made of words before it.
next_word-extend :
    (n i : ℕ) (w : List ℕ) → length w ≡ i → 16 ≤ i → next_word (extend n i w) i ≡ next_word w i
unfolding next_word
next_word-extend n i w size low =
    rw
      (
        extend-keeps n i (i - 2) w size (omega arith),
        extend-keeps n i (i - 7) w size (omega arith),
        extend-keeps n i (i - 15) w size (omega arith),
        extend-keeps n i (i - 16) w size (omega arith),
      )
      refl

extend-next_word :
    (n i t : ℕ) (w : List ℕ)
    → length w ≡ i
    → 16 ≤ i
    → i ≤ t
    → t < i + n
    → get_or (extend n i w) t 0 ≡ next_word (extend n i w) t
unfolding extend
extend-next_word zero i t w size low from to = absurd (omega arith)
extend-next_word (suc n) i t w size low from to =
    let new = next_word w i in
    let grown : length (w ++ new ∷ []) ≡ suc i = length-append w (new ∷ []) ∙ omega arith in
    elim (ℕ_discrete i t) [
      | yes here ↦
          let there : get_or (extend (suc n) i w) i 0 ≡ new =
            extend-keeps n (suc i) i (w ++ new ∷ []) grown (omega arith)
            ∙ (ap (λ k. get_or (w ++ new ∷ []) k 0) (sym size) ∙ get_or-end w new) in
          rw (← here) (there ∙ sym (next_word-extend (suc n) i w size low))
      | no later ↦
          extend-next_word n (suc i) t (w ++ new ∷ []) grown (omega arith) (omega arith)
            (omega arith)
    ]

length-block_words : (text : Bytes) (chunk i n : ℕ) → length (block_words text chunk i n) ≡ n
unfolding block_words
length-block_words text chunk i zero = refl
length-block_words text chunk i (suc n) = ap suc (length-block_words text chunk (suc i) n)

get_or-block_words :
    (text : Bytes) (chunk i n t : ℕ)
    → t < n
    → get_or (block_words text chunk i n) t 0 ≡ word_at text (chunk + (i + t) * 4)
unfolding block_words
get_or-block_words text chunk i zero t low = absurd (omega arith)
get_or-block_words text chunk i (suc n) zero low = ap (word_at text) (omega arith)
get_or-block_words text chunk i (suc n) (suc t) low =
    get_or-block_words text chunk (suc i) n t (omega arith) ∙ ap (word_at text) (omega arith)

-- Each of the first 16 words is read from the block, and each of the other 48 is made of words of the
-- finished array.
schedule-next_word :
    (text : Bytes) (chunk t : ℕ)
    → t < 64
    → get_or (schedule text chunk) t 0
      ≡ (if ltb t 16 then word_at text (chunk + t * 4) else next_word (schedule text chunk) t)
unfolding schedule
schedule-next_word text chunk t low =
    let read = block_words text chunk 0 16 in
    let size : length read ≡ 16 = length-block_words text chunk 0 16 in
    elim (Bool-cases (ltb t 16)) [
      | inl first ↦ rw first (
          extend-keeps 48 16 t read size (ground arith)
          ∙ (get_or-block_words text chunk 0 16 t (ground arith)
              ∙ ap (λ k. word_at text (chunk + k * 4)) (omega arith)))
      | inr new ↦
          rw new (extend-next_word 48 16 t read size (omega arith) (ground arith) (omega arith))
    ]

-- The rotation to the right of a word of 32 bits, as arithmetic: the upper bits move down, and the
-- lower `n` to the top.
abbrev pub turned : ℕ → ℕ → ℕ
turned n x = x / 2 ^ n + x % 2 ^ n * 2 ^ (32 - n)

rotr-turned :
    (n x : ℕ)
    → x * 2 ^ (32 - n) % 2 ^ 32 ≡ x % 2 ^ n * 2 ^ (32 - n)
    → x / 2 ^ n < 2 ^ (32 - n)
    → rotr x n ≡ turned n x
unfolding rotr
rotr-turned n x top low =
    ap (bit_or (x / 2 ^ n)) top
    ∙ (bit_or_comm (x / 2 ^ n) (x % 2 ^ n * 2 ^ (32 - n))
        ∙ (bit_or-shifted (32 - n) (x % 2 ^ n) (x / 2 ^ n) low ∙ omega arith))

ssig0-turned : (x : ℕ) → x < 2 ^ 32 → ssig0 x ≡ bit_xor (bit_xor (turned 7 x) (turned 18 x)) (x / 8)
unfolding ssig0
ssig0-turned x small =
    rw (rotr-turned 7 x (omega arith) (omega arith), rotr-turned 18 x (omega arith) (omega arith))
      refl

ssig1-turned :
    (x : ℕ) → x < 2 ^ 32 → ssig1 x ≡ bit_xor (bit_xor (turned 17 x) (turned 19 x)) (x / 1024)
unfolding ssig1
ssig1-turned x small =
    rw (rotr-turned 17 x (omega arith) (omega arith), rotr-turned 19 x (omega arith) (omega arith))
      refl

get_or-byte : (text : Bytes) (i : ℕ) → All (λ b. b < 256) text → get_or text i 0 < 256
get_or-byte [] i bytes = omega arith
get_or-byte (b ∷ text) zero (here, later) = here
get_or-byte (b ∷ text) (suc i) (here, later) = get_or-byte text i later

-- The number that four bytes make, the first the highest.
abbrev pub big_endian : Bytes → ℕ → ℕ
big_endian text p =
    get_or text p 0 * 2 ^ 24
    + get_or text (p + 1) 0 * 2 ^ 16
    + get_or text (p + 2) 0 * 2 ^ 8
    + get_or text (p + 3) 0

joined :
    (a b c d : ℕ)
    → b < 256
    → c < 256
    → d < 256
    → bit_or (bit_or (bit_or (a * 2 ^ 24) (b * 2 ^ 16)) (c * 2 ^ 8)) d
      ≡ a * 2 ^ 24 + b * 2 ^ 16 + c * 2 ^ 8 + d
joined a b c d hb hc hd =
    let two : bit_or (a * 2 ^ 24) (b * 2 ^ 16) ≡ (a * 256 + b) * 2 ^ 16 =
      bit_or-shifted 24 a (b * 2 ^ 16) (omega arith) ∙ omega arith in
    let three : bit_or ((a * 256 + b) * 2 ^ 16) (c * 2 ^ 8) ≡ ((a * 256 + b) * 256 + c) * 2 ^ 8 =
      bit_or-shifted 16 (a * 256 + b) (c * 2 ^ 8) (omega arith) ∙ omega arith in
    ap (λ x. bit_or (bit_or x (c * 2 ^ 8)) d) two
    ∙ (ap (λ x. bit_or x d) three
        ∙ (bit_or-shifted 8 ((a * 256 + b) * 256 + c) d (omega arith) ∙ omega arith))

word_at-big_endian :
    (text : Bytes) (p : ℕ) → All (λ b. b < 256) text → word_at text p ≡ big_endian text p
unfolding word_at
word_at-big_endian text p bytes =
    joined (get_or text p 0) (get_or text (p + 1) 0) (get_or text (p + 2) 0) (get_or text (p + 3) 0)
      (get_or-byte text (p + 1) bytes) (get_or-byte text (p + 2) bytes)
      (get_or-byte text (p + 3) bytes)

next_word-small : (w : List ℕ) (i : ℕ) → next_word w i < 2 ^ 32
unfolding next_word
next_word-small w i = omega arith

schedule-small :
    (text : Bytes) (chunk t : ℕ)
    → All (λ b. b < 256) text
    → t < 64
    → get_or (schedule text chunk) t 0 < 2 ^ 32
schedule-small text chunk t bytes low =
    let it = schedule-next_word text chunk t low in
    let p = chunk + t * 4 in
    elim (Bool-cases (ltb t 16)) [
      | inl first ↦
          let value : get_or (schedule text chunk) t 0 ≡ big_endian text p =
            rw first at it ∙ word_at-big_endian text p bytes in
          omega (
            arith,
            value,
            get_or-byte text p bytes,
            get_or-byte text (p + 1) bytes,
            get_or-byte text (p + 2) bytes,
            get_or-byte text (p + 3) bytes,
          )
      | inr new ↦
          let value : get_or (schedule text chunk) t 0 ≡ next_word (schedule text chunk) t =
            rw new at it in
          omega (arith, value, next_word-small (schedule text chunk) t)
    ]

-- Of the 64 words that a block of bytes is extended to, each of the first 16 is the number of four
-- bytes of the block, the first the highest, and each of the other 48 is the sum modulo 2^32 that the
-- standard gives, of words of the finished array: the one seven before, the one sixteen before, the
-- one fifteen before under sigma 0 (rotations by 7 and 18 and a shift by 3) and the one two before
-- under sigma 1 (rotations by 17 and 19 and a shift by 10), the rotations given as arithmetic.
pub schedule-word :
    (text : Bytes) (chunk t : ℕ)
    → All (λ b. b < 256) text
    → t < 64
    → let w = λ (i : ℕ). get_or (schedule text chunk) i 0 in
      w t ≡ (
        if ltb t 16
        then big_endian text (chunk + t * 4)
        else (bit_xor (bit_xor (turned 17 (w (t - 2))) (turned 19 (w (t - 2)))) (w (t - 2) / 1024)
            + w (t - 7)
            + bit_xor (bit_xor (turned 7 (w (t - 15))) (turned 18 (w (t - 15)))) (w (t - 15) / 8)
            + w (t - 16))
          % 2 ^ 32)
unfolding next_word
schedule-word text chunk t bytes low =
    let it = schedule-next_word text chunk t low in
    elim (Bool-cases (ltb t 16)) [
      | inl first ↦ rw first (rw first at it ∙ word_at-big_endian text (chunk + t * 4) bytes)
      | inr new ↦
          rw
            (
              new,
              ← ssig0-turned _ (schedule-small text chunk (t - 15) bytes (omega arith)),
              ← ssig1-turned _ (schedule-small text chunk (t - 2) bytes (omega arith)),
            )
            (rw new at it)
    ]
