-- ===== src/Sha256.antt =====
-- include/infrastructure/sha256.hpp: `real_sha256`. A `uint32_t` is a number below 2^32, and sums wrap
-- around. The array of a block's 64 words grows at its end, and the eight words of the state are a
-- record.
pub mod Padding
pub mod Schedule
pub mod Digest
use Prim.Native.Nat.{bit_and, bit_or, bit_xor}
use secure_file_transfer.Base.{
  ℕ, zero, suc, ◌+◌, ◌-◌, ◌*◌, ◌/◌, ◌%◌, ◌^◌, List, [], ◌∷◌, ◌++◌, Bytes, length, get_or, ltb, ◌==◌,
  if◌then◌else◌,
}
use secure_file_transfer.Wire.Words.{be32, be64}
use secure_file_transfer.Domain.Ids.{hex_bytes}

-- Bitwise operators on 32 bits: `~x`, and a shift left that drops the bits above.
unfoldable pub ch : ℕ → ℕ → ℕ → ℕ
ch x y z = bit_xor (bit_and x y) (bit_and (4294967295 - x) z)

unfoldable pub maj : ℕ → ℕ → ℕ → ℕ
maj x y z = bit_xor (bit_xor (bit_and x y) (bit_and x z)) (bit_and y z)

unfoldable pub rotr : ℕ → ℕ → ℕ
rotr x n = bit_or (x / 2 ^ n) (x * 2 ^ (32 - n) % 2 ^ 32)

unfoldable pub bsig0 : ℕ → ℕ
unfolding rotr
bsig0 x = bit_xor (bit_xor (rotr x 2) (rotr x 13)) (rotr x 22)

unfoldable pub bsig1 : ℕ → ℕ
unfolding rotr
bsig1 x = bit_xor (bit_xor (rotr x 6) (rotr x 11)) (rotr x 25)

unfoldable pub ssig0 : ℕ → ℕ
unfolding rotr
ssig0 x = bit_xor (bit_xor (rotr x 7) (rotr x 18)) (x / 2 ^ 3)

unfoldable pub ssig1 : ℕ → ℕ
unfolding rotr
ssig1 x = bit_xor (bit_xor (rotr x 17) (rotr x 19)) (x / 2 ^ 10)

-- The array `k`.
unfoldable pub round_keys : List ℕ
round_keys =
    0x428a2f98 ∷ 0x71374491 ∷ 0xb5c0fbcf ∷ 0xe9b5dba5 ∷ 0x3956c25b ∷ 0x59f111f1 ∷ 0x923f82a4
    ∷ 0xab1c5ed5 ∷ 0xd807aa98 ∷ 0x12835b01 ∷ 0x243185be ∷ 0x550c7dc3 ∷ 0x72be5d74 ∷ 0x80deb1fe
    ∷ 0x9bdc06a7 ∷ 0xc19bf174 ∷ 0xe49b69c1 ∷ 0xefbe4786 ∷ 0x0fc19dc6 ∷ 0x240ca1cc ∷ 0x2de92c6f
    ∷ 0x4a7484aa ∷ 0x5cb0a9dc ∷ 0x76f988da ∷ 0x983e5152 ∷ 0xa831c66d ∷ 0xb00327c8 ∷ 0xbf597fc7
    ∷ 0xc6e00bf3 ∷ 0xd5a79147 ∷ 0x06ca6351 ∷ 0x14292967 ∷ 0x27b70a85 ∷ 0x2e1b2138 ∷ 0x4d2c6dfc
    ∷ 0x53380d13 ∷ 0x650a7354 ∷ 0x766a0abb ∷ 0x81c2c92e ∷ 0x92722c85 ∷ 0xa2bfe8a1 ∷ 0xa81a664b
    ∷ 0xc24b8b70 ∷ 0xc76c51a3 ∷ 0xd192e819 ∷ 0xd6990624 ∷ 0xf40e3585 ∷ 0x106aa070 ∷ 0x19a4c116
    ∷ 0x1e376c08 ∷ 0x2748774c ∷ 0x34b0bcb5 ∷ 0x391c0cb3 ∷ 0x4ed8aa4a ∷ 0x5b9cca4f ∷ 0x682e6ff3
    ∷ 0x748f82ee ∷ 0x78a5636f ∷ 0x84c87814 ∷ 0x8cc70208 ∷ 0x90befffa ∷ 0xa4506ceb ∷ 0xbef9a3f7
    ∷ 0xc67178f2 ∷ []

-- `while((data.size()*8)%512 != 448) data.push_back(0);`, in at most so many rounds.
unfoldable pub push_zeros : ℕ → Bytes → Bytes
push_zeros zero text = text
push_zeros (suc fuel) text =
    let rest = push_zeros fuel (text ++ 0 ∷ []) in
    if length text * 8 % 2 ^ 64 % 512 == 448 then text else rest

-- The message with what is pushed behind it. Less than a block of zeros is needed.
unfoldable pub padded : Bytes → Bytes
unfolding push_zeros
padded msg = push_zeros 64 (msg ++ 128 ∷ []) ++ be64 (length msg * 8 % 2 ^ 64)

-- The word of the four bytes from `p` on.
unfoldable pub word_at : Bytes → ℕ → ℕ
word_at text p =
    bit_or
      (bit_or (bit_or (get_or text p 0 * 2 ^ 24) (get_or text (p + 1) 0 * 2 ^ 16))
        (get_or text (p + 2) 0 * 2 ^ 8))
      (get_or text (p + 3) 0)

-- `n` words of the block that starts at `chunk`, from the `i`th on.
unfoldable pub block_words : Bytes → ℕ → ℕ → ℕ → List ℕ
unfolding word_at
block_words text chunk i zero = []
block_words text chunk i (suc n) = word_at text (chunk + i * 4) ∷ block_words text chunk (suc i) n

unfoldable pub next_word : List ℕ → ℕ → ℕ
unfolding ssig0 ssig1
next_word w i =
    (ssig1 (get_or w (i - 2) 0)
      + get_or w (i - 7) 0
      + ssig0 (get_or w (i - 15) 0)
      + get_or w (i - 16) 0)
    % 2 ^ 32

-- `n` more words, from the `i`th on.
unfoldable pub extend : ℕ → ℕ → List ℕ → List ℕ
unfolding next_word
extend zero i w = w
extend (suc n) i w = extend n (suc i) (w ++ next_word w i ∷ [])

unfoldable pub schedule : Bytes → ℕ → List ℕ
unfolding block_words extend
schedule text chunk = extend 48 16 (block_words text chunk 0 16)

pub record Words : Type 0 where
  pub a : ℕ
  pub b : ℕ
  pub c : ℕ
  pub d : ℕ
  pub e : ℕ
  pub f : ℕ
  pub g : ℕ
  pub hh : ℕ

unfoldable pub initial : Words
initial = record {
  a = 0x6a09e667;
  b = 0xbb67ae85;
  c = 0x3c6ef372;
  d = 0xa54ff53a;
  e = 0x510e527f;
  f = 0x9b05688c;
  g = 0x1f83d9ab;
  hh = 0x5be0cd19;
}

-- One of the 64 rounds, with a key and a word.
unfoldable pub round : ℕ → ℕ → Words → Words
unfolding bsig0 bsig1 ch maj
round key word s =
    let t1 = (s.hh + bsig1 s.e + ch s.e s.f s.g + key + word) % 2 ^ 32 in
    let t2 = (bsig0 s.a + maj s.a s.b s.c) % 2 ^ 32 in
    record {
      a = (t1 + t2) % 2 ^ 32;
      b = s.a;
      c = s.b;
      d = s.c;
      e = (s.d + t1) % 2 ^ 32;
      f = s.e;
      g = s.f;
      hh = s.g;
    }

-- `n` rounds, from the `i`th on.
unfoldable pub rounds : ℕ → ℕ → List ℕ → Words → Words
unfolding round round_keys
rounds zero i w s = s
rounds (suc n) i w s = rounds n (suc i) w (round (get_or round_keys i 0) (get_or w i 0) s)

abbrev add32 : ℕ → ℕ → ℕ
add32 x y = (x + y) % 2 ^ 32

abbrev add_words : Words → Words → Words
add_words h s = record {
  a = add32 h.a s.a;
  b = add32 h.b s.b;
  c = add32 h.c s.c;
  d = add32 h.d s.d;
  e = add32 h.e s.e;
  f = add32 h.f s.f;
  g = add32 h.g s.g;
  hh = add32 h.hh s.hh;
}

-- The body of the loop over the blocks.
unfoldable pub compress : Bytes → ℕ → Words → Words
unfolding schedule rounds
compress text chunk h = add_words h (rounds 64 0 (schedule text chunk) h)

-- `for(size_t chunk=0; chunk<data.size(); chunk+=64)`, in at most so many rounds.
unfoldable pub blocks : ℕ → Bytes → ℕ → Words → Words
unfolding compress
blocks zero text chunk h = h
blocks (suc fuel) text chunk h =
    let rest = blocks fuel text (chunk + 64) (compress text chunk h) in
    if ltb chunk (length text) then rest else h

abbrev pub bytes_of : Words → Bytes
bytes_of h =
    be32 h.a
    ++ (be32 h.b ++ (be32 h.c ++ (be32 h.d ++ (be32 h.e ++ (be32 h.f ++ (be32 h.g ++ be32 h.hh))))))

-- The padded message has fewer blocks than bytes.
unfoldable pub hash_bytes : Bytes → Bytes
unfolding padded blocks initial
hash_bytes msg = let text = padded msg in bytes_of (blocks (length text) text 0 initial)

unfoldable pub hex : Bytes → Bytes
unfolding hash_bytes hex_bytes
hex s = hex_bytes (hash_bytes s)
