-- ===== src/Wire/Words.antt =====
-- include/ports/transport.hpp: `put32be`, `get32be`, `put64be` and `get64be`.
-- A `uint8_t*` is the list of the bytes from there on; a read past the end, which the callers
-- exclude by a test of the size, gives 0 here.
use Prim.Native.Nat.{bit_or}
use secure_file_transfer.Base.{
  ℕ, zero, suc, ◌+◌, ◌*◌, ◌/◌, ◌%◌, ◌^◌, ◌<◌, ◌≡◌, ◌∙◌, refl, [], ◌∷◌, ◌++◌, arith, Bytes, get_or,
  drop,
}
use secure_file_transfer.Base.Bits.{bit_or-shifted}

-- (x >> (8 * i)) & 0xFF
abbrev octet : ℕ → ℕ → ℕ
octet x i = x / 2 ^ (8 * i) % 256

unfoldable pub put32be : Bytes → ℕ → Bytes
put32be v x = v ++ octet x 3 ∷ octet x 2 ∷ octet x 1 ∷ octet x 0 ∷ []

unfoldable pub get32be : Bytes → ℕ
get32be p =
    bit_or (bit_or (bit_or (get_or p 0 0 * 2 ^ 24) (get_or p 1 0 * 2 ^ 16)) (get_or p 2 0 * 2 ^ 8))
      (get_or p 3 0)

unfoldable pub put64be : Bytes → ℕ → Bytes
put64be v x =
    v
    ++ octet x 7
      ∷ octet x 6
      ∷ octet x 5
      ∷ octet x 4
      ∷ octet x 3
      ∷ octet x 2
      ∷ octet x 1
      ∷ octet x 0
      ∷ []

-- v = (v << 8) | uint64_t(p[i])
abbrev shift_in : ℕ → ℕ → ℕ
shift_in v b = bit_or (v * 2 ^ 8 % 2 ^ 64) b

get64be_loop : ℕ → Bytes → ℕ → ℕ
get64be_loop zero p v = v
get64be_loop (suc n) p v = get64be_loop n (drop 1 p) (shift_in v (get_or p 0 0))

unfoldable pub get64be : Bytes → ℕ
unfolding get64be_loop
get64be p = get64be_loop 8 p 0

-- The bytes that `put32be` and `put64be` append.
abbrev pub be32 : ℕ → Bytes
be32 x = octet x 3 ∷ octet x 2 ∷ octet x 1 ∷ octet x 0 ∷ []

abbrev pub be64 : ℕ → Bytes
be64 x =
    octet x 7
    ∷ octet x 6
    ∷ octet x 5
    ∷ octet x 4
    ∷ octet x 3
    ∷ octet x 2
    ∷ octet x 1
    ∷ octet x 0
    ∷ []

-- Four bytes joined by shifts and `|` are their value in base 256.
join_four :
    (a b c d : ℕ)
    → b < 256
    → c < 256
    → d < 256
    → bit_or (bit_or (bit_or (a * 2 ^ 24) (b * 2 ^ 16)) (c * 2 ^ 8)) d
      ≡ ((a * 256 + b) * 256 + c) * 256 + d
join_four a b c d hb hc hd =
    let ab : bit_or (a * 2 ^ 24) (b * 2 ^ 16) ≡ (a * 256 + b) * 2 ^ 16 =
      bit_or-shifted 24 a (b * 2 ^ 16) (omega arith) ∙ omega arith in
    let abc : bit_or ((a * 256 + b) * 2 ^ 16) (c * 2 ^ 8) ≡ ((a * 256 + b) * 256 + c) * 2 ^ 8 =
      bit_or-shifted 16 (a * 256 + b) (c * 2 ^ 8) (omega arith) ∙ omega arith in
    rw (ab, abc) (bit_or-shifted 8 ((a * 256 + b) * 256 + c) d hd)

-- A 32-bit number is read back from the bytes written for it, whatever follows them.
pub get32be-be32 : (x : ℕ) (rest : Bytes) → x < 2 ^ 32 → get32be (be32 x ++ rest) ≡ x
unfolding get32be
get32be-be32 x rest h = omega (
  arith,
  join_four (octet x 3) (octet x 2) (octet x 1) (octet x 0) (omega arith) (omega arith)
      (omega arith),
)

shift_in_lem : (v b : ℕ) → v < 2 ^ 56 → b < 256 → shift_in v b ≡ v * 256 + b
shift_in_lem v b hv hb =
    let whole : v * 2 ^ 8 % 2 ^ 64 ≡ v * 2 ^ 8 = omega arith in rw whole (bit_or-shifted 8 v b hb)

-- One round of `get64be`: the bytes above the `i`th are there, and the `i`th comes in.
module _ (x : ℕ) (h : x < 2 ^ 64) where
  round7 : shift_in 0 (octet x 7) ≡ x / 2 ^ 56
  round7 = shift_in_lem 0 (octet x 7) (omega arith) (omega arith) ∙ omega arith

  round6 : shift_in (x / 2 ^ 56) (octet x 6) ≡ x / 2 ^ 48
  round6 = shift_in_lem (x / 2 ^ 56) (octet x 6) (omega arith) (omega arith) ∙ omega arith

  round5 : shift_in (x / 2 ^ 48) (octet x 5) ≡ x / 2 ^ 40
  round5 = shift_in_lem (x / 2 ^ 48) (octet x 5) (omega arith) (omega arith) ∙ omega arith

  round4 : shift_in (x / 2 ^ 40) (octet x 4) ≡ x / 2 ^ 32
  round4 = shift_in_lem (x / 2 ^ 40) (octet x 4) (omega arith) (omega arith) ∙ omega arith

  round3 : shift_in (x / 2 ^ 32) (octet x 3) ≡ x / 2 ^ 24
  round3 = shift_in_lem (x / 2 ^ 32) (octet x 3) (omega arith) (omega arith) ∙ omega arith

  round2 : shift_in (x / 2 ^ 24) (octet x 2) ≡ x / 2 ^ 16
  round2 = shift_in_lem (x / 2 ^ 24) (octet x 2) (omega arith) (omega arith) ∙ omega arith

  round1 : shift_in (x / 2 ^ 16) (octet x 1) ≡ x / 2 ^ 8
  round1 = shift_in_lem (x / 2 ^ 16) (octet x 1) (omega arith) (omega arith) ∙ omega arith

  round0 : shift_in (x / 2 ^ 8) (octet x 0) ≡ x
  round0 = shift_in_lem (x / 2 ^ 8) (octet x 0) (omega arith) (omega arith) ∙ omega arith

pub get64be-be64 : (x : ℕ) (rest : Bytes) → x < 2 ^ 64 → get64be (be64 x ++ rest) ≡ x
unfolding get64be
get64be-be64 x rest h =
    rw
      (
        round7 x h,
        round6 x h,
        round5 x h,
        round4 x h,
        round3 x h,
        round2 x h,
        round1 x h,
        round0 x h,
      )
      refl
