-- ===== src/Base/Bits.antt =====
-- `|` of disjoint fields is a sum, and `^` of two bytes undoes itself.
use Prim.Native.Nat.{bit_or, bit_xor, bit_or-bitwise, digits, max}
use Prim.Native.Nat.{ℕ, zero, suc, ◌+◌, ◌*◌, ◌/◌, ◌%◌, ◌^◌, ◌≤◌, ◌<◌}
use native.Mathlib.Nat.{pow-suc}
use native.Mathlib.Omega.{arith}
use mathlib.Core.Path.{◌≡◌, refl, ap}
use mathlib.Core.Bool.{Bool, true, false, not, ◌&&◌}
use secure_file_transfer.Base.Tests.{◌==◌, ltb}

abbrev or_digits : ℕ → ℕ → ℕ → ℕ
or_digits n a b = digits (λ y. y) max n a b

-- The fuel does not matter once it is enough for the first number.
or_digits_fuel : (fuel more x y : ℕ) → x ≤ fuel → x ≤ more → or_digits fuel x y ≡ or_digits more x y
or_digits_fuel zero zero zero y low high = refl
or_digits_fuel zero (suc more) zero y low high = refl
or_digits_fuel (suc fuel) zero zero y low high = refl
or_digits_fuel (suc fuel) (suc more) zero y low high = refl
or_digits_fuel (suc fuel) (suc more) (suc x) y low high =
    let halved = or_digits_fuel fuel more (suc x / 2) (y / 2) (omega arith) (omega arith) in
    omega (arith, halved)
or_digits_fuel zero more (suc x) y low high = absurd (omega arith)
or_digits_fuel (suc fuel) zero (suc x) y low high = absurd (omega arith)

-- The lowest digit of `a | b`.
bit_or_digit : (a b : ℕ) → bit_or a b ≡ bit_or (a / 2) (b / 2) * 2 + max (a % 2) (b % 2)
bit_or_digit zero b = omega (arith, bit_or-bitwise 0 b, bit_or-bitwise 0 (b / 2))
bit_or_digit (suc a) b = omega (
  arith,
  bit_or-bitwise (suc a) b,
  bit_or-bitwise (suc a / 2) (b / 2),
  or_digits_fuel a (suc a / 2) (suc a / 2) (b / 2) (omega arith) (omega arith),
)

bit_or-zero_fuel : (n a : ℕ) → a ≤ n → bit_or a 0 ≡ a
bit_or-zero_fuel n zero h = refl
bit_or-zero_fuel zero (suc a) h = absurd (omega arith)
bit_or-zero_fuel (suc n) (suc a) h =
    omega (arith, bit_or_digit (suc a) 0, bit_or-zero_fuel n (suc a / 2) (omega arith))

bit_or_comm_fuel : (n a b : ℕ) → a + b ≤ n → bit_or a b ≡ bit_or b a
bit_or_comm_fuel zero a b h =
    let no_a : a ≡ 0 = omega arith in let no_b : b ≡ 0 = omega arith in rw (no_a, no_b) refl
bit_or_comm_fuel (suc n) a b h =
    omega
      (arith, bit_or_digit a b, bit_or_digit b a, bit_or_comm_fuel n (a / 2) (b / 2) (omega arith))

pub bit_or_comm : (a b : ℕ) → bit_or a b ≡ bit_or b a
bit_or_comm a b = bit_or_comm_fuel (a + b) a b (omega arith)

-- A field shifted left by `k` bits, with a field of fewer bits below it.
pub bit_or-shifted : (k hi lo : ℕ) → lo < 2 ^ k → bit_or (hi * 2 ^ k) lo ≡ hi * 2 ^ k + lo
bit_or-shifted zero hi lo h = ground (arith, bit_or-zero_fuel hi hi (omega arith))
bit_or-shifted (suc k) hi lo h =
    let double : 2 ^ suc k ≡ 2 ^ k * 2 = pow-suc 2 k in
    let twice : hi * 2 ^ suc k ≡ hi * 2 ^ k * 2 = omega (arith, ap (λ (t : ℕ). hi * t) double) in
    ground
      (arith, twice, bit_or_digit (hi * 2 ^ suc k) lo, bit_or-shifted k hi (lo / 2) (omega arith))

pub bit_or-byte : (hi lo : ℕ) → lo < 256 → bit_or (hi * 256) lo ≡ hi * 256 + lo
bit_or-byte hi lo h = bit_or-shifted 8 hi lo h

-- Over the bytes, every value is checked by evaluation.
holds_below : (ℕ → Bool) → ℕ → Bool
holds_below test zero = true
holds_below test (suc limit) = holds_below test limit && test limit

holds_below_lem :
    (test : ℕ → Bool) (limit k : ℕ) → k < limit → holds_below test limit ≡ true → test k ≡ true
unfolding holds_below
holds_below_lem test (suc limit) k low all = ground (arith, holds_below_lem test limit k)
holds_below_lem test zero k low all = absurd (omega arith)

abbrev xor_twice : ℕ → ℕ → Bool
xor_twice y x = (bit_xor (bit_xor x y) y == x) && ltb (bit_xor x y) 256

xor_table : holds_below (λ y. holds_below (xor_twice y) 256) 256 ≡ true
unfolding holds_below
xor_table = refl

xor_row : (x y : ℕ) → x < 256 → y < 256 → xor_twice y x ≡ true
xor_row x y hx hy =
    holds_below_lem (xor_twice y) 256 x hx
      (holds_below_lem (λ z. holds_below (xor_twice z) 256) 256 y hy xor_table)

-- `x ^ y ^ y` of two bytes is `x`, and `x ^ y` is a byte.
pub bit_xor-bit_xor :
    (x y : ℕ) → x < 256 → y < 256 → (bit_xor (bit_xor x y) y ≡ x) × (bit_xor x y < 256)
bit_xor-bit_xor x y hx hy = ground (arith, xor_row x y)

-- Two tests with one result.
infix 50 ◌≟◌
abbrev ◌≟◌ : Bool → Bool → Bool
true ≟ b = b
false ≟ b = not b

agree_sound : (a b : Bool) → (a ≟ b) ≡ true → a ≡ b
agree_sound true true h = refl
agree_sound true false h = cc
agree_sound false true h = cc
agree_sound false false h = refl

-- `x ^ y` is zero exactly for equal bytes, and `x | y` exactly if both bytes are zero.
abbrev zero_tests : ℕ → ℕ → Bool
zero_tests y x =
    ((bit_xor x y == 0) ≟ (x == y))
    && (((bit_or x y == 0) ≟ ((x == 0) && (y == 0))) && ltb (bit_or x y) 256)

zero_table : holds_below (λ y. holds_below (zero_tests y) 256) 256 ≡ true
unfolding holds_below
zero_table = refl

zero_row : (x y : ℕ) → x < 256 → y < 256 → zero_tests y x ≡ true
zero_row x y hx hy =
    holds_below_lem (zero_tests y) 256 x hx
      (holds_below_lem (λ z. holds_below (zero_tests z) 256) 256 y hy zero_table)

pub bit_xor-zero : (x y : ℕ) → x < 256 → y < 256 → (bit_xor x y == 0) ≡ (x == y)
bit_xor-zero x y hx hy = agree_sound (bit_xor x y == 0) (x == y) (ground (arith, zero_row x y))

pub bit_or-zero :
    (x y : ℕ)
    → x < 256
    → y < 256
    → ((bit_or x y == 0) ≡ ((x == 0) && (y == 0))) × (bit_or x y < 256)
bit_or-zero x y hx hy = (
  agree_sound (bit_or x y == 0) ((x == 0) && (y == 0)) (ground (arith, zero_row x y)),
  ground (arith, zero_row x y),
)
