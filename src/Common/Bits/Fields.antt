-- ===== src/Common/Bits/Fields.antt =====
-- `lo | hi << k` is a sum, at every width, when `lo` fits `k` bits.
use Prim.Native.Nat.{
  ℕ, zero, suc, ◌+◌, ◌*◌, ◌/◌, ◌%◌, ◌^◌, ◌≤◌, ◌<◌, min, max, bit_and, bit_or, digits,
  bit_or-bitwise, bit_and-bitwise,
}
use mathlib.Core.Path.{◌≡◌, refl, ap}
use native.Mathlib.Omega.{arith}
use native.Mathlib.Nat.{pow-suc}

abbrev or_digits : ℕ → ℕ → ℕ → ℕ
or_digits n a b = digits (λ b. b) max n a b

-- Fuel from the first operand on is enough, so any two such amounts agree.
or_digits_enough : (n m a b : ℕ) → a ≤ n → a ≤ m → or_digits n a b ≡ or_digits m a b
or_digits_enough zero zero a b p q = refl
or_digits_enough zero (suc m) zero b p q = refl
or_digits_enough (suc n) zero zero b p q = refl
or_digits_enough (suc n) (suc m) zero b p q = refl
or_digits_enough zero (suc m) (suc a) b p q = absurd (omega arith)
or_digits_enough (suc n) zero (suc a) b p q = absurd (omega arith)
or_digits_enough (suc n) (suc m) (suc a) b p q =
    omega (arith, or_digits_enough n m (suc a / 2) (b / 2) (omega arith) (omega arith))

zero-bit_or : (b : ℕ) → bit_or 0 b ≡ b
zero-bit_or b = bit_or-bitwise 0 b

-- The lowest digit, and the rest.
bit_or_digit : (a b : ℕ) → bit_or a b ≡ bit_or (a / 2) (b / 2) * 2 + max (a % 2) (b % 2)
bit_or_digit zero b = omega (arith, zero-bit_or b, zero-bit_or (b / 2))
bit_or_digit (suc a) b = omega (
  arith,
  bit_or-bitwise (suc a) b,
  bit_or-bitwise (suc a / 2) (b / 2),
  or_digits_enough a (suc a / 2) (suc a / 2) (b / 2) (omega arith) (omega arith),
)

double : (hi k : ℕ) → hi * 2 ^ suc k ≡ hi * 2 ^ k * 2
double hi k = omega (arith, ap (λ (t : ℕ). hi * t) (pow-suc 2 k))

pub bit_or_fields : (k lo hi : ℕ) → lo < 2 ^ k → bit_or lo (hi * 2 ^ k) ≡ lo + hi * 2 ^ k
bit_or_fields zero lo hi h = ground (arith, zero-bit_or hi)
bit_or_fields (suc k) lo hi h = ground (
  arith,
  bit_or_digit lo (hi * 2 ^ suc k),
  double hi k,
  pow-suc 2 k,
  bit_or_fields k (lo / 2) hi (omega (arith, pow-suc 2 k)),
)

zero-bit_and : (b : ℕ) → bit_and 0 b ≡ 0
zero-bit_and b = bit_and-bitwise 0 b

abbrev and_digits : ℕ → ℕ → ℕ → ℕ
and_digits n a b = digits (λ b. zero) min n a b

and_digits_enough : (n m a b : ℕ) → a ≤ n → a ≤ m → and_digits n a b ≡ and_digits m a b
and_digits_enough zero zero a b p q = refl
and_digits_enough zero (suc m) zero b p q = refl
and_digits_enough (suc n) zero zero b p q = refl
and_digits_enough (suc n) (suc m) zero b p q = refl
and_digits_enough zero (suc m) (suc a) b p q = absurd (omega arith)
and_digits_enough (suc n) zero (suc a) b p q = absurd (omega arith)
and_digits_enough (suc n) (suc m) (suc a) b p q =
    omega (arith, and_digits_enough n m (suc a / 2) (b / 2) (omega arith) (omega arith))

bit_and_digit : (a b : ℕ) → bit_and a b ≡ bit_and (a / 2) (b / 2) * 2 + min (a % 2) (b % 2)
bit_and_digit zero b = omega (arith, zero-bit_and b, zero-bit_and (b / 2))
bit_and_digit (suc a) b = omega (
  arith,
  bit_and-bitwise (suc a) b,
  bit_and-bitwise (suc a / 2) (b / 2),
  and_digits_enough a (suc a / 2) (suc a / 2) (b / 2) (omega arith) (omega arith),
)

bit_and-zero_up_to : (n a : ℕ) → a ≤ n → bit_and a 0 ≡ 0
bit_and-zero_up_to n zero h = zero-bit_and 0
bit_and-zero_up_to zero (suc a) h = absurd (omega arith)
bit_and-zero_up_to (suc n) (suc a) h =
    omega (arith, bit_and_digit (suc a) 0, bit_and-zero_up_to n (suc a / 2) (omega arith))

-- A mask of low ones, one digit at a time.
mask_one : (a : ℕ) → bit_and a 1 ≡ a % 2
mask_one a = omega (arith, bit_and_digit a 1, bit_and-zero_up_to (a / 2) (a / 2) (omega arith))

mask_three : (a : ℕ) → bit_and a 3 ≡ a % 4
mask_three a = omega (arith, bit_and_digit a 3, mask_one (a / 2))

mask_seven : (a : ℕ) → bit_and a 7 ≡ a % 8
mask_seven a = omega (arith, bit_and_digit a 7, mask_three (a / 2))

mask_15 : (a : ℕ) → bit_and a 15 ≡ a % 16
mask_15 a = omega (arith, bit_and_digit a 15, mask_seven (a / 2))

mask_31 : (a : ℕ) → bit_and a 31 ≡ a % 32
mask_31 a = omega (arith, bit_and_digit a 31, mask_15 (a / 2))

pub mask_63 : (a : ℕ) → bit_and a 63 ≡ a % 64
mask_63 a = omega (arith, bit_and_digit a 63, mask_31 (a / 2))

mask_127 : (a : ℕ) → bit_and a 127 ≡ a % 128
mask_127 a = omega (arith, bit_and_digit a 127, mask_63 (a / 2))

mask_255 : (a : ℕ) → bit_and a 255 ≡ a % 256
mask_255 a = omega (arith, bit_and_digit a 255, mask_127 (a / 2))

pub mask_511 : (a : ℕ) → bit_and a 511 ≡ a % 512
mask_511 a = omega (arith, bit_and_digit a 511, mask_255 (a / 2))
