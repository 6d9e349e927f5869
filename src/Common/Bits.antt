-- ===== src/Common/Bits.antt =====
-- Bit operations as arithmetic: on bytes and 16-bit words by tables that are evaluated.
mod Fields
use Fields.{bit_or_fields}
pub use Fields.{mask_63, mask_511}
use Prim.Native.Nat.{ℕ, zero, suc, ◌+◌, ◌-◌, ◌*◌, ◌/◌, ◌%◌, ◌<◌, bit_and, bit_or, bit_xor}
use mathlib.Core.Path.{◌≡◌, refl}
use mathlib.Core.Bool.{Bool, true, false}
use native.Mathlib.Omega.{arith}
use credential_gateway.Common.Tests.{◌==◌, ==_iff, if◌then◌else◌}

-- Whether a test passes at every number below a bound.
unfoldable pub passes_below : (ℕ → Bool) → ℕ → Bool
passes_below test zero = true
passes_below test (suc k) = elim (test k) [ true ↦ passes_below test k | false ↦ false ]

pub passes_below_sound :
    (test : ℕ → Bool) (k i : ℕ) → i < k → passes_below test k ≡ true → test i ≡ true
unfolding passes_below
passes_below_sound test (suc k) i below e = ground (arith, passes_below_sound test k i)
passes_below_sound test zero i below e = absurd (omega arith)

module _ (f g : ℕ → ℕ → ℕ) where
  abbrev agree : Bool
  agree = passes_below (λ a. passes_below (λ b. f a b == g a b) 256) 256

  agree_sound : agree ≡ true → (a b : ℕ) → a < 256 → b < 256 → f a b ≡ g a b
  agree_sound h a b ha hb =
      (==_iff _ _).0 (passes_below_sound _ 256 b hb (passes_below_sound _ 256 a ha h))

-- `a ^ b ^ b` is `a`.
pub bit_xor_twice : (a b : ℕ) → a < 256 → b < 256 → bit_xor (bit_xor a b) b ≡ a
unfolding passes_below
bit_xor_twice = agree_sound (λ a b. bit_xor (bit_xor a b) b) (λ a b. a) refl

-- `lo | hi << 8` is `lo + 256 * hi`, and `lo | mid << 8 | hi << 16` likewise.
pub bit_or_two : (lo hi : ℕ) → lo < 256 → bit_or lo (hi * 256) ≡ lo + hi * 256
bit_or_two lo hi h = bit_or_fields 8 lo hi h

pub bit_or_three :
    (lo mid hi : ℕ)
    → lo < 256
    → mid < 256
    → bit_or (bit_or lo (mid * 256)) (hi * 65536) ≡ lo + mid * 256 + hi * 65536
bit_or_three lo mid hi hl hm =
    rw (bit_or_two lo mid hl) (bit_or_fields 16 (lo + mid * 256) hi (omega arith))

-- `x &^ 0x0800` on a 16-bit word leaves the low byte and clears one bit of the high byte.
pub clear_bit_low : (lo hi : ℕ) → lo < 256 → hi < 256 → bit_and (lo + hi * 256) 0xf7ff % 256 ≡ lo
unfolding passes_below
clear_bit_low = agree_sound (λ lo hi. bit_and (lo + hi * 256) 0xf7ff % 256) (λ lo hi. lo) refl

pub clear_bit_high :
    (lo hi : ℕ) → lo < 256 → hi < 256 → bit_and (lo + hi * 256) 0xf7ff / 256 ≡ hi - hi / 8 % 2 * 8
unfolding passes_below
clear_bit_high =
    agree_sound (λ lo hi. bit_and (lo + hi * 256) 0xf7ff / 256) (λ lo hi. hi - hi / 8 % 2 * 8) refl

pub bit_xor-IsByte : (a b : ℕ) → a < 256 → b < 256 → bit_xor a b < 256
unfolding passes_below
bit_xor-IsByte a b ha hb =
    omega (arith, agree_sound (λ a b. bit_xor a b / 256) (λ a b. 0) refl a b ha hb)

-- `a ^ b ^ a` is `b`.
pub bit_xor_cancel : (a b : ℕ) → a < 256 → b < 256 → bit_xor (bit_xor a b) a ≡ b
unfolding passes_below
bit_xor_cancel = agree_sound (λ a b. bit_xor (bit_xor a b) a) (λ a b. b) refl
