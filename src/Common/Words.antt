-- ===== src/Common/Words.antt =====
-- Machine words as byte strings: `encoding/binary`, both byte orders.
use Prim.Native.Nat.{ℕ, ◌+◌, ◌*◌, ◌/◌, ◌%◌, ◌^◌, ◌<◌}
use mathlib.Core.Path.{◌≡◌}
use mathlib.Core.List.{[], ◌∷◌}
use native.Mathlib.Omega.{arith}
use credential_gateway.Common.Lists.{Bytes, IsByte, All}

-- `AppendUint32` and `PutUint16` of the two byte orders; the value is taken modulo the width.
abbrev pub be32 : ℕ → Bytes
be32 n = (n / 2 ^ 24 % 256) ∷ (n / 2 ^ 16 % 256) ∷ (n / 2 ^ 8 % 256) ∷ (n % 256) ∷ []

abbrev pub be16 : ℕ → Bytes
be16 n = (n / 2 ^ 8 % 256) ∷ (n % 256) ∷ []

abbrev pub le32 : ℕ → Bytes
le32 n = (n % 256) ∷ (n / 2 ^ 8 % 256) ∷ (n / 2 ^ 16 % 256) ∷ (n / 2 ^ 24 % 256) ∷ []

-- A big-endian number, its most significant byte first.
abbrev pub of_be_from : ℕ → Bytes → ℕ
of_be_from acc [] = acc
of_be_from acc (b ∷ bs) = of_be_from (acc * 256 + b) bs

abbrev pub of_be : Bytes → ℕ
of_be = of_be_from 0

abbrev pub of_le : Bytes → ℕ
of_le [] = 0
of_le (b ∷ bs) = b + 256 * of_le bs

pub of_be-be32 : (n : ℕ) → n < 2 ^ 32 → of_be (be32 n) ≡ n
of_be-be32 n h = omega arith

pub of_be-be16 : (n : ℕ) → n < 2 ^ 16 → of_be (be16 n) ≡ n
of_be-be16 n h = omega arith

pub of_le-le32 : (n : ℕ) → n < 2 ^ 32 → of_le (le32 n) ≡ n
of_le-le32 n h = omega arith

pub be32-IsByte : (n : ℕ) → All IsByte (be32 n)
be32-IsByte n = omega arith
