-- ===== src/Common/Texts.antt =====
-- Text literals as bytes, comparison and prefixes of byte strings, and C strings.
use Prim.Native.Nat.{ℕ, suc, ◌≤◌}
use Prim.Native.Char.{code}
use Prim.Native.String.{String}
use mathlib.Core.Path.{◌≡◌, refl}
use mathlib.Core.Logic.{◌↔◌, ◌≢◌}
use mathlib.Core.Bool.{Bool, true, false, ◌&&◌}
use mathlib.Core.List.{List, [], ◌∷◌, ◌++◌}
use native.Mathlib.Omega.{arith}
use credential_gateway.Common.Tests.{◌==◌, if◌then◌else◌}
use credential_gateway.Common.Lists.{Bytes, All, length}

-- The bytes of an ASCII literal.
abbrev pub codes : String → Bytes
codes String.[] = []
codes (String.◌∷◌ c s) = code c ∷ codes s

-- `==` of Go strings, and `bytes.Equal`.
unfoldable pub equal : Bytes → Bytes → Bool
equal [] [] = true
equal (x ∷ xs) (y ∷ ys) = x == y && equal xs ys
equal _ _ = false

pub equal_iff : (xs ys : Bytes) → (equal xs ys ≡ true) ↔ (xs ≡ ys)
unfolding equal
equal_iff (x ∷ xs) (y ∷ ys) = ground (arith, equal_iff xs ys)
equal_iff _ _ = ground arith

pub equal_self : (xs : Bytes) → equal xs xs ≡ true
equal_self xs = (equal_iff xs xs).1 refl

-- `s == ""`.
abbrev pub is_empty {ℓ} : {A : Type ℓ} → List A → Bool
is_empty [] = true
is_empty (x ∷ xs) = false

-- `bytes.HasPrefix s p`.
unfoldable pub has_prefix : Bytes → Bytes → Bool
has_prefix xs [] = true
has_prefix [] (y ∷ ys) = false
has_prefix (x ∷ xs) (y ∷ ys) = x == y && has_prefix xs ys

pub has_prefix-append : (xs ys : Bytes) → has_prefix (xs ++ ys) xs ≡ true
unfolding has_prefix
has_prefix-append [] ys = refl
has_prefix-append (x ∷ xs) ys = ground (arith, has_prefix-append xs ys)

-- `end := 0; for end < len(data) && data[end] != 0 { end++ }`.
unfoldable pub nul_index : Bytes → ℕ
nul_index [] = 0
nul_index (b ∷ bs) = if b == 0 then 0 else suc (nul_index bs)

pub nul_index-le-length : (bs : Bytes) → nul_index bs ≤ length bs
unfolding nul_index
nul_index-le-length [] = omega arith
nul_index-le-length (b ∷ bs) = ground (arith, nul_index-le-length bs)

-- A string with no NUL in it.
abbrev pub HasNoNul : Bytes → Type 0
HasNoNul = All (λ b. b ≢ 0)

pub nul_index-append : (s rest : Bytes) → HasNoNul s → nul_index (s ++ (0 ∷ rest)) ≡ length s
unfolding nul_index
nul_index-append [] rest h = refl
nul_index-append (b ∷ bs) rest h = ground (arith, nul_index-append bs rest h.1)
