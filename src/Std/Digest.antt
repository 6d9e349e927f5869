-- ===== src/Std/Digest.antt =====
-- 32-bit words, the padding and the block loop that MD5, SHA-1 and SHA-256 share, and XOR of
-- byte strings.
pub mod Md5
pub mod Sha1
pub mod Sha256
pub mod Laws
use credential_gateway.Common.{
  ℕ, zero, suc, ◌+◌, ◌-◌, ◌*◌, ◌/◌, ◌%◌, ◌^◌, bit_and, bit_or, bit_xor, Bytes, List, [], ◌∷◌, ◌++◌,
  length, get_elem?, replicate, take, drop, Option, none, some,
}
use credential_gateway.Common.Words.{of_be, of_le}

-- Words of 32 bits.
abbrev pub word_mod : ℕ
word_mod = 2 ^ 32

abbrev pub add_word : ℕ → ℕ → ℕ
add_word a b = (a + b) % word_mod

abbrev pub not_word : ℕ → ℕ
not_word a = word_mod - 1 - a

abbrev pub rotate_left : ℕ → ℕ → ℕ
rotate_left a k = a * 2 ^ k % word_mod + a / 2 ^ (32 - k)

abbrev pub rotate_right : ℕ → ℕ → ℕ
rotate_right a k = a / 2 ^ k + a * 2 ^ (32 - k) % word_mod

abbrev pub xor_three : ℕ → ℕ → ℕ → ℕ
xor_three a b c = bit_xor (bit_xor a b) c

-- `b` where the bit of `a` is set, else `c`; and what two of three say.
abbrev pub choose : ℕ → ℕ → ℕ → ℕ
choose a b c = bit_or (bit_and a b) (bit_and (not_word a) c)

abbrev pub majority : ℕ → ℕ → ℕ → ℕ
majority a b c = xor_three (bit_and a b) (bit_and a c) (bit_and b c)

-- Element `i` of a list of words that is known to be long enough.
abbrev pub nth : List ℕ → ℕ → ℕ
nth ws i = elim (get_elem? ws i) [ none ↦ 0 | some w ↦ w ]

-- The byte 0x80, zeros up to 8 bytes below a multiple of 64, and the length in bits as given.
unfoldable pub padded : (ℕ → Bytes) → Bytes → Bytes
padded length_bytes m =
    m ++ (0x80 ∷ (replicate ((119 - length m % 64) % 64) 0 ++ length_bytes (8 * length m)))

-- The words of a block, four bytes each.
unfoldable pub words : (Bytes → ℕ) → Bytes → List ℕ
words of_bytes (a ∷ b ∷ c ∷ d ∷ rest) = of_bytes (a ∷ b ∷ c ∷ d ∷ []) ∷ words of_bytes rest
words of_bytes _ = []

-- The state after each whole block of 64 bytes.
unfoldable pub blocks {ℓ} : {S : Type ℓ} → (List ℕ → S → S) → (Bytes → ℕ) → ℕ → Bytes → S → S
blocks compress of_bytes zero m s = s
blocks compress of_bytes (suc n) m s =
    blocks compress of_bytes n (drop 64 m) (compress (words of_bytes (take 64 m)) s)

-- `for i := range a { a[i] ^= b[i] }`, up to the shorter of the two.
unfoldable pub xor_bytes : Bytes → Bytes → Bytes
xor_bytes (a ∷ as_) (b ∷ bs) = bit_xor a b ∷ xor_bytes as_ bs
xor_bytes _ _ = []
