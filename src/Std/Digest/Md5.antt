-- ===== src/Std/Digest/Md5.antt =====
-- crypto/md5: RFC 1321.
use credential_gateway.Common.{
  ℕ, zero, suc, ◌+◌, ◌-◌, ◌*◌, ◌/◌, ◌%◌, ◌^◌, bit_or, bit_xor, Bytes, List, [], ◌∷◌, ◌++◌, length,
  drop, ltb, if◌then◌else◌,
}
use credential_gateway.Common.Words.{le32, of_le}
use credential_gateway.Std.Digest.{
  add_word, not_word, rotate_left, xor_three, choose, nth, padded, words, blocks,
}

pub record State : Type 0 where
  pub a : ℕ
  pub b : ℕ
  pub c : ℕ
  pub d : ℕ

-- 2 ^ 32 times the sine of 1, 2, …, 64.
abbrev sines : List ℕ
sines =
    0xd76aa478 ∷ 0xe8c7b756 ∷ 0x242070db ∷ 0xc1bdceee ∷ 0xf57c0faf ∷ 0x4787c62a ∷ 0xa8304613
    ∷ 0xfd469501 ∷ 0x698098d8 ∷ 0x8b44f7af ∷ 0xffff5bb1 ∷ 0x895cd7be ∷ 0x6b901122 ∷ 0xfd987193
    ∷ 0xa679438e ∷ 0x49b40821 ∷ 0xf61e2562 ∷ 0xc040b340 ∷ 0x265e5a51 ∷ 0xe9b6c7aa ∷ 0xd62f105d
    ∷ 0x02441453 ∷ 0xd8a1e681 ∷ 0xe7d3fbc8 ∷ 0x21e1cde6 ∷ 0xc33707d6 ∷ 0xf4d50d87 ∷ 0x455a14ed
    ∷ 0xa9e3e905 ∷ 0xfcefa3f8 ∷ 0x676f02d9 ∷ 0x8d2a4c8a ∷ 0xfffa3942 ∷ 0x8771f681 ∷ 0x6d9d6122
    ∷ 0xfde5380c ∷ 0xa4beea44 ∷ 0x4bdecfa9 ∷ 0xf6bb4b60 ∷ 0xbebfbc70 ∷ 0x289b7ec6 ∷ 0xeaa127fa
    ∷ 0xd4ef3085 ∷ 0x04881d05 ∷ 0xd9d4d039 ∷ 0xe6db99e5 ∷ 0x1fa27cf8 ∷ 0xc4ac5665 ∷ 0xf4292244
    ∷ 0x432aff97 ∷ 0xab9423a7 ∷ 0xfc93a039 ∷ 0x655b59c3 ∷ 0x8f0ccc92 ∷ 0xffeff47d ∷ 0x85845dd1
    ∷ 0x6fa87e4f ∷ 0xfe2ce6e0 ∷ 0xa3014314 ∷ 0x4e0811a1 ∷ 0xf7537e82 ∷ 0xbd3af235 ∷ 0x2ad7d2bb
    ∷ 0xeb86d391 ∷ []

abbrev shifts : List ℕ
shifts = 7 ∷ 12 ∷ 17 ∷ 22 ∷ 5 ∷ 9 ∷ 14 ∷ 20 ∷ 4 ∷ 11 ∷ 16 ∷ 23 ∷ 6 ∷ 10 ∷ 15 ∷ 21 ∷ []

-- The function of round `t`, and the word of the block that it takes.
abbrev mix : ℕ → State → ℕ
mix t s =
    if ltb t 16
    then choose s.b s.c s.d
    else if ltb t 32
    then choose s.d s.b s.c
    else if ltb t 48
    then xor_three s.b s.c s.d
    else bit_xor s.c (bit_or s.b (not_word s.d))

abbrev word_index : ℕ → ℕ
word_index t =
    if ltb t 16
    then t
    else if ltb t 32
    then (5 * t + 1) % 16
    else if ltb t 48
    then (3 * t + 5) % 16
    else 7 * t % 16

rounds : ℕ → List ℕ → List ℕ → State → State
rounds zero w ks s = s
rounds (suc left) w ks s =
    let t = 63 - left in
    let sum = add_word (add_word s.a (mix t s)) (add_word (nth ks 0) (nth w (word_index t))) in
    rounds left w (drop 1 ks) (record {
      a = s.d;
      b = add_word s.b (rotate_left sum (nth shifts (t / 16 * 4 + t % 4)));
      c = s.b;
      d = s.c;
    })

compress : List ℕ → State → State
compress w s =
    let t = rounds 64 w sines s in
    record {
      a = add_word s.a t.a;
      b = add_word s.b t.b;
      c = add_word s.c t.c;
      d = add_word s.d t.d;
    }

abbrev initial : State
initial = record { a = 0x67452301; b = 0xefcdab89; c = 0x98badcfe; d = 0x10325476 }

final : Bytes → State
final m =
    let p = padded (λ n. le32 n ++ le32 (n / 2 ^ 32)) m in
    blocks compress of_le (length p / 64) p initial

-- `md5.Sum(m)`.
unfoldable pub md5 : Bytes → Bytes
unfolding rounds compress final padded words blocks
md5 m = let s = final m in le32 s.a ++ (le32 s.b ++ (le32 s.c ++ le32 s.d))
