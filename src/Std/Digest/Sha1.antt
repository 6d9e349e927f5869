-- ===== src/Std/Digest/Sha1.antt =====
-- crypto/sha1: FIPS 180-4, section 6.1.
use credential_gateway.Common.{
  ℕ, zero, suc, ◌-◌, ◌/◌, ◌^◌, bit_xor, Bytes, List, [], ◌∷◌, ◌++◌, length, drop, ltb,
  if◌then◌else◌,
}
use credential_gateway.Common.Words.{be32, of_be}
use credential_gateway.Std.Digest.{
  add_word, rotate_left, xor_three, choose, majority, nth, padded, words, blocks,
}

pub record State : Type 0 where
  pub a : ℕ
  pub b : ℕ
  pub c : ℕ
  pub d : ℕ
  pub e : ℕ

-- The function and the constant of round `t`, at the words b, c and d.
abbrev mix : ℕ → State → ℕ
mix t s =
    if ltb t 20
    then add_word (choose s.b s.c s.d) 0x5a827999
    else if ltb t 40
    then add_word (xor_three s.b s.c s.d) 0x6ed9eba1
    else if ltb t 60
    then add_word (majority s.b s.c s.d) 0x8f1bbcdc
    else add_word (xor_three s.b s.c s.d) 0xca62c1d6

-- `left` rounds to go, over the next 16 words of the schedule.
rounds : ℕ → List ℕ → State → State
rounds zero w s = s
rounds (suc left) w s =
    let next = rotate_left (bit_xor (xor_three (nth w 13) (nth w 8) (nth w 2)) (nth w 0)) 1 in
    rounds left (drop 1 w ++ (next ∷ [])) (record {
      a = add_word (add_word (rotate_left s.a 5) (mix (79 - left) s)) (add_word s.e (nth w 0));
      b = s.a;
      c = rotate_left s.b 30;
      d = s.c;
      e = s.d;
    })

compress : List ℕ → State → State
compress w s =
    let t = rounds 80 w s in
    record {
      a = add_word s.a t.a;
      b = add_word s.b t.b;
      c = add_word s.c t.c;
      d = add_word s.d t.d;
      e = add_word s.e t.e;
    }

abbrev initial : State
initial = record { a = 0x67452301; b = 0xefcdab89; c = 0x98badcfe; d = 0x10325476; e = 0xc3d2e1f0 }

final : Bytes → State
final m =
    let p = padded (λ n. be32 (n / 2 ^ 32) ++ be32 n) m in
    blocks compress of_be (length p / 64) p initial

-- `sha1.Sum(m)`.
unfoldable pub sha1 : Bytes → Bytes
unfolding rounds compress final padded words blocks
sha1 m = let s = final m in be32 s.a ++ (be32 s.b ++ (be32 s.c ++ (be32 s.d ++ be32 s.e)))
