-- ===== src/Std/Digest/Sha256.antt =====
-- crypto/sha256: FIPS 180-4, section 6.2, and crypto/hmac over it: RFC 2104.
use credential_gateway.Common.{
  ℕ, zero, suc, ◌-◌, ◌/◌, ◌^◌, bit_xor, Bytes, List, [], ◌∷◌, ◌++◌, length, drop, replicate, map,
  ltb, if◌then◌else◌,
}
use credential_gateway.Common.Words.{be32, of_be}
use credential_gateway.Std.Digest.{
  add_word, rotate_right, xor_three, choose, majority, nth, padded, words, blocks,
}

pub record State : Type 0 where
  pub a : ℕ
  pub b : ℕ
  pub c : ℕ
  pub d : ℕ
  pub e : ℕ
  pub f : ℕ
  pub g : ℕ
  pub h : ℕ

abbrev round_constants : List ℕ
round_constants =
    0x428a2f98 ∷ 0x71374491 ∷ 0xb5c0fbcf ∷ 0xe9b5dba5 ∷ 0x3956c25b ∷ 0x59f111f1 ∷ 0x923f82a4
    ∷ 0xab1c5ed5 ∷ 0xd807aa98 ∷ 0x12835b01 ∷ 0x243185be ∷ 0x550c7dc3 ∷ 0x72be5d74 ∷ 0x80deb1fe
    ∷ 0x9bdc06a7 ∷ 0xc19bf174 ∷ 0xe49b69c1 ∷ 0xefbe4786 ∷ 0x0fc19dc6 ∷ 0x240ca1cc ∷ 0x2de92c6f
    ∷ 0x4a7484aa ∷ 0x5cb0a9dc ∷ 0x76f988da ∷ 0x983e5152 ∷ 0xa831c66d ∷ 0xb00327c8 ∷ 0xbf597fc7
    ∷ 0xc6e00bf3 ∷ 0xd5a79147 ∷ 0x06ca6351 ∷ 0x14292967 ∷ 0x27b70a85 ∷ 0x2e1b2138 ∷ 0x4d2c6dfc
    ∷ 0x53380d13 ∷ 0x650a7354 ∷ 0x766a0abb ∷ 0x81c2c92e ∷ 0x92722c85 ∷ 0xa2bfe8a1 ∷ 0xa81a664b
    ∷ 0xc24b8b70 ∷ 0xc76c51a3 ∷ 0xd192e819 ∷ 0xd6990624 ∷ 0xf40e3585 ∷ 0x106aa070 ∷ 0x19a4c116
    ∷ 0x1e376c08 ∷ 0x2748774c ∷ 0x34b0bcb5 ∷ 0x391c0cb3 ∷ 0x4ed8aa4a ∷ 0x5b9cca4f ∷ 0x682e6ff3
    ∷ 0x748f82ee ∷ 0x78a5636f ∷ 0x84c87814 ∷ 0x8cc70208 ∷ 0x90befffa ∷ 0xa4506ceb ∷ 0xbef9a3f7
    ∷ 0xc67178f2 ∷ []

-- `left` rounds to go, over the next 16 words of the schedule and the constants still unused.
rounds : ℕ → List ℕ → List ℕ → State → State
rounds zero w ks s = s
rounds (suc left) w ks s =
    let w1 = nth w 1 in
    let w14 = nth w 14 in
    let s0 = xor_three (rotate_right w1 7) (rotate_right w1 18) (w1 / 2 ^ 3) in
    let s1 = xor_three (rotate_right w14 17) (rotate_right w14 19) (w14 / 2 ^ 10) in
    let next = add_word (add_word s1 (nth w 9)) (add_word s0 (nth w 0)) in
    let e1 = xor_three (rotate_right s.e 6) (rotate_right s.e 11) (rotate_right s.e 25) in
    let a0 = xor_three (rotate_right s.a 2) (rotate_right s.a 13) (rotate_right s.a 22) in
    let t1 =
      add_word (add_word s.h e1) (add_word (choose s.e s.f s.g) (add_word (nth ks 0) (nth w 0))) in
    let t2 = add_word a0 (majority s.a s.b s.c) in
    rounds left (drop 1 w ++ (next ∷ [])) (drop 1 ks) (record {
      a = add_word t1 t2;
      b = s.a;
      c = s.b;
      d = s.c;
      e = add_word s.d t1;
      f = s.e;
      g = s.f;
      h = s.g;
    })

compress : List ℕ → State → State
compress w s =
    let t = rounds 64 w round_constants s in
    record {
      a = add_word s.a t.a;
      b = add_word s.b t.b;
      c = add_word s.c t.c;
      d = add_word s.d t.d;
      e = add_word s.e t.e;
      f = add_word s.f t.f;
      g = add_word s.g t.g;
      h = add_word s.h t.h;
    }

abbrev initial : State
initial = record {
  a = 0x6a09e667;
  b = 0xbb67ae85;
  c = 0x3c6ef372;
  d = 0xa54ff53a;
  e = 0x510e527f;
  f = 0x9b05688c;
  g = 0x1f83d9ab;
  h = 0x5be0cd19;
}

final : Bytes → State
final m =
    let p = padded (λ n. be32 (n / 2 ^ 32) ++ be32 n) m in
    blocks compress of_be (length p / 64) p initial

-- `sha256.Sum256(m)`.
unfoldable pub sha256 : Bytes → Bytes
unfolding rounds compress final padded words blocks
sha256 m =
    let s = final m in
    be32 s.a
    ++ (be32 s.b ++ (be32 s.c ++ (be32 s.d ++ (be32 s.e ++ (be32 s.f ++ (be32 s.g ++ be32 s.h))))))

-- The key of an HMAC, as one block.
key_block : Bytes → Bytes
key_block key =
    let short = if ltb 64 (length key) then sha256 key else key in
    short ++ replicate (64 - length short) 0

-- `mac := hmac.New(sha256.New, key); mac.Write(m); mac.Sum(nil)`.
unfoldable pub hmac_sha256 : Bytes → Bytes → Bytes
unfolding key_block sha256
hmac_sha256 key m =
    let k = key_block key in sha256 (map (bit_xor 0x5c) k ++ sha256 (map (bit_xor 0x36) k ++ m))
