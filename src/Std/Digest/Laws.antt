-- ===== src/Std/Digest/Laws.antt =====
-- Sizes of digests, and XOR of byte strings.
use credential_gateway.Common.{◌≡◌, refl, Bytes, IsByte, [], ◌∷◌, length, All, min, arith}
use credential_gateway.Common.Bits.{bit_xor_twice}
use credential_gateway.Common.Texts.{codes}
use credential_gateway.Std.Digest.{xor_bytes}
use credential_gateway.Std.Digest.Md5.{md5}
use credential_gateway.Std.Digest.Sha1.{sha1}
use credential_gateway.Std.Digest.Sha256.{sha256, hmac_sha256}

pub length-sha1 : (m : Bytes) → length (sha1 m) ≡ 20
unfolding sha1
length-sha1 m = refl

pub sha1-IsByte : (m : Bytes) → All IsByte (sha1 m)
unfolding sha1
sha1-IsByte m = omega arith

pub length-md5 : (m : Bytes) → length (md5 m) ≡ 16
unfolding md5
length-md5 m = refl

pub length-sha256 : (m : Bytes) → length (sha256 m) ≡ 32
unfolding sha256
length-sha256 m = refl

pub sha256-IsByte : (m : Bytes) → All IsByte (sha256 m)
unfolding sha256
sha256-IsByte m = omega arith

pub length-hmac_sha256 : (key m : Bytes) → length (hmac_sha256 key m) ≡ 32
unfolding hmac_sha256
length-hmac_sha256 key m = refl

pub hmac_sha256-IsByte : (key m : Bytes) → All IsByte (hmac_sha256 key m)
unfolding hmac_sha256
hmac_sha256-IsByte key m = omega arith

pub length-xor_bytes : (xs ys : Bytes) → length (xor_bytes xs ys) ≡ min (length xs) (length ys)
unfolding xor_bytes
length-xor_bytes [] ys = omega arith
length-xor_bytes (x ∷ xs) [] = omega arith
length-xor_bytes (x ∷ xs) (y ∷ ys) = omega (arith, length-xor_bytes xs ys)

-- XOR with the same bytes twice gives the bytes back.
pub xor_bytes_twice :
    (xs ys : Bytes)
    → All IsByte xs
    → All IsByte ys
    → length xs ≡ length ys
    → xor_bytes (xor_bytes xs ys) ys ≡ xs
unfolding xor_bytes
xor_bytes_twice [] ys hx hy h = refl
xor_bytes_twice (x ∷ xs) [] hx hy h = absurd (omega arith)
xor_bytes_twice (x ∷ xs) (y ∷ ys) hx hy h =
    cc (bit_xor_twice x y hx.0 hy.0, xor_bytes_twice xs ys hx.1 hy.1 (omega arith))

sha1_abc :
    sha1 (codes "abc")
    ≡ 0xa9 ∷ 0x99 ∷ 0x3e ∷ 0x36 ∷ 0x47 ∷ 0x06 ∷ 0x81 ∷ 0x6a ∷ 0xba ∷ 0x3e ∷ 0x25 ∷ 0x71 ∷ 0x78
      ∷ 0x50 ∷ 0xc2 ∷ 0x6c ∷ 0x9c ∷ 0xd0 ∷ 0xd8 ∷ 0x9d ∷ []
unfolding sha1
sha1_abc = refl

md5_abc :
    md5 (codes "abc")
    ≡ 0x90 ∷ 0x01 ∷ 0x50 ∷ 0x98 ∷ 0x3c ∷ 0xd2 ∷ 0x4f ∷ 0xb0 ∷ 0xd6 ∷ 0x96 ∷ 0x3f ∷ 0x7d ∷ 0x28
      ∷ 0xe1 ∷ 0x7f ∷ 0x72 ∷ []
unfolding md5
md5_abc = refl

sha256_abc :
    sha256 (codes "abc")
    ≡ 0xba ∷ 0x78 ∷ 0x16 ∷ 0xbf ∷ 0x8f ∷ 0x01 ∷ 0xcf ∷ 0xea ∷ 0x41 ∷ 0x41 ∷ 0x40 ∷ 0xde ∷ 0x5d
      ∷ 0xae ∷ 0x22 ∷ 0x23 ∷ 0xb0 ∷ 0x03 ∷ 0x61 ∷ 0xa3 ∷ 0x96 ∷ 0x17 ∷ 0x7a ∷ 0x9c ∷ 0xb4 ∷ 0x10
      ∷ 0xff ∷ 0x61 ∷ 0xf2 ∷ 0x00 ∷ 0x15 ∷ 0xad ∷ []
unfolding sha256
sha256_abc = refl

hmac_sha256_abc :
    hmac_sha256 (codes "key") (codes "abc")
    ≡ 0x9c ∷ 0x19 ∷ 0x6e ∷ 0x32 ∷ 0xdc ∷ 0x01 ∷ 0x75 ∷ 0xf8 ∷ 0x6f ∷ 0x4b ∷ 0x1c ∷ 0xb8 ∷ 0x92
      ∷ 0x89 ∷ 0xd6 ∷ 0x61 ∷ 0x9d ∷ 0xe6 ∷ 0xbe ∷ 0xe6 ∷ 0x99 ∷ 0xe4 ∷ 0xc3 ∷ 0x78 ∷ 0xe6 ∷ 0x83
      ∷ 0x09 ∷ 0xed ∷ 0x97 ∷ 0xa1 ∷ 0xa6 ∷ 0xab ∷ []
unfolding hmac_sha256
hmac_sha256_abc = refl
