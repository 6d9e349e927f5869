-- ===== src/Mysql/Response/Scramble.antt =====
-- Why a server accepts the auth response.
use credential_gateway.Common.{
  ◌<◌, ◌≡◌, ◌≢◌, refl, sym, ap, ◌∙◌, Bytes, IsByte, All, [], ◌∷◌, ◌++◌, length, arith,
}
use credential_gateway.Common.Bits.{bit_xor_cancel}
use credential_gateway.Std.Digest.{xor_bytes}
use credential_gateway.Std.Digest.Laws.{length-sha1, sha1-IsByte, length-xor_bytes}
use credential_gateway.Std.Digest.Sha1.{sha1}
use credential_gateway.Mysql.Response.{scramble}

xor_bytes_cancel :
    (xs ys : Bytes)
    → All IsByte xs
    → All IsByte ys
    → length xs ≡ length ys
    → xor_bytes (xor_bytes xs ys) xs ≡ ys
unfolding xor_bytes
xor_bytes_cancel [] [] hx hy h = refl
xor_bytes_cancel [] (y ∷ ys) hx hy h = absurd (omega arith)
xor_bytes_cancel (x ∷ xs) [] hx hy h = absurd (omega arith)
xor_bytes_cancel (x ∷ xs) (y ∷ ys) hx hy h =
    cc (bit_xor_cancel x y hx.0 hy.0, xor_bytes_cancel xs ys hx.1 hy.1 (omega arith))

-- A server that stores SHA1(SHA1(password)) undoes the XOR and compares the digest of the result:
-- with the nonce it sent, it accepts the scramble of any password that is not empty.
pub scramble_accepted :
    (nonce password : Bytes)
    → password ≢ []
    → let stored = sha1 (sha1 password) in
      sha1 (xor_bytes (scramble nonce password) (sha1 (nonce ++ stored))) ≡ stored
unfolding scramble
scramble_accepted nonce [] h = absurd (h refl)
scramble_accepted nonce (p ∷ ps) h =
    let h1 = sha1 (p ∷ ps) in
    let mask = sha1 (nonce ++ sha1 h1) in
    ap sha1 (
      xor_bytes_cancel mask h1 (sha1-IsByte _) (sha1-IsByte _)
        (length-sha1 _ ∙ sym (length-sha1 _)))

-- An auth response is empty or 20 bytes long, so its length fits one byte.
pub length-scramble : (nonce password : Bytes) → length (scramble nonce password) < 256
unfolding scramble
length-scramble nonce [] = omega arith
length-scramble nonce (p ∷ ps) = omega (
  arith,
  length-xor_bytes (sha1 (nonce ++ sha1 (sha1 (p ∷ ps)))) (sha1 (p ∷ ps)),
  length-sha1 (p ∷ ps),
)
