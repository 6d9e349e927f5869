-- ===== src/Postgres/Scram.antt =====
-- internal/gateway/postgres.go: what `doSCRAM` computes (`pgParseSCRAMServerFirst`, `pgPBKDF2`,
-- `pgHMAC`, and the texts of RFC 5802).
pub mod Attributes
pub mod Derivation
pub mod Proof
pub mod Exchange
use credential_gateway.Common.{
  ℕ, zero, suc, ◌+◌, ◌-◌, ◌*◌, ◌/◌, Bytes, Bool, true, false, not, ◌&&◌, List, [], ◌∷◌, ◌++◌,
  length, take, drop, Option, none, some, ltb, ◌==◌, if◌then◌else◌,
}
use credential_gateway.Common.Texts.{codes, is_empty, equal, has_prefix}
use credential_gateway.Common.Words.{be32, of_be}
use credential_gateway.Std.Digest.{xor_bytes}
use credential_gateway.Std.Digest.Sha256.{sha256, hmac_sha256}
use credential_gateway.Std.Base64.{encode, decode}
use credential_gateway.Std.Decimal.{ℤ, pos, negsuc, scan_int, or_zero}
use credential_gateway.Net.Exit.{
  Exit, done, failed, panicked, Fault, fail_if, index, ◌>>=◌, ◌>>◌, malformed_server_first,
  nonce_mismatch, bad_salt, bad_iterations,
}
use credential_gateway.Postgres.Startup.{Params, param}

-- `strings.Split` at a byte.
abbrev pub onto_first : ℕ → List Bytes → List Bytes
onto_first b [] = (b ∷ []) ∷ []
onto_first b (w ∷ ws) = (b ∷ w) ∷ ws

unfoldable pub split_at : ℕ → Bytes → List Bytes
split_at c [] = [] ∷ []
split_at c (b ∷ bs) = let rest = split_at c bs in if b == c then [] ∷ rest else onto_first b rest

-- `strings.IndexByte`, as the parts before and behind the byte.
abbrev pub onto_key : ℕ → Option (Bytes × Bytes) → Option (Bytes × Bytes)
onto_key b none = none
onto_key b (some (k, v)) = some (b ∷ k, v)

unfoldable pub cut_at : ℕ → Bytes → Option (Bytes × Bytes)
cut_at c [] = none
cut_at c (b ∷ bs) = let rest = cut_at c bs in if b == c then some ([], bs) else onto_key b rest

-- One part of `k=v`; a part without `=`, or with none before it, is left out.
abbrev pub add_attribute : Option (Bytes × Bytes) → Params → Params
add_attribute none out = out
add_attribute (some ([], v)) out = out
add_attribute (some (b ∷ k, v)) out = (b ∷ k, v) ∷ out

unfoldable pub add_attributes : List Bytes → Params → Params
unfolding cut_at
add_attributes [] out = out
add_attributes (part ∷ parts) out = add_attributes parts (add_attribute (cut_at b'=' part) out)

-- `pgParseSCRAMServerFirst`; the empty list is the nil map of the source, which reads as empty.
unfoldable pub parse_attributes : Bytes → Params
unfolding split_at add_attributes
parse_attributes s = add_attributes (split_at b',' s) []

-- `m[key]`, "" where the key is missing.
abbrev pub or_nothing : Option Bytes → Bytes
or_nothing none = []
or_nothing (some v) = v

abbrev pub attribute : ℕ → Params → Bytes
attribute key params = or_nothing (param (key ∷ []) params)

-- The inner loop of `pgPBKDF2`, `n` rounds of it.
unfoldable pub rounds : ℕ → Bytes → Bytes → Bytes → Bytes
rounds zero password u t = t
rounds (suc n) password u t =
    let u' = hmac_sha256 password u in rounds n password u' (xor_bytes t u')

unfoldable pub derived_block : Bytes → Bytes → ℕ → ℕ → Bytes
unfolding rounds
derived_block password salt iter block =
    let u = hmac_sha256 password (salt ++ be32 block) in rounds (iter - 1) password u u

unfoldable pub derived_blocks : ℕ → Bytes → Bytes → ℕ → ℕ → Bytes
unfolding derived_block
derived_blocks zero password salt iter block = []
derived_blocks (suc n) password salt iter block =
    derived_block password salt iter block ++ derived_blocks n password salt iter (suc block)

-- `pgPBKDF2`, with digests of 32 bytes.
unfoldable pub pbkdf2 : Bytes → Bytes → ℕ → ℕ → Bytes
unfolding derived_blocks
pbkdf2 password salt iter key_length =
    take key_length (derived_blocks ((key_length + 32 - 1) / 32) password salt iter 1)

-- What is read of server-first.
pub record Challenge : Type 0 where
  pub nonce : Bytes
  pub salt : Bytes
  pub iterations : ℕ

abbrev pub or_fail {ℓ} : {A : Type ℓ} → Option A → Fault → Exit A
or_fail none e = failed e
or_fail (some a) e = done a

-- `if iterations < 1`.
abbrev pub positive : ℤ → Exit ℕ
positive (pos zero) = failed bad_iterations
positive (pos (suc n)) = done (suc n)
positive (negsuc n) = failed bad_iterations

unfoldable pub read_challenge : Bytes → Bytes → Exit Challenge
unfolding parse_attributes
read_challenge client_nonce server_first = do
  let sf = parse_attributes server_first
  fail_if (is_empty sf) malformed_server_first
  fail_if (not (has_prefix (attribute b'r' sf) client_nonce)) nonce_mismatch
  salt ← or_fail (decode (attribute b's' sf)) bad_salt
  iterations ← positive (or_zero (scan_int (attribute b'i' sf)))
  done (record { nonce = attribute b'r' sf; salt = salt; iterations = iterations })

-- The texts of the exchange.
abbrev pub first_bare : Bytes → Bytes
first_bare client_nonce = codes "n=,r=" ++ client_nonce

abbrev pub client_first : Bytes → Bytes
client_first client_nonce = codes "n,," ++ first_bare client_nonce

abbrev pub without_proof : Challenge → Bytes
without_proof c = codes "c=" ++ (encode (codes "n,,") ++ (codes ",r=" ++ c.nonce))

abbrev pub auth_message : Bytes → Bytes → Challenge → Bytes
auth_message client_nonce server_first c =
    first_bare client_nonce ++ (codes "," ++ (server_first ++ (codes "," ++ without_proof c)))

-- The keys of RFC 5802.
unfoldable pub salted_password : Bytes → Challenge → Bytes
unfolding pbkdf2
salted_password password c = pbkdf2 password c.salt c.iterations 32

unfoldable pub client_key : Bytes → Challenge → Bytes
unfolding salted_password
client_key password c = hmac_sha256 (salted_password password c) (codes "Client Key")

unfoldable pub server_key : Bytes → Challenge → Bytes
unfolding salted_password
server_key password c = hmac_sha256 (salted_password password c) (codes "Server Key")

unfoldable pub client_proof : Bytes → Bytes → Bytes → Challenge → Bytes
unfolding client_key
client_proof password client_nonce server_first c =
    let key = client_key password c in
    xor_bytes key (hmac_sha256 (sha256 key) (auth_message client_nonce server_first c))

unfoldable pub client_final : Bytes → Bytes → Bytes → Challenge → Bytes
unfolding client_proof
client_final password client_nonce server_first c =
    without_proof c ++ (codes ",p=" ++ encode (client_proof password client_nonce server_first c))

unfoldable pub server_signature : Bytes → Bytes → Bytes → Challenge → Bytes
unfolding server_key
server_signature password client_nonce server_first c =
    encode (hmac_sha256 (server_key password c) (auth_message client_nonce server_first c))
