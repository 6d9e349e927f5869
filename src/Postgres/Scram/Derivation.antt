-- ===== src/Postgres/Scram/Derivation.antt =====
-- The key derivation is that of RFC 2898, section 5.2, and RFC 5802, section 2.2.
use credential_gateway.Common.{
  ℕ, zero, suc, ◌+◌, ◌-◌, ◌<◌, ◌≡◌, sym, ap, ◌∙◌, Bytes, [], ◌++◌, length, take, take-append_length,
  arith,
}
use credential_gateway.Common.Words.{be32}
use credential_gateway.Std.Digest.{xor_bytes}
use credential_gateway.Std.Digest.Sha256.{hmac_sha256}
use credential_gateway.Std.Digest.Laws.{length-hmac_sha256, length-xor_bytes}
use credential_gateway.Postgres.Scram.{rounds, derived_block, derived_blocks, pbkdf2}

module _ (password salt : Bytes) where
  -- U_(n+1) of RFC 2898: U_1 is of the salt and the block's number, the next of the one before.
  unfoldable pub link : ℕ → ℕ → Bytes
  link block zero = hmac_sha256 password (salt ++ be32 block)
  link block (suc n) = hmac_sha256 password (link block n)

  -- U_1 \xor U_2 \xor ... \xor U_(n+1).
  unfoldable pub chain : ℕ → ℕ → Bytes
  unfolding link
  chain block zero = link block zero
  chain block (suc n) = xor_bytes (chain block n) (link block (suc n))

  rounds-chain :
      (n m block : ℕ) → rounds n password (link block m) (chain block m) ≡ chain block (n + m)
  unfolding rounds chain
  rounds-chain zero m block = ap (chain block) (omega arith)
  rounds-chain (suc n) m block = rounds-chain n (suc m) block ∙ ap (chain block) (omega arith)

  derived_block-chain :
      (iter block : ℕ) → 0 < iter → derived_block password salt iter block ≡ chain block (iter - 1)
  unfolding derived_block link chain
  derived_block-chain iter block h =
      rounds-chain (iter - 1) 0 block ∙ ap (chain block) (omega arith)

  length-chain : (n block : ℕ) → length (chain block n) ≡ 32
  unfolding chain
  length-chain zero block = length-hmac_sha256 password (salt ++ be32 block)
  length-chain (suc n) block = omega (
    arith,
    length-chain n block,
    length-xor_bytes (chain block n) (hmac_sha256 password (link block n)),
    length-hmac_sha256 password (link block n),
  )

  -- For the 32 bytes that SCRAM-SHA-256 asks for, `pgPBKDF2` gives the first block of RFC 2898,
  -- the function Hi of RFC 5802: the XOR of as many links of the HMAC chain as iterations.
  pub pbkdf2-chain : (iter : ℕ) → 0 < iter → pbkdf2 password salt iter 32 ≡ chain 1 (iter - 1)
  unfolding pbkdf2 derived_blocks
  pbkdf2-chain iter h =
      ap (λ t. take 32 (t ++ [])) (derived_block-chain iter 1 h)
      ∙ take-append_length 32 (chain 1 (iter - 1)) [] (sym (length-chain (iter - 1) 1))
