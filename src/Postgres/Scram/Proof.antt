-- ===== src/Postgres/Scram/Proof.antt =====
-- Why a server accepts the proof.
use credential_gateway.Common.{◌≡◌, sym, ap, ◌∙◌, Bytes}
use credential_gateway.Std.Digest.{xor_bytes}
use credential_gateway.Std.Digest.Laws.{length-hmac_sha256, hmac_sha256-IsByte, xor_bytes_twice}
use credential_gateway.Std.Digest.Sha256.{sha256, hmac_sha256}
use credential_gateway.Postgres.Scram.{Challenge, auth_message, client_key, client_proof}

-- A server that keeps the digest of the client key, as RFC 5802 has it, undoes the XOR with its
-- own signature of the exchange, and finds that digest: it accepts the proof of the password.
pub client_proof_accepted :
    (password client_nonce server_first : Bytes) (c : Challenge)
    → let stored = sha256 (client_key password c) in
      let signature = hmac_sha256 stored (auth_message client_nonce server_first c) in
      sha256 (xor_bytes (client_proof password client_nonce server_first c) signature) ≡ stored
unfolding client_proof client_key
client_proof_accepted password client_nonce server_first c = ap sha256 (
    xor_bytes_twice _ _ (hmac_sha256-IsByte _ _) (hmac_sha256-IsByte _ _)
      (length-hmac_sha256 _ _ ∙ sym (length-hmac_sha256 _ _)))
