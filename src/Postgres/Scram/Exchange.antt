-- ===== src/Postgres/Scram/Exchange.antt =====
-- internal/gateway/postgres.go: `(*postgresProxy).doSCRAM`.
pub mod Outcome
use credential_gateway.Common.{
  ℕ, Bytes, Bool, not, ◌&&◌, [], ◌∷◌, ◌++◌, length, take, drop, ltb, ◌==◌, if◌then◌else◌,
}
use credential_gateway.Common.Texts.{codes, equal}
use credential_gateway.Common.Words.{of_be}
use credential_gateway.Std.Base64.{encode}
use credential_gateway.Net.Exit.{
  Exit, done, failed, panicked, Fault, fail_if, unexpected_sasl_continue, unexpected_sasl_final,
  signature_mismatch,
}
use credential_gateway.Net.Exit.Action.{Action, lift, ◌>>=◌, ◌>>◌}
use credential_gateway.Net.Conn.{Conn}
use credential_gateway.Postgres.Message.{read_message, write_message}
use credential_gateway.Postgres.Startup.{build_sasl_initial_response, build_sasl_response}
use credential_gateway.Postgres.Scram.{
  parse_attributes, attribute, Challenge, read_challenge, client_first, client_final,
  server_signature,
}

-- `binary.BigEndian.Uint32(msg[1:5])`.
abbrev pub auth_type : Bytes → Exit ℕ
auth_type msg = if ltb (length msg) 5 then panicked else done (of_be (take 4 (drop 1 msg)))

abbrev pub has_type : ℕ → Bytes → Bool
has_type t [] = Bool.false
has_type t (b ∷ bs) = b == t

-- The body of an authentication message with that code. The error message of the source reads
-- `msg[1:5]` of a message of another type too.
abbrev pub sasl_body : Fault → ℕ → Bytes → Exit Bytes
sasl_body e code [] = panicked
sasl_body e code (b ∷ bs) =
    if ltb (length bs) 4
    then panicked
    else if b == b'R' && of_be (take 4 bs) == code
    then done (drop 4 bs)
    else failed e

-- The server's last message has the signature that the password gives.
abbrev pub signed : Bytes → Bytes → Bytes → Challenge → Bytes → Exit (Unit {0})
signed password nonce server_first c server_final =
    fail_if
      (not (
        equal (attribute b'v' (parse_attributes server_final))
          (server_signature password nonce server_first c)))
      signature_mismatch

-- The nonce is the base64 text of 18 random bytes; `random` is what `rand.Read` gives.
unfoldable pub do_scram : Exit Bytes → Bytes → Action Conn (Unit {0})
do_scram random password = do
  bytes ← lift random
  let nonce = encode bytes
  write_message (build_sasl_initial_response (codes "SCRAM-SHA-256") (client_first nonce))
  msg ← read_message
  server_first ← lift (sasl_body unexpected_sasl_continue 11 msg)
  c ← lift (read_challenge nonce server_first)
  write_message (build_sasl_response (client_final password nonce server_first c))
  msg' ← read_message
  server_final ← lift (sasl_body unexpected_sasl_final 12 msg')
  lift (signed password nonce server_first c server_final)
