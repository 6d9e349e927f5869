-- ===== src/Postgres/Message.antt =====
-- internal/gateway/postgres.go: messages on the wire (`pgReadStartup`, `pgWriteStartup`,
-- `pgReadMessage`, `pgWriteMessage`).
pub mod RoundTrip
pub mod Roles
use credential_gateway.Common.{ℕ, ◌+◌, ◌-◌, Bytes, [], ◌∷◌, length, get_or, drop, ltb}
use credential_gateway.Common.Words.{be32, of_be}
use credential_gateway.Net.Exit.{length_too_small, index, slice_from}
use credential_gateway.Net.Exit.Action.{Action, pure, lift, guard_not, ◌>>=◌, ◌>>◌}
use credential_gateway.Net.Conn.{Conn, read_full, write}

-- `pgReadStartup`: a length that counts itself, then the body.
unfoldable pub read_startup : Action Conn Bytes
read_startup = do
  word ← read_full 4
  guard_not (ltb (of_be word) 4) (length_too_small (of_be word))
  read_full (of_be word - 4)

-- `pgWriteStartup`.
unfoldable pub write_startup : Bytes → Action Conn (Unit {0})
write_startup payload = do write (be32 (length payload + 4)); write payload

-- `pgReadMessage`: the type, a length that counts itself but not the type, then the body. The
-- message is the type and the body.
unfoldable pub read_message : Action Conn Bytes
read_message = do
  hdr ← read_full 5
  guard_not (ltb (of_be (drop 1 hdr)) 4) (length_too_small (of_be (drop 1 hdr)))
  body ← read_full (of_be (drop 1 hdr) - 4)
  pure (get_or hdr 0 0 ∷ body)

-- `pgWriteMessage`: the type of an empty message is out of range.
unfoldable pub write_message : Bytes → Action Conn (Unit {0})
write_message msg = do
  t ← lift (index msg 0)
  write (t ∷ be32 (length msg - 1 + 4))
  body ← lift (slice_from 1 msg)
  write body
