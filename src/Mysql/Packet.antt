-- ===== src/Mysql/Packet.antt =====
-- internal/gateway/mysql.go: packets, a length of 3 bytes, a sequence number and a payload.
pub mod Laws
pub mod Roles
use credential_gateway.Common.{ℕ, ◌*◌, ◌/◌, ◌%◌, bit_or, Bytes, List, [], ◌∷◌, length, get_or}
use credential_gateway.Net.Exit.Action.{Action, pure, ◌>>=◌, ◌>>◌}
use credential_gateway.Net.Conn.{Conn, read_full, write}

-- `int(hdr[0]) | int(hdr[1])<<8 | int(hdr[2])<<16`.
unfoldable pub payload_length : Bytes → ℕ
payload_length hdr =
    bit_or (bit_or (get_or hdr 0 0) (get_or hdr 1 0 * 256)) (get_or hdr 2 0 * 65536)

-- `mysqlReadPacket`: the sequence number and the payload.
unfoldable pub read_packet : Action Conn (ℕ × Bytes)
unfolding payload_length
read_packet = do
  hdr ← read_full 4
  payload ← read_full (payload_length hdr)
  pure (get_or hdr 3 0, payload)

unfoldable pub packet_header : ℕ → Bytes → Bytes
packet_header seq payload =
    let n = length payload in (n % 256) ∷ (n / 256 % 256) ∷ (n / 65536 % 256) ∷ seq ∷ []

-- `mysqlWritePacket`.
unfoldable pub write_packet : ℕ → Bytes → Action Conn (Unit {0})
unfolding packet_header
write_packet seq payload = do write (packet_header seq payload); write payload
