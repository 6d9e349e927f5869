-- ===== src/Oracle/Tns.antt =====
-- internal/gateway/oracle.go: TNS packets, a header of 8 bytes that counts itself, and a body.
pub mod Laws
pub mod Roles
use credential_gateway.Common.{
  ℕ, zero, suc, ◌+◌, ◌-◌, ◌*◌, ◌%◌, ◌^◌, Bytes, not, [], ◌∷◌, ◌++◌, length, take, get_or, ltb, ◌==◌,
  if◌then◌else◌,
}
use credential_gateway.Common.Words.{be16, of_be}
use credential_gateway.Net.Exit.{length_too_small, unexpected_type}
use credential_gateway.Net.Exit.Action.{Action, pure, guard_not, ◌>>=◌, ◌>>◌}
use credential_gateway.Net.Conn.{Conn, read_full, write}

-- `if bodyLen > 0 { io.ReadFull(r, body) }`; the body is nil otherwise.
abbrev pub read_body : ℕ → Action Conn Bytes
read_body zero = pure []
read_body (suc n) = read_full (suc n)

-- `tnsRead`: the type and the body.
unfoldable pub read_tns : Action Conn (ℕ × Bytes)
read_tns = do
  hdr ← read_full 8
  guard_not (ltb (of_be (take 2 hdr)) 8) (length_too_small (of_be (take 2 hdr)))
  body ← read_body (of_be (take 2 hdr) - 8)
  pure (get_or hdr 4 0, body)

-- `uint16(length)` wraps around.
abbrev pub tns_header : ℕ → Bytes → Bytes
tns_header t body = be16 ((8 + length body) % 2 ^ 16) ++ (0 ∷ 0 ∷ t ∷ 0 ∷ 0 ∷ 0 ∷ [])

abbrev pub write_body : Bytes → Action Conn (Unit {0})
write_body [] = pure tt
write_body (b ∷ bs) = write (b ∷ bs)

-- `tnsWrite`.
unfoldable pub write_tns : ℕ → Bytes → Action Conn (Unit {0})
write_tns t body = write (tns_header t body) >> write_body body

-- `tnsRead`, and the test `pt != tnsData` behind it.
unfoldable pub read_data : Action Conn Bytes
unfolding read_tns
read_data = do p ← read_tns; guard_not (not (p.0 == 6)) (unexpected_type (p.0)); pure (p.1)
