-- ===== src/Net/Conn.antt =====
-- One connection as the gateway sees it (net.Conn, io.ReadFull, Write and Read).
pub mod Laws
pub mod Roles
pub mod Takes
use credential_gateway.Common.{
  ℕ, ◌-◌, Bytes, [], ◌++◌, length, take, drop, leb, min, max, if◌then◌else◌,
}
use credential_gateway.Net.Exit.{Exit, done, failed, eof, unexpected_eof, write_failed}
use credential_gateway.Net.Exit.Action.{Action}
use credential_gateway.Common.Texts.{is_empty}

-- `inbound` is what the peer still delivers before it ends its stream, `capacity` how many bytes
-- it accepts before writes fail, `chunk` how much one plain Read hands over, and `sent` all that
-- the gateway has written to it.
pub record Conn : Type 0 where
  pub inbound : Bytes
  pub capacity : ℕ
  pub chunk : ℕ
  pub sent : Bytes

-- `io.ReadFull(r, make([]byte, n))`: a stream that ends first is used up.
unfoldable pub read_full : ℕ → Action Conn Bytes
read_full n c =
    if leb n (length c.inbound)
    then (done (take n c.inbound), record c { inbound = drop n c.inbound })
    else (failed (if is_empty c.inbound then eof else unexpected_eof), record c { inbound = [] })

-- `r.Read(buf)` with `len(buf) = n`: at least one byte, unless the stream has ended.
unfoldable pub read_some : ℕ → Action Conn Bytes
read_some n c =
    if is_empty c.inbound
    then (failed eof, c)
    else let k = min n (max 1 c.chunk) in
      (done (take k c.inbound), record c { inbound = drop k c.inbound })

-- `w.Write(bs)`: a write that fails may have sent a part.
unfoldable pub write : Bytes → Action Conn (Unit {0})
write bs c =
    if leb (length bs) c.capacity
    then (done tt, record c { sent = c.sent ++ bs; capacity = c.capacity - length bs })
    else (failed write_failed, record c { sent = c.sent ++ take c.capacity bs; capacity = 0 })

-- The connection after a write that succeeded.
abbrev pub wrote : Bytes → Conn → Conn
wrote bs c = record c { sent = c.sent ++ bs; capacity = c.capacity - length bs }

-- The connection with another stream to come.
abbrev pub with_inbound : Bytes → Conn → Conn
with_inbound s c = record c { inbound = s }
