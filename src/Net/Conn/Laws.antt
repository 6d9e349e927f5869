-- ===== src/Net/Conn/Laws.antt =====
-- Reads and writes of a connection that succeed.
use credential_gateway.Common.{
  [], append-nil, sym, ap₂, ℕ, ◌≤◌, ◌≡◌, Bytes, ◌++◌, length, take, length-append,
  take-append_length, drop-append_length, append_assoc, arith, take_all,
}
use credential_gateway.Net.Exit.{done}
use credential_gateway.Net.Exit.Action.{◌>>◌}
use credential_gateway.Net.Conn.{Conn, read_full, write, wrote}

-- A stream that begins with `n` bytes hands them over.
pub read_full-append :
    (n : ℕ) (xs ys : Bytes) (c : Conn)
    → n ≡ length xs
    → c.inbound ≡ xs ++ ys
    → read_full n c ≡ (done xs, record c { inbound = ys })
unfolding read_full
read_full-append n xs ys c hn e =
    ground (arith, length-append xs ys, take-append_length n xs ys, drop-append_length n xs ys)

pub write_done :
    (bs : Bytes) (c : Conn) → length bs ≤ c.capacity → write bs c ≡ (done tt, wrote bs c)
unfolding write
write_done bs c h = ground arith

-- Two writes in a row send what one write of both would.
pub write-write :
    (xs ys : Bytes) (c : Conn)
    → length (xs ++ ys) ≤ c.capacity
    → (write xs >> write ys) c ≡ (done tt, wrote (xs ++ ys) c)
unfolding write
write-write xs ys c h = ground (arith, append_assoc c.sent xs ys, length-append xs ys)

-- Whether or not it succeeds, a write sends what the peer still accepts of it.
pub write_sent : (bs : Bytes) (c : Conn) → (write bs c).1.sent ≡ c.sent ++ take c.capacity bs
unfolding write
write_sent bs c = ground (arith, take_all c.capacity bs)

pub wrote_nil : (c : Conn) → c ≡ wrote [] c
wrote_nil c =
    ap₂ (λ (s : Bytes) (n : ℕ). record c { sent = s; capacity = n }) (sym (append-nil c.sent))
      (omega arith)

pub wrote-wrote : (xs ys : Bytes) (c : Conn) → wrote ys (wrote xs c) ≡ wrote (xs ++ ys) c
wrote-wrote xs ys c =
    ap₂ (λ (s : Bytes) (n : ℕ). record c { sent = s; capacity = n }) (append_assoc c.sent xs ys)
      (omega (arith, length-append xs ys))
