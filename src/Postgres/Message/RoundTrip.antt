-- ===== src/Postgres/Message/RoundTrip.antt =====
-- What is written is read back.
use credential_gateway.Common.{
  ℕ, suc, ◌+◌, ◌-◌, ◌^◌, ◌≤◌, ◌<◌, ◌≡◌, refl, ◌∙◌, Bytes, false, ◌∷◌, ◌++◌, length, ltb, arith,
}
use credential_gateway.Common.Words.{be32, of_be, of_be-be32}
use credential_gateway.Net.Exit.{done, slice_from}
use credential_gateway.Net.Exit.Action.{bind_done}
use credential_gateway.Net.Conn.{Conn, read_full, wrote}
use credential_gateway.Net.Conn.Laws.{read_full-append, write-write}
use credential_gateway.Postgres.Message.{read_startup, write_startup, read_message, write_message}

-- A startup packet, and a message of that type, on the wire.
abbrev pub startup_frame : Bytes → Bytes
startup_frame body = be32 (length body + 4) ++ body

abbrev pub message_frame : ℕ → Bytes → Bytes
message_frame t body = (t ∷ be32 (length body + 4)) ++ body

long_enough : (n : ℕ) → ltb (n + 4) 4 ≡ false
long_enough n = ground arith

body_length : (n : ℕ) → (n + 4) - 4 ≡ n
body_length n = omega arith

-- A startup packet whose length fits 32 bits, at the front of the stream, is read, and no byte
-- behind it.
pub read_startup-frame :
    (body rest : Bytes) (c : Conn)
    → length body + 4 < 2 ^ 32
    → c.inbound ≡ startup_frame body ++ rest
    → read_startup c ≡ (done body, record c { inbound = rest })
unfolding read_startup
read_startup-frame body rest c h e =
    let word = be32 (length body + 4) in
    let back : of_be word ≡ length body + 4 = of_be-be32 (length body + 4) h in
    bind_done (read_full 4) _ c (read_full-append 4 word (body ++ rest) c refl e)
    ∙ rw (back, long_enough (length body), body_length (length body))
        (read_full-append (length body) body rest _ refl refl)

-- A message whose length fits 32 bits, at the front of the stream, is read, its type and its
-- body, and no byte behind it.
pub read_message-frame :
    (t : ℕ) (body rest : Bytes) (c : Conn)
    → length body + 4 < 2 ^ 32
    → c.inbound ≡ message_frame t body ++ rest
    → read_message c ≡ (done (t ∷ body), record c { inbound = rest })
unfolding read_message
read_message-frame t body rest c h e =
    let word = be32 (length body + 4) in
    let back : of_be word ≡ length body + 4 = of_be-be32 (length body + 4) h in
    bind_done (read_full 5) _ c (read_full-append 5 (t ∷ word) (body ++ rest) c refl e)
    ∙ rw (back, long_enough (length body), body_length (length body))
        (bind_done (read_full (length body)) _ _
          (read_full-append (length body) body rest _ refl refl))

-- What `pgWriteStartup` sends is one frame.
pub write_startup-frame :
    (body : Bytes) (c : Conn)
    → length (startup_frame body) ≤ c.capacity
    → write_startup body c ≡ (done tt, wrote (startup_frame body) c)
unfolding write_startup
write_startup-frame body c h = write-write (be32 (length body + 4)) body c h

pub suc_length : (n : ℕ) → suc n - 1 + 4 ≡ n + 4
suc_length n = omega arith

pub slice_tail : (t : ℕ) (body : Bytes) → slice_from 1 (t ∷ body) ≡ done body
slice_tail t body = ground arith

-- If the peer takes it, `pgWriteMessage` sends a message as its type, the length of its body and 4,
-- and its body.
pub write_message-frame :
    (t : ℕ) (body : Bytes) (c : Conn)
    → length (message_frame t body) ≤ c.capacity
    → write_message (t ∷ body) c ≡ (done tt, wrote (message_frame t body) c)
unfolding write_message
write_message-frame t body c h =
    rw (suc_length (length body), slice_tail t body)
      (write-write (t ∷ be32 (length body + 4)) body c h)
