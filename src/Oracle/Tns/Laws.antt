-- ===== src/Oracle/Tns/Laws.antt =====
-- TNS packets on the wire: what is written is read back.
use credential_gateway.Common.{
  ℕ, ◌+◌, ◌-◌, ◌%◌, ◌^◌, ◌≤◌, ◌<◌, ◌≡◌, refl, ◌∙◌, Bytes, false, [], ◌∷◌, ◌++◌, length, ltb, arith,
}
use credential_gateway.Common.Words.{be16, of_be}
use credential_gateway.Net.Exit.{done}
use credential_gateway.Net.Exit.Action.{bind_done}
use credential_gateway.Net.Conn.{Conn, read_full, wrote}
use credential_gateway.Net.Conn.Laws.{read_full-append, write_done, write-write}
use credential_gateway.Oracle.Tns.{read_body, tns_header, read_tns, write_tns, read_data}

-- A packet as it stands on the wire.
abbrev pub frame : ℕ → Bytes → Bytes
frame t body = tns_header t body ++ body

header_length :
    (body : Bytes)
    → 8 + length body < 2 ^ 16
    → of_be (be16 ((8 + length body) % 2 ^ 16)) ≡ 8 + length body
header_length body h = omega arith

not_small : (n : ℕ) → ltb (8 + n) 8 ≡ false
not_small n = ground arith

body_length : (n : ℕ) → 8 + n - 8 ≡ n
body_length n = omega arith

read_body-append :
    (body rest : Bytes) (c : Conn)
    → c.inbound ≡ body ++ rest
    → read_body (length body) c ≡ (done body, record c { inbound = rest })
read_body-append [] rest c e = rw (← e)
read_body-append (b ∷ bs) rest c e = read_full-append (length (b ∷ bs)) (b ∷ bs) rest c refl e

-- A packet whose length fits its field, at the front of the stream, is read, its type and its
-- body, and no byte behind it.
pub read_tns-frame :
    (t : ℕ) (body rest : Bytes) (c : Conn)
    → 8 + length body < 2 ^ 16
    → c.inbound ≡ frame t body ++ rest
    → read_tns c ≡ (done (t, body), record c { inbound = rest })
unfolding read_tns
read_tns-frame t body rest c h e =
    bind_done (read_full 8) _ c (read_full-append 8 (tns_header t body) (body ++ rest) c refl e)
    ∙ rw (header_length body h, not_small (length body), body_length (length body))
        (rw (read_body-append body rest (record c { inbound = body ++ rest }) refl))

-- So is a packet of type DATA by a reader that asks for one.
pub read_data-frame :
    (body rest : Bytes) (c : Conn)
    → 8 + length body < 2 ^ 16
    → c.inbound ≡ frame 6 body ++ rest
    → read_data c ≡ (done body, record c { inbound = rest })
unfolding read_data
read_data-frame body rest c h e = rw (read_tns-frame 6 body rest c h e)

-- What `tnsWrite` sends is one packet.
pub write_tns-frame :
    (t : ℕ) (body : Bytes) (c : Conn)
    → length (frame t body) ≤ c.capacity
    → write_tns t body c ≡ (done tt, wrote (frame t body) c)
unfolding write_tns
write_tns-frame t [] c h = rw (write_done (tns_header t []) c h)
write_tns-frame t (b ∷ bs) c h = write-write (tns_header t (b ∷ bs)) (b ∷ bs) c h
