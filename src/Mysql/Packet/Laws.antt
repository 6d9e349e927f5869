-- ===== src/Mysql/Packet/Laws.antt =====
-- Packets on the wire: what is written is read back.
use credential_gateway.Common.{
  ℕ, ◌/◌, ◌%◌, ◌^◌, ◌≤◌, ◌<◌, ◌≡◌, refl, ◌∙◌, Bytes, ◌++◌, length, arith, append_assoc,
}
use credential_gateway.Common.Bits.{bit_or_three}
use credential_gateway.Net.Exit.{done}
use credential_gateway.Net.Exit.Action.{bind_done}
use credential_gateway.Net.Conn.{Conn, read_full, wrote}
use credential_gateway.Net.Conn.Laws.{read_full-append, write-write}
use credential_gateway.Mysql.Packet.{payload_length, packet_header, read_packet, write_packet}

-- A packet as it stands on the wire.
abbrev pub frame : ℕ → Bytes → Bytes
frame seq payload = packet_header seq payload ++ payload

payload_length-packet_header :
    (seq : ℕ) (payload : Bytes)
    → length payload < 2 ^ 24
    → payload_length (packet_header seq payload) ≡ length payload
unfolding payload_length packet_header
payload_length-packet_header seq payload h =
    let n = length payload in
    bit_or_three (n % 256) (n / 256 % 256) (n / 65536 % 256) (omega arith) (omega arith)
    ∙ omega arith

-- A packet of less than 2^24 bytes that stands at the front of the stream is read, and no byte
-- behind it.
pub read_packet-frame :
    (seq : ℕ) (payload rest : Bytes) (c : Conn)
    → length payload < 2 ^ 24
    → c.inbound ≡ frame seq payload ++ rest
    → read_packet c ≡ (done (seq, payload), record c { inbound = rest })
unfolding read_packet
read_packet-frame seq payload rest c h e =
    let hdr = packet_header seq payload in
    bind_done (read_full 4) _ c (
      read_full-append 4 hdr (payload ++ rest) c (unfold packet_header in refl)
        (e ∙ append_assoc hdr payload rest))
    ∙ bind_done (read_full (payload_length hdr)) _ (record c { inbound = payload ++ rest })
        (read_full-append (payload_length hdr) payload rest _
          (payload_length-packet_header seq payload h) refl)
    ∙ unfold packet_header in refl

-- What `mysqlWritePacket` sends is one frame.
pub write_packet-frame :
    (seq : ℕ) (payload : Bytes) (c : Conn)
    → length (frame seq payload) ≤ c.capacity
    → write_packet seq payload c ≡ (done tt, wrote (frame seq payload) c)
unfolding write_packet
write_packet-frame seq payload c h = write-write (packet_header seq payload) payload c h
