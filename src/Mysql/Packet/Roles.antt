-- ===== src/Mysql/Packet/Roles.antt =====
-- What reading and writing a packet does to a connection, whatever the peer does.
use credential_gateway.Common.{ℕ, ◌≡◌, refl, sym, ◌∙◌, Bytes, [], ◌++◌, length, get_or, append-nil}
use credential_gateway.Net.Conn.{read_full}
use credential_gateway.Net.Conn.Roles.{Reads, Writes, Writes-write, Writes-append}
use credential_gateway.Net.Conn.Takes.{
  Takes, Takes-read_full, Takes-pure, Then, Takes-bind, Takes-weaker, Takes-Reads,
}
use credential_gateway.Mysql.Packet.{payload_length, packet_header, read_packet, write_packet}
use credential_gateway.Mysql.Packet.Laws.{frame}

-- The bytes of one packet: a header of 4 bytes whose length field is the payload's length.
pub record IsPacket (p : ℕ × Bytes) (bs : Bytes) : Type 0 where
  pub header : Bytes
  pub bytes : bs ≡ header ++ p.1
  pub header_size : length header ≡ 4
  pub length_field : payload_length header ≡ length (p.1)
  pub sequence : get_or header 3 0 ≡ p.0

-- What the three calls of `read_packet` take, in the form of the rules.
abbrev Full : ℕ → Bytes → Bytes → Type 0
Full n xs x = (x ≡ xs) × (length xs ≡ n)

abbrev Last : Bytes → Bytes → ℕ × Bytes → Bytes → Type 0
Last hdr payload p x = (p ≡ (get_or hdr 3 0, payload)) × (x ≡ [])

abbrev Payload : Bytes → ℕ × Bytes → Bytes → Type 0
Payload hdr = Then (Full (payload_length hdr)) (Last hdr)

IsPacket-of : (p : ℕ × Bytes) (bs : Bytes) → Then (Full 4) Payload p bs → IsPacket p bs
IsPacket-of p bs (hdr, x, y, (ex, lx), (payload, y1, y2, (e1, l1), (ep, e2), ey), e) = record {
  header = hdr;
  bytes = e ∙ rw (ex, ey, e1, e2, append-nil, ep);
  header_size = lx;
  length_field = rw ep (sym l1);
  sequence = rw ep;
}

pub read_packet-Takes : Takes IsPacket read_packet
unfolding read_packet
read_packet-Takes = Takes-weaker IsPacket-of _ (
    Takes-bind (Full 4) Payload (read_full 4) _ (Takes-read_full 4) (λ hdr.
      Takes-bind (Full (payload_length hdr)) (Last hdr) (read_full (payload_length hdr)) _
        (Takes-read_full (payload_length hdr)) (λ payload. Takes-pure _ (refl, refl))))

pub read_packet-Reads : Reads read_packet
read_packet-Reads = Takes-Reads _ read_packet read_packet-Takes

pub write_packet-Writes :
    (seq : ℕ) (payload : Bytes) → Writes (frame seq payload) (write_packet seq payload)
unfolding write_packet
write_packet-Writes seq payload =
    Writes-append (packet_header seq payload) payload _ _ (Writes-write _) (Writes-write _)
