-- ===== src/Postgres/Message/Roles.antt =====
-- What reading and writing a message does to a connection, whatever the peer does.
use credential_gateway.Common.{
  ℕ, ◌+◌, ◌-◌, ◌≡◌, refl, sym, ◌∙◌, Bytes, false, [], ◌∷◌, ◌++◌, length, append-nil, ltb, arith,
}
use credential_gateway.Common.Words.{of_be, be32}
use credential_gateway.Net.Conn.{read_full}
use credential_gateway.Net.Conn.Roles.{
  Reads, Reads-pure, Reads-lift, Reads-bind, Reads-read_full, Writes, Writes-write, Writes-append,
}
use credential_gateway.Net.Conn.Takes.{
  Takes, Takes-read_full, Takes-guard_not, Then, Takes-bind, Takes-weaker,
}
use credential_gateway.Postgres.Message.{read_startup, write_startup, read_message, write_message}
use credential_gateway.Postgres.Message.RoundTrip.{
  startup_frame, message_frame, suc_length, slice_tail,
}

-- The bytes of one startup packet: a length that counts itself, and the body.
pub record IsStartup (body bs : Bytes) : Type 0 where
  pub word : Bytes
  pub bytes : bs ≡ word ++ body
  pub word_size : length word ≡ 4
  pub length_field : of_be word ≡ length body + 4

-- What `pgWriteMessage` sends: nothing of an empty message, whose type it cannot read.
abbrev pub framed : Bytes → Bytes
framed [] = []
framed (t ∷ body) = message_frame t body

pub read_message-Reads : Reads read_message
unfolding read_message
read_message-Reads = Reads-bind _ _ (Reads-read_full 5) λ hdr.
    Reads-bind _ _ (Reads-lift _) λ _. Reads-bind _ _ (Reads-read_full _) λ body. Reads-pure _

pub write_startup-Writes : (body : Bytes) → Writes (startup_frame body) (write_startup body)
unfolding write_startup
write_startup-Writes body =
    Writes-append (be32 (length body + 4)) body _ _ (Writes-write _) (Writes-write _)

pub write_message-Writes : (msg : Bytes) → Writes (framed msg) (write_message msg)
unfolding write_message
write_message-Writes [] = record {
  at = λ c. record {
    part = [];
    rest = [];
    split = refl;
    sent = record { appended = sym (append-nil c.sent); unread = refl };
  };
}
write_message-Writes (t ∷ body) =
    rw (suc_length (length body), slice_tail t body)
      (Writes-append (t ∷ be32 (length body + 4)) body _ _ (Writes-write _) (Writes-write _))

-- What the three calls of `read_startup` take, in the form of the rules.
abbrev Full : ℕ → Bytes → Bytes → Type 0
Full n xs x = (x ≡ xs) × (length xs ≡ n)

abbrev Tested : Bytes → Unit {0} → Bytes → Type 0
Tested word u x = (ltb (of_be word) 4 ≡ false) × (x ≡ [])

abbrev Rest : Bytes → Unit {0} → Bytes → Bytes → Type 0
Rest word u = Full (of_be word - 4)

abbrev Body : Bytes → Bytes → Bytes → Type 0
Body word = Then (Tested word) (Rest word)

IsStartup-of : (body bs : Bytes) → Then (Full 4) Body body bs → IsStartup body bs
IsStartup-of body bs (word, x, y, (ex, lx), (u, y1, y2, (big, e1), (e2, l2), ey), e) = record {
  word = word;
  bytes = e ∙ rw (ex, ey, e1, e2) refl;
  word_size = lx;
  length_field = ground arith;
}

pub read_startup-Takes : Takes IsStartup read_startup
unfolding read_startup
read_startup-Takes = Takes-weaker IsStartup-of _ (
    Takes-bind (Full 4) Body (read_full 4) _ (Takes-read_full 4) (λ word.
      Takes-bind (Tested word) (Rest word) _ _ (Takes-guard_not (ltb (of_be word) 4) _)
        (λ u. Takes-read_full (of_be word - 4))))
