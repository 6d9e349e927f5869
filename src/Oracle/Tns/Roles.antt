-- ===== src/Oracle/Tns/Roles.antt =====
-- What reading and writing a TNS packet does to a connection, whatever the peer does.
use credential_gateway.Common.{
  ℕ, zero, suc, ◌+◌, ◌-◌, ◌≡◌, refl, ◌∙◌, Bytes, false, not, [], ◌∷◌, ◌++◌, length, take, get_or,
  append-nil, ltb, ◌==◌, arith,
}
use credential_gateway.Common.Words.{of_be}
use credential_gateway.Net.Conn.{read_full}
use credential_gateway.Net.Conn.Roles.{Reads, Writes, Writes-write, Writes-append, Writes-pure}
use credential_gateway.Net.Conn.Takes.{
  Takes, Takes-read_full, Takes-guard_not, Takes-pure, Then, Takes-bind, Takes-weaker, Takes-Reads,
}
use credential_gateway.Oracle.Tns.{
  read_body, tns_header, write_body, read_tns, write_tns, read_data,
}
use credential_gateway.Oracle.Tns.Laws.{frame}

-- The bytes of one packet: a header of 8 bytes whose length field counts the header too.
pub record IsTns (p : ℕ × Bytes) (bs : Bytes) : Type 0 where
  pub header : Bytes
  pub bytes : bs ≡ header ++ p.1
  pub header_size : length header ≡ 8
  pub length_field : of_be (take 2 header) ≡ 8 + length (p.1)
  pub kind : get_or header 4 0 ≡ p.0

abbrev Full : ℕ → Bytes → Bytes → Type 0
Full n xs x = (x ≡ xs) × (length xs ≡ n)

Takes-read_body : (n : ℕ) → Takes (Full n) (read_body n)
Takes-read_body zero = Takes-pure [] (refl, refl)
Takes-read_body (suc n) = Takes-read_full (suc n)

-- What the calls of `read_tns` take, in the form of the rules.
abbrev Tested : Bytes → Unit {0} → Bytes → Type 0
Tested hdr u x = (ltb (of_be (take 2 hdr)) 8 ≡ false) × (x ≡ [])

abbrev Last : Bytes → Bytes → ℕ × Bytes → Bytes → Type 0
Last hdr body p x = (p ≡ (get_or hdr 4 0, body)) × (x ≡ [])

abbrev Rest : Bytes → Unit {0} → ℕ × Bytes → Bytes → Type 0
Rest hdr u = Then (Full (of_be (take 2 hdr) - 8)) (Last hdr)

abbrev Body : Bytes → ℕ × Bytes → Bytes → Type 0
Body hdr = Then (Tested hdr) (Rest hdr)

not_small : (n l : ℕ) → ltb n 8 ≡ false → l ≡ n - 8 → n ≡ 8 + l
not_small n l h e = ground arith

IsTns-of : (p : ℕ × Bytes) (bs : Bytes) → Then (Full 8) Body p bs → IsTns p bs
IsTns-of p bs
      (
        hdr,
        x,
        y,
        (ex, lx),
        (u, y0, y', (big, e0), (body, y1, y2, (e1, l1), (ep, e2), ey), ey'),
        e,
      ) =
    record {
      header = hdr;
      bytes = e ∙ rw (ex, ey', e0, ey, e1, e2, append-nil, ep);
      header_size = lx;
      length_field = rw ep (not_small (of_be (take 2 hdr)) (length body) big l1);
      kind = rw ep;
    }

pub read_tns-Takes : Takes IsTns read_tns
unfolding read_tns
read_tns-Takes = Takes-weaker IsTns-of _ (
    Takes-bind (Full 8) Body (read_full 8) _ (Takes-read_full 8) (λ hdr.
      Takes-bind (Tested hdr) (Rest hdr) _ _ (Takes-guard_not (ltb (of_be (take 2 hdr)) 8) _) (λ u.
        Takes-bind (Full (of_be (take 2 hdr) - 8)) (Last hdr) _ _
          (Takes-read_body (of_be (take 2 hdr) - 8)) (λ body. Takes-pure _ (refl, refl)))))

pub read_tns-Reads : Reads read_tns
read_tns-Reads = Takes-Reads _ read_tns read_tns-Takes

-- A packet of type DATA.
abbrev pub IsData : Bytes → Bytes → Type 0
IsData body = IsTns (6, body)

abbrev Chosen : ℕ × Bytes → Unit {0} → Bytes → Type 0
Chosen p u x = (not (p.0 == 6) ≡ false) × (x ≡ [])

abbrev Same : ℕ × Bytes → Unit {0} → Bytes → Bytes → Type 0
Same p u body x = (body ≡ p.1) × (x ≡ [])

abbrev Data : ℕ × Bytes → Bytes → Bytes → Type 0
Data p = Then (Chosen p) (Same p)

six : (t : ℕ) → not (t == 6) ≡ false → t ≡ 6
six t h = ground arith

IsData-of : (body bs : Bytes) → Then IsTns Data body bs → IsData body bs
IsData-of body bs (p, x, y, k, (u, y1, y2, (t, e1), (eb, e2), ey), e) = record {
  header = k.header;
  bytes = e ∙ rw (ey, e1, e2, append-nil, eb) (k.bytes);
  header_size = k.header_size;
  length_field = rw eb (k.length_field);
  kind = k.kind ∙ six (p.0) t;
}

pub read_data-Takes : Takes IsData read_data
unfolding read_data
read_data-Takes = Takes-weaker IsData-of _ (
    Takes-bind IsTns Data read_tns _ read_tns-Takes (λ p.
      Takes-bind (Chosen p) (Same p) _ _ (Takes-guard_not (not (p.0 == 6)) _)
        (λ u. Takes-pure _ (refl, refl))))

pub read_data-Reads : Reads read_data
read_data-Reads = Takes-Reads _ read_data read_data-Takes

Writes-write_body : (body : Bytes) → Writes body (write_body body)
Writes-write_body [] = Writes-pure
Writes-write_body (b ∷ bs) = Writes-write (b ∷ bs)

pub write_tns-Writes : (t : ℕ) (body : Bytes) → Writes (frame t body) (write_tns t body)
unfolding write_tns
write_tns-Writes t body =
    Writes-append (tns_header t body) body _ _ (Writes-write _) (Writes-write_body body)
