-- ===== src/Postgres/Scram/Exchange/Outcome.antt =====
-- An exchange with a server that sends a challenge and a signature.
use credential_gateway.Common.{
  ℕ, suc, ◌+◌, ◌≤◌, ◌<◌, ◌^◌, ◌≡◌, ◌≢◌, refl, sym, ap, ◌∙◌, Bytes, IsByte, Bool, true, false, not,
  [], ◌∷◌, ◌++◌, length, arith, All, length-append, append-nil, some, if◌then◌else◌,
}
use credential_gateway.Common.Texts.{codes, equal, has_prefix-append}
use credential_gateway.Common.Words.{be32, of_be-be32}
use credential_gateway.Std.Base64.{encode}
use credential_gateway.Std.Base64.RoundTrip.{decode-encode, encode-HasNoComma}
use credential_gateway.Std.Decimal.{pos, decimal, scan_int}
use credential_gateway.Std.Decimal.RoundTrip.{scan_int-decimal, decimal_no_comma}
use credential_gateway.Net.Exit.{
  done, failed, Fault, signature_mismatch, unexpected_sasl_continue, unexpected_sasl_final,
}
use credential_gateway.Net.Exit.Action.{guard_not}
use credential_gateway.Net.Conn.{Conn, wrote}
use credential_gateway.Postgres.Message.{write_message}
use credential_gateway.Postgres.Message.RoundTrip.{
  message_frame, read_message-frame, write_message-frame,
}
use credential_gateway.Postgres.Startup.{param, build_sasl_initial_response, build_sasl_response}
use credential_gateway.Postgres.Scram.{
  parse_attributes, attribute, Challenge, read_challenge, client_first, client_final,
  server_signature,
}
use credential_gateway.Postgres.Scram.Attributes.{text, parse_attributes-text}
use credential_gateway.Postgres.Scram.Exchange.{sasl_body, do_scram}

-- What the server chooses: the end of the nonce, the salt and the number of iterations.
pub record Choice : Type 0 where
  pub extension : Bytes
  pub salt : Bytes
  pub iterations : ℕ

-- The nonce has no comma, and the salt and the count are what Go's types hold.
pub record IsChoice (nonce : Bytes) (s : Choice) : Type 0 where
  pub nonce_text : All (λ b. b ≢ b',') (nonce ++ s.extension)
  pub salt_bytes : All IsByte s.salt
  pub count_fits : suc s.iterations < 2 ^ 63

-- `r=…,s=…,i=…`; there is one iteration at least.
abbrev pub server_first : Bytes → Choice → Bytes
server_first nonce s =
    text (b'r', nonce ++ s.extension)
      ((b's', encode s.salt) ∷ (b'i', decimal (suc s.iterations)) ∷ [])

abbrev pub challenge : Bytes → Choice → Challenge
challenge nonce s = record {
  nonce = nonce ++ s.extension;
  salt = s.salt;
  iterations = suc s.iterations;
}

server_first_parsed :
    (nonce : Bytes) (s : Choice)
    → IsChoice nonce s
    → parse_attributes (server_first nonce s)
      ≡ (b'i' ∷ [], decimal (suc s.iterations))
        ∷ (b's' ∷ [], encode s.salt)
        ∷ (b'r' ∷ [], nonce ++ s.extension)
        ∷ []
server_first_parsed nonce s h =
    parse_attributes-text (b'r', nonce ++ s.extension)
      ((b's', encode s.salt) ∷ (b'i', decimal (suc s.iterations)) ∷ [])
      (
        ((λ e. cc), (λ e. cc), h.nonce_text),
        (
          ((λ e. cc), (λ e. cc), encode-HasNoComma s.salt),
          (((λ e. cc), (λ e. cc), decimal_no_comma (suc s.iterations)), tt),
        ),
      )

scanned : (n : ℕ) → n < 2 ^ 63 → scan_int (decimal n) ≡ some (pos n)
scanned n h = ap scan_int (sym (append-nil (decimal n))) ∙ scan_int-decimal n [] h refl

-- A server's challenge is read as it was meant.
pub read_challenge-server_first :
    (nonce : Bytes) (s : Choice)
    → IsChoice nonce s
    → read_challenge nonce (server_first nonce s) ≡ done (challenge nonce s)
unfolding read_challenge param equal
read_challenge-server_first nonce s h =
    rw
      (
        server_first_parsed nonce s h,
        has_prefix-append nonce s.extension,
        decode-encode s.salt h.salt_bytes,
        scanned (suc s.iterations) h.count_fits,
      )
      refl

-- The message that carries an authentication code.
abbrev pub auth_body : ℕ → Bytes → Bytes
auth_body code bs = be32 code ++ bs

sasl_body-auth_body :
    (e : Fault) (code : ℕ) (bs : Bytes)
    → code < 2 ^ 32
    → sasl_body e code (b'R' ∷ auth_body code bs) ≡ done bs
sasl_body-auth_body e code bs h = rw (of_be-be32 code h) (ground arith)

-- The random bytes, what the server chooses, its last message, and what stands behind it.
pub record Exchanged : Type 0 where
  pub random : Bytes
  pub choice : Choice
  pub server_final : Bytes
  pub rest : Bytes

abbrev pub own_nonce : Exchanged → Bytes
own_nonce x = encode x.random

abbrev pub asked : Exchanged → Bytes
asked x = server_first (own_nonce x) x.choice

-- The bodies of the proxy's two messages.
abbrev pub first_body : Exchanged → Bytes
first_body x =
    let text = client_first (own_nonce x) in
    codes "SCRAM-SHA-256" ++ (0 ∷ (be32 (length text) ++ text))

abbrev pub final_body : Bytes → Exchanged → Bytes
final_body password x =
    client_final password (own_nonce x) (asked x) (challenge (own_nonce x) x.choice)

abbrev pub exchange_sent : Bytes → Exchanged → Bytes
exchange_sent password x =
    message_frame b'p' (first_body x) ++ message_frame b'p' (final_body password x)

pub record Plays (password : Bytes) (x : Exchanged) (c : Conn) : Type 0 where
  pub choice : IsChoice (own_nonce x) x.choice
  pub stream :
      c.inbound
      ≡ message_frame b'R' (auth_body 11 (asked x))
        ++ (message_frame b'R' (auth_body 12 x.server_final) ++ x.rest)
  pub first_fits : length (auth_body 11 (asked x)) + 4 < 2 ^ 32
  pub final_fits : length (auth_body 12 x.server_final) + 4 < 2 ^ 32
  pub room : length (exchange_sent password x) ≤ c.capacity

write_first :
    (x : Exchanged) (c : Conn)
    → length (message_frame b'p' (first_body x)) ≤ c.capacity
    → write_message
        (build_sasl_initial_response (codes "SCRAM-SHA-256") (client_first (own_nonce x)))
        c
      ≡ (done tt, wrote (message_frame b'p' (first_body x)) c)
unfolding build_sasl_initial_response
write_first x c h = write_message-frame b'p' (first_body x) c h

write_final :
    (password : Bytes) (x : Exchanged) (c : Conn)
    → length (message_frame b'p' (final_body password x)) ≤ c.capacity
    → write_message (build_sasl_response (final_body password x)) c
      ≡ (done tt, wrote (message_frame b'p' (final_body password x)) c)
unfolding build_sasl_response
write_final password x c h = write_message-frame b'p' (final_body password x) c h

guard_result :
    (b : Bool) (e : Fault) (c : Conn) → guard_not (not b) e c ≡ (if b then done tt else failed e, c)
guard_result true e c = refl
guard_result false e c = refl

module _ (password : Bytes) (x : Exchanged) (c : Conn) where
  -- The connection after both messages.
  abbrev pub exchanged : Conn
  exchanged =
      record (wrote (message_frame b'p' (final_body password x))
        (wrote (message_frame b'p' (first_body x)) c)) { inbound = x.rest }

  -- With a server that sends a challenge and then some last message, `doSCRAM` sends the two
  -- messages of the exchange, the second with the proof for that challenge, and succeeds exactly
  -- if the last message has the signature that the password gives.
  pub do_scram_outcome :
      Plays password x c
      → do_scram (done x.random) password c ≡ (
        if equal
              (attribute b'v' (parse_attributes x.server_final))
              (server_signature password (own_nonce x) (asked x) (challenge (own_nonce x) x.choice))
            then done tt
            else failed signature_mismatch,
        exchanged,
      )
  unfolding do_scram
  do_scram_outcome h =
      let c1 = wrote (message_frame b'p' (first_body x)) c in
      let c2 = record c1 { inbound = message_frame b'R' (auth_body 12 x.server_final) ++ x.rest } in
      let c3 = wrote (message_frame b'p' (final_body password x)) c2 in
      let sizes =
        length-append (message_frame b'p' (first_body x))
          (message_frame b'p' (final_body password x)) in
      rw (write_first x c (omega (arith, h.room, sizes))) (
        rw (read_message-frame b'R' (auth_body 11 (asked x)) _ c1 h.first_fits h.stream) (
          rw (sasl_body-auth_body unexpected_sasl_continue 11 (asked x) (omega arith)) (
            rw (read_challenge-server_first (own_nonce x) x.choice h.choice) (
              rw (write_final password x c2 (omega (arith, h.room, sizes))) (
                rw
                  (read_message-frame b'R' (auth_body 12 x.server_final) x.rest c3 h.final_fits
                    refl)
                  (rw (sasl_body-auth_body unexpected_sasl_final 12 x.server_final (omega arith))
                    (guard_result (equal _ _) signature_mismatch _)))))))
