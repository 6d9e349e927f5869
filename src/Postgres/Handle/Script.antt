-- ===== src/Postgres/Handle/Script.antt =====
-- What the peers of a login send, and the client's startup packet, taken.
use credential_gateway.Common.{
  ℕ, ◌+◌, ◌^◌, ◌≤◌, ◌<◌, ◌≡◌, refl, ap, ◌∙◌, Bytes, Bool, true, false, List, [], ◌∷◌, ◌++◌, length,
  arith, take, drop, if◌then◌else◌, All,
}
use credential_gateway.Common.Words.{be32, of_be}
use credential_gateway.Net.Exit.{Exit, done}
use credential_gateway.Net.Conn.{Conn, wrote, with_inbound}
use credential_gateway.Net.Conn.Laws.{write_done, wrote_nil}
use credential_gateway.Net.World.{World}
use credential_gateway.Config.Types.{PostgresService}
use credential_gateway.Postgres.Message.RoundTrip.{startup_frame, message_frame, read_startup-frame}
use credential_gateway.Postgres.Startup.{Params, build_startup, parse_params}
use credential_gateway.Postgres.Handle.{is_ssl_request, read_client_startup, chosen_database}
use credential_gateway.Postgres.Handle.Forward.{frames, Fits, Earlier}
use credential_gateway.Postgres.Handle.Questions.{
  Question, question_bytes, answer_bytes, IsQuestion,
}

-- What the two peers send: the client its startup packet, behind an SSLRequest perhaps; the server
-- a question, AuthenticationOK, messages, ReadyForQuery; each something more.
pub record Script : Type 0 where
  pub ssl : Bool
  pub startup : Bytes
  pub client_rest : Bytes
  pub question : Question
  pub settings : List (ℕ × Bytes)
  pub ready : Bytes
  pub server_rest : Bytes

abbrev pub ssl_request : Bytes
ssl_request = startup_frame (be32 80877103)

abbrev pub client_stream : Script → Bytes
client_stream s =
    if s.ssl
    then ssl_request ++ (startup_frame s.startup ++ s.client_rest)
    else startup_frame s.startup ++ s.client_rest

-- What the server sends behind its question.
abbrev pub acceptance : Script → Bytes
acceptance s =
    message_frame b'R' (be32 0)
    ++ (frames s.settings ++ (message_frame b'Z' s.ready ++ s.server_rest))

-- The answer to an SSLRequest.
abbrev pub refusal_of : Bool → Bytes
refusal_of ssl = if ssl then b'N' ∷ [] else []

abbrev pub refusal : Script → Bytes
refusal s = refusal_of s.ssl

-- What the client is sent of the server's.
abbrev pub forwarded : Script → Bytes
forwarded s = message_frame b'R' (be32 0) ++ (frames s.settings ++ message_frame b'Z' s.ready)

-- The startup packet has protocol 3.0 and is read, the server may ask its question, everything
-- fits its length field, and the peers take what they are sent.
pub record IsScript (random : ℕ → Exit Bytes) (cfg : PostgresService) (params : Params) (s : Script)
    (w : World) : Type 0 where
  pub startup_long : 4 ≤ length s.startup
  pub startup_fits : length s.startup + 4 < 2 ^ 32
  pub protocol : of_be (take 4 s.startup) ≡ 196608
  pub parsed : parse_params (drop 4 s.startup) ≡ done params
  pub reachable : w.reachable ≡ true
  pub question : IsQuestion random s.question
  pub settings : All Earlier s.settings
  pub ready : Fits (b'Z', s.ready)
  pub client : w.client.inbound ≡ client_stream s
  pub upstream : w.upstream.inbound ≡ question_bytes s.question ++ acceptance s
  pub client_room : length (refusal s ++ forwarded s) ≤ w.client.capacity
  pub upstream_room :
      length (
        startup_frame (build_startup cfg.user (chosen_database cfg params))
        ++ answer_bytes cfg s.question)
      ≤ w.upstream.capacity

other_protocol :
    (startup : Bytes) → of_be (take 4 startup) ≡ 196608 → is_ssl_request startup ≡ false
other_protocol startup e = ground arith

module _ (startup rest : Bytes) (c : World) (fits : length startup + 4 < 2 ^ 32) where
  read_plain :
      of_be (take 4 startup) ≡ 196608
      → c.client.inbound ≡ startup_frame startup ++ rest
      → read_client_startup c ≡ (done startup, record c { client = with_inbound rest c.client })
  unfolding read_client_startup
  read_plain protocol e =
      rw (read_startup-frame startup rest c.client fits e)
        (rw (other_protocol startup protocol) refl)

  read_behind_ssl :
      c.client.inbound ≡ ssl_request ++ (startup_frame startup ++ rest)
      → 1 ≤ c.client.capacity
      → read_client_startup c
        ≡ (done startup, record c { client = with_inbound rest (wrote (b'N' ∷ []) c.client) })
  unfolding read_client_startup
  read_behind_ssl e room =
      rw
        (read_startup-frame (be32 80877103) (startup_frame startup ++ rest) c.client (omega arith)
          e)
        (rw (write_done (b'N' ∷ []) (with_inbound (startup_frame startup ++ rest) c.client) room) (
          rw
            (read_startup-frame startup rest
              (wrote (b'N' ∷ []) (with_inbound (startup_frame startup ++ rest) c.client)) fits refl)
            refl))

  pub startup_taken :
      (ssl : Bool)
      → of_be (take 4 startup) ≡ 196608
      → c.client.inbound ≡ (
          if ssl
          then ssl_request ++ (startup_frame startup ++ rest)
          else startup_frame startup ++ rest)
      → length (refusal_of ssl) ≤ c.client.capacity
      → read_client_startup c
        ≡ (done startup, record c { client = with_inbound rest (wrote (refusal_of ssl) c.client) })
  startup_taken true protocol e room = read_behind_ssl e room
  startup_taken false protocol e room =
      read_plain protocol e
      ∙ ap (λ (u : Conn). (done startup, record c { client = with_inbound rest u }))
          (wrote_nil c.client)
