-- ===== src/Mysql/Handle/Paths.antt =====
-- Runs of `handle` with peers that send whole packets: the three ways a login can end.
use credential_gateway.Common.{
  ℕ, ◌+◌, ◌%◌, ◌^◌, ◌≤◌, ◌<◌, ◌≡◌, refl, ◌∙◌, Bytes, true, false, ◌++◌, length, take, ltb, arith,
  inl, inr, Bool-cases, if◌then◌else◌,
}
use credential_gateway.Common.Words.{of_le}
use credential_gateway.Net.Exit.{done, failed, unsupported_plugin, upstream_rejected}
use credential_gateway.Net.Conn.{Conn, wrote}
use credential_gateway.Net.World.{World, dial}
use credential_gateway.Net.Pipe.{pipe}
use credential_gateway.Mysql.Packet.Laws.{frame, read_packet-frame, write_packet-frame}
use credential_gateway.Mysql.Handshake.{parse_nonce, clear_ssl}
use credential_gateway.Mysql.Response.{build_response}
use credential_gateway.Mysql.Switch.{parse_auth_switch_plugin, build_err_packet}
use credential_gateway.Mysql.Handle.{
  Service, starts_with, switch_message, refuse_switch, relay_result, chosen_database, handle,
}

-- What the two peers send, packet by packet.
pub record Script : Type 0 where
  pub seq : ℕ
  pub handshake : Bytes
  pub nonce : Bytes
  pub client_seq : ℕ
  pub response : Bytes
  pub result_seq : ℕ
  pub result : Bytes
  pub client_rest : Bytes
  pub upstream_rest : Bytes

abbrev pub our_login : Service → Script → Bytes
our_login cfg s = frame 1 (
    build_response cfg.user cfg.password s.nonce
      (chosen_database cfg s.response (of_le (take 4 s.response))))

-- The two connections after the proxy has sent its login and read the answer.
abbrev pub greeted_client : Script → Conn → Conn
greeted_client s c = record (wrote (frame s.seq (clear_ssl s.handshake)) c) {
  inbound = s.client_rest;
}

abbrev pub answered_upstream : Service → Script → Conn → Conn
answered_upstream cfg s c = record (wrote (our_login cfg s) c) { inbound = s.upstream_rest }

abbrev pub answered : Service → Script → World → World
answered cfg s w = record w {
  client = greeted_client s w.client;
  upstream = answered_upstream cfg s w.upstream;
  dialled = true;
}

-- The world follows the script, and both peers take what the proxy sends up to the answer.
pub record Follows (cfg : Service) (s : Script) (w : World) : Type 0 where
  pub reachable : w.reachable ≡ true
  pub upstream_stream :
      w.upstream.inbound
      ≡ frame s.seq s.handshake ++ (frame s.result_seq s.result ++ s.upstream_rest)
  pub client_stream : w.client.inbound ≡ frame s.client_seq s.response ++ s.client_rest
  pub handshake_fits : length s.handshake < 2 ^ 24
  pub response_fits : length s.response < 2 ^ 24
  pub result_fits : length s.result < 2 ^ 24
  pub nonce_read : parse_nonce s.handshake ≡ done s.nonce
  pub response_size : 4 ≤ length s.response
  pub client_room : length (frame s.seq (clear_ssl s.handshake)) ≤ w.client.capacity
  pub upstream_room : length (our_login cfg s) ≤ w.upstream.capacity

dial_done : (w : World) → w.reachable ≡ true → dial w ≡ (done tt, record w { dialled = true })
unfolding dial
dial_done w e = rw e

not_short : (bs : Bytes) → 4 ≤ length bs → ltb (length bs) 4 ≡ false
not_short bs h = ground arith

module _ (quote : Bytes → Bytes) (cfg : Service) (s : Script) (w : World)
    (h : Follows cfg s w) where
  -- Every step up to the answer succeeds.
  handle-relay_result :
      handle quote cfg w
      ≡ relay_result quote s.client_seq
          (of_le (take 4 s.response))
          s.result_seq
          s.result
          (answered cfg s w)
  unfolding handle
  handle-relay_result =
      let greeting = clear_ssl s.handshake in
      let up = record (w.upstream) { inbound = frame s.result_seq s.result ++ s.upstream_rest } in
      rw (dial_done w h.reachable) (
        rw (read_packet-frame s.seq s.handshake _ w.upstream h.handshake_fits h.upstream_stream) (
          rw (h.nonce_read) (
            rw (write_packet-frame s.seq greeting w.client h.client_room) (
              rw
                (read_packet-frame s.client_seq s.response s.client_rest
                  (wrote (frame s.seq greeting) w.client) h.response_fits h.client_stream)
                (rw (not_short (s.response) h.response_size) (
                  rw (write_packet-frame 1 _ up h.upstream_room) (
                    rw (
                      read_packet-frame s.result_seq s.result s.upstream_rest
                        (wrote (our_login cfg s) up) h.result_fits refl))))))))

-- What the client is sent last: an error that names the plugin, or the upstream's own answer.
abbrev pub reply : (Bytes → Bytes) → Script → Bytes
reply quote s =
    if starts_with 0xfe s.result
    then frame ((s.client_seq + 1) % 256) (
        build_err_packet (of_le (take 4 s.response))
          (switch_message quote (parse_auth_switch_plugin s.result)))
    else frame s.result_seq s.result

abbrev pub replied : (Bytes → Bytes) → Service → Script → World → World
replied quote cfg s w = record w {
  client = wrote (reply quote s) (greeted_client s w.client);
  upstream = answered_upstream cfg s w.upstream;
  dialled = true;
}

module _ (quote : Bytes → Bytes) (cfg : Service) (s : Script) (w : World) where
  relay_result_outcome :
      length (reply quote s) ≤ (greeted_client s w.client).capacity
      → relay_result quote s.client_seq
          (of_le (take 4 s.response))
          s.result_seq
          s.result
          (answered cfg s w)
        ≡ (if starts_with 0xfe s.result
            then (
              failed (unsupported_plugin (parse_auth_switch_plugin s.result)),
              replied quote cfg s w,
            )
            else if starts_with 0xff s.result
            then (failed upstream_rejected, replied quote cfg s w)
            else pipe (replied quote cfg s w))
  unfolding relay_result refuse_switch
  relay_result_outcome room = elim (Bool-cases (starts_with 0xfe s.result)) [
    | inl e ↦ rw e (rw (write_packet-frame _ _ (greeted_client s w.client) (rw e at room)))
    | inr e ↦ rw e (
        rw (write_packet-frame _ _ (greeted_client s w.client) (rw e at room))
          (elim (Bool-cases (starts_with 0xff s.result)) [ inl f ↦ rw f | inr f ↦ rw f ]))
  ]

  -- A login with peers that send whole packets: the upstream is sent exactly our login packet;
  -- the client is sent the greeting with CLIENT_SSL cleared, and then, at its own next sequence
  -- number, an error that names the plugin if the upstream asked for another plugin, else the
  -- upstream's answer; and the pipe begins if that answer is neither such a request nor an error.
  pub handle_outcome :
      Follows cfg s w
      → length (reply quote s) ≤ (greeted_client s w.client).capacity
      → handle quote cfg w ≡ (
          if starts_with 0xfe s.result
          then (
            failed (unsupported_plugin (parse_auth_switch_plugin s.result)),
            replied quote cfg s w,
          )
          else if starts_with 0xff s.result
          then (failed upstream_rejected, replied quote cfg s w)
          else pipe (replied quote cfg s w))
  handle_outcome h room = handle-relay_result quote cfg s w h ∙ relay_result_outcome room
