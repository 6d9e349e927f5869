-- ===== src/Oracle/Handle/Login.antt =====
-- A login through the proxy with peers that send whole packets.
use credential_gateway.Common.{
  ℕ, ◌≤◌, ◌≡◌, refl, ap, ap₂, ◌∙◌, Bytes, true, ◌++◌, length, arith, length-append,
}
use credential_gateway.Net.Exit.{done}
use credential_gateway.Net.Conn.{Conn, wrote, with_inbound}
use credential_gateway.Net.Conn.Laws.{wrote-wrote}
use credential_gateway.Net.World.{World}
use credential_gateway.Oracle.Tns.Laws.{frame, read_tns-frame, read_data-frame, write_tns-frame}
use credential_gateway.Config.Types.{OracleService}
use credential_gateway.Oracle.Ttc.{
  build_o3log, build_o3auth, fake_session_key, auth_ok, extract_salt, is_auth_ok, compute_auth,
}
use credential_gateway.Oracle.Handle.{check_o3log, negotiate, prove, log_in, do_auth}
use credential_gateway.Oracle.Handle.Outcome.{Fits}

-- What the peers of `doAuth` send, body by body.
pub record Packets : Type 0 where
  pub server_ns : Bytes
  pub client_ns : Bytes
  pub session : Bytes
  pub o3log : Bytes
  pub o3auth_type : ℕ
  pub o3auth : Bytes
  pub result : Bytes
  pub client_rest : Bytes
  pub upstream_rest : Bytes

-- What the proxy sends to each.
abbrev pub to_server : OracleService → Packets → Bytes
to_server cfg x =
    (frame 6 x.client_ns ++ frame 6 (build_o3log cfg.user))
    ++ frame 6 (build_o3auth cfg.user (compute_auth cfg.password (extract_salt x.session)))

abbrev pub to_client : Packets → Bytes
to_client x = (frame 6 x.server_ns ++ frame 6 fake_session_key) ++ frame 6 auth_ok

pub record Meets (cfg : OracleService) (x : Packets) (w : World) : Type 0 where
  pub server_stream :
      w.upstream.inbound
      ≡ frame 6 x.server_ns ++ (frame 6 x.session ++ (frame 6 x.result ++ x.upstream_rest))
  pub client_stream :
      w.client.inbound
      ≡ frame 6 x.client_ns ++ (frame 6 x.o3log ++ (frame x.o3auth_type x.o3auth ++ x.client_rest))
  pub server_ns_fits : Fits x.server_ns
  pub session_fits : Fits x.session
  pub result_fits : Fits x.result
  pub client_ns_fits : Fits x.client_ns
  pub o3log_fits : Fits x.o3log
  pub o3auth_fits : Fits x.o3auth
  pub is_o3log : check_o3log x.o3log ≡ done tt
  pub accepted : is_auth_ok x.result ≡ true
  pub server_room : length (to_server cfg x) ≤ w.upstream.capacity
  pub client_room : length (to_client x) ≤ w.client.capacity

-- Three writes are one, and the stream stands where it stands.
wrote_three :
    (xs ys zs rest : Bytes) (c : Conn)
    → with_inbound rest (wrote zs (wrote ys (wrote xs c)))
      ≡ with_inbound rest (wrote ((xs ++ ys) ++ zs) c)
wrote_three xs ys zs rest c =
    ap (with_inbound rest) (ap (wrote zs) (wrote-wrote xs ys c) ∙ wrote-wrote (xs ++ ys) zs c)

-- With a server that accepts and a client that opens with a login, `doAuth` succeeds: the server
-- is sent the client's negotiation packet, a login with the configured user, and the token of the
-- configured password and the server's salt; the client is sent the server's negotiation packet,
-- a dummy session key, and the acceptance; and both streams stand behind the packets read.
pub do_auth_outcome :
    (cfg : OracleService) (x : Packets) (w : World)
    → Meets cfg x w
    → do_auth cfg w ≡ (
      done tt,
      record w {
        client = with_inbound x.client_rest (wrote (to_client x) w.client);
        upstream = with_inbound x.upstream_rest (wrote (to_server cfg x) w.upstream);
      },
    )
unfolding do_auth negotiate log_in prove
do_auth_outcome cfg x w h =
    let ns = frame 6 x.server_ns in
    let key = frame 6 fake_session_key in
    let fwd = frame 6 x.client_ns in
    let log = frame 6 (build_o3log cfg.user) in
    let proof = build_o3auth cfg.user (compute_auth cfg.password (extract_salt x.session)) in
    let token = frame 6 proof in
    let client_size = length-append (ns ++ key) (frame 6 auth_ok) in
    let client_half = length-append ns key in
    let server_size = length-append (fwd ++ log) token in
    let server_half = length-append fwd log in
    let u1 = with_inbound (frame 6 x.session ++ (frame 6 x.result ++ x.upstream_rest)) w.upstream in
    let c1 = wrote ns w.client in
    let c2 = with_inbound (frame 6 x.o3log ++ (frame x.o3auth_type x.o3auth ++ x.client_rest)) c1 in
    let u2 = wrote fwd u1 in
    let c3 = with_inbound (frame x.o3auth_type x.o3auth ++ x.client_rest) c2 in
    let u3 = wrote log u2 in
    let u4 = with_inbound (frame 6 x.result ++ x.upstream_rest) u3 in
    let c4 = wrote key c3 in
    let c5 = with_inbound x.client_rest c4 in
    let u5 = wrote token u4 in
    rw (read_data-frame x.server_ns _ w.upstream h.server_ns_fits h.server_stream) (
      rw
        (write_tns-frame 6 x.server_ns w.client
          (omega (arith, client_size, client_half, h.client_room)))
        (rw (read_data-frame x.client_ns _ c1 h.client_ns_fits h.client_stream) (
          rw
            (write_tns-frame 6 x.client_ns u1
              (omega (arith, server_size, server_half, h.server_room)))
            (rw (read_data-frame x.o3log _ c2 h.o3log_fits refl, h.is_o3log)
              (rw
                (write_tns-frame 6 (build_o3log cfg.user) u2
                  (omega (arith, server_size, server_half, h.server_room)))
                (rw (read_data-frame x.session _ u3 h.session_fits refl) (
                  rw
                    (write_tns-frame 6 fake_session_key c3
                      (omega (arith, client_size, client_half, h.client_room)))
                    (rw (read_tns-frame x.o3auth_type x.o3auth x.client_rest c4 h.o3auth_fits refl)
                      (rw
                        (write_tns-frame 6 proof u4
                          (omega (arith, server_size, server_half, h.server_room)))
                        (rw
                          (
                            read_tns-frame 6 x.result x.upstream_rest u5 h.result_fits refl,
                            h.accepted,
                          )
                          (rw
                            (write_tns-frame 6 auth_ok c5
                              (omega (arith, client_size, client_half, h.client_room)))
                            (ap₂ (λ (c u : Conn). (done tt, record w { client = c; upstream = u }))
                              (wrote_three ns key (frame 6 auth_ok) x.client_rest w.client)
                              (wrote_three fwd log token x.upstream_rest w.upstream)))))))))))))
