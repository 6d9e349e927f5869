-- ===== src/Oracle/Handle/Whole.antt =====
-- A whole login of the Oracle proxy, from the client's CONNECT to the pipe.
use credential_gateway.Common.{
  ℕ, ◌≤◌, ◌≡◌, refl, ap, ap₂, ◌∙◌, Bytes, List, true, ◌++◌, length, All, arith, length-append,
}
use credential_gateway.Net.Exit.Action.{Action, ◌>>=◌, ◌>>◌, bind_done}
use credential_gateway.Net.Conn.{Conn, wrote, with_inbound}
use credential_gateway.Net.Conn.Laws.{wrote-wrote}
use credential_gateway.Net.World.{World, on_client, dial}
use credential_gateway.Net.Pipe.{pipe}
use credential_gateway.Config.Types.{OracleService}
use credential_gateway.Oracle.Tns.Laws.{frame, read_tns-frame, write_tns-frame}
use credential_gateway.Oracle.Tns.{write_tns}
use credential_gateway.Oracle.Ttc.{build_connect}
use credential_gateway.Oracle.Handle.{do_auth, connect_all, handle}
use credential_gateway.Oracle.Handle.Outcome.{resends, copies, Fits, IsLast, connect_all_outcome}
use credential_gateway.Oracle.Handle.Login.{Packets, to_server, to_client, Meets, do_auth_outcome}

-- The client's CONNECT, the listener's RESENDs and its ACCEPT, and what each side sends behind.
pub record Opening : Type 0 where
  pub client_connect : Bytes
  pub resent : List Bytes
  pub accept : Bytes
  pub client_login : Bytes
  pub server_login : Bytes

module _ (to_upper : Bytes → Bytes) (cfg : OracleService) (s : Opening) where
  abbrev pub connect : Bytes
  connect = build_connect to_upper cfg.service

  -- One CONNECT, and one more for each RESEND.
  abbrev pub connects : Bytes
  connects = frame 1 connect ++ copies connect s.resent

  -- The world where `doAuth` begins.
  abbrev pub accepted_at : World → World
  accepted_at w = record w {
    client = with_inbound s.client_login (wrote (frame 2 s.accept) w.client);
    upstream = with_inbound s.server_login (wrote connects w.upstream);
    dialled = true;
  }

  -- What the peers send up to ACCEPT, which the packets of the login follow.
  pub record Opens (x : Packets) (w : World) : Type 0 where
    pub reachable : w.reachable ≡ true
    pub client : w.client.inbound ≡ frame 1 s.client_connect ++ s.client_login
    pub upstream : w.upstream.inbound ≡ resends s.resent (frame 2 s.accept ++ s.server_login)
    pub client_connect_fits : Fits s.client_connect
    pub resent_fit : All Fits s.resent
    pub accept : IsLast 2 s.accept
    pub client_room : length (frame 2 s.accept) ≤ w.client.capacity
    pub upstream_room : length connects ≤ w.upstream.capacity
    pub login : Meets cfg x (accepted_at w)

  -- The world where the pipe begins.
  abbrev pub logged_in : Packets → World → World
  logged_in x w = record w {
    client = with_inbound x.client_rest (wrote (frame 2 s.accept ++ to_client x) w.client);
    upstream = with_inbound x.upstream_rest (wrote (connects ++ to_server cfg x) w.upstream);
    dialled = true;
  }

  -- The rest of `relay`, from the answer to CONNECT on.
  abbrev from_answer : Action World (ℕ × ℕ)
  from_answer =
      connect_all connect >>= λ body. on_client (write_tns 2 body) >> (do_auth cfg >> pipe)

  abbrev dialled_at : World → World
  dialled_at w = record w {
    client = with_inbound s.client_login w.client;
    upstream = wrote (frame 1 connect) w.upstream;
    dialled = true;
  }

  handle_dials :
      (w : World)
      → w.reachable ≡ true
      → w.client.inbound ≡ frame 1 s.client_connect ++ s.client_login
      → Fits s.client_connect
      → length (frame 1 connect) ≤ w.upstream.capacity
      → handle to_upper cfg w ≡ from_answer (dialled_at w)
  unfolding handle dial
  handle_dials w up e fit room =
      rw (read_tns-frame 1 s.client_connect s.client_login w.client fit e)
        (rw up (rw (write_tns-frame 1 connect w.upstream room) refl))

  answer_accepted :
      (w : World)
      → All Fits s.resent
      → IsLast 2 s.accept
      → w.upstream.inbound ≡ resends s.resent (frame 2 s.accept ++ s.server_login)
      → length (frame 2 s.accept) ≤ w.client.capacity
      → length connects ≤ w.upstream.capacity
      → from_answer (dialled_at w) ≡ (do_auth cfg >> pipe) (accepted_at w)
  answer_accepted w fits last e client_room room =
      let sizes = length-append (frame 1 connect) (copies connect s.resent) in
      bind_done (connect_all connect) _ (dialled_at w) (
        connect_all_outcome connect s.resent 2 s.accept s.server_login (dialled_at w) fits last e
          (omega (arith, sizes, room)))
      ∙ rw (write_tns-frame 2 s.accept (with_inbound s.client_login w.client) client_room) (
          ap
            (λ (c : Conn). (do_auth cfg >> pipe) (record w {
              client = with_inbound s.client_login (wrote (frame 2 s.accept) w.client);
              upstream = with_inbound s.server_login c;
              dialled = true;
            }))
            (wrote-wrote (frame 1 connect) (copies connect s.resent) w.upstream))

  -- A login with peers that send whole packets, from the client's CONNECT on: however often the
  -- listener asks for CONNECT again, the upstream is sent that packet as often and once more,
  -- for the configured service, then what `doAuth` sends it; the client is sent the listener's
  -- ACCEPT, then what `doAuth` sends it; and the pipe begins behind the packets of both.
  pub handle-logged_in :
      (x : Packets) (w : World) → Opens x w → handle to_upper cfg w ≡ pipe (logged_in x w)
  handle-logged_in x w h =
      let sizes = length-append (frame 1 connect) (copies connect s.resent) in
      handle_dials w h.reachable h.client h.client_connect_fits
        (omega (arith, sizes, h.upstream_room))
      ∙ answer_accepted w h.resent_fit h.accept h.upstream h.client_room h.upstream_room
      ∙ bind_done (do_auth cfg) _ (accepted_at w) (do_auth_outcome cfg x (accepted_at w) h.login)
      ∙ ap₂
          (λ (c u : Conn). pipe (record w {
            client = with_inbound x.client_rest c;
            upstream = with_inbound x.upstream_rest u;
            dialled = true;
          }))
          (wrote-wrote (frame 2 s.accept) (to_client x) w.client)
          (wrote-wrote connects (to_server cfg x) w.upstream)
