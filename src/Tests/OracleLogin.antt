-- ===== src/Tests/OracleLogin.antt =====
-- The Oracle proxy at concrete inputs.
use credential_gateway.Common.{
  ◌≡◌, refl, Bytes, true, [], ◌∷◌, ◌++◌, arith, replicate, length, leb, leb→le,
}
use credential_gateway.Common.Texts.{codes}
use credential_gateway.Std.Digest.Sha1.{sha1}
use credential_gateway.Net.Exit.Ensures.{Holds}
use credential_gateway.Net.World.{World, client, upstream}
use credential_gateway.Net.Inject.{Relayed, Stopped}
use credential_gateway.Config.Types.{OracleService}
use credential_gateway.Oracle.Tns.Laws.{frame}
use credential_gateway.Oracle.Ttc.{build_o3log, build_o3auth, compute_auth, is_auth_ok}
use credential_gateway.Oracle.Handle.{connect_all, handle}
use credential_gateway.Oracle.Handle.Session.{Stage, Authorised}
use credential_gateway.Oracle.Handle.Isolation.{handle-SendsStages}
use credential_gateway.Oracle.Handle.Outcome.{resends, concluded, answered, connect_all_outcome}
use credential_gateway.Net.Pipe.{pipe}
use credential_gateway.Oracle.Ttc.{build_connect}
use credential_gateway.Oracle.Handle.Whole.{
  Opening, connects, accepted_at, Opens, logged_in, handle-logged_in,
}
use credential_gateway.Oracle.Handle.Login.{Packets, to_server}

abbrev service : OracleService
service = record {
  listen = codes "127.0.0.1:1521";
  upstream = codes "db:1521";
  user = codes "app";
  password = codes "secret";
  service = codes "ORCL";
}

abbrev same : Bytes → Bytes
same bs = bs

abbrev packets : Packets
packets = record {
  server_ns = codes "ns";
  client_ns = codes "ns too";
  session = 0 ∷ 0 ∷ 2 ∷ replicate 20 7;
  o3log = 0 ∷ 0 ∷ 0x76 ∷ codes "guest";
  o3auth_type = 6;
  o3auth = codes "guess";
  result = 0 ∷ 0 ∷ 4 ∷ [];
  client_rest = codes "query";
  upstream_rest = codes "rows";
}

abbrev client_login : Bytes
client_login =
    frame 6 packets.client_ns
    ++ (frame 6 packets.o3log ++ (frame packets.o3auth_type packets.o3auth ++ packets.client_rest))

abbrev server_login : Bytes
server_login =
    frame 6 packets.server_ns
    ++ (frame 6 packets.session ++ (frame 6 packets.result ++ packets.upstream_rest))

abbrev world : Bytes → Bytes → World
world c u = record {
  client = record { inbound = c; capacity = 1000; chunk = 9; sent = [] };
  upstream = record { inbound = u; capacity = 1000; chunk = 9; sent = [] };
  reachable = true;
  dialled = true;
  schedule = (client, 10) ∷ (upstream, 10) ∷ [];
}

abbrev client_stream : Bytes
client_stream = frame 1 (codes "connect") ++ client_login

abbrev whole : World
whole = world client_stream (frame 11 [] ++ (frame 2 (codes "ok") ++ server_login))

handle-SendsStages_example :
    Holds
      (λ _. Relayed [] client_stream (Stage same service client_stream) (Authorised same service))
      (Stopped [] client_stream (Stage same service client_stream) (Authorised same service))
      (handle same service whole)
handle-SendsStages_example = handle-SendsStages same service whole

abbrev answering : World
answering = world [] (resends ([] ∷ codes "again" ∷ []) (frame 2 (codes "ok") ++ codes "rest"))

connect_all_outcome_example :
    connect_all (codes "connect") answering
    ≡ concluded 2 (codes "ok") (record answering {
      upstream =
          answered (codes "connect") ([] ∷ codes "again" ∷ []) (codes "rest") answering.upstream;
    })
connect_all_outcome_example =
    connect_all_outcome (codes "connect") ([] ∷ codes "again" ∷ []) 2 (codes "ok") (codes "rest")
      answering (omega arith, (omega arith, tt))
      (record { no_resend = refl; has_body = refl; fits = omega arith }) refl (omega arith)

-- A listener that asks for CONNECT twice more.
abbrev opening : Opening
opening = record {
  client_connect = codes "connect";
  resent = [] ∷ codes "again" ∷ [];
  accept = codes "ok";
  client_login = client_login;
  server_login = server_login;
}

abbrev login_world : World
login_world = world client_stream (resends opening.resent (frame 2 (codes "ok") ++ server_login))

accepted : is_auth_ok packets.result ≡ true
unfolding is_auth_ok
accepted = refl

size_test :
    leb
      (length (to_server service packets))
      (accepted_at same service opening login_world).upstream.capacity
    ≡ true
unfolding build_o3log build_o3auth compute_auth sha1 build_connect
size_test = refl

connects_test : leb (length (connects same service opening)) 1000 ≡ true
unfolding build_connect
connects_test = refl

login_world-Opens : Opens same service opening packets login_world
login_world-Opens = record {
  reachable = refl;
  client = refl;
  upstream = refl;
  client_connect_fits = omega arith;
  resent_fit = (omega arith, (omega arith, tt));
  accept = record { no_resend = refl; has_body = refl; fits = omega arith };
  client_room = omega arith;
  upstream_room = leb→le (length (connects same service opening)) 1000 connects_test;
  login = record {
    server_stream = refl;
    client_stream = refl;
    server_ns_fits = omega arith;
    session_fits = omega arith;
    result_fits = omega arith;
    client_ns_fits = omega arith;
    o3log_fits = omega arith;
    o3auth_fits = omega arith;
    is_o3log = refl;
    accepted = accepted;
    server_room =
        leb→le (length (to_server service packets))
          (accepted_at same service opening login_world).upstream.capacity size_test;
    client_room = omega arith;
  };
}

handle-logged_in_example :
    handle same service login_world ≡ pipe (logged_in same service opening packets login_world)
handle-logged_in_example =
    handle-logged_in same service opening packets login_world login_world-Opens
