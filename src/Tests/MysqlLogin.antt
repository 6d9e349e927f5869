-- ===== src/Tests/MysqlLogin.antt =====
-- The MySQL proxy at one greeting and one login.
use credential_gateway.Common.{
  some, ◌+◌, ◌≤◌, ◌<◌, ◌≡◌, ◌≢◌, refl, Bytes, true, false, [], ◌∷◌, ◌++◌, length, replicate, ◌==◌,
  bit_and, arith, if◌then◌else◌,
}
use credential_gateway.Common.Texts.{codes}
use credential_gateway.Net.Exit.{
  done, failed, panicked, unsupported_plugin, upstream_rejected, handshake_too_short,
}
use credential_gateway.Net.Exit.Ensures.{Holds}
use credential_gateway.Net.World.{client, upstream, World}
use credential_gateway.Net.Inject.{Relayed, Stopped}
use credential_gateway.Net.Pipe.{pipe}
use credential_gateway.Std.Digest.{xor_bytes}
use credential_gateway.Std.Digest.Sha1.{sha1}
use credential_gateway.Mysql.Switch.{parse_auth_switch_plugin, build_err_packet}
use credential_gateway.Mysql.Switch.Reading.{read_err, auth_error, read_err-names_plugin}
use credential_gateway.Mysql.Packet.Laws.{frame}
use credential_gateway.Mysql.Handshake.{parse_nonce, clear_ssl, version_end}
use credential_gateway.Mysql.Handshake.Nonce.{
  Greeting, IsGreeting, marshal, parse_nonce-marshal, parse_nonce_guard,
}
use credential_gateway.Mysql.Handshake.Ssl.{clear_ssl-marshal}
use credential_gateway.Mysql.Response.{
  scramble, build_response, parse_database, response_caps, plugin_name,
}
use credential_gateway.Mysql.Response.Scramble.{scramble_accepted}
use credential_gateway.Mysql.Response.RoundTrip.{
  read_login, client_login, read_login-build_response, parse_database_exact,
}
use credential_gateway.Mysql.Switch.{parse_auth_switch_plugin}
use credential_gateway.Mysql.Handle.{Service, starts_with, switch_message, handle}
use credential_gateway.Mysql.Handle.Isolation.{MayLogin, LoggedIn, handle-Isolates}
use credential_gateway.Mysql.Handle.Paths.{
  Script, Follows, our_login, reply, replied, handle_outcome,
}

abbrev greeting : Greeting
greeting = record {
  version = codes "8.0.36";
  connection = 7 ∷ 0 ∷ 0 ∷ 0 ∷ [];
  part_one = codes "abcdefgh";
  caps_low = (0xff, 0xff);
  charset = 33;
  status = (2, 0);
  caps_high = (0x08, 0x00);
  auth_length = 21;
  reserved = replicate 10 0;
  part_two = codes "ijklmnopqrst";
  rest = 0 ∷ (plugin_name ++ (0 ∷ []));
}

greeting-IsGreeting : IsGreeting greeting
greeting-IsGreeting = record {
  version_text = ground arith;
  connection_size = refl;
  part_one_size = refl;
  reserved_size = refl;
  part_two_size = refl;
  plugin_auth = λ e. cc;
  room = omega arith;
}

parse_nonce-marshal_example : parse_nonce (marshal greeting) ≡ done (codes "abcdefghijklmnopqrst")
parse_nonce-marshal_example = parse_nonce-marshal greeting greeting-IsGreeting

parse_nonce_guard_example :
    let payload : Bytes = 0x0a ∷ (0 ∷ replicate 13 0) in
    let pos = version_end payload in
    (length payload < pos + 13 → parse_nonce payload ≡ failed handshake_too_short)
    × (pos + 13 ≤ length payload → length payload < pos + 20 → parse_nonce payload ≡ panicked)
    × (pos + 20 < length payload → parse_nonce payload ≢ panicked)
parse_nonce_guard_example = parse_nonce_guard (0 ∷ replicate 13 0)

abbrev service : Service
service = record { user = codes "app"; password = codes "secret"; database = [] }

abbrev fixed_part : Bytes
fixed_part = 8 ∷ replicate 31 0

abbrev user_response : Bytes
user_response = client_login fixed_part (codes "root") (1 ∷ 2 ∷ []) (codes "shop") []

abbrev script : Script
script = record {
  seq = 0;
  handshake = marshal greeting;
  nonce = codes "abcdefghijklmnopqrst";
  client_seq = 1;
  response = user_response;
  result_seq = 2;
  result = 0 ∷ 0 ∷ 0 ∷ 2 ∷ 0 ∷ [];
  client_rest = codes "query";
  upstream_rest = codes "rows";
}

abbrev quote : Bytes → Bytes
quote s = b'"' ∷ (s ++ (b'"' ∷ []))

abbrev world : World
world = record {
  client = record {
    inbound = frame 1 user_response ++ codes "query";
    capacity = length (frame 0 (clear_ssl (marshal greeting))) + length (reply quote script);
    chunk = 16;
    sent = [];
  };
  upstream = record {
    inbound = frame 0 (marshal greeting) ++ (frame 2 (0 ∷ 0 ∷ 0 ∷ 2 ∷ 0 ∷ []) ++ codes "rows");
    capacity = length (our_login service script) + 100;
    chunk = 16;
    sent = [];
  };
  reachable = true;
  dialled = false;
  schedule = (client, 3) ∷ (upstream, 4) ∷ (client, 9) ∷ [];
}

world-Follows : Follows service script world
world-Follows = record {
  reachable = refl;
  upstream_stream = refl;
  client_stream = refl;
  handshake_fits = omega arith;
  response_fits = omega arith;
  result_fits = omega arith;
  nonce_read = parse_nonce-marshal_example;
  response_size = omega arith;
  client_room = omega arith;
  upstream_room = omega arith;
}

handle_outcome_example : handle quote service world ≡ (
    if starts_with 0xfe (script.result)
    then (
      failed (unsupported_plugin (parse_auth_switch_plugin (script.result))),
      replied quote service script world,
    )
    else if starts_with 0xff (script.result)
    then (failed upstream_rejected, replied quote service script world)
    else pipe (replied quote service script world))
handle_outcome_example = handle_outcome quote service script world world-Follows (omega arith)

handle-Isolates_example :
    Holds
      (λ _. Relayed [] world.client.inbound (MayLogin service) (LoggedIn service))
      (Stopped [] world.client.inbound (MayLogin service) (LoggedIn service))
      (handle quote service world)
handle-Isolates_example = handle-Isolates quote service world

read_login-build_response_example :
    read_login
      (build_response (codes "app") (codes "secret") (codes "abcdefghijklmnopqrst") (codes "shop"))
    ≡ record {
      caps = response_caps (codes "shop");
      user = codes "app";
      auth = scramble (codes "abcdefghijklmnopqrst") (codes "secret");
      database = codes "shop";
      plugin = plugin_name;
    }
read_login-build_response_example =
    read_login-build_response (codes "app") (codes "secret") (codes "abcdefghijklmnopqrst")
      (codes "shop") (ground arith) (ground arith)

scramble_accepted_example :
    let stored = sha1 (sha1 (codes "secret")) in
    sha1 (xor_bytes (scramble (codes "nonce") (codes "secret")) (sha1 (codes "nonce" ++ stored)))
    ≡ stored
scramble_accepted_example = scramble_accepted (codes "nonce") (codes "secret") (λ e. cc)

parse_database_exact_example :
    parse_database user_response 8 ≡ (if bit_and 8 0x00000008 == 0 then [] else codes "shop")
parse_database_exact_example =
    parse_database_exact fixed_part (codes "root") (1 ∷ 2 ∷ []) (codes "shop") [] 8 refl
      (ground arith) (ground arith)

clear_ssl-marshal_example :
    clear_ssl (marshal greeting) ≡ marshal (record greeting { caps_low = (0xff, 0xf7) })
clear_ssl-marshal_example = clear_ssl-marshal greeting (omega arith) (ground arith) refl refl

read_err-names_plugin_example :
    (read_err 0x200 (
        build_err_packet 0x200 (
          switch_message quote
            (parse_auth_switch_plugin (0xfe ∷ (codes "dialog" ++ (0 ∷ codes "data"))))))
      ≡ some (auth_error 0x200 (switch_message quote (codes "dialog"))))
    × (read_err 0x200 (
          build_err_packet 0x200
            (switch_message quote (parse_auth_switch_plugin (0xfe ∷ codes "dialog"))))
        ≡ some (auth_error 0x200 (switch_message quote (codes "dialog"))))
read_err-names_plugin_example =
    read_err-names_plugin quote 0x200 (codes "dialog") (codes "data") (ground arith)
