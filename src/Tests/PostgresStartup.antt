-- ===== src/Tests/PostgresStartup.antt =====
-- Whole logins of the PostgreSQL proxy at concrete inputs.
use credential_gateway.Common.{
  ℕ, List, ◌≡◌, refl, ap, ◌∙◌, if◌then◌else◌, Bytes, true, false, length, leb, leb→le, ltb, ltb→lt,
  ◌+◌, ◌^◌, [], ◌∷◌, ◌++◌, arith,
}
use credential_gateway.Common.Texts.{codes, nul_index, equal}
use credential_gateway.Net.World.{World, client, upstream}
use credential_gateway.Postgres.Startup.{build_startup}
use credential_gateway.Net.Pipe.{pipe}
use credential_gateway.Postgres.Handle.{handle}
use credential_gateway.Postgres.Startup.{Params, param, parse_params}
use credential_gateway.Postgres.Scram.{client_final, parse_attributes, server_signature}
use credential_gateway.Net.Exit.{failed, signature_mismatch}
use credential_gateway.Postgres.Handle.Questions.{IsExchange, proven, ask_sasl, question_bytes}
use credential_gateway.Postgres.Handle.Script.{
  Script, IsScript, client_stream as client_stream_of, acceptance, refusal, forwarded,
}
use credential_gateway.Postgres.Handle.Login.{upstream_sent, logged_in, unproven, handle_login}
use credential_gateway.Std.Base64.{encode, symbol}
use credential_gateway.Std.Decimal.{decimal}
use credential_gateway.Std.Digest.{xor_bytes}
use credential_gateway.Std.Digest.Sha256.{hmac_sha256}
use credential_gateway.Tests.PostgresLogin.{service, no_random, play, play-Plays}
use credential_gateway.Postgres.Scram.Exchange.Outcome.{
  Exchanged, own_nonce, asked, challenge, auth_body,
}

-- A parameter and a key before ReadyForQuery, and a row behind it.
abbrev settings : List (ℕ × Bytes)
settings = (b'S', codes "a=b") ∷ (b'K', codes "key") ∷ []

-- A server that knows the password.
abbrev proving : Exchanged
proving = record play {
  server_final =
      codes "v="
      ++ server_signature service.password (own_nonce play) (asked play)
          (challenge (own_nonce play) play.choice);
}

abbrev offers : List Bytes
offers = codes "SCRAM-SHA-256-PLUS" ∷ codes "SCRAM-SHA-256" ∷ []

-- A client that asks for SSL first, and a server that plays SCRAM.
abbrev script : Script
script = record {
  ssl = true;
  startup = build_startup (codes "guest") (codes "shop");
  client_rest = codes "Query";
  question = ask_sasl offers proving;
  settings = settings;
  ready = codes "I";
  server_rest = codes "row";
}

abbrev script_world : World
script_world = record {
  client = record { inbound = client_stream_of script; capacity = 10000; chunk = 9; sent = [] };
  upstream = record {
    inbound = question_bytes script.question ++ acceptance script;
    capacity = 10000;
    chunk = 9;
    sent = [];
  };
  reachable = true;
  dialled = false;
  schedule = (client, 10) ∷ (upstream, 10) ∷ [];
}

abbrev script_params : Params
script_params = (codes "database", codes "shop") ∷ (codes "user", codes "guest") ∷ []

final_test : ltb (length (auth_body 12 proving.server_final) + 4) (2 ^ 32) ≡ true
unfolding server_signature encode decimal hmac_sha256 xor_bytes
final_test = refl

script_question : IsExchange no_random offers proving
unfolding equal
script_question = record {
  names_fit = omega arith;
  asked_fits = play-Plays.first_fits;
  final_fits = ltb→lt _ _ final_test;
  choice = play-Plays.choice;
  named = ((refl, ground arith), ((refl, ground arith), tt));
  supported = refl;
  drawn = λ f. refl;
}

sent_test : leb (length (upstream_sent no_random service script_params script)) 10000 ≡ true
unfolding build_startup param equal client_final encode decimal xor_bytes hmac_sha256
sent_test = refl

script_world-IsScript : IsScript no_random service script_params script script_world
unfolding build_startup parse_params equal nul_index param
script_world-IsScript = record {
  startup_long = omega arith;
  startup_fits = omega arith;
  protocol = refl;
  parsed = refl;
  reachable = refl;
  question = script_question;
  settings = ((refl, omega arith), ((refl, omega arith), tt));
  ready = omega arith;
  client = refl;
  upstream = refl;
  client_room = leb→le (length (refusal script ++ forwarded script)) 10000 refl;
  upstream_room =
      leb→le (length (upstream_sent no_random service script_params script)) 10000 sent_test;
}

proven_test : proven service script.question ≡ true
unfolding equal parse_attributes param server_signature encode symbol decimal hmac_sha256 xor_bytes
proven_test = refl

handle_login_example :
    handle no_random service script_world
    ≡ pipe (logged_in no_random service script_params script script_world)
handle_login_example =
    handle_login no_random service script_params script script_world script_world-IsScript
    ∙ ap
        (λ b. if b then pipe (logged_in no_random service script_params script script_world) else (
          failed signature_mismatch,
          unproven no_random service script_params script script_world,
        ))
        proven_test
