-- ===== src/Tests/PostgresLogin.antt =====
-- The PostgreSQL proxy's login at concrete inputs.
use credential_gateway.Common.{
  ℕ, ◌≡◌, refl, Bytes, true, length, leb, leb→le, [], ◌∷◌, ◌++◌, arith, if◌then◌else◌,
}
use credential_gateway.Common.Texts.{codes, equal}
use credential_gateway.Common.Words.{be32}
use credential_gateway.Std.Base64.{encode, symbol}
use credential_gateway.Std.Digest.{xor_bytes}
use credential_gateway.Std.Digest.Sha256.{hmac_sha256}
use credential_gateway.Std.Decimal.{decimal}
use credential_gateway.Net.Exit.{Exit, done, failed, signature_mismatch}
use credential_gateway.Net.Exit.Ensures.{Holds}
use credential_gateway.Net.Exit.Ends.{Ends}
use credential_gateway.Net.Conn.{Conn}
use credential_gateway.Net.World.{World, client, upstream}
use credential_gateway.Net.Inject.{Relayed, Stopped}
use credential_gateway.Config.Types.{PostgresService}
use credential_gateway.Postgres.Message.RoundTrip.{startup_frame, message_frame}
use credential_gateway.Postgres.Startup.{build_startup}
use credential_gateway.Postgres.Scram.{
  parse_attributes, attribute, server_signature, pbkdf2, client_final,
}
use credential_gateway.Postgres.Scram.Derivation.{chain, pbkdf2-chain}
use credential_gateway.Postgres.Scram.Exchange.{do_scram}
use credential_gateway.Postgres.Scram.Exchange.Outcome.{
  Exchanged, Plays, asked, own_nonce, challenge, auth_body, exchange_sent, exchanged,
  do_scram_outcome,
}
use credential_gateway.Postgres.Handle.{handle}
use credential_gateway.Postgres.Handle.Session.{MayOpen, Accepted}
use credential_gateway.Postgres.Handle.Isolation.{handle-SendsSession}
use credential_gateway.Postgres.Handle.Fuel.{handle-Ends}

pbkdf2-chain_example :
    pbkdf2 (codes "secret") (codes "salt") 3 32 ≡ chain (codes "secret") (codes "salt") 1 2
pbkdf2-chain_example = pbkdf2-chain (codes "secret") (codes "salt") 3 (omega arith)

abbrev pub service : PostgresService
service = record {
  listen = codes "127.0.0.1:5432";
  upstream = codes "db:5432";
  user = codes "app";
  password = codes "secret";
  database = [];
}

-- A server that asks for an MD5 password, accepts it, and is ready.
abbrev server_stream : Bytes
server_stream =
    message_frame b'R' (be32 5 ++ codes "salt")
    ++ (message_frame b'R' (be32 0) ++ message_frame b'Z' (codes "I"))

abbrev client_stream : Bytes
client_stream = startup_frame (build_startup (codes "guest") (codes "shop")) ++ codes "Query"

abbrev pub world : World
world = record {
  client = record { inbound = client_stream; capacity = 1000; chunk = 9; sent = [] };
  upstream = record { inbound = server_stream; capacity = 1000; chunk = 9; sent = [] };
  reachable = true;
  dialled = true;
  schedule = (client, 10) ∷ (upstream, 10) ∷ [];
}

abbrev pub no_random : ℕ → Exit Bytes
no_random f = done (codes "0123456789abcdefgh")

handle-SendsSession_example :
    Holds
      (λ _. Relayed [] client_stream (MayOpen service) (Accepted service))
      (Stopped [] client_stream (MayOpen service) (Accepted service))
      (handle no_random service world)
handle-SendsSession_example = handle-SendsSession no_random service world

handle-Ends_example : Ends (handle no_random service world).0
handle-Ends_example = handle-Ends no_random service world (λ f. tt)

abbrev pub play : Exchanged
play = record {
  random = codes "0123456789abcdefgh";
  choice = record { extension = codes "XYZ"; salt = codes "salt"; iterations = 0 };
  server_final = codes "v=none";
  rest = codes "rest";
}

abbrev scram_server : Conn
scram_server = record {
  inbound =
      message_frame b'R' (auth_body 11 (asked play))
      ++ (message_frame b'R' (auth_body 12 play.server_final) ++ play.rest);
  capacity = 10000;
  chunk = 1;
  sent = [];
}

nonce_is : own_nonce play ≡ codes "MDEyMzQ1Njc4OWFiY2RlZmdo"
unfolding encode symbol
nonce_is = refl

salt_is : encode (codes "salt") ≡ codes "c2FsdA=="
unfolding encode symbol
salt_is = refl

one_is : decimal 1 ≡ codes "1"
unfolding decimal
one_is = refl

asked_size : length (asked play) ≡ 44
asked_size = rw (nonce_is, salt_is, one_is) refl

room_test : leb (length (exchange_sent (codes "secret") play)) 10000 ≡ true
unfolding client_final encode decimal xor_bytes hmac_sha256
room_test = refl

pub play-Plays : Plays (codes "secret") play scram_server
play-Plays = record {
  choice = record {
    nonce_text = rw nonce_is (ground arith);
    salt_bytes = ground arith;
    count_fits = omega arith;
  };
  stream = refl;
  first_fits = omega (arith, asked_size);
  final_fits = omega arith;
  room = leb→le (length (exchange_sent (codes "secret") play)) 10000 room_test;
}

do_scram_outcome_example : do_scram (done play.random) (codes "secret") scram_server ≡ (
  if equal (attribute b'v' (parse_attributes play.server_final)) (
        server_signature
          (codes "secret")
          (own_nonce play)
          (asked play)
          (challenge (own_nonce play) play.choice))
      then done tt
      else failed signature_mismatch,
  exchanged (codes "secret") play scram_server,
)
do_scram_outcome_example = do_scram_outcome (codes "secret") play scram_server play-Plays
