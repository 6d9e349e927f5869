-- ===== src/Tests/Proxies.antt =====
-- The Redis proxy and the PostgreSQL wire format at concrete inputs.
use credential_gateway.Common.{ℕ, inl, ◌≡◌, refl, Bytes, true, false, List, [], ◌∷◌, none, arith}
use credential_gateway.Common.Texts.{codes, equal}
use credential_gateway.Net.Exit.{done, panicked}
use credential_gateway.Net.Conn.{Conn, wrote, with_inbound}
use credential_gateway.Net.World.{client, upstream, World}
use credential_gateway.Net.Reader.{line_end, direct_source}
use credential_gateway.Std.Decimal.{scan_int}
use credential_gateway.Redis.Auth.{equal_fold, ok_reply, discard_client_auth}
use credential_gateway.Redis.Handle.{handle, auth_command}
use credential_gateway.Redis.Handle.Commands.{inline, IsName}
use credential_gateway.Redis.Handle.Login.{Admits, authenticated, handle-auth_command}
use credential_gateway.Net.Pipe.{pipe}
use credential_gateway.Net.Pipe.Drained.{Moves, moved, pipe_drained}
use credential_gateway.Postgres.Replies.{parse_error}
use credential_gateway.Postgres.Replies.Fields.{fields, parse_error-fields}
use credential_gateway.Postgres.Startup.{parse_params, parse_sasl_mechanisms}
use credential_gateway.Postgres.Startup.Mechanisms.{names_wire, parse_sasl_mechanisms-names_wire}
use credential_gateway.Postgres.Startup.Params.{
  wire, pairs, unfinished, parse_params-wire, parse_params-panicked,
}

abbrev login_stream : Bytes
login_stream = codes "AUTH guess\r\nPING\r\n"

abbrev caller : Conn
caller = record { inbound = login_stream; capacity = 100; chunk = 6; sent = [] }

-- A client that logs in with a password of its own, and an upstream that answers in full.
abbrev login_world : World
login_world = record {
  client = record caller { inbound = codes "Auth bob guess\r\nPING\r\n" };
  upstream = record { inbound = codes "+OK\r\n"; capacity = 100; chunk = 5; sent = [] };
  reachable = true;
  dialled = false;
  schedule = (client, 10) ∷ [];
}

login_world-Admits : Admits (codes "secret") (codes "\r\n") login_world
unfolding auth_command
login_world-Admits = record {
  reachable = refl;
  reply = refl;
  reply_whole = omega arith;
  room = omega arith;
}

capitalised : IsName (codes "Auth")
unfolding equal_fold equal
capitalised = refl

handle-auth_command_example :
    handle 1000 (codes "secret") login_world
    ≡ pipe (record (authenticated (codes "secret") login_world) {
      client = wrote ok_reply (with_inbound (codes "PING\r\n") login_world.client);
    })
handle-auth_command_example =
    handle-auth_command 1000 (codes "secret") (codes "\r\n")
      (inline (codes "Auth") (codes " bob guess\r")) (codes "PING\r\n") login_world refl
      login_world-Admits refl (capitalised, inl refl, ground arith) (omega arith)

-- The length -3 makes `make` panic.
negative_length :
    (discard_client_auth 1000 direct_source
      (record caller { inbound = codes "*2\r\n$4\r\nAUTH\r\n$-3\r\n" })).0
    ≡ panicked
unfolding discard_client_auth direct_source line_end scan_int
negative_length = refl

abbrev redis_world : World
redis_world = record {
  client = caller;
  upstream = record { inbound = codes "+OK\r\n+PONG\r\n"; capacity = 100; chunk = 5; sent = [] };
  reachable = true;
  dialled = false;
  schedule = (client, 10) ∷ (upstream, 10) ∷ [];
}

-- A client that ends its stream behind five bytes.
abbrev piping_world : World
piping_world = record {
  client = record { inbound = codes "query"; capacity = 100; chunk = 9; sent = [] };
  upstream = record { inbound = codes "rows"; capacity = 100; chunk = 9; sent = [] };
  reachable = true;
  dialled = true;
  schedule = (client, 2) ∷ (upstream, 3) ∷ (client, 3) ∷ (client, 7) ∷ (upstream, 1) ∷ [];
}

piping_world-Moves : Moves piping_world 5 3
piping_world-Moves = record {
  client_has = omega arith;
  upstream_has = omega arith;
  upstream_takes = omega arith;
  client_takes = omega arith;
}

pipe_drained_example : pipe piping_world ≡ (done (5, 3), moved piping_world 5 3)
pipe_drained_example =
    pipe_drained piping_world ((client, 2) ∷ (upstream, 3) ∷ (client, 3) ∷ []) ((upstream, 1) ∷ [])
      client 7 refl piping_world-Moves refl

parse_params-wire_example :
    parse_params (wire ((codes "a", codes "b") ∷ (codes "c", []) ∷ []) (codes "rest"))
    ≡ done ((codes "c", []) ∷ (codes "a", codes "b") ∷ [])
parse_params-wire_example =
    parse_params-wire ((codes "a", codes "b") ∷ (codes "c", []) ∷ []) (codes "rest") (ground arith)

abbrev offered : List Bytes
offered = codes "SCRAM-SHA-256-PLUS" ∷ codes "SCRAM-SHA-256" ∷ []

parse_sasl_mechanisms-names_wire_example : parse_sasl_mechanisms (names_wire offered) ≡ done offered
parse_sasl_mechanisms-names_wire_example =
    parse_sasl_mechanisms-names_wire offered ((refl, ground arith), ((refl, ground arith), tt))

parse_params-panicked_example :
    parse_params (pairs ((codes "user", codes "bob") ∷ []) (unfinished (codes "datab") none))
    ≡ panicked
parse_params-panicked_example =
    parse_params-panicked ((codes "user", codes "bob") ∷ []) (codes "datab") none (ground arith)
      refl (ground arith) tt

abbrev error_fields : List (ℕ × Bytes)
error_fields = (b'S', codes "FATAL") ∷ (b'M', codes "no such user") ∷ []

parse_error-fields_example : parse_error (b'E' ∷ fields error_fields) ≡ done (codes "no such user")
parse_error-fields_example = parse_error-fields error_fields (ground arith)
