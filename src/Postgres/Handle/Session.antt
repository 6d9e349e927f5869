-- ===== src/Postgres/Handle/Session.antt =====
-- What the gateway itself sends to a PostgreSQL server.
use credential_gateway.Common.{◌≡◌, true, Bytes, ◌++◌, drop}
use credential_gateway.Common.Texts.{codes}
use credential_gateway.Net.Exit.{done}
use credential_gateway.Config.Types.{PostgresService}
use credential_gateway.Postgres.Message.RoundTrip.{startup_frame}
use credential_gateway.Postgres.Message.Roles.{IsStartup, framed}
use credential_gateway.Postgres.Startup.{
  Params, build_startup, parse_params, build_password_message, build_sasl_initial_response,
  build_sasl_response,
}
use credential_gateway.Postgres.Replies.{md5_password}
use credential_gateway.Postgres.Scram.{Challenge, client_first, client_final}
use credential_gateway.Postgres.Handle.{is_ssl_request, chosen_database}

-- The startup packet, and the three answers to a server that asks for a proof of the password.
abbrev pub opening : PostgresService → Bytes → Bytes
opening cfg database = startup_frame (build_startup cfg.user database)

abbrev pub md5_answer : PostgresService → Bytes → Bytes
md5_answer cfg salt = framed (build_password_message (md5_password cfg.user cfg.password salt))

abbrev pub scram_first : Bytes → Bytes
scram_first nonce =
    framed (build_sasl_initial_response (codes "SCRAM-SHA-256") (client_first nonce))

abbrev pub scram_final : PostgresService → Bytes → Bytes → Challenge → Bytes
scram_final cfg nonce server_first c =
    framed (build_sasl_response (client_final cfg.password nonce server_first c))

-- A startup packet with the configured user, then answers to the server's questions. The second
-- message of a SCRAM exchange is only sent behind the first, with its nonce.
pub data Session (cfg : PostgresService) (database : Bytes) : Bytes → Type 0 where
  begun : {bs : Bytes} → bs ≡ opening cfg database → Session cfg database bs
  md5_answered :
      {old bs : Bytes} (salt : Bytes)
      → Session cfg database old
      → bs ≡ old ++ md5_answer cfg salt
      → Session cfg database bs
  scram_begun :
      {old bs : Bytes} (nonce : Bytes)
      → Session cfg database old
      → bs ≡ old ++ scram_first nonce
      → Session cfg database bs
  scram_ended :
      {old bs : Bytes} (nonce server_first : Bytes) (c : Challenge)
      → Session cfg database old
      → bs ≡ (old ++ scram_first nonce) ++ scram_final cfg nonce server_first c
      → Session cfg database bs

-- A run may send such a session, with some database.
pub record MayOpen (cfg : PostgresService) (bs : Bytes) : Type 0 where
  pub database : Bytes
  pub session : Session cfg database bs

-- What is taken of the client: a startup packet, behind an SSLRequest perhaps.
pub data Opened (body : Bytes) : Bytes → Type 0 where
  direct : {bs : Bytes} → IsStartup body bs → Opened body bs
  after_ssl :
      {request first second bs : Bytes}
      → IsStartup request first
      → is_ssl_request request ≡ true
      → IsStartup body second
      → bs ≡ first ++ second
      → Opened body bs

-- When the pipe begins, the client's startup was taken, and of it only the database may have gone
-- into the session that was sent.
pub record Accepted (cfg : PostgresService) (taken bs : Bytes) : Type 0 where
  pub startup : Bytes
  pub opened : Opened startup taken
  pub params : Params
  pub parsed : parse_params (drop 4 startup) ≡ done params
  pub session : Session cfg (chosen_database cfg params) bs
