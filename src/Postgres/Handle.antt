-- ===== src/Postgres/Handle.antt =====
-- internal/gateway/postgres.go: `(*postgresProxy).handle` and `forwardStartup`.
pub mod Session
pub mod Answers
pub mod Isolation
pub mod Spends
pub mod Fuel
pub mod Forward
pub mod Questions
pub mod Script
pub mod Login
use credential_gateway.Common.{
  ℕ, zero, suc, ◌+◌, Bytes, Bool, true, false, not, ◌&&◌, List, [], ◌∷◌, ◌++◌, length, take, drop,
  ltb, ◌==◌, if◌then◌else◌,
}
use credential_gateway.Common.Texts.{codes, is_empty, equal}
use credential_gateway.Common.Words.{of_be}
use credential_gateway.Net.Exit.{
  Exit, startup_too_short, unexpected_protocol, md5_too_short, no_mechanism, unsupported_auth,
  unexpected_sasl_continue, unexpected_sasl_final, upstream_error, unexpected_message, out_of_fuel,
  panicked,
}
use credential_gateway.Net.Exit.Action.{Action, pure, fail, lift, guard_not, ◌>>=◌, ◌>>◌}
use credential_gateway.Net.Conn.{write}
use credential_gateway.Net.World.{World, on_client, on_upstream, dial}
use credential_gateway.Net.Pipe.{pipe}
use credential_gateway.Config.Types.{PostgresService}
use credential_gateway.Postgres.Message.{read_startup, write_startup, read_message, write_message}
use credential_gateway.Postgres.Startup.{
  build_startup, Params, param, parse_params, build_password_message, parse_sasl_mechanisms,
}
use credential_gateway.Postgres.Replies.{md5_password, parse_error}
use credential_gateway.Postgres.Scram.{or_nothing}
use credential_gateway.Postgres.Scram.Exchange.{auth_type, has_type, do_scram}

abbrev pub contains : Bytes → List Bytes → Bool
contains name [] = false
contains name (m ∷ ms) = if equal m name then true else contains name ms

abbrev pub is_ssl_request : Bytes → Bool
is_ssl_request startup = length startup == 4 && of_be (take 4 startup) == 80877103

-- An SSLRequest is answered with `N`, and the real startup packet is read.
unfoldable pub after_ssl_reject : Bytes → Action World Bytes
after_ssl_reject startup =
    if is_ssl_request startup
    then (on_client (write (b'N' ∷ [])) >> on_client read_startup)
    else pure startup

-- The client's startup packet.
unfoldable pub read_client_startup : Action World Bytes
unfolding after_ssl_reject
read_client_startup = do startup ← on_client read_startup; after_ssl_reject startup

-- The database of the configuration, or else the one that the client asked for.
abbrev pub chosen_database : PostgresService → Params → Bytes
chosen_database cfg params =
    if is_empty cfg.database then or_nothing (param (codes "database") params) else cfg.database

-- `forwardStartup`: messages up to ReadyForQuery, then the pipe.
unfoldable pub forward_startup : ℕ → Action World (ℕ × ℕ)
forward_startup zero = fail out_of_fuel
forward_startup (suc f) = do
  msg ← on_upstream read_message
  on_client (write_message msg)
  if has_type b'Z' msg then pipe else forward_startup f

-- `random f` is what `rand.Read` gives in the round of the loop with `f` rounds left.
module _ (random : ℕ → Exit Bytes) (cfg : PostgresService) where
  abbrev pub answer_md5 : Bytes → Action World (ℕ × ℕ) → Action World (ℕ × ℕ)
  answer_md5 msg next = do
    guard_not (ltb (length msg) 9) md5_too_short
    on_upstream (
        write_message
          (build_password_message (md5_password cfg.user cfg.password (take 4 (drop 5 msg)))))
    next

  abbrev pub answer_sasl : ℕ → Bytes → Action World (ℕ × ℕ) → Action World (ℕ × ℕ)
  answer_sasl f msg next = do
    mechanisms ← lift (parse_sasl_mechanisms (drop 5 msg))
    guard_not (not (contains (codes "SCRAM-SHA-256") mechanisms)) no_mechanism
    on_upstream (do_scram (random f) cfg.password)
    next

  -- AuthenticationOK goes to the client, and the rest of the startup behind it. Every message
  -- that is forwarded has come in, so as many rounds as there are bytes are enough.
  abbrev pub accepted : Bytes → Action World (ℕ × ℕ)
  accepted msg = do
    on_client (write_message msg)
    (λ w. forward_startup (suc (length w.upstream.inbound)) w)

  -- `switch authType`.
  unfoldable pub answer_auth : ℕ → Bytes → ℕ → Action World (ℕ × ℕ) → Action World (ℕ × ℕ)
  answer_auth f msg code next =
      if code == 0
      then accepted msg
      else if code == 5
      then answer_md5 msg next
      else if code == 10
      then answer_sasl f msg next
      else if code == 11
      then fail unexpected_sasl_continue
      else if code == 12
      then fail unexpected_sasl_final
      else fail unsupported_auth

  -- `switch msg[0]`.
  unfoldable pub answer_message : ℕ → Bytes → Action World (ℕ × ℕ) → Action World (ℕ × ℕ)
  unfolding answer_auth
  answer_message f [] next = lift panicked
  answer_message f (t ∷ body) next =
      if t == b'R'
      then (lift (auth_type (t ∷ body)) >>= λ code. answer_auth f (t ∷ body) code next)
      else if t == b'E'
      then (lift (parse_error (t ∷ body)) >>= λ text. fail (upstream_error text))
      else fail (unexpected_message t)

  -- The loop of authentication messages.
  unfoldable pub auth_loop : ℕ → Action World (ℕ × ℕ)
  unfolding answer_message
  auth_loop zero = fail out_of_fuel
  auth_loop (suc f) = do msg ← on_upstream read_message; answer_message f msg (auth_loop f)

  -- From `net.Dial` on.
  unfoldable pub begin : Params → Action World (ℕ × ℕ)
  unfolding auth_loop
  begin params = do
    dial
    on_upstream (write_startup (build_startup cfg.user (chosen_database cfg params)))
    (λ w. auth_loop (suc (length w.upstream.inbound)) w)

  -- `handle`: an error of any step is logged and ends it.
  unfoldable pub handle : Action World (ℕ × ℕ)
  unfolding begin
  handle = do
    startup ← read_client_startup
    guard_not (ltb (length startup) 4) startup_too_short
    guard_not (not (of_be (take 4 startup) == 196608))
        (unexpected_protocol (of_be (take 4 startup)))
    params ← lift (parse_params (drop 4 startup))
    begin params
