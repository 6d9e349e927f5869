-- ===== src/Postgres/Handle/Fuel.antt =====
-- The loops of the PostgreSQL proxy do not run out of rounds.
use credential_gateway.Common.{
  ℕ, zero, suc, Bytes, not, [], ◌∷◌, length, take, drop, ltb, ◌==◌, arith, inl, inr, Bool-cases,
}
use credential_gateway.Common.Texts.{codes}
use credential_gateway.Common.Words.{of_be}
use credential_gateway.Net.Exit.{
  Exit, failed, panicked, fail_if, slice_from, md5_too_short, no_mechanism, startup_too_short,
  unexpected_protocol,
}
use credential_gateway.Net.Exit.Action.{Action}
use credential_gateway.Net.Exit.Ends.{Ends, Ends-never, Ends-fail_if, Ends-bind, Ends-slice_from}
use credential_gateway.Net.Exit.Fuel.{
  Spends, Spends-pure, Spends-lift, Spends-bind, EndsBelow, EndsBelow-then, EndsBelow-if,
  EndsBelow-counted, EndsBelow-round, EndsBelow-zero, EndsBelow-lift,
}
use credential_gateway.Net.World.{World}
use credential_gateway.Net.World.Fuel.{
  unread, Spends-write, Spends-on_upstream, Spends-on_client, Spends-dial, EndsBelow-pipe,
}
use credential_gateway.Postgres.Startup.{parse_sasl_mechanisms, parse_params}
use credential_gateway.Postgres.Startup.Params.{parse_params-failed}
use credential_gateway.Postgres.Replies.{parse_error}
use credential_gateway.Config.Types.{PostgresService}
use credential_gateway.Postgres.Scram.Exchange.{auth_type, has_type}
use credential_gateway.Postgres.Handle.{
  is_ssl_request, after_ssl_reject, read_client_startup, contains, forward_startup, answer_md5,
  answer_sasl, accepted, answer_auth, answer_message, auth_loop, begin, handle,
}
use credential_gateway.Postgres.Handle.Spends.{
  error_loop-failed, mechanisms-Ends, read_message-Spends, read_startup-Spends,
  write_startup-Spends, write_message-Spends, do_scram-Spends,
}

-- The loop up to ReadyForQuery: every round takes a message.
forward_startup-EndsBelow : (f : ℕ) → EndsBelow unread f (forward_startup f)
unfolding forward_startup
forward_startup-EndsBelow zero = EndsBelow-zero _
forward_startup-EndsBelow (suc f) =
    EndsBelow-round f (Spends-on_upstream 1 read_message-Spends) λ msg.
      EndsBelow-then f (Spends-on_client 0 (write_message-Spends msg))
        λ _. EndsBelow-if f (has_type b'Z' msg) (EndsBelow-pipe f) (forward_startup-EndsBelow f)

auth_type-Ends : (msg : Bytes) → Ends (auth_type msg)
auth_type-Ends msg = elim (Bool-cases (ltb (length msg) 5)) [ inl e ↦ rw e tt | inr e ↦ rw e tt ]

parse_error-Ends : (msg : Bytes) → Ends (parse_error msg)
unfolding parse_error
parse_error-Ends msg =
    Ends-bind (slice_from 1 msg) _ (Ends-slice_from 1 msg)
      λ body. Ends-never _ (λ e. error_loop-failed (length body) body e (omega arith))

module _ (random : ℕ → Exit Bytes) (cfg : PostgresService) (h : (f : ℕ) → Ends (random f)) where
  accepted-EndsBelow : (n : ℕ) (msg : Bytes) → EndsBelow unread n (accepted random cfg msg)
  accepted-EndsBelow n msg =
      EndsBelow-then n (Spends-on_client 0 (write_message-Spends msg))
        λ _. EndsBelow-counted n forward_startup forward_startup-EndsBelow

  module _ (f : ℕ) (msg : Bytes) (next : Action World (ℕ × ℕ)) (k : EndsBelow unread f next) where
    answer_md5-EndsBelow : EndsBelow unread f (answer_md5 random cfg msg next)
    answer_md5-EndsBelow =
        EndsBelow-then f
          (Spends-lift (fail_if (ltb (length msg) 9) md5_too_short) (Ends-fail_if _ _ (λ q. cc)))
          λ _. EndsBelow-then f (Spends-on_upstream 0 (write_message-Spends _)) λ _. k

    answer_sasl-EndsBelow : EndsBelow unread f (answer_sasl random cfg f msg next)
    answer_sasl-EndsBelow =
        EndsBelow-then f (Spends-lift (parse_sasl_mechanisms (drop 5 msg)) (mechanisms-Ends _))
          λ names.
            EndsBelow-then f
              (Spends-lift (fail_if (not (contains (codes "SCRAM-SHA-256") names)) no_mechanism)
                (Ends-fail_if _ _ (λ q. cc)))
              λ _.
                EndsBelow-then f
                  (Spends-on_upstream 0 (do_scram-Spends (random f) cfg.password (h f))) λ _. k

    answer_auth-EndsBelow : (code : ℕ) → EndsBelow unread f (answer_auth random cfg f msg code next)
    unfolding answer_auth
    answer_auth-EndsBelow code = EndsBelow-if f (code == 0) (accepted-EndsBelow f msg) (
        EndsBelow-if f (code == 5) answer_md5-EndsBelow (
          EndsBelow-if f (code == 10) answer_sasl-EndsBelow (
            EndsBelow-if f (code == 11) (EndsBelow-lift f (failed _) (λ q. cc)) (
              EndsBelow-if f (code == 12) (EndsBelow-lift f (failed _) (λ q. cc))
                (EndsBelow-lift f (failed _) (λ q. cc))))))

  answer_message-EndsBelow :
      (f : ℕ) (msg : Bytes) (next : Action World (ℕ × ℕ))
      → EndsBelow unread f next
      → EndsBelow unread f (answer_message random cfg f msg next)
  unfolding answer_message
  answer_message-EndsBelow f [] next k = EndsBelow-lift f panicked tt
  answer_message-EndsBelow f (t ∷ body) next k =
      EndsBelow-if f (t == b'R')
        (EndsBelow-then f (Spends-lift (auth_type (t ∷ body)) (auth_type-Ends (t ∷ body)))
          λ code. answer_auth-EndsBelow f (t ∷ body) next k code)
        (EndsBelow-if f (t == b'E')
          (EndsBelow-then f (Spends-lift (parse_error (t ∷ body)) (parse_error-Ends (t ∷ body)))
            λ text. EndsBelow-lift f (failed _) (λ q. cc))
          (EndsBelow-lift f (failed _) (λ q. cc)))

  auth_loop-EndsBelow : (f : ℕ) → EndsBelow unread f (auth_loop random cfg f)
  unfolding auth_loop
  auth_loop-EndsBelow zero = EndsBelow-zero _
  auth_loop-EndsBelow (suc f) =
      EndsBelow-round f (Spends-on_upstream 1 read_message-Spends)
        λ msg. answer_message-EndsBelow f msg (auth_loop random cfg f) (auth_loop-EndsBelow f)

  read_client_startup-Spends : Spends unread 0 read_client_startup
  unfolding read_client_startup after_ssl_reject
  read_client_startup-Spends =
      Spends-bind 0 0 (Spends-on_client 0 read_startup-Spends) λ startup. after startup
    where
      after : (startup : Bytes) → Spends unread 0 (after_ssl_reject startup)
      after startup = elim (Bool-cases (is_ssl_request startup)) [
        | inl e ↦ rw e (
            Spends-bind 0 0 (Spends-on_client 0 (Spends-write _))
              λ _. Spends-on_client 0 read_startup-Spends)
        | inr e ↦ rw e (Spends-pure startup)
      ]

  handle-EndsBelow : (n : ℕ) → EndsBelow unread n (handle random cfg)
  unfolding handle begin
  handle-EndsBelow n = EndsBelow-then n read_client_startup-Spends λ startup.
      EndsBelow-then n
        (Spends-lift (fail_if (ltb (length startup) 4) startup_too_short)
          (Ends-fail_if _ _ (λ q. cc)))
        λ _.
          EndsBelow-then n
            (Spends-lift
              (fail_if (not (of_be (take 4 startup) == 196608))
                (unexpected_protocol (of_be (take 4 startup))))
              (Ends-fail_if _ _ (λ q. cc)))
            λ _.
              EndsBelow-then n
                (Spends-lift (parse_params (drop 4 startup))
                  (Ends-never _ (parse_params-failed (drop 4 startup))))
                λ params. EndsBelow-then n Spends-dial λ _.
                  EndsBelow-then n (Spends-on_upstream 0 (write_startup-Spends _))
                    λ _. EndsBelow-counted n (auth_loop random cfg) auth_loop-EndsBelow

-- Whatever the peers send, and whatever value or error of its own the random source gives, `handle`
-- ends as the code does: it reaches the pipe, returns early or panics, and none of its loops over
-- messages, parameters, mechanisms or error fields runs out of rounds.
pub handle-Ends :
    (random : ℕ → Exit Bytes) (cfg : PostgresService) (w : World)
    → ((f : ℕ) → Ends (random f))
    → Ends (handle random cfg w).0
handle-Ends random cfg w h = (handle-EndsBelow random cfg h (suc (unread w))).at w (omega arith)
