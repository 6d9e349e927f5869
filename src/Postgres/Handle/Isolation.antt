-- ===== src/Postgres/Handle/Isolation.antt =====
-- What of the client's bytes can reach the upstream.
use credential_gateway.Common.{
  ℕ, suc, ◌≡◌, refl, sym, Bytes, not, [], ◌++◌, take, drop, length, append-nil, ltb, ◌==◌,
}
use credential_gateway.Common.Words.{of_be}
use credential_gateway.Net.Exit.{
  Exit, done, failed, panicked, fail_if, startup_too_short, unexpected_protocol,
}
use credential_gateway.Net.Exit.Action.{lift, ◌>>=◌}
use credential_gateway.Net.Exit.Ensures.{
  Holds, Ensures, Ensures-bind, Ensures-lift, Ensures-if, Ensures-some, Ensures-weaker,
  Ensures-counted, Ensures-fail, Ensures-panic,
}
use credential_gateway.Net.Conn.Roles.{Writes-write}
use credential_gateway.Net.World.{World}
use credential_gateway.Net.Inject.{
  Stopped, Relayed, stop, inject-dial, inject-on_client, inject-take,
}
use credential_gateway.Net.Inject.Sends.{inject-send}
use credential_gateway.Config.Types.{PostgresService}
use credential_gateway.Postgres.Message.Roles.{IsStartup, write_startup-Writes, read_startup-Takes}
use credential_gateway.Postgres.Startup.{Params, parse_params}
use credential_gateway.Postgres.Handle.{
  is_ssl_request, after_ssl_reject, read_client_startup, chosen_database, auth_loop, begin, handle,
}
use credential_gateway.Postgres.Handle.Session.{
  opening, begun, MayOpen, Opened, direct, after_ssl, Accepted,
}
use credential_gateway.Postgres.Handle.Answers.{
  Early, Reached, Piped, none_yet, may, auth_loop-Ensures,
}

module _ (cfg : PostgresService) (before stream : Bytes) where
  after_ssl_reject-Ensures :
      (startup taken : Bytes)
      → IsStartup startup taken
      → Ensures
          (Reached cfg before stream taken [])
          (after_ssl_reject startup)
          (λ body v. (x : Bytes) × Opened body x × Reached cfg before stream x [] v)
          (Early cfg before stream)
  unfolding after_ssl_reject
  after_ssl_reject-Ensures startup taken is_startup =
      Ensures-if (is_ssl_request startup) _ _
        (λ e.
          Ensures-bind (λ _. Reached cfg before stream taken [])
            (inject-on_client _ _ _ _ taken [] _ _ (Writes-write _) (none_yet cfg before stream))
            λ _.
              Ensures-weaker (Early cfg before stream)
                (λ body w (x, k, i). (taken ++ x, after_ssl is_startup e k refl, i))
                (inject-take _ _ _ _ taken [] IsStartup _ read_startup-Takes
                  (none_yet cfg before stream)))
        (λ e. record { at = λ w i. (taken, direct is_startup, i) })

  read_client_startup-Ensures :
      Ensures
        (Reached cfg before stream [] [])
        read_client_startup
        (λ body v. (x : Bytes) × Opened body x × Reached cfg before stream x [] v)
        (Early cfg before stream)
  unfolding read_client_startup
  read_client_startup-Ensures =
      Ensures-bind (λ body v. (x : Bytes) × IsStartup body x × Reached cfg before stream x [] v)
        (inject-take _ _ _ _ [] [] IsStartup _ read_startup-Takes (none_yet cfg before stream))
        λ startup.
          Ensures-some (λ x. Reached cfg before stream x []) (after_ssl_reject-Ensures startup)

  -- What follows the client's startup.
  begin-Ensures :
      (random : ℕ → Exit Bytes) (startup taken : Bytes) (params : Params)
      → Opened startup taken
      → parse_params (drop 4 startup) ≡ done params
      → Ensures
          (Reached cfg before stream taken [])
          (begin random cfg params)
          (λ _. (Piped cfg before stream))
          (Early cfg before stream)
  unfolding begin
  begin-Ensures random startup taken params opened parsed =
      let database = chosen_database cfg params in
      Ensures-bind (λ _. Reached cfg before stream taken [])
        (inject-dial _ _ _ _ taken [] (none_yet cfg before stream))
        λ _.
          Ensures-bind (λ _. Reached cfg before stream taken (opening cfg database))
            (inject-send _ _ _ _ taken [] _ _ (write_startup-Writes _)
              (may cfg before stream {database = database} (begun refl)))
            λ _.
              Ensures-counted (auth_loop random cfg) (λ w. suc (length w.upstream.inbound))
                (λ f.
                  auth_loop-Ensures cfg before stream database taken
                    (λ sent s. record {
                      startup = startup;
                      opened = opened;
                      params = params;
                      parsed = parsed;
                      session = s;
                    })
                    random f _ (begun refl))

  parsed-Ensures :
      (random : ℕ → Exit Bytes) (startup taken : Bytes)
      → Opened startup taken
      → (o : Exit Params) → parse_params (drop 4 startup) ≡ o
      → Ensures
          (Reached cfg before stream taken [])
          (lift o >>= begin random cfg)
          (λ _. (Piped cfg before stream))
          (Early cfg before stream)
  parsed-Ensures random startup taken opened (done params) e =
      begin-Ensures random startup taken params opened e
  parsed-Ensures random startup taken opened (failed x) e =
      Ensures-fail x (λ w. stop _ _ _ _ taken [] (none_yet cfg before stream))
  parsed-Ensures random startup taken opened panicked e =
      Ensures-panic (λ w. stop _ _ _ _ taken [] (none_yet cfg before stream))

  handle-Ensures :
      (random : ℕ → Exit Bytes)
      → Ensures
          (Reached cfg before stream [] [])
          (handle random cfg)
          (λ _. (Piped cfg before stream))
          (Early cfg before stream)
  unfolding handle
  handle-Ensures random =
      Ensures-bind (λ body v. (x : Bytes) × Opened body x × Reached cfg before stream x [] v)
        read_client_startup-Ensures
        λ startup.
          Ensures-some (λ x. Reached cfg before stream x [])
            λ taken opened.
              Ensures-bind (λ _. Reached cfg before stream taken [])
                (Ensures-lift (fail_if (ltb (length startup) 4) startup_too_short)
                  (λ w. stop _ _ _ _ taken [] (none_yet cfg before stream)))
                λ _.
                  Ensures-bind (λ _. Reached cfg before stream taken [])
                    (Ensures-lift
                      (fail_if (not (of_be (take 4 startup) == 196608))
                        (unexpected_protocol (of_be (take 4 startup))))
                      (λ w. stop _ _ _ _ taken [] (none_yet cfg before stream)))
                    λ _.
                      parsed-Ensures random startup taken opened (parse_params (drop 4 startup))
                        refl

-- What `handle` may have sent upstream, by how it ended. A run that ends before the pipe has sent
-- a prefix of a session of the gateway's own: a startup packet with the configured user, and
-- answers computed from the configured password. A run that reaches the pipe has taken one
-- startup packet from the client, behind an SSLRequest perhaps, has sent such a session whole, to
-- the configured database or else the one the client asked for, and behind it the bytes that the
-- client sent behind its startup packet, in order and unchanged.
pub handle-SendsSession :
    (random : ℕ → Exit Bytes) (cfg : PostgresService) (w : World)
    → Holds
        (λ _. Relayed w.upstream.sent w.client.inbound (MayOpen cfg) (Accepted cfg))
        (Stopped w.upstream.sent w.client.inbound (MayOpen cfg) (Accepted cfg))
        (handle random cfg w)
handle-SendsSession random cfg w =
    (handle-Ensures cfg w.upstream.sent w.client.inbound random).at w
      (record { appended = sym (append-nil w.upstream.sent); split = refl })
