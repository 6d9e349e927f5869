-- ===== src/Oracle/Handle/Isolation.antt =====
-- What of the client's bytes can reach the upstream.
use credential_gateway.Common.{ℕ, suc, refl, sym, Bytes, not, [], length, append-nil, ◌==◌}
use credential_gateway.Net.Exit.{fail_if, unexpected_type}
use credential_gateway.Net.Exit.Ensures.{
  Holds, Ensures, Ensures-bind, Ensures-lift, Ensures-some, Ensures-counted,
}
use credential_gateway.Net.World.{World}
use credential_gateway.Net.Inject.{
  Stopped, Relayed, stop, inject-dial, inject-on_client, inject-take,
}
use credential_gateway.Net.Inject.Sends.{inject-send, inject-pipe}
use credential_gateway.Config.Types.{OracleService}
use credential_gateway.Oracle.Tns.Roles.{IsTns, read_tns-Takes, write_tns-Writes}
use credential_gateway.Oracle.Ttc.{build_connect}
use credential_gateway.Oracle.Handle.{connect_loop, relay, handle}
use credential_gateway.Oracle.Handle.Session.{connects, Stage, connecting, Authorised}
use credential_gateway.Oracle.Handle.Logins.{LoggedIn, do_auth-Ensures}
use credential_gateway.Oracle.Handle.Stages.{
  Early, Reached, Piped, none_yet, may, Connected, connect_loop-Ensures,
}

module _ (to_upper : Bytes → Bytes) (cfg : OracleService) (before stream : Bytes) where
  -- What follows the client's CONNECT.
  relay-Ensures :
      (p : ℕ × Bytes) (first : Bytes)
      → IsTns p first
      → Ensures
          (Reached to_upper cfg before stream first [])
          (relay to_upper cfg)
          (λ _. (Piped to_upper cfg before stream))
          (Early to_upper cfg before stream)
  unfolding relay
  relay-Ensures p first opened =
      Ensures-bind (λ _. Reached to_upper cfg before stream first [])
        (inject-dial _ _ _ _ first [] (none_yet to_upper cfg before stream))
        λ _.
          Ensures-bind (λ _. Reached to_upper cfg before stream first (connects to_upper cfg 0))
            (inject-send _ _ _ _ first [] _ _ (write_tns-Writes 1 _)
              (may to_upper cfg before stream (connecting 0 refl)))
            λ _.
              Ensures-bind (Connected to_upper cfg before stream first)
                (Ensures-counted (λ f. connect_loop f (build_connect to_upper cfg.service))
                  (λ w. suc (length w.upstream.inbound))
                  (λ f. connect_loop-Ensures to_upper cfg before stream first f 0))
                λ body.
                  Ensures-some
                    (λ n. Reached to_upper cfg before stream first (connects to_upper cfg n))
                    λ n _.
                      let sent = connects to_upper cfg n in
                      Ensures-bind (λ _. Reached to_upper cfg before stream first sent)
                        (inject-on_client _ _ _ _ first sent _ _ (write_tns-Writes 2 body)
                          (may to_upper cfg before stream (connecting n refl)))
                        λ _.
                          Ensures-bind (LoggedIn to_upper cfg before stream)
                            (do_auth-Ensures to_upper cfg before stream n p first opened)
                            λ _.
                              Ensures-some (λ z. Reached to_upper cfg before stream (z.0) (z.1))
                                λ z k. inject-pipe _ _ _ _ (z.0) (z.1) k

  handle-Ensures :
      Ensures
        (Reached to_upper cfg before stream [] [])
        (handle to_upper cfg)
        (λ _. (Piped to_upper cfg before stream))
        (Early to_upper cfg before stream)
  unfolding handle
  handle-Ensures =
      Ensures-bind (λ p w. (x : Bytes) × IsTns p x × Reached to_upper cfg before stream x [] w)
        (inject-take _ _ _ _ [] [] IsTns _ read_tns-Takes (none_yet to_upper cfg before stream))
        λ p.
          Ensures-some (λ x. Reached to_upper cfg before stream x [])
            λ x opened.
              Ensures-bind (λ _. Reached to_upper cfg before stream x [])
                (Ensures-lift (fail_if (not (p.0 == 1)) (unexpected_type (p.0)))
                  (λ w. stop _ _ _ _ x [] (none_yet to_upper cfg before stream)))
                λ _. relay-Ensures p x opened

-- What `handle` may have sent upstream, by how it ended. A run that ends before the pipe has sent
-- a prefix of: the CONNECT packet for the configured service, some number of times; the body of
-- the client's second packet, as DATA; a login with the configured user; a token made from the
-- configured password. A run that reaches the pipe has taken four packets from the client, has
-- sent all of that, with nothing of the first, third and fourth packet, and behind it the bytes
-- that the client sent behind them, in order and unchanged.
pub handle-SendsStages :
    (to_upper : Bytes → Bytes) (cfg : OracleService) (w : World)
    → Holds
        (λ _.
          Relayed w.upstream.sent w.client.inbound
            (Stage to_upper cfg w.client.inbound)
            (Authorised to_upper cfg))
        (Stopped w.upstream.sent w.client.inbound
          (Stage to_upper cfg w.client.inbound)
          (Authorised to_upper cfg))
        (handle to_upper cfg w)
handle-SendsStages to_upper cfg w =
    (handle-Ensures to_upper cfg w.upstream.sent w.client.inbound).at w
      (record { appended = sym (append-nil w.upstream.sent); split = refl })
