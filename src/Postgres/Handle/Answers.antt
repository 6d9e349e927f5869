-- ===== src/Postgres/Handle/Answers.antt =====
-- What the upstream is sent from the startup packet on.
use credential_gateway.Common.{
  ℕ, zero, suc, refl, Bytes, not, [], ◌∷◌, ◌++◌, take, drop, length, append-nil, ◌==◌,
}
use credential_gateway.Common.Texts.{codes}
use credential_gateway.Std.Base64.{encode}
use credential_gateway.Net.Exit.{
  Exit, fail_if, no_mechanism, unexpected_sasl_continue, unexpected_sasl_final,
}
use credential_gateway.Net.Exit.Action.{Action, lift}
use credential_gateway.Net.Exit.Ensures.{
  Ensures, Ensures-bind, Ensures-lift, Ensures-if, Ensures-some, Ensures-weaker, Ensures-counted,
  Ensures-fail, Ensures-panic,
}
use credential_gateway.Net.Conn.Roles.{Reads-lift}
use credential_gateway.Net.World.{World, on_upstream}
use credential_gateway.Net.World.Upstream.{Ensures-upstream_bind}
use credential_gateway.Net.Inject.{
  Injected, Stopped, Relayed, May, stop, inject-on_upstream, inject-on_client,
}
use credential_gateway.Net.Inject.Sends.{inject-send, inject-pipe}
use credential_gateway.Config.Types.{PostgresService}
use credential_gateway.Postgres.Message.Roles.{read_message-Reads, write_message-Writes}
use credential_gateway.Postgres.Startup.{parse_sasl_mechanisms}
use credential_gateway.Postgres.Replies.{parse_error}
use credential_gateway.Postgres.Scram.{read_challenge}
use credential_gateway.Postgres.Scram.Exchange.{auth_type, has_type, sasl_body, signed, do_scram}
use credential_gateway.Postgres.Handle.{
  contains, forward_startup, answer_md5, answer_sasl, accepted, answer_auth, answer_message,
  auth_loop,
}
use credential_gateway.Postgres.Handle.Session.{
  opening, md5_answer, Session, begun, md5_answered, scram_begun, scram_ended, MayOpen, Accepted,
}

module _ (cfg : PostgresService) (before stream : Bytes) where
  abbrev pub Early : World → Type 0
  Early = Stopped before stream (MayOpen cfg) (Accepted cfg)

  abbrev pub Reached : Bytes → Bytes → World → Type 0
  Reached = Injected before stream (MayOpen cfg) (Accepted cfg)

  abbrev pub Piped : World → Type 0
  Piped = Relayed before stream (MayOpen cfg) (Accepted cfg)

  abbrev pub Allowed : Bytes → Type 0
  Allowed = May before stream (MayOpen cfg) (Accepted cfg)

  pub none_yet : Allowed []
  none_yet = record {
    rest = opening cfg [];
    permitted = record { database = []; session = begun refl };
  }

  pub may : {database sent : Bytes} → Session cfg database sent → Allowed sent
  may {database} {sent} s = record {
    rest = [];
    permitted = record { database = database; session = rw (append-nil sent) s };
  }

  module _ (database taken : Bytes) where
    ends : {sent : Bytes} → Session cfg database sent → (w : World) → Reached taken sent w → Early w
    ends s w = stop _ _ _ _ taken _ (may s)

    forward_startup-Ensures :
        (f : ℕ) (sent : Bytes)
        → Session cfg database sent
        → Accepted cfg taken sent
        → Ensures (Reached taken sent) (forward_startup f) (λ _. Piped) Early
    unfolding forward_startup
    forward_startup-Ensures zero sent s k = Ensures-fail _ (ends s)
    forward_startup-Ensures (suc f) sent s k =
        Ensures-bind (λ _. Reached taken sent)
          (inject-on_upstream _ _ _ _ taken sent _ read_message-Reads (may s))
          λ msg.
            Ensures-bind (λ _. Reached taken sent)
              (inject-on_client _ _ _ _ taken sent _ _ (write_message-Writes msg) (may s))
              λ _.
                Ensures-if (has_type b'Z' msg) _ _ (λ _. inject-pipe _ _ _ _ taken sent k)
                  (λ _. forward_startup-Ensures f sent s k)

    do_scram-Ensures :
        (random : Exit Bytes) (sent : Bytes)
        → Session cfg database sent
        → Ensures
            (Reached taken sent)
            (on_upstream (do_scram random cfg.password))
            (λ _ v. (t : Bytes) × Session cfg database t × Reached taken t v)
            Early
    unfolding do_scram
    do_scram-Ensures random sent s =
        Ensures-upstream_bind _ (lift random)
          (inject-on_upstream _ _ _ _ taken sent _ (Reads-lift random) (may s))
          λ bytes.
            let s1 = scram_begun (encode bytes) s refl in
            Ensures-upstream_bind _ _
              (inject-send _ _ _ _ taken sent _ _ (write_message-Writes _) (may s1))
              λ _.
                Ensures-upstream_bind _ _
                  (inject-on_upstream _ _ _ _ taken _ _ read_message-Reads (may s1))
                  λ msg.
                    Ensures-upstream_bind _ (lift (sasl_body unexpected_sasl_continue 11 msg))
                      (inject-on_upstream _ _ _ _ taken _ _ (Reads-lift _) (may s1))
                      λ server_first.
                        Ensures-upstream_bind _ (lift (read_challenge (encode bytes) server_first))
                          (inject-on_upstream _ _ _ _ taken _ _ (Reads-lift _) (may s1))
                          λ c.
                            let s2 = scram_ended (encode bytes) server_first c s refl in
                            Ensures-upstream_bind _ _
                              (inject-send _ _ _ _ taken _ _ _ (write_message-Writes _) (may s2))
                              λ _.
                                Ensures-upstream_bind _ _
                                  (inject-on_upstream _ _ _ _ taken _ _ read_message-Reads (may s2))
                                  λ msg'.
                                    Ensures-upstream_bind _
                                      (lift (sasl_body unexpected_sasl_final 12 msg'))
                                      (inject-on_upstream _ _ _ _ taken _ _ (Reads-lift _) (may s2))
                                      λ server_final.
                                        Ensures-weaker Early (λ _ w i. (_, s2, i))
                                          (inject-on_upstream _ _ _ _ taken _ _
                                            (Reads-lift (
                                              signed cfg.password (encode bytes) server_first c
                                                server_final))
                                            (may s2))

    module _ (k : (sent : Bytes) → Session cfg database sent → Accepted cfg taken sent)
        (random : ℕ → Exit Bytes) where
      abbrev Answers : Action World (ℕ × ℕ) → Type 0
      Answers m =
          (sent : Bytes)
          → Session cfg database sent
          → Ensures (Reached taken sent) m (λ _. Piped) Early

      accepted-Ensures : (msg : Bytes) → Answers (accepted random cfg msg)
      accepted-Ensures msg sent s =
          Ensures-bind (λ _. Reached taken sent)
            (inject-on_client _ _ _ _ taken sent _ _ (write_message-Writes msg) (may s))
            λ _.
              Ensures-counted forward_startup (λ w. suc (length w.upstream.inbound))
                (λ f. forward_startup-Ensures f sent s (k sent s))

      module _ (msg : Bytes) (next : Action World (ℕ × ℕ)) (h : Answers next) where
        answer_md5-Ensures : Answers (answer_md5 random cfg msg next)
        answer_md5-Ensures sent s =
            let salt = take 4 (drop 5 msg) in
            let answered = md5_answered salt s refl in
            Ensures-bind (λ _. Reached taken sent) (Ensures-lift _ (ends s))
              λ _.
                Ensures-bind (λ _. Reached taken (sent ++ md5_answer cfg salt))
                  (inject-send _ _ _ _ taken sent _ _ (write_message-Writes _) (may answered))
                  λ _. h _ answered

        answer_sasl-Ensures : (f : ℕ) → Answers (answer_sasl random cfg f msg next)
        answer_sasl-Ensures f sent s =
            Ensures-bind (λ _. Reached taken sent)
              (Ensures-lift (parse_sasl_mechanisms (drop 5 msg)) (ends s))
              λ mechanisms.
                Ensures-bind (λ _. Reached taken sent)
                  (Ensures-lift
                    (fail_if (not (contains (codes "SCRAM-SHA-256") mechanisms)) no_mechanism)
                    (ends s))
                  λ _.
                    Ensures-bind (λ _ v. (t : Bytes) × Session cfg database t × Reached taken t v)
                      (do_scram-Ensures (random f) sent s)
                      λ _. Ensures-some (λ t. Reached taken t) h

        answer_auth-Ensures : (f code : ℕ) → Answers (answer_auth random cfg f msg code next)
        unfolding answer_auth
        answer_auth-Ensures f code sent s =
            Ensures-if (code == 0) _ _ (λ _. accepted-Ensures msg sent s)
              λ _.
                Ensures-if (code == 5) _ _ (λ _. answer_md5-Ensures sent s)
                  λ _.
                    Ensures-if (code == 10) _ _ (λ _. answer_sasl-Ensures f sent s)
                      λ _.
                        Ensures-if (code == 11) _ _ (λ _. Ensures-fail _ (ends s))
                          λ _.
                            Ensures-if (code == 12) _ _ (λ _. Ensures-fail _ (ends s))
                              λ _. Ensures-fail _ (ends s)

      answer_message-Ensures :
          (f : ℕ) (msg : Bytes) (next : Action World (ℕ × ℕ))
          → Answers next
          → Answers (answer_message random cfg f msg next)
      unfolding answer_message
      answer_message-Ensures f [] next h sent s = Ensures-panic (ends s)
      answer_message-Ensures f (t ∷ body) next h sent s =
          Ensures-if (t == b'R') _ _
            (λ _.
              Ensures-bind (λ _. Reached taken sent) (Ensures-lift (auth_type (t ∷ body)) (ends s))
                λ code. answer_auth-Ensures (t ∷ body) next h f code sent s)
            λ _.
              Ensures-if (t == b'E') _ _
                (λ _.
                  Ensures-bind (λ _. Reached taken sent)
                    (Ensures-lift (parse_error (t ∷ body)) (ends s))
                    λ text. Ensures-fail _ (ends s))
                (λ _. Ensures-fail _ (ends s))

      pub auth_loop-Ensures : (f : ℕ) → Answers (auth_loop random cfg f)
      unfolding auth_loop
      auth_loop-Ensures zero sent s = Ensures-fail _ (ends s)
      auth_loop-Ensures (suc f) sent s =
          Ensures-bind (λ _. Reached taken sent)
            (inject-on_upstream _ _ _ _ taken sent _ read_message-Reads (may s))
            λ msg.
              answer_message-Ensures f msg (auth_loop random cfg f) (auth_loop-Ensures f) sent s
