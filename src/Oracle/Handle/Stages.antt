-- ===== src/Oracle/Handle/Stages.antt =====
-- What the upstream is sent up to the answer to CONNECT.
use credential_gateway.Common.{ℕ, zero, suc, refl, Bytes, [], append-nil, ◌==◌}
use credential_gateway.Common.Texts.{is_empty}
use credential_gateway.Net.Exit.Ensures.{
  Ensures, Ensures-bind, Ensures-if, Ensures-drop, Ensures-fail,
}
use credential_gateway.Net.World.{World}
use credential_gateway.Net.Inject.{
  Injected, Stopped, Relayed, May, stop, inject-on_upstream, inject-on_client,
}
use credential_gateway.Net.Inject.Sends.{inject-send}
use credential_gateway.Config.Types.{OracleService}
use credential_gateway.Oracle.Tns.Roles.{read_tns-Reads, write_tns-Writes}
use credential_gateway.Oracle.Ttc.{build_connect}
use credential_gateway.Oracle.Handle.{refuse, answer_connect, connect_loop}
use credential_gateway.Oracle.Handle.Session.{connects, Stage, connecting, Authorised}

module _ (to_upper : Bytes → Bytes) (cfg : OracleService) (before stream : Bytes) where
  abbrev pub Early : World → Type 0
  Early = Stopped before stream (Stage to_upper cfg stream) (Authorised to_upper cfg)

  abbrev pub Reached : Bytes → Bytes → World → Type 0
  Reached = Injected before stream (Stage to_upper cfg stream) (Authorised to_upper cfg)

  abbrev pub Piped : World → Type 0
  Piped = Relayed before stream (Stage to_upper cfg stream) (Authorised to_upper cfg)

  abbrev pub Allowed : Bytes → Type 0
  Allowed = May before stream (Stage to_upper cfg stream) (Authorised to_upper cfg)

  pub none_yet : Allowed []
  none_yet = record { rest = connects to_upper cfg 0; permitted = connecting 0 refl }

  pub may : {sent : Bytes} → Stage to_upper cfg stream sent → Allowed sent
  may {sent} s = record { rest = []; permitted = rw (append-nil sent) s }

  pub ends :
      {taken sent : Bytes}
      → Stage to_upper cfg stream sent
      → (w : World) → Reached taken sent w
      → Early w
  ends s w = stop _ _ _ _ _ _ (may s)

  -- Some CONNECT packets were sent.
  abbrev pub Connected : Bytes → Bytes → World → Type 0
  Connected taken body w = (n : ℕ) × Unit {0} × Reached taken (connects to_upper cfg n) w

  module _ (taken : Bytes) where
    refuse-Ensures :
        (n : ℕ) (body : Bytes)
        → Ensures (Reached taken (connects to_upper cfg n)) (refuse body) (Connected taken) Early
    unfolding refuse
    refuse-Ensures n body =
        let s = connecting n refl in
        Ensures-drop (λ _. Reached taken (connects to_upper cfg n)) _
          (inject-on_client _ _ _ _ taken _ _ _ (write_tns-Writes 4 body) (may s)) (λ _ v. ends s v)

    pub connect_loop-Ensures :
        (f n : ℕ)
        → Ensures
            (Reached taken (connects to_upper cfg n))
            (connect_loop f (build_connect to_upper cfg.service))
            (Connected taken)
            Early
    unfolding connect_loop answer_connect
    connect_loop-Ensures zero n = Ensures-fail _ (ends (connecting n refl))
    connect_loop-Ensures (suc f) n =
        let sent = connects to_upper cfg n in
        Ensures-bind (λ _. Reached taken sent)
          (inject-on_upstream _ _ _ _ taken sent _ read_tns-Reads (may (connecting n refl)))
          λ p.
            Ensures-if (p.0 == 11) _ _
              (λ _.
                Ensures-bind (λ _. Reached taken (connects to_upper cfg (suc n)))
                  (inject-send _ _ _ _ taken sent _ _ (write_tns-Writes 1 _)
                    (may (connecting (suc n) refl)))
                  λ _. connect_loop-Ensures f (suc n))
              λ _.
                Ensures-if (p.0 == 4) _ _ (λ _. refuse-Ensures n (p.1))
                  λ _.
                    Ensures-if (p.0 == 2) _ _
                      (λ _.
                        Ensures-if (is_empty (p.1)) _ _ (λ _. connect_loop-Ensures f n)
                          (λ _. record { at = λ w i. (n, tt, i) }))
                      (λ _. Ensures-fail _ (ends (connecting n refl)))
