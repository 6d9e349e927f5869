-- ===== src/Oracle/Handle/Logins.antt =====
-- What the upstream is sent from the negotiation to the end of the login.
use credential_gateway.Common.{ℕ, refl, Bytes, not, ◌&&◌, ◌++◌, ◌==◌}
use credential_gateway.Net.Exit.{fail_if, auth_rejected}
use credential_gateway.Net.Exit.Ensures.{
  Ensures, Ensures-bind, Ensures-lift, Ensures-some, Ensures-weaker,
}
use credential_gateway.Net.World.{World}
use credential_gateway.Net.Inject.{inject-on_upstream, inject-on_client, inject-take}
use credential_gateway.Net.Inject.Sends.{inject-send}
use credential_gateway.Config.Types.{OracleService}
use credential_gateway.Oracle.Tns.Roles.{
  IsTns, IsData, read_tns-Takes, read_tns-Reads, read_data-Takes, read_data-Reads, write_tns-Writes,
}
use credential_gateway.Oracle.Ttc.{extract_salt, is_auth_ok}
use credential_gateway.Oracle.Handle.{check_o3log, negotiate, prove, log_in, do_auth}
use credential_gateway.Oracle.Handle.Session.{
  SecondPacket, connects, with_ns, with_user, with_token, connecting, negotiated, named, proved,
  Authorised,
}
use credential_gateway.Oracle.Handle.Stages.{Early, Reached, may, ends}

module _ (to_upper : Bytes → Bytes) (cfg : OracleService) (before stream : Bytes) where
  -- The second packet of a client that has been read this far.
  second :
      (p : ℕ × Bytes) (first x ns sent : Bytes) (w : World)
      → IsTns p first
      → IsData ns x
      → Reached to_upper cfg before stream (first ++ x) sent w
      → SecondPacket stream ns
  second p first x ns sent w opened k i = record {
    connect = p;
    first = first;
    second = x;
    rest = w.client.inbound;
    opened = opened;
    data_ = k;
    split = i.split;
  }

  -- Whoever has sent the token is let through.
  abbrev pub LoggedIn : Unit {0} → World → Type 0
  LoggedIn u w =
      (z : Bytes × Bytes) × Authorised to_upper cfg (z.0) (z.1)
      × Reached to_upper cfg before stream (z.0) (z.1) w

  module _ (n : ℕ) (p : ℕ × Bytes) (first : Bytes) (opened : IsTns p first) where
    -- What the client's second packet is known to be.
    abbrev HasSecond : Bytes × Bytes → Type 0
    HasSecond z = IsData (z.0) (z.1) × SecondPacket stream (z.0)

    negotiate-Ensures :
        Ensures
          (Reached to_upper cfg before stream first (connects to_upper cfg n))
          negotiate
          (λ _ w.
            (z : Bytes × Bytes) × HasSecond z
            × Reached to_upper cfg before stream (first ++ z.1) (with_ns to_upper cfg n (z.0)) w)
          (Early to_upper cfg before stream)
    unfolding negotiate
    negotiate-Ensures =
        let sent = connects to_upper cfg n in
        let s = connecting n refl in
        Ensures-bind (λ _. Reached to_upper cfg before stream first sent)
          (inject-on_upstream _ _ _ _ first sent _ read_data-Reads
            (may to_upper cfg before stream s))
          λ ns.
            Ensures-bind (λ _. Reached to_upper cfg before stream first sent)
              (inject-on_client _ _ _ _ first sent _ _ (write_tns-Writes 6 ns)
                (may to_upper cfg before stream s))
              λ _.
                Ensures-bind
                  (λ body w.
                    (x : Bytes) × (IsData body x × SecondPacket stream body)
                    × Reached to_upper cfg before stream (first ++ x) sent w)
                  (Ensures-weaker (Early to_upper cfg before stream)
                    (λ body w (x, k, i). (x, (k, second p first x body sent w opened k i), i))
                    (inject-take _ _ _ _ first sent IsData _ read_data-Takes
                      (may to_upper cfg before stream s)))
                  λ body.
                    Ensures-some (λ x. Reached to_upper cfg before stream (first ++ x) sent)
                      λ x k.
                        Ensures-weaker (Early to_upper cfg before stream)
                          (λ _ w i. ((body, x), k, i))
                          (inject-send _ _ _ _ (first ++ x) sent _ _ (write_tns-Writes 6 body)
                            (may to_upper cfg before stream (negotiated n body (k.1) refl)))

    module _ (ns x y o3log : Bytes) (k : IsData ns x) (snd : SecondPacket stream ns)
        (login : IsData o3log y) where
      abbrev before_token : Bytes
      before_token = (first ++ x) ++ y

      prove-Ensures :
          Ensures
            (Reached to_upper cfg before stream before_token (with_user to_upper cfg n ns))
            (prove cfg)
            LoggedIn
            (Early to_upper cfg before stream)
      unfolding prove
      prove-Ensures =
          let sent = with_user to_upper cfg n ns in
          let s = named n ns snd refl in
          Ensures-bind (λ _. Reached to_upper cfg before stream before_token sent)
            (inject-on_upstream _ _ _ _ before_token sent _ read_data-Reads
              (may to_upper cfg before stream s))
            λ session.
              let salt = extract_salt session in
              let sent1 = with_token to_upper cfg n ns salt in
              let s1 = proved n ns salt snd refl in
              Ensures-bind (λ _. Reached to_upper cfg before stream before_token sent)
                (inject-on_client _ _ _ _ before_token sent _ _ (write_tns-Writes 6 _)
                  (may to_upper cfg before stream s))
                λ _.
                  Ensures-bind
                    (λ q w.
                      (v : Bytes) × IsTns q v
                      × Reached to_upper cfg before stream (before_token ++ v) sent w)
                    (inject-take _ _ _ _ before_token sent IsTns _ read_tns-Takes
                      (may to_upper cfg before stream s))
                    λ q.
                      Ensures-some
                        (λ v. Reached to_upper cfg before stream (before_token ++ v) sent)
                        λ v proof.
                          Ensures-bind
                            (λ _. Reached to_upper cfg before stream (before_token ++ v) sent1)
                            (inject-send _ _ _ _ (before_token ++ v) sent _ _ (write_tns-Writes 6 _)
                              (may to_upper cfg before stream s1))
                            λ _.
                              Ensures-bind
                                (λ _. Reached to_upper cfg before stream (before_token ++ v) sent1)
                                (inject-on_upstream _ _ _ _ (before_token ++ v) sent1 _
                                  read_tns-Reads (may to_upper cfg before stream s1))
                                λ r.
                                  Ensures-bind
                                    (λ _.
                                      Reached to_upper cfg before stream (before_token ++ v) sent1)
                                    (Ensures-lift
                                      (fail_if (not (r.0 == 6 && is_auth_ok (r.1))) auth_rejected)
                                      (ends to_upper cfg before stream s1))
                                    λ _.
                                      Ensures-weaker (Early to_upper cfg before stream)
                                        (λ _ w i. (
                                          (before_token ++ v, sent1),
                                          record {
                                            connect = p;
                                            ns = ns;
                                            o3log = o3log;
                                            o3auth = q;
                                            first = first;
                                            second = x;
                                            third = y;
                                            fourth = v;
                                            opened = opened;
                                            data_ = k;
                                            login = login;
                                            proof = proof;
                                            taken = refl;
                                            resends = n;
                                            salt = salt;
                                            bytes = refl;
                                          },
                                          i,
                                        ))
                                        (inject-on_client _ _ _ _ (before_token ++ v) sent1 _ _
                                          (write_tns-Writes 6 _)
                                          (may to_upper cfg before stream s1))

    log_in-Ensures :
        (z : Bytes × Bytes)
        → HasSecond z
        → Ensures
            (Reached to_upper cfg before stream (first ++ z.1) (with_ns to_upper cfg n (z.0)))
            (log_in cfg)
            LoggedIn
            (Early to_upper cfg before stream)
    unfolding log_in
    log_in-Ensures (ns, x) (k, snd) =
        let sent = with_ns to_upper cfg n ns in
        let s = negotiated n ns snd refl in
        Ensures-bind
          (λ o3log w.
            (y : Bytes) × IsData o3log y
            × Reached to_upper cfg before stream ((first ++ x) ++ y) sent w)
          (inject-take _ _ _ _ (first ++ x) sent IsData _ read_data-Takes
            (may to_upper cfg before stream s))
          λ o3log.
            Ensures-some (λ y. Reached to_upper cfg before stream ((first ++ x) ++ y) sent)
              λ y login.
                Ensures-bind (λ _. Reached to_upper cfg before stream ((first ++ x) ++ y) sent)
                  (Ensures-lift (check_o3log o3log) (ends to_upper cfg before stream s))
                  λ _.
                    Ensures-bind
                      (λ _.
                        Reached to_upper cfg before stream ((first ++ x) ++ y)
                          (with_user to_upper cfg n ns))
                      (inject-send _ _ _ _ ((first ++ x) ++ y) sent _ _ (write_tns-Writes 6 _)
                        (may to_upper cfg before stream (named n ns snd refl)))
                      λ _. prove-Ensures ns x y o3log k snd login

    pub do_auth-Ensures :
        Ensures
          (Reached to_upper cfg before stream first (connects to_upper cfg n))
          (do_auth cfg)
          LoggedIn
          (Early to_upper cfg before stream)
    unfolding do_auth
    do_auth-Ensures =
        Ensures-bind
          (λ _ w.
            (z : Bytes × Bytes) × HasSecond z
            × Reached to_upper cfg before stream (first ++ z.1) (with_ns to_upper cfg n (z.0)) w)
          negotiate-Ensures
          λ _.
            Ensures-some
              (λ z.
                Reached to_upper cfg before stream (first ++ z.1) (with_ns to_upper cfg n (z.0)))
              log_in-Ensures
