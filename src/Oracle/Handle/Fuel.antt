-- ===== src/Oracle/Handle/Fuel.antt =====
-- The CONNECT loop of the Oracle proxy does not run out of rounds.
use credential_gateway.Common.{
  ℕ, zero, suc, ◌-◌, Bytes, not, ◌&&◌, [], ◌∷◌, length, take, get_or, ltb, ◌==◌, arith, inl, inr,
  Bool-cases,
}
use credential_gateway.Common.Texts.{is_empty}
use credential_gateway.Common.Words.{of_be}
use credential_gateway.Net.Exit.{failed, fail_if, unexpected_type, auth_rejected}
use credential_gateway.Net.Exit.Ends.{Ends, Ends-fail_if}
use credential_gateway.Net.Exit.Fuel.{
  Spends, Spends-pure, Spends-lift, Spends-bind, Spends-weaker, EndsBelow, Spends-EndsBelow,
  EndsBelow-then, EndsBelow-if, EndsBelow-counted, EndsBelow-after, EndsBelow-round, EndsBelow-zero,
  EndsBelow-lift,
}
use credential_gateway.Net.World.{World}
use credential_gateway.Net.World.Fuel.{
  left, unread, Spends-read_full, Spends-write, Spends-on_upstream, Spends-on_client, Spends-dial,
  EndsBelow-pipe,
}
use credential_gateway.Config.Types.{OracleService}
use credential_gateway.Oracle.Tns.{read_body, write_body, read_tns, write_tns, read_data}
use credential_gateway.Oracle.Ttc.{build_connect, is_auth_ok}
use credential_gateway.Oracle.Handle.{
  refuse, answer_connect, connect_loop, check_o3log, negotiate, prove, log_in, do_auth, relay,
  handle,
}

Spends-read_body : (n : ℕ) → Spends left 0 (read_body n)
Spends-read_body zero = Spends-pure []
Spends-read_body (suc n) = Spends-weaker (suc n) 0 (omega arith) (Spends-read_full (suc n))

Spends-write_body : (body : Bytes) → Spends left 0 (write_body body)
Spends-write_body [] = Spends-pure tt
Spends-write_body (b ∷ bs) = Spends-write (b ∷ bs)

read_tns-Spends : Spends left 1 read_tns
unfolding read_tns
read_tns-Spends = Spends-weaker 8 1 (omega arith) (
    Spends-bind 8 0 (Spends-read_full 8) λ hdr.
      Spends-bind 0 0 (Spends-lift _ (Ends-fail_if _ _ (λ q. cc)))
        λ _. Spends-bind 0 0 (Spends-read_body (of_be (take 2 hdr) - 8)) λ body. Spends-pure _)

read_data-Spends : Spends left 0 read_data
unfolding read_data
read_data-Spends = Spends-bind 0 0 (Spends-weaker 1 0 (omega arith) read_tns-Spends) λ p.
    Spends-bind 0 0
      (Spends-lift _ (Ends-fail_if (not (p.0 == 6)) (unexpected_type (p.0)) (λ q. cc)))
      λ _. Spends-pure (p.1)

write_tns-Spends : (t : ℕ) (body : Bytes) → Spends left 0 (write_tns t body)
unfolding write_tns
write_tns-Spends t body = Spends-bind 0 0 (Spends-write _) λ _. Spends-write_body body

refuse-EndsBelow : (n : ℕ) (body : Bytes) → EndsBelow unread n (refuse body)
unfolding refuse
refuse-EndsBelow n body = record { at = λ w l. λ q. cc }

connect_loop-EndsBelow : (connect : Bytes) (f : ℕ) → EndsBelow unread f (connect_loop f connect)
unfolding connect_loop answer_connect
connect_loop-EndsBelow connect zero = EndsBelow-zero _
connect_loop-EndsBelow connect (suc f) =
    EndsBelow-round f (Spends-on_upstream 1 read_tns-Spends) λ p.
      EndsBelow-if f (p.0 == 11)
        (EndsBelow-then f (Spends-on_upstream 0 (write_tns-Spends 1 connect))
          λ _. connect_loop-EndsBelow connect f)
        (EndsBelow-if f (p.0 == 4) (refuse-EndsBelow f (p.1)) (
          EndsBelow-if f (p.0 == 2)
            (EndsBelow-if f (is_empty (p.1)) (connect_loop-EndsBelow connect f)
              (Spends-EndsBelow 0 f (Spends-pure (p.1))))
            (EndsBelow-lift f (failed (unexpected_type (p.0))) (λ q. cc))))

-- `tnsRead` and `tnsWrite` come to an end of their own, and so do the calls made of them.
check_o3log-Ends : (body : Bytes) → Ends (check_o3log body)
check_o3log-Ends body = elim (Bool-cases (ltb (length body) 3)) [
  | inl e ↦ rw e tt
  | inr e ↦ rw e (Ends-fail_if (not (get_or body 2 0 == 0x76)) _ (λ q. cc))
]

do_auth-Spends : (cfg : OracleService) → Spends unread 0 (do_auth cfg)
unfolding do_auth negotiate log_in prove
do_auth-Spends cfg =
    Spends-bind 0 0
      (Spends-bind 0 0 (Spends-on_upstream 0 read_data-Spends) λ ns.
        Spends-bind 0 0 (Spends-on_client 0 (write_tns-Spends 6 ns)) λ _.
          Spends-bind 0 0 (Spends-on_client 0 read_data-Spends)
            λ response. Spends-on_upstream 0 (write_tns-Spends 6 response))
      λ _. Spends-bind 0 0 (Spends-on_client 0 read_data-Spends) λ o3log.
        Spends-bind 0 0 (Spends-lift (check_o3log o3log) (check_o3log-Ends o3log)) λ _.
          Spends-bind 0 0 (Spends-on_upstream 0 (write_tns-Spends 6 _)) λ _.
            Spends-bind 0 0 (Spends-on_upstream 0 read_data-Spends) λ session.
              Spends-bind 0 0 (Spends-on_client 0 (write_tns-Spends 6 _)) λ _.
                Spends-bind 0 0 (Spends-on_client 1 read_tns-Spends) λ o3auth.
                  Spends-bind 0 0 (Spends-on_upstream 0 (write_tns-Spends 6 _)) λ _.
                    Spends-bind 0 0
                      (Spends-weaker 1 0 (omega arith) (Spends-on_upstream 1 read_tns-Spends))
                      λ r.
                        Spends-bind 0 0
                          (Spends-lift (fail_if (not (r.0 == 6 && is_auth_ok (r.1))) auth_rejected)
                            (Ends-fail_if _ _ (λ q. cc)))
                          λ _. Spends-on_client 0 (write_tns-Spends 6 _)

relay-EndsBelow :
    (to_upper : Bytes → Bytes) (cfg : OracleService) (n : ℕ)
    → EndsBelow unread n (relay to_upper cfg)
unfolding relay
relay-EndsBelow to_upper cfg n = EndsBelow-then n Spends-dial λ _.
    EndsBelow-then n (Spends-on_upstream 0 (write_tns-Spends 1 _)) λ _.
      EndsBelow-after n
        (EndsBelow-counted n (λ f. connect_loop f (build_connect to_upper cfg.service))
          (connect_loop-EndsBelow (build_connect to_upper cfg.service)))
        λ body k.
          EndsBelow-then k (Spends-on_client 0 (write_tns-Spends 2 body))
            λ _. EndsBelow-then k (do_auth-Spends cfg) λ _. EndsBelow-pipe k

handle-EndsBelow :
    (to_upper : Bytes → Bytes) (cfg : OracleService) (n : ℕ)
    → EndsBelow unread n (handle to_upper cfg)
unfolding handle
handle-EndsBelow to_upper cfg n = EndsBelow-then n (Spends-on_client 1 read_tns-Spends) λ p.
    EndsBelow-then n
      (Spends-lift (fail_if (not (p.0 == 1)) (unexpected_type (p.0))) (Ends-fail_if _ _ (λ q. cc)))
      λ _. relay-EndsBelow to_upper cfg n

-- Whatever the peers send, and however often the listener asks for the CONNECT packet again,
-- `handle` ends as the code does: it reaches the pipe, returns early or panics, and its loop does
-- not run out of rounds.
pub handle-Ends :
    (to_upper : Bytes → Bytes) (cfg : OracleService) (w : World) → Ends (handle to_upper cfg w).0
handle-Ends to_upper cfg w = (handle-EndsBelow to_upper cfg (suc (unread w))).at w (omega arith)
