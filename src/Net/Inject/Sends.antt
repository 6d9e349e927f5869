-- ===== src/Net/Inject/Sends.antt =====
-- The steps that send to the upstream: a write, and the pipe.
use credential_gateway.Common.{◌≡◌, sym, ap, ◌∙◌, Bytes, ◌++◌, append_assoc}
use credential_gateway.Net.Exit.{Exit, done, failed, panicked}
use credential_gateway.Net.Exit.Action.{Action}
use credential_gateway.Net.Exit.Ensures.{Holds, Ensures}
use credential_gateway.Net.Conn.{Conn}
use credential_gateway.Net.Conn.Roles.{Sent, Cut, Writes}
use credential_gateway.Net.World.{World, on_upstream}
use credential_gateway.Net.Inject.{Injected, Stopped, Relayed, May}
use credential_gateway.Net.Pipe.{pipe}
use credential_gateway.Net.Pipe.Relay.{pipe-Relays}

module _ (before stream : Bytes) (Allowed : Bytes → Type 0) (Complete : Bytes → Bytes → Type 0)
    (consumed sent : Bytes) where
  -- The states of the section's run: `bs` was sent so far; the run ended early; and what may be
  -- sent begins with `bs`.
  abbrev At : Bytes → World → Type 0
  At bs = Injected before stream Allowed Complete consumed bs

  abbrev Ended : World → Type 0
  Ended = Stopped before stream Allowed Complete

  abbrev Begins : Bytes → Type 0
  Begins = May before stream Allowed Complete

  upstream-Cut :
      (bs : Bytes) (w : World) (c : Conn)
      → Begins (sent ++ bs)
      → At sent w
      → Cut bs w.upstream c
      → Ended (record w { upstream = c })
  upstream-Cut bs w c m i s = record {
    consumed = consumed;
    sent = sent ++ s.part;
    rest = s.rest ++ m.rest;
    permitted = rw (← regroup) m.permitted;
    injected = record {
      appended =
          s.sent.appended ∙ ap (λ x. x ++ s.part) i.appended ∙ append_assoc before sent s.part;
      split = i.split;
    };
  }
    where
      regroup : (sent ++ bs) ++ m.rest ≡ (sent ++ s.part) ++ (s.rest ++ m.rest)
      regroup =
          ap (λ x. (sent ++ x) ++ m.rest) s.split
          ∙ ap (λ x. x ++ m.rest) (sym (append_assoc sent s.part s.rest))
          ∙ append_assoc (sent ++ s.part) s.rest m.rest

  upstream_written :
      (bs : Bytes) (w : World) (o : Exit (Unit {0}) × Conn)
      → Begins (sent ++ bs)
      → At sent w
      → Holds (λ _. Sent bs w.upstream) (Cut bs w.upstream) o
      → Holds (λ _. At (sent ++ bs)) Ended (o.0, record w { upstream = o.1 })
  upstream_written bs w (done u, c) m i s = record {
    appended = s.appended ∙ ap (λ x. x ++ bs) i.appended ∙ append_assoc before sent bs;
    split = i.split;
  }
  upstream_written bs w (failed e, c) m i s = upstream-Cut bs w c m i s
  upstream_written bs w (panicked, c) m i s = upstream-Cut bs w c m i s

  pub inject-send :
      (bs : Bytes) (m : Action Conn (Unit {0}))
      → Writes bs m
      → Begins (sent ++ bs)
      → Ensures (At sent) (on_upstream m) (λ _. At (sent ++ bs)) Ended
  inject-send bs m r may = record {
    at = λ w i. upstream_written bs w (m w.upstream) may i (r.at w.upstream);
  }

  pub inject-pipe :
      Complete consumed sent
      → Ensures (At sent) pipe (λ _. Relayed before stream Allowed Complete) Ended
  unfolding pipe
  inject-pipe k = record {
    at = λ w i.
        let (n, _, r) = pipe-Relays w in
        record {
          consumed = consumed;
          sent = sent;
          moved = r.upward.moved;
          left = r.upward.left;
          complete = k;
          appended =
              r.upward.appended
              ∙ ap (λ x. x ++ r.upward.moved) i.appended
              ∙ append_assoc before sent r.upward.moved;
          split = i.split ∙ ap (λ x. consumed ++ x) r.upward.prefix;
        };
  }
