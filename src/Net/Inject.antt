-- ===== src/Net/Inject.antt =====
-- What a handler may have sent to the upstream, whatever the peers do: rules for each step.
pub mod Sends
use credential_gateway.Common.{◌≡◌, sym, ap, ◌∙◌, Bytes, ◌++◌, append_assoc, inl, inr, Bool-cases}
use credential_gateway.Net.Exit.{Exit, done, failed, panicked}
use credential_gateway.Net.Exit.Action.{Action}
use credential_gateway.Net.Exit.Ensures.{Holds, Ensures}
use credential_gateway.Net.Conn.{Conn}
use credential_gateway.Net.Conn.Roles.{ReadOn, Reads, Sent, Cut, Writes}
use credential_gateway.Net.Conn.Takes.{Took, Takes}
use credential_gateway.Net.World.{World, on_client, on_upstream, dial}
use credential_gateway.Net.Pipe.{pipe}
use credential_gateway.Net.Pipe.Relay.{pipe-Relays}

-- `before` is what the upstream had been sent, and `stream` what the client sends in all.
-- `Allowed` holds of what may be sent in a run that stops, or of a continuation of it;
-- `Complete` of what the client's stream and the upstream carried when the pipe begins.
module _ (before stream : Bytes) (Allowed : Bytes → Type 0)
    (Complete : Bytes → Bytes → Type 0) where
  -- So far `consumed` was read from the client, and exactly `sent` was sent to the upstream.
  pub record Injected (consumed sent : Bytes) (w : World) : Type 0 where
    pub appended : w.upstream.sent ≡ before ++ sent
    pub split : stream ≡ consumed ++ w.client.inbound

  -- The run ended early.
  pub record Stopped (w : World) : Type 0 where
    pub consumed : Bytes
    pub sent : Bytes
    pub rest : Bytes
    pub permitted : Allowed (sent ++ rest)
    pub injected : Injected consumed sent w

  -- The run ended with the pipe, which sent `moved`, the client's bytes behind `consumed`.
  pub record Relayed (w : World) : Type 0 where
    pub consumed : Bytes
    pub sent : Bytes
    pub moved : Bytes
    pub left : Bytes
    pub complete : Complete consumed sent
    pub appended : w.upstream.sent ≡ before ++ (sent ++ moved)
    pub split : stream ≡ consumed ++ (moved ++ left)

  -- `sent` is the beginning of something that is allowed.
  pub record May (sent : Bytes) : Type 0 where
    pub rest : Bytes
    pub permitted : Allowed (sent ++ rest)

  module _ (consumed sent : Bytes) where
    pub stop : {w : World} → May sent → Injected consumed sent w → Stopped w
    stop m i = record {
      consumed = consumed;
      sent = sent;
      rest = m.rest;
      permitted = m.permitted;
      injected = i;
    }

    pub inject-dial :
        May sent → Ensures (Injected consumed sent) dial (λ _. Injected consumed sent) Stopped
    unfolding dial
    inject-dial m = record {
      at = λ w i. elim (Bool-cases w.reachable) [
        | inl e ↦ rw e (record { appended = i.appended; split = i.split })
        | inr e ↦ rw e (stop m (record { appended = i.appended; split = i.split }))
      ];
    }

    upstream_read :
        {A : Type 0} (w : World) (o : Exit A × Conn)
        → May sent
        → Injected consumed sent w
        → ReadOn w.upstream o.1
        → Holds (λ _. Injected consumed sent) Stopped (o.0, record w { upstream = o.1 })
    upstream_read w (done a, c) m i r = record { appended = r.silent ∙ i.appended; split = i.split }
    upstream_read w (failed e, c) m i r =
        stop m (record { appended = r.silent ∙ i.appended; split = i.split })
    upstream_read w (panicked, c) m i r =
        stop m (record { appended = r.silent ∙ i.appended; split = i.split })

    pub inject-on_upstream :
        {A : Type 0} (m : Action Conn A)
        → Reads m
        → May sent
        → Ensures (Injected consumed sent) (on_upstream m) (λ _. Injected consumed sent) Stopped
    inject-on_upstream m r may = record {
      at = λ w i. upstream_read w (m w.upstream) may i (r.at w.upstream);
    }

    client_written :
        (bs : Bytes) (w : World) (o : Exit (Unit {0}) × Conn)
        → May sent
        → Injected consumed sent w
        → Holds (λ _. Sent bs w.client) (Cut bs w.client) o
        → Holds (λ _. Injected consumed sent) Stopped (o.0, record w { client = o.1 })
    client_written bs w (done u, c) m i s = record {
      appended = i.appended;
      split = i.split ∙ ap (λ x. consumed ++ x) (sym s.unread);
    }
    client_written bs w (failed e, c) m i s = stop m (record {
      appended = i.appended;
      split = i.split ∙ ap (λ x. consumed ++ x) (sym s.sent.unread);
    })
    client_written bs w (panicked, c) m i s = stop m (record {
      appended = i.appended;
      split = i.split ∙ ap (λ x. consumed ++ x) (sym s.sent.unread);
    })

    pub inject-on_client :
        (bs : Bytes) (m : Action Conn (Unit {0}))
        → Writes bs m
        → May sent
        → Ensures (Injected consumed sent) (on_client m) (λ _. Injected consumed sent) Stopped
    inject-on_client bs m r may = record {
      at = λ w i. client_written bs w (m w.client) may i (r.at w.client);
    }

    client_read :
        {A : Type 0} (K : A → Bytes → Type 0) (w : World) (o : Exit A × Conn)
        → May sent
        → Injected consumed sent w
        → Holds (Took K w.client) (ReadOn w.client) o
        → Holds
            (λ a v. (x : Bytes) × K a x × Injected (consumed ++ x) sent v)
            Stopped
            (o.0, record w { client = o.1 })
    client_read K w (done a, c) m i (x, k, e, _) = (
      x,
      k,
      record {
        appended = i.appended;
        split = i.split ∙ ap (λ s. consumed ++ s) e ∙ sym (append_assoc consumed x c.inbound);
      },
    )
    client_read K w (failed f, c) m i r = record {
      consumed = consumed ++ r.consumed;
      sent = sent;
      rest = m.rest;
      permitted = m.permitted;
      injected = record {
        appended = i.appended;
        split =
            i.split
            ∙ ap (λ s. consumed ++ s) r.split
            ∙ sym (append_assoc consumed r.consumed c.inbound);
      };
    }
    client_read K w (panicked, c) m i r = record {
      consumed = consumed ++ r.consumed;
      sent = sent;
      rest = m.rest;
      permitted = m.permitted;
      injected = record {
        appended = i.appended;
        split =
            i.split
            ∙ ap (λ s. consumed ++ s) r.split
            ∙ sym (append_assoc consumed r.consumed c.inbound);
      };
    }

    pub inject-take :
        {A : Type 0} (K : A → Bytes → Type 0) (m : Action Conn A)
        → Takes K m
        → May sent
        → Ensures
            (Injected consumed sent)
            (on_client m)
            (λ a v. (x : Bytes) × K a x × Injected (consumed ++ x) sent v)
            Stopped
    inject-take K m t may = record {
      at = λ w i. client_read K w (m w.client) may i (t.at w.client);
    }
