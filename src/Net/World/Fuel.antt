-- ===== src/Net/World/Fuel.antt =====
-- What the calls on the two connections spend of the upstream's stream.
use credential_gateway.Common.{ℕ, Bytes, length, leb, length-drop, arith, inl, inr, Bool-cases}
use credential_gateway.Common.Texts.{is_empty}
use credential_gateway.Net.Exit.{Exit, done, failed, panicked}
use credential_gateway.Net.Exit.Action.{Action}
use credential_gateway.Net.Exit.Fuel.{Spent, Spends, EndsBelow}
use credential_gateway.Net.Conn.{Conn, read_full, write}
use credential_gateway.Net.World.{World, on_client, on_upstream, dial}
use credential_gateway.Net.Pipe.{pipe}

-- What is left to read of a connection, and of the upstream's.
abbrev pub left : Conn → ℕ
left c = length c.inbound

abbrev pub unread : World → ℕ
unread w = length w.upstream.inbound

pub Spends-read_full : (n : ℕ) → Spends left n (read_full n)
unfolding read_full
Spends-read_full n = record {
  at = λ c. elim (Bool-cases (leb n (length c.inbound))) [
    | inl e ↦ rw e (ground (arith, length-drop n c.inbound))
    | inr e ↦
        rw e (elim (Bool-cases (is_empty c.inbound)) [
          | inl k ↦ rw k (λ q. cc)
          | inr k ↦ rw k (λ q. cc)
        ])
  ];
}

pub Spends-write : (bs : Bytes) → Spends left 0 (write bs)
unfolding write
Spends-write bs = record {
  at = λ c. elim (Bool-cases (leb (length bs) c.capacity)) [
    | inl e ↦ rw e (omega arith)
    | inr e ↦ rw e (λ q. cc)
  ];
}

module _ {A : Type 0} where
  Spent-upstream :
      (k : ℕ) (w : World) (n : ℕ) (o : Exit A × Conn)
      → Spent left k n o
      → Spent unread k n (o.0, record w { upstream = o.1 })
  Spent-upstream k w n (done a, c) h = h
  Spent-upstream k w n (failed e, c) h = h
  Spent-upstream k w n (panicked, c) h = h

  pub Spends-on_upstream :
      (k : ℕ) {m : Action Conn A} → Spends left k m → Spends unread k (on_upstream m)
  Spends-on_upstream k {m} h = record {
    at = λ w. Spent-upstream k w (left w.upstream) (m w.upstream) (h.at w.upstream);
  }

  Spent-client :
      (k : ℕ) (w : World) (n : ℕ) (o : Exit A × Conn)
      → Spent left k n o
      → Spent unread 0 (unread w) (o.0, record w { client = o.1 })
  Spent-client k w n (done a, c) h = omega arith
  Spent-client k w n (failed e, c) h = h
  Spent-client k w n (panicked, c) h = h

  pub Spends-on_client :
      (k : ℕ) {m : Action Conn A} → Spends left k m → Spends unread 0 (on_client m)
  Spends-on_client k {m} h = record {
    at = λ w. Spent-client k w (left w.client) (m w.client) (h.at w.client);
  }

pub Spends-dial : Spends unread 0 dial
unfolding dial
Spends-dial = record {
  at = λ w. elim (Bool-cases w.reachable) [ inl e ↦ rw e (omega arith) | inr e ↦ rw e (λ q. cc) ];
}

pub EndsBelow-pipe : (n : ℕ) → EndsBelow unread n pipe
unfolding pipe
EndsBelow-pipe n = record { at = λ w _. tt }
