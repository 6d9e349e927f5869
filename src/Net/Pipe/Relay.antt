-- ===== src/Net/Pipe/Relay.antt =====
-- What a pipe delivers.
use credential_gateway.Common.{
  ℕ, ◌+◌, ◌≡◌, refl, sym, ap, ◌∙◌, Bytes, true, List, [], ◌∷◌, ◌++◌, length, take, drop, max, arith,
  inl, inr, Bool-cases, append-nil, append_assoc, length-append, length-take, take-append-drop,
}
use credential_gateway.Common.Texts.{is_empty}
use credential_gateway.Net.Exit.{done}
use credential_gateway.Net.Conn.{Conn, write}
use credential_gateway.Net.Conn.Laws.{write_sent}
use credential_gateway.Net.World.{Side, client, upstream, World}
use credential_gateway.Net.Pipe.{copy_round, Piping, pipe_round, pipe_loop, pipe}

-- The bytes of `source` that were delivered, behind what `before` had been sent: a prefix of the
-- stream, as it was, and the count grew by its length.
pub record Delivers (source before after : Bytes) (count total : ℕ) : Type 0 where
  pub moved : Bytes
  pub left : Bytes
  pub prefix : source ≡ moved ++ left
  pub appended : after ≡ before ++ moved
  pub counted : total ≡ count + length moved

Delivers-none :
    (source before after : Bytes) (n m : ℕ)
    → after ≡ before
    → m ≡ n
    → Delivers source before after n m
Delivers-none source before after n m e h = record {
  moved = [];
  left = source;
  prefix = refl;
  appended = e ∙ sym (append-nil before);
  counted = omega arith;
}

-- A round that goes on, then the rest of the copy.
Delivers-append :
    (front whole source before mid after : Bytes) (n k total : ℕ)
    → whole ≡ front ++ source
    → mid ≡ before ++ front
    → k ≡ length front
    → Delivers source mid after (n + k) total
    → Delivers whole before after n total
Delivers-append front whole source before mid after n k total hs hm hk d = record {
  moved = front ++ d.moved;
  left = d.left;
  prefix = hs ∙ ap (λ s. front ++ s) d.prefix ∙ sym (append_assoc front d.moved d.left);
  appended = d.appended ∙ rw hm (append_assoc before front d.moved);
  counted = omega (arith, length-append front d.moved, d.counted);
}

-- What the other copy did meanwhile.
Delivers-same :
    (source source' before before' after : Bytes) (n total : ℕ)
    → source' ≡ source
    → before' ≡ before
    → Delivers source' before' after n total
    → Delivers source before after n total
Delivers-same source source' before before' after n total hs hb d = record {
  moved = d.moved;
  left = d.left;
  prefix = sym hs ∙ d.prefix;
  appended = d.appended ∙ ap (λ s. s ++ d.moved) hb;
  counted = d.counted;
}

-- A round delivers a prefix of the source's stream, whether or not its write succeeds.
copy_round-Delivers :
    (n k : ℕ) (src dst : Conn)
    → Delivers src.inbound dst.sent
        (copy_round n src dst).dst.sent
        k
        (k + (copy_round n src dst).count)
unfolding copy_round
copy_round-Delivers n k src dst = elim (Bool-cases (is_empty src.inbound)) [
  | inl e ↦ rw e (Delivers-none src.inbound dst.sent _ k _ refl (omega arith))
  | inr e ↦ rw e (record {
    moved = take dst.capacity (take (max 1 n) src.inbound);
    left = drop dst.capacity (take (max 1 n) src.inbound) ++ drop (max 1 n) src.inbound;
    prefix =
        sym (take-append-drop (max 1 n) src.inbound)
        ∙ ap (λ s. s ++ drop (max 1 n) src.inbound)
            (sym (take-append-drop dst.capacity (take (max 1 n) src.inbound)))
        ∙ append_assoc (take dst.capacity (take (max 1 n) src.inbound)) _ _;
    appended = write_sent _ dst;
    counted = omega (arith, length-take dst.capacity (take (max 1 n) src.inbound));
  })
]

-- While the copy goes on, nothing of the stream is lost.
copy_round_more :
    (n : ℕ) (src dst : Conn)
    → (copy_round n src dst).more ≡ true
    → let front = take (max 1 n) src.inbound in
      (src.inbound ≡ front ++ (copy_round n src dst).src.inbound)
      × ((copy_round n src dst).dst.sent ≡ dst.sent ++ front)
      × ((copy_round n src dst).count ≡ length front)
unfolding copy_round write
copy_round_more n src dst h = ground (arith, take-append-drop (max 1 n) src.inbound)

copy_round_keeps :
    (n : ℕ) (src dst : Conn)
    → ((copy_round n src dst).src.sent ≡ src.sent)
      × ((copy_round n src dst).dst.inbound ≡ dst.inbound)
unfolding copy_round write
copy_round_keeps n src dst = ground arith

-- From one state of a pipe to a later one, each way.
pub record Relays (p q : Piping) : Type 0 where
  pub upward :
      Delivers p.world.client.inbound p.world.upstream.sent q.world.upstream.sent p.to_upstream
        q.to_upstream
  pub downward :
      Delivers p.world.upstream.inbound p.world.client.sent q.world.client.sent p.to_client
        q.to_client

Relays-none : (p : Piping) → Relays p p
Relays-none p = record {
  upward = Delivers-none _ _ _ _ _ refl refl;
  downward = Delivers-none _ _ _ _ _ refl refl;
}

pipe_round-Relays : (side : Side) (n : ℕ) (p : Piping) → Relays p (pipe_round side n p).1
unfolding pipe_round
pipe_round-Relays client n p =
    let (sent, _) = copy_round_keeps n p.world.client p.world.upstream in
    record {
      upward = copy_round-Delivers n p.to_upstream p.world.client p.world.upstream;
      downward = Delivers-none _ _ _ _ _ sent refl;
    }
pipe_round-Relays upstream n p =
    let (sent, _) = copy_round_keeps n p.world.upstream p.world.client in
    record {
      upward = Delivers-none _ _ _ _ _ sent refl;
      downward = copy_round-Delivers n p.to_client p.world.upstream p.world.client;
    }

-- A round that goes on, then whatever the later rounds relay.
pipe_round_more-Relays :
    (side : Side) (n : ℕ) (p q : Piping)
    → (pipe_round side n p).0 ≡ true
    → Relays (pipe_round side n p).1 q
    → Relays p q
unfolding pipe_round
pipe_round_more-Relays client n p q h r =
    let (whole, mid, k) = copy_round_more n p.world.client p.world.upstream h in
    let (sent, inbound) = copy_round_keeps n p.world.client p.world.upstream in
    record {
      upward = Delivers-append _ _ _ _ _ _ _ _ _ whole mid k r.upward;
      downward = Delivers-same _ _ _ _ _ _ _ inbound sent r.downward;
    }
pipe_round_more-Relays upstream n p q h r =
    let (whole, mid, k) = copy_round_more n p.world.upstream p.world.client h in
    let (sent, inbound) = copy_round_keeps n p.world.upstream p.world.client in
    record {
      upward = Delivers-same _ _ _ _ _ _ _ inbound sent r.upward;
      downward = Delivers-append _ _ _ _ _ _ _ _ _ whole mid k r.downward;
    }

pipe_loop-Relays : (rounds : List (Side × ℕ)) (p : Piping) → Relays p (pipe_loop rounds p)
unfolding pipe_loop
pipe_loop-Relays [] p = Relays-none p
pipe_loop-Relays ((side, n) ∷ rounds) p = elim (Bool-cases (pipe_round side n p).0) [
  | inl more ↦
      rw more
        (pipe_round_more-Relays side n p _ more (pipe_loop-Relays rounds (pipe_round side n p).1))
  | inr last ↦ rw last (pipe_round-Relays side n p)
]

abbrev pub piped : World → ℕ × ℕ → Piping
piped w (up, down) = record { world = w; to_upstream = up; to_client = down }

-- Whatever the schedule, each side has been sent, behind what it had before, a prefix of the other
-- side's stream as it was, and the two counts are the lengths of these.
pub pipe-Relays :
    (w : World) → (n : ℕ × ℕ) × ((pipe w).0 ≡ done n) × Relays (piped w (0, 0)) (piped (pipe w).1 n)
unfolding pipe
pipe-Relays w = (_, refl, pipe_loop-Relays w.schedule (piped w (0, 0)))
