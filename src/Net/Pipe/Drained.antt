-- ===== src/Net/Pipe/Drained.antt =====
-- internal/gateway/pipe.go: what a pipe has moved when one side's stream is at its end.
use credential_gateway.Common.{
  ℕ, zero, suc, ◌+◌, ◌≤◌, ◌≡◌, refl, sym, ap, ap₂, ◌∙◌, Bytes, true, false, List, [], ◌∷◌, ◌++◌,
  length, take, drop, max, arith, length-take, length-drop,
}
use credential_gateway.Common.Texts.{is_empty}
use credential_gateway.Net.Exit.{done}
use credential_gateway.Net.Conn.{Conn, wrote, with_inbound}
use credential_gateway.Net.Conn.Laws.{write_done, wrote_nil, wrote-wrote}
use credential_gateway.Net.World.{Side, client, upstream, World}
use credential_gateway.Net.Pipe.{copy_round, Piping, pipe_round, pipe_loop, pipe}

-- How many bytes the rounds of each side ask for; a Read takes one at least.
abbrev pub from_client : List (Side × ℕ) → ℕ
from_client [] = 0
from_client ((client, n) ∷ rounds) = max 1 n + from_client rounds
from_client ((upstream, n) ∷ rounds) = from_client rounds

abbrev pub from_upstream : List (Side × ℕ) → ℕ
from_upstream [] = 0
from_upstream ((client, n) ∷ rounds) = from_upstream rounds
from_upstream ((upstream, n) ∷ rounds) = max 1 n + from_upstream rounds

-- The world once that many bytes have gone up and down.
abbrev pub moved : World → ℕ → ℕ → World
moved w up down = record w {
  client = with_inbound (drop up w.client.inbound) (wrote (take down w.upstream.inbound) w.client);
  upstream =
      with_inbound (drop down w.upstream.inbound) (wrote (take up w.client.inbound) w.upstream);
}

-- Both peers have, and take, that many bytes.
pub record Moves (w : World) (up down : ℕ) : Type 0 where
  pub client_has : up ≤ length w.client.inbound
  pub upstream_has : down ≤ length w.upstream.inbound
  pub upstream_takes : up ≤ w.upstream.capacity
  pub client_takes : down ≤ w.client.capacity

abbrev further : Piping → ℕ → ℕ → Piping
further p up down = record {
  world = moved p.world up down;
  to_upstream = p.to_upstream + up;
  to_client = p.to_client + down;
}

nonempty : (bs : Bytes) (n : ℕ) → max 1 n ≤ length bs → is_empty bs ≡ false
nonempty [] n h = absurd (omega (arith, h))
nonempty (b ∷ bs) n h = refl

copy_round_whole :
    (n : ℕ) (src dst : Conn)
    → max 1 n ≤ length src.inbound
    → max 1 n ≤ dst.capacity
    → copy_round n src dst ≡ record {
      src = with_inbound (drop (max 1 n) src.inbound) src;
      dst = wrote (take (max 1 n) src.inbound) dst;
      count = max 1 n;
      more = true;
    }
unfolding copy_round
copy_round_whole n src dst h k =
    let size : length (take (max 1 n) src.inbound) ≡ max 1 n =
      omega (arith, length-take (max 1 n) src.inbound, h) in
    rw
      (
        nonempty src.inbound n h,
        write_done (take (max 1 n) src.inbound) dst (omega (arith, size, k)),
      )
      (ap
        (λ m. record {
          src = with_inbound (drop (max 1 n) src.inbound) src;
          dst = wrote (take (max 1 n) src.inbound) dst;
          count = m;
          more = true;
        })
        (omega (arith, size, k)))

drop_nil : (n : ℕ) → drop {A = ℕ} n [] ≡ []
drop_nil zero = refl
drop_nil (suc n) = refl

take_nil : (n : ℕ) → take {A = ℕ} n [] ≡ []
take_nil zero = refl
take_nil (suc n) = refl

drop_add : (m n : ℕ) (xs : Bytes) → drop n (drop m xs) ≡ drop (m + n) xs
drop_add zero n xs = ap (λ k. drop k xs) (omega arith)
drop_add (suc m) n [] = drop_nil n ∙ sym (drop_nil (suc m + n))
drop_add (suc m) n (x ∷ xs) =
    let e : suc (m + n) ≡ suc m + n = omega arith in drop_add m n xs ∙ ap (λ k. drop k (x ∷ xs)) e

take_add : (m n : ℕ) (xs : Bytes) → take m xs ++ take n (drop m xs) ≡ take (m + n) xs
take_add zero n xs = ap (λ k. take k xs) (omega arith)
take_add (suc m) n [] = take_nil n ∙ sym (take_nil (suc m + n))
take_add (suc m) n (x ∷ xs) =
    let e : suc (m + n) ≡ suc m + n = omega arith in
    ap (λ s. x ∷ s) (take_add m n xs) ∙ ap (λ k. take k (x ∷ xs)) e

conn_twice :
    (c : Conn) (u v : ℕ) (d e : ℕ) (s : Bytes)
    → with_inbound (drop v (drop u c.inbound)) (wrote (take e (drop d s)) (wrote (take d s) c))
      ≡ with_inbound (drop (u + v) c.inbound) (wrote (take (d + e) s) c)
conn_twice c u v d e s =
    ap₂ with_inbound (drop_add u v c.inbound)
      (wrote-wrote (take d s) (take e (drop d s)) c ∙ ap (λ t. wrote t c) (take_add d e s))

further-further :
    (p : Piping) (u d v e : ℕ) → further (further p u d) v e ≡ further p (u + v) (d + e)
further-further p u d v e =
    let w = p.world in
    ap₂ (λ (w' : World) (n : ℕ × ℕ). record { world = w'; to_upstream = n.0; to_client = n.1 })
      (ap₂ (λ (a b : Conn). record w { client = a; upstream = b })
        (conn_twice w.client u v d e w.upstream.inbound)
        (conn_twice w.upstream d e u v w.client.inbound))
      (ap₂ (λ (m n : ℕ). (m, n)) (omega arith) (omega arith))

further_none : (p : Piping) → p ≡ further p 0 0
further_none p =
    let w = p.world in
    ap₂ (λ (w' : World) (n : ℕ × ℕ). record { world = w'; to_upstream = n.0; to_client = n.1 })
      (ap₂ (λ (a b : Conn). record w { client = a; upstream = b }) (wrote_nil w.client)
        (wrote_nil w.upstream))
      (ap₂ (λ (m n : ℕ). (m, n)) (omega arith) (omega arith))

pipe_round_client :
    (n : ℕ) (p : Piping)
    → Moves p.world (max 1 n) 0
    → pipe_round client n p ≡ (true, further p (max 1 n) 0)
unfolding pipe_round
pipe_round_client n p h =
    let w = p.world in
    let src = with_inbound (drop (max 1 n) w.client.inbound) w.client in
    let dst = wrote (take (max 1 n) w.client.inbound) w.upstream in
    rw (copy_round_whole n w.client w.upstream h.client_has h.upstream_takes) (
      ap₂
        (λ (c : Conn) (m : ℕ). (
          true,
          record p {
            world = record w {
              client = with_inbound (drop (max 1 n) w.client.inbound) c;
              upstream = dst;
            };
            to_upstream = p.to_upstream + max 1 n;
            to_client = m;
          },
        ))
        (wrote_nil w.client) (omega arith))

pipe_round_upstream :
    (n : ℕ) (p : Piping)
    → Moves p.world 0 (max 1 n)
    → pipe_round upstream n p ≡ (true, further p 0 (max 1 n))
unfolding pipe_round
pipe_round_upstream n p h =
    let w = p.world in
    rw (copy_round_whole n w.upstream w.client h.upstream_has h.client_takes) (
      ap₂
        (λ (c : Conn) (m : ℕ). (
          true,
          record p {
            world = record w {
              upstream = with_inbound (drop (max 1 n) w.upstream.inbound) c;
              client = wrote (take (max 1 n) w.upstream.inbound) w.client;
            };
            to_upstream = m;
            to_client = p.to_client + max 1 n;
          },
        ))
        (wrote_nil w.upstream) (omega arith))

Moves-moved : (w : World) (u d v e : ℕ) → Moves w (u + v) (d + e) → Moves (moved w u d) v e
Moves-moved w u d v e h = record {
  client_has = omega (arith, h.client_has, length-drop u w.client.inbound);
  upstream_has = omega (arith, h.upstream_has, length-drop d w.upstream.inbound);
  upstream_takes = omega (arith, h.client_has, h.upstream_takes, length-take u w.client.inbound);
  client_takes = omega (arith, h.upstream_has, h.client_takes, length-take d w.upstream.inbound);
}

Moves-fewer : (w : World) (u d v e : ℕ) → u ≤ v → d ≤ e → Moves w v e → Moves w u d
Moves-fewer w u d v e hu hd h = record {
  client_has = omega (arith, hu, h.client_has);
  upstream_has = omega (arith, hd, h.upstream_has);
  upstream_takes = omega (arith, hu, h.upstream_takes);
  client_takes = omega (arith, hd, h.client_takes);
}

-- Rounds that find what they ask for do not end the pipe.
pipe_loop-append :
    (rounds later : List (Side × ℕ)) (p : Piping)
    → Moves p.world (from_client rounds) (from_upstream rounds)
    → pipe_loop (rounds ++ later) p
      ≡ pipe_loop later (further p (from_client rounds) (from_upstream rounds))
unfolding pipe_loop
pipe_loop-append [] later p h = ap (pipe_loop later) (further_none p)
pipe_loop-append ((client, n) ∷ rounds) later p h =
    let u = from_client rounds in
    let d = from_upstream rounds in
    let none : 0 + d ≡ d = omega arith in
    let all = Moves-fewer p.world (max 1 n + u) (0 + d) _ _ (omega arith) (omega arith) h in
    rw (pipe_round_client n p (Moves-fewer p.world _ _ _ _ (omega arith) (omega arith) h)) (
      pipe_loop-append rounds later (further p (max 1 n) 0)
        (Moves-moved p.world (max 1 n) 0 u d all)
      ∙ ap (pipe_loop later)
          (further-further p (max 1 n) 0 u d ∙ ap (further p (max 1 n + u)) none))
pipe_loop-append ((upstream, n) ∷ rounds) later p h =
    let u = from_client rounds in
    let d = from_upstream rounds in
    let none : 0 + u ≡ u = omega arith in
    let all = Moves-fewer p.world (0 + u) (max 1 n + d) _ _ (omega arith) (omega arith) h in
    rw (pipe_round_upstream n p (Moves-fewer p.world _ _ _ _ (omega arith) (omega arith) h)) (
      pipe_loop-append rounds later (further p 0 (max 1 n))
        (Moves-moved p.world 0 (max 1 n) u d all)
      ∙ ap (pipe_loop later)
          (further-further p 0 (max 1 n) u d ∙ ap (λ k. further p k (max 1 n + d)) none))

-- The rounds have asked for all of a side's stream.
abbrev pub IsDrained : Side → List (Side × ℕ) → World → Type 0
IsDrained client rounds w = length w.client.inbound ≡ from_client rounds
IsDrained upstream rounds w = length w.upstream.inbound ≡ from_upstream rounds

all_dropped : (bs : Bytes) (n : ℕ) → length bs ≡ n → drop n bs ≡ []
all_dropped [] zero h = refl
all_dropped [] (suc n) h = refl
all_dropped (b ∷ bs) zero h = absurd (omega (arith, h))
all_dropped (b ∷ bs) (suc n) h = all_dropped bs n (omega (arith, h))

copy_round_ended :
    (n : ℕ) (src dst : Conn)
    → src.inbound ≡ []
    → copy_round n src dst ≡ record { src = src; dst = dst; count = 0; more = false }
unfolding copy_round
copy_round_ended n src dst h = let e : is_empty src.inbound ≡ true = ap is_empty h in rw e refl

client_ended :
    (n : ℕ) (q : Piping) → q.world.client.inbound ≡ [] → pipe_round client n q ≡ (false, q)
unfolding pipe_round
client_ended n q h =
    rw (copy_round_ended n q.world.client q.world.upstream h)
      (ap (λ (m : ℕ). (false, record q { to_upstream = m })) (omega arith))

upstream_ended :
    (n : ℕ) (q : Piping) → q.world.upstream.inbound ≡ [] → pipe_round upstream n q ≡ (false, q)
unfolding pipe_round
upstream_ended n q h =
    rw (copy_round_ended n q.world.upstream q.world.client h)
      (ap (λ (m : ℕ). (false, record q { to_client = m })) (omega arith))

last_round :
    (side : Side) (n : ℕ) (rounds : List (Side × ℕ)) (p : Piping)
    → IsDrained side rounds p.world
    → pipe_round side n (further p (from_client rounds) (from_upstream rounds))
      ≡ (false, further p (from_client rounds) (from_upstream rounds))
last_round client n rounds p h = client_ended n _ (all_dropped p.world.client.inbound _ h)
last_round upstream n rounds p h = upstream_ended n _ (all_dropped p.world.upstream.inbound _ h)

-- While no Read asks for more than there is and no write fails, each round delivers what it asks
-- for; the first Read that finds a side's stream at its end ends the pipe, whatever rounds were
-- to come. Then each side has been sent exactly as much of the other's stream, from its start on
-- and in order, as the rounds of the other side asked for, all of it of the side that ended, and
-- the two counts are these lengths.
pub pipe_drained :
    (w : World) (rounds later : List (Side × ℕ)) (side : Side) (n : ℕ)
    → w.schedule ≡ rounds ++ ((side, n) ∷ later)
    → Moves w (from_client rounds) (from_upstream rounds)
    → IsDrained side rounds w
    → pipe w ≡ (
      done (from_client rounds, from_upstream rounds),
      moved w (from_client rounds) (from_upstream rounds),
    )
unfolding pipe pipe_loop
pipe_drained w rounds later side n e h k =
    let start : Piping = record { world = w; to_upstream = 0; to_client = 0 } in
    let end : pipe_loop w.schedule start
        ≡ further start (from_client rounds) (from_upstream rounds) =
      ap (λ r. pipe_loop r start) e
      ∙ pipe_loop-append rounds ((side, n) ∷ later) start h
      ∙ rw (last_round side n rounds start k) refl in
    ap (λ (q : Piping). (done (q.to_upstream, q.to_client), q.world)) end
    ∙ ap₂ (λ (u d : ℕ). (done (u, d), moved w (from_client rounds) (from_upstream rounds)))
        (omega arith) (omega arith)
