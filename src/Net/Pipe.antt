-- ===== src/Net/Pipe.antt =====
-- `pipe` of internal/gateway/pipe.go: the two `io.Copy` loops between client and upstream.
pub mod Drained
pub mod Relay
use credential_gateway.Common.{
  ℕ, ◌+◌, Bytes, Bool, true, false, List, [], ◌∷◌, length, take, drop, min, max, if◌then◌else◌,
}
use credential_gateway.Common.Texts.{is_empty}
use credential_gateway.Net.Exit.{Exit, done, failed, panicked}
use credential_gateway.Net.Exit.Action.{Action}
use credential_gateway.Net.Conn.{Conn, write}
use credential_gateway.Net.World.{Side, client, upstream, World}

-- The two ends of one copy after a round, the bytes it wrote, and whether the copy goes on.
pub record Copied : Type 0 where
  pub src : Conn
  pub dst : Conn
  pub count : ℕ
  pub more : Bool

abbrev pub is_done {ℓ} : {A : Type ℓ} → Exit A → Bool
is_done (done a) = true
is_done (failed e) = false
is_done panicked = false

-- One round of `io.Copy(dst, src)`: a read of at most `n` bytes, and a write of what it read.
unfoldable pub copy_round : ℕ → Conn → Conn → Copied
copy_round n src dst =
    if is_empty src.inbound
    then record { src = src; dst = dst; count = 0; more = false }
    else let bs = take (max 1 n) src.inbound in
      let (r, dst') = write bs dst in
      record {
        src = record src { inbound = drop (max 1 n) src.inbound };
        dst = dst';
        count = min (length bs) dst.capacity;
        more = is_done r;
      }

-- How the pipe stands: the world, and the bytes written each way.
pub record Piping : Type 0 where
  pub world : World
  pub to_upstream : ℕ
  pub to_client : ℕ

-- One round of one of the two copies; the flag says whether both go on.
unfoldable pub pipe_round : Side → ℕ → Piping → Bool × Piping
pipe_round client n p =
    let c = copy_round n p.world.client p.world.upstream in
    (
      c.more,
      record p {
        world = record (p.world) { client = c.src; upstream = c.dst };
        to_upstream = p.to_upstream + c.count;
      },
    )
pipe_round upstream n p =
    let c = copy_round n p.world.upstream p.world.client in
    (
      c.more,
      record p {
        world = record (p.world) { upstream = c.src; client = c.dst };
        to_client = p.to_client + c.count;
      },
    )

-- The rounds in the order of the schedule. When either copy ends both connections are closed,
-- and so the other ends too; a schedule that ends first is a connection that breaks there.
unfoldable pub pipe_loop : List (Side × ℕ) → Piping → Piping
pipe_loop [] p = p
pipe_loop ((side, n) ∷ rounds) p =
    let (more, p') = pipe_round side n p in
    let rest = pipe_loop rounds p' in if more then rest else p'

-- `pipe(client, upstream, clientSrc)`: the bytes copied each way. `clientSrc` reads the client's
-- stream from where the handler left it.
unfoldable pub pipe : Action World (ℕ × ℕ)
pipe w =
    let p = pipe_loop w.schedule (record { world = w; to_upstream = 0; to_client = 0 }) in
    (done (p.to_upstream, p.to_client), p.world)
