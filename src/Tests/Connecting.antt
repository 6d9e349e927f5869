-- ===== src/Tests/Connecting.antt =====
-- The life of connections at concrete inputs.
use mathlib.Core.List.{Mem, Nodup}
use credential_gateway.Common.{
  ℕ, ◌≡◌, refl, ap, Bytes, true, false, [], ◌∷◌, length, map, arith, ◌==◌,
}
use credential_gateway.Common.Texts.{codes}
use credential_gateway.Net.Exit.Action.{Action}
use credential_gateway.Net.World.{World, client, upstream}
use credential_gateway.Redis.Handle.{handle}
use credential_gateway.Gateway.Connections.{
  ConnLog, Goroutine, Handling, Served, conn_log_of, accept_conn, finish, Reach, here, next,
  accepts, begins, finishes, fresh,
}
use credential_gateway.Gateway.Connections.Correlation.{
  opened_of, closed_of, opened_of-safe_handle, Reach-Correlates,
}

abbrev proxy_name : ℕ → Bytes
proxy_name n = codes "redis"

abbrev redis_handle : ℕ → Action World (ℕ × ℕ)
redis_handle n = handle 1000 (codes "secret")

abbrev world : World
world = record {
  client = record { inbound = codes "PING\r\n"; capacity = 100; chunk = 6; sent = [] };
  upstream = record { inbound = codes "+OK\r\n+PONG\r\n"; capacity = 100; chunk = 5; sent = [] };
  reachable = true;
  dialled = false;
  schedule = (client, 10) ∷ (upstream, 10) ∷ [];
}

abbrev goroutine : Goroutine
goroutine = record { listener = 0; addr = codes "127.0.0.1:50000"; world = world }

abbrev started_at : Served
started_at = fresh (λ n. n == 0)

abbrev one_started : Served
one_started = record started_at { started = goroutine ∷ [] }

abbrev one_handled : Served
one_handled = accept_conn proxy_name goroutine started_at

abbrev handled : Handling
handled = record {
  listener = 0;
  conn_log = conn_log_of proxy_name goroutine started_at;
  world = world;
}

abbrev one_ended : Served
one_ended = finish redis_handle handled (record one_handled { handling = [] })

ended-Reach : Reach proxy_name redis_handle started_at one_ended
unfolding accept_conn
ended-Reach =
    next
      (next (next here (accepts goroutine started_at refl))
        (begins goroutine [] [] one_started refl))
      (finishes handled [] [] one_handled refl)

few_opened : length (opened_of one_ended.log) ≡ 1
unfolding finish accept_conn
few_opened = ap length (
    opened_of-safe_handle handled.conn_log (redis_handle 0 world).0
      (accept_conn proxy_name goroutine started_at))

Reach-Correlates_example :
    Nodup (map ConnLog.id (opened_of one_ended.log))
    × Nodup (map ConnLog.id (closed_of one_ended.log))
    × ((c : ConnLog) → Mem c (closed_of one_ended.log) → Mem c (opened_of one_ended.log))
Reach-Correlates_example =
    Reach-Correlates proxy_name redis_handle (λ n. n == 0) one_ended ended-Reach
      (omega (arith, few_opened))
