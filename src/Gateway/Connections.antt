-- ===== src/Gateway/Connections.antt =====
-- The accept loops of the proxies (`accept` of internal/gateway/mysql.go, redis.go, postgres.go
-- and oracle.go), `safeHandle` of internal/gateway/safehandle.go, and `acceptConn` and `close` of
-- internal/gateway/pipe.go: what connections do, one beside the other.
pub mod Correlation
use credential_gateway.Common.{
  ℕ, ◌+◌, ◌%◌, ◌^◌, ◌≡◌, Bytes, Bool, true, false, List, [], ◌∷◌, ◌++◌, ◌==◌, if◌then◌else◌,
}
use credential_gateway.Net.Exit.{Exit, done, failed, panicked}
use credential_gateway.Net.Exit.Action.{Action}
use credential_gateway.Net.World.{World}

-- `connLog`, without its logger and its time.
pub record ConnLog : Type 0 where
  pub proxy : Bytes
  pub id : ℕ
  pub addr : Bytes

-- The lines of the log that tell of a connection, with the bytes copied each way.
pub data Line : Type 0 where
  accepted : ConnLog → Line
  closed : ConnLog → ℕ → ℕ → Line
  recovered : Bytes → Line

-- A goroutine: the listener it came from, the client's address, and what its handler will find.
pub record Goroutine : Type 0 where
  pub listener : ℕ
  pub addr : Bytes
  pub world : World

-- A goroutine whose handler has logged its connection.
pub record Handling : Type 0 where
  pub listener : ℕ
  pub conn_log : ConnLog
  pub world : World

-- `accepting` says whose accept loop runs, `conn_seq` is `connSeq`; the log's latest line comes
-- first.
pub record Served : Type 0 where
  pub accepting : ℕ → Bool
  pub conn_seq : ℕ
  pub started : List Goroutine
  pub handling : List Handling
  pub log : List Line

abbrev pub without_listener : ℕ → (ℕ → Bool) → ℕ → Bool
without_listener n accepting m = if m == n then false else accepting m

-- `acceptConn`, which a handler calls first. A `uint64` counts.
abbrev pub next_id : Served → ℕ
next_id s = (s.conn_seq + 1) % 2 ^ 64

-- `proxy` is a listener's name in the log.
abbrev pub conn_log_of : (ℕ → Bytes) → Goroutine → Served → ConnLog
conn_log_of proxy g s = record { proxy = proxy g.listener; id = next_id s; addr = g.addr }

unfoldable pub accept_conn : (ℕ → Bytes) → Goroutine → Served → Served
accept_conn proxy g s = record s {
  conn_seq = next_id s;
  handling =
      record { listener = g.listener; conn_log = conn_log_of proxy g s; world = g.world }
      ∷ s.handling;
  log = accepted (conn_log_of proxy g s) ∷ s.log;
}

-- `(*connLog).close`, which a handler calls behind the pipe.
abbrev pub close_line : ConnLog → ℕ × ℕ → Line
close_line c (to_upstream, to_client) = closed c to_upstream to_client

-- `safeHandle`: a panic of the handler is recovered and logged, without the connection's id.
unfoldable pub safe_handle : ConnLog → Exit (ℕ × ℕ) → List Line
safe_handle c (done n) = close_line c n ∷ []
safe_handle c (failed e) = []
safe_handle c panicked = recovered c.proxy ∷ []

-- A handler closes its client's connection when it returns or panics, and `safeHandle` closes it
-- once more behind a panic: with the end of its goroutine it is no longer in `handling`.
-- A handler's run, from behind `acceptConn` up to the end of its goroutine.
unfoldable pub finish : (ℕ → Action World (ℕ × ℕ)) → Handling → Served → Served
unfolding safe_handle
finish handle h s = record s { log = safe_handle h.conn_log (handle h.listener h.world).0 ++ s.log }

-- `handle` gives each listener's handler.
module _ (proxy : ℕ → Bytes) (handle : ℕ → Action World (ℕ × ℕ)) where
  -- What may happen next, in any order: the accept loop of a listener starts a goroutine; one of
  -- the goroutines gets to `acceptConn`, or to its end; an error of `Accept`, from a `Close` or
  -- not, ends an accept loop.
  pub data Step : Served → Served → Type 0 where
    accepts :
        (g : Goroutine) (s : Served)
        → s.accepting g.listener ≡ true
        → Step s (record s { started = g ∷ s.started })
    begins :
        (g : Goroutine) (before behind : List Goroutine) (s : Served)
        → s.started ≡ before ++ (g ∷ behind)
        → Step s (accept_conn proxy g (record s { started = before ++ behind }))
    finishes :
        (h : Handling) (before behind : List Handling) (s : Served)
        → s.handling ≡ before ++ (h ∷ behind)
        → Step s (finish handle h (record s { handling = before ++ behind }))
    loop_ends :
        (n : ℕ) (s : Served) → Step s (record s { accepting = without_listener n s.accepting })

  pub data Reach (s : Served) : Served → Type 0 where
    here : Reach s s
    next : {t u : Served} → Reach s t → Step t u → Reach s u

-- After `Start`, before any client.
abbrev pub fresh : (ℕ → Bool) → Served
fresh accepting = record {
  accepting = accepting;
  conn_seq = 0;
  started = [];
  handling = [];
  log = [];
}
