-- ===== src/Gateway/Connections/Correlation.antt =====
-- The lines of a log that tell of one connection have an id of their own.
use mathlib.Core.List.{
  Mem, Nodup, Perm, not-mem-nil, mem-cons, map-append, mem-append_left, Nodup-nil, Nodup-cons,
  perm_middle,
}
use mathlib.Core.List.Perm as Permutation
use mathlib.Core.List.Nodup as Distinct
use mathlib.Core.Logic.Or
use native.Mathlib.Bridge.{le_prop}
use credential_gateway.Common.{
  ℕ, zero, suc, ◌+◌, ◌%◌, ◌^◌, ◌≤◌, ◌<◌, ◌≡◌, refl, Bytes, Bool, List, [], ◌∷◌, ◌++◌, map, length,
  arith, ap₂, subst,
}
use credential_gateway.Net.Exit.{Exit, done, failed, panicked}
use credential_gateway.Net.Exit.Action.{Action}
use credential_gateway.Net.World.{World}
use credential_gateway.Gateway.Connections.{
  ConnLog, Line, accepted, closed, recovered, Goroutine, Handling, Served, conn_log_of, accept_conn,
  finish, safe_handle, Step, accepts, begins, finishes, loop_ends, Reach, here, next, fresh,
}

-- The connections that the accept lines and the close lines of a log tell of.
abbrev pub opened_of : List Line → List ConnLog
opened_of [] = []
opened_of (accepted c ∷ ls) = c ∷ opened_of ls
opened_of (closed c up down ∷ ls) = opened_of ls
opened_of (recovered p ∷ ls) = opened_of ls

abbrev pub closed_of : List Line → List ConnLog
closed_of [] = []
closed_of (accepted c ∷ ls) = closed_of ls
closed_of (closed c up down ∷ ls) = c ∷ closed_of ls
closed_of (recovered p ∷ ls) = closed_of ls

-- No accept line comes of a handler's end.
pub opened_of-safe_handle :
    (c : ConnLog) (o : Exit (ℕ × ℕ)) (s : Served)
    → opened_of (safe_handle c o ++ s.log) ≡ opened_of s.log
unfolding safe_handle
opened_of-safe_handle c (done (up, down)) s = refl
opened_of-safe_handle c (failed e) s = refl
opened_of-safe_handle c panicked s = refl

-- The ids that a `uint64` gives to that many connections, the latest first.
abbrev pub numbered : ℕ → List ℕ
numbered zero = []
numbered (suc n) = suc n % 2 ^ 64 ∷ numbered n

-- Of the connections that were opened, each is still handled, or was closed with a line of its
-- own, or ended without one.
pub record IsAccounted (s : Served) : Type 0 where
  pub ids : map ConnLog.id (opened_of s.log) ≡ numbered (length (opened_of s.log))
  pub count : s.conn_seq ≡ length (opened_of s.log) % 2 ^ 64
  pub dropped : List ConnLog
  pub accounted :
      Perm (opened_of s.log) (closed_of s.log ++ (map Handling.conn_log s.handling ++ dropped))

fresh-IsAccounted : (accepting : ℕ → Bool) → IsAccounted (fresh accepting)
fresh-IsAccounted accepting = record {
  ids = refl;
  count = refl;
  dropped = [];
  accounted = Permutation.refl [];
}

one_more : (n m : ℕ) → n ≡ m % 2 ^ 64 → (n + 1) % 2 ^ 64 ≡ suc m % 2 ^ 64
one_more n m e = omega (arith, e)

accept_conn-IsAccounted :
    (proxy : ℕ → Bytes) (g : Goroutine) (s : Served)
    → IsAccounted s
    → IsAccounted (accept_conn proxy g s)
unfolding accept_conn
accept_conn-IsAccounted proxy g s h = record {
  ids = ap₂ (λ i is. i ∷ is) (one_more s.conn_seq (length (opened_of s.log)) h.count) h.ids;
  count = one_more s.conn_seq (length (opened_of s.log)) h.count;
  dropped = h.dropped;
  accounted =
      Permutation.trans (Permutation.cons (conn_log_of proxy g s) h.accounted)
        (Permutation.symm (perm_middle (closed_of s.log) _));
}

-- One of the connections that are handled, put first.
handled_first :
    (h : Handling) (before behind : List Handling) (shut dropped : List ConnLog)
    → Perm
        (shut ++ (map Handling.conn_log (before ++ (h ∷ behind)) ++ dropped))
        (h.conn_log ∷ (shut ++ (map Handling.conn_log (before ++ behind) ++ dropped)))
handled_first h before behind shut dropped =
    Permutation.trans
      (Permutation.append_left shut (
        Permutation.append_right dropped
          (Permutation.map Handling.conn_log (perm_middle before behind))))
      (perm_middle shut _)

-- A connection that is dropped, put first.
dropped_first :
    (c : ConnLog) (shut handled dropped : List ConnLog)
    → Perm (shut ++ (handled ++ (c ∷ dropped))) (c ∷ (shut ++ (handled ++ dropped)))
dropped_first c shut handled dropped =
    Permutation.trans (Permutation.append_left shut (perm_middle handled dropped))
      (perm_middle shut _)

module _ (h : Handling) (before behind : List Handling) (s : Served) (i : IsAccounted s)
    (e : s.handling ≡ before ++ (h ∷ behind)) where
  left :
      Perm
        (opened_of s.log)
        (h.conn_log ∷ (closed_of s.log ++ (map Handling.conn_log (before ++ behind) ++ i.dropped)))
  left =
      Permutation.trans
        (subst
          (λ hs.
            Perm (opened_of s.log) (closed_of s.log ++ (map Handling.conn_log hs ++ i.dropped)))
          e i.accounted)
        (handled_first h before behind (closed_of s.log) i.dropped)

  lost :
      Perm
        (opened_of s.log)
        (closed_of s.log ++ (map Handling.conn_log (before ++ behind) ++ (h.conn_log ∷ i.dropped)))
  lost = Permutation.trans left (Permutation.symm (dropped_first h.conn_log _ _ _))

  ended-IsAccounted :
      (o : Exit (ℕ × ℕ))
      → IsAccounted
          (record s { handling = before ++ behind; log = safe_handle h.conn_log o ++ s.log })
  unfolding safe_handle
  ended-IsAccounted (done (up, down)) = record {
    ids = i.ids;
    count = i.count;
    dropped = i.dropped;
    accounted = left;
  }
  ended-IsAccounted (failed x) = record {
    ids = i.ids;
    count = i.count;
    dropped = h.conn_log ∷ i.dropped;
    accounted = lost;
  }
  ended-IsAccounted panicked = record {
    ids = i.ids;
    count = i.count;
    dropped = h.conn_log ∷ i.dropped;
    accounted = lost;
  }

module _ {proxy : ℕ → Bytes} {handle : ℕ → Action World (ℕ × ℕ)} where
  Step-IsAccounted : {s t : Served} → Step proxy handle s t → IsAccounted s → IsAccounted t
  unfolding finish
  Step-IsAccounted (accepts g s on) i = record {
    ids = i.ids;
    count = i.count;
    dropped = i.dropped;
    accounted = i.accounted;
  }
  Step-IsAccounted (begins g before behind s e) i =
      accept_conn-IsAccounted proxy g (record s { started = before ++ behind })
        (record { ids = i.ids; count = i.count; dropped = i.dropped; accounted = i.accounted })
  Step-IsAccounted (finishes h before behind s e) i =
      ended-IsAccounted h before behind s i e (handle h.listener h.world).0
  Step-IsAccounted (loop_ends n s) i = record {
    ids = i.ids;
    count = i.count;
    dropped = i.dropped;
    accounted = i.accounted;
  }

  -- Whatever the clients and the scheduler do, the accept lines carry the ids 1, 2, 3, … of a
  -- `uint64` in their order, and each connection of an accept line is still handled, or has one
  -- close line, or ended without one: no close line tells of another connection.
  pub Reach-IsAccounted :
      (accepting : ℕ → Bool) {s : Served} → Reach proxy handle (fresh accepting) s → IsAccounted s
  Reach-IsAccounted accepting here = fresh-IsAccounted accepting
  Reach-IsAccounted accepting (next r st) = Step-IsAccounted st (Reach-IsAccounted accepting r)

-- Below 2^64 the ids of `n` connections are at most `n`.
mem-numbered : (n a : ℕ) → n < 2 ^ 64 → Mem a (numbered n) → a ≤ n
mem-numbered zero a h m = absurd (not-mem-nil m)
mem-numbered (suc n) a h m =
    Or.elim le_prop (mem-cons.0 m) (λ e. omega (arith, e))
      (λ earlier. omega (arith, mem-numbered n a (omega arith) earlier))

numbered-Nodup : (n : ℕ) → n < 2 ^ 64 → Nodup (numbered n)
numbered-Nodup zero h = Nodup-nil
numbered-Nodup (suc n) h = Nodup-cons.1 (
  (λ m. absurd (omega (arith, h, mem-numbered n (suc n % 2 ^ 64) (omega arith) m))),
  numbered-Nodup n (omega arith),
)

-- The id correlates the two lines of a connection: below 2^64 connections no two accept lines
-- have the same id, nor have two close lines, and a close line's proxy, id and client are those of
-- an accept line.
pub Reach-Correlates :
    (proxy : ℕ → Bytes) (handle : ℕ → Action World (ℕ × ℕ)) (accepting : ℕ → Bool) (s : Served)
    → Reach proxy handle (fresh accepting) s
    → length (opened_of s.log) < 2 ^ 64
    → Nodup (map ConnLog.id (opened_of s.log))
      × Nodup (map ConnLog.id (closed_of s.log))
      × ((c : ConnLog) → Mem c (closed_of s.log) → Mem c (opened_of s.log))
Reach-Correlates proxy handle accepting s r few =
    let i = Reach-IsAccounted accepting r in
    let others = map Handling.conn_log s.handling ++ i.dropped in
    let distinct : Nodup (map ConnLog.id (opened_of s.log)) =
      rw (i.ids) (numbered-Nodup (length (opened_of s.log)) few) in
    let all : Nodup (map ConnLog.id (closed_of s.log ++ others)) =
      Permutation.nodup (Permutation.map ConnLog.id i.accounted) distinct in
    (
      distinct,
      Distinct.of_append_left (map ConnLog.id others)
          (subst Nodup (map-append ConnLog.id (closed_of s.log) others) all),
      λ c m. (Permutation.mem_iff i.accounted).1 (mem-append_left others m),
    )
